-- ===== src/Glib/Media/Minio/Laws.antt =====
-- What is uploaded is what is read, over an object store that behaves as documented.

use mathlib.Core.Option.{some-injective}
use text.Mathlib.TextLemmas.{append_cancel_right, append-eq-nil_iff}
use shopble_stellar.Common.{
  ℕ, String, ◌<>◌, ◌≡◌, refl, sym, ap, ◌∙◌, ◌≢◌, ◌↔◌, ◌⊎◌, inl, inr, Bool-cases, false, Option,
  some, List, ◌∷◌, map, take, All, subst, arith, ◌==◌, string_eq, eq_iff,
}
use shopble_stellar.Glib.Media.{
  Bytes, MediaMeta, FileContent, MediaResult, Answer, ok, gives, upload_key, Aws,
}
use shopble_stellar.Glib.Media.Minio.{
  StorageMinio, presigner, read_key, generate_preview_link, upload_file, read_file_buffer,
  read_start, read_multiple_files, max_chars_per_file, link_seconds,
}

-- The same file is read under the key that it was uploaded to exactly when it names its folder, or
-- the storage has no default folder.
pub read_key-upload_key_iff :
    {R : Type 0} (default_folder : String) (file : MediaMeta R)
    → (read_key file ≡ upload_key default_folder file)
      ↔ ((file.folder ≢ "") ⊎ (default_folder ≡ ""))
unfolding read_key upload_key
read_key-upload_key_iff default_folder file = elim (Bool-cases (file.folder == "")) [
  | inl empty ↦
      let none_named : file.folder ≡ "" = (eq_iff file.folder "").0 empty in
      rw empty (
        λ e. inr (
            sym (append_cancel_right file.folder default_folder ("/" <> file.file_name) e)
            ∙ none_named),
        λ h. elim h [
          | inl other ↦ absurd (other none_named)
          | inr no_default ↦
              ap (λ (x : String). x <> "/" <> file.file_name) (none_named ∙ sym no_default)
        ],
      )
  | inr named ↦
      rw named
        (λ e. inl (λ none_named. cc (named, (eq_iff file.folder "").1 none_named)), λ h. refl)
]

module _ {C P Cfg R B E X : Type 0} (aws : Aws C P Cfg R B E X) where
  -- An object store: `objects` is what it holds, `sent` what a reader delivers, and `contents` what
  -- a body holds. Calls that give an answer do what they are documented to do.
  pub record IsStore (objects : X → String → String → Option Bytes) (sent : R → X → Bytes)
      (contents : B → Bytes) : Type 0 where
    pub put_lem :
        (c : Option C) (b k : String) (r : R) (t : String) (x : X) {x' : X}
        → aws.put_object c b k r t x ≡ (gives tt, x')
        → objects x' b k ≡ some (sent r x)
    pub get_lem :
        (c : Option C) (b k : String) (x : X) {body : B} {x' : X}
        → aws.get_object c b k x ≡ (gives body, x')
        → (objects x b k ≡ some (contents body)) × (objects x' ≡ objects x)
    pub copy_lem :
        (body : B) (x : X) {bytes : Bytes} {x' : X}
        → aws.copy_body body x ≡ (gives bytes, x')
        → (bytes ≡ contents body) × (objects x' ≡ objects x)
    pub limited_lem :
        (n : ℕ) (body : B) (x : X) {bytes : Bytes} {x' : X}
        → aws.read_limited n body x ≡ (gives bytes, x')
        → (bytes ≡ take n (contents body)) × (objects x' ≡ objects x)
    pub close_lem : (body : B) (x : X) → objects (aws.close_body body x) ≡ objects x

  -- The store can be reached: every call with a client gives an answer.
  pub record IsUp (objects : X → String → String → Option Bytes) : Type 0 where
    pub put :
        (c : C) (b k : String) (r : R) (t : String) (x : X)
        → (x' : X) × (aws.put_object (some c) b k r t x ≡ (gives tt, x'))
    pub presign :
        (p : P) (b k : String) (n : ℕ)
        → (url : String) × (aws.presign_get_object p b k n ≡ gives url)
    pub get :
        (c : C) (b k : String) (x : X) {bytes : Bytes}
        → objects x b k ≡ some bytes
        → (body : B) × ((x' : X) × (aws.get_object (some c) b k x ≡ (gives body, x')))
    pub copy :
        (body : B) (x : X)
        → (bytes : Bytes) × ((x' : X) × (aws.copy_body body x ≡ (gives bytes, x')))
    pub limited :
        (n : ℕ) (body : B) (x : X)
        → (bytes : Bytes) × ((x' : X) × (aws.read_limited n body x ≡ (gives bytes, x')))

-- The guard of the readers against an empty key never fires.
key-nonempty : {R : Type 0} (file : MediaMeta R) → (read_key file == "") ≡ false
unfolding read_key
key-nonempty file = elim (Bool-cases (read_key file == "")) [
  | inr full ↦ full
  | inl empty ↦
      let rest = ((append-eq-nil_iff).0 ((eq_iff (read_key file) "").0 empty)).1 in
      let slash = ((append-eq-nil_iff).0 rest).0 in absurd (ground (arith, eq_iff "/" "", slash))
]

module _ {C P Cfg R B E X : Type 0} (aws : Aws C P Cfg R B E X)
    (objects : X → String → String → Option Bytes) (sent : R → X → Bytes) (contents : B → Bytes)
    (store : IsStore aws objects sent contents) (up : IsUp aws objects) (s : StorageMinio C P)
    (c : C) (there : s.client ≡ some c) where
  link : (key : String) → (url : String) × (generate_preview_link aws s key link_seconds ≡ ok url)
  unfolding generate_preview_link
  link key =
      let (url, made) =
        up.presign (presigner s.presign_client s.public_presign_client) s.bucket key link_seconds in
      (url, rw made)

  upload_lem :
      (file : MediaMeta R) (x : X)
      → file.file_name ≢ ""
      → file.content_type ≢ ""
      → (result : MediaResult) × ((x' : X) × (upload_file aws s file x ≡ (ok result, x'))
          × (result.object_key ≡ upload_key s.default_folder file)
          × (objects x' s.bucket (upload_key s.default_folder file) ≡ some (sent file.reader x)))
  unfolding upload_file
  upload_lem file x name kind =
      let key = upload_key s.default_folder file in
      let (url, made) = link key in
      let (x', put) = up.put c s.bucket key file.reader file.content_type x in
      let sends =
        ap (λ (o : Option C). aws.put_object o s.bucket key file.reader file.content_type x) there
        ∙ put in
      let named : (file.file_name == "") ≡ false = ground (arith, eq_iff file.file_name "") in
      let typed : (file.content_type == "") ≡ false = ground (arith, eq_iff file.content_type "") in
      (
        record { preview_link = url; bucket = s.bucket; object_key = key },
        (
          x',
          rw (named, typed, sends, made),
          refl,
          store.put_lem (some c) s.bucket key file.reader file.content_type x put,
        ),
      )

  read_lem :
      (file : MediaMeta R) (x : X) {bytes : Bytes}
      → objects x s.bucket (read_key file) ≡ some bytes
      → (x' : X) × (read_file_buffer aws s file x ≡ (ok bytes, x'))
  unfolding read_file_buffer
  read_lem file x stored =
      let (body, (x1, got)) = up.get c s.bucket (read_key file) x stored in
      let (bytes, (x2, copied)) = up.copy body x1 in
      let nonempty : (read_key file == "") ≡ false = key-nonempty file in
      (
        aws.close_body body x2,
        rw (nonempty, there, got, copied)
            (ap (λ (b : Bytes). (ok b, aws.close_body body x2))
              ((store.copy_lem body x1 copied).0
                ∙ some-injective _ _
                    (sym (store.get_lem (some c) s.bucket (read_key file) x got).0 ∙ stored))),
      )

  -- A file that is uploaded with a name and a content type, to a store that can be reached, is
  -- read back as its reader delivered it, under any folder and name that make the key of the
  -- upload; and that is the key that the upload returns.
  pub read-upload :
      (file asked : MediaMeta R) (x : X)
      → file.file_name ≢ ""
      → file.content_type ≢ ""
      → read_key asked ≡ upload_key s.default_folder file
      → (result : MediaResult) × ((x1 x2 : X) × (upload_file aws s file x ≡ (ok result, x1))
          × (result.object_key ≡ read_key asked)
          × (read_file_buffer aws s asked x1 ≡ (ok (sent file.reader x), x2)))
  read-upload file asked x name kind same =
      let (result, (x1, uploaded, key, stored)) = upload_lem file x name kind in
      let (x2, found) = read_lem asked x1 (ap (objects x1 s.bucket) same ∙ stored) in
      (result, (x1, x2, uploaded, key ∙ sym same, found))

  read_start_lem :
      (file : MediaMeta R) (x : X) {bytes : Bytes}
      → objects x s.bucket (read_key file) ≡ some bytes
      → (x' : X) × (read_start aws s file x ≡ (ok (take max_chars_per_file bytes), x'))
        × (objects x' ≡ objects x)
  unfolding read_start
  read_start_lem file x stored =
      let (body, (x1, got)) = up.get c s.bucket (read_key file) x stored in
      let (bytes, (x2, limited)) = up.limited max_chars_per_file body x1 in
      let nonempty : (read_key file == "") ≡ false = key-nonempty file in
      let (held, same1) = store.get_lem (some c) s.bucket (read_key file) x got in
      let (cut, same2) = store.limited_lem max_chars_per_file body x1 limited in
      let whole = some-injective _ _ (sym held ∙ stored) in
      (
        aws.close_body body x2,
        rw (nonempty, there, got, limited)
            (ap (λ (b : Bytes). (ok b, aws.close_body body x2))
              (cut ∙ ap (take max_chars_per_file) whole)),
        store.close_lem body x2 ∙ same2 ∙ same1,
      )

  read_first :
      (file : MediaMeta R) (rest : List (MediaMeta R)) (x : X) {bytes : Bytes} {x1 x2 : X}
      {results : List FileContent}
      → read_start aws s file x ≡ (ok bytes, x1)
      → read_multiple_files aws s rest x1 ≡ (ok results, x2)
      → read_multiple_files aws s (file ∷ rest) x
        ≡ (ok (record { id = file.file_name; content = bytes } ∷ results), x2)
  unfolding read_multiple_files
  read_first file rest x first done =
      rw (read_multiple_files, first, ap (λ (r : Answer E Bytes × X). r.1) first, done)

  -- Where every file is stored and the store can be reached, `ReadMultipleFiles` returns one result
  -- for each file, in order, with its name and the first 1024 bytes of what is stored, and leaves
  -- the store as it is.
  pub read_multiple_files_lem :
      (held : MediaMeta R → Bytes) (files : List (MediaMeta R)) (x : X)
      → All (λ file. objects x s.bucket (read_key file) ≡ some (held file)) files
      → (x' : X) × (read_multiple_files aws s files x ≡ (
        ok (
            map
              (λ file. record {
                id = file.file_name;
                content = take max_chars_per_file (held file);
              })
              files),
        x',
      ))
        × (objects x' ≡ objects x)
  unfolding read_multiple_files
  read_multiple_files_lem held List.[] x stored = (x, refl, refl)
  read_multiple_files_lem held (file ∷ rest) x (stored, others) =
      let (x1, first, same) = read_start_lem file x stored in
      let (x2, done, same2) = read_multiple_files_lem held rest x1 (
        subst
          (λ (o : String → String → Option Bytes).
            All (λ f. o s.bucket (read_key f) ≡ some (held f)) rest)
          (sym same) others) in
      (x2, read_first file rest x first done, same2 ∙ same)
