-- ===== src/Examples/Storage.antt =====
-- An object store in memory, and files that are put into it.
use shopble_stellar.Common.{
  String, ◌≡◌, refl, sym, ap, ◌∙◌, Option, none, some, [], ◌∷◌, take, ◌&&◌, ◌==◌, string_eq, eq_iff,
  if◌then◌else◌, arith,
}
use shopble_stellar.Glib.Media.{
  Bytes, MediaMeta, MediaResult, ok, Called, gives, fails, upload_key, upload_folder, Aws,
}
use shopble_stellar.Glib.Media.Minio
use shopble_stellar.Glib.Media.Minio.{StorageMinio, read_key, max_chars_per_file}
use shopble_stellar.Glib.Media.Minio.Laws.{IsStore, IsUp, read-upload}

abbrev Objects : Type 0
Objects = String → String → Option Bytes

abbrev with_object : String → String → Bytes → Objects → Objects
with_object b k bytes x b' k' = if b == b' && (k == k') then some bytes else x b' k'

abbrev body_of : Option Bytes → Called Unit Bytes
body_of none = fails tt
body_of (some bytes) = gives bytes

abbrev memory : Aws Unit Unit Unit Bytes Bytes Unit Objects
memory = record {
  load_default_config = λ region access secret x. (gives tt, x);
  new_from_config = λ cfg base. tt;
  new_presign_client = λ c. tt;
  presign_get_object = λ p b k n. gives k;
  put_object = λ c b k r t x. (gives tt, with_object b k r x);
  get_object = λ c b k x. (body_of (x b k), x);
  delete_object = λ c b k x. (gives tt, λ b' k'. if b == b' && (k == k') then none else x b' k');
  copy_body = λ body x. (gives body, x);
  read_limited = λ n body x. (gives (take n body), x);
  close_body = λ body x. x;
}

body_of-gives : (o : Option Bytes) {bytes : Bytes} → body_of o ≡ gives bytes → o ≡ some bytes
body_of-gives none h = cc
body_of-gives (some b) h = cc

memory-IsStore : IsStore memory (λ x. x) (λ r x. r) (λ body. body)
memory-IsStore = record {
  put_lem = λ c b k r t x {x'} h.
      ap (λ (p : Called Unit Unit × Objects). p.1 b k) (sym h)
      ∙ ground (arith, eq_iff b b, eq_iff k k);
  get_lem = λ c b k x {body} {x'} h. (
    body_of-gives (x b k) (ap (λ (p : Called Unit Bytes × Objects). p.0) h),
    ap (λ (p : Called Unit Bytes × Objects). p.1) (sym h),
  );
  copy_lem = λ body x {bytes} {x'} h. (
    cc (ap (λ (p : Called Unit Bytes × Objects). p.0) h),
    ap (λ (p : Called Unit Bytes × Objects). p.1) (sym h),
  );
  limited_lem = λ n body x {bytes} {x'} h. (
    cc (ap (λ (p : Called Unit Bytes × Objects). p.0) h),
    ap (λ (p : Called Unit Bytes × Objects). p.1) (sym h),
  );
  close_lem = λ body x. refl;
}

memory-IsUp : IsUp memory (λ x. x)
memory-IsUp = record {
  put = λ c b k r t x. (with_object b k r x, refl);
  presign = λ p b k n. (k, refl);
  get = λ c b k x {bytes} h. (bytes, (x, ap (λ (o : Option Bytes). (body_of o, x)) h));
  copy = λ body x. (body, (x, refl));
  limited = λ n body x. (take n body, (x, refl));
}

abbrev minio : StorageMinio Unit Unit
minio = record {
  client = some tt;
  bucket = "media";
  default_folder = "default";
  region = "";
  public_base_url = "";
  presign_client = tt;
  public_presign_client = none;
}

abbrev photo : MediaMeta Bytes
photo = record {
  reader = 1 ∷ 2 ∷ [];
  folder = "";
  file_name = "shoe.png";
  content_type = "image/png";
}

abbrev photo_in_folder : MediaMeta Bytes
photo_in_folder = record photo { folder = "default" }

abbrev nothing : Objects
nothing b k = none

same_key : read_key photo_in_folder ≡ upload_key "default" photo
unfolding read_key upload_key upload_folder
same_key = ground (arith, eq_iff "" "")

read-upload_example :
    (result : MediaResult) × ((x1 x2 : Objects) × (Minio.upload_file memory minio photo nothing
        ≡ (ok result, x1))
      × (result.object_key ≡ read_key photo_in_folder)
      × (Minio.read_file_buffer memory minio photo_in_folder x1 ≡ (ok (1 ∷ 2 ∷ []), x2)))
read-upload_example =
    read-upload memory (λ x. x) (λ r x. r) (λ body. body) memory-IsStore memory-IsUp minio tt refl
      photo photo_in_folder nothing (ground (arith, eq_iff "shoe.png" ""))
      (ground (arith, eq_iff "image/png" "")) same_key
