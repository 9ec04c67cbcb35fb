-- ===== src/Glib/Media/Minio.antt =====
-- glib/gmedia/storage_minio.go
pub mod Laws
use shopble_stellar.Common.{
  ℕ, String, ◌<>◌, not, Bool, true, false, Option, none, some, List, [], ◌∷◌, ◌++◌, ◌==◌, string_eq,
  if◌then◌else◌,
}
use shopble_stellar.Glib.Media.{
  Bytes, MediaMeta, FileContent, MediaResult, Answer, ok, err, panics, MediaError, Called, or_wrap,
  then_wrap, name_required, type_required, upload_key, ConfigMeta, Aws,
}

pub record StorageMinio (C P : Type 0) : Type 0 where
  pub client : Option C
  pub bucket : String
  pub default_folder : String
  pub region : String
  pub public_base_url : String
  pub presign_client : P
  pub public_presign_client : Option P

abbrev pub max_chars_per_file : ℕ
max_chars_per_file = 1024

-- Twelve hours in seconds.
abbrev pub link_seconds : ℕ
link_seconds = 43200

-- The key of the functions that read.
unfoldable pub read_key : {R : Type 0} → MediaMeta R → String
read_key file = file.folder <> "/" <> file.file_name

abbrev pub presigner : {P : Type 0} → P → Option P → P
presigner own none = own
presigner own (some public_one) = public_one

module _ {C P Cfg R B E X : Type 0} (aws : Aws C P Cfg R B E X) where
  public_presigner : String → Cfg → Option P
  public_presigner url cfg =
      if not (url == "")
      then some (aws.new_presign_client (aws.new_from_config cfg (some url)))
      else none

  built : ConfigMeta → Called E Cfg × X → Answer E (StorageMinio C P) × X
  unfolding public_presigner
  built conf (Called.fails e, x) = (err (MediaError.plain e), x)
  built conf (Called.crashes, x) = (panics, x)
  built conf (Called.gives cfg, x) =
      let client = aws.new_from_config cfg (some conf.internal_base_url) in
      (
        ok (record {
          client = some client;
          bucket = conf.bucket;
          default_folder = conf.default_folder;
          region = conf.region;
          public_base_url = conf.public_base_url;
          presign_client = aws.new_presign_client client;
          public_presign_client = public_presigner conf.public_base_url cfg;
        }),
        x,
      )

  -- `newStorageMinio`
  unfoldable pub new_storage_minio : ConfigMeta → X → Answer E (StorageMinio C P) × X
  unfolding built
  new_storage_minio conf x =
      built conf (aws.load_default_config (some "minio-local") conf.access_key conf.secret_key x)

  module _ (s : StorageMinio C P) where
    -- `GeneratePreviewLink`
    unfoldable pub generate_preview_link : String → ℕ → Answer E String
    generate_preview_link object_key expire_in =
        or_wrap "presign object key failed"
          (aws.presign_get_object (presigner s.presign_client s.public_presign_client) s.bucket
            object_key expire_in)
          (λ url. ok url)

    linked : String → Answer E String → Answer E MediaResult
    linked object_key (ok link) =
        ok (record { preview_link = link; bucket = s.bucket; object_key = object_key })
    linked object_key (err e) = err e
    linked object_key panics = panics

    -- `UploadFile`
    unfoldable pub upload_file : MediaMeta R → X → Answer E MediaResult × X
    unfolding linked
    upload_file file x =
        if file.file_name == ""
        then (err (MediaError.invalid name_required), x)
        else if file.content_type == ""
        then (err (MediaError.invalid type_required), x)
        else let object_key = upload_key s.default_folder file in
          then_wrap "upload file failed"
            (aws.put_object s.client s.bucket object_key file.reader file.content_type x)
            (λ done x'. (linked object_key (generate_preview_link object_key link_seconds), x'))

    copied : B → Called E Bytes × X → Answer E Bytes × X
    copied body (Called.gives buffer, x) = (ok buffer, aws.close_body body x)
    copied body (Called.fails e, x) =
        (err (MediaError.wrapped "read object body failed" e), aws.close_body body x)
    copied body (Called.crashes, x) = (panics, aws.close_body body x)

    -- `ReadFileBuffer`
    unfoldable pub read_file_buffer : MediaMeta R → X → Answer E Bytes × X
    unfolding copied
    read_file_buffer file x =
        let object_key = read_key file in
        if object_key == ""
        then (err (MediaError.invalid "object key is empty"), x)
        else then_wrap "get object failed" (aws.get_object s.client s.bucket object_key x)
            (λ body x'. copied body (aws.copy_body body x'))

    -- One file of `ReadMultipleFiles`; the body is closed before the error is looked at.
    unfoldable pub read_start : MediaMeta R → X → Answer E Bytes × X
    read_start file x =
        let object_key = read_key file in
        if object_key == ""
        then (err (MediaError.invalid "object key is empty"), x)
        else then_wrap ("get object failed for key: " <> object_key)
            (aws.get_object s.client s.bucket object_key x)
            (λ body x'.
              let (content, x2) = aws.read_limited max_chars_per_file body x' in
              then_wrap ("read object body failed for key: " <> object_key)
                (content, aws.close_body body x2) (λ bytes x3. (ok bytes, x3)))

    with_first : String → Bytes → Answer E (List FileContent) × X → Answer E (List FileContent) × X
    with_first name bytes (ok rest, x) = (ok (record { id = name; content = bytes } ∷ rest), x)
    with_first name bytes (err e, x) = (err e, x)
    with_first name bytes (panics, x) = (panics, x)

    -- `ReadMultipleFiles`: the first error ends it, and nothing is returned but the error.
    unfoldable pub read_multiple_files : List (MediaMeta R) → X → Answer E (List FileContent) × X
    unfolding with_first
    read_multiple_files [] x = (ok [], x)
    read_multiple_files (file ∷ rest) x = elim ((read_start file x).0) [
      | ok bytes ↦ with_first file.file_name bytes (read_multiple_files rest (read_start file x).1)
      | err e ↦ (err e, (read_start file x).1)
      | panics ↦ (panics, (read_start file x).1)
    ]

    -- `DeleteFile`
    unfoldable pub delete_file : String → X → Answer E Unit × X
    delete_file object_key x =
        then_wrap "delete file failed" (aws.delete_object s.client s.bucket object_key x)
          (λ done x'. (ok done, x'))

  -- `Close`
  unfoldable pub close : StorageMinio C P → StorageMinio C P
  close s = record s { client = none }
