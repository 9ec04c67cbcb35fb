-- ===== src/Glib/Media/S3.antt =====
-- glib/gmedia/storage_s3.go: only the upload does anything; what else it answers is nothing.
use shopble_stellar.Common.{ℕ, String, Option, none, some, List, [], ◌==◌, string_eq, if◌then◌else◌}
use shopble_stellar.Glib.Media.{
  Bytes, MediaMeta, FileContent, MediaResult, no_result, Answer, ok, err, MediaError, then_plain,
  then_wrap, name_required, type_required, upload_key, ConfigMeta, Aws,
}

pub record StorageS3 (C : Type 0) : Type 0 where
  pub client : Option C
  pub bucket : String
  pub default_folder : String
  pub region : String

module _ {C P Cfg R B E X : Type 0} (aws : Aws C P Cfg R B E X) where
  -- `newStorageS3`
  unfoldable pub new_storage_s3 : ConfigMeta → X → Answer E (StorageS3 C) × X
  new_storage_s3 conf x =
      then_plain (aws.load_default_config none conf.access_key conf.secret_key x) (λ cfg x'. (
        ok (record {
          client = some (aws.new_from_config cfg none);
          bucket = conf.bucket;
          default_folder = conf.default_folder;
          region = conf.region;
        }),
        x',
      ))

  module _ (s : StorageS3 C) where
    -- `UploadFile`
    unfoldable pub upload_file : MediaMeta R → X → Answer E MediaResult × X
    upload_file file x =
        if file.file_name == ""
        then (err (MediaError.invalid name_required), x)
        else if file.content_type == ""
        then (err (MediaError.invalid type_required), x)
        else then_wrap "upload file failed"
            (aws.put_object s.client s.bucket (upload_key s.default_folder file) file.reader
              file.content_type x)
            (λ done x'. (ok no_result, x'))

    -- `ReadMultipleFiles`, `GeneratePreviewLink`, `ReadFileBuffer` (the nil buffer is `none`) and
    -- `DeleteFile`
    unfoldable pub read_multiple_files : List (MediaMeta R) → X → Answer E (List FileContent) × X
    read_multiple_files files x = (ok [], x)

    unfoldable pub generate_preview_link : String → ℕ → Answer E String
    generate_preview_link object_key expire_in = ok ""

    unfoldable pub read_file_buffer : MediaMeta R → X → Answer E (Option Bytes) × X
    read_file_buffer file x = (ok none, x)

    unfoldable pub delete_file : String → X → Answer E Unit × X
    delete_file object_key x = (ok tt, x)

  -- `Close`
  unfoldable pub close : StorageS3 C → StorageS3 C
  close s = record s { client = none }
