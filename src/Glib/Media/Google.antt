-- ===== src/Glib/Media/Google.antt =====
-- glib/gmedia/storage_google.go over cloud.google.com/go/storage; a client may be nil.
pub mod Laws
use shopble_stellar.Common.{
  ℕ, String, ◌<>◌, Option, none, some, List, [], ◌==◌, string_eq, if◌then◌else◌,
}
use shopble_stellar.Glib.Media.{
  Bytes, MediaMeta, FileContent, MediaResult, no_result, Answer, ok, err, panics, MediaError,
  Called, then_plain, name_required, upload_key, ConfigMeta,
}

-- `W` is the type of writers. The errors of the two `Close` are not read.
pub record Gcs (C W R E X : Type 0) : Type 0 where
  pub new_client : String → X → Called E C × X
  -- `Bucket(bucket).Object(path).NewWriter(ctx)`
  pub new_writer : Option C → String → String → X → Called E W × X
  pub copy : W → R → X → Called E Unit × X
  pub close_writer : W → X → X
  pub close_client : C → X → X

pub record StorageGoogle (C : Type 0) : Type 0 where
  pub client : Option C
  pub bucket : String
  pub default_folder : String

module _ {C W R E X : Type 0} (gcs : Gcs C W R E X) where
  -- `newStorageGoogle`
  unfoldable pub new_storage_google : ConfigMeta → X → Answer E (StorageGoogle C) × X
  new_storage_google conf x = then_plain (gcs.new_client conf.credentials_path x) (λ client x'. (
    ok (record {
      client = some client;
      bucket = conf.bucket;
      default_folder = conf.default_folder;
    }),
    x',
  ))

  closed : Option C → X → X
  closed none x = x
  closed (some client) x = gcs.close_client client x

  -- `Close`
  unfoldable pub close : StorageGoogle C → X → StorageGoogle C × X
  unfolding closed
  close s x = (record s { client = none }, closed s.client x)

  -- What `UploadFile` does before its client is closed.
  written : StorageGoogle C → MediaMeta R → X → Answer E MediaResult × X
  written s file x =
      if file.file_name == ""
      then (err (MediaError.invalid name_required), x)
      else then_plain (gcs.new_writer s.client s.bucket (upload_key s.default_folder file) x)
          (λ writer x1.
            let (answer, x2) =
              then_plain (gcs.copy writer file.reader x1) (λ done x'. (ok no_result, x')) in
            (answer, gcs.close_writer writer x2))

  -- `UploadFile`: the client is closed on every way out.
  unfoldable pub upload_file :
      StorageGoogle C → MediaMeta R → X → Answer E MediaResult × (StorageGoogle C × X)
  unfolding written
  upload_file s file x = let (answer, x1) = written s file x in (answer, close s x1)

-- `ReadMultipleFiles`, `GeneratePreviewLink`, `ReadFileBuffer` (the nil buffer is `none`) and
-- `DeleteFile`
module _ {R E X : Type 0} where
  unfoldable pub read_multiple_files : List (MediaMeta R) → X → Answer E (List FileContent) × X
  read_multiple_files files x = (ok [], x)

  unfoldable pub read_file_buffer : MediaMeta R → X → Answer E (Option Bytes) × X
  read_file_buffer file x = (ok none, x)

unfoldable pub generate_preview_link : {E : Type 0} → String → ℕ → Answer E String
generate_preview_link object_key expire_in = ok ""

unfoldable pub delete_file : {E X : Type 0} → String → X → Answer E Unit × X
delete_file object_key x = (ok tt, x)
