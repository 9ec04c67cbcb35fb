-- ===== src/Glib/Media/Local.antt =====
-- glib/gmedia/storage_local.go over the file system, net/url and path/filepath.
use shopble_stellar.Common.{ℕ, String, ◌<>◌, Option, some, List, [], ◌==◌, string_eq, if◌then◌else◌}
use shopble_stellar.Glib.Media.{
  Bytes, MediaMeta, FileContent, MediaResult, no_result, Answer, ok, err, MediaError, Called,
  then_plain, name_required, upload_folder, ConfigMeta,
}

-- A parsed URL has a host and a path; `F` is the type of open files.
pub record Os (F R E X : Type 0) : Type 0 where
  pub dir : String → String
  pub parse : String → Called E (String × String)
  pub mkdir_all : String → X → Called E Unit × X
  pub create : String → X → Called E F × X
  pub open_file : String → X → Called E F × X
  -- `io.Copy` from a reader to a file, and from a file to a buffer
  pub copy_in : F → R → X → Called E Unit × X
  pub copy_out : F → X → Called E Bytes × X
  pub close_file : F → X → X

pub record StorageLocal : Type 0 where
  pub bucket : String

-- `newStorageLocal`
unfoldable pub new_storage_local : {E : Type 0} → ConfigMeta → Answer E StorageLocal
new_storage_local conf = ok (record { bucket = conf.bucket })

module _ {F R E X : Type 0} (os : Os F R E X) where
  -- The end of a function that has opened a file: it is closed on every way out.
  abbrev closing : {A : Type 0} → F → Answer E A × X → Answer E A × X
  closing file (answer, x) = (answer, os.close_file file x)

  -- `UploadFile`
  unfoldable pub upload_file : StorageLocal → MediaMeta R → X → Answer E MediaResult × X
  upload_file s file x =
      if file.file_name == ""
      then (err (MediaError.invalid name_required), x)
      else let folder_file = upload_folder s.bucket file <> "/" <> file.file_name in
        then_plain (os.mkdir_all (os.dir folder_file) x) (λ made x1.
          then_plain (os.create folder_file x1) (λ os_file x2.
            closing os_file
              (then_plain (os.copy_in os_file file.reader x2) (λ done x3. (ok no_result, x3)))))

  opened : String × String → X → Answer E (Option Bytes) × X
  opened (host, path) x = then_plain (os.open_file (host <> path) x) (λ os_file x1.
      closing os_file (then_plain (os.copy_out os_file x1) (λ buffer x2. (ok (some buffer), x2))))

  -- `ReadFileBuffer`: the file name is taken as a URL; the folder is not read.
  unfoldable pub read_file_buffer : MediaMeta R → X → Answer E (Option Bytes) × X
  unfolding opened
  read_file_buffer file x = then_plain (os.parse file.file_name, x) opened

-- `ReadMultipleFiles`, `GeneratePreviewLink` and `DeleteFile`
module _ {R E X : Type 0} where
  unfoldable pub read_multiple_files : List (MediaMeta R) → X → Answer E (List FileContent) × X
  read_multiple_files files x = (ok [], x)

unfoldable pub generate_preview_link : {E : Type 0} → String → ℕ → Answer E String
generate_preview_link object_key expire_in = ok ""

unfoldable pub delete_file : {E X : Type 0} → String → X → Answer E Unit × X
delete_file object_key x = (ok tt, x)
