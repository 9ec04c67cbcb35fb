-- ===== src/Glib/Media.antt =====
-- glib/gmedia: what the four storages share. The code behind the clients (the SDKs of Amazon and
-- Google, the file system, net/url) is taken as interfaces over an unknown state `X`; `R` is the
-- type of readers and `E` that of their errors.
pub mod Minio
pub mod S3
pub mod Local
pub mod Google
pub mod Clients
use shopble_stellar.Common.{
  ℕ, String, ◌<>◌, Bool, Option, none, some, List, ◌==◌, string_eq, if◌then◌else◌,
}

abbrev pub Bytes : Type 0
Bytes = List ℕ

pub record MediaMeta (R : Type 0) : Type 0 where
  pub reader : R
  pub folder : String
  pub file_name : String
  pub content_type : String

-- `MultipleMediaFileResult`
pub record FileContent : Type 0 where
  pub id : String
  pub content : Bytes

pub record MediaResult : Type 0 where
  pub preview_link : String
  pub bucket : String
  pub object_key : String

-- `MediaResult{}`
abbrev pub no_result : MediaResult
no_result = record { preview_link = ""; bucket = ""; object_key = "" }

-- `ErrorDataInvalid` with a message, the error of a library with a message, or that error itself.
pub data MediaError (E : Type 0) : Type 0 where
  invalid : String → MediaError E
  wrapped : String → E → MediaError E
  plain : E → MediaError E

pub data Answer (E A : Type 0) : Type 0 where
  ok : A → Answer E A
  err : MediaError E → Answer E A
  panics : Answer E A

-- What a call of a library does.
pub data Called (E A : Type 0) : Type 0 where
  gives : A → Called E A
  fails : E → Called E A
  crashes : Called E A

module _ {E A B : Type 0} where
  -- The rest of a function after a call: an error is returned with a message before it.
  abbrev pub or_wrap : String → Called E A → (A → Answer E B) → Answer E B
  or_wrap message (gives a) f = f a
  or_wrap message (fails e) f = err (wrapped message e)
  or_wrap message crashes f = panics

  -- The same where the rest changes the state.
  abbrev pub then_wrap :
      {X : Type 0} → String → Called E A × X → (A → X → Answer E B × X) → Answer E B × X
  then_wrap message (gives a, x) f = f a x
  then_wrap message (fails e, x) f = (err (wrapped message e), x)
  then_wrap message (crashes, x) f = (panics, x)

  -- The same where the error is returned as it is.
  abbrev pub then_plain : {X : Type 0} → Called E A × X → (A → X → Answer E B × X) → Answer E B × X
  then_plain (gives a, x) f = f a x
  then_plain (fails e, x) f = (err (plain e), x)
  then_plain (crashes, x) f = (panics, x)

abbrev pub name_required : String
name_required = "fileName is required"

abbrev pub type_required : String
type_required = "content type is empty"

-- The folder of the file, or the storage's own.
unfoldable pub upload_folder : {R : Type 0} → String → MediaMeta R → String
upload_folder default_folder file = if file.folder == "" then default_folder else file.folder

unfoldable pub upload_key : {R : Type 0} → String → MediaMeta R → String
unfolding upload_folder
upload_key default_folder file = upload_folder default_folder file <> "/" <> file.file_name

-- The fields of `ConfigMeta`.
pub record ConfigMeta : Type 0 where
  pub is_default : Bool
  pub bucket : String
  pub default_folder : String
  pub credentials_path : String
  pub access_key : String
  pub secret_key : String
  pub region : String
  pub internal_base_url : String
  pub public_base_url : String

-- The calls of github.com/aws/aws-sdk-go-v2 and of io on what it returns; a client may be nil.
pub record Aws (C P Cfg R B E X : Type 0) : Type 0 where
  -- `LoadDefaultConfig` with a region, if one is given, and static credentials
  pub load_default_config : Option String → String → String → X → Called E Cfg × X
  -- `NewFromConfig`, with a base URL and path style, if one is given
  pub new_from_config : Cfg → Option String → C
  pub new_presign_client : C → P
  -- `PresignGetObject` with the time to expire in seconds
  pub presign_get_object : P → String → String → ℕ → Called E String
  pub put_object : Option C → String → String → R → String → X → Called E Unit × X
  pub get_object : Option C → String → String → X → Called E B × X
  pub delete_object : Option C → String → String → X → Called E Unit × X
  -- `io.Copy` into a buffer, and `io.ReadAll` of an `io.LimitReader`
  pub copy_body : B → X → Called E Bytes × X
  pub read_limited : ℕ → B → X → Called E Bytes × X
  pub close_body : B → X → X
