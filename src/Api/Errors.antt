-- ===== src/Api/Errors.antt =====
-- api/apierr/apierr.go. A response is its HTTP status and its body; gin writes it out.
use shopble_stellar.Common.{ℕ, String, List, [], ◌∷◌, ◌==◌, string_eq, if◌then◌else◌}

abbrev pub code_data_invalid : String
code_data_invalid = "DATA_INVALID"

abbrev pub code_not_found : String
code_not_found = "NOT_FOUND"

abbrev pub code_conflict : String
code_conflict = "CONFLICT"

abbrev pub code_invalid_status : String
code_invalid_status = "INVALID_STATUS"

abbrev pub code_internal : String
code_internal = "INTERNAL_ERROR"

-- A `gin.H` of texts, with one entry for a key.
abbrev pub Fields : Type 0
Fields = List (String × String)

abbrev pub put : String → String → Fields → Fields
put k v [] = (k, v) ∷ []
put k v (f ∷ rest) = let others = put k v rest in if f.0 == k then (k, v) ∷ rest else f ∷ others

-- status "ok" with the data, or status "error" with its fields
pub data Body {ℓ} (A : Type ℓ) : Type ℓ where
  ok : A → Body A
  error : Fields → Body A

pub record Response {ℓ} (A : Type ℓ) : Type ℓ where
  pub http_status : ℕ
  pub body : Body A

merge_map : Fields → Fields → Fields
merge_map [] fields = fields
merge_map ((k, v) ∷ rest) fields = merge_map rest (put k v fields)

merge : List Fields → Fields → Fields
unfolding merge_map
merge [] fields = fields
merge (m ∷ extra) fields = merge extra (merge_map m fields)

module _ {ℓ} {A : Type ℓ} where
  -- `Abort`
  unfoldable pub abort : ℕ → String → String → List Fields → Response A
  unfolding merge
  abort http_status err_code message extra = record {
    http_status = http_status;
    body = error (merge extra (("error_code", err_code) ∷ ("message", message) ∷ []));
  }

  abbrev pub json : A → Response A
  json a = record { http_status = 200; body = ok a }

  -- `BadRequest`, `Conflict`, `NotFound` and `Internal`
  abbrev pub bad_request : String → String → List Fields → Response A
  bad_request err_code msg extra = abort 400 err_code msg extra

  abbrev pub conflict : String → String → List Fields → Response A
  conflict err_code msg extra = abort 409 err_code msg extra

  abbrev pub not_found : String → Response A
  not_found msg = abort 404 code_not_found msg []

  abbrev pub internal : String → Response A
  internal msg = abort 500 code_internal msg []
