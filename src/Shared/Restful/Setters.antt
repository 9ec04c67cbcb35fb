-- ===== src/Shared/Restful/Setters.antt =====
-- The setters of RequestV2 in common/comrestful/manager.go: what they leave of the options, and what
-- RequestV2 then sends. mime/multipart is the interface `Multipart`.
pub mod Laws
use shopble_stellar.Common.{
  ℕ, String, ◌≡◌, ◌≢◌, ◌⊎◌, refl, sym, ap, ◌∙◌, subst, inl, inr, Bool, Bool-cases, true, false, not,
  ◌&&◌, ◌||◌, Option, Option-cases, none, some, List, [], ◌∷◌, ◌==◌, string_eq, eq_iff,
  if◌then◌else◌,
}
use mathlib.Core.Option.{some-injective}
use shopble_stellar.Stellar.Text.{contains}

-- A writer with its buffer. Each call but `new_writer` may fail.
pub record Multipart (F : Type 0) : Type 0 where
  pub new_writer : F
  pub form_file : String → List ℕ → F → Option F
  pub write_field : String → String → F → Option F
  pub close : F → Option F
  pub content_type : F → String
  pub bytes : F → List ℕ

-- `RequestV2Option`: the form is the buffer with its writer, which are set together.
pub record V2Option (F : Type 0) : Type 0 where
  pub json_body : Option (List ℕ)
  pub form : Option F
  pub content_type : String

abbrev pub no_option : {F : Type 0} → V2Option F
no_option = record { json_body = none; form = none; content_type = "" }

abbrev pub form_data : String
form_data = "multipart/form-data"

abbrev pub json_type : String
json_type = "application/json"

abbrev form_or : {F : Type 0} → F → Option F → F
form_or new none = new
form_or new (some form) = form

-- The calls with their arguments; the last is the marshalled value, if it can be marshalled.
pub data Setter : Type 0 where
  with_form_file : String → List ℕ → Setter
  with_form_field : String → String → Setter
  with_json : Option (List ℕ) → Setter

module _ {F : Type 0} (mp : Multipart F) where
  -- What both form setters do when the part is written.
  form_set : V2Option F → Option F → Option (V2Option F)
  form_set opt none = none
  form_set opt (some form) =
      some (record opt { form = some form; content_type = mp.content_type form })

  json_set : V2Option F → Option (List ℕ) → Option (V2Option F)
  json_set opt none = none
  json_set opt (some buff) = some (record opt { json_body = some buff; content_type = json_type })

  -- `WithFormFile`, `WithFormField` and `WithJSON`
  unfoldable pub set_option : Setter → V2Option F → Option (V2Option F)
  unfolding form_set json_set
  set_option (with_form_file name file) opt =
      if not (opt.content_type == "") && not (contains opt.content_type form_data)
      then none
      else form_set opt (mp.form_file name file (form_or mp.new_writer opt.form))
  set_option (with_form_field name value) opt =
      if not (opt.content_type == "") && not (contains opt.content_type form_data)
      then none
      else form_set opt (mp.write_field name value (form_or mp.new_writer opt.form))
  set_option (with_json buff) opt =
      if not (opt.content_type == "") && not (opt.content_type == json_type)
      then none
      else json_set opt buff

  then_rest : (V2Option F → Option (V2Option F)) → Option (V2Option F) → Option (V2Option F)
  then_rest rest none = none
  then_rest rest (some opt) = rest opt

  -- The loop over the setters of RequestV2.
  unfoldable pub set_options : List Setter → V2Option F → Option (V2Option F)
  unfolding then_rest
  set_options [] opt = some opt
  set_options (setter ∷ setters) opt = then_rest (set_options setters) (set_option setter opt)

  json_over : Option (List ℕ) → Option (List ℕ) → Option (List ℕ)
  json_over none body = body
  json_over (some json) body = some json

  closed_body : Option F → Option (Option (List ℕ))
  closed_body none = some none
  closed_body (some form) = elim (mp.close form) [ none ↦ none | some f ↦ some (some (mp.bytes f)) ]

  -- The body and the content type of the request; "" is no content type.
  unfoldable pub v2_body : V2Option F → Option (Option (List ℕ) × String)
  unfolding json_over closed_body
  v2_body opt = elim (closed_body opt.form) [
    | none ↦ none
    | some body ↦ some (json_over opt.json_body body, opt.content_type)
  ]
