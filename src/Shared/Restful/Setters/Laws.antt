-- ===== src/Shared/Restful/Setters/Laws.antt =====
-- A request of RequestV2 is JSON or a form, never both.
use shopble_stellar.Common.{
  ℕ, String, ◌≡◌, refl, sym, ap, ◌∙◌, inl, inr, Bool, Bool-cases, true, false, Option, Option-cases,
  none, some, List, [], ◌∷◌, All, ◌==◌, string_eq, eq_iff,
}
use mathlib.Core.Option.{some-injective}
use shopble_stellar.Stellar.Text.{contains}
use shopble_stellar.Shared.Restful.Setters.{
  Multipart, V2Option, no_option, form_data, json_type, Setter, with_form_file, with_form_field,
  with_json, form_set, json_set, set_option, then_rest, set_options, json_over, closed_body,
  v2_body,
}

abbrev pub is_json : Setter → Bool
is_json (with_form_file name file) = false
is_json (with_form_field name value) = false
is_json (with_json buff) = true

-- The JSON of the last `WithJSON`, when `buff` is what came before.
abbrev pub last_json : List ℕ → List Setter → List ℕ
last_json buff [] = buff
last_json buff (with_form_file name file ∷ setters) = last_json buff setters
last_json buff (with_form_field name value ∷ setters) = last_json buff setters
last_json buff (with_json none ∷ setters) = last_json buff setters
last_json buff (with_json (some b) ∷ setters) = last_json b setters

json_no_form : contains json_type form_data ≡ false
unfolding contains
json_no_form = refl

empty_no_form : contains "" form_data ≡ false
unfolding contains
empty_no_form = refl

module _ {F : Type 0} (mp : Multipart F)
    (typed : (f : F) → contains (mp.content_type f) form_data ≡ true) where
  -- The parts that the setters write, one after the other.
  abbrev pub part : Setter → F → Option F
  part (with_form_file name file) form = mp.form_file name file form
  part (with_form_field name value) form = mp.write_field name value form
  part (with_json buff) form = none

  abbrev pub parts : List Setter → F → Option F
  parts [] form = some form
  parts (s ∷ setters) form = elim (part s form) [ none ↦ none | some f ↦ parts setters f ]

  parts-cons :
      (s : Setter) (setters : List Setter) (form : F) {f : F}
      → part s form ≡ some f
      → parts (s ∷ setters) form ≡ parts setters f
  parts-cons s setters form wrote = rw (parts, wrote) refl

  abbrev json_state : List ℕ → V2Option F
  json_state buff = record { json_body = some buff; form = none; content_type = json_type }

  abbrev form_state : F → V2Option F
  form_state form = record {
    json_body = none;
    form = some form;
    content_type = mp.content_type form;
  }

  not_type : (f : F) (t : String) → contains t form_data ≡ false → (mp.content_type f == t) ≡ false
  not_type f t no_form = elim (Bool-cases (mp.content_type f == t)) [
    | inl same ↦
        let both = ap (λ s. contains s form_data) ((eq_iff (mp.content_type f) t).0 same) in
        absurd (cc (both, no_form, typed f))
    | inr other ↦ other
  ]

  json_step :
      (setter : Setter) (buff : List ℕ) (opt : V2Option F)
      → set_option mp setter (json_state buff) ≡ some opt
      → (is_json setter ≡ true) × (opt ≡ json_state (last_json buff (setter ∷ [])))
  unfolding set_option json_set
  json_step (with_form_file name file) buff opt h =
      let stop : set_option mp (with_form_file name file) (json_state buff) ≡ none =
        rw json_no_form refl in
      cc (stop, h)
  json_step (with_form_field name value) buff opt h =
      let stop : set_option mp (with_form_field name value) (json_state buff) ≡ none =
        rw json_no_form refl in
      cc (stop, h)
  json_step (with_json none) buff opt h = cc
  json_step (with_json (some b)) buff opt h = (refl, some-injective _ _ (sym h))

  file_goes_on :
      (name : String) (file : List ℕ) (form : F)
      → set_option mp (with_form_file name file) (form_state form)
        ≡ form_set mp (form_state form) (mp.form_file name file form)
  unfolding set_option
  file_goes_on name file form = rw (not_type form "" empty_no_form, typed form) refl

  field_goes_on :
      (name value : String) (form : F)
      → set_option mp (with_form_field name value) (form_state form)
        ≡ form_set mp (form_state form) (mp.write_field name value form)
  unfolding set_option
  field_goes_on name value form = rw (not_type form "" empty_no_form, typed form) refl

  form_set-form :
      (form : F) (written : Option F) (opt : V2Option F)
      → form_set mp (form_state form) written ≡ some opt
      → (f : F) × (written ≡ some f) × (opt ≡ form_state f)
  unfolding form_set
  form_set-form form none opt h = cc
  form_set-form form (some f) opt h = (f, refl, some-injective _ _ (sym h))

  form_step :
      (setter : Setter) (form : F) (opt : V2Option F)
      → set_option mp setter (form_state form) ≡ some opt
      → (is_json setter ≡ false) × ((f : F) × (part setter form ≡ some f) × (opt ≡ form_state f))
  unfolding set_option form_set
  form_step (with_form_file name file) form opt h =
      (refl, form_set-form form _ opt (sym (file_goes_on name file form) ∙ h))
  form_step (with_form_field name value) form opt h =
      (refl, form_set-form form _ opt (sym (field_goes_on name value form) ∙ h))
  form_step (with_json buff) form opt h =
      let stop : set_option mp (with_json buff) (form_state form) ≡ none =
        rw (not_type form "" empty_no_form, not_type form json_type json_no_form) refl in
      cc (stop, h)

  last_json-cons :
      (s : Setter) (setters : List Setter) (buff : List ℕ)
      → last_json (last_json buff (s ∷ [])) setters ≡ last_json buff (s ∷ setters)
  last_json-cons (with_form_file name file) setters buff = refl
  last_json-cons (with_form_field name value) setters buff = refl
  last_json-cons (with_json none) setters buff = refl
  last_json-cons (with_json (some b)) setters buff = refl

  json_steps :
      (setters : List Setter) (buff : List ℕ) (opt : V2Option F)
      → set_options mp setters (json_state buff) ≡ some opt
      → All (λ s. is_json s ≡ true) setters × (opt ≡ json_state (last_json buff setters))
  unfolding set_options then_rest
  json_steps [] buff opt h = (tt, some-injective _ _ (sym h))
  json_steps (s ∷ setters) buff opt h = elim (Option-cases (set_option mp s (json_state buff))) [
    | inl stopped ↦
        let stop : set_options mp (s ∷ setters) (json_state buff) ≡ none =
          rw (set_options, stopped) refl in
        cc (stop, h)
    | inr (next, made) ↦
        let (kind, same) = json_step s buff next made in
        let goes_on : set_options mp (s ∷ setters) (json_state buff) ≡ set_options mp setters next =
          rw (set_options, made) refl in
        let (kinds, last) =
          json_steps setters (last_json buff (s ∷ [])) opt
            (ap (set_options mp setters) (sym same) ∙ sym goes_on ∙ h) in
        ((kind, kinds), last ∙ ap json_state (last_json-cons s setters buff))
  ]

  form_steps :
      (setters : List Setter) (form : F) (opt : V2Option F)
      → set_options mp setters (form_state form) ≡ some opt
      → All (λ s. is_json s ≡ false) setters
        × ((f : F) × (parts setters form ≡ some f) × (opt ≡ form_state f))
  unfolding set_options then_rest
  form_steps [] form opt h = (tt, (form, refl, some-injective _ _ (sym h)))
  form_steps (s ∷ setters) form opt h = elim (Option-cases (set_option mp s (form_state form))) [
    | inl stopped ↦
        let stop : set_options mp (s ∷ setters) (form_state form) ≡ none =
          rw (set_options, stopped) refl in
        cc (stop, h)
    | inr (next, made) ↦
        let (kind, (f, wrote, same)) = form_step s form next made in
        let goes_on : set_options mp (s ∷ setters) (form_state form) ≡ set_options mp setters next =
          rw (set_options, made) refl in
        let (kinds, (g, all_written, last)) =
          form_steps setters f opt (ap (set_options mp setters) (sym same) ∙ sym goes_on ∙ h) in
        ((kind, kinds), (g, parts-cons s setters form wrote ∙ all_written, last))
  ]

  -- What the setters ask for, and the body and the content type that are sent.
  pub data Sends : List Setter → Option (Option (List ℕ) × String) → Type 0 where
    nothing : Sends [] (some (none, ""))
    all_json :
        (buff : List ℕ) (setters : List Setter)
        → All (λ s. is_json s ≡ true) setters
        → Sends (with_json (some buff) ∷ setters) (some (some (last_json buff setters), json_type))
    all_form :
        (setters : List Setter) (form closed : F)
        → All (λ s. is_json s ≡ false) setters
        → parts setters mp.new_writer ≡ some form
        → mp.close form ≡ some closed
        → Sends setters (some (some (mp.bytes closed), mp.content_type form))
    not_closed :
        (setters : List Setter) (form : F)
        → All (λ s. is_json s ≡ false) setters
        → parts setters mp.new_writer ≡ some form
        → mp.close form ≡ none
        → Sends setters none

  form-Sends :
      (setters : List Setter) (form : F)
      → All (λ s. is_json s ≡ false) setters
      → parts setters mp.new_writer ≡ some form
      → Sends setters (v2_body mp (form_state form))
  unfolding v2_body closed_body json_over
  form-Sends setters form kinds written = elim (Option-cases (mp.close form)) [
    | inl open_still ↦
        rw (v2_body, closed_body, open_still) (not_closed setters form kinds written open_still)
    | inr (closed, done) ↦
        rw (v2_body, closed_body, done) (all_form setters form closed kinds written done)
  ]

  json-Sends :
      (buff : List ℕ) (setters : List Setter)
      → All (λ s. is_json s ≡ true) setters
      → Sends (with_json (some buff) ∷ setters) (v2_body mp (json_state (last_json buff setters)))
  unfolding v2_body closed_body json_over
  json-Sends buff setters kinds = all_json buff setters kinds

  form_first :
      (s : Setter) (setters : List Setter) (written : Option F) (opt : V2Option F)
      → is_json s ≡ false
      → set_option mp s no_option ≡ form_set mp no_option written
      → part s mp.new_writer ≡ written
      → set_options mp (s ∷ setters) no_option ≡ some opt
      → Sends (s ∷ setters) (v2_body mp opt)
  unfolding set_options then_rest form_set
  form_first s setters none opt kind first wrote h =
      let stop : set_options mp (s ∷ setters) no_option ≡ none = rw (set_options, first) refl in
      cc (stop, h)
  form_first s setters (some form) opt kind first wrote h =
      let goes_on : set_options mp (s ∷ setters) no_option
          ≡ set_options mp setters (form_state form) =
        rw (set_options, first) refl in
      let (kinds, (f, all_written, same)) = form_steps setters form opt (sym goes_on ∙ h) in
      rw same (
        form-Sends (s ∷ setters) f (kind, kinds)
          (parts-cons s setters mp.new_writer wrote ∙ all_written))

  -- When every content type of the writer is that of a form, RequestV2 sends the body and the content
  -- type of one kind: without setters none, with only `WithJSON` the JSON of the last, with only form
  -- setters the form with their parts in order; as soon as the two are mixed the setters return an error.
  pub set_options-Sends :
      (setters : List Setter) (opt : V2Option F)
      → set_options mp setters no_option ≡ some opt
      → Sends setters (v2_body mp opt)
  unfolding set_options then_rest set_option json_set v2_body closed_body json_over
  set_options-Sends [] opt h = rw (some-injective _ _ (sym h)) nothing
  set_options-Sends (with_form_file name file ∷ setters) opt h =
      form_first (with_form_file name file) setters (mp.form_file name file mp.new_writer) opt refl
        refl refl h
  set_options-Sends (with_form_field name value ∷ setters) opt h =
      form_first (with_form_field name value) setters (mp.write_field name value mp.new_writer) opt
        refl refl refl h
  set_options-Sends (with_json none ∷ setters) opt h = cc
  set_options-Sends (with_json (some buff) ∷ setters) opt h =
      let (kinds, same) = json_steps setters buff opt h in rw same (json-Sends buff setters kinds)
