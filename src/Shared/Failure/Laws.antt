-- ===== src/Shared/Failure/Laws.antt =====
-- What the chain of an error decides: `IsSameError` and the response of the middleware.
use shopble_stellar.Common.{
  ℕ, suc, String, ◌<>◌, ◌≡◌, ◌≢◌, ◌↔◌, refl, sym, ap, ◌∙◌, subst, inl, inr, Bool, Bool-cases, true,
  false, not, none, some, ◌==◌, string_eq, eq_iff, if◌then◌else◌,
}
use mathlib.Core.Option.{some-injective}
use shopble_stellar.Shared.Failure.{
  GoError, plain, ours, coded, OurError, Heap, error_data_invalid, error_not_found,
  error_token_expired, failure_of, error_text, is_same_error, is_failure, status_for, code_for,
  ErrorResponse, wrap_error,
}

module _ {V : Type 0} (h : Heap V) where
  -- An error whose chain ends, after this many errors of the package.
  pub data EndingChain : GoError → ℕ → Type 0 where
    ends : (text : String) → EndingChain (plain text) 0
    of_ours : (p n : ℕ) → EndingChain (h.cells p).actual n → EndingChain (ours p) (suc n)
    of_code :
        (code : String) (p n : ℕ)
        → EndingChain (h.cells p).actual n
        → EndingChain (coded code p) (suc n)

  -- A failure in the chain has this message.
  pub data Names (target : String) : GoError → Type 0 where
    here :
        (err : GoError) (e : OurError V)
        → failure_of h err ≡ some e
        → e.is_our_error ≡ true
        → e.message ≡ target
        → Names target err
    below :
        (err : GoError) (e : OurError V)
        → failure_of h err ≡ some e
        → e.is_our_error ≡ true
        → Names target e.actual
        → Names target err

  abbrev Decides : ℕ → String → GoError → Type 0
  Decides fuel target err =
      (b : Bool) × (is_same_error fuel h target err ≡ some b) × ((b ≡ true) ↔ Names target err)

  Names-plain : {target text : String} → Names target (plain text) → ⊥
  Names-plain (here err e found mine same) = cc
  Names-plain (below err e found mine rest) = cc

  Names-mine :
      {target : String} {err : GoError} (e : OurError V)
      → failure_of h err ≡ some e
      → Names target err
      → e.is_our_error ≡ true
  Names-mine e found (here err e' found' mine same) =
      let one : e' ≡ e = some-injective _ _ (sym found' ∙ found) in
      ap (λ (x : OurError V). x.is_our_error) (sym one) ∙ mine
  Names-mine e found (below err e' found' mine rest) =
      let one : e' ≡ e = some-injective _ _ (sym found' ∙ found) in
      ap (λ (x : OurError V). x.is_our_error) (sym one) ∙ mine

  Names-below :
      {target : String} {err : GoError} (e : OurError V)
      → failure_of h err ≡ some e
      → e.message ≢ target
      → Names target err
      → Names target e.actual
  Names-below e found other (here err e' found' mine same) =
      let one : e' ≡ e = some-injective _ _ (sym found' ∙ found) in
      absurd (other (ap (λ (x : OurError V). x.message) (sym one) ∙ same))
  Names-below {target} e found other (below err e' found' mine rest) =
      let one : e' ≡ e = some-injective _ _ (sym found' ∙ found) in
      subst (λ (x : OurError V). Names target x.actual) one rest

  decide_step :
      (n : ℕ) (target : String) (err : GoError) (e : OurError V)
      → failure_of h err ≡ some e
      → Decides (suc n) target e.actual
      → Decides (suc (suc n)) target err
  unfolding is_same_error
  decide_step n target err e found (b, rest, named) = elim (Bool-cases (e.is_our_error)) [
    | inl mine ↦ elim (Bool-cases (e.message == target)) [
      | inl same ↦ (
        true,
        rw (is_same_error, found, mine, same) refl,
        (λ t. here err e found mine ((eq_iff e.message target).0 same), λ names. refl),
      )
      | inr other ↦ (
        b,
        rw (is_same_error, found, mine, other) rest,
        (
          λ t. below err e found mine (named.0 t),
          λ names.
              named.1
                (Names-below e found (λ same. cc ((eq_iff e.message target).1 same, other)) names),
        ),
      )
    ]
    | inr alien ↦ (
      false,
      rw (is_same_error, found, alien) refl,
      (λ t. cc, λ names. cc (Names-mine e found names, alien)),
    )
  ]

  -- `IsSameError` returns on every error whose chain ends, and it answers true exactly when the
  -- chain has a failure with the message of the code, all those above it being of this package.
  pub is_same_error-Names :
      (target : String) (err : GoError) (n : ℕ)
      → EndingChain err n
      → (b : Bool) × (is_same_error (suc n) h target err ≡ some b) × ((b ≡ true) ↔ Names target err)
  unfolding is_same_error
  is_same_error-Names target (plain text) n (ends words) =
      (false, refl, (λ t. cc, λ names. absurd (Names-plain names)))
  is_same_error-Names target (ours p) n (of_ours q n' rest) =
      decide_step n' target (ours p) (h.cells p) refl
        (is_same_error-Names target (h.cells p).actual n' rest)
  is_same_error-Names target (coded code p) n (of_code name q n' rest) =
      decide_step n' target (coded code p) (h.cells p) refl
        (is_same_error-Names target (h.cells p).actual n' rest)

  text_below :
      (fuel : ℕ) (e : OurError V)
      → ((text : String) × (error_text fuel h e.actual ≡ some text))
      → (text : String) × ((elim (error_text fuel h e.actual) [
        | none ↦ none
        | some inner ↦ some (e.message <> (" | " <> inner))
      ])
          ≡ some text)
  text_below fuel e (inner, found) = (e.message <> (" | " <> inner), rw found refl)

  pub error_text-EndingChain :
      (err : GoError) (n : ℕ)
      → EndingChain err n
      → (text : String) × (error_text (suc n) h err ≡ some text)
  unfolding error_text
  error_text-EndingChain (plain text) n (ends words) = (text, refl)
  error_text-EndingChain (ours p) n (of_ours q n' rest) =
      text_below (suc n') (h.cells p) (error_text-EndingChain (h.cells p).actual n' rest)
  error_text-EndingChain (coded code p) n (of_code name q n' rest) =
      text_below (suc n') (h.cells p) (error_text-EndingChain (h.cells p).actual n' rest)

  -- The status of the response.
  pub data Answers (err : GoError) : ℕ → Type 0 where
    alien : is_failure err ≡ false → Answers err 417
    invalid : is_failure err ≡ true → Names error_data_invalid err → Answers err 400
    missing :
        is_failure err ≡ true
        → (Names error_data_invalid err → ⊥)
        → Names error_not_found err
        → Answers err 404
    expired :
        is_failure err ≡ true
        → (Names error_data_invalid err → ⊥)
        → (Names error_not_found err → ⊥)
        → Names error_token_expired err
        → Answers err 401
    unknown :
        is_failure err ≡ true
        → (Names error_data_invalid err → ⊥)
        → (Names error_not_found err → ⊥)
        → (Names error_token_expired err → ⊥)
        → Answers err 500

  status-failure :
      (err : GoError) (a b c : Bool)
      → is_failure err ≡ true
      → ((a ≡ true) ↔ Names error_data_invalid err)
      → ((b ≡ true) ↔ Names error_not_found err)
      → ((c ≡ true) ↔ Names error_token_expired err)
      → Answers err (status_for a b c)
  status-failure err true b c f ha hb hc = invalid f (ha.0 refl)
  status-failure err false true c f ha hb hc = missing f (λ k. cc (ha.1 k)) (hb.0 refl)
  status-failure err false false true f ha hb hc =
      expired f (λ k. cc (ha.1 k)) (λ k. cc (hb.1 k)) (hc.0 refl)
  status-failure err false false false f ha hb hc =
      unknown f (λ k. cc (ha.1 k)) (λ k. cc (hb.1 k)) (λ k. cc (hc.1 k))

  status-Answers :
      (err : GoError) (a b c : Bool)
      → ((a ≡ true) ↔ Names error_data_invalid err)
      → ((b ≡ true) ↔ Names error_not_found err)
      → ((c ≡ true) ↔ Names error_token_expired err)
      → Answers err (if not (is_failure err) then 417 else status_for a b c)
  status-Answers err a b c ha hb hc = elim (Bool-cases (is_failure err)) [
    | inr other ↦ rw other (alien other)
    | inl ours_it ↦ rw ours_it (status-failure err a b c ours_it ha hb hc)
  ]

  -- The middleware answers every error whose chain ends: 417 if it is no failure of this package, and
  -- else 400, 404 or 401 for the first of invalid data, not found and expired token that is anywhere
  -- in the chain, and 500 if none of them is.
  pub wrap_error-Answers :
      (err : GoError) (n : ℕ)
      → EndingChain err n
      → (r : ErrorResponse) × (wrap_error (suc n) h err ≡ some r) × Answers err r.http_code
  unfolding wrap_error
  wrap_error-Answers err n chain =
      let (a, a_returned, a_named) = is_same_error-Names error_data_invalid err n chain in
      let (b, b_returned, b_named) = is_same_error-Names error_not_found err n chain in
      let (c, c_returned, c_named) = is_same_error-Names error_token_expired err n chain in
      let (text, printed) = error_text-EndingChain err n chain in
      (
        record {
          http_code = if not (is_failure err) then 417 else status_for a b c;
          error_code = code_for a b c;
          msg = text;
        },
        rw (a_returned, b_returned, c_returned, printed) refl,
        status-Answers err a b c a_named b_named c_named,
      )
