-- ===== src/Shared/Restful/Laws.antt =====
-- When `Request` panics.
use shopble_stellar.Common.{ℕ, ◌≤◌, ◌≡◌, ◌⊎◌, String, Option, none, some, [], nat_eq}
use shopble_stellar.Shared.Restful.{
  RequestOption, HttpRequest, HttpAnswer, Net, method_selector, no_method, no_encoder, ready,
  prepare,
}

-- The statuses of success.
abbrev pub IsOk : ℕ → Type 0
IsOk status = (200 ≤ status) × (status ≤ 299)

module _ {V W X : Type 0} (net : Net V W X) where
  -- The ways in which a request panics.
  pub data Panics (option : RequestOption V) (x : X) : Type 0 where
    bad_method : prepare net option ≡ no_method → Panics option x
    bad_body : prepare net option ≡ no_encoder → Panics option x
    no_text_map :
        (method : String) (kind : ℕ) (value : V)
        → method_selector option.method ≡ some method
        → option.body ≡ some (kind, value)
        → (kind ≡ 1) ⊎ (kind ≡ 2)
        → net.text_map value ≡ none
        → Panics option x
    empty_refusal :
        (req : HttpRequest) (answer : HttpAnswer)
        → prepare net option ≡ ready req
        → (net.call req x).0 ≡ some answer
        → (IsOk answer.status_code → ⊥)
        → answer.body ≡ some []
        → Panics option x
