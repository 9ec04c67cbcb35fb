-- ===== src/Examples/Failures.antt =====
-- A heap with the errors of two codes, for the tests of the package comerr.
use shopble_stellar.Common.{ℕ, String, ◌≡◌, ◌↔◌, true, none, some}
use shopble_stellar.Shared.Failure.{
  plain, coded, OurError, Heap, wrap, error_text, ErrorResponse, wrap_error,
}
use shopble_stellar.Shared.Failure.Laws.{ends, of_code, Answers, wrap_error-Answers}
use shopble_stellar.Shared.Failure.Wrapping.{Meets, wrap-error_text_iff}

abbrev token_expired : OurError String
token_expired = record {
  is_our_error = true;
  actual = plain "error_token_expired";
  message = "error_token_expired";
  stack = none;
  data_of = λ key. none;
}

abbrev heap : Heap String
heap = record { cells = λ p. token_expired; size = 1 }

wrap_error_example :
    (r : ErrorResponse) × (wrap_error 2 heap (coded "error_token_expired" 0) ≡ some r)
    × Answers heap (coded "error_token_expired" 0) r.http_code
wrap_error_example =
    wrap_error-Answers heap (coded "error_token_expired" 0) 1
      (of_code "error_token_expired" 0 0 (ends "error_token_expired"))

wrap_text_example :
    let (wrapped, after) = wrap "error_token_expired" 0 (some (plain "no token")) heap in
    ((fuel : ℕ) × (text : String) × (error_text fuel after wrapped ≡ some text))
    ↔ (Meets heap 0 (plain "no token") → ⊥)
wrap_text_example =
    wrap-error_text_iff heap 0 "error_token_expired" (plain "no token") 0 (ends "no token")
