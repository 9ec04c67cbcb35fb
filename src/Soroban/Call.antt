-- ===== src/Soroban/Call.antt =====
-- A call of the contract that may fail: Go's `(string, error)` results, over the state of
-- everything outside the program.
use shopble_stellar.Common.{String, ◌≡◌, Option, none, some, refl}

-- Where lib/libsoroban/client.go returns an error; the transaction's hash comes with it once it
-- has been sent.
pub data InvokeError : Type 0 where
  bad_account bad_status no_account no_sequence not_built not_encoded not_simulated
        simulation_failed bad_data bad_entry not_signed not_sent send_refused :
      InvokeError
  context_done failed_on_ledger timed_out : String → InvokeError

pub data Outcome {ℓ} (E : Type ℓ) : Type ℓ where
  ok : E → Outcome E
  failed : InvokeError → Outcome E

abbrev pub Call : Type 0 → Type 0 → Type 0
Call X E = X → Outcome E × X

module _ {X : Type 0} where
  abbrev pub after : {E F : Type 0} → Outcome E × X → (E → Call X F) → Outcome F × X
  after (ok a, x) f = f a x
  after (failed e, x) f = (failed e, x)

  infixl 5 ◌>>=◌
  abbrev pub ◌>>=◌ : {E F : Type 0} → Call X E → (E → Call X F) → Call X F
  (m >>= f) x = after (m x) f

  abbrev pub give : {E : Type 0} → E → Call X E
  give a x = (ok a, x)

  -- an answer that is `none` is this error
  abbrev pub or_fail : {E : Type 0} → InvokeError → Option E → Call X E
  or_fail e none x = (failed e, x)
  or_fail e (some a) x = (ok a, x)

  -- the same for a call that goes out of the program
  abbrev pub ask : {E : Type 0} → InvokeError → (X → Option E × X) → Call X E
  ask e f x = let (a, x') = f x in or_fail e a x'

-- Inversion of a chain that succeeded.
pub after-ok :
    {X E F : Type 0} (r : Outcome E × X) (f : E → Call X F) {b : F} {x' : X}
    → after r f ≡ (ok b, x')
    → (a : E) × (x : X) × (r ≡ (ok a, x)) × (f a x ≡ (ok b, x'))
after-ok (ok a, x) f h = (a, x, refl, h)
after-ok (failed e, x) f h = cc

-- The same for a proof that goes on with the parts.
pub after-then :
    {X E F G : Type 0} (r : Outcome E × X) (f : E → Call X F) {b : F} {x' : X}
    → after r f ≡ (ok b, x')
    → ((a : E) (x : X) → r ≡ (ok a, x) → f a x ≡ (ok b, x') → G)
    → G
after-then (ok a, x) f h go = go a x refl h
after-then (failed e, x) f h go = cc
