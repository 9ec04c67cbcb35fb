-- ===== src/Shared/Consumer.antt =====
-- common/comqueue/consumer.go. The broker and the handlers act on an unknown state `X`. Logging is
-- left out, and a handler does not panic.
pub mod Laws
use shopble_stellar.Common.{ℕ, zero, suc, ◌+◌, String, Bool, true, false, Option, none, some}
use shopble_stellar.Shared.Retry.{Retryer, Ended, returned, out_of_fuel, execute}

-- An error, as far as `run` and `processMessage` tell them apart.
pub data Fault : Type 0 where
  deadline_exceeded canceled failure other : Fault

pub record Msg : Type 0 where
  pub raw : String
  pub key : String

pub data Fetched : Type 0 where
  fetch_failed : Fault → Fetched
  message : Msg → Fetched

-- `Consumer`, and whether the context of `run` is done.
pub record Broker (X : Type 0) : Type 0 where
  pub fetch_message : X → Fetched × X
  pub commit_message : X → Option Fault × X
  pub done : X → Bool

-- `Subcriber`, by the function that it executes.
abbrev pub Subscriber : Type 0 → Type 0
Subscriber X = String → X → Option Fault × X

module _ {X : Type 0} (broker : Broker X) (retryer : Retryer Fault X)
    (consume_func_map : String → Option (Subscriber X)) where
  -- What `comretry.Execute` returned; without an error the message is committed.
  committed : Ended Fault × X → Option Fault × X
  committed (returned none, x) = broker.commit_message x
  committed (returned (some e), x) = (some e, x)
  committed (out_of_fuel, x) = (none, x)

  -- `comretry.Execute`, with enough fuel for all its tries.
  abbrev pub executed : Subscriber X → String → X → Ended Fault × X
  executed execute_func raw x = execute (execute_func raw) retryer (retryer.max_retry + 2) x

  handled : Fetched × X → Option Fault × X
  unfolding committed
  handled (fetch_failed deadline_exceeded, x) = (none, x)
  handled (fetch_failed e, x) = (some e, x)
  handled (message msg, x) = elim (consume_func_map msg.key) [
    | none ↦ broker.commit_message x
    | some execute_func ↦ committed (executed execute_func msg.raw x)
  ]

  -- `processMessage`
  unfoldable pub process_message : X → Option Fault × X
  unfolding handled
  process_message x = handled (broker.fetch_message x)

  -- The branches of `run` on the error.
  skipped : Option Fault × X → X
  skipped (some failure, x) = (broker.commit_message x).1
  skipped (e, x) = x

  -- One turn of the loop. The `break`s leave the `select`, not the loop.
  unfoldable pub run_turn : X → X
  unfolding skipped
  run_turn x = elim (broker.done x) [ true ↦ x | false ↦ skipped (process_message x) ]

  -- The first turns of `run`, which has no end.
  unfoldable pub run_turns : ℕ → X → X
  run_turns zero x = x
  run_turns (suc n) x = run_turns n (run_turn x)
