-- ===== src/Examples/Services.antt =====
-- A counter as a database, a limiter whose clock is the state, a queue, a hub and two services, for
-- the tests of the packages database and common.
use shopble_stellar.Common.{
  ℕ, suc, ◌+◌, ◌≤◌, String, ◌≡◌, refl, sym, ap, subst, true, false, ◌++◌, Option, none, some, List,
  [], ◌∷◌, length, arith,
}
use shopble_stellar.Common.Int.{pos, pos_part}
use mathlib.Core.Option.{some-injective}
use shopble_stellar.Database.Txn.{Program, Server, Session, run_program, txn}
use shopble_stellar.Database.Txn.Laws.{handlers, txn_flat, txn_nested-fail}
use shopble_stellar.Shared.RateLimiter.{Allowance, Limiter, Ran, run_in_rate_limit}
use shopble_stellar.Shared.RateLimiter.Laws.{IsLawful, Waits, Ends, run_in_rate_limit-Ends}
use shopble_stellar.Shared.Retry.{Retryer, Ended, RetryDecision, execute, run as retry}
use shopble_stellar.Shared.Consumer.{Fault, Msg, Fetched, Broker, Subscriber, executed}
use shopble_stellar.Shared.Consumer.Laws.{Counts}
use shopble_stellar.Shared.Hub.{new_hub, clients_or_empty}
use shopble_stellar.Shared.Hub.Laws.{HubCall, hub_calls, is_member, hub_calls-members}
use shopble_stellar.Shared.Runner.{Closer, safe_close}
use shopble_stellar.Shared.Runner.Laws.{safe_close-panicked}

abbrev server : Server ℕ
server = record { begins = λ d. true; saves = λ d. true; commits = λ d. true }

abbrev session : Session ℕ String
session = record { db = 0; on_commit_callbacks = none; executed = [] }

abbrev pays : Program ℕ String
pays = Program.write (λ d. some (suc d)) (Program.on_commit "mail" Program.done)

txn_flat_example :
    let (committed, after) = txn server pays session in
    (committed ≡ true → after.executed ≡ session.executed ++ handlers pays)
    × (committed ≡ false → (after.executed ≡ session.executed) × (after.db ≡ session.db))
txn_flat_example = txn_flat server pays session tt

txn_nested_example :
    let (committed, after) = txn server (Program.nested pays Program.fail Program.fail) session in
    (committed ≡ false) × (after.db ≡ 0) × (after.executed ≡ session.executed ++ handlers pays)
unfolding run_program
txn_nested_example = txn_nested-fail server pays Program.fail session tt refl refl refl

abbrev limiter : Limiter ℕ
limiter = record {
  allow = λ x. (some (record { allowed = 0; retry_after = pos 1 }), x);
  sleep = λ n x. x + pos_part n;
  clock = λ x. x;
  parent_done = λ x. false;
}

limiter-IsLawful : IsLawful limiter
limiter-IsLawful = record {
  sleeps = λ n x. omega arith;
  asks = λ x. omega arith;
  waits = λ x result answer busy.
      (0, ap (λ (r : Allowance). r.retry_after) (sym (some-injective _ _ answer)));
}

abbrev runner : ℕ → Option String × ℕ
runner x = (none, x)

run_in_rate_limit_example :
    (result : Ran String × ℕ) × (last : ℕ) × (run_in_rate_limit limiter runner (suc 5) 5 7
      ≡ some result)
    × Waits limiter runner (7 + 5) 7 last
    × Ends limiter runner (7 + 5) last result
run_in_rate_limit_example = run_in_rate_limit-Ends limiter runner limiter-IsLawful 5 7

abbrev letter : Msg
letter = record { raw = "{}"; key = "job" }

abbrev broker : Broker ℕ
broker = record {
  fetch_message = λ x. (Fetched.message letter, x);
  commit_message = λ x. (none, suc x);
  done = λ x. false;
}

abbrev raises : Retryer Fault ℕ
raises = record { decide = λ x. (RetryDecision.raise, x); max_retry = 0; mark_error = λ e x. x }

abbrev subscriber : Subscriber ℕ
subscriber raw x = (some Fault.other, x)

abbrev jobs : String → Option (Subscriber ℕ)
jobs key = some subscriber

executed_other :
    (raw : String) (x : ℕ)
    → executed broker raises jobs subscriber raw x ≡ (Ended.returned (some Fault.other), x)
unfolding execute retry
executed_other raw x = refl

jobs-Counts : Counts broker raises jobs (λ x. x)
jobs-Counts = record {
  commit = λ x. refl;
  fetch = λ x. refl;
  handle = λ key raw f x known.
      subst (λ (g : Subscriber ℕ). (executed broker raises jobs g raw x).1 ≡ x)
        (some-injective _ _ known) (ap (λ (r : Ended Fault × ℕ). r.1) (executed_other raw x));
}

abbrev chat : List (HubCall String)
chat = HubCall.joins 1 "room" ∷ HubCall.broadcasts "room" "hi" ∷ HubCall.leaves 1 "room" ∷ []

hub_example :
    let h = hub_calls chat (new_hub (λ c. 1)) in
    (clients_or_empty (h.rooms "room") 1 ≡ is_member 1 "room" chat false)
    × (h.client_rooms 1 "room" ≡ is_member 1 "room" chat false)
    × (length (h.send 1) ≤ 1)
hub_example = hub_calls-members chat (λ c. 1) 1 "room"

abbrev closes : Closer ℕ
closes x = (false, suc x)

abbrev panics : Closer ℕ
panics x = (true, x)

safe_close_example :
    safe_close ((closes ∷ []) ++ (panics ∷ closes ∷ [])) 0 ≡ (panics (safe_close (closes ∷ []) 0)).1
unfolding safe_close
safe_close_example = safe_close-panicked (closes ∷ []) (closes ∷ []) panics 0 (refl, tt) refl
