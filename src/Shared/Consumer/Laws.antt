-- ===== src/Shared/Consumer/Laws.antt =====
-- Which messages a turn of the consumer commits.
use shopble_stellar.Common.{
  ℕ, suc, String, ◌≡◌, ◌≢◌, ◌≤◌, ◌↔◌, refl, sym, ap, ◌∙◌, false, Option, none, some, arith,
}
use mathlib.Core.Option.{some-injective}
use shopble_stellar.Shared.Retry.{Retryer, Ended, returned}
use shopble_stellar.Shared.Consumer.{
  Fault, deadline_exceeded, canceled, failure, other, Msg, Fetched, message, Broker, Subscriber,
  committed, executed, handled, process_message, skipped, run_turn,
}

-- How often the broker has been asked to commit: once by each call, and by nothing else.
pub record Counts {X : Type 0} (broker : Broker X) (retryer : Retryer Fault X)
    (consume_func_map : String → Option (Subscriber X)) (commits : X → ℕ) : Type 0 where
  pub commit : (x : X) → commits (broker.commit_message x).1 ≡ suc (commits x)
  pub fetch : (x : X) → commits (broker.fetch_message x).1 ≡ commits x
  pub handle :
      (key raw : String) (f : Subscriber X) (x : X)
      → consume_func_map key ≡ some f
      → commits (executed broker retryer consume_func_map f raw x).1 ≡ commits x

module _ {X : Type 0} (broker : Broker X) (retryer : Retryer Fault X)
    (consume_func_map : String → Option (Subscriber X)) (commits : X → ℕ)
    (counts : Counts broker retryer consume_func_map commits) where
  -- After an answer, a turn commits no less.
  skipped_bound :
      (r : Option Fault × X) → commits r.1 ≤ commits (skipped broker retryer consume_func_map r)
  unfolding skipped
  skipped_bound (none, x) = omega arith
  skipped_bound (some deadline_exceeded, x) = omega arith
  skipped_bound (some canceled, x) = omega arith
  skipped_bound (some failure, x) = let again = counts.commit x in omega arith
  skipped_bound (some other, x) = omega arith

  skipped-committed :
      (r : Option Fault) (x : X) (n : ℕ)
      → commits x ≡ n
      → (commits (
            skipped broker retryer consume_func_map
              (committed broker retryer consume_func_map (returned r, x)))
          ≡ n)
        ↔ ((e : Fault) × (r ≡ some e) × (e ≢ failure))
  unfolding skipped committed
  skipped-committed none x n same =
      let more = skipped_bound (broker.commit_message x) in
      let once = counts.commit x in (λ h. absurd (omega arith), λ h. cc (h.1))
  skipped-committed (some failure) x n same =
      let once = counts.commit x in
      (λ h. absurd (omega arith), λ h. absurd (h.2 (some-injective _ _ (sym h.1))))
  skipped-committed (some canceled) x n same = (λ h. (canceled, refl, λ k. cc), λ h. same)
  skipped-committed (some deadline_exceeded) x n same =
      (λ h. (deadline_exceeded, refl, λ k. cc), λ h. same)
  skipped-committed (some other) x n same = (λ h. (other, refl, λ k. cc), λ h. same)

  -- Of a consumer that is not closed, with only `CommitMessage` committing: a turn that takes a
  -- message of a known subscriber asks for no commit, so that the message is delivered again,
  -- exactly when the retries end in an error that is not a `Failure`. A `Failure` is committed
  -- like a success.
  pub run_turn-uncommitted_iff :
      (x y z : X) (msg : Msg) (f : Subscriber X) (r : Option Fault)
      → broker.done x ≡ false
      → broker.fetch_message x ≡ (message msg, y)
      → consume_func_map msg.key ≡ some f
      → executed broker retryer consume_func_map f msg.raw y ≡ (returned r, z)
      → (commits (run_turn broker retryer consume_func_map x) ≡ commits x)
        ↔ ((e : Fault) × (r ≡ some e) × (e ≢ failure))
  unfolding run_turn process_message handled
  run_turn-uncommitted_iff x y z msg f r live fetched known run =
      let same : commits z ≡ commits x =
        ap (λ (q : Ended Fault × X). commits q.1) (sym run)
        ∙ counts.handle msg.key msg.raw f y known
        ∙ ap (λ (q : Fetched × X). commits q.1) (sym fetched)
        ∙ counts.fetch x in
      rw (run_turn, live, fetched, handled, known, run) (skipped-committed r z (commits x) same)
