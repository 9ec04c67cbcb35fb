-- ===== src/Shared/Retry/Laws.antt =====
-- How often a message is tried.
use shopble_stellar.Common.{
  ℕ, zero, suc, ◌+◌, ◌≤◌, ◌≡◌, ◌⊎◌, refl, inl, inr, Bool-cases, Option, Option-cases, none, some,
  ltb, arith,
}
use shopble_stellar.Shared.Retry.{
  RetryDecision, yes, ignore, raise, Retryer, returned, run, execute,
}

decision_cases : (d : RetryDecision) → (d ≡ yes) ⊎ ((d ≡ ignore) ⊎ (d ≡ raise))
decision_cases yes = inl refl
decision_cases ignore = inr (inl refl)
decision_cases raise = inr (inr refl)

module _ {E X : Type 0} (execute_fn : X → Option E × X) (retryer : Retryer E X) where
  run-returned :
      (fuel retry_count : ℕ) (x : X)
      → retry_count ≤ retryer.max_retry + 1
      → retryer.max_retry + 2 ≤ fuel + retry_count
      → (r : Option E) × ((run execute_fn retryer fuel retry_count x).0 ≡ returned r)
  unfolding run
  run-returned zero retry_count x early enough = absurd (omega (arith, early, enough))
  run-returned (suc fuel) retry_count x early enough = elim (Option-cases ((execute_fn x).0)) [
    | inl fine ↦ (none, rw (run, fine) refl)
    | inr (e, bad) ↦
        let x2 = retryer.decide (retryer.mark_error e (execute_fn x).1) in
        elim (decision_cases x2.0) [
          | inl again ↦ elim (Bool-cases (ltb retryer.max_retry retry_count)) [
            | inl over ↦ (some e, rw (run, bad, again, over) refl)
            | inr left ↦
                let (r, done) =
                  run-returned fuel (retry_count + 1) x2.1 (ground arith) (omega (arith, enough)) in
                (r, rw (run, bad, again, left) done)
          ]
          | inr (inl forget) ↦ (none, rw (run, bad, forget) refl)
          | inr (inr stop) ↦ (some e, rw (run, bad, stop) refl)
        ]
  ]

  -- `Execute` returns, whatever the handler and the retryer do, after at most two tries more than
  -- the allowed retries: with fuel for so many it never runs out.
  pub execute-returned :
      (x : X)
      → (r : Option E) × ((execute execute_fn retryer (retryer.max_retry + 2) x).0 ≡ returned r)
  unfolding execute
  execute-returned x = run-returned (retryer.max_retry + 2) 0 x (omega arith) (omega arith)
