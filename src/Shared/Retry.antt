-- ===== src/Shared/Retry.antt =====
-- common/comretry/manager.go. The message's handler and the retryer act on an unknown state `X`;
-- the recursion of `run` is on fuel.
pub mod Laws
use shopble_stellar.Common.{
  ℕ, zero, suc, ◌+◌, Bool, true, false, Option, none, some, ltb, if◌then◌else◌,
}

pub data RetryDecision : Type 0 where
  yes ignore raise : RetryDecision

pub record Retryer (E X : Type 0) : Type 0 where
  pub decide : X → RetryDecision × X
  pub max_retry : ℕ
  pub mark_error : E → X → X

-- `DefaultRetryer`
abbrev pub default_retryer : {E X : Type 0} → Retryer E X
default_retryer = record { decide = λ x. (ignore, x); max_retry = 0; mark_error = λ e x. x }

-- How a run ends: with an error or none, or its fuel is gone.
pub data Ended (E : Type 0) : Type 0 where
  returned : Option E → Ended E
  out_of_fuel : Ended E

module _ {E X : Type 0} (execute_fn : X → Option E × X) (retryer : Retryer E X) where
  -- `run`
  unfoldable pub run : ℕ → ℕ → X → Ended E × X
  run zero retry_count x = (out_of_fuel, x)
  run (suc fuel) retry_count x =
      let (err, x1) = execute_fn x in
      elim err [
        | none ↦ (returned none, x1)
        | some e ↦
            let (decision, x2) = retryer.decide (retryer.mark_error e x1) in
            elim decision [
              | yes ↦ elim (ltb retryer.max_retry retry_count) [
                | true ↦ (returned (some e), x2)
                | false ↦ run fuel (retry_count + 1) x2
              ]
              | ignore ↦ (returned none, x2)
              | raise ↦ (returned (some e), x2)
            ]
      ]

  -- `Execute`
  unfoldable pub execute : ℕ → X → Ended E × X
  execute fuel x = run fuel 0 x
