-- ===== src/Shared/RateLimiter.antt =====
-- common/comlock/rate_limiter.go, `RunInRateLimit`. The limiter, the clock and the runner act on an
-- unknown state `X`; the loop is on fuel.
pub mod Laws
use shopble_stellar.Common.{
  ℕ, zero, suc, ◌+◌, Bool, true, false, ◌||◌, Option, none, some, ltb, leb, if◌then◌else◌,
}
use shopble_stellar.Common.Int.{ℤ}

-- `redis_rate.Result`, the two fields that are read.
pub record Allowance : Type 0 where
  pub allowed : ℕ
  pub retry_after : ℤ

-- The limiter with its key and limit, `time.Sleep`, the clock, and whether the caller's context is
-- done.
pub record Limiter (X : Type 0) : Type 0 where
  pub allow : X → Option Allowance × X
  pub sleep : ℤ → X → X
  pub clock : X → ℕ
  pub parent_done : X → Bool

pub data Ran (E : Type 0) : Type 0 where
  timed_out limiter_failed : Ran E
  ran : Option E → Ran E

module _ {E X : Type 0} (limiter : Limiter X) (runner : X → Option E × X) where
  -- `ctx.Done()` of the context with the timeout.
  abbrev pub expired : ℕ → X → Bool
  expired deadline x = limiter.parent_done x || leb deadline (limiter.clock x)

  finished : Option E × X → Ran E × X
  finished (err, x) = (ran err, x)

  -- The loop until its deadline.
  unfoldable pub limited : ℕ → ℕ → X → Option (Ran E × X)
  unfolding finished
  limited zero deadline x = none
  limited (suc fuel) deadline x =
      let (answer, x1) = limiter.allow x in
      elim (expired deadline x) [
        | true ↦ some (timed_out, x)
        | false ↦ elim answer [
          | none ↦ some (limiter_failed, x1)
          | some result ↦ elim (ltb 0 result.allowed) [
            | true ↦ some (finished (runner x1))
            | false ↦ limited fuel deadline (limiter.sleep result.retry_after x1)
          ]
        ]
      ]

  -- `RunInRateLimit`
  unfoldable pub run_in_rate_limit : ℕ → ℕ → X → Option (Ran E × X)
  unfolding limited
  run_in_rate_limit fuel timeout x = limited fuel (limiter.clock x + timeout) x
