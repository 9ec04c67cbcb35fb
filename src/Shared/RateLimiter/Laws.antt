-- ===== src/Shared/RateLimiter/Laws.antt =====
-- The runner runs at most once, when the limiter allows it, and the loop ends.
use shopble_stellar.Common.{
  ℕ, zero, suc, ◌+◌, ◌≤◌, ◌<◌, ◌≡◌, refl, inl, inr, Bool-cases, true, false, Option, Option-cases,
  none, some, ltb, leb, arith,
}
use shopble_stellar.Common.Int.{pos}
use shopble_stellar.Shared.RateLimiter.{
  Allowance, Limiter, Ran, timed_out, limiter_failed, ran, expired, finished, limited,
  run_in_rate_limit,
}

-- What is relied on: a sleep takes its time, the clock does not go back while the limiter is asked,
-- and a limiter that refuses says how long to wait.
pub record IsLawful {X : Type 0} (limiter : Limiter X) : Type 0 where
  pub sleeps : (n : ℕ) (x : X) → limiter.clock x + n ≤ limiter.clock (limiter.sleep (pos n) x)
  pub asks : (x : X) → limiter.clock x ≤ limiter.clock (limiter.allow x).1
  pub waits :
      (x : X) (result : Allowance)
      → (limiter.allow x).0 ≡ some result
      → ltb 0 result.allowed ≡ false
      → (n : ℕ) × (result.retry_after ≡ pos (suc n))

module _ {E X : Type 0} (limiter : Limiter X) (runner : X → Option E × X) (deadline : ℕ) where
  -- The limiter refuses and the loop sleeps, any number of times, the runner not being called.
  pub data Waits : X → X → Type 0 where
    at_once : (x : X) → Waits x x
    refused :
        (x y : X) (result : Allowance)
        → expired limiter runner deadline x ≡ false
        → (limiter.allow x).0 ≡ some result
        → ltb 0 result.allowed ≡ false
        → Waits (limiter.sleep result.retry_after (limiter.allow x).1) y
        → Waits x y

  -- The last turn of the loop.
  pub data Ends (y : X) : Ran E × X → Type 0 where
    times_out : expired limiter runner deadline y ≡ true → Ends y (timed_out, y)
    fails :
        expired limiter runner deadline y ≡ false
        → (limiter.allow y).0 ≡ none
        → Ends y (limiter_failed, (limiter.allow y).1)
    runs :
        (result : Allowance)
        → expired limiter runner deadline y ≡ false
        → (limiter.allow y).0 ≡ some result
        → ltb 0 result.allowed ≡ true
        → Ends y (ran (runner (limiter.allow y).1).0, (runner (limiter.allow y).1).1)

  record LimitedRun (fuel : ℕ) (x : X) : Type 0 where
    pub result : Ran E × X
    pub last : X
    pub returned : limited limiter runner fuel deadline x ≡ some result
    pub waits : Waits x last
    pub ends : Ends last result

  expired-late : (x : X) → deadline ≤ limiter.clock x → expired limiter runner deadline x ≡ true
  expired-late x late = elim (Bool-cases (limiter.parent_done x)) [
    | inl stopped ↦ rw stopped refl
    | inr going ↦ rw going (ground arith)
  ]

  expired-early : (x : X) → expired limiter runner deadline x ≡ false → limiter.clock x < deadline
  expired-early x early = elim (Bool-cases (leb deadline (limiter.clock x))) [
    | inl late ↦ let over = expired-late x (ground arith) in cc
    | inr in_time ↦ ground arith
  ]

  -- A turn that does not go on, and one that does.
  expired-LimitedRun :
      (fuel : ℕ) (x : X) → expired limiter runner deadline x ≡ true → LimitedRun (suc fuel) x
  unfolding limited
  expired-LimitedRun fuel x late = record {
    result = (timed_out, x);
    last = x;
    returned = rw (limited, late) refl;
    waits = at_once x;
    ends = times_out late;
  }

  failed-LimitedRun :
      (fuel : ℕ) (x : X)
      → expired limiter runner deadline x ≡ false
      → (limiter.allow x).0 ≡ none
      → LimitedRun (suc fuel) x
  unfolding limited
  failed-LimitedRun fuel x early answer = record {
    result = (limiter_failed, (limiter.allow x).1);
    last = x;
    returned = rw (limited, early, answer) refl;
    waits = at_once x;
    ends = fails early answer;
  }

  allowed-LimitedRun :
      (fuel : ℕ) (x : X) (result : Allowance)
      → expired limiter runner deadline x ≡ false
      → (limiter.allow x).0 ≡ some result
      → ltb 0 result.allowed ≡ true
      → LimitedRun (suc fuel) x
  unfolding limited finished
  allowed-LimitedRun fuel x result early answer free = record {
    result = (ran (runner (limiter.allow x).1).0, (runner (limiter.allow x).1).1);
    last = x;
    returned = rw (limited, early, answer, free) refl;
    waits = at_once x;
    ends = runs result early answer free;
  }

  refused-LimitedRun :
      (fuel : ℕ) (x : X) (result : Allowance)
      → expired limiter runner deadline x ≡ false
      → (limiter.allow x).0 ≡ some result
      → ltb 0 result.allowed ≡ false
      → LimitedRun fuel (limiter.sleep result.retry_after (limiter.allow x).1)
      → LimitedRun (suc fuel) x
  unfolding limited
  refused-LimitedRun fuel x result early answer busy later = record {
    result = later.result;
    last = later.last;
    returned = rw (limited, early, answer, busy) later.returned;
    waits = refused x later.last result early answer busy later.waits;
    ends = later.ends;
  }

  limited-LimitedRun :
      IsLawful limiter
      → (fuel : ℕ) (x : X) → deadline ≤ limiter.clock x + fuel
      → LimitedRun (suc fuel) x
  limited-LimitedRun lawful zero x room = expired-LimitedRun zero x (expired-late x (omega arith))
  limited-LimitedRun lawful (suc fuel) x room =
      elim (Bool-cases (expired limiter runner deadline x)) [
        | inl late ↦ expired-LimitedRun (suc fuel) x late
        | inr early ↦ elim (Option-cases ((limiter.allow x).0)) [
          | inl error ↦ failed-LimitedRun (suc fuel) x early error
          | inr (result, answer) ↦ elim (Bool-cases (ltb 0 result.allowed)) [
            | inl free ↦ allowed-LimitedRun (suc fuel) x result early answer free
            | inr busy ↦
                let (n, pause) = lawful.waits x result answer busy in
                let asked = lawful.asks x in
                let slept = lawful.sleeps (suc n) ((limiter.allow x).1) in
                refused-LimitedRun (suc fuel) x result early answer busy
                  (limited-LimitedRun lawful fuel _ (rw pause (omega arith)))
          ]
        ]
      ]

-- When sleeps take their time, the clock does not go back while the limiter is asked, and a
-- refusal says how long to wait, `RunInRateLimit` returns with one turn more than the timeout has
-- units of time. It has asked the limiter again and again, sleeping in between and not calling
-- the runner; then it times out, or returns the limiter's error, or it runs the runner, once,
-- right after the limiter has allowed it.
pub run_in_rate_limit-Ends :
    {E X : Type 0} (limiter : Limiter X) (runner : X → Option E × X)
    → IsLawful limiter
    → (timeout : ℕ) (x : X)
    → (result : Ran E × X) × (last : X) × (run_in_rate_limit limiter runner (suc timeout) timeout x
        ≡ some result)
      × Waits limiter runner (limiter.clock x + timeout) x last
      × Ends limiter runner (limiter.clock x + timeout) last result
unfolding run_in_rate_limit
run_in_rate_limit-Ends limiter runner lawful timeout x =
    let r =
      limited-LimitedRun limiter runner (limiter.clock x + timeout) lawful timeout x
        (omega arith) in
    (r.result, r.last, r.returned, r.waits, r.ends)
