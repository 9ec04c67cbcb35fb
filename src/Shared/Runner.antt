-- ===== src/Shared/Runner.antt =====
-- common/comrunner: session.go, the shutdown of manager.go, and root_closer.go. The services act on
-- an unknown state `X`; the signal has arrived.
pub mod Laws
use shopble_stellar.Common.{
  ℕ, ◌+◌, String, Bool, true, false, Option, none, some, List, [], ◌∷◌, length, ltb, ◌==◌,
  string_eq, if◌then◌else◌,
}

-- `Service`, after its start.
pub record Service (E X : Type 0) : Type 0 where
  pub name : String
  pub before_stop : X → X
  pub stop : X → Option E × X

-- The map of errors by name.
abbrev pub set_error : {E : Type 0} → String → E → (String → Option E) → String → Option E
set_error name err err_map key = if name == key then some err else err_map key

noted : {E : Type 0} → String → Option E → (String → Option E) → String → Option E
noted name none err_map = err_map
noted name (some err) err_map = set_error name err err_map

one_if_stopped : {E : Type 0} → Option E → ℕ
one_if_stopped none = 1
one_if_stopped (some err) = 0

module _ {E X : Type 0} where
  -- The loop of `End`, with the map so far.
  unfoldable pub end_all : List (Service E X) → (String → Option E) → X → (String → Option E) × X
  unfolding noted
  end_all [] err_map x = (err_map, x)
  end_all (service ∷ services) err_map x =
      let (err, x') = service.stop x in end_all services (noted service.name err err_map) x'

  -- `Session.End`
  unfoldable pub end_session : List (Service E X) → X → (String → Option E) × X
  unfolding end_all
  end_session services x = end_all services (λ key. none) x

  unfoldable pub before_stops : List (Service E X) → X → X
  before_stops [] x = x
  before_stops (service ∷ services) x = before_stops services (service.before_stop x)

  -- The count of `RunSession`.
  unfoldable pub stop_ok_count : (String → Option E) → List (Service E X) → ℕ
  unfolding one_if_stopped
  stop_ok_count err_map [] = 0
  stop_ok_count err_map (service ∷ services) =
      one_if_stopped (err_map service.name) + stop_ok_count err_map services

  -- `RunSession` from the signal on: whether it says that all services have shut down.
  unfoldable pub run_session : List (Service E X) → X → Bool × X
  unfolding end_session
  run_session services x =
      let (err_map, x') = end_session services (before_stops services x) in
      (if ltb (stop_ok_count err_map services) (length services) then false else true, x')

-- A closer returns, or it panics.
abbrev pub Closer : Type 0 → Type 0
Closer X = X → Bool × X

module _ {X : Type 0} where
  -- `SafeClose`: the deferred calls recover a panic only once the loop has been left by it.
  unfoldable pub safe_close : List (Closer X) → X → X
  safe_close [] x = x
  safe_close (closer ∷ closers) x =
      let (panicked, x') = closer x in elim panicked [ true ↦ x' | false ↦ safe_close closers x' ]
