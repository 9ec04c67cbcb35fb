-- ===== src/Shared/Singleton/Interleaved.antt =====
-- `Get` of common/comtypes/singleton.go by many goroutines at once. A loader may give the instance,
-- return an error with a value, or panic, which is another answer at each call.
-- The goroutines take their steps in any order, and each step is seen by all at once. The instance is
-- not written once it is marked as loaded, so one step reads the mark and returns the instance.
pub mod Phases
pub mod Laws
use shopble_stellar.Common.{
  ℕ, ◌+◌, ◌≤◌, ◌≡◌, ◌≢◌, refl, sym, ◌∙◌, subst, inl, inr, Bool, Bool-cases, true, false, Option,
  none, some, ◌==◌, nat_eq, nat_beq_iff, if◌then◌else◌, arith,
}
use mathlib.Core.Option.{some-injective}

pub data Load (T : Type 0) : Type 0 where
  gives errs : T → Load T
  panics : Load T

-- Where a goroutine stands: before the first test, before the lock, behind it, with the instance
-- stored but not yet marked as loaded, returned, and stopped by the error or the panic of the loader.
pub data Position (T : Type 0) : Type 0 where
  outside waiting locked_in stored stopped : Position T
  returned : T → Position T

-- The calls of the loader, and those that gave an instance, are counted.
pub record Goroutines (T : Type 0) : Type 0 where
  pub is_loaded : Bool
  pub instance_value : T
  pub mux : Option ℕ
  pub calls : ℕ
  pub loads : ℕ
  pub position : ℕ → Position T

abbrev pub move_to : {T : Type 0} → ℕ → Position T → (ℕ → Position T) → ℕ → Position T
move_to i p positions j = if i == j then p else positions j

module _ {T : Type 0} (loader : ℕ → Load T) where
  pub data Step (s : Goroutines T) : Goroutines T → Type 0 where
    sees_loaded :
        (i : ℕ)
        → s.position i ≡ outside
        → s.is_loaded ≡ true
        → Step s (record s { position = move_to i (returned s.instance_value) s.position })
    sees_unloaded :
        (i : ℕ)
        → s.position i ≡ outside
        → s.is_loaded ≡ false
        → Step s (record s { position = move_to i waiting s.position })
    locks :
        (i : ℕ)
        → s.position i ≡ waiting
        → s.mux ≡ none
        → Step s (record s { mux = some i; position = move_to i locked_in s.position })
    finds_loaded :
        (i : ℕ)
        → s.position i ≡ locked_in
        → s.is_loaded ≡ true
        → Step s
            (record s { mux = none; position = move_to i (returned s.instance_value) s.position })
    loads_it :
        (i : ℕ) (v : T)
        → s.position i ≡ locked_in
        → s.is_loaded ≡ false
        → loader s.calls ≡ gives v
        → Step s (record s {
          instance_value = v;
          calls = s.calls + 1;
          loads = s.loads + 1;
          position = move_to i stored s.position;
        })
    -- the deferred unlock runs in both cases
    meets_error :
        (i : ℕ) (v : T)
        → s.position i ≡ locked_in
        → s.is_loaded ≡ false
        → loader s.calls ≡ errs v
        → Step s (record s {
          instance_value = v;
          mux = none;
          calls = s.calls + 1;
          position = move_to i stopped s.position;
        })
    meets_panic :
        (i : ℕ)
        → s.position i ≡ locked_in
        → s.is_loaded ≡ false
        → loader s.calls ≡ panics
        → Step s
            (record s { mux = none; calls = s.calls + 1; position = move_to i stopped s.position })
    marks :
        (i : ℕ)
        → s.position i ≡ stored
        → Step s (record s {
          is_loaded = true;
          mux = none;
          position = move_to i (returned s.instance_value) s.position;
        })

  pub data Steps (s : Goroutines T) : Goroutines T → Type 0 where
    at_start : Steps s s
    one_more : {t u : Goroutines T} → Steps s t → Step t u → Steps s u

  -- A singleton that nobody has asked for.
  abbrev pub unasked : T → Goroutines T
  unasked zero_value = record {
    is_loaded = false;
    instance_value = zero_value;
    mux = none;
    calls = 0;
    loads = 0;
    position = λ j. outside;
  }
