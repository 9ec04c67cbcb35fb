-- ===== src/Shared/Singleton.antt =====
-- common/comtypes/singleton.go: one call of `Get` after the other, without the lock. The loader acts
-- on an unknown state `X`; without a safe loader its answer is never `none`.
pub mod Interleaved
use mathlib.Core.Option.{some-injective}
use shopble_stellar.Common.{
  ◌≡◌, inl, inr, Bool, Bool-cases, true, false, Option, none, some, refl, string_eq, if◌then◌else◌,
}

-- The fields that change.
pub record Singleton (T : Type 0) : Type 0 where
  pub is_loaded : Bool
  pub instance_value : T

module _ {T X : Type 0} (loader : X → Option T × X) where
  loaded : Singleton T → Option T × X → Option T × (Singleton T × X)
  loaded s (none, x) = (none, (s, x))
  loaded s (some v, x) = (some v, (record { is_loaded = true; instance_value = v }, x))

  -- `Get`: `none` is an error.
  unfoldable pub get : Singleton T × X → Option T × (Singleton T × X)
  unfolding loaded
  get (s, x) = if s.is_loaded then (some s.instance_value, (s, x)) else loaded s (loader x)

  loaded-is_loaded :
      (s : Singleton T) (r : Option T × X) (v : T)
      → (loaded s r).0 ≡ some v
      → ((loaded s r).1.0.is_loaded ≡ true) × ((loaded s r).1.0.instance_value ≡ v)
  unfolding loaded
  loaded-is_loaded s (none, x) v h = cc
  loaded-is_loaded s (some w, x) v h = (refl, cc)

  get-is_loaded :
      (s : Singleton T) (x : X) (v : T)
      → (get (s, x)).0 ≡ some v
      → ((get (s, x)).1.0.is_loaded ≡ true) × ((get (s, x)).1.0.instance_value ≡ v)
  unfolding get
  get-is_loaded s x v h = elim (Bool-cases s.is_loaded) [
    | inl ready ↦ rw (get, ready) (refl, some-injective _ _ (rw (get, ready) at h))
    | inr fresh ↦
        rw (get, fresh)
          (loaded-is_loaded (record { is_loaded = false; instance_value = s.instance_value })
            (loader x) v (rw (get, fresh) at h))
  ]

  get-loaded :
      (s : Singleton T) (y : X) (v : T)
      → s.is_loaded ≡ true
      → s.instance_value ≡ v
      → get (s, y) ≡ (some v, (s, y))
  unfolding get
  get-loaded s y v ready same = rw (get, ready, same) refl

  -- A call that succeeds is the last to load: every later call gives the same value, whatever has
  -- become of the rest of the state, and changes nothing.
  pub get_again :
      (s : Singleton T) (x y : X) (v : T)
      → (get (s, x)).0 ≡ some v
      → get ((get (s, x)).1.0, y) ≡ (some v, ((get (s, x)).1.0, y))
  get_again s x y v h =
      let (ready, same) = get-is_loaded s x v h in get-loaded (get (s, x)).1.0 y v ready same
