-- ===== src/Shared/Singleton/Interleaved/Laws.antt =====
-- The instance is loaded once, and all goroutines get it.
use shopble_stellar.Common.{ℕ, ◌≤◌, ◌≡◌, refl, sym, ◌∙◌, subst, nat_eq, arith}
use shopble_stellar.Shared.Singleton.Interleaved.{Load, returned, Goroutines, Steps, unasked}
use shopble_stellar.Shared.Singleton.Interleaved.Phases.{
  Phase, fresh, storing, loaded, Fresh, Storing, Loaded, Phase-steps,
}

module _ {T : Type 0} (loader : ℕ → Load T) where
  Phase-result :
      {s : Goroutines T}
      → Phase s
      → (s.loads ≤ 1)
        × ((i j : ℕ) (v w : T) → s.position i ≡ returned v → s.position j ≡ returned w → v ≡ w)
  Phase-result {s} (fresh off none_yet all) =
      (omega arith, λ i j v w at_i at_j. absurd (subst (Fresh s.mux i) at_i (all i)))
  Phase-result (storing k off once held all) =
      (omega arith, λ i j v w at_i at_j. absurd (subst (Storing k i) at_i (all i)))
  Phase-result {s} (loaded on once all) = (
    omega arith,
    λ i j v w at_i at_j.
        subst (Loaded s.mux s.instance_value i) at_i (all i)
        ∙ sym (subst (Loaded s.mux s.instance_value j) at_j (all j)),
  )

  -- However the goroutines interleave, when every read and write is seen by all at once: of all the
  -- calls of the loader at most one gives an instance, however many return an error or panic, and
  -- all calls of `Get` that have returned without an error have returned the same value.
  pub get-once :
      (zero_value : T) (s : Goroutines T)
      → Steps loader (unasked loader zero_value) s
      → (s.loads ≤ 1)
        × ((i j : ℕ) (v w : T) → s.position i ≡ returned v → s.position j ≡ returned w → v ≡ w)
  get-once zero_value s steps = Phase-result (Phase-steps loader steps (fresh refl refl (λ j. tt)))
