-- ===== src/Shared/Singleton/Interleaved/Phases.antt =====
-- Before the load, while a goroutine stores the instance, and after it: where each goroutine may
-- stand.
use shopble_stellar.Common.{
  ℕ, ◌≡◌, ◌≢◌, refl, sym, ◌∙◌, subst, inl, inr, Bool-cases, true, false, Option, none, some, ◌==◌,
  nat_eq, nat_beq_iff, arith,
}
use mathlib.Core.Option.{some-injective}
use shopble_stellar.Shared.Singleton.Interleaved.{
  Load, Position, outside, waiting, locked_in, stored, stopped, returned, Goroutines, move_to, Step,
  sees_loaded, sees_unloaded, locks, finds_loaded, loads_it, meets_error, meets_panic, marks, Steps,
  at_start, one_more,
}

module _ {T : Type 0} where
  -- Where goroutine `j` may stand before the load, while `i` stores, and after it.
  abbrev pub Fresh : Option ℕ → ℕ → Position T → Type 0
  Fresh mux j outside = Unit
  Fresh mux j waiting = Unit
  Fresh mux j locked_in = mux ≡ some j
  Fresh mux j stored = ⊥
  Fresh mux j stopped = Unit
  Fresh mux j (returned v) = ⊥

  abbrev pub Storing : ℕ → ℕ → Position T → Type 0
  Storing i j outside = Unit
  Storing i j waiting = Unit
  Storing i j locked_in = ⊥
  Storing i j stored = i ≡ j
  Storing i j stopped = Unit
  Storing i j (returned v) = ⊥

  abbrev pub Loaded : Option ℕ → T → ℕ → Position T → Type 0
  Loaded mux v j outside = Unit
  Loaded mux v j waiting = Unit
  Loaded mux v j locked_in = mux ≡ some j
  Loaded mux v j stored = ⊥
  Loaded mux v j stopped = Unit
  Loaded mux v j (returned w) = w ≡ v

  pub data Phase (s : Goroutines T) : Type 0 where
    fresh : s.is_loaded ≡ false → s.loads ≡ 0 → ((j : ℕ) → Fresh s.mux j (s.position j)) → Phase s
    storing :
        (i : ℕ)
        → s.is_loaded ≡ false
        → s.loads ≡ 1
        → s.mux ≡ some i
        → ((j : ℕ) → Storing i j (s.position j))
        → Phase s
    loaded :
        s.is_loaded ≡ true
        → s.loads ≡ 1
        → ((j : ℕ) → Loaded s.mux s.instance_value j (s.position j))
        → Phase s

module _ {T : Type 0} (loader : ℕ → Load T) where
  move_to-all :
      (Q : ℕ → Position T → Type 0) (i : ℕ) (p : Position T) (positions : ℕ → Position T)
      → Q i p
      → ((j : ℕ) → i ≢ j → Q j (positions j))
      → (j : ℕ) → Q j (move_to i p positions j)
  move_to-all Q i p positions here others j = elim (Bool-cases (i == j)) [
    | inl same ↦ let one : i ≡ j = (nat_beq_iff i j).0 same in rw same (subst (λ k. Q k p) one here)
    | inr away ↦ rw away (others j (λ one. cc ((nat_beq_iff i j).1 one, away)))
  ]

  -- A position that waits for the lock, or has it, when the lock changes hands.
  Fresh-lock :
      (mux mux' : Option ℕ) (j : ℕ) (p : Position T)
      → (mux ≡ some j → ⊥)
      → Fresh mux j p
      → Fresh mux' j p
  Fresh-lock mux mux' j outside other h = tt
  Fresh-lock mux mux' j waiting other h = tt
  Fresh-lock mux mux' j locked_in other h = absurd (other h)
  Fresh-lock mux mux' j stored other h = h
  Fresh-lock mux mux' j stopped other h = tt
  Fresh-lock mux mux' j (returned v) other h = h

  Fresh-Storing :
      (mux : Option ℕ) (i j : ℕ) (p : Position T)
      → (mux ≡ some j → ⊥)
      → Fresh mux j p
      → Storing i j p
  Fresh-Storing mux i j outside other h = tt
  Fresh-Storing mux i j waiting other h = tt
  Fresh-Storing mux i j locked_in other h = absurd (other h)
  Fresh-Storing mux i j stored other h = absurd h
  Fresh-Storing mux i j stopped other h = tt
  Fresh-Storing mux i j (returned v) other h = absurd h

  Storing-Loaded :
      (mux : Option ℕ) (v : T) (i j : ℕ) (p : Position T) → i ≢ j → Storing i j p → Loaded mux v j p
  Storing-Loaded mux v i j outside other h = tt
  Storing-Loaded mux v i j waiting other h = tt
  Storing-Loaded mux v i j locked_in other h = absurd h
  Storing-Loaded mux v i j stored other h = absurd (other h)
  Storing-Loaded mux v i j stopped other h = tt
  Storing-Loaded mux v i j (returned w) other h = absurd h

  Loaded-lock :
      (mux mux' : Option ℕ) (v : T) (j : ℕ) (p : Position T)
      → (mux ≡ some j → ⊥)
      → Loaded mux v j p
      → Loaded mux' v j p
  Loaded-lock mux mux' v j outside other h = tt
  Loaded-lock mux mux' v j waiting other h = tt
  Loaded-lock mux mux' v j locked_in other h = absurd (other h)
  Loaded-lock mux mux' v j stored other h = h
  Loaded-lock mux mux' v j stopped other h = tt
  Loaded-lock mux mux' v j (returned w) other h = h

  not_mine : {mux : Option ℕ} {i j : ℕ} → mux ≡ some i → i ≢ j → mux ≡ some j → ⊥
  not_mine held other h = other (some-injective _ _ (sym held ∙ h))

  -- A goroutine that stops gives the lock back.
  Fresh-stop :
      (i : ℕ) (mux : Option ℕ) (positions : ℕ → Position T)
      → mux ≡ some i
      → ((j : ℕ) → Fresh mux j (positions j))
      → (j : ℕ) → Fresh none j (move_to i stopped positions j)
  Fresh-stop i mux positions held all =
      move_to-all (Fresh none) i stopped positions tt
        (λ j other. Fresh-lock mux none j (positions j) (not_mine held other) (all j))

  Phase-fresh :
      {s t : Goroutines T}
      → Step loader s t
      → s.is_loaded ≡ false
      → s.loads ≡ 0
      → ((j : ℕ) → Fresh s.mux j (s.position j))
      → Phase t
  Phase-fresh (sees_loaded i at ready) off none_yet all = cc
  Phase-fresh {s} (sees_unloaded i at unready) off none_yet all =
      fresh off none_yet (move_to-all (Fresh s.mux) i waiting s.position tt (λ j other. all j))
  Phase-fresh {s} (locks i at free) off none_yet all = fresh off none_yet (
      move_to-all (Fresh (some i)) i locked_in s.position refl
        (λ j other. Fresh-lock s.mux (some i) j (s.position j) (λ h. cc (free, h)) (all j)))
  Phase-fresh (finds_loaded i at ready) off none_yet all = cc
  Phase-fresh {s} (loads_it i v at unready gave) off none_yet all =
      let held : s.mux ≡ some i = subst (Fresh s.mux i) at (all i) in
      storing i off (omega arith) held (
        move_to-all (Storing i) i stored s.position refl
          (λ j other. Fresh-Storing s.mux i j (s.position j) (not_mine held other) (all j)))
  Phase-fresh {s} (meets_error i v at unready erred) off none_yet all =
      let held : s.mux ≡ some i = subst (Fresh s.mux i) at (all i) in
      fresh off none_yet (Fresh-stop i s.mux s.position held all)
  Phase-fresh {s} (meets_panic i at unready panicked) off none_yet all =
      let held : s.mux ≡ some i = subst (Fresh s.mux i) at (all i) in
      fresh off none_yet (Fresh-stop i s.mux s.position held all)
  Phase-fresh {s} (marks i at) off none_yet all = absurd (subst (Fresh s.mux i) at (all i))

  Phase-storing :
      {s t : Goroutines T} (k : ℕ)
      → Step loader s t
      → s.is_loaded ≡ false
      → s.loads ≡ 1
      → s.mux ≡ some k
      → ((j : ℕ) → Storing k j (s.position j))
      → Phase t
  Phase-storing k (sees_loaded i at ready) off once held all = cc
  Phase-storing {s} k (sees_unloaded i at unready) off once held all =
      storing k off once held (move_to-all (Storing k) i waiting s.position tt (λ j other. all j))
  Phase-storing k (locks i at free) off once held all = cc
  Phase-storing k (finds_loaded i at ready) off once held all = cc
  Phase-storing {s} k (loads_it i v at unready gave) off once held all =
      absurd (subst (Storing k i) at (all i))
  Phase-storing {s} k (meets_error i v at unready erred) off once held all =
      absurd (subst (Storing k i) at (all i))
  Phase-storing {s} k (meets_panic i at unready panicked) off once held all =
      absurd (subst (Storing k i) at (all i))
  Phase-storing {s} k (marks i at) off once held all =
      let mine : k ≡ i = subst (Storing k i) at (all i) in
      loaded refl once (
        move_to-all (Loaded none s.instance_value) i (returned s.instance_value) s.position refl
          (λ j other.
            Storing-Loaded none s.instance_value k j (s.position j)
              (λ same. other (sym mine ∙ same)) (all j)))

  Phase-loaded :
      {s t : Goroutines T}
      → Step loader s t
      → s.is_loaded ≡ true
      → s.loads ≡ 1
      → ((j : ℕ) → Loaded s.mux s.instance_value j (s.position j))
      → Phase t
  Phase-loaded {s} (sees_loaded i at ready) on once all = loaded on once (
      move_to-all (Loaded s.mux s.instance_value) i (returned s.instance_value) s.position refl
        (λ j other. all j))
  Phase-loaded (sees_unloaded i at unready) on once all = cc
  Phase-loaded {s} (locks i at free) on once all = loaded on once (
      move_to-all (Loaded (some i) s.instance_value) i locked_in s.position refl (λ j other.
        Loaded-lock s.mux (some i) s.instance_value j (s.position j) (λ h. cc (free, h)) (all j)))
  Phase-loaded {s} (finds_loaded i at ready) on once all =
      let held : s.mux ≡ some i = subst (Loaded s.mux s.instance_value i) at (all i) in
      loaded on once (
        move_to-all (Loaded none s.instance_value) i (returned s.instance_value) s.position refl
          (λ j other.
            Loaded-lock s.mux none s.instance_value j (s.position j) (not_mine held other) (all j)))
  Phase-loaded (loads_it i v at unready gave) on once all = cc
  Phase-loaded (meets_error i v at unready erred) on once all = cc
  Phase-loaded (meets_panic i at unready panicked) on once all = cc
  Phase-loaded {s} (marks i at) on once all =
      absurd (subst (Loaded s.mux s.instance_value i) at (all i))

  pub Phase-step : {s t : Goroutines T} → Step loader s t → Phase s → Phase t
  Phase-step step (fresh off none_yet all) = Phase-fresh step off none_yet all
  Phase-step step (storing k off once held all) = Phase-storing k step off once held all
  Phase-step step (loaded on once all) = Phase-loaded step on once all

  pub Phase-steps : {s t : Goroutines T} → Steps loader s t → Phase s → Phase t
  Phase-steps at_start phase = phase
  Phase-steps (one_more before step) phase = Phase-step step (Phase-steps before phase)
