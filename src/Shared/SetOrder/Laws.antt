-- ===== src/Shared/SetOrder/Laws.antt =====
-- Sets to which keys are only added keep the order of insertion; what the size allows.
use shopble_stellar.Common.{
  ℕ, ◌+◌, ◌≤◌, ◌≡◌, refl, ap, inl, inr, Bool-cases, Option-cases, none, some, List, [], ◌∷◌, ◌++◌,
  length, ltb, Comparable, nat_eq, arith,
}
use shopble_stellar.Shared.SetOrder.{Slots, put_slot, position, add, add_sized}

-- The slots of a set without gaps: the positions from `i` on, one after the other.
abbrev pub Dense : {K V : Type 0} → ℕ → Slots K V → Type 0
Dense i [] = Unit
Dense i (s ∷ rest) = (s.0 ≡ i) × Dense (i + 1) rest

-- The entries of such a set.
abbrev pub contents : {K V : Type 0} → Slots K V → List (K × V)
contents [] = []
contents (s ∷ rest) = s.1 ∷ contents rest

module _ {K V : Type 0} where
  put_slot-end :
      (m : Slots K V) (i n : ℕ) (e : K × V)
      → Dense i m
      → n ≡ i + length m
      → put_slot n e m ≡ m ++ (n, e) ∷ []
  unfolding put_slot
  put_slot-end [] i n e d at_end = refl
  put_slot-end ((j, x) ∷ rest) i n e (here, d) at_end =
      let further = put_slot-end rest (i + 1) n e d (omega (arith, at_end)) in
      ground (arith, further)

  Dense-append :
      (m : Slots K V) (i n : ℕ) (e : K × V)
      → Dense i m
      → n ≡ i + length m
      → Dense i (m ++ (n, e) ∷ [])
  Dense-append [] i n e d at_end = (omega (arith, at_end), tt)
  Dense-append (s ∷ rest) i n e (here, d) at_end =
      (here, Dense-append rest (i + 1) n e d (omega (arith, at_end)))

  contents-append :
      (m : Slots K V) (n : ℕ) (e : K × V) → contents (m ++ (n, e) ∷ []) ≡ contents m ++ e ∷ []
  contents-append [] n e = refl
  contents-append (s ∷ rest) n e = ap (λ l. s.1 ∷ l) (contents-append rest n e)

module _ {K V : Type 0} ⦃c : Comparable K⦄ where
  -- Adding a key to a set without gaps keeps it without gaps: a new key goes to the end with its
  -- value, and a known key changes nothing.
  pub add-Dense :
      (k : K) (v : V) (m : Slots K V)
      → Dense 0 m
      → Dense 0 (add k v m)
        × ((position k m ≡ none) → contents (add k v m) ≡ contents m ++ (k, v) ∷ [])
        × ((i : ℕ) → position k m ≡ some i → add k v m ≡ m)
  unfolding add
  add-Dense k v m d =
      let appended = put_slot-end m 0 (length m) (k, v) d (omega arith) in
      elim (Option-cases (position k m)) [
        | inl new ↦ (
          rw (add, new, appended) (Dense-append m 0 (length m) (k, v) d (omega arith)),
          λ h. rw (add, new, appended) (contents-append m (length m) (k, v)),
          λ i h. absurd (cc (new, h)),
        )
        | inr (j, old) ↦ (rw (add, old) d, λ h. absurd (cc (old, h)), λ i h. rw (add, old) refl)
      ]

  length-put_slot : (m : Slots K V) (n : ℕ) (e : K × V) → length (put_slot n e m) ≤ length m + 1
  unfolding put_slot
  length-put_slot [] n e = omega arith
  length-put_slot (s ∷ rest) n e = ground (arith, length-put_slot rest n e)

  -- A set of a given size takes one entry more than its size, and no more than that.
  pub add_sized_bound :
      (size : ℕ) (k : K) (v : V) (m : Slots K V)
      → length m ≤ size + 1
      → length (add_sized size k v m) ≤ size + 1
  unfolding add_sized add
  add_sized_bound size k v m h =
      let one = length-put_slot m (length m) (k, v) in
      elim (Bool-cases (ltb size (length m))) [
        | inl full ↦ rw (add_sized, full) h
        | inr room ↦ elim (Option-cases (position k m)) [
          | inl new ↦ rw (add_sized, room, add, new) (ground (arith, one))
          | inr (j, old) ↦ rw (add_sized, room, add, old) h
        ]
      ]
