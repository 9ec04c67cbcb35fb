-- ===== src/Shared/SetOrder.antt =====
-- common/comtypes/set_order.go. The Go map from positions to entries is the list of its slots, in
-- the order in which Go happens to visit them.
pub mod Laws
use shopble_stellar.Common.{
  ℕ, zero, suc, ◌+◌, Bool, true, false, Option, none, some, List, [], ◌∷◌, length, map, ltb, ◌==◌,
  Comparable, nat_eq, if◌then◌else◌,
}

abbrev pub Slots : Type 0 → Type 0 → Type 0
Slots K V = List (ℕ × (K × V))

module _ {K V : Type 0} where
  -- `m[idx] = entry`
  unfoldable pub put_slot : ℕ → K × V → Slots K V → Slots K V
  put_slot i e [] = (i, e) ∷ []
  put_slot i e (s ∷ rest) =
      let others = put_slot i e rest in if s.0 == i then (i, e) ∷ rest else s ∷ others

  -- `delete(m, idx)`
  unfoldable pub delete_slot : ℕ → Slots K V → Slots K V
  delete_slot i [] = []
  delete_slot i (s ∷ rest) =
      let others = delete_slot i rest in if s.0 == i then rest else s ∷ others

  -- `m[idx]`, the zero value when it is missing
  unfoldable pub slot_at : K × V → ℕ → Slots K V → K × V
  slot_at zero_value i [] = zero_value
  slot_at zero_value i (s ∷ rest) =
      let other = slot_at zero_value i rest in if s.0 == i then s.1 else other

  -- The loop over positions from `i` of `AsList` and `Entries`.
  unfoldable pub slots_from : K × V → Slots K V → ℕ → ℕ → List (K × V)
  slots_from zero_value m i zero = []
  slots_from zero_value m i (suc n) = slot_at zero_value i m ∷ slots_from zero_value m (i + 1) n

  -- `AsList`
  unfoldable pub as_list : K × V → Slots K V → List (K × V)
  as_list zero_value m = slots_from zero_value m 0 (length m)

  -- `Entries`
  unfoldable pub entries : K × V → Slots K V → List K × List V
  entries zero_value m =
      (map (λ e. e.0) (as_list zero_value m), map (λ e. e.1) (as_list zero_value m))

module _ {K V : Type 0} ⦃c : Comparable K⦄ where
  -- `Contains`: `none` is (-1, false).
  unfoldable pub position : K → Slots K V → Option ℕ
  position k [] = none
  position k ((i, e) ∷ rest) = let other = position k rest in if e.0 == k then some i else other

  -- `ContainsAndGet`
  unfoldable pub contains_and_get : K → Slots K V → Option V
  contains_and_get k [] = none
  contains_and_get k ((i, e) ∷ rest) =
      let other = contains_and_get k rest in if e.0 == k then some e.1 else other

  -- `SetOrder.Add`
  unfoldable pub add : K → V → Slots K V → Slots K V
  add k v m = elim (position k m) [ some i ↦ m | none ↦ put_slot (length m) (k, v) m ]

  -- `AddOrReplace`
  unfoldable pub add_or_replace : K → V → Slots K V → Slots K V
  add_or_replace k v m = elim (position k m) [ some i ↦ put_slot i (k, v) m | none ↦ add k v m ]

  -- `Remove`
  unfoldable pub remove : K → Slots K V → Slots K V
  remove k m = elim (position k m) [ some i ↦ delete_slot i m | none ↦ m ]

  -- `SetOrderSize.Add`, with its size, which `NewSetOrder` makes positive.
  unfoldable pub add_sized : ℕ → K → V → Slots K V → Slots K V
  unfolding add
  add_sized size k v m = if ltb size (length m) then m else add k v m
