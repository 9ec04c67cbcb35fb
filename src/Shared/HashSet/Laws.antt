-- ===== src/Shared/HashSet/Laws.antt =====
-- A hash set has the items that it was made of.
use shopble_stellar.Common.{
  ◌≡◌, refl, sym, ap, ◌∙◌, inl, inr, Bool-cases, true, ◌||◌, List, [], ◌∷◌, ◌==◌, Comparable, arith,
}
use shopble_stellar.Shared.HashSet.{contains, add, add_list, new_hash_set}

module _ {T : Type 0} ⦃c : Comparable T⦄ where
  contains-add : (v w : T) (s : List T) → contains v (add w s).1 ≡ (contains v s || w == v)
  unfolding contains add
  contains-add v w s = elim (Bool-cases (contains w s)) [
    | inl old ↦ elim (Bool-cases (w == v)) [
      | inl same ↦
          let here : contains v s ≡ true =
            ap (λ x. contains x s) (sym ((c.equals_iff w v).0 same)) ∙ old in
          rw (add, old, same, here) refl
      | inr other ↦ rw (add, old, other) (ground arith)
    ]
    | inr new ↦ rw (add, new) (ground arith)
  ]

  contains-add_list :
      (v : T) (items s : List T)
      → contains v (add_list items s) ≡ (contains v s || contains v items)
  unfolding add_list contains
  contains-add_list v [] s = ground arith
  contains-add_list v (w ∷ items) s =
      ground (arith, contains-add_list v items (add w s).1, contains-add v w s)

  -- A set that is made from a list contains exactly the items of the list.
  pub contains-new_hash_set :
      (v : T) (items : List T) → contains v (new_hash_set items) ≡ contains v items
  unfolding new_hash_set contains
  contains-new_hash_set v items = contains-add_list v items []
