-- ===== src/Shared/Collection.antt =====
-- common/comutils/collection.go and number.go. A Go map is a function of its keys that answers
-- `none` for a missing one; the two comparisons take the order of the number type.
use shopble_stellar.Common.{
  Bool, Option, none, some, List, [], ◌∷◌, ◌++◌, ◌≡◌, refl, sym, ap, ◌∙◌, inl, inr, Bool-cases,
  Comparable, ◌==◌, if◌then◌else◌,
}

module _ {A B : Type 0} where
  -- `ToList`
  unfoldable pub to_list : List A → (A → B) → List B
  to_list [] fn = []
  to_list (a ∷ arr) fn = fn a ∷ to_list arr fn

  -- `ToListSafe`: the first error ends it.
  unfoldable pub to_list_safe : List A → (A → Option B) → Option (List B)
  to_list_safe [] fn = some []
  to_list_safe (a ∷ arr) fn = elim (fn a) [
    | none ↦ none
    | some value ↦ elim (to_list_safe arr fn) [ none ↦ none | some list ↦ some (value ∷ list) ]
  ]

unfoldable pub store : {B C : Type 0} ⦃c : Comparable C⦄ → C → B → (C → Option B) → C → Option B
store key val m k = if key == k then some val else m k

append_one : {B : Type 0} (xs : List B) (x : B) (ys : List B) → (xs ++ x ∷ []) ++ ys ≡ xs ++ x ∷ ys
append_one [] x ys = refl
append_one (y ∷ xs) x ys = ap (λ l. y ∷ l) (append_one xs x ys)

module _ {A B C : Type 0} ⦃c : Comparable C⦄ where
  list_to_map_from : List A → (A → C × B) → (C → Option B) → C → Option B
  unfolding store
  list_to_map_from [] fn m = m
  list_to_map_from (v ∷ arr) fn m = list_to_map_from arr fn (store (fn v).0 (fn v).1 m)

  -- `ListToMap`
  unfoldable pub list_to_map : List A → (A → C × B) → C → Option B
  unfolding list_to_map_from
  list_to_map arr fn = list_to_map_from arr fn (λ k. none)

  -- `ListToMapArray`: a missing key has the empty list.
  group_from : List A → (A → C × B) → (C → List B) → C → List B
  group_from [] fn m = m
  group_from (v ∷ arr) fn m =
      group_from arr fn (λ k. if (fn v).0 == k then m k ++ (fn v).1 ∷ [] else m k)

  unfoldable pub list_to_map_array : List A → (A → C × B) → C → List B
  unfolding group_from
  list_to_map_array arr fn = group_from arr fn (λ k. [])

  -- The values of one key, in the order of the list.
  abbrev pub values_of : List A → (A → C × B) → C → List B
  values_of [] fn k = []
  values_of (v ∷ arr) fn k =
      let rest = values_of arr fn k in if (fn v).0 == k then (fn v).1 ∷ rest else rest

  group_from_lem :
      (arr : List A) (fn : A → C × B) (m : C → List B) (k : C)
      → group_from arr fn m k ≡ m k ++ values_of arr fn k
  unfolding group_from
  group_from_lem [] fn m k = sym (append_nil (m k))
    where
      append_nil : (xs : List B) → xs ++ [] ≡ xs
      append_nil [] = refl
      append_nil (x ∷ xs) = ap (λ l. x ∷ l) (append_nil xs)
  group_from_lem (v ∷ arr) fn m k = elim (Bool-cases ((fn v).0 == k)) [
    | inl here ↦
        group_from_lem arr fn _ k ∙ rw here (append_one (m k) (fn v).1 (values_of arr fn k))
    | inr other ↦ group_from_lem arr fn _ k ∙ rw other refl
  ]

  -- `ListToMapArray` keeps for every key the values of that key, each once and in the order of the
  -- list.
  pub list_to_map_array-values_of :
      (arr : List A) (fn : A → C × B) (k : C) → list_to_map_array arr fn k ≡ values_of arr fn k
  unfolding list_to_map_array
  list_to_map_array-values_of arr fn k = group_from_lem arr fn (λ j. []) k

module _ {T : Type 0} (less_than : T → T → Bool) where
  -- `MinNumber`
  unfoldable pub min_number : T → List T → T
  min_number min_n [] = min_n
  min_number min_n (n ∷ numbers) = min_number (if less_than n min_n then n else min_n) numbers

  -- `MaxNumber`
  unfoldable pub max_number : T → List T → T
  max_number max_n [] = max_n
  max_number max_n (n ∷ numbers) = max_number (if less_than max_n n then n else max_n) numbers
