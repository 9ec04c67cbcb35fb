-- ===== src/Shared/HashSet.antt =====
-- common/comtypes/hash_set.go. The Go map is the list of its keys.
pub mod Laws
use shopble_stellar.Common.{
  Bool, true, false, not, ◌||◌, List, [], ◌∷◌, ◌==◌, Comparable, if◌then◌else◌,
}

module _ {T : Type 0} ⦃c : Comparable T⦄ where
  -- `Contains`
  unfoldable pub contains : T → List T → Bool
  contains v [] = false
  contains v (x ∷ rest) = x == v || contains v rest

  -- `Add`, with the set after it
  unfoldable pub add : T → List T → Bool × List T
  add v s = if contains v s then (false, s) else (true, v ∷ s)

  -- `delete(s, v)`
  unfoldable pub delete_key : T → List T → List T
  delete_key v [] = []
  delete_key v (x ∷ rest) = let others = delete_key v rest in if x == v then rest else x ∷ others

  -- `Remove`
  unfoldable pub remove : T → List T → Bool × List T
  remove v s = if not (contains v s) then (false, s) else (true, delete_key v s)

  -- `NewHashSetFromList`, from the set that is there so far
  unfoldable pub add_list : List T → List T → List T
  unfolding add
  add_list [] s = s
  add_list (v ∷ items) s = add_list items (add v s).1

  unfoldable pub new_hash_set : List T → List T
  new_hash_set items = add_list items []
