-- ===== src/Watcher/Chain/Sync.antt =====
-- Which orders one round of `syncChain` writes.
use shopble_stellar.Common.{
  ℕ, suc, ◌+◌, ◌-◌, ◌≤◌, String, ◌≡◌, ◌≢◌, refl, ap, ◌∙◌, inl, inr, Bool-cases, false, some, List,
  [], ◌∷◌, take, All, arith, leb, ◌==◌, string_eq, eq_iff, if◌then◌else◌,
}
use shopble_stellar.Models.Order.{OrderIntent}
use shopble_stellar.Watcher.Database.{Database, Distinct}
use shopble_stellar.Watcher.Chain.{
  Chain, World, Failures, set_failures, write_chain, attempt, sync_rows, chain_sync_batch,
  chain_sync_max_attempts,
}

-- The orders with attempts left.
abbrev pub eligible : {D : Type 0} → Failures → List (OrderIntent D) → List (OrderIntent D)
eligible f [] = []
eligible f (o ∷ rows) =
    let rest = eligible f rows in if leb chain_sync_max_attempts (f o.id) then rest else o ∷ rest

module _ {D S X : Type 0} (db : Database D S) (chain : Chain D X) where
  abbrev pub attempt_all : List (OrderIntent D) → Failures × World S X → Failures × World S X
  attempt_all [] fw = fw
  attempt_all (o ∷ rows) fw = attempt_all rows (attempt db chain o fw)

  attempt_others :
      (o : OrderIntent D) (fw : Failures × World S X) (j : String)
      → o.id ≢ j
      → (attempt db chain o fw).0 j ≡ fw.0 j
  unfolding attempt set_failures
  attempt_others o fw j other = elim (Bool-cases (o.id == j)) [
    | inl here ↦ absurd (other ((eq_iff o.id j).0 here))
    | inr away ↦
        elim (Bool-cases ((write_chain db (some chain) o o.status o.reject_reason fw.1).0)) [
          | inl stored ↦ rw (stored, away)
          | inr lost ↦ rw (lost, away)
        ]
  ]

  eligible_others :
      (f g : Failures) (o : OrderIntent D) (rows : List (OrderIntent D))
      → ((j : String) → o.id ≢ j → g j ≡ f j)
      → All (λ r. o.id ≢ r.id) rows
      → eligible g rows ≡ eligible f rows
  eligible_others f g o [] same fresh = refl
  eligible_others f g o (r ∷ rows) same (new, fresh) =
      let rest = eligible_others f g o rows same fresh in
      elim (Bool-cases (leb chain_sync_max_attempts (f r.id))) [
        | inl spent ↦ rw (same r.id new, spent) rest
        | inr left ↦ rw (same r.id new, left) (ap (λ rs. r ∷ rs) rest)
      ]

  -- One round writes, in the order of the query, exactly the first orders that have attempts left,
  -- as many as the batch still allows, when the rows of the query have different ids.
  pub sync_rows_lem :
      (rows : List (OrderIntent D)) (done : ℕ) (fw : Failures × World S X)
      → Distinct rows
      → sync_rows db chain rows done fw
        ≡ attempt_all (take (chain_sync_batch - done) (eligible fw.0 rows)) fw
  unfolding sync_rows
  sync_rows_lem [] done fw d = elim (Bool-cases (leb chain_sync_batch done)) [
    | inl full ↦ let none_left : 5 - done ≡ 0 = ground arith in rw none_left
    | inr room ↦ let some_left : 5 - done ≡ suc (4 - done) = ground arith in rw some_left
  ]
  sync_rows_lem (o ∷ rows) done fw (fresh, d) =
      elim (Bool-cases (leb chain_sync_max_attempts (fw.0 o.id))) [
        | inl spent ↦ rw (sync_rows, spent) (sync_rows_lem rows done fw d)
        | inr left ↦ elim (Bool-cases (leb chain_sync_batch done)) [
          | inl full ↦
              let none_left : 5 - done ≡ 0 = ground arith in rw (sync_rows, left, full, none_left)
          | inr room ↦
              let some_left : 5 - done ≡ suc (5 - (done + 1)) = ground arith in
              let same =
                eligible_others fw.0 (attempt db chain o fw).0 o rows (attempt_others o fw) fresh in
              rw (sync_rows, left, room, some_left)
                (sync_rows_lem rows (done + 1) (attempt db chain o fw) d
                  ∙ ap (λ rs. attempt_all (take (5 - (done + 1)) rs) (attempt db chain o fw)) same)
        ]
      ]

  attempt_bound :
      (o : OrderIntent D) (fw : Failures × World S X)
      → leb chain_sync_max_attempts (fw.0 o.id) ≡ false
      → ((j : String) → fw.0 j ≤ chain_sync_max_attempts)
      → (j : String) → (attempt db chain o fw).0 j ≤ chain_sync_max_attempts
  unfolding attempt set_failures
  attempt_bound o fw left bound j =
      let here = bound j in
      elim (Bool-cases ((write_chain db (some chain) o o.status o.reject_reason fw.1).0)) [
        | inl stored ↦ rw stored (ground arith)
        | inr lost ↦ rw lost (ground arith)
      ]

  -- No order is ever counted more failures than the attempts that are allowed.
  pub sync_rows_bound :
      (rows : List (OrderIntent D)) (done : ℕ) (fw : Failures × World S X)
      → ((j : String) → fw.0 j ≤ chain_sync_max_attempts)
      → (j : String) → (sync_rows db chain rows done fw).0 j ≤ chain_sync_max_attempts
  unfolding sync_rows
  sync_rows_bound [] done fw bound j = bound j
  sync_rows_bound (o ∷ rows) done fw bound j =
      elim (Bool-cases (leb chain_sync_max_attempts (fw.0 o.id))) [
        | inl spent ↦ rw (sync_rows, spent) (sync_rows_bound rows done fw bound j)
        | inr left ↦ elim (Bool-cases (leb chain_sync_batch done)) [
          | inl full ↦ rw (sync_rows, left, full) (bound j)
          | inr room ↦
              rw (sync_rows, left, room)
                (sync_rows_bound rows (done + 1) (attempt db chain o fw)
                  (attempt_bound o fw left bound) j)
        ]
      ]
