-- ===== src/Examples/Memory/Query.antt =====
-- What the query of the database in memory finds.
use shopble_stellar.Common.{
  ℕ, zero, suc, ◌≤◌, String, ◌≡◌, ◌≢◌, refl, ap, inl, inr, Bool-cases, true, false, ◌&&◌, Option,
  none, some, List, [], ◌∷◌, All, All-take, take, length, length-take, arith, ◌==◌, string_eq,
  eq_iff,
}
use shopble_stellar.Models.Status.{OrderStatus}
use shopble_stellar.Models.Order.{OrderIntent}
use shopble_stellar.Watcher.Database.{Distinct, Unsynced, status_in}
use shopble_stellar.Examples.Memory.{
  Memory, memory_tables, add_unsynced, unsynced, has_id, keyed_order,
}

module _ {D : Type 0} where
  -- Every row of the query has an id of the list, and is in the tables with one of the statuses and
  -- without a hash.
  abbrev Row : List OrderStatus → List String → Memory D → OrderIntent D → Type 0
  Row statuses ids m o = (has_id ids o.id ≡ true) × Unsynced statuses (memory_tables m) o

  Row-later :
      (statuses : List OrderStatus) (id : String) (ids : List String) (m : Memory D)
      (rows : List (OrderIntent D))
      → All (Row statuses ids m) rows
      → All (Row statuses (id ∷ ids) m) rows
  Row-later statuses id ids m [] h = tt
  Row-later statuses id ids m (o ∷ rows) ((listed, there), rest) =
      ((ground arith, there), Row-later statuses id ids m rows rest)

  new_id :
      (statuses : List OrderStatus) (id : String) (ids : List String) (m : Memory D)
      (rows : List (OrderIntent D))
      → has_id ids id ≡ false
      → All (Row statuses ids m) rows
      → All (λ (r : OrderIntent D). id ≢ r.id) rows
  new_id statuses id ids m [] new h = tt
  new_id statuses id ids m (o ∷ rows) new ((listed, there), rest) =
      (λ e. cc (ap (has_id ids) e, listed, new), new_id statuses id ids m rows new rest)

  put_first :
      (statuses : List OrderStatus) (id : String) (ids : List String) (m : Memory D)
      (row : Option (OrderIntent D)) (rows : List (OrderIntent D))
      → m.rows.orders id ≡ row
      → has_id ids id ≡ false
      → Distinct rows × All (Row statuses ids m) rows
      → let out = add_unsynced statuses (keyed_order id row) rows in
        Distinct out × All (Row statuses (id ∷ ids) m) out
  put_first statuses id ids m none rows found new (distinct, all) =
      (distinct, Row-later statuses id ids m rows all)
  put_first statuses id ids m (some o) rows found new (distinct, all) =
      elim (Bool-cases (status_in o.status statuses && (o.on_chain_tx_hash == ""))) [
        | inl unsynced_one ↦ rw unsynced_one (
          (new_id statuses id ids m rows new all, distinct),
          (
            (
              ground (arith, eq_iff id id),
              (rw found, ground arith, ground (arith, eq_iff o.on_chain_tx_hash "")),
            ),
            Row-later statuses id ids m rows all,
          ),
        )
        | inr other ↦ rw other (distinct, Row-later statuses id ids m rows all)
      ]

  unsynced_lem :
      (statuses : List OrderStatus) (ids : List String) (m : Memory D)
      → let rows = unsynced statuses ids m.rows.orders in
        Distinct rows × All (Row statuses ids m) rows
  unsynced_lem statuses [] m = (tt, tt)
  unsynced_lem statuses (id ∷ ids) m =
      let rest = unsynced_lem statuses ids m in
      elim (Bool-cases (has_id ids id)) [
        | inl old ↦ rw old (rest.0, Row-later statuses id ids m _ rest.1)
        | inr new ↦ rw new (put_first statuses id ids m (m.rows.orders id) _ refl new rest)
      ]

  Distinct-take : (n : ℕ) (rows : List (OrderIntent D)) → Distinct rows → Distinct (take n rows)
  Distinct-take zero rows h = tt
  Distinct-take (suc n) [] h = tt
  Distinct-take (suc n) (o ∷ rows) (fresh, h) =
      (All-take (λ (r : OrderIntent D). o.id ≢ r.id) n rows fresh, Distinct-take n rows h)

  Row-Unsynced :
      (statuses : List OrderStatus) (ids : List String) (m : Memory D) (rows : List (OrderIntent D))
      → All (Row statuses ids m) rows
      → All (Unsynced statuses (memory_tables m)) rows
  Row-Unsynced statuses ids m [] h = tt
  Row-Unsynced statuses ids m (o ∷ rows) h = (h.0.1, Row-Unsynced statuses ids m rows h.1)

  pub found_lem :
      (statuses : List OrderStatus) (limit : ℕ) (m : Memory D)
      → let rows = take limit (unsynced statuses m.ids m.rows.orders) in
        Distinct rows × All (Unsynced statuses (memory_tables m)) rows × (length rows ≤ limit)
  found_lem statuses limit m =
      let (distinct, all) = unsynced_lem statuses m.ids m in
      (
        Distinct-take limit _ distinct,
        All-take (Unsynced statuses (memory_tables m)) limit _
            (Row-Unsynced statuses m.ids m _ all),
        omega (arith, length-take limit (unsynced statuses m.ids m.rows.orders)),
      )
