-- ===== src/Watcher/Chain/Round.antt =====
-- `syncChain` as a whole, over a query that behaves as documented.
use shopble_stellar.Common.{
  ◌*◌, ◌≤◌, ◌<◌, ◌≡◌, inl, inr, Bool-cases, true, Option-cases, none, some, List, [], ◌∷◌, take,
  length, length-take, All, All-take, arith, leb,
}
use shopble_stellar.Models.Status.{OrderStatus, order_final}
use shopble_stellar.Models.Order.{OrderIntent}
use shopble_stellar.Watcher.Database
use shopble_stellar.Watcher.Database.{Database, Tables, Unsynced, untimed}
use shopble_stellar.Watcher.Chain.{
  Chain, World, Failures, sync_chain, chain_sync_batch, chain_sync_max_attempts,
}
use shopble_stellar.Watcher.Chain.Sync.{eligible, attempt_all, sync_rows_lem}

abbrev final_statuses : List OrderStatus
final_statuses = OrderStatus.validated ∷ OrderStatus.rejected ∷ []

-- An order that a round may write: final, without a hash, and with attempts left.
abbrev pub Due : {D : Type 0} → Tables D → Failures → OrderIntent D → Type 0
Due t chain_failed o =
    (t.orders o.id ≡ some (untimed o))
    × (order_final o.status ≡ true)
    × (o.on_chain_tx_hash ≡ "")
    × (chain_failed o.id < chain_sync_max_attempts)

abbrev pub first_eligible : {D : Type 0} → Failures → List (OrderIntent D) → List (OrderIntent D)
first_eligible chain_failed rows = take chain_sync_batch (eligible chain_failed rows)

eligible-Due :
    {D : Type 0} (t : Tables D) (f : Failures) (rows : List (OrderIntent D))
    → All (Unsynced final_statuses t) rows
    → All (Due t f) (eligible f rows)
unfolding order_final
eligible-Due t f [] h = tt
eligible-Due t f (o ∷ rows) ((there, final, bare), rest) =
    elim (Bool-cases (leb chain_sync_max_attempts (f o.id))) [
      | inl spent ↦ rw spent (eligible-Due t f rows rest)
      | inr left ↦ rw left ((there, ground arith, bare, ground arith), eligible-Due t f rows rest)
    ]

module _ {D S X : Type 0} (db : Database D S) (tables : S → Tables D)
    (lawful : Database.IsLawful db tables) (chain : Chain D X) where
  -- What a round does: nothing when the query fails; otherwise it tries the given orders, one after
  -- the other, and no other.
  pub data Synced (fw : Failures × World S X) : Failures × World S X → Type 0 where
    unread : db.find_unsynced final_statuses (chain_sync_batch * 4) fw.1.db ≡ none → Synced fw fw
    tried :
        (rows : List (OrderIntent D))
        → db.find_unsynced final_statuses (chain_sync_batch * 4) fw.1.db ≡ some rows
        → All (Due (tables fw.1.db) fw.0) (first_eligible fw.0 rows)
        → length (first_eligible fw.0 rows) ≤ chain_sync_batch
        → Synced fw (attempt_all db chain (first_eligible fw.0 rows) fw)

  -- A round of `syncChain` tries, in the order of the query, the first five orders that have
  -- attempts left, all of which are final orders of the tables without a transaction hash, and
  -- nothing else. When the query fails it does nothing.
  pub sync_chain-Synced : (fw : Failures × World S X) → Synced fw (sync_chain db (some chain) fw)
  unfolding sync_chain
  sync_chain-Synced fw =
      elim (Option-cases (db.find_unsynced final_statuses (chain_sync_batch * 4) fw.1.db)) [
        | inl failed ↦ rw (sync_chain, failed) (unread failed)
        | inr (rows, found) ↦
            let (distinct, all, few) =
              lawful.find_unsynced_lem final_statuses (chain_sync_batch * 4) fw.1.db found in
            rw (sync_chain, found, sync_rows_lem db chain rows 0 fw distinct)
              (tried rows found
                (All-take (Due (tables fw.1.db) fw.0) chain_sync_batch _
                  (eligible-Due (tables fw.1.db) fw.0 rows all))
                (omega (arith, length-take chain_sync_batch (eligible fw.0 rows))))
      ]

  -- When all the orders of the query have spent their attempts the round does nothing, however many
  -- orders wait behind them.
  pub sync_chain-starved :
      (fw : Failures × World S X) (rows : List (OrderIntent D))
      → db.find_unsynced final_statuses (chain_sync_batch * 4) fw.1.db ≡ some rows
      → eligible fw.0 rows ≡ []
      → sync_chain db (some chain) fw ≡ fw
  unfolding sync_chain
  sync_chain-starved fw rows found spent =
      let (distinct, all, few) =
        lawful.find_unsynced_lem final_statuses (chain_sync_batch * 4) fw.1.db found in
      rw (sync_chain, found, sync_rows_lem db chain rows 0 fw distinct, spent)
