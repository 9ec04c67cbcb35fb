-- ===== src/Watcher/Database.antt =====
-- What the watcher and the API use of gorm and PostgreSQL, over an unknown state `S` of the
-- database, and the documented behaviour of those statements on the three tables. A statement that
-- the database refuses answers `none`.
use shopble_stellar.Common.{
  ℕ, String, ◌≡◌, ◌⊎◌, Option, none, some, Bool, true, false, ◌||◌, ◌≢◌, ◌≤◌, All, length, List, [],
  ◌∷◌, ◌==◌, string_eq, if◌then◌else◌,
}
use shopble_stellar.Common.Int.{pos}
use shopble_stellar.Models.Status.{OrderStatus, RejectReason, status_beq}
use shopble_stellar.Models.Order.{OrderIntent}
use shopble_stellar.Models.Evidence.{PaymentEvidence, WatcherCursor}

-- An order that was given its verdict by the current transaction, with the verdict.
pub record Settled (D : Type 0) : Type 0 where
  pub order : OrderIntent D
  pub terminal : OrderStatus
  pub reason : RejectReason

pub record Database (D S : Type 0) : Type 0 where
  -- `Where("memo = ?", memo).Take(&row)`
  pub order_by_memo : String → S → Option (OrderIntent D)
  -- `Where("id = ?", id).Take(&row)`
  pub order_by_id : String → S → Option (OrderIntent D)
  -- `Where("stream = ?", stream).Take(&wc)`
  pub cursor_by_stream : String → S → Option WatcherCursor
  -- `Clauses(clause.OnConflict{DoNothing: true}).Create(&ev)`, with the rows affected
  pub insert_evidence : PaymentEvidence D → S → Option (ℕ × S)
  -- `Where("id = ? AND status = ?", id, from).Update("status", to)`, with the rows affected
  pub update_status : String → OrderStatus → OrderStatus → S → Option (ℕ × S)
  -- the same with `Updates(map[string]any{"status": to, "reject_reason": reason})`
  pub update_verdict : String → OrderStatus → OrderStatus → RejectReason → S → Option (ℕ × S)
  -- `Save(&models.WatcherCursor{Stream: stream, Cursor: cursor})`
  pub save_cursor : String → String → S → Option S
  -- `Where("id = ?", id).Update("on_chain_tx_hash", hash)`
  pub update_tx_hash : String → String → S → Option S
  -- `Create(&row)` for an order
  pub create_order : OrderIntent D → S → Option S
  -- `Where("status IN ? AND coalesce(on_chain_tx_hash, '') = ''", statuses)
  -- .Order("created_at ASC").Limit(limit).Find(&rows)`
  pub find_unsynced : List OrderStatus → ℕ → S → Option (List (OrderIntent D))
  -- `db.Transaction(fc)`: `none` in the result is an error
  pub transaction : (S → Option (Option (Settled D) × S)) → S → Option (Option (Settled D)) × S

-- What the tables hold under their keys: orders by id, evidence by operation id, cursors by
-- stream. The times that gorm writes by itself are left out.
pub record Tables (D : Type 0) : Type 0 where
  pub orders : String → Option (OrderIntent D)
  pub evidence : String → Option (PaymentEvidence D)
  pub cursors : String → Option String

-- The status is one of these.
abbrev pub status_in : OrderStatus → List OrderStatus → Bool
status_in s [] = false
status_in s (t ∷ rest) = status_beq s t || status_in s rest

module _ {D : Type 0} where
  abbrev pub untimed : OrderIntent D → OrderIntent D
  untimed o = record o { created_at = pos 0; updated_at = pos 0 }

  abbrev pub uncaptured : PaymentEvidence D → PaymentEvidence D
  uncaptured ev = record ev { captured_at = pos 0 }

  -- the rows that an insert with ON CONFLICT DO NOTHING adds
  abbrev pub rows_inserted : PaymentEvidence D → Tables D → ℕ
  rows_inserted ev t = elim (t.evidence ev.op_id) [ none ↦ 1 | some old ↦ 0 ]

  unfoldable pub insert_row : PaymentEvidence D → Tables D → Tables D
  insert_row ev t = record t {
    evidence = λ q.
        if ev.op_id == q
        then elim (t.evidence q) [ none ↦ some (uncaptured ev) | some old ↦ some old ]
        else t.evidence q;
  }

  -- the rows with this id and status, of which there is one at most
  abbrev pub matching : OrderStatus → Option (OrderIntent D) → ℕ
  matching from none = 0
  matching from (some o) = if status_beq o.status from then 1 else 0

  abbrev pub change :
      OrderStatus
      → (OrderIntent D → OrderIntent D)
      → Option (OrderIntent D)
      → Option (OrderIntent D)
  change from f none = none
  change from f (some o) = some (if status_beq o.status from then f o else o)

  unfoldable pub update_row :
      String → OrderStatus → (OrderIntent D → OrderIntent D) → Tables D → Tables D
  update_row id from f t = record t {
    orders = λ j. if id == j then change from f (t.orders j) else t.orders j;
  }

  unfoldable pub save_row : String → String → Tables D → Tables D
  save_row stream cursor t = record t {
    cursors = λ k. if stream == k then some cursor else t.cursors k;
  }

  abbrev pub set_hash : String → Option (OrderIntent D) → Option (OrderIntent D)
  set_hash hash none = none
  set_hash hash (some o) = some (record o { on_chain_tx_hash = hash })

  unfoldable pub hash_row : String → String → Tables D → Tables D
  hash_row id hash t = record t {
    orders = λ j. if id == j then set_hash hash (t.orders j) else t.orders j;
  }

  -- a new row; its key must be free
  unfoldable pub insert_order : OrderIntent D → Tables D → Tables D
  insert_order row t = record t {
    orders = λ j. if row.id == j then some (untimed row) else t.orders j;
  }

  -- Orders of one query have different ids: the id is the primary key.
  abbrev pub Distinct : List (OrderIntent D) → Type 0
  Distinct [] = Unit
  Distinct (o ∷ rest) = All (λ r. o.id ≢ r.id) rest × Distinct rest

  -- An order of the tables with one of the statuses that is not on the chain yet.
  abbrev pub Unsynced : List OrderStatus → Tables D → OrderIntent D → Type 0
  Unsynced statuses t o =
      (t.orders o.id ≡ some (untimed o))
      × (status_in o.status statuses ≡ true)
      × (o.on_chain_tx_hash ≡ "")

  pub record IsLawful {S : Type 0} (db : Database D S) (tables : S → Tables D) : Type 0 where
    pub orders_keyed :
        (s : S) (id : String) {o : OrderIntent D} → (tables s).orders id ≡ some o → o.id ≡ id
    pub evidence_keyed :
        (s : S) (q : String) {e : PaymentEvidence D} → (tables s).evidence q ≡ some e → e.op_id ≡ q
    pub order_by_memo_lem :
        (memo : String) (s : S) {o : OrderIntent D}
        → db.order_by_memo memo s ≡ some o
        → ((tables s).orders o.id ≡ some (untimed o)) × (o.memo ≡ memo)
    pub cursor_by_stream_lem :
        (stream : String) (s : S) {c : WatcherCursor}
        → db.cursor_by_stream stream s ≡ some c
        → (tables s).cursors stream ≡ some c.cursor
    -- For ids of evidence that are new, since a row is also skipped for one that is there.
    pub insert_evidence_lem :
        (ev : PaymentEvidence D) (s : S) {n : ℕ} {s' : S}
        → db.insert_evidence ev s ≡ some (n, s')
        → (n ≡ rows_inserted ev (tables s)) × (tables s' ≡ insert_row ev (tables s))
    pub update_status_lem :
        (id : String) (from to : OrderStatus) (s : S) {n : ℕ} {s' : S}
        → db.update_status id from to s ≡ some (n, s')
        → (n ≡ matching from ((tables s).orders id))
          × (tables s' ≡ update_row id from (λ o. record o { status = to }) (tables s))
    pub update_verdict_lem :
        (id : String) (from to : OrderStatus) (reason : RejectReason) (s : S) {n : ℕ} {s' : S}
        → db.update_verdict id from to reason s ≡ some (n, s')
        → (n ≡ matching from ((tables s).orders id))
          × (tables s'
              ≡ update_row id from
                  (λ o. record o { status = to; reject_reason = reason })
                  (tables s))
    pub save_cursor_lem :
        (stream cursor : String) (s : S) {s' : S}
        → db.save_cursor stream cursor s ≡ some s'
        → tables s' ≡ save_row stream cursor (tables s)
    pub update_tx_hash_lem :
        (id hash : String) (s : S) {s' : S}
        → db.update_tx_hash id hash s ≡ some s'
        → tables s' ≡ hash_row id hash (tables s)
    pub create_order_lem :
        (row : OrderIntent D) (s : S) {s' : S}
        → db.create_order row s ≡ some s'
        → ((tables s).orders row.id ≡ none) × (tables s' ≡ insert_order row (tables s))
    pub find_unsynced_lem :
        (statuses : List OrderStatus) (limit : ℕ) (s : S) {rows : List (OrderIntent D)}
        → db.find_unsynced statuses limit s ≡ some rows
        → Distinct rows × All (Unsynced statuses (tables s)) rows × (length rows ≤ limit)
    -- an error rolls back; otherwise the work is committed, or the commit fails and it is undone
    pub transaction_rollback :
        (fc : S → Option (Option (Settled D) × S)) (s : S)
        → fc s ≡ none
        → db.transaction fc s ≡ (none, s)
    pub transaction_commit :
        (fc : S → Option (Option (Settled D) × S)) (s : S) {r : Option (Settled D)} {s' : S}
        → fc s ≡ some (r, s')
        → (db.transaction fc s ≡ (some r, s')) ⊎ (db.transaction fc s ≡ (none, s))
