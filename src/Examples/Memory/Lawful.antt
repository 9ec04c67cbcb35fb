-- ===== src/Examples/Memory/Lawful.antt =====
-- The database in memory behaves as documented.
use mathlib.Core.Path.{subst}
use mathlib.Core.Option.{some-injective}
use shopble_stellar.Common.{
  List, All, length, ◌≤◌, ℕ, String, ◌≡◌, refl, sym, ap, ◌∙◌, inl, inr, Bool, Bool-cases, true,
  false, Option, none, some, ◌∷◌, arith, ◌==◌, string_eq, eq_iff, if◌then◌else◌,
}
use shopble_stellar.Models.Status.{OrderStatus, status_beq}
use shopble_stellar.Models.Order.{OrderIntent}
use shopble_stellar.Models.Evidence.{PaymentEvidence}
use shopble_stellar.Watcher.Database
use shopble_stellar.Watcher.Database.{
  Database, Settled, Tables, untimed, uncaptured, rows_inserted, matching, change, insert_row,
  update_row, save_row, set_hash, hash_row, insert_order, Distinct, Unsynced,
}
use shopble_stellar.Examples.Memory.{
  Memory, with_memo, known_order, known_evidence, memory_tables, new_row, with_orders, memory_db,
  added_order,
}
use shopble_stellar.Examples.Memory.Query.{found_lem}

module _ {D : Type 0} where
  matching-known_order :
      (from : OrderStatus) (id : String) (o : Option (OrderIntent D))
      → matching from o ≡ matching from (known_order id o)
  matching-known_order from id none = refl
  matching-known_order from id (some o) = refl

  module _ (from : OrderStatus) (f : OrderIntent D → OrderIntent D)
      (same : (j : String) (o : OrderIntent D)
        → record (untimed (f o)) { id = j } ≡ f (record (untimed o) { id = j })) where
    known-change :
        (j : String) (b : Bool) (o : Option (OrderIntent D))
        → known_order j (if b then change from f o else o)
          ≡ (if b then change from f (known_order j o) else known_order j o)
    known-change j true none = refl
    known-change j true (some o) = elim (Bool-cases (status_beq o.status from)) [
      | inl yes_from ↦ rw yes_from (ap (λ (x : OrderIntent D). some x) (same j o))
      | inr not_from ↦ rw not_from
    ]
    known-change j false o = refl

    updated_tables :
        (id : String) (m : Memory D)
        → memory_tables (
            with_orders
              (λ j. if id == j then change from f (m.rows.orders j) else m.rows.orders j)
              m)
          ≡ update_row id from f (memory_tables m)
    unfolding update_row
    updated_tables id m = λ i. record {
      orders = λ j. known-change j (id == j) (m.rows.orders j) i;
      evidence = λ q. known_evidence q (m.rows.evidence q);
      cursors = m.rows.cursors;
    }

  known-insert :
      (ev : PaymentEvidence D) (q : String) (old : Option (PaymentEvidence D))
      → known_evidence q (if ev.op_id == q then new_row ev old else old) ≡ (
          if ev.op_id == q
          then elim (known_evidence q old) [ none ↦ some (uncaptured ev) | some e ↦ some e ]
          else known_evidence q old)
  known-insert ev q none = elim (Bool-cases (ev.op_id == q)) [
    | inl here ↦
        let same : ev.op_id ≡ q = (eq_iff ev.op_id q).0 here in
        rw here (ap (λ (x : String). some (record (uncaptured ev) { op_id = x })) (sym same))
    | inr other ↦ rw other
  ]
  known-insert ev q (some e) = elim (Bool-cases (ev.op_id == q)) [
    | inl here ↦ rw here
    | inr other ↦ rw other
  ]

  inserted_tables :
      (ev : PaymentEvidence D) (m : Memory D)
      → memory_tables (record m {
        rows = record (m.rows) {
          evidence =
              λ q. if ev.op_id == q then new_row ev (m.rows.evidence q) else m.rows.evidence q;
        };
      })
        ≡ insert_row ev (memory_tables m)
  unfolding insert_row
  inserted_tables ev m = λ i. record {
    orders = λ id. known_order id (m.rows.orders id);
    evidence = λ q. known-insert ev q (m.rows.evidence q) i;
    cursors = m.rows.cursors;
  }

  known-set_hash :
      (hash j : String) (b : Bool) (o : Option (OrderIntent D))
      → known_order j (if b then set_hash hash o else o)
        ≡ (if b then set_hash hash (known_order j o) else known_order j o)
  known-set_hash hash j true none = refl
  known-set_hash hash j true (some o) = refl
  known-set_hash hash j false o = refl

  hashed_tables :
      (id hash : String) (m : Memory D)
      → memory_tables (
          with_orders (λ j. if id == j then set_hash hash (m.rows.orders j) else m.rows.orders j) m)
        ≡ hash_row id hash (memory_tables m)
  unfolding hash_row
  hashed_tables id hash m = λ i. record {
    orders = λ j. known-set_hash hash j (id == j) (m.rows.orders j) i;
    evidence = λ q. known_evidence q (m.rows.evidence q);
    cursors = m.rows.cursors;
  }

  rows-known :
      (ev : PaymentEvidence D) (m : Memory D)
      → rows_inserted ev (m.rows) ≡ rows_inserted ev (memory_tables m)
  rows-known ev m = ground arith

  with_memo-known :
      (memo : String) (found : Option (OrderIntent D)) {o : OrderIntent D}
      → with_memo memo found ≡ some o
      → (o.id ≡ memo) × (known_order memo found ≡ some (untimed o)) × (o.memo ≡ memo)
  with_memo-known memo none h = cc
  with_memo-known memo (some y) h = ground (arith, eq_iff y.memo memo)

  -- What an answer `some x` is known for holds of what it is equated with.
  answered :
      (P : ℕ × Memory D → Type 0) (x : ℕ × Memory D) {n : ℕ} {m : Memory D}
      → ◌≡◌ {A = Option (ℕ × Memory D)} (some x) (some (n, m))
      → P x
      → P (n, m)
  answered P x h px = subst P (some-injective _ _ h) px

  known-added :
      (o : OrderIntent D) (j : String) (old : Option (OrderIntent D))
      → known_order j (if o.id == j then some o else old)
        ≡ (if o.id == j then some (untimed o) else known_order j old)
  known-added o j old = elim (Bool-cases (o.id == j)) [
    | inl here ↦
        let same : o.id ≡ j = (eq_iff o.id j).0 here in
        rw here (ap (λ (x : String). some (record (untimed o) { id = x })) (sym same))
    | inr other ↦ rw other
  ]

  grown_tables :
      (o : OrderIntent D) (m : Memory D)
      → memory_tables (record {
        rows = record (m.rows) { orders = λ j. if o.id == j then some o else m.rows.orders j };
        ids = o.id ∷ m.ids;
      })
        ≡ insert_order o (memory_tables m)
  unfolding insert_order
  grown_tables o m = λ i. record {
    orders = λ j. known-added o j (m.rows.orders j) i;
    evidence = λ q. known_evidence q (m.rows.evidence q);
    cursors = m.rows.cursors;
  }

  added_lem :
      (o : OrderIntent D) (m : Memory D) (old : Option (OrderIntent D)) {m' : Memory D}
      → added_order o m old ≡ some m'
      → m.rows.orders o.id ≡ old
      → ((memory_tables m).orders o.id ≡ none)
        × (memory_tables m' ≡ insert_order o (memory_tables m))
  added_lem o m (some old) h free = cc
  added_lem o m none h free = (
    rw free,
    subst (λ (x : Memory D). memory_tables x ≡ insert_order o (memory_tables m))
        (some-injective _ _ h) (grown_tables o m),
  )

  pub memory_db-IsLawful : Database.IsLawful (memory_db {D = D}) memory_tables
  memory_db-IsLawful = record {
    orders_keyed = λ m id h. ground arith;
    evidence_keyed = λ m q h. ground arith;
    order_by_memo_lem = λ memo m h.
        let (key, row, same) = with_memo-known memo (m.rows.orders memo) h in
        (ap (λ (x : String). known_order x (m.rows.orders x)) key ∙ row, same);
    cursor_by_stream_lem = λ stream m h. ground arith;
    insert_evidence_lem = λ ev m h.
        answered
          (λ x.
            (x.0 ≡ rows_inserted ev (memory_tables m))
            × (memory_tables x.1 ≡ insert_row ev (memory_tables m)))
          _ h (rows-known ev m, inserted_tables ev m);
    update_status_lem = λ id from to m h.
        answered
          (λ x.
            (x.0 ≡ matching from ((memory_tables m).orders id))
            × (memory_tables x.1
                ≡ update_row id from (λ o. record o { status = to }) (memory_tables m)))
          _ h
          (
            matching-known_order from id (m.rows.orders id),
            updated_tables from _ (λ j o. refl) id m,
          );
    update_verdict_lem = λ id from to reason m h.
        answered
          (λ x.
            (x.0 ≡ matching from ((memory_tables m).orders id))
            × (memory_tables x.1
                ≡ update_row id from (λ o. record o { status = to; reject_reason = reason })
                    (memory_tables m)))
          _ h
          (
            matching-known_order from id (m.rows.orders id),
            updated_tables from _ (λ j o. refl) id m,
          );
    save_cursor_lem = λ stream cursor m h.
        subst (λ (x : Memory D). memory_tables x ≡ save_row stream cursor (memory_tables m))
          (some-injective _ _ h) (unfold save_row in refl);
    update_tx_hash_lem = λ id hash m h.
        subst (λ (x : Memory D). memory_tables x ≡ hash_row id hash (memory_tables m))
          (some-injective _ _ h) (hashed_tables id hash m);
    create_order_lem = λ row m h. added_lem row m (m.rows.orders row.id) h refl;
    find_unsynced_lem = λ statuses limit m h.
        subst
          (λ (rows : List (OrderIntent D)).
            Distinct rows × All (Unsynced statuses (memory_tables m)) rows × (length rows ≤ limit))
          (some-injective _ _ h) (found_lem statuses limit m);
    transaction_rollback = λ fc m h. rw h;
    transaction_commit = λ fc m h. inl (rw h);
  }
