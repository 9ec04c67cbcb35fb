-- ===== src/Watcher/Process/Refines.antt =====
-- `process` implements its contract: what it commits is `record_payment` of the tables.
use shopble_stellar.Common.{
  ℕ, String, ◌≡◌, refl, ap, ◌⊎◌, inl, inr, Bool, true, false, not, ◌&&◌, Bool-cases, Option, none,
  some, Option-cases, arith, ltb, string_eq, >>=-eq-some, if◌then◌else◌,
}
use shopble_stellar.Decimal.{Decimal}
use shopble_stellar.Models.Status.{
  RejectReason, Verdict, awaiting_payment, payment_detected, duplicate, verdict_beq,
}
use shopble_stellar.Models.Order.{OrderIntent}
use shopble_stellar.Models.Evidence.{PaymentEvidence}
use shopble_stellar.Stellar.Horizon.{HorizonPayment}
use shopble_stellar.Watcher.Matcher.{terminal}
use shopble_stellar.Watcher.Database
use shopble_stellar.Watcher.Database.{
  Database, Settled, Tables, rows_inserted, insert_row, matching, update_row, save_row, change,
}
use shopble_stellar.Watcher.Process.{
  order_of, verdict_of, evidence_of, conclude, mark, settle, process_txn, process_db,
}
use shopble_stellar.Watcher.Process.Spec.{settled_order, settled_tables, record_payment}
use shopble_stellar.Watcher.Process.Updates.{SameTables, SameTables-trans, two_updates, no_update}

module _ {D S : Type 0} (dec : Decimal D) (db : Database D S) (tables : S → Tables D)
    (lawful : Database.IsLawful db tables) where
  -- A verdict is written only to an order that waits for payment.
  marked_tables : OrderIntent D → Verdict × RejectReason → Tables D → Tables D
  marked_tables order (v, r) t =
      if ltb 0 (matching awaiting_payment (t.orders order.id))
      then update_row order.id awaiting_payment
          (λ o. record o { status = terminal v; reject_reason = r }) t
      else t

  conclude_lem :
      (order : OrderIntent D) (v : Verdict) (r : RejectReason) (s : S)
      {settled : Option (Settled D)} {s' : S}
      → conclude dec db order (v, r) s ≡ some (settled, s')
      → (settled ≡ some (record { order = order; terminal = terminal v; reason = r }))
        × (tables s'
            ≡ update_row order.id payment_detected
                (λ o. record o { status = terminal v; reject_reason = r })
                (tables s))
  unfolding conclude
  conclude_lem order v r s h =
      let ((n, s2), updated, done) =
        >>=-eq-some (db.update_verdict order.id payment_detected (terminal v) r s) _ h in
      let law = lawful.update_verdict_lem order.id payment_detected (terminal v) r s updated in
      (ground arith, ground (arith, law))

  module _ (order : OrderIntent D) (v : Verdict) (r : RejectReason) (s s1 : S)
      (first : tables s1
        ≡ update_row order.id awaiting_payment
            (λ o. record o { status = payment_detected })
            (tables s))
      {settled : Option (Settled D)} {s' : S} where
    marked :
        ltb 0 (matching awaiting_payment ((tables s).orders order.id)) ≡ true
        → conclude dec db order (v, r) s1 ≡ some (settled, s')
        → (settled ≡ some (record { order = order; terminal = terminal v; reason = r }))
          × SameTables (tables s') (
              update_row order.id awaiting_payment
                (λ o. record o { status = terminal v; reject_reason = r })
                (tables s))
    marked waits done =
        let (same, after) = conclude_lem order v r s1 done in
        (
          same,
          record {
            orders =
                λ j. rw (after, first) (two_updates order.id (terminal v) r (tables s) waits j);
            evidence = λ q. unfold update_row in rw after (rw first);
            cursors = λ k. unfold update_row in rw after (rw first);
          },
        )

    unmarked :
        ltb 0 (matching awaiting_payment ((tables s).orders order.id)) ≡ false
        → ◌≡◌ {A = Option (Option (Settled D) × S)} (some (none, s1)) (some (settled, s'))
        → (settled ≡ none) × SameTables (tables s') (tables s)
    unmarked final done =
        let same : s1 ≡ s' = ground arith in
        (
          ground arith,
          record {
            orders =
                λ j. rw (← same, first) (no_update order.id (terminal v) r (tables s) final _ j);
            evidence = λ q. unfold update_row in rw (← same) (rw first);
            cursors = λ k. unfold update_row in rw (← same) (rw first);
          },
        )

  mark_lem :
      (order : OrderIntent D) (v : Verdict) (r : RejectReason) (s : S)
      {settled : Option (Settled D)} {s' : S}
      → mark dec db order (v, r) s ≡ some (settled, s')
      → (settled ≡ (
          if ltb 0 (matching awaiting_payment ((tables s).orders order.id))
          then some (record { order = order; terminal = terminal v; reason = r })
          else none))
        × SameTables (tables s') (marked_tables order (v, r) (tables s))
  unfolding mark marked_tables
  mark_lem order v r s h =
      let ((n, s1), detected, rest) =
        >>=-eq-some (db.update_status order.id awaiting_payment payment_detected s) _ h in
      let (rows, first) =
        lawful.update_status_lem order.id awaiting_payment payment_detected s detected in
      elim (Bool-cases (ltb 0 (matching awaiting_payment ((tables s).orders order.id)))) [
        | inl waits ↦ rw waits (marked order v r s s1 first waits (rw (rows, waits) at rest))
        | inr final ↦ rw final (unmarked order v r s s1 first final (rw (rows, final) at rest))
      ]

  module _ (v : Verdict) (r : RejectReason) (ev : PaymentEvidence D) (t : Tables D) (s : S)
      (inserted : tables s ≡ insert_row ev t) where
    unsettled : (s' : S) → s ≡ s' → SameTables (tables s') (insert_row ev t)
    unsettled s' same = record {
      orders = λ j. rw (← same) (rw inserted);
      evidence = λ q. rw (← same) (rw inserted);
      cursors = λ k. rw (← same) (rw inserted);
    }

    same_orders : (tables s).orders ≡ t.orders
    unfolding insert_row
    same_orders = ap (λ (u : Tables D). u.orders) inserted

    spec_tables :
        (order : OrderIntent D)
        → (ltb 0 (rows_inserted ev t) && not (verdict_beq v duplicate)) ≡ true
        → SameTables
            (marked_tables order (v, r) (tables s))
            (insert_row ev (settled_tables (some order) (v, r) ev t))
    unfolding marked_tables settled_tables insert_row update_row
    spec_tables order fresh =
        elim (Bool-cases (ltb 0 (matching awaiting_payment (t.orders order.id)))) [
          | inl waits ↦
              rw (inserted, fresh, waits)
                (record { orders = λ j. refl; evidence = λ q. refl; cursors = λ k. refl })
          | inr final ↦
              rw (inserted, fresh, final)
                (record { orders = λ j. refl; evidence = λ q. refl; cursors = λ k. refl })
        ]

    settle_some :
        (order : OrderIntent D) (fresh : Bool) {settled : Option (Settled D)} {s' : S}
        → (ltb 0 (rows_inserted ev t) && not (verdict_beq v duplicate)) ≡ fresh
        → (if fresh then mark dec db order (v, r) s else some (none, s)) ≡ some (settled, s')
        → (settled ≡ settled_order (some order) (v, r) ev t)
          × SameTables (tables s') (insert_row ev (settled_tables (some order) (v, r) ev t))
    settle_some order true e h =
        let (who, after) = mark_lem order v r s h in
        (rw (e, ← same_orders) who, SameTables-trans after (spec_tables order e))
    settle_some order false {s' = s'} e h =
        (rw e (ground arith), unfold settled_tables in rw e (unsettled s' (ground arith)))

  settle_lem :
      (order : Option (OrderIntent D)) (vr : Verdict × RejectReason) (ev : PaymentEvidence D)
      (t : Tables D) (rows : ℕ) (s : S) {settled : Option (Settled D)} {s' : S}
      → tables s ≡ insert_row ev t
      → rows ≡ rows_inserted ev t
      → settle dec db order vr rows s ≡ some (settled, s')
      → (settled ≡ settled_order order vr ev t)
        × SameTables (tables s') (insert_row ev (settled_tables order vr ev t))
  unfolding settle
  settle_lem none (v, r) ev t rows s {s' = s'} inserted count h =
      (ground arith, unfold settled_tables in unsettled v r ev t s inserted s' (ground arith))
  settle_lem (some order) (v, r) ev t rows s inserted count h =
      settle_some v r ev t s inserted order
        (ltb 0 (rows_inserted ev t) && not (verdict_beq v duplicate)) refl (rw count at h)

  saved :
      (stream cursor : String) (s s' : S) {a b c : Option (Settled D)} {s'' : S} {u : Tables D}
      → db.save_cursor stream cursor s ≡ some s'
      → a ≡ c
      → SameTables (tables s) u
      → ◌≡◌ {A = Option (Option (Settled D) × S)} (some (a, s')) (some (b, s''))
      → (b ≡ c) × SameTables (tables s'') (save_row stream cursor u)
  unfolding save_row
  saved stream cursor s s' {s'' = s''} save who after done =
      let same : s' ≡ s'' = ground arith in
      let law = lawful.save_cursor_lem stream cursor s save in
      (
        ground arith,
        record {
          orders = λ j. rw (← same, law) (after.orders j);
          evidence = λ q. rw (← same, law) (after.evidence q);
          cursors = λ k. rw (← same, law) (rw after.cursors refl);
        },
      )

  module _ (stream evidence_id : String) (p : HorizonPayment) (s : S) where
    process_txn_lem :
        {settled : Option (Settled D)} {s' : S}
        → process_txn dec db stream evidence_id p s ≡ some (settled, s')
        → (settled
            ≡ settled_order
                (order_of dec db p s)
                (verdict_of dec db p s)
                (evidence_of dec db evidence_id p s)
                (tables s))
          × SameTables (tables s') (
              record_payment stream
                (order_of dec db p s)
                (verdict_of dec db p s)
                (evidence_of dec db evidence_id p s)
                (tables s))
    unfolding process_txn record_payment
    process_txn_lem h =
        let ((rows, s1), insert, rest) =
          >>=-eq-some (db.insert_evidence (evidence_of dec db evidence_id p s) s) _ h in
        let ((settled', s2), settling, rest') =
          >>=-eq-some (settle dec db (order_of dec db p s) (verdict_of dec db p s) rows s1) _
            rest in
        let (s3, save, done) = >>=-eq-some (db.save_cursor stream p.paging_token s2) _ rest' in
        let (count, inserted) =
          lawful.insert_evidence_lem (evidence_of dec db evidence_id p s) s insert in
        let (who, after) =
          settle_lem (order_of dec db p s) (verdict_of dec db p s)
            (evidence_of dec db evidence_id p s) (tables s) rows s1 inserted count settling in
        saved stream p.paging_token s2 s3 save who after done

    -- Either `process` returns an error and leaves the database as it was, or it returns no error,
    -- and the tables are what `record_payment` makes of them, the verdict that is passed on to the
    -- chain being the one that was written.
    pub process_db-refines :
        let order = order_of dec db p s in
        let (result, s') = process_db dec db stream evidence_id p s in
        ((result ≡ none) × (s' ≡ s))
        ⊎ ((result
              ≡ some (
                  settled_order order
                    (verdict_of dec db p s)
                    (evidence_of dec db evidence_id p s)
                    (tables s)))
            × SameTables (tables s') (
                record_payment stream order
                  (verdict_of dec db p s)
                  (evidence_of dec db evidence_id p s)
                  (tables s)))
    unfolding process_db
    process_db-refines = elim (Option-cases (process_txn dec db stream evidence_id p s)) [
      | inl failed ↦ inl (
          rw (lawful.transaction_rollback (process_txn dec db stream evidence_id p) s failed)
            (refl, refl))
      | inr ((settled, s'), done) ↦
          let (who, after) = process_txn_lem done in
          elim (lawful.transaction_commit (process_txn dec db stream evidence_id p) s done) [
            | inl committed ↦ inr (rw committed (ap some who, after))
            | inr undone ↦ inl (rw undone (refl, refl))
          ]
    ]
