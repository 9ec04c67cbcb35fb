-- ===== src/Watcher/Process/Laws.antt =====
-- What `process` guarantees for one payment, whether its transaction commits or not.
use shopble_stellar.Common.{
  String, ◌≡◌, refl, ◌∙◌, ap, ◌≢◌, inl, inr, Bool-cases, true, ◌&&◌, Option, none, some, ◌==◌,
  string_eq, eq_iff, arith,
}
use shopble_stellar.Decimal.{Decimal}
use shopble_stellar.Models.Status.{
  OrderStatus, RejectReason, Verdict, awaiting_payment, duplicate, matched,
}
use shopble_stellar.Models.Status.Laws.{status_beq_iff, verdict_beq_iff}
use shopble_stellar.Models.Order.{OrderIntent}
use shopble_stellar.Models.Evidence.{PaymentEvidence}
use shopble_stellar.Stellar.Horizon.{HorizonPayment}
use shopble_stellar.Watcher.Matcher.{match, terminal}
use shopble_stellar.Watcher.Matcher.Laws.{Settles, match-Settles}
use shopble_stellar.Watcher.Database
use shopble_stellar.Watcher.Database.{
  Database, Tables, Settled, rows_inserted, matching, change, untimed, uncaptured,
}
use shopble_stellar.Watcher.Process.{
  observed, amount_of, order_of, verdict_of, evidence_of, process_db,
}
use shopble_stellar.Watcher.Process.Spec.{gives_verdict, record_payment}
use shopble_stellar.Watcher.Process.Spec.Rows.{
  orders-record_payment-none, orders-record_payment, record_payment_replay, record_payment_recorded,
  record_payment_keeps, record_payment_cursors,
}
use shopble_stellar.Watcher.Process.Refines.{process_db-refines}

-- An order's row is as it was, or it waited for payment and now has the verdict of a payment with
-- its memo: `validated` with no reason, or `rejected` with the matcher's reason.
pub data OrderStep {D : Type 0} (dec : Decimal D) (p : HorizonPayment) (o : OrderIntent D)
    (o' : Option (OrderIntent D)) : Type 0 where
  kept : o' ≡ some o → OrderStep dec p o o'
  settled :
      (v : Verdict) (r : RejectReason)
      → o.status ≡ awaiting_payment
      → o.memo ≡ p.memo
      → v ≢ duplicate
      → match dec (observed p (amount_of dec p)) (some o) ≡ (v, r)
      → o' ≡ some (record o { status = terminal v; reject_reason = r })
      → OrderStep dec p o o'

module _ {D S : Type 0} (dec : Decimal D) (db : Database D S) (tables : S → Tables D)
    (lawful : Database.IsLawful db tables) where
  pub order_of_lem :
      (p : HorizonPayment) (s : S) {o : OrderIntent D}
      → order_of dec db p s ≡ some o
      → ((tables s).orders o.id ≡ some (untimed o)) × (o.memo ≡ p.memo)
  unfolding order_of
  order_of_lem p s {o} h =
      let found : db.order_by_memo p.memo s ≡ some o = ground arith in
      lawful.order_by_memo_lem p.memo s found

  -- The matcher does not read the times.
  match-untimed :
      (p : HorizonPayment) (o : OrderIntent D)
      → match dec (observed p (amount_of dec p)) (some (untimed o))
        ≡ match dec (observed p (amount_of dec p)) (some o)
  unfolding match
  match-untimed p o = refl

  module _ (stream : String) (p : HorizonPayment) (ev : PaymentEvidence D) (t : Tables D)
      (id : String) (o row : OrderIntent D) (v : Verdict) (r : RejectReason)
      (stored : t.orders row.id ≡ some (untimed row)) (here : t.orders id ≡ some o) where
    given_facts :
        (gives_verdict row v ev t && (row.id == id)) ≡ true
        → (o ≡ untimed row) × (o.status ≡ awaiting_payment) × (v ≢ duplicate)
    given_facts given =
        let same_id : row.id ≡ id = ground (arith, eq_iff row.id id) in
        let same : o ≡ untimed row = ground arith in
        (same, ground (arith, status_beq_iff o.status awaiting_payment), ground arith)

    step_of_row :
        row.memo ≡ p.memo
        → match dec (observed p (amount_of dec p)) (some row) ≡ (v, r)
        → OrderStep dec p o ((record_payment stream (some row) (v, r) ev t).orders id)
    step_of_row memo judged = elim (Bool-cases (gives_verdict row v ev t && (row.id == id))) [
      | inl given ↦
          let (same, waits, fresh) = given_facts given in
          settled v r waits (ap (λ (x : OrderIntent D). x.memo) same ∙ memo) fresh
            (rw (same, match-untimed) judged)
            (rw (orders-record_payment, given, here)
              (ground (arith, status_beq_iff o.status awaiting_payment)))
      | inr kept_row ↦ kept (rw (orders-record_payment, kept_row) here)
    ]

  validated_step :
      {p : HorizonPayment} {o o' : OrderIntent D} {after : Option (OrderIntent D)}
      → OrderStep dec p o after
      → o.status ≢ OrderStatus.validated
      → after ≡ some o'
      → o'.status ≡ OrderStatus.validated
      → Settles dec (observed p (amount_of dec p)) o
  unfolding terminal
  validated_step (kept same) unsettled now validated = absurd (unsettled (ground arith))
  validated_step {p} {o} (settled v r waits memo fresh judged moved) unsettled now validated =
      let accepted : v ≡ matched = ground (arith, verdict_beq_iff v matched) in
      match-Settles dec (observed p (amount_of dec p)) o
        (ap (λ (x : Verdict × RejectReason). x.0) judged ∙ accepted)

  module _ (stream evidence_id : String) (p : HorizonPayment) (s : S) where
    abbrev result : Option (Option (Settled D))
    result = (process_db dec db stream evidence_id p s).0

    abbrev after : Tables D
    after = tables (process_db dec db stream evidence_id p s).1

    step_of :
        (id : String) {o : OrderIntent D} (ev : PaymentEvidence D) (order : Option (OrderIntent D))
        (vr : Verdict × RejectReason)
        → (tables s).orders id ≡ some o
        → order_of dec db p s ≡ order
        → match dec (observed p (amount_of dec p)) order ≡ vr
        → OrderStep dec p o ((record_payment stream order vr ev (tables s)).orders id)
    step_of id ev none (v, r) here found judged = kept (rw (orders-record_payment-none) here)
    step_of id {o} ev (some row) (v, r) here found judged =
        let (stored, memo) = order_of_lem p s found in
        step_of_row stream p ev (tables s) id o row v r stored here memo judged

    -- Whatever the payment, and whether the transaction commits or not, an order's row either
    -- stays as it was, or the order waited for payment, has the payment's memo, and now has the
    -- status and the reason that the matcher gives this payment for this order.
    pub process_db-OrderStep :
        (id : String) {o : OrderIntent D}
        → (tables s).orders id ≡ some o
        → OrderStep dec p o (after.orders id)
    process_db-OrderStep id here =
        elim (process_db-refines dec db tables lawful stream evidence_id p s) [
          | inl (failed, same) ↦ kept (ap (λ (x : S). (tables x).orders id) same ∙ here)
          | inr (done, rows) ↦ rw (rows.orders id) (
              step_of id (evidence_of dec db evidence_id p s) (order_of dec db p s)
                (verdict_of dec db p s) here refl refl)
        ]

    abbrev vr : Verdict × RejectReason
    vr = verdict_of dec db p s

    abbrev ev : PaymentEvidence D
    ev = evidence_of dec db evidence_id p s

    -- An operation whose evidence is stored already changes no order and no evidence, and passes
    -- nothing on to the chain.
    pub process_db_replay :
        {old : PaymentEvidence D}
        → (tables s).evidence p.id ≡ some old
        → ((j : String) → after.orders j ≡ (tables s).orders j)
          × ((q : String) → after.evidence q ≡ (tables s).evidence q)
          × ((x : Settled D) → result ≢ some (some x))
    process_db_replay {old} stored =
        elim (process_db-refines dec db tables lawful stream evidence_id p s) [
          | inl (failed, same) ↦ (
            λ j. ap (λ (x : S). (tables x).orders j) same,
            λ q. ap (λ (x : S). (tables x).evidence q) same,
            λ x e. cc (failed, e),
          )
          | inr (done, rows) ↦
              let (orders, evidence, quiet) =
                record_payment_replay stream vr.0 vr.1 ev (tables s) (order_of dec db p s) stored in
              (
                λ j. rows.orders j ∙ orders j,
                λ q. rows.evidence q ∙ evidence q,
                λ x e. cc (done, e, quiet),
              )
        ]

    -- When `process` returns no error, the stream's cursor is the payment's paging token and no
    -- other stream's cursor has moved; the operation has evidence, and what was stored before is
    -- stored still, unchanged.
    pub process_db_recorded :
        {settled : Option (Settled D)}
        → result ≡ some settled
        → (after.cursors stream ≡ some p.paging_token)
          × ((k : String) → stream ≢ k → after.cursors k ≡ (tables s).cursors k)
          × ((e : PaymentEvidence D) × (after.evidence p.id ≡ some e))
          × ((q : String) (e : PaymentEvidence D)
              → (tables s).evidence q ≡ some e
              → after.evidence q ≡ some e)
    process_db_recorded ok = elim (process_db-refines dec db tables lawful stream evidence_id p s) [
      | inl (failed, same) ↦ absurd (cc (failed, ok))
      | inr (done, rows) ↦
          let order = order_of dec db p s in
          let (here, others) = record_payment_cursors stream vr.0 vr.1 ev (tables s) order in
          let (e, stored, new) = record_payment_recorded stream vr.0 vr.1 ev (tables s) order in
          (
            rows.cursors stream ∙ here,
            λ k other. rows.cursors k ∙ others k other,
            (e, rows.evidence p.id ∙ stored),
            λ q old before.
                rows.evidence q
                ∙ record_payment_keeps stream vr.0 vr.1 ev (tables s) order q old before,
          )
    ]

    -- An order that becomes `validated` does so only by a payment that settles it: its destination,
    -- asset code, asset issuer and buyer wallet are the order's and its amount is not less than the
    -- expected one.
    pub process_db-Settles :
        (id : String) {o o' : OrderIntent D}
        → (tables s).orders id ≡ some o
        → o.status ≢ OrderStatus.validated
        → after.orders id ≡ some o'
        → o'.status ≡ OrderStatus.validated
        → Settles dec (observed p (amount_of dec p)) o
    process_db-Settles id here unsettled now validated =
        validated_step (process_db-OrderStep id here) unsettled now validated
