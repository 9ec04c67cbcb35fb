-- ===== src/Watcher/Ledger/Rows.antt =====
-- The transaction of one payment keeps the ledger, order by order.
use shopble_stellar.Common.{
  String, ◌≡◌, refl, sym, ap, ◌∙◌, ◌≢◌, inl, inr, none, some, Option-cases, string_eq, eq_iff,
  arith, subst,
}
use shopble_stellar.Decimal.{Decimal}
use shopble_stellar.Models.Status.{OrderStatus, RejectReason, Verdict, awaiting_payment, duplicate}
use shopble_stellar.Models.Status.Laws.{verdict_beq_iff}
use shopble_stellar.Models.Order.{OrderIntent}
use shopble_stellar.Models.Evidence.{PaymentEvidence}
use shopble_stellar.Watcher.Database.{Tables, untimed, uncaptured}
use shopble_stellar.Watcher.Matcher.{Observed, match, terminal}
use shopble_stellar.Watcher.Process.Spec.{record_payment}
use shopble_stellar.Watcher.Process.Spec.Rows.{orders-record_payment, record_payment_recorded}
use shopble_stellar.Watcher.Ledger.{recorded, Decides, Standing}
use shopble_stellar.Watcher.Ledger.Payments.{
  Added, record_payment-Added, open_verdict, final_verdict, terminal-awaiting, Standing-replay,
  Standing-duplicate, Standing-first,
}

-- The matcher reads neither the reason nor the times of an order.
reopened :
    {D : Type 0} (dec : Decimal D) (x : Observed D) (o : OrderIntent D) (why : RejectReason)
    → o.status ≡ awaiting_payment
    → match dec x (some (record (untimed o) { status = awaiting_payment; reject_reason = why }))
      ≡ match dec x (some o)
unfolding match
reopened dec x o why waiting =
    ap (λ (s : OrderStatus). match dec x (some (record o { status = s }))) (sym waiting)

module _ {D : Type 0} (dec : Decimal D) (stream : String) (v : Verdict) (r : RejectReason)
    (ev : PaymentEvidence D) (t : Tables D) where
  -- What the matcher was given and what it said, for the order that was found.
  pub record Judged (row : OrderIntent D) : Type 0 where
    pub stored : t.orders row.id ≡ some (untimed row)
    pub names : ev.order_id ≡ row.id
    pub memo : ev.memo ≡ row.memo
    pub verdict : ev.verdict ≡ v
    pub reason : ev.reject_reason ≡ r
    pub judged : match dec (recorded ev) (some row) ≡ (v, r)

  module _ (row : OrderIntent D) (j : Judged row) where
    abbrev after : Tables D
    after = record_payment stream (some row) (v, r) ev t

    added : Added ev t after
    added = record_payment-Added stream v r ev t (some row)

    -- The order waited, and the payment is new: it is decided.
    first_payment :
        row.status ≡ awaiting_payment
        → t.evidence ev.op_id ≡ none
        → ((q : String) (e : PaymentEvidence D) → t.evidence q ≡ some e → e.order_id ≢ row.id)
        → (o : OrderIntent D) × (after.orders row.id ≡ some o)
          × (o.id ≡ row.id)
          × Standing dec after o
    first_payment waiting new none_yet =
        let fresh : v ≢ duplicate =
          subst (λ (x : Verdict × RejectReason). x.0 ≢ duplicate) j.judged
            (open_verdict dec ev row waiting) in
        let (e, there, is_new) = record_payment_recorded stream v r ev t (some row) in
        let place : after.evidence ev.op_id ≡ some (uncaptured ev) = there ∙ ap some (is_new new) in
        let decides : Decides dec (uncaptured ev) (record (untimed row) {
          status = terminal ev.verdict;
          reject_reason = ev.reject_reason;
        }) =
          record {
            order_id = j.names;
            memo = j.memo;
            fresh = rw j.verdict fresh;
            judged =
                reopened dec (recorded ev) row ev.reject_reason waiting
                ∙ j.judged
                ∙ ap (λ (x : Verdict). (x, r)) (sym j.verdict)
                ∙ ap (λ (x : RejectReason). (ev.verdict, x)) (sym j.reason);
            status = refl;
            reason = refl;
          } in
        (
          record (untimed row) { status = terminal ev.verdict; reject_reason = ev.reject_reason },
          rw (orders-record_payment) (
              ground (
                arith,
                j.stored,
                j.verdict,
                j.reason,
                eq_iff row.id row.id,
                verdict_beq_iff v duplicate,
              )),
          refl,
          Standing-first dec added (untimed row) waiting none_yet place decides,
        )

    -- The order was decided: one more payment is a duplicate.
    later_payment :
        (v' : Verdict)
        → row.status ≡ terminal v'
        → Standing dec t (untimed row)
        → (o : OrderIntent D) × (after.orders row.id ≡ some o)
          × (o.id ≡ row.id)
          × Standing dec after o
    later_payment v' closed standing =
        let again : v ≡ duplicate =
          ap (λ (x : Verdict × RejectReason). x.0) (sym j.judged)
          ∙ final_verdict dec ev row v' closed in
        (
          untimed row,
          rw (orders-record_payment) (ground (arith, j.stored)),
          refl,
          Standing-duplicate dec added (untimed row) (j.verdict ∙ again)
              (λ waits. terminal-awaiting v' (sym closed ∙ waits)) standing,
        )

    new_payment :
        t.evidence ev.op_id ≡ none
        → Standing dec t (untimed row)
        → (o : OrderIntent D) × (after.orders row.id ≡ some o)
          × (o.id ≡ row.id)
          × Standing dec after o
    new_payment new (Standing.waits waiting none_yet) = first_payment waiting new none_yet
    new_payment new (Standing.decided q e stored decides rest) =
        later_payment e.verdict decides.status (Standing.decided q e stored decides rest)

    -- The order that the payment names.
    pub Judged-Standing :
        Standing dec t (untimed row)
        → (o : OrderIntent D) × (after.orders row.id ≡ some o)
          × (o.id ≡ row.id)
          × Standing dec after o
    Judged-Standing standing = elim (Option-cases (t.evidence ev.op_id)) [
      | inr (old, replay) ↦ (
        untimed row,
        rw (orders-record_payment) (ground (arith, j.stored)),
        refl,
        Standing-replay dec added (untimed row) replay standing,
      )
      | inl new ↦ new_payment new standing
    ]
