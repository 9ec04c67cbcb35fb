-- ===== src/Watcher/Ledger/Payments.antt =====
-- One payment keeps the ledger.

use shopble_stellar.Common.{
  String, ◌≡◌, sym, ap, ◌∙◌, ◌≢◌, ◌⊎◌, inl, inr, Bool-cases, Option, none, some, Option-cases, ◌==◌,
  string_eq, eq_iff, arith,
}
use shopble_stellar.Decimal.{Decimal}
use shopble_stellar.Models.Status.{RejectReason, Verdict, awaiting_payment, duplicate, order_final}
use shopble_stellar.Models.Order.{OrderIntent}
use shopble_stellar.Models.Evidence.{PaymentEvidence}
use shopble_stellar.Watcher.Database.{Tables, uncaptured}
use shopble_stellar.Watcher.Matcher.{match, terminal}
use shopble_stellar.Watcher.Process.Spec.{record_payment}
use shopble_stellar.Watcher.Process.Spec.Rows.{evidence-record_payment}
use shopble_stellar.Watcher.Ledger.{recorded, Decides, Standing}

-- The rows of evidence after a payment: those that were there, and the new one if its operation had
-- none.
pub record Added {D : Type 0} (ev : PaymentEvidence D) (t u : Tables D) : Type 0 where
  pub kept : (q : String) (e : PaymentEvidence D) → t.evidence q ≡ some e → u.evidence q ≡ some e
  pub rows :
      (q : String) (e : PaymentEvidence D)
      → u.evidence q ≡ some e
      → (t.evidence q ≡ some e)
        ⊎ ((t.evidence ev.op_id ≡ none) × (q ≡ ev.op_id) × (e ≡ uncaptured ev))

module _ {D : Type 0} (stream : String) (v : Verdict) (r : RejectReason) (ev : PaymentEvidence D)
    (t : Tables D) (order : Option (OrderIntent D)) where
  pub record_payment-Added : Added ev t (record_payment stream order (v, r) ev t)
  record_payment-Added = record {
    kept = λ q e stored. rw (evidence-record_payment) (ground arith);
    rows = λ q e stored.
        let after = sym (evidence-record_payment stream v r ev t order q) ∙ stored in
        elim (Bool-cases (ev.op_id == q)) [
          | inr other ↦ inl (ground arith)
          | inl here ↦
              let same = (eq_iff ev.op_id q).0 here in
              elim (Option-cases (t.evidence q)) [
                | inl new ↦ inr (ap t.evidence same ∙ new, sym same, ground arith)
                | inr (old, there) ↦ inl (ground arith)
              ]
        ];
  }

pub open_verdict :
    {D : Type 0} (dec : Decimal D) (ev : PaymentEvidence D) (o : OrderIntent D)
    → o.status ≡ awaiting_payment
    → (match dec (recorded ev) (some o)).0 ≢ duplicate
unfolding match order_final
open_verdict dec ev o waits = ground arith

pub final_verdict :
    {D : Type 0} (dec : Decimal D) (ev : PaymentEvidence D) (o : OrderIntent D) (v : Verdict)
    → o.status ≡ terminal v
    → (match dec (recorded ev) (some o)).0 ≡ duplicate
unfolding match order_final terminal
final_verdict dec ev o v closed = ground arith

pub terminal-awaiting : (v : Verdict) → terminal v ≢ awaiting_payment
unfolding terminal
terminal-awaiting v = ground arith

module _ {D : Type 0} (dec : Decimal D) {ev : PaymentEvidence D} {t u : Tables D}
    (added : Added ev t u) where
  -- Evidence that names another order changes nothing for this one.
  pub Standing-Added :
      (o : OrderIntent D) → ev.order_id ≢ o.id → Standing dec t o → Standing dec u o
  Standing-Added o other (Standing.waits waiting none_yet) = Standing.waits waiting λ q e stored.
      elim (added.rows q e stored) [
        | inl old ↦ none_yet q e old
        | inr (new, at, same) ↦ rw same other
      ]
  Standing-Added o other (Standing.decided q e stored decides rest) =
      Standing.decided q e (added.kept q e stored) decides λ q' e' stored' names away.
        elim (added.rows q' e' stored') [
          | inl old ↦ rest q' e' old names away
          | inr (new, at, same) ↦
              absurd (other (sym (ap (λ (x : PaymentEvidence D). x.order_id) same) ∙ names))
        ]

  -- A replay adds nothing.
  pub Standing-replay :
      (o : OrderIntent D) {old : PaymentEvidence D}
      → t.evidence ev.op_id ≡ some old
      → Standing dec t o
      → Standing dec u o
  Standing-replay o replay (Standing.waits waiting none_yet) = Standing.waits waiting λ q e stored.
      elim (added.rows q e stored) [
        | inl old ↦ none_yet q e old
        | inr (new, at, same) ↦ absurd (cc (replay, new))
      ]
  Standing-replay o replay (Standing.decided q e stored decides rest) =
      Standing.decided q e (added.kept q e stored) decides λ q' e' stored' names away.
        elim (added.rows q' e' stored') [
          | inl old ↦ rest q' e' old names away
          | inr (new, at, same) ↦ absurd (cc (replay, new))
        ]

  -- One more duplicate changes nothing for a decided order.
  pub Standing-duplicate :
      (o : OrderIntent D)
      → ev.verdict ≡ duplicate
      → o.status ≢ awaiting_payment
      → Standing dec t o
      → Standing dec u o
  Standing-duplicate o again closed (Standing.waits waiting none_yet) = absurd (closed waiting)
  Standing-duplicate o again closed (Standing.decided q e stored decides rest) =
      Standing.decided q e (added.kept q e stored) decides λ q' e' stored' names away.
        elim (added.rows q' e' stored') [
          | inl old ↦ rest q' e' old names away
          | inr (new, at, same) ↦ ap (λ (x : PaymentEvidence D). x.verdict) same ∙ again
        ]

  -- The first evidence of an order that waits decides it.
  pub Standing-first :
      (o : OrderIntent D)
      → o.status ≡ awaiting_payment
      → ((q : String) (e : PaymentEvidence D) → t.evidence q ≡ some e → e.order_id ≢ o.id)
      → u.evidence ev.op_id ≡ some (uncaptured ev)
      → Decides dec
          (uncaptured ev)
          (record o { status = terminal ev.verdict; reject_reason = ev.reject_reason })
      → Standing dec u (record o { status = terminal ev.verdict; reject_reason = ev.reject_reason })
  Standing-first o waiting none_yet stored decides =
      Standing.decided ev.op_id (uncaptured ev) stored decides λ q' e' stored' names away.
        elim (added.rows q' e' stored') [
          | inl old ↦ absurd (none_yet q' e' old names)
          | inr (new, at, same) ↦ absurd (away at)
        ]
