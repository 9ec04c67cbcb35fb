-- ===== src/Watcher/Ledger/Keeps.antt =====
-- What the transaction of a payment, a write of a transaction hash and a new order do to the
-- ledger as a whole.
use mathlib.Core.Option.{some-injective}
use shopble_stellar.Common.{
  String, ◌≡◌, sym, ap, ◌∙◌, ◌≢◌, inl, inr, String-cases, none, some, string_eq, eq_iff, arith,
  subst,
}
use shopble_stellar.Decimal.{Decimal}
use shopble_stellar.Models.Status.{RejectReason, Verdict}
use shopble_stellar.Models.Order.{OrderIntent}
use shopble_stellar.Models.Evidence.{PaymentEvidence}
use shopble_stellar.Watcher.Database.{Tables, untimed}
use shopble_stellar.Watcher.Process.Spec.{record_payment}
use shopble_stellar.Watcher.Process.Spec.Rows.{orders-record_payment, orders-record_payment-none}
use shopble_stellar.Watcher.Ledger.{Standing, IsLedger}
use shopble_stellar.Watcher.Ledger.Payments.{Added, record_payment-Added, Standing-Added}
use shopble_stellar.Watcher.Ledger.Rows.{Judged, Judged-Standing}

module _ {D : Type 0} (dec : Decimal D) (stream : String) (v : Verdict) (r : RejectReason)
    (ev : PaymentEvidence D) (t : Tables D) (ledger : IsLedger dec t) where
  -- A payment whose memo names no order.
  pub unknown_payment : ev.order_id ≡ "" → IsLedger dec (record_payment stream none (v, r) ev t)
  unknown_payment nameless =
      let u = record_payment stream none (v, r) ev t in
      let added : Added ev t u = record_payment-Added stream v r ev t none in
      record {
        named = orders-record_payment-none stream v r ev t "" ∙ ledger.named;
        keyed =
            λ id o h. ledger.keyed id o (sym (orders-record_payment-none stream v r ev t id) ∙ h);
        known = λ q e stored name. elim (added.rows q e stored) [
          | inl old ↦
              let (o, here) = ledger.known q e old name in
              (o, orders-record_payment-none stream v r ev t e.order_id ∙ here)
          | inr (new, at, same) ↦
              absurd (name (ap (λ (x : PaymentEvidence D). x.order_id) same ∙ nameless))
        ];
        standing = λ id o h.
            let here = sym (orders-record_payment-none stream v r ev t id) ∙ h in
            let other : ev.order_id ≢ o.id =
              λ same. cc (ledger.named, nameless, same, ledger.keyed id o here, here) in
            Standing-Added dec added o other (ledger.standing id o here);
      }

  module _ (row : OrderIntent D) (j : Judged dec stream v r ev t row) where
    abbrev after : Tables D
    after = record_payment stream (some row) (v, r) ev t

    orders_of_others : (id : String) → row.id ≢ id → after.orders id ≡ t.orders id
    orders_of_others id other = rw (orders-record_payment) (ground (arith, eq_iff row.id id))

    row_stands :
        (o : OrderIntent D) × (after.orders row.id ≡ some o)
        × (o.id ≡ row.id)
        × Standing dec after o
    row_stands =
        Judged-Standing dec stream v r ev t row j (ledger.standing row.id (untimed row) j.stored)

    -- A payment whose memo names an order.
    pub judged_payment : IsLedger dec after
    judged_payment =
        let added : Added ev t after = record_payment-Added stream v r ev t (some row) in
        let (o1, here1, id1, stands1) = row_stands in
        let before = λ (id : String) (other : row.id ≢ id). orders_of_others id other in
        record {
          named = before "" (λ e. cc (ap t.orders e, j.stored, ledger.named)) ∙ ledger.named;
          keyed = λ id o h. elim (String-cases row.id id) [
            | inl same ↦ cc (ap after.orders same, here1, h, id1, same)
            | inr other ↦ ledger.keyed id o (sym (before id other) ∙ h)
          ];
          known = λ q e stored name. elim (added.rows q e stored) [
            | inr (new, at, same) ↦ (
              o1,
              ap after.orders (ap (λ (x : PaymentEvidence D). x.order_id) same ∙ j.names) ∙ here1,
            )
            | inl old ↦ elim (String-cases row.id e.order_id) [
              | inl same ↦ (o1, ap after.orders (sym same) ∙ here1)
              | inr other ↦
                  let (o, here) = ledger.known q e old name in (o, before e.order_id other ∙ here)
            ]
          ];
          standing = λ id o h. elim (String-cases row.id id) [
            | inl same ↦
                let it : o1 ≡ o = some-injective _ _ (sym here1 ∙ ap after.orders same ∙ h) in
                subst (λ (x : OrderIntent D). Standing dec after x) it stands1
            | inr other ↦
                let here = sym (before id other) ∙ h in
                Standing-Added dec added o (λ e. other (sym j.names ∙ e ∙ ledger.keyed id o here))
                  (ledger.standing id o here)
          ];
        }
