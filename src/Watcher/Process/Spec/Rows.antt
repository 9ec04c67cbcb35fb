-- ===== src/Watcher/Process/Spec/Rows.antt =====
-- The rows after `record_payment`, key by key.
use shopble_stellar.Common.{
  String, ◌≡◌, refl, ◌≢◌, inl, inr, Bool-cases, ◌&&◌, Option, none, some, Option-cases, ◌==◌,
  string_eq, eq_iff, arith, if◌then◌else◌,
}
use shopble_stellar.Models.Status.{RejectReason, Verdict, awaiting_payment}
use shopble_stellar.Models.Order.{OrderIntent}
use shopble_stellar.Models.Evidence.{PaymentEvidence}
use shopble_stellar.Watcher.Matcher.{terminal}
use shopble_stellar.Watcher.Database.{Tables, insert_row, change, update_row, save_row, uncaptured}
use shopble_stellar.Watcher.Process.Spec.{gives_verdict, settled_order, record_payment}

module _ {D : Type 0} (stream : String) (v : Verdict) (r : RejectReason) (ev : PaymentEvidence D)
    (t : Tables D) where
  pub evidence-record_payment :
      (order : Option (OrderIntent D)) (q : String)
      → (record_payment stream order (v, r) ev t).evidence q ≡ (
          if ev.op_id == q
          then elim (t.evidence q) [ none ↦ some (uncaptured ev) | some old ↦ some old ]
          else t.evidence q)
  unfolding record_payment insert_row update_row save_row
  evidence-record_payment none q = refl
  evidence-record_payment (some o) q = elim (Bool-cases (gives_verdict o v ev t)) [
    | inl gives ↦ rw gives
    | inr keeps ↦ rw keeps
  ]

  pub cursors-record_payment :
      (order : Option (OrderIntent D)) (k : String)
      → (record_payment stream order (v, r) ev t).cursors k
        ≡ (if stream == k then some ev.paging_token else t.cursors k)
  unfolding record_payment insert_row update_row save_row
  cursors-record_payment none k = refl
  cursors-record_payment (some o) k = elim (Bool-cases (gives_verdict o v ev t)) [
    | inl gives ↦ rw gives
    | inr keeps ↦ rw keeps
  ]

  pub orders-record_payment-none :
      (j : String) → (record_payment stream none (v, r) ev t).orders j ≡ t.orders j
  unfolding record_payment insert_row update_row save_row
  orders-record_payment-none j = refl

  pub orders-record_payment :
      (o : OrderIntent D) (j : String)
      → (record_payment stream (some o) (v, r) ev t).orders j ≡ (
          if gives_verdict o v ev t && (o.id == j)
          then change awaiting_payment
              (λ row. record row { status = terminal v; reject_reason = r })
              (t.orders j)
          else t.orders j)
  unfolding record_payment insert_row update_row save_row
  orders-record_payment o j = elim (Bool-cases (gives_verdict o v ev t)) [
    | inl gives ↦ rw gives
    | inr keeps ↦ rw keeps
  ]

  pub record_payment_replay :
      {old : PaymentEvidence D} (order : Option (OrderIntent D))
      → t.evidence ev.op_id ≡ some old
      → ((j : String) → (record_payment stream order (v, r) ev t).orders j ≡ t.orders j)
        × ((q : String) → (record_payment stream order (v, r) ev t).evidence q ≡ t.evidence q)
        × (settled_order order (v, r) ev t ≡ none)
  record_payment_replay none stored = (
    orders-record_payment-none,
    λ q. rw (evidence-record_payment) (ground (arith, eq_iff ev.op_id q)),
    refl,
  )
  record_payment_replay (some o) stored = (
    λ j. rw (orders-record_payment) (ground arith),
    λ q. rw (evidence-record_payment) (ground (arith, eq_iff ev.op_id q)),
    ground arith,
  )

  module _ (order : Option (OrderIntent D)) where
    -- The operation has evidence: the new row, or the one that was there.
    pub record_payment_recorded :
        (e : PaymentEvidence D) × ((record_payment stream order (v, r) ev t).evidence ev.op_id
          ≡ some e)
        × ((t.evidence ev.op_id ≡ none → e ≡ uncaptured ev))
    record_payment_recorded = elim (Option-cases (t.evidence ev.op_id)) [
      | inl new ↦ (
        uncaptured ev,
        rw (evidence-record_payment) (ground (arith, eq_iff ev.op_id ev.op_id)),
        λ h. refl,
      )
      | inr (old, stored) ↦
          (old, rw (evidence-record_payment) (ground (arith, eq_iff ev.op_id ev.op_id)), λ h. cc)
    ]

    pub record_payment_keeps :
        (q : String) (e : PaymentEvidence D)
        → t.evidence q ≡ some e
        → (record_payment stream order (v, r) ev t).evidence q ≡ some e
    record_payment_keeps q e stored = rw (evidence-record_payment) (ground arith)

    pub record_payment_cursors :
        ((record_payment stream order (v, r) ev t).cursors stream ≡ some ev.paging_token)
        × ((k : String)
            → stream ≢ k
            → (record_payment stream order (v, r) ev t).cursors k ≡ t.cursors k)
    record_payment_cursors = (
      rw (cursors-record_payment) (ground (arith, eq_iff stream stream)),
      λ k other. rw (cursors-record_payment) (ground (arith, eq_iff stream k)),
    )
