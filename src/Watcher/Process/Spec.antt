-- ===== src/Watcher/Process/Spec.antt =====
-- What one payment does to the tables, as one function of them: the contract of `process`.
pub mod Rows
use shopble_stellar.Common.{
  String, Bool, true, false, not, ◌&&◌, Option, none, some, ltb, if◌then◌else◌,
}
use shopble_stellar.Models.Status.{
  OrderStatus, RejectReason, Verdict, awaiting_payment, duplicate, verdict_beq,
}
use shopble_stellar.Models.Order.{OrderIntent}
use shopble_stellar.Models.Evidence.{PaymentEvidence}
use shopble_stellar.Watcher.Matcher.{terminal}
use shopble_stellar.Watcher.Database.{
  Settled, Tables, rows_inserted, insert_row, matching, update_row, save_row,
}

module _ {D : Type 0} where
  -- A new payment gives a verdict to an order that still waits for one.
  abbrev pub gives_verdict : OrderIntent D → Verdict → PaymentEvidence D → Tables D → Bool
  gives_verdict order v ev t =
      (ltb 0 (rows_inserted ev t) && not (verdict_beq v duplicate))
      && ltb 0 (matching awaiting_payment (t.orders order.id))

  unfoldable pub settled_tables :
      Option (OrderIntent D) → Verdict × RejectReason → PaymentEvidence D → Tables D → Tables D
  settled_tables none vr ev t = t
  settled_tables (some order) vr ev t =
      if gives_verdict order vr.0 ev t
      then update_row order.id awaiting_payment
          (λ o. record o { status = terminal vr.0; reject_reason = vr.1 }) t
      else t

  abbrev pub settled_order :
      Option (OrderIntent D)
      → Verdict × RejectReason
      → PaymentEvidence D
      → Tables D
      → Option (Settled D)
  settled_order none vr ev t = none
  settled_order (some order) vr ev t =
      if gives_verdict order vr.0 ev t
      then some (record { order = order; terminal = terminal vr.0; reason = vr.1 })
      else none

  -- The evidence is added, the order gets its verdict, and the cursor moves.
  unfoldable pub record_payment :
      String
      → Option (OrderIntent D)
      → Verdict × RejectReason
      → PaymentEvidence D
      → Tables D
      → Tables D
  unfolding settled_tables
  record_payment stream order vr ev t =
      save_row stream ev.paging_token (insert_row ev (settled_tables order vr ev t))
