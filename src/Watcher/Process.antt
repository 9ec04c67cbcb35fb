-- ===== src/Watcher/Process.antt =====
-- services/watcher/watcher.go, `process`: one payment in one transaction. The error that a failed
-- transaction returns is not modelled beyond its being there.
pub mod Spec
pub mod Refines
pub mod Updates
pub mod Laws
use shopble_stellar.Common.{
  ℕ, ◌+◌, String, Bool, true, false, not, ◌&&◌, Option, none, some, ltb, ◌==◌, nat_eq, string_eq,
  if◌then◌else◌, ◌>>=◌,
}
use shopble_stellar.Common.Int.{pos}
use shopble_stellar.Decimal.{Decimal}
use shopble_stellar.Models.Status.{
  RejectReason, Verdict, awaiting_payment, payment_detected, duplicate, verdict_beq,
}
use shopble_stellar.Models.Order.{OrderIntent}
use shopble_stellar.Models.Evidence.{PaymentEvidence}
use shopble_stellar.Stellar.Horizon.{HorizonPayment}
use shopble_stellar.Watcher.Matcher.{Observed, match, terminal}
use shopble_stellar.Watcher.Database.{Database, Settled}

module _ {D : Type 0} where
  abbrev pub observed : HorizonPayment → D → Observed D
  observed p amount = record {
    source = p.from;
    destination = p.to;
    asset_code = p.asset_code;
    asset_issuer = p.asset_issuer;
    amount = amount;
    memo = p.memo;
  }

  abbrev pub id_of : Option (OrderIntent D) → String
  id_of none = ""
  id_of (some order) = order.id

  -- The row that is inserted; `evidence_id` is the new ksuid.
  abbrev pub evidence_row :
      String
      → HorizonPayment
      → D
      → Option (OrderIntent D)
      → Verdict × RejectReason
      → PaymentEvidence D
  evidence_row evidence_id p amount order vr = record {
    id = evidence_id;
    op_id = p.id;
    paging_token = p.paging_token;
    tx_hash = p.transaction_hash;
    source_account = p.from;
    destination_account = p.to;
    asset_code = p.asset_code;
    asset_issuer = p.asset_issuer;
    amount = amount;
    memo = p.memo;
    ledger_close_at = p.ledger_close_at;
    captured_at = pos 0;
    order_id = id_of order;
    verdict = vr.0;
    reject_reason = vr.1;
  }

  module _ (dec : Decimal D) where
    -- A text that is no number counts as zero.
    parsed_amount : Option D → D
    parsed_amount none = dec.zero_value
    parsed_amount (some amount) = amount

    unfoldable pub amount_of : HorizonPayment → D
    unfolding parsed_amount
    amount_of p = parsed_amount (dec.new_from_string p.amount)

    module _ {S : Type 0} (db : Database D S) where
      unfoldable pub order_of : HorizonPayment → S → Option (OrderIntent D)
      order_of p s = if not (p.memo == "") then db.order_by_memo p.memo s else none

      abbrev pub verdict_of : HorizonPayment → S → Verdict × RejectReason
      verdict_of p s = match dec (observed p (amount_of p)) (order_of p s)

      abbrev pub evidence_of : String → HorizonPayment → S → PaymentEvidence D
      evidence_of evidence_id p s =
          evidence_row evidence_id p (amount_of p) (order_of p s) (verdict_of p s)

      -- The second update of the order.
      pub conclude : OrderIntent D → Verdict × RejectReason → S → Option (Option (Settled D) × S)
      conclude order vr s = do
        (updated, s') ← db.update_verdict order.id payment_detected (terminal vr.0) vr.1 s
        some (some (record { order = order; terminal = terminal vr.0; reason = vr.1 }), s')

      -- The two updates; no row affected by the first means that another payment has settled the
      -- order.
      unfoldable pub mark :
          OrderIntent D → Verdict × RejectReason → S → Option (Option (Settled D) × S)
      unfolding conclude
      mark order vr s = do
        (detected, s') ← db.update_status order.id awaiting_payment payment_detected s
        if ltb 0 detected then conclude order vr s' else some (none, s')

      unfoldable pub settle :
          Option (OrderIntent D) → Verdict × RejectReason → ℕ → S → Option (Option (Settled D) × S)
      settle none vr rows s = some (none, s)
      settle (some order) vr rows s =
          if ltb 0 rows && not (verdict_beq vr.0 duplicate) then mark order vr s else some (none, s)

      -- The function that `process` hands to `db.Transaction`.
      unfoldable pub process_txn :
          String → String → HorizonPayment → S → Option (Option (Settled D) × S)
      process_txn stream evidence_id p s = do
        (rows, s1) ← db.insert_evidence (evidence_of evidence_id p s) s
        (settled, s2) ← settle (order_of p s) (verdict_of p s) rows s1
        s3 ← db.save_cursor stream p.paging_token s2
        some (settled, s3)

      -- The transaction as a whole.
      unfoldable pub process_db :
          String → String → HorizonPayment → S → Option (Option (Settled D)) × S
      process_db stream evidence_id p s = db.transaction (process_txn stream evidence_id p) s
