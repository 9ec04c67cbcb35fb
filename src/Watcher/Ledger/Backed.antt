-- ===== src/Watcher/Ledger/Backed.antt =====
-- What the ledger says of an order that is validated.
use shopble_stellar.Common.{String, ◌≡◌, ap, ◌∙◌, ◌≢◌, some, arith}
use shopble_stellar.Decimal.{Decimal}
use shopble_stellar.Models.Status.{
  OrderStatus, RejectReason, Verdict, awaiting_payment, matched, duplicate,
}
use shopble_stellar.Models.Status.Laws.{verdict_beq_iff}
use shopble_stellar.Models.Order.{OrderIntent}
use shopble_stellar.Models.Evidence.{PaymentEvidence}
use shopble_stellar.Watcher.Database.{Tables}
use shopble_stellar.Watcher.Matcher.{terminal}
use shopble_stellar.Watcher.Matcher.Laws.{Settles, match-Settles}
use shopble_stellar.Watcher.Ledger.{recorded, Standing}

-- One payment has paid for the order, and every other that names it is a duplicate.
pub record Backed {D : Type 0} (dec : Decimal D) (t : Tables D) (o : OrderIntent D) : Type 0 where
  pub op_id : String
  pub evidence : PaymentEvidence D
  pub stored : t.evidence op_id ≡ some evidence
  pub order_id : evidence.order_id ≡ o.id
  pub verdict : evidence.verdict ≡ matched
  pub settles : Settles dec (recorded evidence) (record o { status = awaiting_payment })
  pub only :
      (q : String) (e : PaymentEvidence D)
      → t.evidence q ≡ some e
      → e.order_id ≡ o.id
      → q ≢ op_id
      → e.verdict ≡ duplicate

terminal-validated :
    (v : Verdict) (s : OrderStatus) → s ≡ OrderStatus.validated → s ≡ terminal v → v ≡ matched
unfolding terminal
terminal-validated v s validated is_terminal = ground (arith, verdict_beq_iff v matched)

module _ {D : Type 0} (dec : Decimal D) {t : Tables D} (o : OrderIntent D)
    (validated : o.status ≡ OrderStatus.validated) where
  pub Standing-Backed : Standing dec t o → Backed dec t o
  Standing-Backed (Standing.waits waiting none_yet) = absurd (cc (validated, waiting))
  Standing-Backed (Standing.decided q e stored decides rest) =
      let accepted = terminal-validated e.verdict o.status validated decides.status in
      record {
        op_id = q;
        evidence = e;
        stored = stored;
        order_id = decides.order_id;
        verdict = accepted;
        settles =
            match-Settles dec (recorded e) (record o { status = awaiting_payment })
              (ap (λ (x : Verdict × RejectReason). x.0) decides.judged ∙ accepted);
        only = rest;
      }
