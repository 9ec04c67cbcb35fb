-- ===== src/Watcher/Ledger.antt =====
-- The orders and the evidence as one ledger: which evidence an order's status must have. It is
-- about the rows that services/watcher/watcher.go and api/v1/order_api.go write.
pub mod Payments
pub mod Backed
pub mod Writes
pub mod Keeps
pub mod Rows
use shopble_stellar.Common.{String, ◌≡◌, ◌≢◌, Option, none, some}
use shopble_stellar.Decimal.{Decimal}
use shopble_stellar.Models.Status.{awaiting_payment, duplicate}
use shopble_stellar.Models.Order.{OrderIntent}
use shopble_stellar.Models.Evidence.{PaymentEvidence}
use shopble_stellar.Watcher.Database.{Tables}
use shopble_stellar.Watcher.Matcher.{Observed, match, terminal}

-- The payment that a row of evidence tells of, as the matcher sees it.
abbrev pub recorded : {D : Type 0} → PaymentEvidence D → Observed D
recorded e = record {
  source = e.source_account;
  destination = e.destination_account;
  asset_code = e.asset_code;
  asset_issuer = e.asset_issuer;
  amount = e.amount;
  memo = e.memo;
}

module _ {D : Type 0} (dec : Decimal D) where
  -- The evidence gives the order its verdict: it names the order and its memo, the matcher, run
  -- again on what was recorded, gives an order that waits for its payment just this verdict and
  -- reason, and these are what the order has.
  pub record Decides (e : PaymentEvidence D) (o : OrderIntent D) : Type 0 where
    pub order_id : e.order_id ≡ o.id
    pub memo : e.memo ≡ o.memo
    pub fresh : e.verdict ≢ duplicate
    pub judged :
        match dec (recorded e) (some (record o { status = awaiting_payment }))
        ≡ (e.verdict, e.reject_reason)
    pub status : o.status ≡ terminal e.verdict
    pub reason : o.reject_reason ≡ e.reject_reason

  -- How an order stands: it waits for payment and no evidence names it, or one row of evidence
  -- decides it and every other row that names it is a duplicate.
  pub data Standing (t : Tables D) (o : OrderIntent D) : Type 0 where
    waits :
        o.status ≡ awaiting_payment
        → ((q : String) (e : PaymentEvidence D) → t.evidence q ≡ some e → e.order_id ≢ o.id)
        → Standing t o
    decided :
        (q : String) (e : PaymentEvidence D)
        → t.evidence q ≡ some e
        → Decides e o
        → ((q' : String) (e' : PaymentEvidence D)
            → t.evidence q' ≡ some e'
            → e'.order_id ≡ o.id
            → q' ≢ q
            → e'.verdict ≡ duplicate)
        → Standing t o

  pub record IsLedger (t : Tables D) : Type 0 where
    pub named : t.orders "" ≡ none
    pub keyed : (id : String) (o : OrderIntent D) → t.orders id ≡ some o → o.id ≡ id
    pub known :
        (q : String) (e : PaymentEvidence D)
        → t.evidence q ≡ some e
        → e.order_id ≢ ""
        → (o : OrderIntent D) × (t.orders e.order_id ≡ some o)
    pub standing : (id : String) (o : OrderIntent D) → t.orders id ≡ some o → Standing t o

  pub empty-IsLedger :
      (t : Tables D)
      → ((id : String) → t.orders id ≡ none)
      → ((q : String) → t.evidence q ≡ none)
      → IsLedger t
  empty-IsLedger t no_orders no_evidence = record {
    named = no_orders "";
    keyed = λ id o h. cc (no_orders id, h);
    known = λ q e h name. absurd (cc (no_evidence q, h));
    standing = λ id o h. absurd (cc (no_orders id, h));
  }
