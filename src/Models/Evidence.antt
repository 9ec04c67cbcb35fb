-- ===== src/Models/Evidence.antt =====
-- models/payment_evidence.go: the evidence row and the watcher's cursor row.
use shopble_stellar.Common.{String}
use shopble_stellar.Common.Int.{ℤ}
use shopble_stellar.Models.Status.{RejectReason, Verdict}

pub record PaymentEvidence (D : Type 0) : Type 0 where
  pub id : String
  pub op_id : String
  pub paging_token : String
  pub tx_hash : String
  pub source_account : String
  pub destination_account : String
  pub asset_code : String
  pub asset_issuer : String
  pub amount : D
  pub memo : String
  pub ledger_close_at : ℤ
  pub captured_at : ℤ
  pub order_id : String
  pub verdict : Verdict
  pub reject_reason : RejectReason

pub record WatcherCursor : Type 0 where
  pub stream : String
  pub cursor : String
  pub updated_at : ℤ
