-- ===== src/Api/Model.antt =====
-- api/v1/order_model.go, and `toEvidenceDto` of api/v1/evidence_api.go
use shopble_stellar.Common.{String, Bool, List, if◌then◌else◌}
use shopble_stellar.Common.Int.{ℤ, pos, ◌-ℤ◌, ltb_ℤ, wrap64}
use shopble_stellar.Decimal.{Decimal}
use shopble_stellar.Models.Status.{status_text, reason_text, verdict_text}
use shopble_stellar.Models.Order.{OrderIntent}
use shopble_stellar.Models.Evidence.{PaymentEvidence}
use shopble_stellar.Stellar.Instruction.{PaymentInstruction, stellar_decimals, explorer_tx_url}

pub record CreateOrderRequest : Type 0 where
  pub product_ref : String
  pub expected_amount : String
  pub buyer_wallet : String

pub record OrderDto : Type 0 where
  pub id : String
  pub product_ref : String
  pub expected_amount : String
  pub asset_code : String
  pub asset_issuer : String
  pub destination_account : String
  pub memo : String
  pub buyer_wallet : String
  pub status : String
  pub reject_reason : String
  pub on_chain_tx_hash : String
  pub created_at : ℤ
  pub updated_at : ℤ

pub record CreateOrderData : Type 0 where
  pub order : OrderDto
  pub instruction : PaymentInstruction

pub record EvidenceDto : Type 0 where
  pub id : String
  pub op_id : String
  pub tx_hash : String
  pub explorer_url : String
  pub source_account : String
  pub destination_account : String
  pub asset_code : String
  pub asset_issuer : String
  pub amount : String
  pub memo : String
  pub ledger_close_at : ℤ
  pub captured_at : ℤ
  pub detection_latency_seconds : ℤ
  pub order_id : String
  pub verdict : String
  pub reject_reason : String

pub record FieldComparison : Type 0 where
  pub field : String
  pub expected : String
  pub observed : String
  pub matches : Bool

pub record OrderEvidenceDto : Type 0 where
  pub evidence : EvidenceDto
  pub comparison : List FieldComparison

pub record OrderEvidenceData : Type 0 where
  pub order : OrderDto
  pub evidence : List OrderEvidenceDto

unfoldable pub latency : ℤ → ℤ → ℤ
latency captured_at ledger_close_at =
    let seconds = wrap64 (captured_at -ℤ ledger_close_at) in
    if ltb_ℤ seconds (pos 0) then pos 0 else seconds

module _ {D : Type 0} (dec : Decimal D) where
  -- `toOrderDto`
  abbrev pub to_order_dto : OrderIntent D → OrderDto
  to_order_dto row = record {
    id = row.id;
    product_ref = row.product_ref;
    expected_amount = dec.string_fixed stellar_decimals row.expected_amount;
    asset_code = row.asset_code;
    asset_issuer = row.asset_issuer;
    destination_account = row.destination_account;
    memo = row.memo;
    buyer_wallet = row.buyer_wallet;
    status = status_text row.status;
    reject_reason = reason_text row.reject_reason;
    on_chain_tx_hash = row.on_chain_tx_hash;
    created_at = row.created_at;
    updated_at = row.updated_at;
  }

  -- `toEvidenceDto`
  abbrev pub to_evidence_dto : PaymentEvidence D → EvidenceDto
  to_evidence_dto row = record {
    id = row.id;
    op_id = row.op_id;
    tx_hash = row.tx_hash;
    explorer_url = explorer_tx_url row.tx_hash;
    source_account = row.source_account;
    destination_account = row.destination_account;
    asset_code = row.asset_code;
    asset_issuer = row.asset_issuer;
    amount = dec.string_fixed stellar_decimals row.amount;
    memo = row.memo;
    ledger_close_at = row.ledger_close_at;
    captured_at = row.captured_at;
    detection_latency_seconds = latency row.captured_at row.ledger_close_at;
    order_id = row.order_id;
    verdict = verdict_text row.verdict;
    reject_reason = reason_text row.reject_reason;
  }
