-- ===== src/Models/Order.antt =====
-- models/order_intent.go: the order row. Amounts are values of an unknown type `D`: the decimals
-- of shopspring/decimal.
use shopble_stellar.Common.{String}
use shopble_stellar.Common.Int.{ℤ}
use shopble_stellar.Models.Status.{OrderStatus, RejectReason}

pub record OrderIntent (D : Type 0) : Type 0 where
  pub id : String
  pub product_ref : String
  pub expected_amount : D
  pub asset_code : String
  pub asset_issuer : String
  pub destination_account : String
  pub memo : String
  pub buyer_wallet : String
  pub status : OrderStatus
  pub reject_reason : RejectReason
  pub on_chain_tx_hash : String
  pub created_at : ℤ
  pub updated_at : ℤ
