-- ===== src/Watcher/Matcher.antt =====
-- services/watcher/matcher.go
pub mod Laws
pub mod Priority
use shopble_stellar.Common.{
  String, ◌≡◌, ◌↔◌, Bool, true, not, ◌||◌, Option, none, some, ◌==◌, string_eq, eq_iff,
  if◌then◌else◌,
}
use shopble_stellar.Decimal.{Decimal}
use shopble_stellar.Models.Status.{
  OrderStatus, RejectReason, Verdict, underpayment, wrong_asset, wrong_destination,
  wrong_buyer_wallet, invalid_memo, no_reason, matched, duplicate, verdict_beq, order_final,
}
use shopble_stellar.Models.Order.{OrderIntent}

pub record Observed (D : Type 0) : Type 0 where
  pub source : String
  pub destination : String
  pub asset_code : String
  pub asset_issuer : String
  pub amount : D
  pub memo : String

module _ {D : Type 0} (dec : Decimal D) where
  match_order : Observed D → OrderIntent D → Verdict × RejectReason
  unfolding order_final
  match_order o order =
      if order_final order.status
      then (duplicate, no_reason)
      else if not (o.destination == order.destination_account)
      then (Verdict.rejected, wrong_destination)
      else if not (o.asset_code == order.asset_code) || not (o.asset_issuer == order.asset_issuer)
      then (Verdict.rejected, wrong_asset)
      else if not (o.source == order.buyer_wallet)
      then (Verdict.rejected, wrong_buyer_wallet)
      else if dec.less_than o.amount order.expected_amount
      then (Verdict.rejected, underpayment)
      else (matched, no_reason)

  -- `Match`: a nil order is `none`.
  unfoldable pub match : Observed D → Option (OrderIntent D) → Verdict × RejectReason
  unfolding match_order
  match o none = (Verdict.rejected, invalid_memo)
  match o (some order) = match_order o order

-- What the four comparisons of texts decide; `ground` takes them from here.
pub field_tests :
    {D : Type 0} (o : Observed D) (order : OrderIntent D)
    → (((o.destination == order.destination_account) ≡ true)
        ↔ (o.destination ≡ order.destination_account))
      × (((o.asset_code == order.asset_code) ≡ true) ↔ (o.asset_code ≡ order.asset_code))
      × (((o.asset_issuer == order.asset_issuer) ≡ true) ↔ (o.asset_issuer ≡ order.asset_issuer))
      × (((o.source == order.buyer_wallet) ≡ true) ↔ (o.source ≡ order.buyer_wallet))
field_tests o order = (eq_iff _ _, eq_iff _ _, eq_iff _ _, eq_iff _ _)

-- `Terminal`
unfoldable pub terminal : Verdict → OrderStatus
terminal v = if verdict_beq v matched then OrderStatus.validated else OrderStatus.rejected
