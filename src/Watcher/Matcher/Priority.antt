-- ===== src/Watcher/Matcher/Priority.antt =====
-- Which reason wins when a payment is wrong in several ways.
use shopble_stellar.Common.{◌≡◌, ◌≢◌, ◌↔◌, ◌⊎◌, true, false, some, arith}
use shopble_stellar.Decimal.{Decimal}
use shopble_stellar.Models.Status.{
  RejectReason, Verdict, underpayment, wrong_asset, wrong_destination, wrong_buyer_wallet,
  invalid_memo, no_reason, order_final,
}
use shopble_stellar.Models.Order.{OrderIntent}
use shopble_stellar.Watcher.Matcher.{Observed, match, field_tests}

module _ {D : Type 0} (dec : Decimal D) where
  -- What a reason says of a payment: its own check fails and every earlier one passes.
  abbrev pub Blames : RejectReason → Observed D → OrderIntent D → Type 0
  Blames wrong_destination o order = o.destination ≢ order.destination_account
  Blames wrong_asset o order =
      (o.destination ≡ order.destination_account)
      × ((o.asset_code ≢ order.asset_code) ⊎ (o.asset_issuer ≢ order.asset_issuer))
  Blames wrong_buyer_wallet o order =
      (o.destination ≡ order.destination_account)
      × (o.asset_code ≡ order.asset_code)
      × (o.asset_issuer ≡ order.asset_issuer)
      × (o.source ≢ order.buyer_wallet)
  Blames underpayment o order =
      (o.destination ≡ order.destination_account)
      × (o.asset_code ≡ order.asset_code)
      × (o.asset_issuer ≡ order.asset_issuer)
      × (o.source ≡ order.buyer_wallet)
      × (dec.less_than o.amount order.expected_amount ≡ true)
  Blames invalid_memo o order = ⊥
  Blames no_reason o order = ⊥
  Blames (RejectReason.unnamed s) o order = ⊥

  module _ (o : Observed D) (order : OrderIntent D)
      (is_open : order_final order.status ≡ false) where
    match-Blames :
        (r : RejectReason) → match dec o (some order) ≡ (Verdict.rejected, r) → Blames r o order
    unfolding match
    match-Blames r h = ground (arith, field_tests o order)

    Blames-match :
        (r : RejectReason) → Blames r o order → match dec o (some order) ≡ (Verdict.rejected, r)
    unfolding match
    Blames-match r h = ground (arith, field_tests o order)

  -- A payment for an open order is rejected with a reason exactly when that reason's check fails
  -- and every earlier check passes, in the order destination, asset, buyer wallet, amount.
  pub match-Blames_iff :
      (o : Observed D) (order : OrderIntent D) (r : RejectReason)
      → order_final order.status ≡ false
      → (match dec o (some order) ≡ (Verdict.rejected, r)) ↔ Blames r o order
  match-Blames_iff o order r h = (match-Blames o order h r, Blames-match o order h r)
