-- ===== src/Watcher/Matcher/Laws.antt =====
-- What a verdict of the matcher says of the payment and the order.
use shopble_stellar.Common.{◌≡◌, ap, ◌↔◌, ◌⊎◌, true, false, Option, none, some, arith}
use shopble_stellar.Decimal.{Decimal}
use shopble_stellar.Models.Status.{
  RejectReason, Verdict, no_reason, matched, duplicate, order_final, valid_reject_reason,
}
use shopble_stellar.Models.Order.{OrderIntent}
use shopble_stellar.Watcher.Matcher.{Observed, match, field_tests}

module _ {D : Type 0} (dec : Decimal D) where
  -- The payment that an open order asks for: every field as in the order, and enough money.
  pub record Settles (o : Observed D) (order : OrderIntent D) : Type 0 where
    pub is_open : order_final order.status ≡ false
    pub destination : o.destination ≡ order.destination_account
    pub asset_code : o.asset_code ≡ order.asset_code
    pub asset_issuer : o.asset_issuer ≡ order.asset_issuer
    pub source : o.source ≡ order.buyer_wallet
    pub amount : dec.less_than o.amount order.expected_amount ≡ false

  module _ (o : Observed D) (order : OrderIntent D) where
    pub match-Settles : (match dec o (some order)).0 ≡ matched → Settles o order
    unfolding match
    match-Settles h = ground (arith, field_tests o order)

    pub Settles-match : Settles o order → match dec o (some order) ≡ (matched, no_reason)
    unfolding match
    Settles-match h = ground (arith, field_tests o order)

    -- The verdict is `matched` exactly for a payment that settles the open order: all of
    -- destination, asset code and issuer, and buyer wallet are the order's, and the amount is not
    -- less than the expected one. The amount may be larger.
    pub match-matched_iff : ((match dec o (some order)).0 ≡ matched) ↔ Settles o order
    match-matched_iff =
        (match-Settles, λ h. ap (λ (p : Verdict × RejectReason). p.0) (Settles-match h))

  -- With no order, or with one that is not final, the verdict is never `duplicate`; it is
  -- `rejected` exactly when the reason is one of the five named ones, and any other verdict has
  -- the empty reason.
  pub match-reason :
      (o : Observed D) (order : Option (OrderIntent D))
      → let (v, r) = match dec o order in
        ((v ≡ Verdict.rejected) × (valid_reject_reason r ≡ true))
        ⊎ (((v ≡ matched) ⊎ (v ≡ duplicate)) × (r ≡ no_reason))
  unfolding match valid_reject_reason
  match-reason o none = ground arith
  match-reason o (some order) = ground arith
