-- ===== src/Api/Evidence/Laws.antt =====
-- The comparison that reviewers see, against the matcher.
use shopble_stellar.Common.{
  String, ◌≡◌, refl, sym, inl, inr, Bool, Bool-cases, true, false, not, ◌&&◌, some, All, arith,
  ◌==◌, string_eq, eq_iff, if◌then◌else◌, ◌<◌, ◌^◌,
}
use shopble_stellar.Common.Int.{ℤ, pos, ◌-ℤ◌, ◌≤ℤ◌, pos_part, neg_part}
use shopble_stellar.Decimal
use shopble_stellar.Decimal.{Decimal}
use shopble_stellar.Models.Status.{matched}
use shopble_stellar.Models.Order.{OrderIntent}
use shopble_stellar.Stellar.Horizon.{HorizonPayment}
use shopble_stellar.Watcher.Matcher.{match}
use shopble_stellar.Watcher.Matcher.Laws.{match-Settles}
use shopble_stellar.Watcher.Process.{observed, evidence_row}
use shopble_stellar.Api.Model.{latency}
use shopble_stellar.Api.Evidence.{compare}

module _ {D : Type 0} (dec : Decimal D) (lawful : Decimal.IsLawful dec) where
  amount_field :
      (order : OrderIntent D) (amount : D) (same : Bool)
      → (dec.string_fixed 7 order.expected_amount == dec.string_fixed 7 amount) ≡ same
      → dec.less_than amount order.expected_amount ≡ false
      → (if not same && dec.greater_than amount order.expected_amount then true else same) ≡ true
  amount_field order amount true h enough = refl
  amount_field order amount false h enough =
      elim (Bool-cases (dec.less_than order.expected_amount amount)) [
        | inl more ↦ rw (lawful.greater_than-less_than, more) refl
        | inr equal ↦
            let text = lawful.string_fixed_equal 7 order.expected_amount amount equal enough in
            absurd (cc (h, (eq_iff _ _).1 text))
      ]

  -- When the matcher accepts a payment for an order, and the payment's memo is the order's, the
  -- comparison of the order with the evidence of the payment shows every one of its fields as a
  -- match.
  pub compare-matched :
      (p : HorizonPayment) (amount : D) (order : OrderIntent D) (evidence_id : String)
      → (match dec (observed p amount) (some order)).0 ≡ matched
      → p.memo ≡ order.memo
      → All
          (λ c. c.matches ≡ true)
          (compare dec order (
            evidence_row evidence_id p amount
              (some order)
              (match dec (observed p amount) (some order))))
  unfolding compare
  compare-matched p amount order evidence_id accepted memo =
      let settles = match-Settles dec (observed p amount) order accepted in
      (
        amount_field order amount _ refl settles.amount,
        (
          (eq_iff _ _).1 (sym settles.asset_code),
          (
            (eq_iff _ _).1 (sym settles.asset_issuer),
            (
              (eq_iff _ _).1 (sym settles.destination),
              ((eq_iff _ _).1 (sym settles.source), ((eq_iff _ _).1 (sym memo), tt)),
            ),
          ),
        ),
      )

-- For times whose distance an int64 holds, the latency that is reported is never negative; added to the ledger's time it gives the time of
-- capture, unless the capture is the earlier, and then it is 0.
pub latency_lem :
    (captured ledger : ℤ)
    → pos_part captured < 2 ^ 62
    → neg_part captured < 2 ^ 62
    → pos_part ledger < 2 ^ 62
    → neg_part ledger < 2 ^ 62
    → (pos 0 ≤ℤ latency captured ledger)
      × (ledger ≤ℤ captured → latency captured ledger ≡ captured -ℤ ledger)
      × (captured ≤ℤ ledger → latency captured ledger ≡ pos 0)
unfolding latency ◌-ℤ◌
latency_lem captured ledger after before late early =
    (ground arith, λ h. ground arith, λ h. ground arith)
