-- ===== src/Soroban/Value/Laws.antt =====
-- The encoding of statuses and amounts for the contract.

use mathlib.Core.Option.{some-injective}
use shopble_stellar.Common.{
  sym, ap, ◌∙◌, >>=-eq-some, ◌==◌, string_eq, if◌then◌else◌, ℕ, suc, ◌+◌, ◌-◌, ◌*◌, ◌^◌, ◌<◌, ◌≤◌,
  String, ◌≡◌, refl, ◌↔◌, ◌≢◌, true, some, List, [], ◌∷◌, arith,
}
use shopble_stellar.Common.Int.{ℤ, pos, negsuc, sub_ℕ, pos_part, neg_part}
use shopble_stellar.Models.Status.{
  OrderStatus, RejectReason, awaiting_payment, payment_detected, valid_reject_reason,
}
use shopble_stellar.Soroban.Sdk
use shopble_stellar.Soroban.Sdk.{Xdr}
use shopble_stellar.Soroban.Value.{high_word, low_word, reject_variant, status_sc_val, sc_enum}

word_sum : (lo n : ℕ) → lo ≡ 2 ^ 64 - 1 - n → n < 2 ^ 63 → sub_ℕ lo (2 ^ 64) ≡ negsuc n
word_sum lo n h small = ground arith

-- The number that the two words of an `Int128Parts` stand for.
abbrev pub i128_value : ℤ → ℕ → ℤ
i128_value (pos h) lo = pos (h * 2 ^ 64 + lo)
i128_value (negsuc h) lo = sub_ℕ lo (suc h * 2 ^ 64)

-- An amount of 64 bits survives its conversion to the contract's 128 bits: the two words stand
-- for the number they were made of, whatever its sign.
pub sc_i128-words :
    (v : ℤ) → pos_part v < 2 ^ 63 → neg_part v ≤ 2 ^ 63 → i128_value (high_word v) (low_word v) ≡ v
unfolding high_word low_word
sc_i128-words (pos n) h k = ground arith
sc_i128-words (negsuc n) h k = ground arith

named :
    (r : RejectReason)
    → (valid_reject_reason r ≡ true) ↔ ((name : String) × (reject_variant r ≡ some name))
unfolding valid_reject_reason reject_variant
named (RejectReason.unnamed s) = ((λ h. cc), λ h. cc (h.1))
named RejectReason.no_reason = ((λ h. cc), λ h. cc (h.1))
named RejectReason.underpayment = ((λ h. (_, refl)), λ h. refl)
named RejectReason.wrong_asset = ((λ h. (_, refl)), λ h. refl)
named RejectReason.wrong_destination = ((λ h. (_, refl)), λ h. refl)
named RejectReason.wrong_buyer_wallet = ((λ h. (_, refl)), λ h. refl)
named RejectReason.invalid_memo = ((λ h. (_, refl)), λ h. refl)

-- The contract's variant names read back.
abbrev name_reason : String → RejectReason
name_reason name =
    if name == "Underpayment"
    then RejectReason.underpayment
    else if name == "WrongAsset"
    then RejectReason.wrong_asset
    else if name == "WrongDestination"
    then RejectReason.wrong_destination
    else if name == "WrongBuyerWallet"
    then RejectReason.wrong_buyer_wallet
    else RejectReason.invalid_memo

abbrev name_status : String → OrderStatus
name_status name =
    if name == "AwaitingPayment"
    then awaiting_payment
    else if name == "PaymentDetected"
    then payment_detected
    else if name == "Validated"
    then OrderStatus.validated
    else OrderStatus.rejected

name_reason_lem :
    (r : RejectReason) {name : String} → reject_variant r ≡ some name → name_reason name ≡ r
unfolding reject_variant
name_reason_lem RejectReason.underpayment h = ap name_reason (some-injective _ _ (sym h))
name_reason_lem RejectReason.wrong_asset h = ap name_reason (some-injective _ _ (sym h))
name_reason_lem RejectReason.wrong_destination h = ap name_reason (some-injective _ _ (sym h))
name_reason_lem RejectReason.wrong_buyer_wallet h = ap name_reason (some-injective _ _ (sym h))
name_reason_lem RejectReason.invalid_memo h = ap name_reason (some-injective _ _ (sym h))
name_reason_lem RejectReason.no_reason h = cc
name_reason_lem (RejectReason.unnamed s) h = cc

module _ {V A : Type 0} (xdr : Xdr V A) (lawful : Sdk.IsLawful xdr) where
  -- The variant and the payload of an encoded status.
  data Encodes (v : V) : OrderStatus → RejectReason → Type 0 where
    plain :
        {s : OrderStatus} {why : RejectReason} (name : String)
        → name_status name ≡ s
        → s ≢ OrderStatus.rejected
        → v ≡ sc_enum xdr name []
        → Encodes v s why
    refused :
        {why : RejectReason} (name : String)
        → reject_variant why ≡ some name
        → v ≡ sc_enum xdr "Rejected" (sc_enum xdr name [] ∷ [])
        → Encodes v OrderStatus.rejected why

  status_sc_val-Encodes :
      (s : OrderStatus) (why : RejectReason) {v : V}
      → status_sc_val xdr s why ≡ some v
      → Encodes v s why
  unfolding status_sc_val
  status_sc_val-Encodes awaiting_payment why h =
      plain "AwaitingPayment" refl (λ e. cc) (some-injective _ _ (sym h))
  status_sc_val-Encodes payment_detected why h =
      plain "PaymentDetected" refl (λ e. cc) (some-injective _ _ (sym h))
  status_sc_val-Encodes OrderStatus.validated why h =
      plain "Validated" refl (λ e. cc) (some-injective _ _ (sym h))
  status_sc_val-Encodes OrderStatus.rejected why h =
      let (name, found, same) = >>=-eq-some (reject_variant why) _ h in
      refused name found (some-injective _ _ (sym same))
  status_sc_val-Encodes (OrderStatus.unnamed s) why h = cc

  enum_names :
      {v : V} (a b : String) (p q : List V)
      → v ≡ sc_enum xdr a p
      → v ≡ sc_enum xdr b q
      → (a ≡ b) × (p ≡ q)
  enum_names a b p q h k =
      let same = lawful.vec-injective _ _ (sym h ∙ k) in
      (lawful.symbol-injective a b (cc same), cc same)

  decoded :
      {v : V} {s t : OrderStatus} {why cause : RejectReason}
      → Encodes v s why
      → Encodes v t cause
      → (s ≡ t) × (s ≡ OrderStatus.rejected → why ≡ cause)
  decoded (plain a ha na ea) (plain b hb nb eb) =
      (sym ha ∙ ap name_status (enum_names a b [] [] ea eb).0 ∙ hb, λ e. absurd (na e))
  decoded (plain a ha na ea) (refused b hb eb) =
      absurd (na (sym ha ∙ ap name_status (enum_names a _ [] _ ea eb).0))
  decoded (refused a ha ea) (plain b hb nb eb) =
      absurd (nb (sym hb ∙ ap name_status (enum_names b _ [] _ eb ea).0))
  decoded (refused a ha ea) (refused b hb eb) =
      let payload = (enum_names _ _ _ _ ea eb).1 in
      let same = (enum_names a b [] [] refl (cc payload)).0 in
      (refl, λ e. sym (name_reason_lem _ ha) ∙ ap name_reason same ∙ name_reason_lem _ hb)

  -- Two statuses with the same encoding are the same status, and the same reason where they are
  -- `rejected`.
  pub status_sc_val-injective :
      (s t : OrderStatus) (why cause : RejectReason) {v : V}
      → status_sc_val xdr s why ≡ some v
      → status_sc_val xdr t cause ≡ some v
      → (s ≡ t) × (s ≡ OrderStatus.rejected → why ≡ cause)
  status_sc_val-injective s t why cause h k =
      decoded (status_sc_val-Encodes s why h) (status_sc_val-Encodes t cause k)

-- A status is encoded, rather than refused with an error, exactly when it is one of the four
-- constants and, for `rejected`, the reason is valid.
pub status_sc_val_iff :
    {V A : Type 0} (xdr : Xdr V A) (s : OrderStatus) (why : RejectReason)
    → ((v : V) × (status_sc_val xdr s why ≡ some v)) ↔ (
        ((t : String) → s ≢ OrderStatus.unnamed t)
        × (s ≡ OrderStatus.rejected → valid_reject_reason why ≡ true))
unfolding status_sc_val
status_sc_val_iff xdr OrderStatus.rejected why = (
  λ h. (
    λ t e. cc,
    λ e.
        let (name, found, same) = >>=-eq-some (reject_variant why) _ h.1 in
        (named why).1 (name, found),
  ),
  λ h.
      let (name, found) = (named why).0 (h.1 refl) in
      (sc_enum xdr "Rejected" (sc_enum xdr name [] ∷ []), rw found refl),
)
status_sc_val_iff xdr (OrderStatus.unnamed s) why =
    ((λ h. absurd (cc (h.1))), λ h. absurd (h.0 s refl))
status_sc_val_iff xdr s why = ((λ h. (λ t e. cc, λ e. cc)), λ h. (_, refl))
