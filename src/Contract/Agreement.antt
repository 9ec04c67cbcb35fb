-- ===== src/Contract/Agreement.antt =====
-- The statuses of models/order_intent.go and lib/libsoroban/scval.go against those of the contract.
use shopble_stellar.Common.{String, ◌≡◌, refl, sym, ap, Option, none, some, [], ◌∷◌}
use mathlib.Core.Option.{some-injective}
use shopble_stellar.Models.Status.{OrderStatus, RejectReason, can_transition}
use shopble_stellar.Soroban.Sdk.{Xdr}
use shopble_stellar.Soroban.Value.{reject_variant, status_sc_val}
use shopble_stellar.Contract.{ChainReason, ChainStatus, chain_transition}

-- The variant of the contract that a reason and a status name.
abbrev pub to_chain_reason : RejectReason → Option ChainReason
to_chain_reason RejectReason.underpayment = some ChainReason.underpayment
to_chain_reason RejectReason.wrong_asset = some ChainReason.wrong_asset
to_chain_reason RejectReason.wrong_destination = some ChainReason.wrong_destination
to_chain_reason RejectReason.wrong_buyer_wallet = some ChainReason.wrong_buyer_wallet
to_chain_reason RejectReason.invalid_memo = some ChainReason.invalid_memo
to_chain_reason RejectReason.no_reason = none
to_chain_reason (RejectReason.unnamed s) = none

abbrev rejected_for : Option ChainReason → Option ChainStatus
rejected_for none = none
rejected_for (some why) = some (ChainStatus.rejected why)

abbrev pub to_chain : OrderStatus → RejectReason → Option ChainStatus
to_chain OrderStatus.awaiting_payment why = some ChainStatus.awaiting_payment
to_chain OrderStatus.payment_detected why = some ChainStatus.payment_detected
to_chain OrderStatus.validated why = some ChainStatus.validated
to_chain OrderStatus.rejected why = rejected_for (to_chain_reason why)
to_chain (OrderStatus.unnamed s) why = none

-- The names that the contract declares for the variants of its two enums.
abbrev pub reason_name : ChainReason → String
reason_name ChainReason.underpayment = "Underpayment"
reason_name ChainReason.wrong_asset = "WrongAsset"
reason_name ChainReason.wrong_destination = "WrongDestination"
reason_name ChainReason.wrong_buyer_wallet = "WrongBuyerWallet"
reason_name ChainReason.invalid_memo = "InvalidMemo"

module _ {V A : Type 0} (xdr : Xdr V A) where
  -- A variant as a value of the contract, as the SDK of Soroban encodes enums: a vector of the
  -- symbol of its name and of its payload.
  abbrev pub variant_value : ChainStatus → V
  variant_value ChainStatus.awaiting_payment = xdr.vec (xdr.symbol "AwaitingPayment" ∷ [])
  variant_value ChainStatus.payment_detected = xdr.vec (xdr.symbol "PaymentDetected" ∷ [])
  variant_value ChainStatus.validated = xdr.vec (xdr.symbol "Validated" ∷ [])
  variant_value (ChainStatus.rejected why) =
      xdr.vec (xdr.symbol "Rejected" ∷ xdr.vec (xdr.symbol (reason_name why) ∷ []) ∷ [])

  -- What the client encodes for a status and a reason is the variant of the contract's own enums
  -- that they name, and it refuses exactly those that name none.
  pub status_sc_val-variant_value :
      (s : OrderStatus) (why : RejectReason)
      → status_sc_val xdr s why
        ≡ elim (to_chain s why) [ none ↦ none | some c ↦ some (variant_value c) ]
  unfolding status_sc_val reject_variant
  status_sc_val-variant_value OrderStatus.awaiting_payment why = refl
  status_sc_val-variant_value OrderStatus.payment_detected why = refl
  status_sc_val-variant_value OrderStatus.validated why = refl
  status_sc_val-variant_value OrderStatus.rejected RejectReason.underpayment = refl
  status_sc_val-variant_value OrderStatus.rejected RejectReason.wrong_asset = refl
  status_sc_val-variant_value OrderStatus.rejected RejectReason.wrong_destination = refl
  status_sc_val-variant_value OrderStatus.rejected RejectReason.wrong_buyer_wallet = refl
  status_sc_val-variant_value OrderStatus.rejected RejectReason.invalid_memo = refl
  status_sc_val-variant_value OrderStatus.rejected RejectReason.no_reason = refl
  status_sc_val-variant_value OrderStatus.rejected (RejectReason.unnamed s) = refl
  status_sc_val-variant_value (OrderStatus.unnamed s) why = refl

-- The program's status and reason for a variant of the contract.
abbrev from_chain : ChainStatus → OrderStatus
from_chain ChainStatus.awaiting_payment = OrderStatus.awaiting_payment
from_chain ChainStatus.payment_detected = OrderStatus.payment_detected
from_chain ChainStatus.validated = OrderStatus.validated
from_chain (ChainStatus.rejected why) = OrderStatus.rejected

from_chain-rejected_for :
    (found : Option ChainReason) {c : ChainStatus}
    → rejected_for found ≡ some c
    → from_chain c ≡ OrderStatus.rejected
from_chain-rejected_for none h = cc
from_chain-rejected_for (some why) h = ap from_chain (some-injective _ _ (sym h))

from_chain-to_chain :
    (s : OrderStatus) (why : RejectReason) {c : ChainStatus}
    → to_chain s why ≡ some c
    → from_chain c ≡ s
from_chain-to_chain OrderStatus.awaiting_payment why h = ap from_chain (some-injective _ _ (sym h))
from_chain-to_chain OrderStatus.payment_detected why h = ap from_chain (some-injective _ _ (sym h))
from_chain-to_chain OrderStatus.validated why h = ap from_chain (some-injective _ _ (sym h))
from_chain-to_chain OrderStatus.rejected why h = from_chain-rejected_for (to_chain_reason why) h
from_chain-to_chain (OrderStatus.unnamed s) why h = cc

chain_transition-from_chain :
    (a b : ChainStatus) → chain_transition a b ≡ can_transition (from_chain a) (from_chain b)
unfolding chain_transition can_transition
chain_transition-from_chain ChainStatus.awaiting_payment ChainStatus.awaiting_payment = refl
chain_transition-from_chain ChainStatus.awaiting_payment ChainStatus.payment_detected = refl
chain_transition-from_chain ChainStatus.awaiting_payment ChainStatus.validated = refl
chain_transition-from_chain ChainStatus.awaiting_payment (ChainStatus.rejected why) = refl
chain_transition-from_chain ChainStatus.payment_detected ChainStatus.awaiting_payment = refl
chain_transition-from_chain ChainStatus.payment_detected ChainStatus.payment_detected = refl
chain_transition-from_chain ChainStatus.payment_detected ChainStatus.validated = refl
chain_transition-from_chain ChainStatus.payment_detected (ChainStatus.rejected why) = refl
chain_transition-from_chain ChainStatus.validated b = refl
chain_transition-from_chain (ChainStatus.rejected why) b = refl

-- The contract and the program allow the same moves: between the variants that two statuses name,
-- the contract allows a move exactly when the program's own state machine does.
pub chain_transition-can_transition :
    (s t : OrderStatus) (q r : RejectReason) (a b : ChainStatus)
    → to_chain s q ≡ some a
    → to_chain t r ≡ some b
    → chain_transition a b ≡ can_transition s t
chain_transition-can_transition s t q r a b h k =
    rw (sym (from_chain-to_chain s q h), sym (from_chain-to_chain t r k))
      (chain_transition-from_chain a b)
