-- ===== src/Soroban/Value.antt =====
-- lib/libsoroban/scval.go
pub mod Laws
use shopble_stellar.Common.{ℕ, ◌+◌, ◌-◌, ◌%◌, ◌^◌, String, Option, none, some, List, [], ◌∷◌, ◌>>=◌}
use shopble_stellar.Common.Int.{ℤ, pos, negsuc}
use shopble_stellar.Models.Status.{
  OrderStatus, RejectReason, underpayment, wrong_asset, wrong_destination, wrong_buyer_wallet,
  invalid_memo, no_reason, awaiting_payment, payment_detected,
}
use shopble_stellar.Soroban.Sdk.{Xdr}

-- The words of `Int128Parts`: the sign, and `uint64(v)` for a number of 64 bits.
unfoldable pub high_word : ℤ → ℤ
high_word (pos n) = pos 0
high_word (negsuc n) = negsuc 0

unfoldable pub low_word : ℤ → ℕ
low_word (pos n) = n % 2 ^ 64
low_word (negsuc n) = 2 ^ 64 - 1 - n % 2 ^ 64

-- `rejectVariant`
unfoldable pub reject_variant : RejectReason → Option String
reject_variant underpayment = some "Underpayment"
reject_variant wrong_asset = some "WrongAsset"
reject_variant wrong_destination = some "WrongDestination"
reject_variant wrong_buyer_wallet = some "WrongBuyerWallet"
reject_variant invalid_memo = some "InvalidMemo"
reject_variant no_reason = none
reject_variant (RejectReason.unnamed s) = none

module _ {V A : Type 0} (xdr : Xdr V A) where
  abbrev pub sc_symbol : String → V
  sc_symbol s = xdr.symbol s

  abbrev pub sc_string : String → V
  sc_string s = xdr.string s

  abbrev pub sc_bytes : String → V
  sc_bytes b = xdr.bytes b

  unfoldable pub sc_i128 : ℤ → V
  unfolding high_word low_word
  sc_i128 v = xdr.i128 (high_word v) (low_word v)

  unfoldable pub sc_account : String → Option V
  sc_account addr = do aid ← xdr.address_to_account_id addr; some (xdr.account aid)

  abbrev pub sc_enum : String → List V → V
  sc_enum variant payload = xdr.vec (sc_symbol variant ∷ payload)

  -- `statusScVal`
  unfoldable pub status_sc_val : OrderStatus → RejectReason → Option V
  unfolding reject_variant
  status_sc_val awaiting_payment why = some (sc_enum "AwaitingPayment" [])
  status_sc_val payment_detected why = some (sc_enum "PaymentDetected" [])
  status_sc_val OrderStatus.validated why = some (sc_enum "Validated" [])
  status_sc_val OrderStatus.rejected why = do
    v ← reject_variant why
    some (sc_enum "Rejected" (sc_enum v [] ∷ []))
  status_sc_val (OrderStatus.unnamed s) why = none
