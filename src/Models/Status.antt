-- ===== src/Models/Status.antt =====
-- The string types of models/order_intent.go and models/payment_evidence.go with their constants.
-- A row may hold any string: `unnamed` is one that is no constant, and `no_reason` is "".
pub mod Laws
use shopble_stellar.Common.{
  String, Bool, true, false, ◌||◌, List, [], ◌∷◌, ◌==◌, string_eq, if◌then◌else◌,
}

pub data OrderStatus : Type 0 where
  awaiting_payment payment_detected validated rejected : OrderStatus
  unnamed : String → OrderStatus

pub data RejectReason : Type 0 where
  underpayment wrong_asset wrong_destination wrong_buyer_wallet invalid_memo no_reason :
      RejectReason
  unnamed : String → RejectReason

pub data Verdict : Type 0 where
  matched rejected duplicate : Verdict
  unnamed : String → Verdict

-- `string(row.Status)` and its likes.
abbrev pub status_text : OrderStatus → String
status_text awaiting_payment = "awaiting_payment"
status_text payment_detected = "payment_detected"
status_text validated = "validated"
status_text rejected = "rejected"
status_text (unnamed s) = s

abbrev pub reason_text : RejectReason → String
reason_text underpayment = "underpayment"
reason_text wrong_asset = "wrong_asset"
reason_text wrong_destination = "wrong_destination"
reason_text wrong_buyer_wallet = "wrong_buyer_wallet"
reason_text invalid_memo = "invalid_memo"
reason_text no_reason = ""
reason_text (unnamed s) = s

abbrev pub verdict_text : Verdict → String
verdict_text matched = "matched"
verdict_text rejected = "rejected"
verdict_text duplicate = "duplicate"
verdict_text (unnamed s) = s

-- `==` on these types.
abbrev pub status_beq : OrderStatus → OrderStatus → Bool
status_beq awaiting_payment awaiting_payment = true
status_beq payment_detected payment_detected = true
status_beq validated validated = true
status_beq rejected rejected = true
status_beq (unnamed s) (unnamed t) = s == t
status_beq _ _ = false

abbrev pub reason_beq : RejectReason → RejectReason → Bool
reason_beq underpayment underpayment = true
reason_beq wrong_asset wrong_asset = true
reason_beq wrong_destination wrong_destination = true
reason_beq wrong_buyer_wallet wrong_buyer_wallet = true
reason_beq invalid_memo invalid_memo = true
reason_beq no_reason no_reason = true
reason_beq (unnamed s) (unnamed t) = s == t
reason_beq _ _ = false

abbrev pub verdict_beq : Verdict → Verdict → Bool
verdict_beq matched matched = true
verdict_beq rejected rejected = true
verdict_beq duplicate duplicate = true
verdict_beq (unnamed s) (unnamed t) = s == t
verdict_beq _ _ = false

-- `AllRejectReasons`
abbrev pub all_reject_reasons : List RejectReason
all_reject_reasons =
    underpayment ∷ wrong_asset ∷ wrong_destination ∷ wrong_buyer_wallet ∷ invalid_memo ∷ []

reason_listed : RejectReason → List RejectReason → Bool
reason_listed r [] = false
reason_listed r (v ∷ vs) = reason_beq v r || reason_listed r vs

unfoldable pub valid_reject_reason : RejectReason → Bool
unfolding reason_listed
valid_reject_reason r = reason_listed r all_reject_reasons

-- `orderTransitions`: a status that is no key of the map has no edge.
unfoldable pub order_transitions : OrderStatus → List OrderStatus
order_transitions awaiting_payment = payment_detected ∷ []
order_transitions payment_detected = validated ∷ rejected ∷ []
order_transitions validated = []
order_transitions rejected = []
order_transitions (unnamed s) = []

status_listed : OrderStatus → List OrderStatus → Bool
status_listed to [] = false
status_listed to (allowed ∷ rest) = status_beq allowed to || status_listed to rest

unfoldable pub can_transition : OrderStatus → OrderStatus → Bool
unfolding status_listed order_transitions
can_transition from to = status_listed to (order_transitions from)

unfoldable pub order_final : OrderStatus → Bool
order_final s = status_beq s validated || status_beq s rejected
