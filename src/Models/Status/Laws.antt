-- ===== src/Models/Status/Laws.antt =====
-- The order state machine as a step relation, and the closed list of reject reasons.
use shopble_stellar.Common.{String, ◌≡◌, refl, ◌≢◌, true, false, ◌↔◌, arith, eq_iff}
use shopble_stellar.Models.Status.{
  OrderStatus, RejectReason, awaiting_payment, payment_detected, status_beq, reason_beq,
  valid_reject_reason, can_transition, order_final, verdict_beq, Verdict, no_reason,
}

-- One edge of the diagram awaiting_payment → payment_detected → validated | rejected.
infix 40 ◌⟶◌ ◌⟶*◌
pub data ◌⟶◌ : OrderStatus → OrderStatus → Type 0 where
  detect : awaiting_payment ⟶ payment_detected
  accept : payment_detected ⟶ OrderStatus.validated
  refuse : payment_detected ⟶ OrderStatus.rejected

pub data ◌⟶*◌ : OrderStatus → OrderStatus → Type 0 where
  here : {s : OrderStatus} → s ⟶* s
  then : {s t u : OrderStatus} → s ⟶ t → t ⟶* u → s ⟶* u

pub ruleset edges = (detect, accept, refuse)

⟶-can_transition : {s t : OrderStatus} → s ⟶ t → can_transition s t ≡ true
unfolding can_transition
⟶-can_transition detect = refl
⟶-can_transition accept = refl
⟶-can_transition refuse = refl

can_transition-edge : (s t : OrderStatus) → can_transition s t ≡ true → s ⟶ t
unfolding can_transition
can_transition-edge s t h = grind (arith, edges)

-- `CanTransition` answers true for the edges of the diagram and for no other pair.
pub can_transition-⟶ : (s t : OrderStatus) → (can_transition s t ≡ true) ↔ (s ⟶ t)
can_transition-⟶ s t = (can_transition-edge s t, ⟶-can_transition)

final-stuck :
    (s : OrderStatus) → order_final s ≡ true → (t : OrderStatus) → can_transition s t ≡ false
unfolding can_transition order_final
final-stuck s h t = ground arith

final-⟶* : (s : OrderStatus) → order_final s ≡ true → awaiting_payment ⟶* s
unfolding order_final
final-⟶* OrderStatus.validated h = then detect (then accept here)
final-⟶* OrderStatus.rejected h = then detect (then refuse here)
final-⟶* awaiting_payment h = cc
final-⟶* payment_detected h = cc
final-⟶* (OrderStatus.unnamed s) h = cc

stuck-final :
    {s : OrderStatus}
    → awaiting_payment ⟶* s
    → ((t : OrderStatus) → can_transition s t ≡ false)
    → order_final s ≡ true
unfolding can_transition order_final
stuck-final here stuck = cc (stuck payment_detected)
stuck-final (then detect here) stuck = cc (stuck OrderStatus.validated)
stuck-final (then detect (then accept here)) stuck = refl
stuck-final (then detect (then refuse here)) stuck = refl
stuck-final (then detect (then accept (then e r))) stuck = elim e [ ]
stuck-final (then detect (then refuse (then e r))) stuck = elim e [ ]

-- `OrderFinal` holds of exactly those statuses that the diagram reaches from `awaiting_payment` and
-- that `CanTransition` lets out to no status.
pub order_final-stuck_iff :
    (s : OrderStatus)
    → (order_final s ≡ true)
      ↔ ((awaiting_payment ⟶* s) × ((t : OrderStatus) → can_transition s t ≡ false))
order_final-stuck_iff s = (λ h. (final-⟶* s h, final-stuck s h), λ h. stuck-final h.0 h.1)

-- `ValidRejectReason` accepts every reason but "" and the strings that are no constant.
pub valid_reject_reason_iff :
    (r : RejectReason)
    → (valid_reject_reason r ≡ true)
      ↔ ((r ≢ no_reason) × ((s : String) → r ≢ RejectReason.unnamed s))
unfolding valid_reject_reason
valid_reject_reason_iff (RejectReason.unnamed s) = (λ h. cc, λ h. absurd (h.1 s refl))
valid_reject_reason_iff no_reason = (λ h. cc, λ h. absurd (h.0 refl))
valid_reject_reason_iff r = (λ h. (λ e. cc, λ s e. cc), λ h. refl)

pub status_beq_iff : (s t : OrderStatus) → (status_beq s t ≡ true) ↔ (s ≡ t)
status_beq_iff (OrderStatus.unnamed s) (OrderStatus.unnamed t) = ground (arith, eq_iff s t)
status_beq_iff s t = ground arith

pub reason_beq_iff : (s t : RejectReason) → (reason_beq s t ≡ true) ↔ (s ≡ t)
reason_beq_iff (RejectReason.unnamed s) (RejectReason.unnamed t) = ground (arith, eq_iff s t)
reason_beq_iff s t = ground arith

pub verdict_beq_iff : (s t : Verdict) → (verdict_beq s t ≡ true) ↔ (s ≡ t)
verdict_beq_iff (Verdict.unnamed s) (Verdict.unnamed t) = ground (arith, eq_iff s t)
verdict_beq_iff s t = ground arith
