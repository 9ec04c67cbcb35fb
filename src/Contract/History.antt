-- ===== src/Contract/History.antt =====
-- What must have been called before an order is fulfilment-eligible on the chain.
use shopble_stellar.Common.{
  String, ◌≡◌, refl, sym, ap, ◌∙◌, subst, ◌⊎◌, inl, inr, Bool, true, Option, some, List, [], ◌∷◌,
  string_eq,
}
use shopble_stellar.Contract.{
  ChainReason, ChainStatus, ChainOrder, Env, chain_transition, is_validated, fulfillable,
  is_fulfillable,
}
use shopble_stellar.Contract.Laws.{
  detects, validates, rejects, ◌⟹*◌, stay, after, ChainCall, records, chain_call, contract_calls,
  contract_calls-Follows,
}
use shopble_stellar.Contract.Calls.{Moves, stays, moves, chain_call-Moved}

rejected-stays :
    {s t : ChainStatus} (why : ChainReason) → s ⟹* t → s ≡ ChainStatus.rejected why → t ≡ s
rejected-stays why stay h = refl
rejected-stays why (after detects r) h = cc
rejected-stays why (after validates r) h = cc
rejected-stays why (after (rejects other) r) h = cc

-- A recorded status after `payment_detected` is final.
after_detected :
    (t : ChainStatus)
    → chain_transition ChainStatus.payment_detected t ≡ true
    → (t ≡ ChainStatus.validated) ⊎ ((why : ChainReason) × (t ≡ ChainStatus.rejected why))
unfolding chain_transition
after_detected ChainStatus.validated h = inl refl
after_detected (ChainStatus.rejected why) h = inr (why, refl)
after_detected ChainStatus.awaiting_payment h = cc
after_detected ChainStatus.payment_detected h = cc

after_awaiting :
    (t : ChainStatus)
    → chain_transition ChainStatus.awaiting_payment t ≡ true
    → t ≡ ChainStatus.payment_detected
unfolding chain_transition
after_awaiting ChainStatus.payment_detected h = refl
after_awaiting ChainStatus.awaiting_payment h = cc
after_awaiting ChainStatus.validated h = cc
after_awaiting (ChainStatus.rejected why) h = cc

module _ {A : Type 0} (id : String) where
  -- The verdict `validated` is recorded with the operator's signature.
  pub data Validates (operator : Option A) : List (ChainCall A) → Type 0 where
    validates_now :
        (signed : A → Bool) (a : A) (calls : List (ChainCall A))
        → operator ≡ some a
        → signed a ≡ true
        → Validates operator (records signed id ChainStatus.validated ∷ calls)
    validates_later :
        (c : ChainCall A) (calls : List (ChainCall A))
        → Validates operator calls
        → Validates operator (c ∷ calls)

  -- A detected payment is recorded with the operator's signature, and `validated` after it.
  pub data Detects (operator : Option A) : List (ChainCall A) → Type 0 where
    detects_now :
        (signed : A → Bool) (a : A) (calls : List (ChainCall A))
        → operator ≡ some a
        → signed a ≡ true
        → Validates operator calls
        → Detects operator (records signed id ChainStatus.payment_detected ∷ calls)
    detects_later :
        (c : ChainCall A) (calls : List (ChainCall A))
        → Detects operator calls
        → Detects operator (c ∷ calls)

  Recorded : Option A → ChainCall A → ChainStatus → ChainStatus → Type 0
  Recorded operator c s t =
      (signed : A → Bool) × (a : A) × (c ≡ records signed id t)
      × (chain_transition s t ≡ true)
      × (operator ≡ some a)
      × (signed a ≡ true)

  Moves-cases :
      {operator : Option A} {c : ChainCall A} {s t : ChainStatus}
      → Moves id operator c s t
      → (t ≡ s) ⊎ Recorded operator c s t
  unfolding Recorded
  Moves-cases stays = inl refl
  Moves-cases (moves signed a t same allowed present signs) =
      inr (signed, a, same, allowed, present, signs)

  is_fulfillable-validated :
      (env : Env A) (o : ChainOrder A)
      → env.orders id ≡ some o
      → is_fulfillable id env ≡ true
      → is_validated o.status ≡ true
  unfolding is_fulfillable fulfillable
  is_fulfillable-validated env o here h =
      let read : is_fulfillable id env ≡ is_validated o.status = rw here refl in sym read ∙ h

  rejected-unfulfillable :
      (calls : List (ChainCall A)) (env : Env A) (o : ChainOrder A) (why : ChainReason)
      → env.orders id ≡ some o
      → o.status ≡ ChainStatus.rejected why
      → is_fulfillable id (contract_calls calls env) ≡ true
      → ⊥
  rejected-unfulfillable calls env o why here is_rejected h =
      let f = contract_calls-Follows id o calls env here in
      let still : f.now.status ≡ ChainStatus.rejected why =
        rejected-stays why f.path is_rejected ∙ is_rejected in
      let fulfilled = is_fulfillable-validated (contract_calls calls env) f.now f.here h in
      cc (ap is_validated still, fulfilled)

  detected-Validates :
      (calls : List (ChainCall A)) (env : Env A) (o : ChainOrder A)
      → env.orders id ≡ some o
      → o.status ≡ ChainStatus.payment_detected
      → is_fulfillable id (contract_calls calls env) ≡ true
      → Validates env.operator calls
  unfolding Recorded
  detected-Validates [] env o here detected h =
      cc (ap is_validated (sym detected), is_fulfillable-validated env o here h)
  detected-Validates (c ∷ calls) env o here detected h =
      let m = chain_call-Moved id c env o here in
      elim (Moves-cases m.move) [
        | inl same ↦ validates_later c calls (
            subst (λ a. Validates a calls) m.operator
              (detected-Validates calls (chain_call c env).1 m.now m.here (same ∙ detected) h))
        | inr (signed, a, recorded, allowed, present, signs) ↦
            elim (after_detected m.now.status
              (ap (λ s. chain_transition s m.now.status) (sym detected) ∙ allowed)) [
                | inl final ↦
                    subst (λ k. Validates env.operator (k ∷ calls))
                      (sym (recorded ∙ ap (records signed id) final))
                      (validates_now signed a calls present signs)
                | inr (why, final) ↦
                    absurd
                      (rejected-unfulfillable calls (chain_call c env).1 m.now why m.here final h)
              ]
      ]

  -- An order that waits for its payment is fulfilment-eligible after some calls only if the operator
  -- has signed, in this order, a call that records its payment as detected and one that records it
  -- as validated.
  pub fulfillable-Detects :
      (calls : List (ChainCall A)) (env : Env A) (o : ChainOrder A)
      → env.orders id ≡ some o
      → o.status ≡ ChainStatus.awaiting_payment
      → is_fulfillable id (contract_calls calls env) ≡ true
      → Detects env.operator calls
  unfolding Recorded
  fulfillable-Detects [] env o here awaiting h =
      cc (ap is_validated (sym awaiting), is_fulfillable-validated env o here h)
  fulfillable-Detects (c ∷ calls) env o here awaiting h =
      let m = chain_call-Moved id c env o here in
      elim (Moves-cases m.move) [
        | inl same ↦ detects_later c calls (
            subst (λ a. Detects a calls) m.operator
              (fulfillable-Detects calls (chain_call c env).1 m.now m.here (same ∙ awaiting) h))
        | inr (signed, a, recorded, allowed, present, signs) ↦
            let seen =
              after_awaiting m.now.status
                (ap (λ s. chain_transition s m.now.status) (sym awaiting) ∙ allowed) in
            subst (λ k. Detects env.operator (k ∷ calls))
              (sym (recorded ∙ ap (records signed id) seen))
              (detects_now signed a calls present signs (
                subst (λ b. Validates b calls) m.operator
                  (detected-Validates calls (chain_call c env).1 m.now m.here seen h)))
      ]
