-- ===== src/Contract/Calls.antt =====
-- What one call of the contract does to the status of an order.
use shopble_stellar.Common.{
  String, ◌≡◌, refl, sym, ap, ◌∙◌, inl, inr, Bool, Bool-cases, true, Option, Option-cases, none,
  some, ◌==◌, string_eq, eq_iff,
}
use mathlib.Core.Option.{some-injective}
use shopble_stellar.Contract.{
  ChainStatus, ChainOrder, ContractError, Env, chain_transition, require_operator, store_new,
  register_order, move_order, record_status,
}
use shopble_stellar.Contract.Laws.{ChainCall, registers, records, stopped, chain_call}

module _ {A : Type 0} (id : String) where
  -- What a call does to the status of the order: nothing, or it records the new one, and then the
  -- edge is allowed and the operator has signed.
  pub data Moves (operator : Option A) (c : ChainCall A) (s : ChainStatus)
      : ChainStatus → Type 0 where
    stays : Moves operator c s s
    moves :
        (signed : A → Bool) (a : A) (t : ChainStatus)
        → c ≡ records signed id t
        → chain_transition s t ≡ true
        → operator ≡ some a
        → signed a ≡ true
        → Moves operator c s t

  pub record Moved (c : ChainCall A) (s : ChainStatus) (env env' : Env A) : Type 0 where
    pub now : ChainOrder A
    pub here : env'.orders id ≡ some now
    pub move : Moves env.operator c s now.status
    pub operator : env'.operator ≡ env.operator

  Moved-same :
      (c : ChainCall A) (o : ChainOrder A) (env : Env A)
      → env.orders id ≡ some o
      → Moved c o.status env env
  Moved-same c o env here = record { now = o; here = here; move = stays; operator = refl }

  store_new-Moved :
      (c : ChainCall A) (key : String) (new : ChainOrder A) (old : Option (ChainOrder A))
      (env : Env A) (o : ChainOrder A)
      → env.orders key ≡ old
      → env.orders id ≡ some o
      → Moved c o.status env (store_new key new old env).1
  unfolding store_new
  store_new-Moved c key new (some old) env o stored here = Moved-same c o env here
  store_new-Moved c key new none env o stored here = elim (Bool-cases (key == id)) [
    | inl same ↦
        let key_id : key ≡ id = (eq_iff key id).0 same in
        absurd (cc (stored, here, ap env.orders key_id))
    | inr other ↦ record { now = o; here = rw other here; move = stays; operator = refl }
  ]

  operator_signed :
      (signed : A → Bool) (env : Env A)
      → require_operator signed env ≡ none
      → (a : A) × (env.operator ≡ some a) × (signed a ≡ true)
  unfolding require_operator
  operator_signed signed env h = elim (Option-cases env.operator) [
    | inl absent ↦
        let panic : require_operator signed env ≡ some ContractError.uninitialised =
          rw (require_operator, absent) refl in
        cc (panic, h)
    | inr (a, present) ↦ elim (Bool-cases (signed a)) [
      | inl yes_signed ↦ (a, present, yes_signed)
      | inr unsigned ↦
          let panic : require_operator signed env ≡ some ContractError.unauthorized =
            rw (require_operator, present, unsigned) refl in
          cc (panic, h)
    ]
  ]

  move_order-Moved :
      (signed : A → Bool) (a : A) (key : String) (t : ChainStatus) (old : Option (ChainOrder A))
      (env : Env A) (o : ChainOrder A)
      → env.orders key ≡ old
      → env.orders id ≡ some o
      → env.operator ≡ some a
      → signed a ≡ true
      → Moved (records signed key t) o.status env (move_order key t old env).1
  unfolding move_order
  move_order-Moved signed a key t none env o stored here present signs = Moved-same _ o env here
  move_order-Moved signed a key t (some old) env o stored here present signs =
      elim (Bool-cases (chain_transition old.status t)) [
        | inr refused ↦ rw (move_order, refused) (Moved-same _ o env here)
        | inl allowed ↦ elim (Bool-cases (key == id)) [
          | inr other ↦
              rw (move_order, allowed)
                (record { now = o; here = rw other here; move = stays; operator = refl })
          | inl same ↦
              let key_id : key ≡ id = (eq_iff key id).0 same in
              let same_row : old ≡ o =
                some-injective _ _ (sym stored ∙ ap env.orders key_id ∙ here) in
              rw (move_order, allowed)
                (record {
                  now = record old { status = t };
                  here = rw same refl;
                  move =
                      moves signed a t (ap (λ k. records signed k t) key_id)
                        (ap (λ (x : ChainOrder A). chain_transition x.status t) (sym same_row)
                          ∙ allowed)
                        present signs;
                  operator = refl;
                })
        ]
      ]

  pub chain_call-Moved :
      (c : ChainCall A) (env : Env A) (o : ChainOrder A)
      → env.orders id ≡ some o
      → Moved c o.status env (chain_call c env).1
  unfolding register_order record_status
  chain_call-Moved (registers signed key buyer amount asset hash) env o here =
      elim (Option-cases (require_operator signed env)) [
        | inl signed_by ↦
            rw (register_order, signed_by)
              (store_new-Moved (registers signed key buyer amount asset hash) key
                (record {
                  buyer = buyer;
                  expected_amount = amount;
                  asset = asset;
                  memo_hash = hash;
                  status = ChainStatus.awaiting_payment;
                })
                (env.orders key) env o refl here)
        | inr (panic, unsigned) ↦ rw (register_order, unsigned) (Moved-same _ o env here)
      ]
  chain_call-Moved (records signed key t) env o here =
      elim (Option-cases (require_operator signed env)) [
        | inl signed_by ↦
            let (a, present, signs) = operator_signed signed env signed_by in
            rw (record_status, signed_by)
              (move_order-Moved signed a key t (env.orders key) env o refl here present signs)
        | inr (panic, unsigned) ↦ rw (record_status, unsigned) (Moved-same _ o env here)
      ]
  chain_call-Moved stopped env o here = Moved-same stopped o env here
