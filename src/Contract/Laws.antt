-- ===== src/Contract/Laws.antt =====
-- What the contract promises of an order, whoever calls it and in whatever order.
use shopble_stellar.Common.{
  String, ◌≡◌, refl, sym, ap, ◌∙◌, inl, inr, Bool, Bool-cases, true, Option, Option-cases, none,
  some, List, [], ◌∷◌, ◌==◌, string_eq, eq_iff,
}
use mathlib.Core.Option.{some-injective}
use shopble_stellar.Common.Int.{ℤ}
use shopble_stellar.Contract.{
  ChainReason, ChainStatus, ChainOrder, Env, Answer, ContractError, chain_transition,
  require_operator, store_new, register_order, move_order, record_status,
}

-- The edges that the contract allows.
infix 40 ◌⟹◌ ◌⟹*◌
pub data ◌⟹◌ : ChainStatus → ChainStatus → Type 0 where
  detects : ChainStatus.awaiting_payment ⟹ ChainStatus.payment_detected
  validates : ChainStatus.payment_detected ⟹ ChainStatus.validated
  rejects : (why : ChainReason) → ChainStatus.payment_detected ⟹ ChainStatus.rejected why

pub data ◌⟹*◌ : ChainStatus → ChainStatus → Type 0 where
  stay : {s : ChainStatus} → s ⟹* s
  after : {s t u : ChainStatus} → s ⟹ t → t ⟹* u → s ⟹* u

pub ⟹*-trans : {s t u : ChainStatus} → s ⟹* t → t ⟹* u → s ⟹* u
⟹*-trans stay r = r
⟹*-trans (after e r) q = after e (⟹*-trans r q)

chain_transition-edge : (s t : ChainStatus) → chain_transition s t ≡ true → s ⟹ t
unfolding chain_transition
chain_transition-edge ChainStatus.awaiting_payment ChainStatus.payment_detected h = detects
chain_transition-edge ChainStatus.payment_detected ChainStatus.validated h = validates
chain_transition-edge ChainStatus.payment_detected (ChainStatus.rejected why) h = rejects why
chain_transition-edge ChainStatus.awaiting_payment ChainStatus.awaiting_payment h = cc
chain_transition-edge ChainStatus.awaiting_payment ChainStatus.validated h = cc
chain_transition-edge ChainStatus.awaiting_payment (ChainStatus.rejected why) h = cc
chain_transition-edge ChainStatus.payment_detected ChainStatus.awaiting_payment h = cc
chain_transition-edge ChainStatus.payment_detected ChainStatus.payment_detected h = cc
chain_transition-edge ChainStatus.validated t h = cc
chain_transition-edge (ChainStatus.rejected why) t h = cc

-- A call of the contract, with who has signed it, or one that the host stops since an entry that it
-- needs is archived.
pub data ChainCall (A : Type 0) : Type 0 where
  registers : (A → Bool) → String → A → ℤ → String → String → ChainCall A
  records : (A → Bool) → String → ChainStatus → ChainCall A
  stopped : ChainCall A

module _ {A : Type 0} where
  abbrev pub chain_call : ChainCall A → Env A → Answer (Unit {0}) × Env A
  chain_call (registers signed id buyer amount asset hash) env =
      register_order signed id buyer amount asset hash env
  chain_call (records signed id status) env = record_status signed id status env
  chain_call stopped env = (Answer.err ContractError.archived, env)

  abbrev pub contract_calls : List (ChainCall A) → Env A → Env A
  contract_calls [] env = env
  contract_calls (c ∷ calls) env = contract_calls calls (chain_call c env).1

  -- Where an order may go: it stays, its status follows the edges, and its terms do not change.
  pub record Follows (o : ChainOrder A) (found : Option (ChainOrder A)) : Type 0 where
    pub now : ChainOrder A
    pub here : found ≡ some now
    pub path : o.status ⟹* now.status
    pub buyer : now.buyer ≡ o.buyer
    pub amount : now.expected_amount ≡ o.expected_amount
    pub asset : now.asset ≡ o.asset
    pub memo : now.memo_hash ≡ o.memo_hash

  Follows-refl :
      (o : ChainOrder A) (found : Option (ChainOrder A)) → found ≡ some o → Follows o found
  Follows-refl o found h = record {
    now = o;
    here = h;
    path = stay;
    buyer = refl;
    amount = refl;
    asset = refl;
    memo = refl;
  }

  Follows-trans :
      {o : ChainOrder A} {found later : Option (ChainOrder A)}
      → (f : Follows o found) → Follows f.now later
      → Follows o later
  Follows-trans f g = record {
    now = g.now;
    here = g.here;
    path = ⟹*-trans f.path g.path;
    buyer = g.buyer ∙ f.buyer;
    amount = g.amount ∙ f.amount;
    asset = g.asset ∙ f.asset;
    memo = g.memo ∙ f.memo;
  }

  module _ (id : String) (o : ChainOrder A) where
    store_new-Follows :
        (key : String) (new : ChainOrder A) (old : Option (ChainOrder A)) (env : Env A)
        → env.orders key ≡ old
        → env.orders id ≡ some o
        → Follows o ((store_new key new old env).1.orders id)
    unfolding store_new
    store_new-Follows key new (some old) env stored here = Follows-refl o _ here
    store_new-Follows key new none env stored here = elim (Bool-cases (key == id)) [
      | inl same ↦
          let key_id : key ≡ id = (eq_iff key id).0 same in
          absurd (cc (stored, here, ap env.orders key_id))
      | inr other ↦ Follows-refl o _ (rw other here)
    ]

    move_order-Follows :
        (key : String) (status : ChainStatus) (old : Option (ChainOrder A)) (env : Env A)
        → env.orders key ≡ old
        → env.orders id ≡ some o
        → Follows o ((move_order key status old env).1.orders id)
    unfolding move_order
    move_order-Follows key status none env stored here = Follows-refl o _ here
    move_order-Follows key status (some old) env stored here =
        elim (Bool-cases (chain_transition old.status status)) [
          | inl allowed ↦ elim (Bool-cases (key == id)) [
            | inl same ↦
                let key_id : key ≡ id = (eq_iff key id).0 same in
                let same_row : old ≡ o =
                  some-injective _ _ (sym stored ∙ ap env.orders key_id ∙ here) in
                record {
                  now = record old { status = status };
                  here = rw (move_order, allowed, same) refl;
                  path =
                      after
                        (chain_transition-edge o.status status (
                          ap (λ (x : ChainOrder A). chain_transition x.status status) (sym same_row)
                          ∙ allowed))
                        stay;
                  buyer = ap (λ (x : ChainOrder A). x.buyer) same_row;
                  amount = ap (λ (x : ChainOrder A). x.expected_amount) same_row;
                  asset = ap (λ (x : ChainOrder A). x.asset) same_row;
                  memo = ap (λ (x : ChainOrder A). x.memo_hash) same_row;
                }
            | inr other ↦ Follows-refl o _ (rw (move_order, allowed, other) here)
          ]
          | inr refused ↦ Follows-refl o _ (rw (move_order, refused) here)
        ]

    chain_call-Follows :
        (c : ChainCall A) (env : Env A)
        → env.orders id ≡ some o
        → Follows o ((chain_call c env).1.orders id)
    unfolding register_order record_status
    chain_call-Follows (registers signed key buyer amount asset hash) env here =
        elim (Option-cases (require_operator signed env)) [
          | inl signed_by ↦
              rw (register_order, signed_by)
                (store_new-Follows key
                  (record {
                    buyer = buyer;
                    expected_amount = amount;
                    asset = asset;
                    memo_hash = hash;
                    status = ChainStatus.awaiting_payment;
                  })
                  (env.orders key) env refl here)
          | inr (panic, unsigned) ↦ rw (register_order, unsigned) (Follows-refl o _ here)
        ]
    chain_call-Follows (records signed key status) env here =
        elim (Option-cases (require_operator signed env)) [
          | inl signed_by ↦
              rw (record_status, signed_by)
                (move_order-Follows key status (env.orders key) env refl here)
          | inr (panic, unsigned) ↦ rw (record_status, unsigned) (Follows-refl o _ here)
        ]
    chain_call-Follows stopped env here = Follows-refl o _ here

  -- An order that the contract has stored stays stored through any calls by anybody, also those that
  -- the host stops while entries are archived: its status has only
  -- followed the edges awaiting, detected, validated or rejected, and its buyer, amount, asset
  -- and memo hash are the same.
  pub contract_calls-Follows :
      (id : String) (o : ChainOrder A) (calls : List (ChainCall A)) (env : Env A)
      → env.orders id ≡ some o
      → Follows o ((contract_calls calls env).orders id)
  contract_calls-Follows id o [] env here = Follows-refl o _ here
  contract_calls-Follows id o (c ∷ calls) env here =
      let first = chain_call-Follows id o c env here in
      Follows-trans first
        (contract_calls-Follows id first.now calls (chain_call c env).1 first.here)
