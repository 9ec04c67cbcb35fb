-- ===== src/Contract.antt =====
-- contracts/order-status/src/lib.rs, the contract that keeps the verdicts on the chain. The Soroban
-- host is the storage of `Env`, and `require_auth` is the answer whether an address has signed.
pub mod Laws
pub mod Agreement
pub mod Writes
pub mod Calls
pub mod History
use shopble_stellar.Common.{
  ℕ, String, Bool, true, false, not, Option, none, some, ◌==◌, string_eq, if◌then◌else◌,
}
use shopble_stellar.Common.Int.{ℤ}

pub data ChainReason : Type 0 where
  underpayment wrong_asset wrong_destination wrong_buyer_wallet invalid_memo : ChainReason

pub data ChainStatus : Type 0 where
  awaiting_payment payment_detected validated : ChainStatus
  rejected : ChainReason → ChainStatus

pub record ChainOrder (A : Type 0) : Type 0 where
  pub buyer : A
  pub expected_amount : ℤ
  pub asset : String
  pub memo_hash : String
  pub status : ChainStatus

-- `unauthorized` and `uninitialised` are the panics of `require_auth` and `expect`; with `archived`
-- the host stops a call, before the contract runs, that needs an entry which has to be restored first.
pub data ContractError : Type 0 where
  already_exists not_found invalid_transition unauthorized uninitialised archived : ContractError

-- What is stored. The network archives an entry some time after its last write, about 7 days, and
-- it cannot be read or written then until somebody restores it, as it was; the functions below are
-- the calls for which the entries that they need are live.
pub record Env (A : Type 0) : Type 0 where
  pub operator : Option A
  pub orders : String → Option (ChainOrder A)

pub data Answer {ℓ} (T : Type ℓ) : Type ℓ where
  ok : T → Answer T
  err : ContractError → Answer T

-- `can_transition`
unfoldable pub chain_transition : ChainStatus → ChainStatus → Bool
chain_transition awaiting_payment payment_detected = true
chain_transition payment_detected validated = true
chain_transition payment_detected (rejected why) = true
chain_transition _ _ = false

abbrev pub is_validated : ChainStatus → Bool
is_validated validated = true
is_validated _ = false

module _ {A : Type 0} where
  abbrev pub put_order :
      String → ChainOrder A → (String → Option (ChainOrder A)) → String → Option (ChainOrder A)
  put_order key order orders k = if key == k then some order else orders k

  -- `__constructor`
  abbrev pub construct : A → Env A → Env A
  construct operator env = record env { operator = some operator }

  -- `operator(&env).require_auth()`
  unfoldable pub require_operator : (A → Bool) → Env A → Option ContractError
  require_operator signed env = elim (env.operator) [
    | none ↦ some uninitialised
    | some operator ↦ if signed operator then none else some unauthorized
  ]

  store_new : String → ChainOrder A → Option (ChainOrder A) → Env A → Answer (Unit {0}) × Env A
  store_new order_id order (some old) env = (err already_exists, env)
  store_new order_id order none env =
      (ok tt, record env { orders = put_order order_id order env.orders })

  -- `create_order`
  unfoldable pub register_order :
      (A → Bool) → String → A → ℤ → String → String → Env A → Answer (Unit {0}) × Env A
  unfolding store_new
  register_order signed order_id buyer expected_amount asset memo_hash env =
      elim (require_operator signed env) [
        | some panic ↦ (err panic, env)
        | none ↦
            store_new order_id
              (record {
                buyer = buyer;
                expected_amount = expected_amount;
                asset = asset;
                memo_hash = memo_hash;
                status = awaiting_payment;
              })
              (env.orders order_id) env
      ]

  unfoldable pub move_order :
      String → ChainStatus → Option (ChainOrder A) → Env A → Answer (Unit {0}) × Env A
  move_order order_id status none env = (err not_found, env)
  move_order order_id status (some order) env =
      if not (chain_transition order.status status) then (err invalid_transition, env) else (
        ok tt,
        record env { orders = put_order order_id (record order { status = status }) env.orders },
      )

  -- `set_status`
  unfoldable pub record_status :
      (A → Bool) → String → ChainStatus → Env A → Answer (Unit {0}) × Env A
  unfolding move_order
  record_status signed order_id status env = elim (require_operator signed env) [
    | some panic ↦ (err panic, env)
    | none ↦ move_order order_id status (env.orders order_id) env
  ]

  found_on_chain : Option (ChainOrder A) → Answer (ChainOrder A)
  found_on_chain none = err not_found
  found_on_chain (some order) = ok order

  -- `get_order`
  unfoldable pub read_order : String → Env A → Answer (ChainOrder A)
  unfolding found_on_chain
  read_order order_id env = found_on_chain (env.orders order_id)

  unfoldable pub fulfillable : Option (ChainOrder A) → Bool
  fulfillable none = false
  fulfillable (some o) = is_validated o.status

  -- `is_fulfillable`
  unfoldable pub is_fulfillable : String → Env A → Bool
  unfolding fulfillable
  is_fulfillable order_id env = fulfillable (env.orders order_id)

  -- `get_operator`
  abbrev pub get_operator : Env A → Option A
  get_operator env = env.operator
