-- ===== src/Contract/Writes.antt =====
-- The watcher's three calls against the contract itself: a network that neither loses a call nor
-- an answer, where a call that the contract refuses fails in its simulation, and
-- a call that needs an archived entry fails on the ledger.
pub mod Laws
use shopble_stellar.Common.{
  String, ◌≡◌, ◌≢◌, refl, ap, ◌∙◌, inl, inr, Bool, Bool-cases, true, false, not, Option,
  Option-cases, none, some, ◌==◌, string_eq, eq_iff, if◌then◌else◌,
}
use shopble_stellar.Common.Int.{ℤ}
use shopble_stellar.Models.Status.{OrderStatus, RejectReason, payment_detected, no_reason}
use shopble_stellar.Models.Order.{OrderIntent}
use shopble_stellar.Soroban.Call.{
  Outcome, ok, failed, Call, bad_account, bad_status, simulation_failed, failed_on_ledger,
}
use shopble_stellar.Watcher.Database.{Database}
use shopble_stellar.Watcher.Chain.{Chain, World, store_hash, write_chain}
use shopble_stellar.Contract.{
  ChainStatus, ChainOrder, Env, Answer, chain_transition, put_order, require_operator, store_new,
  register_order, move_order, record_status,
}
use shopble_stellar.Contract.Agreement.{to_chain}

-- The statuses that no call changes.
abbrev pub is_final : ChainStatus → Bool
is_final ChainStatus.awaiting_payment = false
is_final ChainStatus.payment_detected = false
is_final ChainStatus.validated = true
is_final (ChainStatus.rejected why) = true

abbrev accepts : Outcome String → Bool
accepts (ok hash) = true
accepts (failed e) = false

module _ {A : Type 0} where
  abbrev pub status_of : Option (ChainOrder A) → Option ChainStatus
  status_of none = none
  status_of (some o) = some o.status

  -- An order whose verdict the chain can still take.
  abbrev pub is_open : Option (ChainOrder A) → Bool
  is_open none = true
  is_open (some o) = not (is_final o.status)

  abbrev answered : {T : Type 0} → String → Answer T × Env A → Outcome String × Env A
  answered hash (Answer.ok t, env) = (ok hash, env)
  answered hash (Answer.err e, env) = (failed simulation_failed, env)

store_hash-net :
    {D S X : Type 0} (db : Database D S) (id : String) (r : Outcome String × X) (w : World S X)
    → ((store_hash db id r w).0 ≡ accepts r.0) × ((store_hash db id r w).1.net ≡ r.1)
unfolding store_hash
store_hash-net db id (ok hash, x) w = (refl, refl)
store_hash-net db id (failed e, x) w = (refl, refl)

-- The contract behind a client: how it reads wallets and amounts, hashes a memo and names its
-- transactions, who signs, and whether the entries that a call on a storage needs are live.
pub record Setup (D A : Type 0) : Type 0 where
  pub wallet : String → Option A
  pub stroops : D → ℤ
  pub memo_hash : String → String
  pub tx_hash : String
  pub signed : A → Bool
  pub live : Env A → Bool

module _ {D A : Type 0} (setup : Setup D A) where
  -- The client ignores the preamble with which the simulation answers about an archived entry, and
  -- the transaction fails on the ledger.
  abbrev pub on_host : Env A → Outcome String × Env A → Outcome String × Env A
  on_host env r = if setup.live env then r else (failed (failed_on_ledger setup.tx_hash), env)

  abbrev pub contract_create : OrderIntent D → Call (Env A) String
  contract_create order env = elim (setup.wallet order.buyer_wallet) [
    | none ↦ (failed bad_account, env)
    | some buyer ↦ on_host env (
        answered setup.tx_hash (
          register_order setup.signed order.id buyer (setup.stroops order.expected_amount)
            order.asset_code (setup.memo_hash order.memo) env))
  ]

  abbrev pub contract_status : String → OrderStatus → RejectReason → Call (Env A) String
  contract_status id s why env = elim (to_chain s why) [
    | none ↦ (failed bad_status, env)
    | some status ↦ on_host env (answered setup.tx_hash (record_status setup.signed id status env))
  ]

  abbrev pub contract_chain : Chain D (Env A)
  contract_chain = record { create_order = contract_create; set_status = contract_status }

  abbrev three_calls : OrderIntent D → OrderStatus → RejectReason → Call (Env A) String
  three_calls order status why env =
      let env1 = (contract_create order env).1 in
      let env2 = (contract_status order.id payment_detected no_reason env1).1 in
      contract_status order.id status why env2
