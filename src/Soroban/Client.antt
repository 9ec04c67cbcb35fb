-- ===== src/Soroban/Client.antt =====
-- lib/libsoroban/client.go
pub mod Laws
use Prim.Native.String.{len}
use shopble_stellar.Common.{
  ℕ, zero, suc, ◌+◌, String, Bool, true, false, not, Option, none, some, List, [], ◌∷◌, ◌==◌,
  string_eq, if◌then◌else◌,
}
use shopble_stellar.Common.Int.{ℤ}
use shopble_stellar.Decimal.{Decimal}
use shopble_stellar.Models.Status.{OrderStatus, RejectReason}
use shopble_stellar.Models.Order.{OrderIntent}
use shopble_stellar.Stellar.Config.{StellarConfig}
use shopble_stellar.Stellar.Instruction.{stellar_decimals}
use shopble_stellar.Soroban.Sdk.{Xdr, Sdk, Rpc, Simulation, Sent}
use shopble_stellar.Soroban.Value.{sc_string, sc_bytes, sc_i128, sc_account, status_sc_val}
use shopble_stellar.Soroban.Call.{
  InvokeError, bad_account, bad_status, no_account, no_sequence, not_built, not_encoded,
  not_simulated, simulation_failed, bad_data, bad_entry, not_signed, not_sent, send_refused,
  context_done, failed_on_ledger, timed_out, Outcome, ok, failed, Call, ◌>>=◌, give, or_fail, ask,
}

-- The client's fields; `rpc` is the server that the operations take.
pub record Client (C K : Type 0) : Type 0 where
  pub url : String
  pub kp : K
  pub contract : C
  pub passphrase : String

pub data ClientError : Type 0 where
  env_var_missing secret_missing secret_invalid contract_invalid : ClientError

-- `New`: no client is no error.
pub data Made (C K : Type 0) : Type 0 where
  no_contract : Made C K
  client : Client C K → Made C K
  refused : ClientError → Made C K

module _ {V C K T R U : Type 0} (sdk : Sdk V C K T R U) where
  make : StellarConfig → Option K → Option C → Made C K
  make cfg none contract = refused secret_invalid
  make cfg (some kp) none = refused contract_invalid
  make cfg (some kp) (some contract) = client (record {
    url = cfg.soroban_rpc_url;
    kp = kp;
    contract = contract;
    passphrase = cfg.network_passphrase;
  })

  -- `New`
  unfoldable pub new : StellarConfig → Made C K
  unfolding make
  new cfg =
      if cfg.contract_id == ""
      then no_contract
      else if cfg.operator_secret_env_var == ""
      then refused env_var_missing
      else if sdk.getenv cfg.operator_secret_env_var == ""
      then refused secret_missing
      else make cfg (sdk.parse_full (sdk.getenv cfg.operator_secret_env_var))
          (sdk.decode_contract cfg.contract_id)

  -- `OperatorAddress`
  abbrev pub operator_address : Client C K → String
  operator_address c = sdk.address_of c.kp

  -- `MemoHash`
  abbrev pub memo_hash : String → String
  memo_hash memo = sdk.sha256 memo

  -- The closure `build` of `invoke`.
  abbrev pub build : Client C K → ℤ → String → List V → ℕ → Option R → List U → Option T
  build c seq fn args fee resources entries =
      sdk.new_transaction (operator_address c) seq fee resources entries c.contract fn args

  decode_entries : List String → Option (List U)
  decode_entries [] = some []
  decode_entries (entry ∷ rest) = elim (sdk.decode_entry entry) [
    | none ↦ none
    | some e ↦ elim (decode_entries rest) [ none ↦ none | some es ↦ some (e ∷ es) ]
  ]

  -- The entries of the first result, if there is one and it has any.
  auth_of : List (Option (List String)) → Option (List U)
  unfolding decode_entries
  auth_of [] = some []
  auth_of (none ∷ rest) = some []
  auth_of (some entries ∷ rest) = decode_entries entries

  module _ {X : Type 0} (rpc : Rpc X) where
    -- One answer of the server about the transaction; `none` is to ask again.
    abbrev pub verdict : String → Option String → Option (Outcome String)
    verdict hash none = none
    verdict hash (some status) =
        if status == "SUCCESS"
        then some (ok hash)
        else if status == "FAILED"
        then some (failed (failed_on_ledger hash))
        else none

    -- The loop over `i`, with the rounds that are left.
    unfoldable pub wait_ledger : ℕ → String → Call X String
    wait_ledger zero hash x = (failed (timed_out hash), x)
    wait_ledger (suc n) hash x = elim ((rpc.wait_second x).0) [
      | true ↦ (failed (context_done hash), (rpc.wait_second x).1)
      | false ↦ elim (verdict hash (rpc.get_transaction hash (rpc.wait_second x).1).0) [
        | some answer ↦ (answer, (rpc.get_transaction hash (rpc.wait_second x).1).1)
        | none ↦ wait_ledger n hash (rpc.get_transaction hash (rpc.wait_second x).1).1
      ]
    ]

    checked : Simulation → Call X Simulation
    checked sim x = if not (sim.error == "") then (failed simulation_failed, x) else (ok sim, x)

    accepted : Sent → Call X Sent
    accepted sent x = if sent.status == "ERROR" then (failed send_refused, x) else (ok sent, x)

    -- Up to the answer of the server to the signed transaction.
    unfoldable pub submit : Client C K → String → List V → Call X Sent
    unfolding checked accepted auth_of
    submit c fn args = do
      acct ← ask no_account (rpc.load_account (operator_address c))
      seq ← or_fail no_sequence acct
      tx ← or_fail not_built (build c seq fn args sdk.min_base_fee none [])
      raw ← or_fail not_encoded (sdk.base64 tx)
      answer ← ask not_simulated (rpc.simulate_transaction raw)
      sim ← checked answer
      resources ← or_fail bad_data (sdk.decode_data sim.transaction_data)
      entries ← or_fail bad_entry (auth_of sim.results)
      signing ←
          or_fail not_built
            (build c seq fn args (sdk.min_base_fee + sim.min_resource_fee) (some resources) entries)
      signed ← or_fail not_signed (sdk.sign c.passphrase c.kp signing)
      envelope ← or_fail not_encoded (sdk.base64 signed)
      sent ← ask not_sent (rpc.send_transaction envelope)
      accepted sent

    -- `invoke`
    unfoldable pub invoke : Client C K → String → List V → Call X String
    invoke c fn args = do sent ← submit c fn args; wait_ledger 30 sent.hash

    module _ {A D : Type 0} (xdr : Xdr V A) (dec : Decimal D) where
      -- `CreateOrder`
      unfoldable pub create_order : Client C K → OrderIntent D → Call X String
      create_order c order = do
        buyer ← or_fail bad_account (sc_account xdr order.buyer_wallet)
        invoke c "create_order" (
            sc_string xdr order.id
            ∷ buyer
            ∷ sc_i128 xdr (dec.int_part (dec.shift stellar_decimals order.expected_amount))
            ∷ sc_string xdr order.asset_code
            ∷ sc_bytes xdr (memo_hash order.memo)
            ∷ [])

    -- `SetStatus`
    unfoldable pub set_status :
        {A : Type 0} → Xdr V A → Client C K → String → OrderStatus → RejectReason → Call X String
    set_status xdr c order_id s why = do
      status ← or_fail bad_status (status_sc_val xdr s why)
      invoke c "set_status" (sc_string xdr order_id ∷ status ∷ [])
