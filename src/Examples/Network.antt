-- ===== src/Examples/Network.antt =====
-- A configuration of the test network and a contract client on it, for the tests of the Stellar
-- libraries.
use shopble_stellar.Common.{ℕ, String, ◌≡◌, refl, ◌↔◌, ◌⊎◌, some, List, [], string_eq}
use shopble_stellar.Stellar.Config.{StellarConfig, testnet_passphrase, with_defaults, load_config}
use shopble_stellar.Stellar.Config.Laws.{IsTestnet, load_config-IsTestnet_iff}
use shopble_stellar.Soroban.Sdk.{Sent}
use shopble_stellar.Soroban.Client.{Client, invoke, submit, wait_ledger}
use shopble_stellar.Soroban.Client.Laws.{Submitted, invoke-ok}
use shopble_stellar.Examples.Values.{Value, toolkit, server}

abbrev pub decoded : StellarConfig
decoded = record {
  horizon_url = "";
  soroban_rpc_url = "";
  network_passphrase = "";
  asset_code = "USDC";
  asset_issuer = "GI";
  destination_account = "GD";
  contract_id = "";
  operator_secret_env_var = "";
}

load_config_example : (load_config decoded ≡ some (with_defaults decoded)) ↔ (
    IsTestnet (with_defaults decoded)
    × (with_defaults decoded ≡ with_defaults decoded)
    × ((decoded.network_passphrase ≡ "") ⊎ (decoded.network_passphrase ≡ testnet_passphrase)))
load_config_example = load_config-IsTestnet_iff decoded (with_defaults decoded)

abbrev operator : Client String String
operator = record { url = ""; kp = "SECRET"; contract = "CC"; passphrase = testnet_passphrase }

abbrev no_args : List Value
no_args = []

invoke_example :
    (sent : Sent) × (y : ℕ) × Submitted toolkit server operator "f" no_args sent y
    × (sent.hash ≡ "h1")
    × ((z : ℕ) × (server.get_transaction sent.hash z ≡ (some "SUCCESS", 1)))
unfolding invoke submit wait_ledger
invoke_example = invoke-ok toolkit server operator "f" no_args 0 refl
