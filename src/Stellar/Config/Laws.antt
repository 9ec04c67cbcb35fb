-- ===== src/Stellar/Config/Laws.antt =====
-- The gate that keeps the program on the test network.
use shopble_stellar.Common.{◌≡◌, ◌≢◌, ◌⊎◌, ◌↔◌, false, none, some, arith, eq_iff}
use shopble_stellar.Stellar.Text.{contains, to_lower}
use shopble_stellar.Stellar.Config.{
  StellarConfig, testnet_passphrase, with_defaults, validate, load_config,
}

-- What holds of every configuration that the program starts with.
pub record IsTestnet (c : StellarConfig) : Type 0 where
  pub passphrase : c.network_passphrase ≡ testnet_passphrase
  pub horizon : contains (to_lower c.horizon_url) "horizon.stellar.org" ≡ false
  pub code_set : c.asset_code ≢ ""
  pub issuer_set : c.asset_issuer ≢ ""
  pub destination_set : c.destination_account ≢ ""

validate-IsTestnet : (c : StellarConfig) → validate c ≡ none → IsTestnet c
unfolding validate
validate-IsTestnet c h = ground (
  arith,
  eq_iff c.network_passphrase testnet_passphrase,
  eq_iff c.asset_code "",
  eq_iff c.asset_issuer "",
  eq_iff c.destination_account "",
)

IsTestnet-validate : (c : StellarConfig) → IsTestnet c → validate c ≡ none
unfolding validate
IsTestnet-validate c h = ground (
  arith,
  eq_iff c.network_passphrase testnet_passphrase,
  eq_iff c.asset_code "",
  eq_iff c.asset_issuer "",
  eq_iff c.destination_account "",
)

default_passphrase :
    (c : StellarConfig)
    → (with_defaults c).network_passphrase ≡ testnet_passphrase
    → (c.network_passphrase ≡ "") ⊎ (c.network_passphrase ≡ testnet_passphrase)
unfolding with_defaults
default_passphrase c h = ground (arith, eq_iff c.network_passphrase "")

load_config-eq-some :
    (decoded : StellarConfig) {c : StellarConfig}
    → load_config decoded ≡ some c
    → (validate (with_defaults decoded) ≡ none) × (c ≡ with_defaults decoded)
unfolding load_config
load_config-eq-some decoded h = ground arith

load_config_of_valid :
    (decoded : StellarConfig) {c : StellarConfig}
    → c ≡ with_defaults decoded
    → validate (with_defaults decoded) ≡ none
    → load_config decoded ≡ some c
unfolding load_config
load_config_of_valid decoded same valid = ground arith

-- The decoded file loads exactly if, with its defaults, it names the test network, a Horizon that
-- is not the public one, and an asset code, issuer and destination that are not empty. What is
-- loaded is then the file with its defaults, and the file's own passphrase was empty or the test
-- network's.
pub load_config-IsTestnet_iff :
    (decoded c : StellarConfig)
    → (load_config decoded ≡ some c) ↔ (
        IsTestnet c
        × (c ≡ with_defaults decoded)
        × ((decoded.network_passphrase ≡ "") ⊎ (decoded.network_passphrase ≡ testnet_passphrase)))
load_config-IsTestnet_iff decoded c = (
  λ h.
      let (valid, same) = load_config-eq-some decoded h in
      let safe = validate-IsTestnet (with_defaults decoded) valid in
      (rw same safe, same, default_passphrase decoded safe.passphrase),
  λ h.
      load_config_of_valid decoded h.1 (IsTestnet-validate (with_defaults decoded) (rw h.1 at h.0)),
)
