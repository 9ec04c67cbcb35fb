-- ===== src/Stellar/Config.antt =====
-- lib/libstellar/config.go
pub mod Laws
use Prim.Native.String.{len}
use shopble_stellar.Common.{
  ℕ, String, Bool, true, false, not, ◌&&◌, ◌||◌, Option, none, some, leb, ◌==◌, string_eq,
  if◌then◌else◌,
}
use shopble_stellar.Stellar.Text.{contains, to_lower}

abbrev pub testnet_passphrase : String
testnet_passphrase = "Test SDF Network ; September 2015"

abbrev pub public_passphrase : String
public_passphrase = "Public Global Stellar Network ; September 2015"

abbrev pub memo_text_max_bytes : ℕ
memo_text_max_bytes = 28

pub record StellarConfig : Type 0 where
  pub horizon_url : String
  pub soroban_rpc_url : String
  pub network_passphrase : String
  pub asset_code : String
  pub asset_issuer : String
  pub destination_account : String
  pub contract_id : String
  pub operator_secret_env_var : String

pub data ConfigError : Type 0 where
  not_testnet mainnet_horizon asset_missing destination_missing : ConfigError

or_default : String → String → String
or_default value default = if value == "" then default else value

-- The defaults that the loader of `vStellarConfig` fills in.
unfoldable pub with_defaults : StellarConfig → StellarConfig
unfolding or_default
with_defaults c = record c {
  horizon_url = or_default c.horizon_url "https://horizon-testnet.stellar.org";
  soroban_rpc_url = or_default c.soroban_rpc_url "https://soroban-testnet.stellar.org";
  network_passphrase = or_default c.network_passphrase testnet_passphrase;
}

-- `validate`: `none` is a nil error.
unfoldable pub validate : StellarConfig → Option ConfigError
validate c =
    if not (c.network_passphrase == testnet_passphrase)
    then some not_testnet
    else if contains (to_lower c.horizon_url) "horizon.stellar.org"
    then some mainnet_horizon
    else if c.asset_code == "" || c.asset_issuer == ""
    then some asset_missing
    else if c.destination_account == ""
    then some destination_missing
    else none

-- The loader: the decoded file with its defaults, or a panic.
unfoldable pub load_config : StellarConfig → Option StellarConfig
load_config decoded =
    let c = with_defaults decoded in elim (validate c) [ none ↦ some c | some e ↦ none ]
