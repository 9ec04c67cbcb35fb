-- ===== src/Soroban/Sdk.antt =====
-- What lib/libsoroban uses of github.com/stellar/go, over unknown types of values `V`, accounts
-- `A`, contract addresses `C`, keys `K`, transactions `T`, resource data `R` and authorisation
-- entries `U`. An answer `none` is an error.
use shopble_stellar.Common.{ℕ, String, ◌≡◌, Option, List, Bool}
use shopble_stellar.Common.Int.{ℤ}

-- The constructors of `xdr.ScVal`.
pub record Xdr (V A : Type 0) : Type 0 where
  pub symbol : String → V
  pub string : String → V
  pub bytes : String → V
  pub i128 : ℤ → ℕ → V
  pub account : A → V
  pub vec : List V → V
  pub address_to_account_id : String → Option A

-- Different arguments make different values.
pub record IsLawful {V A : Type 0} (xdr : Xdr V A) : Type 0 where
  pub symbol-injective : (a b : String) → xdr.symbol a ≡ xdr.symbol b → a ≡ b
  pub vec-injective : (a b : List V) → xdr.vec a ≡ xdr.vec b → a ≡ b

-- The fields that the program reads of the answer to a simulation.
pub record Simulation : Type 0 where
  pub error : String
  pub transaction_data : String
  pub results : List (Option (List String))
  pub min_resource_fee : ℕ

pub record Sent : Type 0 where
  pub hash : String
  pub status : String

-- strkey, keypair, txnbuild and the decoders of xdr.
pub record Sdk (V C K T R U : Type 0) : Type 0 where
  pub sha256 : String → String
  pub getenv : String → String
  pub parse_full : String → Option K
  pub address_of : K → String
  -- `strkey.Decode(strkey.VersionByteContract, id)` and the copy into an address
  pub decode_contract : String → Option C
  -- account, sequence, fee, resource data, entries, contract, function and arguments
  pub new_transaction : String → ℤ → ℕ → Option R → List U → C → String → List V → Option T
  pub min_base_fee : ℕ
  pub base64 : T → Option String
  pub sign : String → K → T → Option T
  pub decode_data : String → Option R
  pub decode_entry : String → Option U

-- The RPC server over an unknown state `X` of everything outside the program.
pub record Rpc (X : Type 0) : Type 0 where
  -- `LoadAccount` and then `GetSequenceNumber`
  pub load_account : String → X → Option (Option ℤ) × X
  pub simulate_transaction : String → X → Option Simulation × X
  pub send_transaction : String → X → Option Sent × X
  pub get_transaction : String → X → Option String × X
  -- the `select`: true when the context ended before the second did
  pub wait_second : X → Bool × X
