-- ===== src/Stellar/Instruction.antt =====
-- lib/libstellar/instruction.go
pub mod Laws
use Prim.Native.String.{len}
use shopble_stellar.Common.{
  ℕ, String, ◌<>◌, Bool, not, ◌&&◌, [], leb, ◌==◌, string_eq, if◌then◌else◌,
}
use shopble_stellar.Common.Int.{negsuc, ltb_ℤ}
use shopble_stellar.Decimal.{Decimal}
use shopble_stellar.Stellar.Text.{Values, set_value, encode_values}
use shopble_stellar.Stellar.Config.{StellarConfig, memo_text_max_bytes}

abbrev pub stellar_decimals : ℕ
stellar_decimals = 7

-- `ExplorerTxUrl`
abbrev pub explorer_tx_url : String → String
explorer_tx_url hash = "https://stellar.expert/explorer/testnet/tx/" <> hash

pub record PaymentInstruction : Type 0 where
  pub destination : String
  pub asset_code : String
  pub asset_issuer : String
  pub amount : String
  pub memo : String
  pub memo_type : String
  pub network : String
  pub uri : String

pub data InstructionError : Type 0 where
  amount_not_positive amount_too_large too_many_decimals bad_memo : InstructionError

pub data Instructed {ℓ} (A : Type ℓ) : Type ℓ where
  ok : A → Instructed A
  err : InstructionError → Instructed A

-- `ValidMemo`: the length counts bytes.
unfoldable pub valid_memo : String → Bool
valid_memo memo = not (memo == "") && leb (len memo) memo_text_max_bytes

module _ {D : Type 0} (dec : Decimal D) where
  -- `MaxAmount`
  abbrev pub max_amount : D
  max_amount = dec.require_from_string "922337203685.4775807"

  -- `NormalizeAmount`; -7 is `negsuc 6`.
  unfoldable pub normalize_amount : D → Instructed String
  normalize_amount amount =
      if dec.less_than_or_equal amount dec.zero_value
      then err amount_not_positive
      else if dec.greater_than amount max_amount
      then err amount_too_large
      else if ltb_ℤ (dec.exponent amount) (negsuc 6)
      then err too_many_decimals
      else ok (dec.string_fixed stellar_decimals amount)

  instruction_values : StellarConfig → String → String → Values
  instruction_values c amount memo = set_value "network_passphrase" c.network_passphrase (
      set_value "memo_type" "MEMO_TEXT" (
        set_value "memo" memo (
          set_value "asset_issuer" c.asset_issuer (
            set_value "asset_code" c.asset_code
              (set_value "amount" amount (set_value "destination" c.destination_account []))))))

  instruct : StellarConfig → String → String → PaymentInstruction
  unfolding instruction_values
  instruct c amount memo = record {
    destination = c.destination_account;
    asset_code = c.asset_code;
    asset_issuer = c.asset_issuer;
    amount = amount;
    memo = memo;
    memo_type = "MEMO_TEXT";
    network = c.network_passphrase;
    uri = "web+stellar:pay?" <> encode_values (instruction_values c amount memo);
  }

  instruct_amount : StellarConfig → String → Instructed String → Instructed PaymentInstruction
  unfolding instruct
  instruct_amount c memo (err e) = err e
  instruct_amount c memo (ok amount) =
      if not (valid_memo memo) then err bad_memo else ok (instruct c amount memo)

  -- `BuildInstruction`
  unfoldable pub build_instruction : StellarConfig → D → String → Instructed PaymentInstruction
  unfolding instruct_amount
  build_instruction c amount memo = instruct_amount c memo (normalize_amount amount)
