-- ===== src/Stellar/Instruction/Laws.antt =====
-- Which amounts and memos get an instruction, and what it asks for.
use shopble_stellar.Common.{◌≤◌, String, ◌≡◌, ◌≢◌, ◌↔◌, false, arith, eq_iff}
use Prim.Native.String.{len}
use shopble_stellar.Common.Int.{negsuc, ltb_ℤ}
use shopble_stellar.Decimal.{Decimal}
use shopble_stellar.Stellar.Config.{StellarConfig, memo_text_max_bytes}
use shopble_stellar.Stellar.Instruction.{
  PaymentInstruction, ok, valid_memo, normalize_amount, max_amount, instruct, build_instruction,
}

module _ {D : Type 0} (dec : Decimal D) where
  -- An amount and a memo that can be paid on the network.
  pub record Payable (amount : D) (memo : String) : Type 0 where
    pub positive : dec.less_than_or_equal amount dec.zero_value ≡ false
    pub bounded : dec.greater_than amount (max_amount dec) ≡ false
    pub decimals : ltb_ℤ (dec.exponent amount) (negsuc 6) ≡ false
    pub memo_set : memo ≢ ""
    pub memo_fits : len memo ≤ memo_text_max_bytes

  -- What an instruction asks for.
  pub record Instructs (c : StellarConfig) (amount : D) (memo : String) (i : PaymentInstruction)
      : Type 0 where
    pub destination : i.destination ≡ c.destination_account
    pub asset_code : i.asset_code ≡ c.asset_code
    pub asset_issuer : i.asset_issuer ≡ c.asset_issuer
    pub amount_text : i.amount ≡ dec.string_fixed 7 amount
    pub memo_text : i.memo ≡ memo
    pub network : i.network ≡ c.network_passphrase

  module _ (c : StellarConfig) (amount : D) (memo : String) where
    pub build_instruction-Payable :
        {i : PaymentInstruction}
        → build_instruction dec c amount memo ≡ ok i
        → Payable amount memo × Instructs c amount memo i
    unfolding build_instruction normalize_amount valid_memo
    build_instruction-Payable h = ground (arith, eq_iff memo "")

    Payable-build_instruction :
        Payable amount memo
        → (i : PaymentInstruction) × (build_instruction dec c amount memo ≡ ok i)
    unfolding build_instruction normalize_amount valid_memo
    Payable-build_instruction h =
        (instruct dec c (dec.string_fixed 7 amount) memo, ground (arith, eq_iff memo ""))

    -- An instruction is made exactly for an amount that is more than zero, not more than the
    -- largest one and of at most seven decimal places, and a memo of 1 to 28 bytes; and every
    -- instruction that is made asks for this amount, printed with seven places, with this memo, of
    -- the configured asset, to the configured destination on the configured network.
    pub build_instruction_iff :
        (((i : PaymentInstruction) × (build_instruction dec c amount memo ≡ ok i))
          ↔ Payable amount memo)
        × ((i : PaymentInstruction)
            → build_instruction dec c amount memo ≡ ok i
            → Instructs c amount memo i)
    build_instruction_iff = (
      (λ h. (build_instruction-Payable h.1).0, Payable-build_instruction),
      λ i h. (build_instruction-Payable h).1,
    )
