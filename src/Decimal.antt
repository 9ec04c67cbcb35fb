-- ===== src/Decimal.antt =====
-- What the program uses of github.com/shopspring/decimal, over an unknown type of decimals, and
-- the documented behaviour that the proofs rely on.
use shopble_stellar.Common.{ℕ, String, ◌≡◌, Bool, true, false, not, Option, some}
use shopble_stellar.Common.Int.{ℤ, negsuc, ltb_ℤ}

pub record Decimal (D : Type 0) : Type 0 where
  -- `decimal.Zero`
  pub zero_value : D
  pub new_from_string : String → Option D
  pub require_from_string : String → D
  pub less_than : D → D → Bool
  pub less_than_or_equal : D → D → Bool
  pub greater_than : D → D → Bool
  pub exponent : D → ℤ
  pub string_fixed : ℕ → D → String
  pub string_of : D → String
  pub shift : ℕ → D → D
  pub int_part : D → ℤ

-- The comparisons are those of one strict order, and a text has one meaning.
pub record IsLawful {D : Type 0} (dec : Decimal D) : Type 0 where
  pub less_than_irrefl : (a : D) → dec.less_than a a ≡ false
  pub less_than_asymm : (a b : D) → dec.less_than a b ≡ true → dec.less_than b a ≡ false
  pub greater_than-less_than : (a b : D) → dec.greater_than a b ≡ dec.less_than b a
  pub less_than_or_equal-less_than :
      (a b : D) → dec.less_than_or_equal a b ≡ not (dec.less_than b a)
  -- `StringFixed(7)` prints a number of at most seven decimal places exactly, so that parsing the
  -- text gives back an equal number
  pub new_from_string-string_fixed :
      (a : D)
      → ltb_ℤ (dec.exponent a) (negsuc 6) ≡ false
      → (b : D) × (dec.new_from_string (dec.string_fixed 7 a) ≡ some b)
        × (dec.less_than a b ≡ false)
        × (dec.less_than b a ≡ false)
  -- equal numbers are printed alike
  pub string_fixed_equal :
      (places : ℕ) (a b : D)
      → dec.less_than a b ≡ false
      → dec.less_than b a ≡ false
      → dec.string_fixed places a ≡ dec.string_fixed places b
  -- what is not less than a number is not less than an equal one
  pub less_than-equal :
      (a b c : D)
      → dec.less_than a b ≡ false
      → dec.less_than b c ≡ false
      → dec.less_than a c ≡ false
