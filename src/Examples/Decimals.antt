-- ===== src/Examples/Decimals.antt =====
-- Decimals for the tests: whole stroops, written as a tally.
use Prim.Native.String.{count}
use text.Mathlib.TextLemmas.{length-append}
use shopble_stellar.Common.{ℕ, zero, suc, String, ◌<>◌, ◌≡◌, refl, ap, some, arith, ltb, leb}
use shopble_stellar.Common.Int.{pos}
use shopble_stellar.Decimal
use shopble_stellar.Decimal.{Decimal}

abbrev pub tally : ℕ → String
tally zero = ""
tally (suc n) = "1" <> tally n

count-tally : (n : ℕ) → count (tally n) ≡ n
count-tally zero = refl
count-tally (suc n) = omega (arith, length-append "1" (tally n), count-tally n)

abbrev pub stroops : Decimal ℕ
stroops = record {
  zero_value = 0;
  new_from_string = λ s. some (count s);
  require_from_string = λ s. 9223372036854775807;
  less_than = ltb;
  less_than_or_equal = leb;
  greater_than = λ a b. ltb b a;
  exponent = λ a. pos 0;
  string_fixed = λ places a. tally a;
  string_of = tally;
  shift = λ places a. a;
  int_part = pos;
}

pub stroops-IsLawful : Decimal.IsLawful stroops
stroops-IsLawful = record {
  less_than_irrefl = λ a. ground arith;
  less_than_asymm = λ a b h. ground arith;
  greater_than-less_than = λ a b. refl;
  less_than_or_equal-less_than = λ a b. ground arith;
  new_from_string-string_fixed = λ a h. (a, ap some (count-tally a), ground arith, ground arith);
  string_fixed_equal = λ places a b h k. ap tally (ground arith);
  less_than-equal = λ a b c h k. ground arith;
}
