-- ===== src/Common/Texts.antt =====
-- The length of a text in bytes, Go's `len`.
use Prim.Native.Nat.{◌<◌}
use Prim.Native.String.{String, [], ◌∷◌, len}
use Prim.Native.String.len as len_laws
use text.Mathlib.TextPositions.{len_utf8-pos}
use mathlib.Core.Path.{◌≡◌, refl}
use mathlib.Core.Logic.{◌≢◌}
use native.Mathlib.Omega.{arith}

pub len_empty : len "" ≡ 0
len_empty = len_laws.nil

pub len_positive : (s : String) → s ≢ "" → 0 < len s
len_positive [] text = absurd (text refl)
len_positive (c ∷ s) text =
    let (k, wide) = len_utf8-pos c in let total = len_laws.cons c s in omega arith
