-- ===== src/Database/Types.antt =====
-- database/sqltype: how columns are written and read. github.com/jackc/pgtype is an interface, one
-- for each of its types; `V` is the type of values of the driver, and nil is `none`.
pub mod Laws
use shopble_stellar.Common.{
  ℕ, ◌+◌, ◌-◌, ◌%◌, ◌^◌, String, ◌⊎◌, inl, inr, Bool, true, false, Option, none, some, List, [],
  ◌∷◌, ◌++◌, map, ltb, ◌==◌, string_eq, if◌then◌else◌,
}
use shopble_stellar.Common.Int.{ℤ, pos, negsuc, signed64}

-- One type of pgtype that holds Go values `G`: `Set`, `Value`, `Scan`, and what is read of it.
pub record Pg (G V E : Type 0) : Type 1 where
  pub Held : Type 0
  pub set : G → E ⊎ Held
  pub value : Held → E ⊎ Option V
  pub scan : Option V → E ⊎ Held
  pub get : Held → G

pub data SqlError (E : Type 0) : Type 0 where
  set_failed : E → SqlError E
  scan_failed : E → SqlError E
  plain : E → SqlError E

pub data Result (E A : Type 0) : Type 0 where
  ok : A → Result E A
  err : SqlError E → Result E A

module _ {E A : Type 0} where
  abbrev or_plain : E ⊎ A → Result E A
  or_plain (inl e) = err (SqlError.plain e)
  or_plain (inr a) = ok a

module _ {G V E : Type 0} (pg : Pg G V E) where
  valued : E ⊎ pg.Held → Result E (Option V)
  valued (inl e) = err (SqlError.set_failed e)
  valued (inr p) = or_plain (pg.value p)

  -- `Set` and then `Value`
  unfoldable pub set_value : G → Result E (Option V)
  unfolding valued
  set_value g = valued (pg.set g)

  scanned : E ⊎ pg.Held → Result E G
  scanned (inl e) = err (SqlError.scan_failed e)
  scanned (inr p) = ok (pg.get p)

  -- `Scan`, with what is read of it
  unfoldable pub scan_value : Option V → Result E G
  unfolding scanned
  scan_value src = scanned (pg.scan src)

-- The conversion of an int64 to uint64.
abbrev pub as_uint64 : ℤ → ℤ
as_uint64 (pos n) = pos n
as_uint64 (negsuc n) = pos (2 ^ 64 - n - 1)

converted : {E : Type 0} → (ℤ → ℤ) → Result E (List ℤ) → Result E (List ℤ)
converted convert (ok xs) = ok (map convert xs)
converted convert (err e) = err e

module _ {V E : Type 0} where
  -- `StringArray.Value`: an empty array has a value of its own, `Status: Present`.
  module _ {G : Type 0} (pg : Pg (List G) V E) (empty : pg.Held) where
    unfoldable pub array_value : List G → Result E (Option V)
    array_value [] = or_plain (pg.value empty)
    array_value (x ∷ xs) = set_value pg (x ∷ xs)

  -- `StringArray.Scan`
  unfoldable pub string_array_scan : Pg (List String) V E → Option V → Result E (List String)
  string_array_scan pg src = scan_value pg src

  -- `BigIntArray.Scan`, with the conversion to its element type
  unfoldable pub big_int_array_scan : (ℤ → ℤ) → Pg (List ℤ) V E → Option V → Result E (List ℤ)
  unfolding converted
  big_int_array_scan convert pg src = converted convert (scan_value pg src)

  -- `Json.Value` and `Json.Scan`, on bytes; no bytes are nil.
  module _ (pg : Pg (List ℕ) V E) where
    unfoldable pub json_value : List ℕ → Result E (Option V)
    json_value [] = ok none
    json_value (b ∷ bytes) = set_value pg (b ∷ bytes)

    unfoldable pub json_scan : Option V → Result E (List ℕ)
    json_scan src = scan_value pg src

  -- `JsonArray.Value` and `JsonArray.Scan`, which appends to what the array holds.
  module _ (pg : Pg (List (List ℕ)) V E) where
    unfoldable pub json_array_value : List (List ℕ) → Result E (Option V)
    json_array_value [] = ok none
    json_array_value (j ∷ js) = set_value pg (j ∷ js)

    appended : List (List ℕ) → Result E (List (List ℕ)) → Result E (List (List ℕ))
    appended ja (ok elements) = ok (ja ++ elements)
    appended ja (err e) = err e

    unfoldable pub json_array_scan : List (List ℕ) → Option V → Result E (List (List ℕ))
    unfolding appended
    json_array_scan ja src = appended ja (scan_value pg src)

  -- `Text` and `NormalizedText`, over `TrimSpace` and `ToLower`
  module _ (trim_space to_lower : String → String) (pg : Pg String V E) where
    unfoldable pub text_value : String → Result E (Option V)
    text_value t = set_value pg (trim_space t)

    unfoldable pub normalized_text_value : String → Result E (Option V)
    normalized_text_value t = set_value pg (trim_space (to_lower t))

    unfoldable pub text_scan : Option V → Result E String
    text_scan src = scan_value pg src

-- `Json.Decode`: nothing for no bytes; a text in quotes is base64. Its parts are arguments.
module _ {T : Type 0} (starts_with_quote : List ℕ → Bool) (trim_quotes : List ℕ → List ℕ)
    (from_base64 : List ℕ → Option (List ℕ)) (decode_json : List ℕ → Option T) where
  decoded : Option (List ℕ) → Option (Option T)
  decoded none = none
  decoded (some buff) = elim (decode_json buff) [ none ↦ none | some t ↦ some (some t) ]

  -- `none` is an error, and `some none` leaves the value as it is.
  unfoldable pub json_decode : List ℕ → Option (Option T)
  unfolding decoded
  json_decode [] = some none
  json_decode (b ∷ bytes) = decoded (
      if starts_with_quote (b ∷ bytes)
      then from_base64 (trim_quotes (b ∷ bytes))
      else some (b ∷ bytes))
