-- ===== src/Stellar/Text.antt =====
-- What the program uses of Go's `strings`, `strconv` and `net/url`, over native texts.
use Prim.Native.Char.{code}
use Prim.Native.String.{slice, compare}
use Prim.Native.Nat.{Ordering}
use text.Mathlib.Text.{find?, starts_with}
use shopble_stellar.Common.{
  ℕ, zero, suc, ◌+◌, ◌-◌, ◌/◌, ◌%◌, String, ◌<>◌, Bool, true, false, ◌&&◌, ◌||◌, none, some, List,
  [], ◌∷◌, leb, ◌==◌, nat_eq, string_eq, if◌then◌else◌,
}

-- `strings.Contains(s, t)`
unfoldable pub contains : String → String → Bool
contains s t = elim (find? s t) [ none ↦ false | some i ↦ true ]

-- The letters and digits that one character is printed as.
abbrev char_of : String → ℕ → String
char_of table n = slice table n (suc n)

-- `strings.ToLower` as far as its result has ASCII letters: U+0130 and U+212A are the two characters
-- past ASCII whose lower case is ASCII. Others are left as they are.
lower_char : ℕ → String → String
lower_char c self =
    if leb b'A' c && leb c b'Z'
    then char_of "abcdefghijklmnopqrstuvwxyz" (c - b'A')
    else if c == 304
    then "i"
    else if c == 8490
    then "k"
    else self

unfoldable pub to_lower : String → String
unfolding lower_char
to_lower String.[] = String.[]
to_lower (String.◌∷◌ c s) = lower_char (code c) (String.◌∷◌ c String.[]) <> to_lower s

-- `strings.TrimRight(s, "/")`: the slashes are dropped from the end.
trim_slash : ℕ → String → String → String
trim_slash c self rest = if (c == b'/') && (rest == "") then "" else self <> rest

unfoldable pub trim_right_slashes : String → String
unfolding trim_slash
trim_right_slashes String.[] = String.[]
trim_right_slashes (String.◌∷◌ c s) =
    trim_slash (code c) (String.◌∷◌ c String.[]) (trim_right_slashes s)

-- `fmt.Sprintf("%d", n)`; a number below 2 ^ 64 has at most 20 digits.
digits_of : ℕ → ℕ → String
digits_of zero n = ""
digits_of (suc fuel) n =
    let front = digits_of fuel (n / 10) in
    (if leb n 9 then "" else front) <> char_of "0123456789" (n % 10)

unfoldable pub decimal_text : ℕ → String
unfolding digits_of
decimal_text n = digits_of 20 n

-- The UTF-8 bytes of a character.
utf8 : ℕ → List ℕ
utf8 c =
    if leb c 127
    then c ∷ []
    else if leb c 2047
    then (192 + c / 64) ∷ (128 + c % 64) ∷ []
    else if leb c 65535
    then (224 + c / 4096) ∷ (128 + (c / 64) % 64) ∷ (128 + c % 64) ∷ []
    else (240 + c / 262144) ∷ (128 + (c / 4096) % 64) ∷ (128 + (c / 64) % 64) ∷ (128 + c % 64) ∷ []

percent : List ℕ → String
percent [] = ""
percent (b ∷ bs) =
    "%" <> char_of "0123456789ABCDEF" (b / 16) <> char_of "0123456789ABCDEF" (b % 16) <> percent bs

unreserved : ℕ → Bool
unreserved c =
    (leb b'a' c && leb c b'z')
    || ((leb b'A' c && leb c b'Z')
        || ((leb b'0' c && leb c b'9') || (c == b'-' || (c == b'_' || (c == b'.' || c == b'~')))))

escape_char : ℕ → String → String
escape_char c self = if unreserved c then self else if c == 32 then "+" else percent (utf8 c)

-- `url.QueryEscape`
unfoldable pub query_escape : String → String
unfolding escape_char unreserved percent utf8
query_escape String.[] = String.[]
query_escape (String.◌∷◌ c s) = escape_char (code c) (String.◌∷◌ c String.[]) <> query_escape s

-- `url.Values` with one value for each key, kept in the order in which `Encode` prints the keys.
abbrev pub Values : Type 0
Values = List (String × String)

unfoldable pub set_value : String → String → Values → Values
set_value k v [] = (k, v) ∷ []
set_value k v ((j, w) ∷ rest) = elim (compare k j) [
  | Ordering.lt ↦ (k, v) ∷ (j, w) ∷ rest
  | Ordering.eq ↦ (k, v) ∷ rest
  | Ordering.gt ↦ (j, w) ∷ set_value k v rest
]

unfoldable pub encode_values : Values → String
unfolding query_escape
encode_values [] = ""
encode_values ((k, v) ∷ []) = query_escape k <> "=" <> query_escape v
encode_values ((k, v) ∷ (j, w) ∷ rest) =
    query_escape k <> "=" <> query_escape v <> "&" <> encode_values ((j, w) ∷ rest)

abbrev pub has_prefix : String → String → Bool
has_prefix s t = starts_with s t
