-- ===== src/Report/Cells.antt =====
-- services/report/report.go: the texts in the cells of the tables.
use Prim.Native.String.{len, slice}
use shopble_stellar.Common.{
  ◌-◌, String, ◌<>◌, Bool, List, [], ◌∷◌, leb, ◌==◌, string_eq, if◌then◌else◌,
}
use shopble_stellar.Common.Int.{ℤ, pos, ltb_ℤ, pos_part}
use shopble_stellar.Stellar.Text.{decimal_text}

-- `short`; the positions are those of bytes.
unfoldable pub short : String → String
short s = if leb (len s) 14 then s else slice s 0 6 <> "…" <> slice s (len s - 4) (len s)

abbrev pub code : String → String
code s = if s == "" then "—" else "`" <> s <> "`"

abbrev pub dash : String → String
dash s = if s == "" then "—" else s

abbrev pub code_or_dash : String → String
code_or_dash s = if s == "" then "— (chưa deploy)" else "`" <> s <> "`"

abbrev pub mark : Bool → String
mark enough = if enough then "OK" else "THIẾU"

-- `strings.Join`
abbrev pub join : String → List String → String
join sep [] = ""
join sep (s ∷ []) = s
join sep (s ∷ t ∷ rest) = s <> sep <> join sep (t ∷ rest)

-- The cells of a row between bars.
unfoldable pub row : List String → String
row cells = "| " <> join " | " cells <> " |\n"

unfoldable pub latency_text : ℤ → String
latency_text lat =
    if ltb_ℤ lat (pos 0)
    then "0s"
    else if ltb_ℤ (pos 300) lat
    then decimal_text (pos_part lat) <> "s (backfill)"
    else decimal_text (pos_part lat) <> "s"
