-- ===== src/Glib/Document/Laws.antt =====
-- The text of a PDF keeps all its lines.
use shopble_stellar.Common.{
  ◌<◌, String, ◌<>◌, ◌≡◌, ◌≢◌, refl, sym, ap, ◌∙◌, subst, inl, inr, Bool, Bool-cases, true, false,
  ◌&&◌, List, [], ◌∷◌, ◌++◌, map, All, ltb, ◌==◌, string_eq, eq_iff, len_empty, len_positive,
  if◌then◌else◌, arith,
}
use mathlib.Core.List.{append_assoc, append-nil}
use Prim.Native.String.{len}
use text.Mathlib.TextLemmas.{nil-append}
use text.Mathlib.TextPositions.{len-append}
use shopble_stellar.Glib.Document.{
  Strings, Cleaning, has_text, saved, clean_line, clean_lines, pdf_lines,
}

-- A line and the short lines that are put behind it.
abbrev pub glue : String → List String → String
glue s [] = s
glue s (t ∷ ts) = glue ((s <> " ") <> t) ts

glue-snoc :
    (s : String) (ts : List String) (t : String) → glue s (ts ++ (t ∷ [])) ≡ (glue s ts <> " ") <> t
glue-snoc s [] t = refl
glue-snoc s (u ∷ ts) t = glue-snoc ((s <> " ") <> u) ts t

abbrev pub Group : Type 0
Group = String × List String

abbrev pub group_text : Group → String
group_text (s, ts) = glue s ts

abbrev pub group_lines : Group → List String
group_lines (s, ts) = s ∷ ts

abbrev pub all_lines : List Group → List String
all_lines [] = []
all_lines (g ∷ groups) = group_lines g ++ all_lines groups

all_lines-append : (gs hs : List Group) → all_lines (gs ++ hs) ≡ all_lines gs ++ all_lines hs
all_lines-append [] hs = refl
all_lines-append (g ∷ gs) hs =
    ap (λ l. group_lines g ++ l) (all_lines-append gs hs)
    ∙ sym (append_assoc (group_lines g) (all_lines gs) (all_lines hs))

map-snoc :
    (gs : List Group) (g : Group)
    → map group_text (gs ++ (g ∷ [])) ≡ map group_text gs ++ (group_text g ∷ [])
map-snoc [] g = refl
map-snoc (h ∷ gs) g = ap (λ l. group_text h ∷ l) (map-snoc gs g)

All-snoc {ℓ κ} :
    {A : Type ℓ} (P : A → Type κ) (xs : List A) (y : A) → All P xs → P y → All P (xs ++ (y ∷ []))
All-snoc P [] y all last = (last, tt)
All-snoc P (x ∷ xs) y (p, all) last = (p, All-snoc P xs y all last)

and_false : (b : Bool) → (b && false) ≡ false
and_false true = refl
and_false false = refl

-- Only lines of less than 30 bytes stand behind another one, and no line is empty.
abbrev pub IsGroup : Group → Type 0
IsGroup (s, ts) = (s ≢ "") × All (λ t. len t < 30) ts

-- The states of the loop after these lines: no line is open, or one is.
data Sees (seen : List String) : Cleaning → Type 0 where
  closed :
      (gs : List Group) → All IsGroup gs → all_lines gs ≡ seen → Sees seen (map group_text gs, "")
  one_open :
      (gs : List Group) (g : Group)
      → All IsGroup gs
      → IsGroup g
      → all_lines gs ++ group_lines g ≡ seen
      → Sees seen (map group_text gs, group_text g)

glue_bound : (s : String) (ts : List String) → 0 < len s → 0 < len (glue s ts)
glue_bound s [] h = h
glue_bound s (t ∷ ts) h =
    let outer = len-append (s <> " ") t in
    let inner = len-append s " " in glue_bound ((s <> " ") <> t) ts (omega arith)

group-has_text : (g : Group) → IsGroup g → has_text (group_text g) ≡ true
group-has_text (s, ts) (text, short) =
    let some_text = glue_bound s ts (len_positive s text) in ground arith

no_text : has_text "" ≡ false
no_text = let nothing = len_empty in ground arith

not_empty : (line : String) → line ≢ "" → (line == "") ≡ false
not_empty line text = elim (Bool-cases (line == "")) [
  | inl empty ↦ absurd (text ((eq_iff line "").0 empty))
  | inr other ↦ other
]

-- A group that ends.
Sees-end :
    (gs : List Group) (g : Group) (seen : List String)
    → All IsGroup gs
    → IsGroup g
    → all_lines gs ++ group_lines g ≡ seen
    → All IsGroup (gs ++ (g ∷ [])) × (all_lines (gs ++ (g ∷ [])) ≡ seen)
Sees-end gs g seen groups group same = (
  All-snoc IsGroup gs g groups group,
  all_lines-append gs (g ∷ []) ∙ ap (λ l. all_lines gs ++ l) (append-nil (group_lines g)) ∙ same,
)

clean_line-empty : (seen : List String) (s : Cleaning) → Sees seen s → Sees seen (clean_line "" s)
unfolding clean_line saved
clean_line-empty seen s (closed gs groups same) = closed gs groups same
clean_line-empty seen s (one_open gs g groups group same) =
    let (all, lines) = Sees-end gs g seen groups group same in
    rw (group-has_text g group, sym (map-snoc gs g)) (closed (gs ++ (g ∷ [])) all lines)

clean_line-text :
    (line : String) (seen : List String) (s : Cleaning)
    → line ≢ ""
    → Sees seen s
    → Sees (seen ++ (line ∷ [])) (clean_line line s)
unfolding clean_line saved
clean_line-text line seen s text (closed gs groups same) =
    rw (not_empty line text, no_text, and_false (ltb (len line) 30), nil-append line)
      (one_open gs (line, []) groups (text, tt) (ap (λ l. l ++ (line ∷ [])) same))
clean_line-text line seen s text (one_open gs (t, ts) groups (first, short) same) =
    let open_text = group-has_text (t, ts) (first, short) in
    elim (Bool-cases (ltb (len line) 30)) [
      | inl brief ↦
          rw (not_empty line text, brief, open_text, sym (glue-snoc t ts line))
            (one_open gs (t, ts ++ (line ∷ [])) groups
              (first, All-snoc (λ u. len u < 30) ts line short (ground arith))
              (sym (append_assoc (all_lines gs) (t ∷ ts) (line ∷ []))
                ∙ ap (λ l. l ++ (line ∷ [])) same))
      | inr long ↦
          let (all, lines) = Sees-end gs (t, ts) seen groups (first, short) same in
          rw (not_empty line text, long, open_text, sym (map-snoc gs (t, ts)))
            (one_open (gs ++ ((t, ts) ∷ [])) (line, []) all (text, tt)
              (ap (λ l. l ++ (line ∷ [])) lines))
    ]

saved-groups :
    (seen : List String) (s : Cleaning)
    → Sees seen s
    → (gs : List Group) × All IsGroup gs × (all_lines gs ≡ seen) × (saved s ≡ map group_text gs)
unfolding saved
saved-groups seen s (closed gs groups same) = (gs, groups, same, refl)
saved-groups seen s (one_open gs g groups group same) =
    let (all, lines) = Sees-end gs g seen groups group same in
    (gs ++ (g ∷ []), all, lines, rw (group-has_text g group) (sym (map-snoc gs g)))

module _ (strings : Strings) where
  -- The trimmed lines that are not empty.
  abbrev pub kept_lines : List String → List String
  kept_lines [] = []
  kept_lines (l ∷ lines) =
      let rest = kept_lines lines in
      if strings.trim_space l == "" then rest else strings.trim_space l ∷ rest

  clean_lines-Sees :
      (lines seen : List String) (s : Cleaning)
      → Sees seen s
      → Sees (seen ++ kept_lines lines) (clean_lines strings lines s)
  unfolding clean_lines
  clean_lines-Sees [] seen s sees = rw (append-nil seen) sees
  clean_lines-Sees (l ∷ lines) seen s sees = elim (Bool-cases (strings.trim_space l == "")) [
    | inl blank ↦
        let empty = (eq_iff (strings.trim_space l) "").0 blank in
        rw blank (
          clean_lines-Sees lines seen (clean_line (strings.trim_space l) s)
            (subst (λ t. Sees seen (clean_line t s)) (sym empty) (clean_line-empty seen s sees)))
    | inr text ↦
        let first =
          clean_line-text (strings.trim_space l) seen s
            (λ empty. cc ((eq_iff (strings.trim_space l) "").1 empty, text)) sees in
        let rest =
          clean_lines-Sees lines (seen ++ (strings.trim_space l ∷ []))
            (clean_line (strings.trim_space l) s) first in
        rw text (
          subst (λ k. Sees k (clean_lines strings lines (clean_line (strings.trim_space l) s)))
            (append_assoc seen (strings.trim_space l ∷ []) (kept_lines lines)) rest)
  ]

  -- The lines that `cleanPdfContent` joins are the trimmed lines of the text that are not empty,
  -- all of them, once each and in order, in groups that are glued by spaces: only a line of less
  -- than 30 bytes is put behind another one.
  pub pdf_lines-groups :
      (lines : List String)
      → (gs : List Group) × All IsGroup gs
        × (all_lines gs ≡ kept_lines lines)
        × (pdf_lines strings lines ≡ map group_text gs)
  unfolding pdf_lines
  pdf_lines-groups lines =
      saved-groups (kept_lines lines) (clean_lines strings lines ([], ""))
        (clean_lines-Sees lines [] ([], "") (closed [] tt refl))
