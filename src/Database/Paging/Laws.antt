-- ===== src/Database/Paging/Laws.antt =====
-- The pages of a query.
use shopble_stellar.Common.{
  ℕ, zero, suc, ◌+◌, ◌*◌, ◌%◌, ◌^◌, ◌≤◌, ◌<◌, ◌≡◌, refl, sym, ap, ◌∙◌, List, [], ◌∷◌, ◌++◌, take,
  drop, nat_eq, arith,
}
use shopble_stellar.Common.Int.{pos}
use shopble_stellar.Database.Paging.{Paging, db_paging, window, or_zero}

-- The paging that a caller asks for.
abbrev pub asked : ℕ → ℕ → Paging
asked page limit = record { page = pos page; limit = pos limit; offset = pos 0; total = pos 0 }

-- The window of page `n + 1`.
db_paging_lem :
    (limit n : ℕ)
    → 0 < limit
    → n * limit < 2 ^ 63
    → ((db_paging (asked (suc n) limit)).0.limit ≡ limit)
      × (or_zero (db_paging (asked (suc n) limit)).0.offset ≡ n * limit)
unfolding db_paging
db_paging_lem limit n some_limit small = ground arith

-- A page whose offset has the sign bit set is shown as the first one.
pub db_paging-wraps :
    (limit n : ℕ)
    → 0 < limit
    → 2 ^ 63 ≤ n * limit % 2 ^ 64
    → (db_paging (asked (suc n) limit)).0 ≡ (db_paging (asked 1 limit)).0
unfolding db_paging
db_paging-wraps limit n some_limit large = ground arith

module _ {A : Type 0} where
  -- The rows of one page, and those of the first so many pages, one after the other.
  abbrev pub page_rows : ℕ → ℕ → List A → List A
  page_rows limit page rows = window (db_paging (asked page limit)).0 rows

  abbrev pub all_pages : ℕ → ℕ → List A → List A
  all_pages limit zero rows = []
  all_pages limit (suc n) rows = all_pages limit n rows ++ page_rows limit (suc n) rows

  take-nil : (n : ℕ) → take {A = A} n [] ≡ []
  take-nil zero = refl
  take-nil (suc n) = refl

  take-add : (m n : ℕ) (xs : List A) → take m xs ++ take n (drop m xs) ≡ take (m + n) xs
  take-add zero n xs = ap (λ (k : ℕ). take k xs) (omega arith)
  take-add (suc m) n [] = take-nil n ∙ sym (take-nil (suc m + n))
  take-add (suc m) n (x ∷ xs) =
      ap (λ ys. x ∷ ys) (take-add m n xs)
      ∙ ap (λ (k : ℕ). take k (x ∷ xs)) (let e : suc (m + n) ≡ suc m + n = omega arith in e)

  page_rows_lem :
      (limit n : ℕ) (rows : List A)
      → 0 < limit
      → n * limit < 2 ^ 63
      → page_rows limit (suc n) rows ≡ take limit (drop (n * limit) rows)
  page_rows_lem limit n rows some_limit small =
      let (size, start) = db_paging_lem limit n some_limit small in rw (size, start)

  -- When the offsets do not leave the 63 bits of a positive int, the first `n` pages, one after the
  -- other, are the first rows of the query, as many as `n` pages hold, each once and in order.
  pub all_pages_lem :
      (limit n : ℕ) (rows : List A)
      → 0 < limit
      → n * limit < 2 ^ 63
      → all_pages limit n rows ≡ take (n * limit) rows
  all_pages_lem limit zero rows some_limit small =
      ap (λ (k : ℕ). take k rows) (let e : 0 ≡ 0 * limit = omega arith in e)
  all_pages_lem limit (suc n) rows some_limit small =
      let less : n * limit < 2 ^ 63 = grind arith in
      let sum : n * limit + limit ≡ suc n * limit = grind arith in
      rw (all_pages_lem limit n rows some_limit less, page_rows_lem limit n rows some_limit less)
        (take-add (n * limit) limit rows ∙ ap (λ (k : ℕ). take k rows) sum)
