-- ===== src/Database/Paging.antt =====
-- database/sqlquery/paging.go: `DbPaging`. Go's int is a number of 64 bits that wraps around.
pub mod Laws
use shopble_stellar.Common.{
  ℕ, suc, ◌+◌, ◌*◌, ◌-◌, ◌%◌, ◌^◌, Bool, Option, none, some, List, take, drop, ltb, ◌==◌, nat_eq,
  if◌then◌else◌,
}
use shopble_stellar.Common.Int.{ℤ, pos, negsuc, signed64}

pub record Paging : Type 0 where
  pub page : ℤ
  pub limit : ℤ
  pub offset : ℤ
  pub total : ℤ

-- `if n <= 0 { n = default }`; what is left is positive.
abbrev pub default_to : ℕ → ℤ → ℕ
default_to n (negsuc m) = n
default_to n (pos m) = if m == 0 then n else m

-- `(page - 1) * limit`, for a positive page
abbrev pub offset_of : ℕ → ℕ → ℤ
offset_of page limit = signed64 ((page - 1) * limit % 2 ^ 64)

-- What `DbPaging` adds to the query: a limit, and an offset if it is positive.
pub record Window : Type 0 where
  pub limit : ℕ
  pub offset : Option ℕ

abbrev positive : ℤ → Option ℕ
positive (negsuc m) = none
positive (pos m) = if m == 0 then none else some m

-- `DbPaging`, with the paging as it is written back. The limit is positive by then, so its other
-- branch, with `PagingEmptyLimit`, is never taken.
unfoldable pub db_paging : Paging → Window × Paging
db_paging paging =
    let page = default_to 1 paging.page in
    let limit = default_to 20 paging.limit in
    let offset = offset_of page limit in
    (
      record { limit = limit; offset = positive offset },
      record paging { page = pos page; limit = pos limit; offset = offset },
    )

-- `LIMIT` and `OFFSET` of SQL on the rows of a query in its order.
abbrev pub or_zero : Option ℕ → ℕ
or_zero none = 0
or_zero (some n) = n

abbrev pub window {ℓ} : {A : Type ℓ} → Window → List A → List A
window w rows = take w.limit (drop (or_zero w.offset) rows)
