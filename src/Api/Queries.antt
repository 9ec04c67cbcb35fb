-- ===== src/Api/Queries.antt =====
-- The queries of the handlers, and the text of numbers that they read: gorm and strconv.
use Prim.Native.Nat.{min}
use shopble_stellar.Common.{ℕ, zero, suc, String, Option, none, some, List}
use shopble_stellar.Common.Int.{ℤ, pos, negsuc}
use shopble_stellar.Models.Order.{OrderIntent}
use shopble_stellar.Models.Evidence.{PaymentEvidence}

pub record Queries (D S : Type 0) : Type 0 where
  -- `Where("buyer_wallet = ?", wallet).Order("created_at DESC").Limit(limit).Find(&rows)`
  pub orders_of_wallet : String → ℕ → S → Option (List (OrderIntent D))
  -- the two filters if they are given, `Order("captured_at DESC").Limit(limit).Find(&rows)`
  pub evidence_where : Option String → Option String → ℕ → S → Option (List (PaymentEvidence D))
  -- `Where("order_id = ?", order.Id).Order("captured_at ASC").Find(&rows)`
  pub evidence_of_order : String → S → Option (List (PaymentEvidence D))

-- `strconv.Atoi`
abbrev pub Atoi : Type 0
Atoi = String → Option ℤ

limit_of : Option ℤ → ℕ
limit_of none = 50
limit_of (some (pos zero)) = 50
limit_of (some (pos (suc n))) = min (suc n) 200
limit_of (some (negsuc n)) = 50

-- The `limit` of the two listing handlers.
unfoldable pub query_limit : Atoi → String → ℕ
unfolding limit_of
query_limit atoi text = limit_of (atoi text)
