-- ===== src/Report/Markdown/Laws.antt =====
-- The table of chain writes against the orders, and the latencies.
use shopble_stellar.Common.{ℕ, suc, ◌≡◌, refl, List, [], ◌∷◌, length, arith, if◌then◌else◌}
use shopble_stellar.Models.Status.{order_final}
use shopble_stellar.Models.Order.{OrderIntent}
use shopble_stellar.Report.Markdown.{chain_rows}

abbrev pub final_orders : {D : Type 0} → List (OrderIntent D) → ℕ
final_orders [] = 0
final_orders (o ∷ rest) =
    let others = final_orders rest in if order_final o.status then suc others else others

-- The table of chain writes has one row for each final order and none for the others.
pub chain_rows-final_orders :
    {D : Type 0} (orders : List (OrderIntent D)) → length (chain_rows orders) ≡ final_orders orders
unfolding chain_rows
chain_rows-final_orders [] = refl
chain_rows-final_orders (o ∷ rest) = ground (arith, chain_rows-final_orders rest)
