-- ===== src/Watcher/Process/Updates.antt =====
-- Tables with the same rows, and what updates of one order do to them.
use shopble_stellar.Common.{String, ◌≡◌, ◌∙◌, true, false, arith, ltb, string_eq, eq_iff}
use shopble_stellar.Models.Status.{RejectReason, OrderStatus, awaiting_payment, payment_detected}
use shopble_stellar.Models.Order.{OrderIntent}
use shopble_stellar.Watcher.Database.{Tables, matching, update_row}

-- Two tables with the same rows under every key.
pub record SameTables {D : Type 0} (t u : Tables D) : Type 0 where
  pub orders : (id : String) → t.orders id ≡ u.orders id
  pub evidence : (q : String) → t.evidence q ≡ u.evidence q
  pub cursors : (k : String) → t.cursors k ≡ u.cursors k

pub SameTables-trans :
    {D : Type 0} {t u w : Tables D} → SameTables t u → SameTables u w → SameTables t w
SameTables-trans a b = record {
  orders = λ j. a.orders j ∙ b.orders j;
  evidence = λ q. a.evidence q ∙ b.evidence q;
  cursors = λ k. a.cursors k ∙ b.cursors k;
}

module _ {D : Type 0} (id : String) (st : OrderStatus) (r : RejectReason) (t : Tables D) where
  -- The row passes through `payment_detected` and ends as if it had been updated once.
  pub two_updates :
      ltb 0 (matching awaiting_payment (t.orders id)) ≡ true
      → (j : String)
      → (update_row id payment_detected
            (λ o. record o { status = st; reject_reason = r })
            (update_row id awaiting_payment (λ o. record o { status = payment_detected }) t)).orders
          j
        ≡ (update_row id awaiting_payment
              (λ o. record o { status = st; reject_reason = r })
              t).orders
            j
  unfolding update_row
  two_updates h j = ground (arith, eq_iff id j)

  pub no_update :
      ltb 0 (matching awaiting_payment (t.orders id)) ≡ false
      → (f : OrderIntent D → OrderIntent D) (j : String)
      → (update_row id awaiting_payment f t).orders j ≡ t.orders j
  unfolding update_row
  no_update h f j = ground (arith, eq_iff id j)
