-- ===== src/System/Ledger.antt =====
-- The ledger holds, whatever steps are taken.
use shopble_stellar.Common.{
  ℕ, String, ◌≡◌, refl, sym, ◌∙◌, subst, ◌≢◌, ◌⊎◌, inl, inr, Option, none, some,
}
use shopble_stellar.Decimal.{Decimal}
use shopble_stellar.Models.Status.{OrderStatus, RejectReason, Verdict}
use shopble_stellar.Models.Order.{OrderIntent}
use shopble_stellar.Stellar.Horizon.{HorizonPayment}
use shopble_stellar.Watcher.Database
use shopble_stellar.Watcher.Database.{Database, Tables, insert_order}
use shopble_stellar.Watcher.Matcher.{match}
use shopble_stellar.Watcher.Process.{
  observed, amount_of, order_of, verdict_of, evidence_row, process_db,
}
use shopble_stellar.Watcher.Process.Spec.{record_payment}
use shopble_stellar.Watcher.Process.Updates.{SameTables}
use shopble_stellar.Watcher.Process.Refines.{process_db-refines}
use shopble_stellar.Watcher.Process.Laws.{order_of_lem}
use shopble_stellar.Watcher.Chain.{World, Failures}
use shopble_stellar.Watcher.Poll.{Watcher, Services, start}
use shopble_stellar.Watcher.Poll.Steps.{write_chain-Republished}
use shopble_stellar.Watcher.Ledger.{IsLedger, empty-IsLedger}
use shopble_stellar.Watcher.Ledger.Backed.{Backed, Standing-Backed}
use shopble_stellar.Watcher.Ledger.Keeps.{unknown_payment, judged_payment}
use shopble_stellar.Watcher.Ledger.Writes.{Republished-IsLedger, insert_order-IsLedger}
use shopble_stellar.System.{Step, Steps}
use shopble_stellar.System.Rounds.{start-Steps}
use shopble_stellar.System.Orders.{NewRow, create_order-NewRow}

same_tables : {D : Type 0} {t u : Tables D} → SameTables t u → u ≡ t
same_tables same = λ i. record {
  orders = λ j. sym (same.orders j) i;
  evidence = λ q. sym (same.evidence q) i;
  cursors = λ k. sym (same.cursors k) i;
}

module _ {D S : Type 0} (dec : Decimal D) (db : Database D S) (tables : S → Tables D)
    (lawful : Database.IsLawful db tables) where
  -- The contract of one payment keeps the ledger, whichever order it finds.
  payment_recorded :
      (stream evidence_id : String) (p : HorizonPayment) (s : S) (order : Option (OrderIntent D))
      (vr : Verdict × RejectReason)
      → IsLedger dec (tables s)
      → order_of dec db p s ≡ order
      → match dec (observed p (amount_of dec p)) order ≡ vr
      → IsLedger dec (
          record_payment stream order vr
            (evidence_row evidence_id p (amount_of dec p) order vr)
            (tables s))
  payment_recorded stream evidence_id p s none (v, r) ledger found judged =
      unknown_payment dec stream v r _ (tables s) ledger refl
  payment_recorded stream evidence_id p s (some row) (v, r) ledger found judged =
      let (stored, memo) = order_of_lem dec db tables lawful p s found in
      judged_payment dec stream v r _ (tables s) ledger row (record {
        stored = stored;
        names = refl;
        memo = sym memo;
        verdict = refl;
        reason = refl;
        judged = judged;
      })

  process_db-IsLedger :
      (stream evidence_id : String) (p : HorizonPayment) (s : S)
      → IsLedger dec (tables s)
      → IsLedger dec (tables (process_db dec db stream evidence_id p s).1)
  process_db-IsLedger stream evidence_id p s ledger =
      elim (process_db-refines dec db tables lawful stream evidence_id p s) [
        | inl (failed, same) ↦ subst (λ (x : S). IsLedger dec (tables x)) (sym same) ledger
        | inr (done, rows) ↦ subst (IsLedger dec) (same_tables rows) (
            payment_recorded stream evidence_id p s (order_of dec db p s) (verdict_of dec db p s)
              ledger refl refl)
      ]

  NewRow-IsLedger :
      {id : String} {s s' : S}
      → id ≢ ""
      → (s' ≡ s) ⊎ NewRow db id s s'
      → IsLedger dec (tables s)
      → IsLedger dec (tables s')
  NewRow-IsLedger name (inl same) ledger =
      subst (λ (x : S). IsLedger dec (tables x)) (sym same) ledger
  NewRow-IsLedger {s = s} name (inr new) ledger =
      let (free, grown) = lawful.create_order_lem new.row s new.inserted in
      rw grown
        (insert_order-IsLedger dec ledger new.row free (λ e. name (sym new.id_lem ∙ e)) new.waits)

  module _ {X : Type 0} where
    Step-IsLedger :
        {w w' : World S X}
        → Step dec db w w'
        → IsLedger dec (tables w.db)
        → IsLedger dec (tables w'.db)
    Step-IsLedger (Step.elapses x) ledger = ledger
    Step-IsLedger {w = w} (Step.pays stream evidence_id p) ledger =
        process_db-IsLedger stream evidence_id p w.db ledger
    Step-IsLedger {w = w} (Step.writes chain order status why) ledger =
        Republished-IsLedger dec ledger
          (write_chain-Republished db tables lawful chain order status why w)
    Step-IsLedger {w = w} (Step.orders db_error describe cfg id body name) ledger =
        NewRow-IsLedger name (create_order-NewRow dec db db_error describe cfg id body w.db) ledger

    -- Whatever transactions of watchers, writes to the chain and requests for orders follow each
    -- other, in any order, from a ledger that is in order they lead to one that is: every order
    -- waits for payment and no evidence names it, or exactly one row of evidence that is no
    -- duplicate names it, the matcher, run again on that row, gives the verdict and the reason
    -- that are in it, and the order has the status and the reason that follow.
    pub Steps-IsLedger :
        {w w' : World S X}
        → Steps dec db w w'
        → IsLedger dec (tables w.db)
        → IsLedger dec (tables w'.db)
    Steps-IsLedger Steps.here ledger = ledger
    Steps-IsLedger (Steps.next r s) ledger = Step-IsLedger s (Steps-IsLedger r ledger)

    pub start-IsLedger :
        (services : Services X) (w : Watcher D X) (n : ℕ) (fw : Failures × World S X)
        → IsLedger dec (tables fw.1.db)
        → IsLedger dec (tables (start dec db services w n fw).1.db)
    start-IsLedger services w n fw = Steps-IsLedger (start-Steps dec db services w n fw)

    -- From tables without orders and evidence, whatever steps are taken: an order that is
    -- `validated` has a row of evidence with its id and the verdict `matched`, whose destination,
    -- asset code, asset issuer and source are the order's and whose amount is not less than the
    -- expected one; and every other row of evidence with its id is a duplicate.
    pub validated-Backed :
        {w w' : World S X}
        → Steps dec db w w'
        → ((id : String) → (tables w.db).orders id ≡ none)
        → ((q : String) → (tables w.db).evidence q ≡ none)
        → (id : String) (o : OrderIntent D) → (tables w'.db).orders id ≡ some o
        → o.status ≡ OrderStatus.validated
        → Backed dec (tables w'.db) o
    validated-Backed steps no_orders no_evidence id o stored validated =
        let ledger = Steps-IsLedger steps (empty-IsLedger dec _ no_orders no_evidence) in
        Standing-Backed dec o validated (ledger.standing id o stored)
