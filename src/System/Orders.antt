-- ===== src/System/Orders.antt =====
-- What becomes of an order, whatever steps are taken.
use shopble_stellar.Common.{
  ℕ, String, ◌≡◌, refl, sym, subst, ◌⊎◌, inl, inr, none, some, string_eq, eq_iff, arith,
}
use shopble_stellar.Decimal.{Decimal}
use shopble_stellar.Models.Status.{awaiting_payment}
use shopble_stellar.Models.Order.{OrderIntent}
use shopble_stellar.Stellar.Config.{StellarConfig}
use shopble_stellar.Stellar.Instruction.{InstructionError}
use shopble_stellar.Watcher.Database
use shopble_stellar.Watcher.Database.{Database, Tables, insert_order}
use shopble_stellar.Watcher.Process.Laws.{process_db-OrderStep}
use shopble_stellar.Watcher.Chain.{World, Failures}
use shopble_stellar.Watcher.Poll.{Watcher, Services, start}
use shopble_stellar.Watcher.Poll.Steps.{write_chain-Republished}
use shopble_stellar.Watcher.Poll.Evolves.{
  AllEvolve, AllEvolve-refl, AllEvolve-trans, Republished-AllEvolve, OrderStep-Evolves,
  Evolves-refl,
}
use shopble_stellar.Api.Errors.{Response}
use shopble_stellar.Api.Model.{CreateOrderRequest, CreateOrderData}
use shopble_stellar.Api.Orders.{create_order}
use shopble_stellar.Api.Orders.Laws.{Created, create_order-Created}
use shopble_stellar.System.{Step, Steps}
use shopble_stellar.System.Rounds.{start-Steps}

-- What a request for an order does to the database: nothing, or one row that waits for payment.
pub record NewRow {D S : Type 0} (db : Database D S) (id : String) (s s' : S) : Type 0 where
  pub row : OrderIntent D
  pub id_lem : row.id ≡ id
  pub waits : row.status ≡ awaiting_payment
  pub inserted : db.create_order row s ≡ some s'

module _ {D S : Type 0} (dec : Decimal D) (db : Database D S) (db_error : String)
    (describe : InstructionError → String) (cfg : StellarConfig) (id : String) where
  Created-NewRow :
      {body : String ⊎ CreateOrderRequest} {s : S} {answer : Response CreateOrderData × S}
      → Created dec db db_error describe cfg id body s answer
      → (answer.1 ≡ s) ⊎ NewRow db id s answer.1
  Created-NewRow (Created.refused r why) = inl refl
  Created-NewRow (Created.created req amount i row s' is wallet parsed payable asks waits stored) =
      inr (record { row = row; id_lem = waits.own_id; waits = waits.status; inserted = stored })

  pub create_order-NewRow :
      (body : String ⊎ CreateOrderRequest) (s : S)
      → let s' = (create_order dec db db_error describe cfg id body s).1 in
        (s' ≡ s) ⊎ NewRow db id s s'
  create_order-NewRow body s =
      Created-NewRow (create_order-Created dec db db_error describe cfg id body s)

insert_order-AllEvolve :
    {D : Type 0} (row : OrderIntent D) (t : Tables D)
    → t.orders row.id ≡ none
    → AllEvolve t (insert_order row t)
unfolding insert_order
insert_order-AllEvolve row t new = record {
  evolve = λ id o h. (o, ground (arith, eq_iff row.id id), Evolves-refl o);
}

module _ {D S : Type 0} (dec : Decimal D) (db : Database D S) (tables : S → Tables D)
    (lawful : Database.IsLawful db tables) where
  NewRow-AllEvolve :
      {id : String} {s s' : S} → (s' ≡ s) ⊎ NewRow db id s s' → AllEvolve (tables s) (tables s')
  NewRow-AllEvolve {s = s} (inl same) =
      subst (λ (x : S). AllEvolve (tables s) (tables x)) (sym same) (AllEvolve-refl (tables s))
  NewRow-AllEvolve {s = s} (inr new) =
      let (free, grown) = lawful.create_order_lem new.row s new.inserted in
      rw grown (insert_order-AllEvolve new.row (tables s) free)

  module _ {X : Type 0} where
    Step-AllEvolve : {w w' : World S X} → Step dec db w w' → AllEvolve (tables w.db) (tables w'.db)
    Step-AllEvolve {w = w} (Step.elapses x) = AllEvolve-refl (tables w.db)
    Step-AllEvolve {w = w} (Step.pays stream evidence_id p) = record {
      evolve = λ id o h.
          OrderStep-Evolves
            (process_db-OrderStep dec db tables lawful stream evidence_id p w.db id h);
    }
    Step-AllEvolve {w = w} (Step.writes chain order status why) =
        Republished-AllEvolve (write_chain-Republished db tables lawful chain order status why w)
    Step-AllEvolve {w = w} (Step.orders db_error describe cfg id body name) =
        NewRow-AllEvolve (create_order-NewRow dec db db_error describe cfg id body w.db)

    Steps-AllEvolve :
        {w w' : World S X} → Steps dec db w w' → AllEvolve (tables w.db) (tables w'.db)
    Steps-AllEvolve {w = w} Steps.here = AllEvolve-refl (tables w.db)
    Steps-AllEvolve (Steps.next r s) = AllEvolve-trans (Steps-AllEvolve r) (Step-AllEvolve s)

    -- Whatever the payments and the answers of the network are, after any number of rounds of the
    -- watcher every order is still there; its status has only followed the diagram, an order that
    -- was final has the status and the reason that it had, and the amount, destination, memo and
    -- wallet that were asked for are the same.
    pub start-AllEvolve :
        (services : Services X) (w : Watcher D X) (n : ℕ) (fw : Failures × World S X)
        → AllEvolve (tables fw.1.db) (tables (start dec db services w n fw).1.db)
    start-AllEvolve services w n fw = Steps-AllEvolve (start-Steps dec db services w n fw)
