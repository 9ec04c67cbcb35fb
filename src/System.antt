-- ===== src/System.antt =====
-- The watchers of project/shopble/services/watcher and the API of project/shopble/api/v1 over one
-- database, as steps that come in any order: each transaction and each statement outside of one is
-- a step.
pub mod Rounds
pub mod Orders
pub mod Ledger
use shopble_stellar.Common.{String, ◌≡◌, ◌≢◌, ◌⊎◌, Option}
use shopble_stellar.Decimal.{Decimal}
use shopble_stellar.Models.Status.{OrderStatus, RejectReason}
use shopble_stellar.Models.Order.{OrderIntent}
use shopble_stellar.Stellar.Config.{StellarConfig}
use shopble_stellar.Stellar.Horizon.{HorizonPayment}
use shopble_stellar.Stellar.Instruction.{InstructionError}
use shopble_stellar.Watcher.Database.{Database}
use shopble_stellar.Watcher.Process.{process_db}
use shopble_stellar.Watcher.Chain.{Chain, World, write_chain}
use shopble_stellar.Api.Model.{CreateOrderRequest}
use shopble_stellar.Api.Orders.{create_order}

module _ {D S X : Type 0} (dec : Decimal D) (db : Database D S) where
  -- What can happen next: time passes and other things than the database change, a watcher commits
  -- the transaction of a payment, a watcher writes an order to the chain, or the API answers a
  -- request for a new order, with a new id that is not empty.
  pub data Step (world : World S X) : World S X → Type 0 where
    elapses : (x : X) → Step world (record world { net = x })
    pays :
        (stream evidence_id : String) (p : HorizonPayment)
        → Step world (record world { db = (process_db dec db stream evidence_id p world.db).1 })
    writes :
        (chain : Option (Chain D X)) (order : OrderIntent D) (status : OrderStatus)
        (why : RejectReason)
        → Step world (write_chain db chain order status why world).1
    orders :
        (db_error : String) (describe : InstructionError → String) (cfg : StellarConfig)
        (id : String) (body : String ⊎ CreateOrderRequest)
        → id ≢ ""
        → Step world
            (record world { db = (create_order dec db db_error describe cfg id body world.db).1 })

  pub data Steps (world : World S X) : World S X → Type 0 where
    here : Steps world world
    next : {w w' : World S X} → Steps world w → Step w w' → Steps world w'

  pub Steps-trans : {a b c : World S X} → Steps a b → Steps b c → Steps a c
  Steps-trans r Steps.here = r
  Steps-trans r (Steps.next q s) = Steps.next (Steps-trans r q) s
