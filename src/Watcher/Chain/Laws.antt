-- ===== src/Watcher/Chain/Laws.antt =====
-- What one write to the chain does to the database.
use shopble_stellar.Common.{String, ◌≡◌, refl, Bool, true, false, Option, none, some, string_eq}
use shopble_stellar.Models.Status.{OrderStatus, RejectReason, payment_detected, no_reason}
use shopble_stellar.Models.Order.{OrderIntent}
use shopble_stellar.Soroban.Call.{InvokeError, Outcome, ok, failed}
use shopble_stellar.Watcher.Database
use shopble_stellar.Watcher.Database.{Database, Tables, set_hash, hash_row}
use shopble_stellar.Watcher.Chain.{Chain, World, kept_or, store_hash, write_chain, chain_calls}

-- The tables with nothing changed, or with the hash of one order set.
pub data HashStep {D : Type 0} (id hash : String) (t : Tables D) : Tables D → Type 0 where
  unset : HashStep id hash t t
  set : HashStep id hash t (hash_row id hash t)

module _ {D S : Type 0} (db : Database D S) (tables : S → Tables D)
    (lawful : Database.IsLawful db tables) where
  kept_or-HashStep :
      (id hash : String) (s : S) (o : Option S)
      → db.update_tx_hash id hash s ≡ o
      → HashStep id hash (tables s) (tables (kept_or s o))
  unfolding kept_or
  kept_or-HashStep id hash s none h = unset
  kept_or-HashStep id hash s (some s') h = rw (lawful.update_tx_hash_lem id hash s h) set

module _ {D S X : Type 0} (db : Database D S) (tables : S → Tables D)
    (lawful : Database.IsLawful db tables) where
  -- What a write answers and leaves when its last call ends in this way: true exactly with the hash
  -- of that call.
  pub data Written (id : String) (w : World S X)
      : Outcome String × X → Bool × World S X → Type 0 where
    refused : {e : InvokeError} (x : X) → Written id w (failed e, x) (false, record w { net = x })
    written :
        (hash : String) (s : S) (x : X)
        → HashStep id hash (tables w.db) (tables s)
        → Written id w (ok hash, x) (true, record { db = s; net = x })

  store_hash-Written :
      (id : String) (r : Outcome String × X) (w : World S X) → Written id w r (store_hash db id r w)
  unfolding store_hash
  store_hash-Written id (failed e, x) w = refused x
  store_hash-Written id (ok hash, x) w =
      written hash _ x (kept_or-HashStep db tables lawful id hash w.db _ refl)

  -- A write makes three calls, one after the other: it registers the order, sets its status to
  -- payment detected, and sets the final status. It answers true exactly when the last returns no
  -- error, whatever the first two return. It changes nothing in the tables but the order's
  -- transaction hash, which it sets only then, and to the hash of that call.
  pub write_chain-Written :
      (chain : Chain D X) (order : OrderIntent D) (status : OrderStatus) (why : RejectReason)
      (w : World S X)
      → Written order.id w
          (chain.set_status order.id status why
            (chain.set_status order.id payment_detected no_reason
              (chain.create_order order w.net).1).1)
          (write_chain db (some chain) order status why w)
  unfolding write_chain
  write_chain-Written chain order status why w =
      store_hash-Written order.id (chain_calls db chain order status why w.net) w
