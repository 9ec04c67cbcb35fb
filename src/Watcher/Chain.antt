-- ===== src/Watcher/Chain.antt =====
-- services/watcher/watcher.go, `writeChain` and `syncChain`. The client of the contract is a
-- record of its two operations, which lib/libsoroban fills.
pub mod Laws
pub mod Sync
pub mod Round
use shopble_stellar.Common.{
  ℕ, ◌+◌, ◌*◌, String, Bool, true, false, Option, none, some, List, [], ◌∷◌, leb, ◌==◌, string_eq,
  if◌then◌else◌,
}
use shopble_stellar.Decimal.{Decimal}
use shopble_stellar.Models.Status.{OrderStatus, RejectReason, payment_detected, no_reason}
use shopble_stellar.Models.Order.{OrderIntent}
use shopble_stellar.Soroban.Sdk.{Xdr, Sdk, Rpc}
use shopble_stellar.Soroban.Call.{Outcome, ok, failed, Call}
use shopble_stellar.Soroban.Client.{Client, create_order, set_status}
use shopble_stellar.Watcher.Database.{Database}

pub record Chain (D X : Type 0) : Type 0 where
  pub create_order : OrderIntent D → Call X String
  pub set_status : String → OrderStatus → RejectReason → Call X String

abbrev pub client_chain :
    {D V A C K T R U X : Type 0}
    → Decimal D
    → Xdr V A
    → Sdk V C K T R U
    → Rpc X
    → Client C K
    → Chain D X
client_chain dec xdr sdk rpc c = record {
  create_order = create_order sdk rpc xdr dec c;
  set_status = set_status sdk rpc xdr c;
}

-- The database and everything else outside the program.
pub record World (S X : Type 0) : Type 0 where
  pub db : S
  pub net : X

abbrev pub chain_sync_batch : ℕ
chain_sync_batch = 5

abbrev pub chain_sync_max_attempts : ℕ
chain_sync_max_attempts = 3

-- The map `chainFailed`: a missing key counts 0, so to delete one is to set it to 0.
abbrev pub Failures : Type 0
Failures = String → ℕ

unfoldable pub set_failures : String → ℕ → Failures → Failures
set_failures id n chain_failed j = if id == j then n else chain_failed j

kept_or : {S : Type 0} → S → Option S → S
kept_or s none = s
kept_or s (some s') = s'

module _ {D S X : Type 0} (db : Database D S) where
  -- A failure of this update is only logged.
  unfoldable pub store_hash : String → Outcome String × X → World S X → Bool × World S X
  unfolding kept_or
  store_hash id (failed e, x) w = (false, record w { net = x })
  store_hash id (ok hash, x) w =
      (true, record { db = kept_or w.db (db.update_tx_hash id hash w.db); net = x })

  -- The three calls: the errors of the first two are only logged.
  abbrev pub chain_calls :
      Chain D X → OrderIntent D → OrderStatus → RejectReason → X → Outcome String × X
  chain_calls chain order status why x =
      let x1 = (chain.create_order order x).1 in
      let x2 = (chain.set_status order.id payment_detected no_reason x1).1 in
      chain.set_status order.id status why x2

  -- `writeChain`
  unfoldable pub write_chain :
      Option (Chain D X) → OrderIntent D → OrderStatus → RejectReason → World S X → Bool × World S X
  unfolding store_hash
  write_chain none order status why w = (false, w)
  write_chain (some chain) order status why w =
      store_hash order.id (chain_calls chain order status why w.net) w

  module _ (chain : Chain D X) where
    -- One write of the loop with its count.
    unfoldable pub attempt : OrderIntent D → Failures × World S X → Failures × World S X
    unfolding set_failures
    attempt o (chain_failed, w) =
        let (written, w') = write_chain (some chain) o o.status o.reject_reason w in
        (
          if written
              then set_failures o.id 0 chain_failed
              else set_failures o.id (chain_failed o.id + 1) chain_failed,
          w',
        )

    -- The loop, with the writes done so far.
    unfoldable pub sync_rows :
        List (OrderIntent D) → ℕ → Failures × World S X → Failures × World S X
    sync_rows [] done fw = fw
    sync_rows (o ∷ rows) done fw = elim (leb chain_sync_max_attempts (fw.0 o.id)) [
      | true ↦ sync_rows rows done fw
      | false ↦ elim (leb chain_sync_batch done) [
        | true ↦ fw
        | false ↦ sync_rows rows (done + 1) (attempt o fw)
      ]
    ]

  sync_found :
      Chain D X → Option (List (OrderIntent D)) → Failures × World S X → Failures × World S X
  sync_found chain none fw = fw
  sync_found chain (some rows) fw = sync_rows chain rows 0 fw

  -- `syncChain`
  unfoldable pub sync_chain : Option (Chain D X) → Failures × World S X → Failures × World S X
  unfolding sync_found
  sync_chain none fw = fw
  sync_chain (some chain) fw =
      sync_found chain
        (db.find_unsynced (OrderStatus.validated ∷ OrderStatus.rejected ∷ []) (chain_sync_batch * 4)
          fw.1.db)
        fw
