-- ===== src/Watcher/Poll/Steps.antt =====
-- One payment together with what is passed on to the chain.
use shopble_stellar.Common.{
  String, ◌≡◌, refl, ◌∙◌, ◌⊎◌, inl, inr, Bool, Bool-cases, true, false, Option, none, some, ◌==◌,
  string_eq,
}
use shopble_stellar.Decimal.{Decimal}
use shopble_stellar.Models.Order.{OrderIntent}
use shopble_stellar.Models.Evidence.{PaymentEvidence}
use shopble_stellar.Models.Status.{OrderStatus, RejectReason}
use shopble_stellar.Stellar.Horizon.{HorizonPayment}
use shopble_stellar.Watcher.Database
use shopble_stellar.Watcher.Database.{Database, Settled, Tables, set_hash, hash_row}
use shopble_stellar.Watcher.Process.{process_db}
use shopble_stellar.Watcher.Process.Refines.{process_db-refines}
use shopble_stellar.Watcher.Process.Laws.{process_db_recorded}
use shopble_stellar.Watcher.Chain.{Chain, World, write_chain}
use shopble_stellar.Watcher.Chain.Laws.{HashStep, Written, write_chain-Written}
use shopble_stellar.Watcher.Poll.{Watcher, Services, publish, process}

-- Nothing changes but transaction hashes of orders.
pub record Republished {D : Type 0} (t u : Tables D) : Type 0 where
  pub cursors : (k : String) → u.cursors k ≡ t.cursors k
  pub evidence : (q : String) → u.evidence q ≡ t.evidence q
  pub orders :
      (j : String)
      → (u.orders j ≡ t.orders j) ⊎ ((h : String) × (u.orders j ≡ set_hash h (t.orders j)))

pub Republished-refl : {D : Type 0} (t : Tables D) → Republished t t
Republished-refl t = record { cursors = λ k. refl; evidence = λ q. refl; orders = λ j. inl refl }

HashStep-Republished :
    {D : Type 0} {id hash : String} {t u : Tables D} → HashStep id hash t u → Republished t u
unfolding hash_row
HashStep-Republished {t = t} HashStep.unset = Republished-refl t
HashStep-Republished {id = id} {hash = hash} {t = t} HashStep.set = record {
  cursors = λ k. refl;
  evidence = λ q. refl;
  orders = λ j. elim (Bool-cases (id == j)) [
    | inl here ↦ rw here (inr (hash, refl))
    | inr away ↦ rw away (inl refl)
  ];
}

module _ {D S X : Type 0} (db : Database D S) (tables : S → Tables D)
    (lawful : Database.IsLawful db tables) where
  Written-Republished :
      {id : String} {w w' : World S X} {r : _} {b : Bool}
      → Written db tables lawful id w r (b, w')
      → Republished (tables w.db) (tables w'.db)
  Written-Republished {w = w} (Written.refused x) = Republished-refl (tables w.db)
  Written-Republished (Written.written hash s x step) = HashStep-Republished step

  pub write_chain-Republished :
      (chain : Option (Chain D X)) (order : OrderIntent D) (status : OrderStatus)
      (why : RejectReason) (w : World S X)
      → Republished (tables w.db) (tables (write_chain db chain order status why w).1.db)
  write_chain-Republished none order status why w =
      unfold write_chain in Republished-refl (tables w.db)
  write_chain-Republished (some chain) order status why w =
      Written-Republished (write_chain-Written db tables lawful chain order status why w)

  module _ (dec : Decimal D) (services : Services X) (w : Watcher D X) where
    publish-Republished :
        (r : Option (Option (Settled D))) (world : World S X)
        → Republished (tables world.db) (tables (publish dec db services w r world).1.db)
    unfolding publish
    publish-Republished none world = Republished-refl (tables world.db)
    publish-Republished (some none) world = Republished-refl (tables world.db)
    publish-Republished (some (some settled)) world =
        write_chain-Republished w.chain settled.order settled.terminal settled.reason world

    publish-error :
        (r : Option (Option (Settled D))) (world : World S X)
        → (((publish dec db services w r world).0 ≡ true) × (r ≡ none))
          ⊎ (((publish dec db services w r world).0 ≡ false)
              × ((settled : Option (Settled D)) × (r ≡ some settled)))
    unfolding publish
    publish-error none world = inl (refl, refl)
    publish-error (some none) world = inr (refl, (none, refl))
    publish-error (some (some settled)) world = inr (refl, (some settled, refl))

    module _ (p : HorizonPayment) (world : World S X) where
      abbrev evidence_id : String
      evidence_id = (services.new_ksuid world.net).0

      abbrev committed : Option (Option (Settled D)) × S
      committed = process_db dec db w.stream evidence_id p world.db

      abbrev handed : World S X
      handed = record { db = committed.1; net = (services.new_ksuid world.net).1 }

      pub process-Republished :
          Republished (tables committed.1) (tables (process dec db services w p world).1.db)
      unfolding process
      process-Republished = publish-Republished committed.0 handed

      -- An error leaves the database as it was.
      pub process-error :
          (process dec db services w p world).0 ≡ true
          → (process dec db services w p world).1.db ≡ world.db
      unfolding process
      process-error h = elim (publish-error committed.0 handed) [
        | inl (bad, r) ↦
            elim (process_db-refines dec db tables lawful w.stream evidence_id p world.db) [
              | inl (failed, same) ↦ rw (publish, failed) same
              | inr (done, rows) ↦ absurd (cc (r, done))
            ]
        | inr (good, x) ↦ absurd (cc (h, good))
      ]

      pub process-recorded :
          (process dec db services w p world).0 ≡ false
          → let after = tables (process dec db services w p world).1.db in
            (after.cursors w.stream ≡ some p.paging_token)
            × ((e : PaymentEvidence D) × (after.evidence p.id ≡ some e))
            × ((q : String) (e : PaymentEvidence D)
                → (tables world.db).evidence q ≡ some e
                → after.evidence q ≡ some e)
      unfolding process
      process-recorded h = elim (publish-error committed.0 handed) [
        | inl (bad, r) ↦ absurd (cc (h, bad))
        | inr (good, (settled, r)) ↦
            let (cursor, others, (e, stored), kept) =
              process_db_recorded dec db tables lawful w.stream evidence_id p world.db r in
            let quiet = process-Republished in
            (
              quiet.cursors w.stream ∙ cursor,
              (e, quiet.evidence p.id ∙ stored),
              λ q old before. quiet.evidence q ∙ kept q old before,
            )
      ]
