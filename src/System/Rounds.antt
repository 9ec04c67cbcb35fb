-- ===== src/System/Rounds.antt =====
-- The rounds of a watcher are made of such steps.
use shopble_stellar.Common.{
  ℕ, zero, suc, ◌+◌, ◌*◌, inl, inr, Bool-cases, Option, Option-cases, none, some, List, [], ◌∷◌,
  ltb, leb,
}
use shopble_stellar.Decimal.{Decimal}
use shopble_stellar.Models.Status.{OrderStatus}
use shopble_stellar.Models.Order.{OrderIntent}
use shopble_stellar.Stellar.Horizon.{HorizonPayment}
use shopble_stellar.Watcher.Database.{Database, Settled}
use shopble_stellar.Watcher.Process.{process_db}
use shopble_stellar.Watcher.Chain.{
  Chain, World, Failures, attempt, sync_rows, sync_chain, chain_sync_max_attempts, chain_sync_batch,
}
use shopble_stellar.Watcher.Poll.{
  Watcher, Services, publish, process, process_all, poll_once, fetched, start_round, start,
  after_poll, Polled,
}
use shopble_stellar.System.{Step, Steps, here, next, Steps-trans}

module _ {D S X : Type 0} (dec : Decimal D) (db : Database D S) (services : Services X)
    (w : Watcher D X) where
  publish-Steps :
      (r : Option (Option (Settled D))) (world : World S X)
      → Steps dec db world (publish dec db services w r world).1
  unfolding publish
  publish-Steps none world = here
  publish-Steps (some none) world = here
  publish-Steps (some (some settled)) world =
      next here (Step.writes w.chain settled.order settled.terminal settled.reason)

  process-Steps :
      (p : HorizonPayment) (world : World S X)
      → Steps dec db world (process dec db services w p world).1
  unfolding process
  process-Steps p world =
      let (evidence_id, x) = services.new_ksuid world.net in
      let (settled, s) = process_db dec db w.stream evidence_id p world.db in
      Steps-trans dec db (next (next here (Step.elapses x)) (Step.pays w.stream evidence_id p))
        (publish-Steps settled (record { db = s; net = x }))

  process_all-Steps :
      (payments : List HorizonPayment) (i : ℕ) (world : World S X)
      → Steps dec db world (process_all dec db services w payments i world).1
  unfolding process_all
  process_all-Steps [] i world = here
  process_all-Steps (p ∷ rest) i world = elim (Bool-cases ((process dec db services w p world).0)) [
    | inl bad ↦ rw (process_all, bad) (process-Steps p world)
    | inr good ↦
        rw (process_all, good)
          (Steps-trans dec db (process-Steps p world)
            (process_all-Steps rest (i + 1) (process dec db services w p world).1))
  ]

  poll_once-Steps : (world : World S X) → Steps dec db world (poll_once dec db services w world).1
  unfolding poll_once
  poll_once-Steps world = elim (Option-cases ((fetched dec db services w world).0)) [
    | inl unread ↦
        rw (poll_once, unread) (next here (Step.elapses (fetched dec db services w world).1))
    | inr (payments, read) ↦
        let world' : World S X = record world { net = (fetched dec db services w world).1 } in
        rw (poll_once, read)
          (Steps-trans dec db (next here (Step.elapses world'.net))
            (process_all-Steps payments 0 world'))
  ]

  attempt-Steps :
      (chain : Chain D X) (o : OrderIntent D) (fw : Failures × World S X)
      → Steps dec db fw.1 (attempt db chain o fw).1
  unfolding attempt
  attempt-Steps chain o fw = next here (Step.writes (some chain) o o.status o.reject_reason)

  sync_rows-Steps :
      (chain : Chain D X) (rows : List (OrderIntent D)) (done : ℕ) (fw : Failures × World S X)
      → Steps dec db fw.1 (sync_rows db chain rows done fw).1
  unfolding sync_rows
  sync_rows-Steps chain [] done fw = here
  sync_rows-Steps chain (o ∷ rows) done fw =
      elim (Bool-cases (leb chain_sync_max_attempts (fw.0 o.id))) [
        | inl spent ↦ rw (sync_rows, spent) (sync_rows-Steps chain rows done fw)
        | inr left ↦ elim (Bool-cases (leb chain_sync_batch done)) [
          | inl full ↦ rw (sync_rows, left, full) here
          | inr room ↦
              rw (sync_rows, left, room)
                (Steps-trans dec db (attempt-Steps chain o fw)
                  (sync_rows-Steps chain rows (done + 1) (attempt db chain o fw)))
        ]
      ]

  sync_chain-Steps :
      (chain : Option (Chain D X)) (fw : Failures × World S X)
      → Steps dec db fw.1 (sync_chain db chain fw).1
  unfolding sync_chain
  sync_chain-Steps none fw = here
  sync_chain-Steps (some chain) fw =
      elim (Option-cases (
        db.find_unsynced (OrderStatus.validated ∷ OrderStatus.rejected ∷ []) (chain_sync_batch * 4)
          fw.1.db)) [
            | inl unread ↦ rw (sync_chain, unread) here
            | inr (rows, read) ↦ rw (sync_chain, read) (sync_rows-Steps chain rows 0 fw)
          ]

  after_poll-Steps :
      (polled : Polled) (fw : Failures × World S X)
      → Steps dec db fw.1 (after_poll dec db services w polled fw).1
  unfolding after_poll
  after_poll-Steps polled fw = elim (Bool-cases (polled.error)) [
    | inl bad ↦ rw (after_poll, bad) (next here (Step.elapses (services.sleep fw.1.net)))
    | inr good ↦ elim (Bool-cases (ltb polled.count w.limit)) [
      | inl tip ↦
          rw (after_poll, good, tip)
            (next (sync_chain-Steps w.chain fw)
              (Step.elapses (services.sleep (sync_chain db w.chain fw).1.net)))
      | inr behind ↦ rw (after_poll, good, behind) here
    ]
  ]

  start_round-Steps :
      (fw : Failures × World S X) → Steps dec db fw.1 (start_round dec db services w fw).1
  unfolding start_round
  start_round-Steps (f, world) =
      let (polled, world') = poll_once dec db services w world in
      Steps-trans dec db (poll_once-Steps world) (after_poll-Steps polled (f, world'))

  -- What `Start` does is such steps, whatever the network answers.
  pub start-Steps :
      (n : ℕ) (fw : Failures × World S X) → Steps dec db fw.1 (start dec db services w n fw).1
  unfolding start
  start-Steps zero fw = here
  start-Steps (suc n) (f, world) =
      let world' : World S X = record world { net = (services.context_done world.net).1 } in
      elim (Bool-cases ((services.context_done world.net).0)) [
        | inl stopped ↦ rw (start, stopped) (next here (Step.elapses world'.net))
        | inr going ↦
            rw (start, going)
              (Steps-trans dec db
                (Steps-trans dec db (next here (Step.elapses world'.net))
                  (start_round-Steps (f, world')))
                (start-Steps n (start_round dec db services w (f, world'))))
      ]
