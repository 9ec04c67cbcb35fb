-- ===== src/Watcher/Poll.antt =====
-- services/watcher/watcher.go: `process` as a whole, `pollOnce`, and the rounds of `Start`. The
-- clock, the network and the source of ids are an unknown state `X`.
pub mod Steps
pub mod Cursor
pub mod Evolves
pub mod Stuck
use shopble_stellar.Common.{
  ℕ, zero, suc, ◌+◌, String, Bool, true, false, Option, none, some, List, [], ◌∷◌, length, ltb,
}
use shopble_stellar.Common.Int.{ℤ}
use shopble_stellar.Decimal.{Decimal}
use shopble_stellar.Models.Evidence.{WatcherCursor}
use shopble_stellar.Stellar.Config.{StellarConfig}
use shopble_stellar.Stellar.Horizon.{HorizonPayment, HttpResult, fetch_payments}
use shopble_stellar.Watcher.Database.{Database, Settled}
use shopble_stellar.Watcher.Process.{process_db}
use shopble_stellar.Watcher.Chain.{Chain, World, Failures, write_chain, sync_chain}

-- What the watcher uses of the standard library, net/http and segmentio/ksuid.
pub record Services (X : Type 0) : Type 0 where
  pub parse_time : String → Option ℤ
  pub http_get : String → X → HttpResult × X
  pub new_ksuid : X → String × X
  -- whether `w.ctx` is done
  pub context_done : X → Bool × X
  pub sleep : X → X

-- The fields of `Watcher` that do not change.
pub record Watcher (D X : Type 0) : Type 0 where
  pub cfg : StellarConfig
  pub chain : Option (Chain D X)
  pub stream : String
  pub limit : ℕ

-- The results of `pollOnce`.
pub record Polled : Type 0 where
  pub count : ℕ
  pub error : Bool

cursor_text : Option WatcherCursor → String
cursor_text none = ""
cursor_text (some wc) = wc.cursor

module _ {D S X : Type 0} (dec : Decimal D) (db : Database D S) (services : Services X)
    (w : Watcher D X) where
  -- `loadCursor`
  unfoldable pub load_cursor : S → String
  unfolding cursor_text
  load_cursor s = cursor_text (db.cursor_by_stream w.stream s)

  -- What follows the transaction: true is an error.
  unfoldable pub publish : Option (Option (Settled D)) → World S X → Bool × World S X
  publish none world = (true, world)
  publish (some none) world = (false, world)
  publish (some (some settled)) world =
      (false, (write_chain db w.chain settled.order settled.terminal settled.reason world).1)

  -- `process`; the id of the evidence is new.
  unfoldable pub process : HorizonPayment → World S X → Bool × World S X
  unfolding publish
  process p world =
      let (evidence_id, x) = services.new_ksuid world.net in
      let (settled, s) = process_db dec db w.stream evidence_id p world.db in
      publish settled (record { db = s; net = x })

  -- The loop of `pollOnce`, with the payments done so far.
  unfoldable pub process_all : List HorizonPayment → ℕ → World S X → Polled × World S X
  process_all [] i world = (record { count = i; error = false }, world)
  process_all (p ∷ rest) i world = elim ((process p world).0) [
    | true ↦ (record { count = i; error = true }, (process p world).1)
    | false ↦ process_all rest (i + 1) (process p world).1
  ]

  process_fetched : Option (List HorizonPayment) → World S X → Polled × World S X
  unfolding process_all
  process_fetched none world = (record { count = 0; error = true }, world)
  process_fetched (some payments) world = process_all payments 0 world

  -- The page that `pollOnce` reads.
  abbrev pub fetched : World S X → Option (List HorizonPayment) × X
  fetched world =
      fetch_payments services.parse_time services.http_get w.cfg (load_cursor world.db) w.limit
        world.net

  -- `pollOnce`
  unfoldable pub poll_once : World S X → Polled × World S X
  unfolding process_fetched
  poll_once world = process_fetched (fetched world).0 (record world { net = (fetched world).1 })

  slept : Failures × World S X → Failures × World S X
  slept (chain_failed, world) = (chain_failed, record world { net = services.sleep world.net })

  unfoldable pub after_poll : Polled → Failures × World S X → Failures × World S X
  unfolding slept
  after_poll polled fw = elim (polled.error) [
    | true ↦ slept fw
    | false ↦ elim (ltb polled.count w.limit) [
      | true ↦ slept (sync_chain db w.chain fw)
      | false ↦ fw
    ]
  ]

  -- One round of `Start` while the context is not done.
  unfoldable pub start_round : Failures × World S X → Failures × World S X
  unfolding after_poll
  start_round (chain_failed, world) =
      after_poll (poll_once world).0 (chain_failed, (poll_once world).1)

  -- `Start`, for at most the given number of rounds.
  unfoldable pub start : ℕ → Failures × World S X → Failures × World S X
  unfolding start_round
  start zero fw = fw
  start (suc n) (chain_failed, world) = elim ((services.context_done world.net).0) [
    | true ↦ (chain_failed, record world { net = (services.context_done world.net).1 })
    | false ↦
        start n
          (start_round (chain_failed, record world { net = (services.context_done world.net).1 }))
  ]
