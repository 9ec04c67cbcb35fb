-- ===== src/Examples/Memory.antt =====
-- A database in memory: functions of the keys, and the ids of its orders, oldest first.
pub mod Lawful
pub mod Query
use mathlib.Core.Path.{subst}
use mathlib.Core.Option.{some-injective}
use shopble_stellar.Common.{
  ℕ, String, ◌≡◌, refl, sym, ap, ◌∙◌, inl, inr, Bool, Bool-cases, true, false, ◌&&◌, ◌||◌, Option,
  none, some, List, [], ◌∷◌, take, arith, ◌==◌, string_eq, eq_iff, if◌then◌else◌,
}
use shopble_stellar.Common.Int.{pos}
use shopble_stellar.Models.Status.{OrderStatus, status_beq}
use shopble_stellar.Models.Order.{OrderIntent}
use shopble_stellar.Models.Evidence.{PaymentEvidence, WatcherCursor}
use shopble_stellar.Watcher.Database
use shopble_stellar.Watcher.Database.{
  Database, Settled, Tables, untimed, uncaptured, rows_inserted, matching, change, insert_row,
  update_row, save_row, set_hash, hash_row, status_in,
}

pub record Memory (D : Type 0) : Type 0 where
  pub rows : Tables D
  pub ids : List String

abbrev pub has_id : List String → String → Bool
has_id [] j = false
has_id (id ∷ ids) j = id == j || has_id ids j

abbrev with_cursor : String → Option String → Option WatcherCursor
with_cursor stream none = none
with_cursor stream (some c) = some (record { stream = stream; cursor = c; updated_at = pos 0 })

module _ {D : Type 0} where
  -- the order under a key, with that key
  abbrev pub keyed_order : String → Option (OrderIntent D) → Option (OrderIntent D)
  keyed_order id none = none
  keyed_order id (some o) = some (record o { id = id })

  abbrev with_memo : String → Option (OrderIntent D) → Option (OrderIntent D)
  with_memo memo none = none
  with_memo memo (some o) = if o.memo == memo then some (record o { id = memo }) else none

  abbrev known_order : String → Option (OrderIntent D) → Option (OrderIntent D)
  known_order id none = none
  known_order id (some o) = some (record (untimed o) { id = id })

  abbrev known_evidence : String → Option (PaymentEvidence D) → Option (PaymentEvidence D)
  known_evidence q none = none
  known_evidence q (some e) = some (record (uncaptured e) { op_id = q })

  abbrev pub memory_tables : Memory D → Tables D
  memory_tables m = record {
    orders = λ id. known_order id (m.rows.orders id);
    evidence = λ q. known_evidence q (m.rows.evidence q);
    cursors = m.rows.cursors;
  }

  abbrev pub add_unsynced :
      List OrderStatus → Option (OrderIntent D) → List (OrderIntent D) → List (OrderIntent D)
  add_unsynced statuses none out = out
  add_unsynced statuses (some o) out =
      if status_in o.status statuses && (o.on_chain_tx_hash == "") then o ∷ out else out

  abbrev pub unsynced :
      List OrderStatus → List String → (String → Option (OrderIntent D)) → List (OrderIntent D)
  unsynced statuses [] orders = []
  unsynced statuses (id ∷ ids) orders =
      let rest = unsynced statuses ids orders in
      if has_id ids id then rest else add_unsynced statuses (keyed_order id (orders id)) rest

  abbrev new_row : PaymentEvidence D → Option (PaymentEvidence D) → Option (PaymentEvidence D)
  new_row ev none = some ev
  new_row ev (some old) = some old

  abbrev commit :
      Memory D → Option (Option (Settled D) × Memory D) → Option (Option (Settled D)) × Memory D
  commit m none = (none, m)
  commit m (some (r, m')) = (some r, m')

  abbrev with_orders : (String → Option (OrderIntent D)) → Memory D → Memory D
  with_orders orders m = record m { rows = record (m.rows) { orders = orders } }

  -- A row under a key that is taken is refused.
  abbrev pub added_order : OrderIntent D → Memory D → Option (OrderIntent D) → Option (Memory D)
  added_order o m (some old) = none
  added_order o m none = some (record {
    rows = record (m.rows) { orders = λ j. if o.id == j then some o else m.rows.orders j };
    ids = o.id ∷ m.ids;
  })

  abbrev pub memory_db : Database D (Memory D)
  memory_db = record {
    order_by_memo = λ memo m. with_memo memo (m.rows.orders memo);
    order_by_id = λ id m. keyed_order id (m.rows.orders id);
    cursor_by_stream = λ stream m. with_cursor stream (m.rows.cursors stream);
    insert_evidence = λ ev m. some (
      rows_inserted ev (m.rows),
      record m {
        rows = record (m.rows) {
          evidence =
              λ q. if ev.op_id == q then new_row ev (m.rows.evidence q) else m.rows.evidence q;
        };
      },
    );
    update_status = λ id from to m. some (
      matching from (m.rows.orders id),
      with_orders
          (λ j.
            if id == j
            then change from (λ o. record o { status = to }) (m.rows.orders j)
            else m.rows.orders j)
          m,
    );
    update_verdict = λ id from to reason m. some (
      matching from (m.rows.orders id),
      with_orders
          (λ j.
            if id == j
            then change from (λ o. record o { status = to; reject_reason = reason })
                (m.rows.orders j)
            else m.rows.orders j)
          m,
    );
    save_cursor = λ stream cursor m. some (record m {
      rows = record (m.rows) {
        cursors = λ k. if stream == k then some cursor else m.rows.cursors k;
      };
    });
    update_tx_hash = λ id hash m.
        some (
          with_orders (λ j. if id == j then set_hash hash (m.rows.orders j) else m.rows.orders j)
            m);
    create_order = λ o m. added_order o m (m.rows.orders o.id);
    find_unsynced = λ statuses limit m. some (take limit (unsynced statuses m.ids m.rows.orders));
    transaction = λ fc m. commit m (fc m);
  }
