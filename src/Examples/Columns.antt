-- ===== src/Examples/Columns.antt =====
-- A cache, a query in pages and a broker that the theorems on them apply to.
use shopble_stellar.Common.{
  ℕ, suc, ◌*◌, String, ◌≡◌, ◌≢◌, refl, sym, ap, ◌⊎◌, inr, true, Option, none, some, List, [], ◌∷◌,
  take, ◌==◌, string_eq, if◌then◌else◌, arith,
}
use shopble_stellar.Shared.Cache.{Redis, JsonEncoder, Cached, set, set_ex}
use shopble_stellar.Shared.Cache.Laws.{
  answer, count, IsLawful, GetsOrFails, ExistsOrFails, expected, get_value-set,
}
use shopble_stellar.Database.Paging.Laws.{all_pages, all_pages_lem}
use shopble_stellar.Glib.Queue.{
  QueueOutcome, panics, Nats, JetstreamProducer, js_with_stream_name, new_jetstream_consumer,
  new_jetstream_producer, jetstream_publish,
}
use shopble_stellar.Glib.Queue.Laws.{jetstream-panics}

-- A redis that holds what a function says.
abbrev Keys : Type 0
Keys = String → Option ℕ

abbrev put : String → Option ℕ → Keys → Keys
put key o keys = λ j. if key == j then o else keys j

abbrev redis : Redis ℕ String Keys
redis = record {
  get = λ key keys. (answer (keys key), keys);
  exists = λ key keys. (inr (count (keys key)), keys);
  set = λ key bytes timeout keys. (none, put key (some bytes) keys);
  del = λ key keys. (none, put key none keys);
}

abbrev encoder : JsonEncoder ℕ ℕ String
encoder = record { encode = inr; decode = inr }

abbrev held : Keys → String → Option ℕ
held keys = keys

redis-IsLawful : IsLawful redis encoder held
redis-IsLawful = record {
  get_lem = λ key keys. inr refl;
  exists_lem = λ key keys. inr refl;
  set_lem = λ key bytes timeout keys h j. ap (λ (p : Option String × Keys). p.1 j) (sym h);
  del_lem = λ key keys h j. ap (λ (p : Option String × Keys). p.1 j) (sym h);
  decode-encode = λ t h. sym h;
}

abbrev no_keys : Keys
no_keys key = none

get_value-set_example :
    GetsOrFails redis encoder held redis-IsLawful "order"
      (put "order" (some 5) no_keys)
      (Cached.ok 5)
    × ExistsOrFails redis encoder held redis-IsLawful "order" (put "order" (some 5) no_keys) true
    × ((j : String)
        → "order" ≢ j
        → GetsOrFails redis encoder held redis-IsLawful j
            (put "order" (some 5) no_keys)
            (expected redis encoder held redis-IsLawful none))
unfolding set set_ex
get_value-set_example =
    get_value-set redis encoder held redis-IsLawful "order" 5 0 no_keys
      (put "order" (some 5) no_keys) refl

abbrev seven : List ℕ
seven = 11 ∷ 12 ∷ 13 ∷ 14 ∷ 15 ∷ 16 ∷ 17 ∷ []

all_pages_example : all_pages 2 3 seven ≡ take (3 * 2) seven
all_pages_example = all_pages_lem 2 3 seven (omega arith) (omega arith)

-- A broker that counts its calls.
abbrev nats : Nats String String String ℕ
nats = record {
  pull_subscribe = λ topic durable stream n. (none, ("sub", suc n));
  fetch = λ sub n. (none, ("msg" ∷ [], suc n));
  ack_sync = λ msg n. (none, suc n);
  data_of = λ msg. msg;
  msg_key_of = λ msg. "key";
  publish_msg = λ subject key msg stream n. (none, suc n);
}

jetstream-panics_example :
    (new_jetstream_consumer nats ("orders" ∷ []) "d" (js_with_stream_name "s" ∷ []) 0 ≡ (panics, 0))
    × ((new_jetstream_producer nats "orders" (js_with_stream_name "s" ∷ []) ≡ panics)
        ⊎ ((p : JetstreamProducer) × (new_jetstream_producer nats "orders"
                (js_with_stream_name "s" ∷ [])
              ≡ QueueOutcome.ok p)
            × ((key msg : String) (y : ℕ) → jetstream_publish nats p key msg y ≡ (panics, y))))
jetstream-panics_example =
    jetstream-panics nats ("orders" ∷ []) "d" "orders" (js_with_stream_name "s" ∷ []) 0
