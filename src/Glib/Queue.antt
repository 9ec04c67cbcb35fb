-- ===== src/Glib/Queue.antt =====
-- glib/gmsgqueue: the consumers and producers of Kafka and JetStream. Their libraries are interfaces
-- over an unknown state `X`; `K` is the type of the messages that a library hands out, and `E` that
-- of its errors. A pointer that may be nil is an `Option`.
pub mod Laws
use shopble_stellar.Common.{String, Bool, true, false, Option, none, some, List, [], ◌∷◌}
use shopble_stellar.Shared.Consumer.{Msg}

-- An answer, an error with its message before it, or the panic of a nil pointer or an index.
pub data QueueOutcome (E A : Type 0) : Type 0 where
  ok : A → QueueOutcome E A
  failed : String → E → QueueOutcome E A
  plain : E → QueueOutcome E A
  panics : QueueOutcome E A

-- github.com/segmentio/kafka-go
pub record Kafka (R W K E X : Type 0) : Type 0 where
  pub new_reader : List String → String → R
  pub new_writer : String → W
  pub fetch_message : R → X → Option E × (K × X)
  pub commit_messages : R → K → X → Option E × X
  pub write_messages : W → String → String → X → Option E × X
  pub value_of : K → String
  pub key_of : K → String

pub record KafkaConsumer (R K : Type 0) : Type 0 where
  pub reader : R
  pub current_msg : Option K

module _ {R W K E X : Type 0} (kafka : Kafka R W K E X) where
  -- `NewkafkaConsumer`
  unfoldable pub new_kafka_consumer : List String → String → KafkaConsumer R K
  new_kafka_consumer topics group_id = record {
    reader = kafka.new_reader topics group_id;
    current_msg = none;
  }

  kafka_fetched :
      KafkaConsumer R K → Option E × (K × X) → QueueOutcome E Msg × (KafkaConsumer R K × X)
  kafka_fetched c (some e, (k, x)) = (failed "fetch msg failed" e, (c, x))
  kafka_fetched c (none, (k, x)) = (
    ok (record { raw = kafka.value_of k; key = kafka.key_of k }),
    (record c { current_msg = some k }, x),
  )

  -- `KafkaConsumer.FetchMessage`
  unfoldable pub kafka_fetch_message :
      KafkaConsumer R K → X → QueueOutcome E Msg × (KafkaConsumer R K × X)
  unfolding kafka_fetched
  kafka_fetch_message c x = kafka_fetched c (kafka.fetch_message c.reader x)

  acked : Option E × X → QueueOutcome E Unit × X
  acked (none, x) = (ok tt, x)
  acked (some e, x) = (failed "ack msg failed" e, x)

  kafka_committed : R → Option K → X → QueueOutcome E Unit × X
  unfolding acked
  kafka_committed reader none x = (panics, x)
  kafka_committed reader (some k) x = acked (kafka.commit_messages reader k x)

  -- `KafkaConsumer.CommitMessage`: its receiver is a copy, so the message that it clears is the
  -- copy's, and the consumer is as before.
  unfoldable pub kafka_commit_message :
      KafkaConsumer R K → X → QueueOutcome E Unit × (KafkaConsumer R K × X)
  unfolding kafka_committed
  kafka_commit_message c x =
      let (answer, x') = kafka_committed c.reader c.current_msg x in (answer, (c, x'))

  produced : Option E × X → QueueOutcome E Unit × X
  produced (none, x) = (ok tt, x)
  produced (some e, x) = (plain e, x)

  -- `KafkaProducer.Publish`
  unfoldable pub kafka_publish : W → String → String → X → QueueOutcome E Unit × X
  unfolding produced
  kafka_publish writer key msg x = produced (kafka.write_messages writer key msg x)

pub record JetstreamMeta : Type 0 where
  pub stream_name : String

-- An option writes to the meta that it is given a pointer to; `none` is the panic of one that writes
-- through a nil pointer.
abbrev pub JsOption : Type 0
JsOption = Option JetstreamMeta → Option (Option JetstreamMeta)

-- `JsWithStreamName`
unfoldable pub js_with_stream_name : String → JsOption
js_with_stream_name name none = none
js_with_stream_name name (some meta) = some (some (record meta { stream_name = name }))

-- Each option gets the pointer itself, which no option can change: a nil one stays nil.
unfoldable pub apply_all : List JsOption → Option JetstreamMeta → Option (Option JetstreamMeta)
apply_all [] meta = some meta
apply_all (setter ∷ rest) meta = elim meta [
  | none ↦ elim (setter none) [ none ↦ none | some m ↦ apply_all rest none ]
  | some written ↦ elim (setter (some written)) [
    | none ↦ none
    | some m ↦ elim m [ none ↦ apply_all rest (some written) | some w ↦ apply_all rest (some w) ]
  ]
]

-- github.com/nats-io/nats.go with the context of the module
pub record Nats (U K E X : Type 0) : Type 0 where
  pub pull_subscribe : String → String → String → X → Option E × (U × X)
  -- the messages that arrive, of which `Fetch(1)` asks for one
  pub fetch : U → X → Option E × (List K × X)
  -- `AckSync`, which the source also calls on a nil message
  pub ack_sync : Option K → X → Option E × X
  pub data_of : K → String
  pub msg_key_of : K → String
  pub publish_msg : String → String → String → String → X → Option E × X

pub record JetstreamConsumer (U K : Type 0) : Type 0 where
  pub meta : Option JetstreamMeta
  pub sub : U
  pub current_msg : Option K

pub record JetstreamProducer : Type 0 where
  pub meta : Option JetstreamMeta
  pub subject : String

first_topic : List String → Option String
first_topic [] = none
first_topic (topic ∷ rest) = some topic

module _ {U K E X : Type 0} (nats : Nats U K E X) where
  subscribed :
      Option JetstreamMeta → Option E × (U × X) → QueueOutcome E (JetstreamConsumer U K) × X
  subscribed meta (some e, (u, x)) = (failed "init consumer failed" e, x)
  subscribed meta (none, (u, x)) = (ok (record { meta = meta; sub = u; current_msg = none }), x)

  bound :
      Option JetstreamMeta → Option String → String → X → QueueOutcome E (JetstreamConsumer U K) × X
  unfolding subscribed
  bound none topic durable x = (panics, x)
  bound (some meta) none durable x = (panics, x)
  bound (some meta) (some topic) durable x =
      subscribed (some meta) (nats.pull_subscribe topic durable meta.stream_name x)

  with_meta :
      Option (Option JetstreamMeta)
      → List String
      → String
      → X
      → QueueOutcome E (JetstreamConsumer U K) × X
  unfolding bound first_topic
  with_meta none topics durable x = (panics, x)
  with_meta (some meta) topics durable x = bound meta (first_topic topics) durable x

  -- `NewJetstreamConsumer`: the meta of `&JetstreamConsumer{}` is nil.
  unfoldable pub new_jetstream_consumer :
      List String → String → List JsOption → X → QueueOutcome E (JetstreamConsumer U K) × X
  unfolding with_meta
  new_jetstream_consumer topics durable opts x = with_meta (apply_all opts none) topics durable x

  jetstream_fetched :
      JetstreamConsumer U K
      → Option E × (List K × X)
      → QueueOutcome E Msg × (JetstreamConsumer U K × X)
  jetstream_fetched c (some e, (ks, x)) = (failed "fetch msg failed" e, (c, x))
  jetstream_fetched c (none, ([], x)) = (panics, (c, x))
  jetstream_fetched c (none, (k ∷ rest, x)) = (
    ok (record { raw = nats.data_of k; key = nats.msg_key_of k }),
    (record c { current_msg = some k }, x),
  )

  -- `JetstreamConsumer.FetchMessage`
  unfoldable pub jetstream_fetch_message :
      JetstreamConsumer U K → X → QueueOutcome E Msg × (JetstreamConsumer U K × X)
  unfolding jetstream_fetched
  jetstream_fetch_message c x = jetstream_fetched c (nats.fetch c.sub x)

  ack_synced : Option E × X → QueueOutcome E Unit × X
  ack_synced (none, x) = (ok tt, x)
  ack_synced (some e, x) = (failed "ack msg failed" e, x)

  -- `JetstreamConsumer.CommitMessage`, whose receiver is a copy as well
  unfoldable pub jetstream_commit_message :
      JetstreamConsumer U K → X → QueueOutcome E Unit × (JetstreamConsumer U K × X)
  unfolding ack_synced
  jetstream_commit_message c x =
      let (answer, x') = ack_synced (nats.ack_sync c.current_msg x) in (answer, (c, x'))

  made : String → Option (Option JetstreamMeta) → QueueOutcome E JetstreamProducer
  made topic none = panics
  made topic (some meta) = ok (record { meta = meta; subject = topic })

  -- `NewJetstreamProducer`: the meta of `&JetstreamProducer{subject: topic}` is nil.
  unfoldable pub new_jetstream_producer : String → List JsOption → QueueOutcome E JetstreamProducer
  unfolding made
  new_jetstream_producer topic opts = made topic (apply_all opts none)

  published : Option E × X → QueueOutcome E Unit × X
  published (none, x) = (ok tt, x)
  published (some e, x) = (plain e, x)

  -- `JetstreamProducer.Publish` reads the name of the stream through the meta.
  unfoldable pub jetstream_publish :
      JetstreamProducer → String → String → X → QueueOutcome E Unit × X
  unfolding published
  jetstream_publish p key msg x = elim (p.meta) [
    | none ↦ (panics, x)
    | some meta ↦ published (nats.publish_msg p.subject key msg meta.stream_name x)
  ]
