-- ===== src/Glib/Queue/Laws.antt =====
-- What the consumers and producers of JetStream cannot do.
use shopble_stellar.Common.{
  String, ◌≡◌, refl, ◌⊎◌, inl, inr, Option-cases, none, some, List, [], ◌∷◌,
}
use shopble_stellar.Glib.Queue.{
  ok, panics, JsOption, apply_all, Nats, JetstreamProducer, new_jetstream_consumer,
  new_jetstream_producer, jetstream_publish,
}

-- Options cannot give a meta to what has none.
apply_all-nil :
    (opts : List JsOption) → (apply_all opts none ≡ none) ⊎ (apply_all opts none ≡ some none)
unfolding apply_all
apply_all-nil [] = inr refl
apply_all-nil (setter ∷ rest) = elim (Option-cases (setter none)) [
  | inl stops ↦ inl (rw stops)
  | inr (m, goes) ↦ rw goes (apply_all-nil rest)
]

module _ {U K E X : Type 0} (nats : Nats U K E X) where
  -- Whatever the topics, the options and the broker, `NewJetstreamConsumer` panics; and
  -- `NewJetstreamProducer` panics or makes a producer that panics whenever it publishes.
  pub jetstream-panics :
      (topics : List String) (durable topic : String) (opts : List JsOption) (x : X)
      → (new_jetstream_consumer nats topics durable opts x ≡ (panics, x))
        × ((new_jetstream_producer nats topic opts ≡ panics)
            ⊎ ((p : JetstreamProducer) × (new_jetstream_producer nats topic opts ≡ ok p)
                × ((key msg : String) (y : X) → jetstream_publish nats p key msg y ≡ (panics, y))))
  unfolding new_jetstream_consumer new_jetstream_producer jetstream_publish
  jetstream-panics topics durable topic opts x = elim (apply_all-nil opts) [
    | inl stops ↦ (rw stops, inl (rw stops))
    | inr goes ↦
        (rw goes, inr (record { meta = none; subject = topic }, rw goes, λ key msg y. refl))
  ]
