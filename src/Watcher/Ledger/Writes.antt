-- ===== src/Watcher/Ledger/Writes.antt =====
-- A write of a transaction hash and a new order keep the ledger.
use mathlib.Core.Option.{some-injective}
use shopble_stellar.Common.{
  String, ◌≡◌, refl, sym, ap, ◌∙◌, ◌≢◌, inl, inr, String-cases, Option, none, some, string_eq,
  eq_iff, arith, subst,
}
use shopble_stellar.Decimal.{Decimal}
use shopble_stellar.Models.Status.{awaiting_payment}
use shopble_stellar.Models.Order.{OrderIntent}
use shopble_stellar.Models.Evidence.{PaymentEvidence}
use shopble_stellar.Watcher.Database.{Tables, untimed, set_hash, insert_order}
use shopble_stellar.Watcher.Matcher.{match}
use shopble_stellar.Watcher.Poll.Steps.{Republished}
use shopble_stellar.Watcher.Ledger.{Decides, Standing, IsLedger}

module _ {D : Type 0} (dec : Decimal D) where
  Decides-hashed :
      (hash : String) {e : PaymentEvidence D} {o : OrderIntent D}
      → Decides dec e o
      → Decides dec e (record o { on_chain_tx_hash = hash })
  unfolding match
  Decides-hashed hash d = record {
    order_id = d.order_id;
    memo = d.memo;
    fresh = d.fresh;
    judged = d.judged;
    status = d.status;
    reason = d.reason;
  }

  -- Where no evidence is new, an order that is the same but for its hash stands as before.
  Standing-hashed :
      {t u : Tables D} (hash : String) (o : OrderIntent D)
      → ((q : String) → u.evidence q ≡ t.evidence q)
      → Standing dec t o
      → Standing dec u (record o { on_chain_tx_hash = hash })
  Standing-hashed hash o same (Standing.waits waiting none_yet) =
      Standing.waits waiting λ q e stored. none_yet q e (sym (same q) ∙ stored)
  Standing-hashed hash o same (Standing.decided q e stored decides rest) =
      Standing.decided q e (same q ∙ stored) (Decides-hashed hash decides)
        λ q' e' stored' names away. rest q' e' (sym (same q') ∙ stored') names away

  set_hash-some :
      (hash : String) (row : Option (OrderIntent D)) {o' : OrderIntent D}
      → set_hash hash row ≡ some o'
      → (o : OrderIntent D) × (row ≡ some o) × (record o { on_chain_tx_hash = hash } ≡ o')
  set_hash-some hash none h = cc
  set_hash-some hash (some o) h = (o, refl, some-injective _ _ h)

  module _ {t u : Tables D} (ledger : IsLedger dec t) (r : Republished t u) where
    -- An order after the write: what it was, with the hash that it has now.
    republished_order :
        (id : String) (o' : OrderIntent D)
        → u.orders id ≡ some o'
        → (o : OrderIntent D) × (t.orders id ≡ some o)
          × ((hash : String) × (record o { on_chain_tx_hash = hash } ≡ o'))
    republished_order id o' h = elim (r.orders id) [
      | inl same ↦ (o', sym same ∙ h, (o'.on_chain_tx_hash, refl))
      | inr (hash, moved) ↦
          let (o, row, it) = set_hash-some hash (t.orders id) (sym moved ∙ h) in
          (o, row, (hash, it))
    ]

    pub Republished-IsLedger : IsLedger dec u
    Republished-IsLedger = record {
      named = elim (r.orders "") [
        | inl same ↦ same ∙ ledger.named
        | inr (hash, moved) ↦ moved ∙ ap (set_hash hash) ledger.named
      ];
      keyed = λ id o' h.
          let (o, here, (hash, it)) = republished_order id o' h in
          ap (λ (x : OrderIntent D). x.id) (sym it) ∙ ledger.keyed id o here;
      known = λ q e stored name.
          let (o, here) = ledger.known q e (sym (r.evidence q) ∙ stored) name in
          elim (r.orders e.order_id) [
            | inl same ↦ (o, same ∙ here)
            | inr (hash, moved) ↦
                (record o { on_chain_tx_hash = hash }, moved ∙ ap (set_hash hash) here)
          ];
      standing = λ id o' h.
          let (o, here, (hash, it)) = republished_order id o' h in
          subst (λ (x : OrderIntent D). Standing dec u x) it
            (Standing-hashed hash o r.evidence (ledger.standing id o here));
    }

  module _ {t : Tables D} (ledger : IsLedger dec t) (row : OrderIntent D)
      (new : t.orders row.id ≡ none) (name : row.id ≢ "")
      (waiting : row.status ≡ awaiting_payment) where
    abbrev grown : Tables D
    grown = insert_order row t

    others : (id : String) → row.id ≢ id → grown.orders id ≡ t.orders id
    unfolding insert_order
    others id other = ground (arith, eq_iff row.id id)

    here : grown.orders row.id ≡ some (untimed row)
    unfolding insert_order
    here = ground (arith, eq_iff row.id row.id)

    evidence_kept : (q : String) → grown.evidence q ≡ t.evidence q
    unfolding insert_order
    evidence_kept q = refl

    pub insert_order-IsLedger : IsLedger dec grown
    insert_order-IsLedger = record {
      named = others "" name ∙ ledger.named;
      keyed = λ id o h. elim (String-cases row.id id) [
        | inl same ↦ cc (ap grown.orders same, here, h, same)
        | inr other ↦ ledger.keyed id o (sym (others id other) ∙ h)
      ];
      known = λ q e stored nonempty.
          let (o, there) = ledger.known q e (sym (evidence_kept q) ∙ stored) nonempty in
          (o, others e.order_id (λ same. cc (ap t.orders same, new, there)) ∙ there);
      standing = λ id o h. elim (String-cases row.id id) [
        | inl same ↦
            let it : untimed row ≡ o = some-injective _ _ (sym here ∙ ap grown.orders same ∙ h) in
            subst (λ (x : OrderIntent D). Standing dec grown x) it
              (Standing.waits waiting λ q e stored same.
                let nonempty : e.order_id ≢ "" = λ empty. name (sym same ∙ empty) in
                let (o, there) = ledger.known q e (sym (evidence_kept q) ∙ stored) nonempty in
                cc (ap t.orders same, new, there))
        | inr other ↦
            let before = sym (others id other) ∙ h in
            Standing-hashed o.on_chain_tx_hash o evidence_kept (ledger.standing id o before)
      ];
    }
