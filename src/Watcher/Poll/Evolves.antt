-- ===== src/Watcher/Poll/Evolves.antt =====
-- What an order may become, and that one payment or one write to the chain makes nothing else of
-- it.
use shopble_stellar.Common.{String, ◌≡◌, refl, ap, ◌∙◌, inl, inr, Bool-cases, true, Option, some}
use shopble_stellar.Decimal.{Decimal}
use shopble_stellar.Models.Status.{
  OrderStatus, Verdict, awaiting_payment, order_final, verdict_beq, matched,
}
use shopble_stellar.Models.Status.Laws.{◌⟶*◌, detect, accept, refuse}
use shopble_stellar.Models.Order.{OrderIntent}
use shopble_stellar.Stellar.Horizon.{HorizonPayment}
use shopble_stellar.Watcher.Database.{Tables, set_hash}
use shopble_stellar.Watcher.Matcher.{terminal}
use shopble_stellar.Watcher.Process.Laws.{OrderStep}
use shopble_stellar.Watcher.Poll.Steps.{Republished}

⟶*-trans : {s t u : OrderStatus} → s ⟶* t → t ⟶* u → s ⟶* u
⟶*-trans ◌⟶*◌.here r = r
⟶*-trans (◌⟶*◌.then e r) q = ◌⟶*◌.then e (⟶*-trans r q)

-- What an order may become: its status follows the diagram, a final order keeps its status and its
-- reason, and what the buyer was asked for does not change.
pub record Evolves {D : Type 0} (o o' : OrderIntent D) : Type 0 where
  pub path : o.status ⟶* o'.status
  pub status : order_final o.status ≡ true → o'.status ≡ o.status
  pub reason_kept : order_final o.status ≡ true → o'.reject_reason ≡ o.reject_reason
  pub amount : o'.expected_amount ≡ o.expected_amount
  pub destination : o'.destination_account ≡ o.destination_account
  pub memo : o'.memo ≡ o.memo
  pub wallet : o'.buyer_wallet ≡ o.buyer_wallet

-- Every order that is in the tables is still there, evolved.
pub record AllEvolve {D : Type 0} (t u : Tables D) : Type 0 where
  pub evolve :
      (id : String) (o : OrderIntent D)
      → t.orders id ≡ some o
      → (o' : OrderIntent D) × (u.orders id ≡ some o') × Evolves o o'

terminal-path : (v : Verdict) → awaiting_payment ⟶* terminal v
unfolding terminal
terminal-path v = elim (Bool-cases (verdict_beq v matched)) [
  | inl yes_it ↦ rw yes_it (◌⟶*◌.then detect (◌⟶*◌.then accept ◌⟶*◌.here))
  | inr not_it ↦ rw not_it (◌⟶*◌.then detect (◌⟶*◌.then refuse ◌⟶*◌.here))
]

module _ {D : Type 0} where
  pub Evolves-refl : (o : OrderIntent D) → Evolves o o
  Evolves-refl o = record {
    path = ◌⟶*◌.here;
    status = λ h. refl;
    reason_kept = λ h. refl;
    amount = refl;
    destination = refl;
    memo = refl;
    wallet = refl;
  }

  Evolves-trans : {a b c : OrderIntent D} → Evolves a b → Evolves b c → Evolves a c
  Evolves-trans {a} {b} {c} f g = record {
    path = ⟶*-trans f.path g.path;
    status = λ h. g.status (ap order_final (f.status h) ∙ h) ∙ f.status h;
    reason_kept = λ h. g.reason_kept (ap order_final (f.status h) ∙ h) ∙ f.reason_kept h;
    amount = g.amount ∙ f.amount;
    destination = g.destination ∙ f.destination;
    memo = g.memo ∙ f.memo;
    wallet = g.wallet ∙ f.wallet;
  }

  pub AllEvolve-refl : (t : Tables D) → AllEvolve t t
  AllEvolve-refl t = record { evolve = λ id o h. (o, h, Evolves-refl o) }

  pub AllEvolve-trans : {t u w : Tables D} → AllEvolve t u → AllEvolve u w → AllEvolve t w
  AllEvolve-trans f g = record {
    evolve = λ id o h.
        let (b, there, e) = f.evolve id o h in
        let (c, end, e') = g.evolve id b there in (c, end, Evolves-trans e e');
  }

  hashed-Evolves :
      (hash : String) (o : OrderIntent D) → Evolves o (record o { on_chain_tx_hash = hash })
  hashed-Evolves hash o = record {
    path = ◌⟶*◌.here;
    status = λ h. refl;
    reason_kept = λ h. refl;
    amount = refl;
    destination = refl;
    memo = refl;
    wallet = refl;
  }

  pub Republished-AllEvolve : {t u : Tables D} → Republished t u → AllEvolve t u
  Republished-AllEvolve r = record {
    evolve = λ id o h. elim (r.orders id) [
      | inl same ↦ (o, same ∙ h, Evolves-refl o)
      | inr (hash, moved) ↦ (
        record o { on_chain_tx_hash = hash },
        moved ∙ ap (set_hash hash) h,
        hashed-Evolves hash o,
      )
    ];
  }

  pub OrderStep-Evolves :
      {dec : Decimal D} {p : HorizonPayment} {o : OrderIntent D} {after : Option (OrderIntent D)}
      → OrderStep dec p o after
      → (o' : OrderIntent D) × (after ≡ some o') × Evolves o o'
  unfolding order_final
  OrderStep-Evolves {o = o} (OrderStep.kept same) = (o, same, Evolves-refl o)
  OrderStep-Evolves {o = o} (OrderStep.settled v r waits memo fresh judged moved) = (
    record o { status = terminal v; reject_reason = r },
    moved,
    record {
      path = rw waits (terminal-path v);
      status = λ h. absurd (cc (ap order_final waits, h));
      reason_kept = λ h. absurd (cc (ap order_final waits, h));
      amount = refl;
      destination = refl;
      memo = refl;
      wallet = refl;
    },
  )
