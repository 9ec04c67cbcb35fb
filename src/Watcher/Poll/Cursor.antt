-- ===== src/Watcher/Poll/Cursor.antt =====
-- What one poll has done when it returns, with or without an error.
use shopble_stellar.Common.{
  ℕ, suc, ◌+◌, ◌≤◌, String, ◌≡◌, refl, ap, ◌∙◌, inl, inr, Bool, Bool-cases, true, false, ◌⊎◌,
  Option, Option-cases, none, some, List, [], ◌∷◌, length, take, All, arith,
}
use shopble_stellar.Decimal.{Decimal}
use shopble_stellar.Models.Evidence.{PaymentEvidence}
use shopble_stellar.Stellar.Horizon.{HorizonPayment}
use shopble_stellar.Watcher.Database
use shopble_stellar.Watcher.Database.{Database, Tables}
use shopble_stellar.Watcher.Chain.{World}
use shopble_stellar.Watcher.Poll.{
  Watcher, Services, Polled, process, process_all, poll_once, fetched,
}
use shopble_stellar.Watcher.Poll.Steps.{process-error, process-recorded}

-- The cursor after these payments.
abbrev pub last_token : Option String → List HorizonPayment → Option String
last_token cursor [] = cursor
last_token cursor (p ∷ rest) = last_token (some p.paging_token) rest

abbrev pub Recorded : {D : Type 0} → Tables D → HorizonPayment → Type 0
Recorded {D} t p = (e : PaymentEvidence D) × (t.evidence p.id ≡ some e)

-- The payments are recorded, the cursor stands behind them, and no evidence is lost.
pub record Covers {D : Type 0} (stream : String) (payments : List HorizonPayment) (t u : Tables D)
    : Type 0 where
  pub cursor : u.cursors stream ≡ last_token (t.cursors stream) payments
  pub recorded : All (Recorded u) payments
  pub kept : (q : String) (e : PaymentEvidence D) → t.evidence q ≡ some e → u.evidence q ≡ some e

-- How far a poll came: the payments it counts are covered, and without an error that is all.
pub record Reached {D : Type 0} (stream : String) (payments : List HorizonPayment) (done : ℕ)
    (polled : Polled) (t u : Tables D) : Type 0 where
  pub taken : ℕ
  pub counted : polled.count ≡ done + taken
  pub within : taken ≤ length payments
  pub complete : polled.error ≡ false → taken ≡ length payments
  pub covers : Covers stream (take taken payments) t u

nothing :
    {D : Type 0} (stream : String) (payments : List HorizonPayment) (done : ℕ) (error : Bool)
    (t u : Tables D)
    → u ≡ t
    → (error ≡ false → 0 ≡ length payments)
    → Reached stream payments done (record { count = done; error = error }) t u
nothing stream payments done error t u same all = record {
  taken = 0;
  counted = omega arith;
  within = omega arith;
  complete = all;
  covers = record {
    cursor = ap (λ (x : Tables _). x.cursors stream) same;
    recorded = tt;
    kept = λ q e h. ap (λ (x : Tables _). x.evidence q) same ∙ h;
  };
}

one_more :
    {D : Type 0} (stream : String) (p : HorizonPayment) (rest : List HorizonPayment) (done : ℕ)
    (polled : Polled) (t t' u : Tables D)
    → t'.cursors stream ≡ some p.paging_token
    → Recorded t' p
    → ((q : String) (e : PaymentEvidence D) → t.evidence q ≡ some e → t'.evidence q ≡ some e)
    → Reached stream rest (done + 1) polled t' u
    → Reached stream (p ∷ rest) done polled t u
one_more stream p rest done polled t t' u moved (e, stored) kept further = record {
  taken = suc further.taken;
  counted = omega (arith, further.counted);
  within = omega (arith, further.within);
  complete = λ h. omega (arith, further.complete h);
  covers = record {
    cursor = further.covers.cursor ∙ ap (λ c. last_token c (take further.taken rest)) moved;
    recorded = ((e, further.covers.kept p.id e stored), further.covers.recorded);
    kept = λ q old h. further.covers.kept q old (kept q old h);
  };
}

module _ {D S X : Type 0} (dec : Decimal D) (db : Database D S) (tables : S → Tables D)
    (lawful : Database.IsLawful db tables) (services : Services X) (w : Watcher D X) where
  process_all-Reached :
      (payments : List HorizonPayment) (done : ℕ) (world : World S X)
      → let (polled, world') = process_all dec db services w payments done world in
        Reached w.stream payments done polled (tables world.db) (tables world'.db)
  unfolding process_all
  process_all-Reached [] done world =
      nothing w.stream [] done false (tables world.db) (tables world.db) refl (λ h. refl)
  process_all-Reached (p ∷ rest) done world =
      elim (Bool-cases ((process dec db services w p world).0)) [
        | inl bad ↦
            rw (process_all, bad)
              (nothing w.stream (p ∷ rest) done true _ _
                (ap tables (process-error db tables lawful dec services w p world bad)) (λ h. cc))
        | inr good ↦
            let (cursor, stored, kept) =
              process-recorded db tables lawful dec services w p world good in
            let further =
              process_all-Reached rest (done + 1) (process dec db services w p world).1 in
            rw (process_all, good)
              (one_more w.stream p rest done _ _ _ _ cursor stored kept further)
      ]

  -- When the page cannot be read, `pollOnce` returns an error and the database is as it was.
  -- Otherwise the payments that it counts, the first of the page, all have evidence, the stream's
  -- cursor is the paging token of the last of them (or as before, if there is none), and no
  -- evidence is lost; without an error it counts the whole page.
  pub poll_once-Reached :
      (world : World S X)
      → let (polled, world') = poll_once dec db services w world in
        (((fetched dec db services w world).0 ≡ none)
          × (polled.error ≡ true)
          × (world'.db ≡ world.db))
        ⊎ ((payments : List HorizonPayment) × ((fetched dec db services w world).0 ≡ some payments)
            × Reached w.stream payments 0 polled (tables world.db) (tables world'.db))
  unfolding poll_once
  poll_once-Reached world = elim (Option-cases ((fetched dec db services w world).0)) [
    | inl unread ↦ inl (unread, rw (poll_once, unread) refl, rw (poll_once, unread) refl)
    | inr (payments, read) ↦ inr (
      payments,
      read,
      rw (poll_once, read)
          (process_all-Reached payments 0
            (record world { net = (fetched dec db services w world).1 })),
    )
  ]
