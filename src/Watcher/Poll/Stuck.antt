-- ===== src/Watcher/Poll/Stuck.antt =====
-- A page of records none of which is a payment.
use shopble_stellar.Common.{String, ◌≡◌, refl, ap, false, some, List, [], ◌∷◌, All, nat_eq}
use shopble_stellar.Common.Int.{ℤ}
use shopble_stellar.Common.{Option}
use shopble_stellar.Decimal.{Decimal}
use shopble_stellar.Stellar.Horizon.{
  HorizonRecord, HttpResult, is_payment, payments_of, fetch_payments, endpoint,
}
use shopble_stellar.Watcher.Database.{Database}
use shopble_stellar.Watcher.Chain.{World}
use shopble_stellar.Watcher.Poll.{Watcher, Services, poll_once, load_cursor, fetched, process_all}

payments_of-none :
    (parse_time : String → Option ℤ) (records : List HorizonRecord)
    → All (λ r. is_payment r ≡ false) records
    → payments_of parse_time records ≡ []
unfolding payments_of
payments_of-none parse_time [] h = refl
payments_of-none parse_time (r ∷ rest) (other, h) = rw other (payments_of-none parse_time rest h)

module _ {D S X : Type 0} (dec : Decimal D) (db : Database D S) (services : Services X)
    (w : Watcher D X) where
  fetched-none :
      (world : World S X) (records : List HorizonRecord)
      → (services.http_get
          (endpoint w.cfg (load_cursor dec db services w world.db) w.limit)
          world.net).0
        ≡ HttpResult.response 200 (some records)
      → All (λ r. is_payment r ≡ false) records
      → (fetched dec db services w world).0 ≡ some []
  unfolding fetch_payments
  fetched-none world records answer h =
      rw (answer) (ap (λ ps. some ps) (payments_of-none services.parse_time records h))

  -- When the page after the cursor has records but no payment among them, `pollOnce` returns no
  -- error and a count of 0 and leaves the database as it was, its cursor too: the next poll asks
  -- for the same page.
  pub poll_once-stuck :
      (world : World S X) (records : List HorizonRecord)
      → (services.http_get
          (endpoint w.cfg (load_cursor dec db services w world.db) w.limit)
          world.net).0
        ≡ HttpResult.response 200 (some records)
      → All (λ r. is_payment r ≡ false) records
      → ((poll_once dec db services w world).0 ≡ record { count = 0; error = false })
        × ((poll_once dec db services w world).1.db ≡ world.db)
  unfolding poll_once process_all
  poll_once-stuck world records answer h =
      let empty = fetched-none world records answer h in
      (rw (poll_once, empty) refl, rw (poll_once, empty) refl)
