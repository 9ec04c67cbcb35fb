-- ===== src/Report/Coverage.antt =====
-- services/report/report.go, `Summarize`. A Go map is a function of its keys with the zero value
-- for a missing one, and `wallets`, of which only the size is read, is the list of its keys.
pub mod Laws
use Prim.Native.String
use Prim.Native.Nat.{Ordering}
use shopble_stellar.Common.{
  ℕ, zero, suc, ◌+◌, String, Bool, true, false, not, ◌&&◌, ◌||◌, List, [], ◌∷◌, length, ◌==◌,
  string_eq, if◌then◌else◌,
}
use shopble_stellar.Models.Status.{
  Verdict, RejectReason, no_reason, reason_beq, verdict_beq, all_reject_reasons, order_final,
}
use shopble_stellar.Models.Order.{OrderIntent}
use shopble_stellar.Models.Evidence.{PaymentEvidence}

abbrev pub target_orders : ℕ
target_orders = 10

abbrev pub target_wallets : ℕ
target_wallets = 3

abbrev pub target_txs : ℕ
target_txs = 15

pub record Coverage : Type 0 where
  pub orders : ℕ
  pub distinct_wallets : ℕ
  pub evidence : ℕ
  pub verdicts : Verdict → ℕ
  pub reasons_seen : List RejectReason
  pub reasons_missing : List RejectReason
  pub on_chain_missing : List String

-- `sort.Strings`, by the bytes of the texts; insertion gives the one sorted list.
unfoldable pub insert_text : String → List String → List String
insert_text s [] = s ∷ []
insert_text s (t ∷ rest) =
    let further = insert_text s rest in
    elim (String.compare t s) [ Ordering.lt ↦ t ∷ further | _ ↦ s ∷ t ∷ rest ]

unfoldable pub sort_strings : List String → List String
sort_strings [] = []
sort_strings (s ∷ rest) = insert_text s (sort_strings rest)

abbrev pub text_in : String → List String → Bool
text_in s [] = false
text_in s (t ∷ rest) = t == s || text_in s rest

abbrev pub reason_in : RejectReason → List RejectReason → Bool
reason_in r [] = false
reason_in r (q ∷ rest) = reason_beq q r || reason_in r rest

-- The reasons for which the answer is true, in their order.
unfoldable pub pick : (RejectReason → Bool) → List RejectReason → List RejectReason
pick f [] = []
pick f (r ∷ rest) = let others = pick f rest in if f r then r ∷ others else others

module _ {D : Type 0} where
  unfoldable pub wallets : List (OrderIntent D) → List String
  wallets [] = []
  wallets (o ∷ rest) =
      let others = wallets rest in
      if text_in o.buyer_wallet others then others else o.buyer_wallet ∷ others

  unfoldable pub lacks_hash : OrderIntent D → Bool
  lacks_hash o = order_final o.status && (o.on_chain_tx_hash == "")

  unfoldable pub missing_ids : List (OrderIntent D) → List String
  missing_ids [] = []
  missing_ids (o ∷ rest) =
      let others = missing_ids rest in if lacks_hash o then o.id ∷ others else others

  unfoldable pub verdict_count : List (PaymentEvidence D) → Verdict → ℕ
  verdict_count [] v = 0
  verdict_count (e ∷ rest) v =
      let others = verdict_count rest v in if verdict_beq e.verdict v then suc others else others

  -- the map `seen`
  unfoldable pub seen : List (PaymentEvidence D) → RejectReason → Bool
  seen [] r = false
  seen (e ∷ rest) r =
      (not (reason_beq e.reject_reason no_reason) && reason_beq e.reject_reason r) || seen rest r

  -- `Summarize`
  unfoldable pub summarize : List (OrderIntent D) → List (PaymentEvidence D) → Coverage
  summarize orders evidence = record {
    orders = length orders;
    distinct_wallets = length (wallets orders);
    evidence = length evidence;
    verdicts = verdict_count evidence;
    reasons_seen = pick (seen evidence) all_reject_reasons;
    reasons_missing = pick (λ r. not (seen evidence r)) all_reject_reasons;
    on_chain_missing = sort_strings (missing_ids orders);
  }
