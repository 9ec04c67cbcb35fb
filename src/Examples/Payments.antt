-- ===== src/Examples/Payments.antt =====
-- One order for three stroops and one payment of three, for the tests of the matcher and of the
-- watcher.

use shopble_stellar.Common.{
  ℕ, ◌≡◌, refl, ◌↔◌, ◌⊎◌, none, some, [], ◌∷◌, ◌==◌, string_eq, if◌then◌else◌,
}
use shopble_stellar.Common.Int.{pos}
use shopble_stellar.Models.Status.{
  Verdict, awaiting_payment, matched, no_reason, wrong_asset, order_final,
}
use shopble_stellar.Models.Order.{OrderIntent}
use shopble_stellar.Stellar.Horizon.{HorizonPayment}
use shopble_stellar.Watcher.Matcher.{match, terminal}
use shopble_stellar.Watcher.Matcher.Laws.{Settles, match-matched_iff}
use shopble_stellar.Watcher.Matcher.Priority.{Blames, match-Blames_iff}
use shopble_stellar.Watcher.Process.{
  observed, amount_of, order_of, verdict_of, evidence_of, mark, settle, process_txn, process_db,
}
use shopble_stellar.Watcher.Process.Spec.{settled_order, record_payment}
use shopble_stellar.Watcher.Process.Updates.{SameTables}
use shopble_stellar.Watcher.Process.Refines.{process_db-refines}
use shopble_stellar.Examples.Decimals.{stroops}
use shopble_stellar.Examples.Memory.{Memory, memory_tables, memory_db}
use shopble_stellar.Examples.Memory.Lawful.{memory_db-IsLawful}

abbrev pub waiting : OrderIntent ℕ
waiting = record {
  id = "o1";
  product_ref = "shoe";
  expected_amount = 3;
  asset_code = "USDC";
  asset_issuer = "GI";
  destination_account = "GD";
  memo = "o1";
  buyer_wallet = "GB";
  status = awaiting_payment;
  reject_reason = no_reason;
  on_chain_tx_hash = "";
  created_at = pos 0;
  updated_at = pos 0;
}

abbrev pub payment : HorizonPayment
payment = record {
  id = "op1";
  paging_token = "t1";
  kind = "payment";
  transaction_hash = "h1";
  from = "GB";
  to = "GD";
  asset_code = "USDC";
  asset_issuer = "GI";
  amount = "111";
  memo = "o1";
  ledger_close_at = pos 7;
}

abbrev pub wrong_payment : HorizonPayment
wrong_payment = record payment { asset_code = "EURC"; amount = "1" }

abbrev pub one_order : Memory ℕ
one_order = record {
  rows = record {
    orders = λ j. if "o1" == j then some waiting else none;
    evidence = λ q. none;
    cursors = λ k. none;
  };
  ids = "o1" ∷ [];
}

abbrev pub paid : Memory ℕ
unfolding process_db process_txn settle mark order_of amount_of match terminal
paid = (process_db stroops memory_db "main" "e1" payment one_order).1

match-matched_iff_example :
    ((match stroops (observed payment 3) (some waiting)).0 ≡ matched)
    ↔ Settles stroops (observed payment 3) waiting
match-matched_iff_example = match-matched_iff stroops (observed payment 3) waiting

match-Blames_iff_example :
    (match stroops (observed wrong_payment 1) (some waiting) ≡ (Verdict.rejected, wrong_asset))
    ↔ Blames stroops wrong_asset (observed wrong_payment 1) waiting
unfolding order_final
match-Blames_iff_example =
    match-Blames_iff stroops (observed wrong_payment 1) waiting wrong_asset refl

process_db-refines_example :
    let order = order_of stroops memory_db payment one_order in
    let (result, s') = process_db stroops memory_db "main" "e1" payment one_order in
    ((result ≡ none) × (s' ≡ one_order))
    ⊎ ((result
          ≡ some (
              settled_order order
                (verdict_of stroops memory_db payment one_order)
                (evidence_of stroops memory_db "e1" payment one_order)
                (memory_tables one_order)))
        × SameTables (memory_tables s') (
            record_payment "main" order
              (verdict_of stroops memory_db payment one_order)
              (evidence_of stroops memory_db "e1" payment one_order)
              (memory_tables one_order)))
process_db-refines_example =
    process_db-refines stroops memory_db memory_tables memory_db-IsLawful "main" "e1" payment
      one_order
