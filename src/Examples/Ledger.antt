-- ===== src/Examples/Ledger.antt =====
-- A day of the whole system, from empty tables: an order is made, paid, and paid once more.
use shopble_stellar.Common.{ℕ, refl, String, inr, none, [], eq_iff, arith}
use shopble_stellar.Models.Order.{OrderIntent}
use shopble_stellar.Stellar.Horizon.{HorizonPayment}
use shopble_stellar.Models.Status.{OrderStatus, no_reason}
use shopble_stellar.Common.Int.{pos}
use shopble_stellar.Watcher.Matcher.{match, terminal}
use shopble_stellar.Watcher.Ledger.Backed.{Backed}
use shopble_stellar.Watcher.Process.{process_db, process_txn, settle, mark, order_of, amount_of}
use shopble_stellar.Watcher.Chain.{World}
use shopble_stellar.Watcher.Ledger.{IsLedger, empty-IsLedger}
use shopble_stellar.Api.Orders.{create_order, valid_account}
use shopble_stellar.Stellar.Instruction.{build_instruction, normalize_amount, valid_memo}
use shopble_stellar.System.{Step, Steps}
use shopble_stellar.System.Ledger.{Steps-IsLedger, validated-Backed}
use shopble_stellar.Examples.Decimals.{stroops}
use shopble_stellar.Examples.Memory.{Memory, memory_tables, memory_db}
use shopble_stellar.Examples.Memory.Lawful.{memory_db-IsLawful}
use shopble_stellar.Examples.Payments.{payment}
use shopble_stellar.Examples.Network.{decoded}
use shopble_stellar.Examples.Rounds.{request}

abbrev empty : World (Memory ℕ) ℕ
empty = record {
  db = record {
    rows = record { orders = λ j. none; evidence = λ q. none; cursors = λ k. none };
    ids = [];
  };
  net = 0;
}

abbrev ordered : World (Memory ℕ) ℕ
ordered = record empty {
  db = (create_order stroops memory_db "" (λ e. "") decoded "o2" (inr request) empty.db).1;
}

abbrev pay : String → HorizonPayment → World (Memory ℕ) ℕ → World (Memory ℕ) ℕ
pay id p w = record w { db = (process_db stroops memory_db "main" id p w.db).1 }

abbrev first_payment : HorizonPayment
first_payment = record payment {
  to = decoded.destination_account;
  asset_code = decoded.asset_code;
  asset_issuer = decoded.asset_issuer;
  from = request.buyer_wallet;
  memo = "o2";
}

abbrev paid_order : OrderIntent ℕ
paid_order = record {
  id = "o2";
  product_ref = request.product_ref;
  expected_amount = 3;
  asset_code = decoded.asset_code;
  asset_issuer = decoded.asset_issuer;
  destination_account = decoded.destination_account;
  memo = "o2";
  buyer_wallet = request.buyer_wallet;
  status = OrderStatus.validated;
  reject_reason = no_reason;
  on_chain_tx_hash = "";
  created_at = pos 0;
  updated_at = pos 0;
}

abbrev second_payment : HorizonPayment
second_payment = record first_payment { id = "op2" }

day : Steps stroops memory_db empty (pay "e2" second_payment (pay "e1" first_payment ordered))
day =
    Steps.next
      (Steps.next
        (Steps.next Steps.here
          (Step.orders "" (λ e. "") decoded "o2" (inr request) (ground (arith, eq_iff "o2" ""))))
        (Step.pays "main" "e1" first_payment))
      (Step.pays "main" "e2" second_payment)

Steps-IsLedger_example :
    IsLedger stroops (memory_tables (pay "e2" second_payment (pay "e1" first_payment ordered)).db)
Steps-IsLedger_example =
    Steps-IsLedger stroops memory_db memory_tables memory_db-IsLawful day
      (empty-IsLedger stroops (memory_tables empty.db) (λ id. refl) (λ q. refl))

validated-Backed_example :
    Backed stroops
      (memory_tables (pay "e2" second_payment (pay "e1" first_payment ordered)).db)
      paid_order
unfolding process_db process_txn settle mark order_of amount_of match terminal create_order
    valid_account build_instruction normalize_amount valid_memo
validated-Backed_example =
    validated-Backed stroops memory_db memory_tables memory_db-IsLawful day (λ id. refl) (λ q. refl)
      "o2" paid_order refl refl
