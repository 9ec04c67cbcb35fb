-- ===== src/Examples/Rounds.antt =====
-- A watcher whose contract always answers, for the tests of its rounds, and requests to the API.
use shopble_stellar.Common.{
  ℕ, ◌+◌, ◌≡◌, refl, ◌↔◌, ◌⊎◌, inr, none, some, true, false, List, [], ◌∷◌, string_eq, nat_eq,
}
use shopble_stellar.Models.Status.{OrderStatus, no_reason, matched}
use shopble_stellar.Models.Order.{OrderIntent}
use shopble_stellar.Models.Evidence.{PaymentEvidence}
use shopble_stellar.Stellar.Horizon.{HorizonPayment, HttpResult}
use shopble_stellar.Stellar.Instruction.{
  PaymentInstruction, build_instruction, ok, err, normalize_amount, valid_memo,
}
use shopble_stellar.Stellar.Instruction.Laws.{Payable, Instructs, build_instruction_iff}
use shopble_stellar.Watcher.Matcher.{match}
use shopble_stellar.Watcher.Process.{observed}
use shopble_stellar.Soroban.Call.{Outcome}
use shopble_stellar.Watcher.Chain.{Chain, World, Failures, write_chain, sync_chain}
use shopble_stellar.Watcher.Chain.Laws.{Written, write_chain-Written}
use shopble_stellar.Watcher.Chain.Round.{Synced, sync_chain-Synced}
use shopble_stellar.Watcher.Poll.{Services, Watcher, poll_once, fetched}
use shopble_stellar.Stellar.Horizon.{HorizonRecord, is_payment}
use shopble_stellar.Watcher.Poll.{start}
use shopble_stellar.Watcher.Poll.Evolves.{AllEvolve}
use shopble_stellar.System.Orders.{start-AllEvolve}
use shopble_stellar.Watcher.Poll.Stuck.{poll_once-stuck}
use shopble_stellar.Watcher.Poll.Cursor.{Reached, poll_once-Reached}
use shopble_stellar.Api.Model.{CreateOrderRequest}
use shopble_stellar.Api.Orders.{create_order, new_order}
use shopble_stellar.Api.Orders.Laws.{Created, create_order-Created, new_order-matched}
use shopble_stellar.Examples.Decimals.{stroops, stroops-IsLawful}
use shopble_stellar.Examples.Memory.{Memory, memory_tables, memory_db}
use shopble_stellar.Examples.Memory.Lawful.{memory_db-IsLawful}
use shopble_stellar.Examples.Payments.{waiting, payment, one_order}
use shopble_stellar.Examples.Network.{decoded}

abbrev chain : Chain ℕ ℕ
chain = record {
  create_order = λ o x. (Outcome.ok "h0", x + 1);
  set_status = λ id status why x. (Outcome.ok "h1", x + 1);
}

abbrev settled : OrderIntent ℕ
settled = record waiting { status = OrderStatus.validated }

abbrev pub world : World (Memory ℕ) ℕ
world = record { db = one_order; net = 0 }

abbrev pub unfailed : Failures
unfailed id = 0

abbrev pub services : Services ℕ
services = record {
  parse_time = λ text. none;
  http_get = λ url x. (HttpResult.response 200 (some []), x);
  new_ksuid = λ x. ("e1", x + 1);
  context_done = λ x. (false, x);
  sleep = λ x. x;
}

abbrev pub watcher : Watcher ℕ ℕ
watcher = record { cfg = decoded; chain = some chain; stream = "main"; limit = 200 }

abbrev pub request : CreateOrderRequest
request = record {
  product_ref = "shoe";
  expected_amount = "111";
  buyer_wallet = "GA7QYNF7SOWQ3GLR2BGMZEHXAVIRZA4KVWLTJJFC7MGXUA74P7UJVSGZ";
}

abbrev no_instruction : PaymentInstruction
no_instruction = record {
  destination = "";
  asset_code = "";
  asset_issuer = "";
  amount = "";
  memo = "";
  memo_type = "";
  network = "";
  uri = "";
}

abbrev built : PaymentInstruction
unfolding build_instruction normalize_amount valid_memo
built = elim (build_instruction stroops decoded 3 "o2") [ ok i ↦ i | err e ↦ no_instruction ]

write_chain_example :
    Written memory_db memory_tables memory_db-IsLawful settled.id world
      (chain.set_status settled.id settled.status no_reason
        (chain.set_status settled.id OrderStatus.payment_detected no_reason
          (chain.create_order settled 0).1).1)
      (write_chain memory_db (some chain) settled settled.status no_reason world)
write_chain_example =
    write_chain-Written memory_db memory_tables memory_db-IsLawful chain settled settled.status
      no_reason world

abbrev settled_world : World (Memory ℕ) ℕ
settled_world = record {
  db = record one_order { rows = record (one_order.rows) { orders = λ j. some settled } };
  net = 0;
}

sync_chain-Synced_example :
    Synced memory_db memory_tables memory_db-IsLawful chain
      (unfailed, settled_world)
      (sync_chain memory_db (some chain) (unfailed, settled_world))
sync_chain-Synced_example =
    sync_chain-Synced memory_db memory_tables memory_db-IsLawful chain (unfailed, settled_world)

poll_once_example :
    let (polled, world') = poll_once stroops memory_db services watcher world in
    (((fetched stroops memory_db services watcher world).0 ≡ none)
      × (polled.error ≡ true)
      × (world'.db ≡ world.db))
    ⊎ ((payments : List HorizonPayment) × ((fetched stroops memory_db services watcher world).0
          ≡ some payments)
        × Reached "main" payments 0 polled (memory_tables world.db) (memory_tables world'.db))
poll_once_example =
    poll_once-Reached stroops memory_db memory_tables memory_db-IsLawful services watcher world

create_order_example :
    Created stroops memory_db "closed"
      (λ e. "refused")
      decoded
      "o2"
      (inr request)
      one_order
      (create_order stroops memory_db "closed"
        (λ e. "refused")
        decoded
        "o2"
        (inr request)
        one_order)
create_order_example =
    create_order-Created stroops memory_db "closed" (λ e. "refused") decoded "o2" (inr request)
      one_order

build_instruction_example :
    (((i : PaymentInstruction) × (build_instruction stroops decoded 3 "o2" ≡ ok i))
      ↔ Payable stroops 3 "o2")
    × ((i : PaymentInstruction)
        → build_instruction stroops decoded 3 "o2" ≡ ok i
        → Instructs stroops decoded 3 "o2" i)
build_instruction_example = build_instruction_iff stroops decoded 3 "o2"

new_order_example :
    match stroops
      (observed (record payment { from = request.buyer_wallet; memo = "o2" }) 3)
      (some (new_order decoded request 3 "o2"))
    ≡ (matched, no_reason)
unfolding build_instruction normalize_amount valid_memo
new_order_example =
    new_order-matched stroops decoded request 3 "o2" built
      (observed (record payment { from = request.buyer_wallet; memo = "o2" }) 3) stroops-IsLawful
      refl refl refl refl refl refl

abbrev no_evidence : List (PaymentEvidence ℕ)
no_evidence = []

start_example :
    AllEvolve
      (memory_tables one_order)
      (memory_tables (start stroops memory_db services watcher 3 (unfailed, world)).1.db)
start_example =
    start-AllEvolve stroops memory_db memory_tables memory_db-IsLawful services watcher 3
      (unfailed, world)

-- The record of an account that was created.
abbrev creation : HorizonRecord
creation = record {
  id = "op9";
  paging_token = "t9";
  kind = "create_account";
  transaction_hash = "h9";
  from = "GB";
  to = "GD";
  asset_type = "native";
  asset_code = "";
  asset_issuer = "";
  amount = "1";
  created_at = "";
  memo = "";
  memo_type = "none";
}

abbrev creations : Services ℕ
creations = record services {
  http_get = λ url x. (HttpResult.response 200 (some (creation ∷ [])), x);
}

stuck_example :
    ((poll_once stroops memory_db creations watcher world).0 ≡ record { count = 0; error = false })
    × ((poll_once stroops memory_db creations watcher world).1.db ≡ one_order)
unfolding is_payment
stuck_example =
    poll_once-stuck stroops memory_db creations watcher world (creation ∷ []) refl (refl, tt)
