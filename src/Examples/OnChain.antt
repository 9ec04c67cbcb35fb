-- ===== src/Examples/OnChain.antt =====
-- A contract with one order on it, and a write of the watcher to it.
use shopble_stellar.Common.{
  ℕ, String, ◌≡◌, ◌≢◌, refl, none, some, true, List, [], ◌∷◌, if◌then◌else◌,
}
use shopble_stellar.Common.Int.{pos}
use shopble_stellar.Models.Status.{OrderStatus, no_reason, can_transition}
use shopble_stellar.Watcher.Chain.{World, write_chain}
use shopble_stellar.Contract.History.{Detects, fulfillable-Detects}
use shopble_stellar.Contract.{
  is_fulfillable, record_status, require_operator, move_order, fulfillable, ChainStatus, ChainOrder,
  Env, chain_transition,
}
use shopble_stellar.Contract.Laws.{ChainCall, contract_calls, Follows, contract_calls-Follows}
use shopble_stellar.Contract.Agreement.{
  to_chain, variant_value, chain_transition-can_transition, status_sc_val-variant_value,
}
use shopble_stellar.Contract.Writes.{Setup, contract_chain, is_open, status_of}
use shopble_stellar.Contract.Writes.Laws.{write_chain-final}
use shopble_stellar.Soroban.Value.{status_sc_val}
use shopble_stellar.Examples.Memory.{Memory, memory_db}
use shopble_stellar.Examples.Payments.{waiting, one_order}
use shopble_stellar.Examples.Values.{values}

abbrev registered : ChainOrder String
registered = record {
  buyer = "GB";
  expected_amount = pos 3;
  asset = "USDC";
  memo_hash = "m";
  status = ChainStatus.awaiting_payment;
}

abbrev env : Env String
env = record { operator = some "GO"; orders = λ key. some registered }

abbrev two_calls : List (ChainCall String)
two_calls =
    ChainCall.records (λ a. true) "o1" ChainStatus.validated
    ∷ ChainCall.records (λ a. true) "o1" ChainStatus.payment_detected
    ∷ []

contract_calls_example : Follows registered ((contract_calls two_calls env).orders "o1")
contract_calls_example = contract_calls-Follows "o1" registered two_calls env refl

abbrev setup : Setup ℕ String
setup = record {
  wallet = λ address. some address;
  stroops = pos;
  memo_hash = λ memo. memo;
  tx_hash = "h";
  signed = λ a. true;
  live = λ e. true;
}

abbrev on_chain : World (Memory ℕ) (Env String)
on_chain = record { db = one_order; net = env }

write_chain-final_example :
    let written =
      write_chain memory_db
        (some (contract_chain setup))
        waiting
        OrderStatus.validated
        no_reason
        on_chain in
    let before = env.orders "o1" in
    (written.0 ≡ is_open before)
    × (status_of (written.1.net.orders "o1")
        ≡ (if is_open before then some ChainStatus.validated else status_of before))
    × ((k : String) → "o1" ≢ k → written.1.net.orders k ≡ env.orders k)
write_chain-final_example =
    write_chain-final setup memory_db waiting OrderStatus.validated no_reason ChainStatus.validated
      on_chain "GO" "GB" refl refl (λ e. refl) refl refl refl

agreement_example :
    chain_transition ChainStatus.payment_detected ChainStatus.validated
    ≡ can_transition OrderStatus.payment_detected OrderStatus.validated
agreement_example =
    chain_transition-can_transition OrderStatus.payment_detected OrderStatus.validated no_reason
      no_reason ChainStatus.payment_detected ChainStatus.validated refl refl

variant_example :
    status_sc_val values OrderStatus.validated no_reason
    ≡ elim (to_chain OrderStatus.validated no_reason) [
      | none ↦ none
      | some c ↦ some (variant_value values c)
    ]
variant_example = status_sc_val-variant_value values OrderStatus.validated no_reason

abbrev three_calls : List (ChainCall String)
three_calls =
    ChainCall.records (λ a. true) "o1" ChainStatus.validated
    ∷ ChainCall.records (λ a. true) "o1" ChainStatus.payment_detected
    ∷ ChainCall.records (λ a. true) "o1" ChainStatus.validated
    ∷ []

fulfillable_example : Detects "o1" (some "GO") three_calls
unfolding is_fulfillable fulfillable record_status require_operator move_order chain_transition
fulfillable_example = fulfillable-Detects "o1" three_calls env registered refl refl refl
