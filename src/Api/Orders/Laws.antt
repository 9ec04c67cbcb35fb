-- ===== src/Api/Orders/Laws.antt =====
-- What the handlers of orders promise.

use mathlib.Core.Option.{some-injective}
use shopble_stellar.Common.{
  ℕ, ◌↔◌, ◌≤◌, String, ◌≡◌, refl, sym, ap, ◌∙◌, ◌⊎◌, inl, inr, Bool-cases, true, Option, none, some,
  arith, nat_eq,
}
use shopble_stellar.Decimal
use shopble_stellar.Decimal.{Decimal}
use Prim.Native.String.{len}
use shopble_stellar.Models.Status.{awaiting_payment, matched, no_reason, order_final}
use shopble_stellar.Models.Order.{OrderIntent}
use shopble_stellar.Stellar.Text.{has_prefix}
use shopble_stellar.Stellar.Config.{StellarConfig}
use shopble_stellar.Stellar.Instruction.{
  PaymentInstruction, InstructionError, Instructed, ok, err, build_instruction,
}
use shopble_stellar.Stellar.Instruction.Laws.{Payable, Instructs, build_instruction-Payable}
use shopble_stellar.Watcher.Database.{Database}
use shopble_stellar.Watcher.Matcher.{Observed, match}
use shopble_stellar.Watcher.Matcher.Laws.{Settles-match}
use shopble_stellar.Api.Errors.{Response, json, abort}
use shopble_stellar.Api.Model.{CreateOrderRequest, CreateOrderData, to_order_dto}
use shopble_stellar.Api.Queries.{Atoi, query_limit}
use shopble_stellar.Api.Orders.{
  new_order, create_order, inserted, instructed, priced, valid_account,
}

-- Whatever the query says, a listing reads at least one row and at most 200.
pub query_limit_bounds :
    (atoi : Atoi) (text : String) → (1 ≤ query_limit atoi text) × (query_limit atoi text ≤ 200)
unfolding query_limit
query_limit_bounds atoi text = ground arith

-- A wallet that the API takes.
abbrev pub IsWallet : String → Type 0
IsWallet addr = (len addr ≡ 56) × (has_prefix addr "G" ≡ true)

valid_account_iff : (addr : String) → (valid_account addr ≡ true) ↔ IsWallet addr
unfolding valid_account
valid_account_iff addr = ground arith

module _ {D S : Type 0} (dec : Decimal D) (db : Database D S) (db_error : String)
    (describe : InstructionError → String) (cfg : StellarConfig) (id : String) where
  -- The row of a new order: it waits for this amount of the configured asset at the configured
  -- account from the wallet of the request, with its own id as the memo.
  pub record Waits (req : CreateOrderRequest) (amount : D) (row : OrderIntent D) : Type 0 where
    pub own_id : row.id ≡ id
    pub memo : row.memo ≡ id
    pub wallet : row.buyer_wallet ≡ req.buyer_wallet
    pub product : row.product_ref ≡ req.product_ref
    pub expected : row.expected_amount ≡ amount
    pub asset : row.asset_code ≡ cfg.asset_code
    pub issuer : row.asset_issuer ≡ cfg.asset_issuer
    pub destination : row.destination_account ≡ cfg.destination_account
    pub status : row.status ≡ awaiting_payment
    pub reason : row.reject_reason ≡ no_reason
    pub unwritten : row.on_chain_tx_hash ≡ ""

  -- Why a request is refused, with the status of the answer.
  pub data Refuses (body : String ⊎ CreateOrderRequest) (s : S) : ℕ → Type 0 where
    malformed : (error : String) → body ≡ inl error → Refuses body s 400
    no_account :
        (req : CreateOrderRequest)
        → body ≡ inr req
        → (IsWallet req.buyer_wallet → ⊥)
        → Refuses body s 400
    no_decimal :
        (req : CreateOrderRequest)
        → body ≡ inr req
        → dec.new_from_string req.expected_amount ≡ none
        → Refuses body s 400
    no_instruction :
        (req : CreateOrderRequest) (amount : D) (e : InstructionError)
        → body ≡ inr req
        → dec.new_from_string req.expected_amount ≡ some amount
        → build_instruction dec cfg amount id ≡ err e
        → Refuses body s 400
    not_inserted :
        (req : CreateOrderRequest) (amount : D) (row : OrderIntent D)
        → body ≡ inr req
        → Waits req amount row
        → db.create_order row s ≡ none
        → Refuses body s 500

  -- What `CreateOrder` answers, and the database after it.
  pub data Created (body : String ⊎ CreateOrderRequest) (s : S)
      : Response CreateOrderData × S → Type 0 where
    refused : (r : Response CreateOrderData) → Refuses body s r.http_status → Created body s (r, s)
    created :
        (req : CreateOrderRequest) (amount : D) (i : PaymentInstruction) (row : OrderIntent D)
        (s' : S)
        → body ≡ inr req
        → IsWallet req.buyer_wallet
        → dec.new_from_string req.expected_amount ≡ some amount
        → Payable dec amount id
        → Instructs dec cfg amount id i
        → Waits req amount row
        → db.create_order row s ≡ some s'
        → Created body s (json (record { order = to_order_dto dec row; instruction = i }), s')

  new_order-Waits :
      (req : CreateOrderRequest) (amount : D) → Waits req amount (new_order cfg req amount id)
  new_order-Waits req amount = record {
    own_id = refl;
    memo = refl;
    wallet = refl;
    product = refl;
    expected = refl;
    asset = refl;
    issuer = refl;
    destination = refl;
    status = refl;
    reason = refl;
    unwritten = refl;
  }

  module _ (req : CreateOrderRequest) (s : S) (wallet : IsWallet req.buyer_wallet) (amount : D)
      (parsed : dec.new_from_string req.expected_amount ≡ some amount) where
    inserted-Created :
        (i : PaymentInstruction) (o : Option S)
        → db.create_order (new_order cfg req amount id) s ≡ o
        → Payable dec amount id × Instructs dec cfg amount id i
        → Created
            (inr req)
            s
            (inserted dec db db_error describe cfg id (new_order cfg req amount id) i o s)
    unfolding inserted abort
    inserted-Created i none h asks =
        refused _ (not_inserted req amount _ refl (new_order-Waits req amount) h)
    inserted-Created i (some s') h (payable, asks) =
        created req amount i _ s' refl wallet parsed payable asks (new_order-Waits req amount) h

    instructed-Created :
        (b : Instructed PaymentInstruction)
        → build_instruction dec cfg amount id ≡ b
        → Created (inr req) s (instructed dec db db_error describe cfg id req amount b s)
    unfolding instructed abort
    instructed-Created (err e) h = refused _ (no_instruction req amount e refl parsed h)
    instructed-Created (ok i) h =
        inserted-Created i _ refl (build_instruction-Payable dec cfg amount id h)

  priced-Created :
      (req : CreateOrderRequest) (s : S) (o : Option D)
      → IsWallet req.buyer_wallet
      → dec.new_from_string req.expected_amount ≡ o
      → Created (inr req) s (priced dec db db_error describe cfg id req o s)
  unfolding priced abort
  priced-Created req s none wallet parsed = refused _ (no_decimal req refl parsed)
  priced-Created req s (some amount) wallet parsed =
      instructed-Created req s wallet amount parsed (build_instruction dec cfg amount id) refl

  -- `CreateOrder` either refuses and leaves the database as it was: with 400 a body that cannot be
  -- read, a wallet that has not 56 bytes or does not start with a G, an amount that is no decimal,
  -- or one for which there is no instruction, and with 500 when the row of the order cannot be
  -- inserted. Or the wallet is such an account and the amount payable, and it answers 200 with the
  -- instruction and has inserted the order that waits for exactly that payment, from that wallet,
  -- with its own id as the memo.
  pub create_order-Created :
      (body : String ⊎ CreateOrderRequest) (s : S)
      → Created body s (create_order dec db db_error describe cfg id body s)
  unfolding create_order abort
  create_order-Created (inl error) s = refused _ (malformed error refl)
  create_order-Created (inr req) s = elim (Bool-cases (valid_account req.buyer_wallet)) [
    | inl valid ↦
        rw (create_order, valid)
          (priced-Created req s _ ((valid_account_iff req.buyer_wallet).0 valid) refl)
    | inr other ↦
        rw (create_order, other)
          (refused _ (
            no_account req refl
              (λ wallet. cc ((valid_account_iff req.buyer_wallet).1 wallet, other))))
  ]

-- A payment that does what the instruction of a new order says, from the wallet that was named,
-- is accepted by the matcher: no order is created that its own instruction cannot settle.
pub new_order-matched :
    {D : Type 0} (dec : Decimal D) (cfg : StellarConfig) (req : CreateOrderRequest) (amount : D)
    (id : String) (i : PaymentInstruction) (o : Observed D)
    → Decimal.IsLawful dec
    → build_instruction dec cfg amount id ≡ ok i
    → o.destination ≡ i.destination
    → o.asset_code ≡ i.asset_code
    → o.asset_issuer ≡ i.asset_issuer
    → o.source ≡ req.buyer_wallet
    → dec.new_from_string i.amount ≡ some o.amount
    → match dec o (some (new_order cfg req amount id)) ≡ (matched, no_reason)
new_order-matched dec cfg req amount id i o lawful built to code issuer from paid =
    let (payable, asks) = build_instruction-Payable dec cfg amount id built in
    let (b, read, enough, exact) = lawful.new_from_string-string_fixed amount payable.decimals in
    let text : dec.new_from_string i.amount ≡ some b =
      ap dec.new_from_string asks.amount_text ∙ read in
    let same : o.amount ≡ b = some-injective _ _ (sym paid ∙ text) in
    Settles-match dec o (new_order cfg req amount id) (record {
      is_open = unfold order_final in refl;
      destination = to ∙ asks.destination;
      asset_code = code ∙ asks.asset_code;
      asset_issuer = issuer ∙ asks.asset_issuer;
      source = from;
      amount = ap (λ x. dec.less_than x amount) same ∙ exact;
    })
