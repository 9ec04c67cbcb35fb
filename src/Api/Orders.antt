-- ===== src/Api/Orders.antt =====
-- api/v1/order_api.go. The request as gin binds it, the configuration, the new id and the text of
-- a database error are arguments; a handler answers with its response and the database after it.
pub mod Laws
use Prim.Native.String.{len}
use shopble_stellar.Common.{
  ℕ, String, ◌<>◌, ◌⊎◌, inl, inr, Bool, not, ◌&&◌, Option, none, some, List, [], map, ◌==◌, nat_eq,
  string_eq, if◌then◌else◌,
}
use shopble_stellar.Common.Int.{pos}
use shopble_stellar.Decimal.{Decimal}
use shopble_stellar.Models.Status.{awaiting_payment, no_reason}
use shopble_stellar.Models.Order.{OrderIntent}
use shopble_stellar.Stellar.Config.{StellarConfig}
use shopble_stellar.Stellar.Text.{has_prefix}
use shopble_stellar.Stellar.Instruction.{
  PaymentInstruction, InstructionError, Instructed, ok, err, build_instruction,
}
use shopble_stellar.Watcher.Database.{Database}
use shopble_stellar.Api.Errors.{
  Response, abort, json, bad_request, not_found, internal, code_data_invalid,
}
use shopble_stellar.Api.Model.{CreateOrderRequest, CreateOrderData, OrderDto, to_order_dto}
use shopble_stellar.Api.Queries.{Queries, Atoi, query_limit}

abbrev pub stellar_account_len : ℕ
stellar_account_len = 56

-- `validAccount`
unfoldable pub valid_account : String → Bool
valid_account addr = (len addr == stellar_account_len) && has_prefix addr "G"

abbrev pub new_order :
    {D : Type 0} → StellarConfig → CreateOrderRequest → D → String → OrderIntent D
new_order cfg req amount id = record {
  id = id;
  product_ref = req.product_ref;
  expected_amount = amount;
  asset_code = cfg.asset_code;
  asset_issuer = cfg.asset_issuer;
  destination_account = cfg.destination_account;
  memo = id;
  buyer_wallet = req.buyer_wallet;
  status = awaiting_payment;
  reject_reason = no_reason;
  on_chain_tx_hash = "";
  created_at = pos 0;
  updated_at = pos 0;
}

module _ {D S : Type 0} (dec : Decimal D) (db : Database D S) (db_error : String) where
  module _ (describe : InstructionError → String) (cfg : StellarConfig) (id : String) where
    inserted : OrderIntent D → PaymentInstruction → Option S → S → Response CreateOrderData × S
    inserted row instruction none s = (internal ("create order failed: " <> db_error), s)
    inserted row instruction (some s') s =
        (json (record { order = to_order_dto dec row; instruction = instruction }), s')

    instructed :
        CreateOrderRequest → D → Instructed PaymentInstruction → S → Response CreateOrderData × S
    unfolding inserted
    instructed req amount (err e) s = (bad_request code_data_invalid (describe e) [], s)
    instructed req amount (ok instruction) s =
        let row = new_order cfg req amount id in inserted row instruction (db.create_order row s) s

    priced : CreateOrderRequest → Option D → S → Response CreateOrderData × S
    unfolding instructed
    priced req none s =
        (bad_request code_data_invalid "expected_amount không phải số thập phân hợp lệ" [], s)
    priced req (some amount) s = instructed req amount (build_instruction dec cfg amount id) s

    -- `CreateOrder`
    unfoldable pub create_order : String ⊎ CreateOrderRequest → S → Response CreateOrderData × S
    unfolding priced
    create_order (inl error) s = (bad_request code_data_invalid error [], s)
    create_order (inr req) s =
        if not (valid_account req.buyer_wallet)
        then (
          bad_request code_data_invalid
              "buyer_wallet phải là public key Stellar hợp lệ (G..., 56 ký tự)" [],
          s,
        )
        else priced req (dec.new_from_string req.expected_amount) s

  found_order : Option (OrderIntent D) → Response OrderDto
  found_order none = not_found "order not found"
  found_order (some row) = json (to_order_dto dec row)

  -- `GetOrder`
  unfoldable pub get_order : String → S → Response OrderDto
  unfolding found_order
  get_order id s = found_order (db.order_by_id id s)

  listed : Option (List (OrderIntent D)) → Response (List OrderDto)
  listed none = internal ("lookup failed: " <> db_error)
  listed (some rows) = json (map (to_order_dto dec) rows)

  -- `ListOrders`
  unfoldable pub list_orders : Queries D S → Atoi → String → String → S → Response (List OrderDto)
  unfolding listed
  list_orders queries atoi wallet limit s =
      if not (valid_account wallet)
      then bad_request code_data_invalid
          "buyer_wallet bắt buộc và phải là public key Stellar hợp lệ" []
      else listed (queries.orders_of_wallet wallet (query_limit atoi limit) s)
