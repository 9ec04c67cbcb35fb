-- ===== src/Stellar/Horizon.antt =====
-- lib/libstellar/horizon.go: one page of payment operations, read over HTTP. The network, the
-- JSON decoder and the parser of RFC 3339 times are not under this repository: the answer to a
-- request is a value of `HttpResult`, and the parser is an argument.
use shopble_stellar.Common.{
  ℕ, String, ◌<>◌, Bool, not, ◌&&◌, Option, none, some, List, [], ◌∷◌, ◌==◌, nat_eq, string_eq,
  if◌then◌else◌,
}
use shopble_stellar.Common.Int.{ℤ, pos}
use shopble_stellar.Stellar.Text.{
  Values, set_value, encode_values, decimal_text, trim_right_slashes, has_prefix,
}
use shopble_stellar.Stellar.Config.{StellarConfig}

pub record HorizonPayment : Type 0 where
  pub id : String
  pub paging_token : String
  pub kind : String
  pub transaction_hash : String
  pub from : String
  pub to : String
  pub asset_code : String
  pub asset_issuer : String
  pub amount : String
  pub memo : String
  pub ledger_close_at : ℤ

-- One record of `horizonPage`: the JSON fields that the program reads.
pub record HorizonRecord : Type 0 where
  pub id : String
  pub paging_token : String
  pub kind : String
  pub transaction_hash : String
  pub from : String
  pub to : String
  pub asset_type : String
  pub asset_code : String
  pub asset_issuer : String
  pub amount : String
  pub created_at : String
  pub memo : String
  pub memo_type : String

-- What becomes of a request: no request can be built from the address, or nothing comes back, or
-- a response does, with its status and the records that its body decodes to, if it decodes.
pub data HttpResult : Type 0 where
  bad_request no_response : HttpResult
  response : ℕ → Option (List HorizonRecord) → HttpResult

query : String → ℕ → Values
query cursor limit =
    let q =
      set_value "join" "transactions"
        (set_value "limit" (decimal_text limit) (set_value "order" "asc" [])) in
    if not (cursor == "") then set_value "cursor" cursor q else q

unfoldable pub endpoint : StellarConfig → String → ℕ → String
unfolding query set_value encode_values decimal_text trim_right_slashes
endpoint c cursor limit =
    trim_right_slashes c.horizon_url
    <> "/accounts/"
    <> c.destination_account
    <> "/payments?"
    <> encode_values (query cursor limit)

unfoldable pub is_payment : HorizonRecord → Bool
is_payment r = not (not (r.kind == "payment") && not (has_prefix r.kind "path_payment"))

close_time : Option ℤ → ℤ
close_time none = pos 0
close_time (some t) = t

module _ (parse_time : String → Option ℤ) where
  unfoldable pub payment_of : HorizonRecord → HorizonPayment
  unfolding close_time
  payment_of r = record {
    id = r.id;
    paging_token = r.paging_token;
    kind = r.kind;
    transaction_hash = r.transaction_hash;
    from = r.from;
    to = r.to;
    asset_code = if r.asset_type == "native" then "XLM" else r.asset_code;
    asset_issuer = r.asset_issuer;
    amount = r.amount;
    memo = if r.memo_type == "text" then r.memo else "";
    ledger_close_at = close_time (parse_time r.created_at);
  }

  -- The loop over the page's records.
  unfoldable pub payments_of : List HorizonRecord → List HorizonPayment
  unfolding is_payment
  payments_of [] = []
  payments_of (r ∷ rest) =
      let out = payments_of rest in if is_payment r then payment_of r ∷ out else out

  read_page : Option (List HorizonRecord) → Option (List HorizonPayment)
  read_page none = none
  read_page (some records) = some (payments_of records)

  read_response : HttpResult → Option (List HorizonPayment)
  unfolding read_page
  read_response bad_request = none
  read_response no_response = none
  read_response (response status body) = if not (status == 200) then none else read_page body

  module _ {X : Type 0} (http_get : String → X → HttpResult × X) where
    -- `FetchPayments`: `none` is an error.
    unfoldable pub fetch_payments :
        StellarConfig → String → ℕ → X → Option (List HorizonPayment) × X
    unfolding read_response
    fetch_payments c cursor limit x =
        let (answer, x') = http_get (endpoint c cursor limit) x in (read_response answer, x')
