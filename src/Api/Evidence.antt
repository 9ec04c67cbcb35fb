-- ===== src/Api/Evidence.antt =====
-- api/v1/evidence_api.go
pub mod Laws
use shopble_stellar.Common.{
  ℕ, String, ◌<>◌, Bool, true, false, not, ◌&&◌, ◌||◌, Option, none, some, List, [], ◌∷◌, map, ◌==◌,
  string_eq, if◌then◌else◌,
}
use shopble_stellar.Decimal.{Decimal}
use shopble_stellar.Models.Order.{OrderIntent}
use shopble_stellar.Models.Evidence.{PaymentEvidence}
use shopble_stellar.Stellar.Instruction.{stellar_decimals}
use shopble_stellar.Watcher.Database.{Database}
use shopble_stellar.Api.Errors.{Response, json, not_found, internal}
use shopble_stellar.Api.Model.{
  EvidenceDto, FieldComparison, OrderEvidenceDto, OrderEvidenceData, to_order_dto, to_evidence_dto,
}
use shopble_stellar.Api.Queries.{Queries, Atoi, query_limit}

-- A query parameter that is empty filters nothing.
given : String → Option String
given text = if text == "" then none else some text

module _ {D : Type 0} (dec : Decimal D) where
  -- One round of the loop of `compare`.
  compared : OrderIntent D → PaymentEvidence D → String × String × String → FieldComparison
  compared order ev (field, expected, observed) =
      let same = expected == observed in
      record {
        field = field;
        expected = expected;
        observed = observed;
        matches =
            if ((field == "amount") && not same) && dec.greater_than ev.amount order.expected_amount
            then true
            else same;
      }

  pairs : OrderIntent D → PaymentEvidence D → List (String × String × String)
  pairs order ev =
      (
        "amount",
        dec.string_fixed stellar_decimals order.expected_amount,
        dec.string_fixed stellar_decimals ev.amount,
      )
      ∷ ("asset_code", order.asset_code, ev.asset_code)
      ∷ ("asset_issuer", order.asset_issuer, ev.asset_issuer)
      ∷ ("destination_account", order.destination_account, ev.destination_account)
      ∷ ("buyer_wallet", order.buyer_wallet, ev.source_account)
      ∷ ("memo", order.memo, ev.memo)
      ∷ []

  -- `compare`
  unfoldable pub compare : OrderIntent D → PaymentEvidence D → List FieldComparison
  unfolding compared pairs
  compare order ev = map (compared order ev) (pairs order ev)

  module _ {S : Type 0} (db : Database D S) (queries : Queries D S) (db_error : String) where
    evidence_listed : Option (List (PaymentEvidence D)) → Response (List EvidenceDto)
    evidence_listed none = internal ("lookup failed: " <> db_error)
    evidence_listed (some rows) = json (map (to_evidence_dto dec) rows)

    -- `ListEvidence`
    unfoldable pub list_evidence : Atoi → String → String → String → S → Response (List EvidenceDto)
    unfolding evidence_listed given
    list_evidence atoi order_id verdict limit s =
        evidence_listed
          (queries.evidence_where (given order_id) (given verdict) (query_limit atoi limit) s)

    evidence_item : OrderIntent D → PaymentEvidence D → OrderEvidenceDto
    evidence_item order row = record {
      evidence = to_evidence_dto dec row;
      comparison = compare order row;
    }

    evidence_found : OrderIntent D → Option (List (PaymentEvidence D)) → Response OrderEvidenceData
    unfolding evidence_item
    evidence_found order none = internal ("lookup failed: " <> db_error)
    evidence_found order (some rows) =
        json (record { order = to_order_dto dec order; evidence = map (evidence_item order) rows })

    order_found : Option (OrderIntent D) → S → Response OrderEvidenceData
    unfolding evidence_found
    order_found none s = not_found "order not found"
    order_found (some order) s = evidence_found order (queries.evidence_of_order order.id s)

    -- `GetOrderEvidence`
    unfoldable pub get_order_evidence : String → S → Response OrderEvidenceData
    unfolding order_found
    get_order_evidence id s = order_found (db.order_by_id id s) s
