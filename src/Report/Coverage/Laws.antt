-- ===== src/Report/Coverage/Laws.antt =====
-- The summary says of a campaign what its rows say.
use shopble_stellar.Common.{
  ℕ, suc, String, ◌≡◌, refl, ap, ◌∙◌, inl, inr, Bool, Bool-cases, not, ◌&&◌, List, [], ◌∷◌, arith,
  ◌==◌, string_eq, if◌then◌else◌,
}
use shopble_stellar.Models.Status.{
  RejectReason, reason_beq, all_reject_reasons, valid_reject_reason, order_final,
}
use shopble_stellar.Models.Status.Laws.{reason_beq_iff}
use shopble_stellar.Models.Order.{OrderIntent}
use shopble_stellar.Models.Evidence.{PaymentEvidence}
use shopble_stellar.Report.Coverage.{
  insert_text, sort_strings, reason_in, pick, lacks_hash, missing_ids, seen, summarize,
}

-- How often a text stands in a list.
abbrev pub occurs : String → List String → ℕ
occurs s [] = 0
occurs s (t ∷ rest) = let others = occurs s rest in if t == s then suc others else others

-- How many final orders with this id have no transaction hash.
abbrev pub unpublished : {D : Type 0} → String → List (OrderIntent D) → ℕ
unpublished id [] = 0
unpublished id (o ∷ rest) =
    let others = unpublished id rest in
    if (o.id == id) && (order_final o.status && (o.on_chain_tx_hash == ""))
    then suc others
    else others

occurs-insert_text :
    (x s : String) (l : List String) → occurs x (insert_text s l) ≡ occurs x (s ∷ l)
unfolding insert_text
occurs-insert_text x s [] = refl
occurs-insert_text x s (t ∷ rest) = ground (arith, occurs-insert_text x s rest)

occurs-sort_strings : (x : String) (l : List String) → occurs x (sort_strings l) ≡ occurs x l
unfolding sort_strings
occurs-sort_strings x [] = refl
occurs-sort_strings x (s ∷ rest) =
    occurs-insert_text x s (sort_strings rest)
    ∙ ap (λ n. if s == x then suc n else n) (occurs-sort_strings x rest)

occurs-missing_ids :
    {D : Type 0} (x : String) (orders : List (OrderIntent D))
    → occurs x (missing_ids orders) ≡ unpublished x orders
unfolding missing_ids lacks_hash
occurs-missing_ids x [] = refl
occurs-missing_ids x (o ∷ rest) = ground (arith, occurs-missing_ids x rest)

reason_in-pick :
    (f : RejectReason → Bool) (r : RejectReason) (l : List RejectReason)
    → reason_in r (pick f l) ≡ reason_in r l && f r
unfolding pick
reason_in-pick f r [] = refl
reason_in-pick f r (q ∷ rest) = elim (Bool-cases (reason_beq q r)) [
  | inl same ↦
      let eq = (reason_beq_iff q r).0 same in ground (arith, reason_in-pick f r rest, ap f eq)
  | inr other ↦ ground (arith, reason_in-pick f r rest)
]

-- For every order id, the summary lists it as missing on the chain exactly as often as there are
-- final orders with this id and no transaction hash.
pub summarize-on_chain_missing :
    {D : Type 0} (orders : List (OrderIntent D)) (evidence : List (PaymentEvidence D)) (id : String)
    → occurs id (summarize orders evidence).on_chain_missing ≡ unpublished id orders
unfolding summarize
summarize-on_chain_missing orders evidence id =
    occurs-sort_strings id (missing_ids orders) ∙ occurs-missing_ids id orders

-- Each of the five valid reasons stands in exactly one of the two lists: among those seen if some
-- evidence has it, and among those missing if none has. Other reasons stand in neither.
pub summarize-reasons :
    {D : Type 0} (orders : List (OrderIntent D)) (evidence : List (PaymentEvidence D))
    (r : RejectReason)
    → let c = summarize orders evidence in
      (reason_in r c.reasons_seen ≡ valid_reject_reason r && seen evidence r)
      × (reason_in r c.reasons_missing ≡ valid_reject_reason r && not (seen evidence r))
unfolding summarize valid_reject_reason
summarize-reasons orders evidence r = (
  reason_in-pick (seen evidence) r all_reject_reasons,
  reason_in-pick (λ q. not (seen evidence q)) r all_reject_reasons,
)
