-- ===== src/Report/Markdown.antt =====
-- services/report/report.go: the tables. The text of the current time is an argument.
pub mod Laws
use shopble_stellar.Common.{
  ℕ, zero, suc, ◌+◌, ◌-◌, String, ◌<>◌, Bool, true, false, not, List, [], ◌∷◌, length, map, ltb,
  leb, ◌==◌, nat_eq, string_eq, if◌then◌else◌,
}
use shopble_stellar.Common.Int.{ℤ, pos, ◌-ℤ◌, ltb_ℤ, pos_part, wrap64}
use shopble_stellar.Decimal.{Decimal}
use shopble_stellar.Models.Status.{
  RejectReason, no_reason, matched, Verdict, duplicate, reason_beq, status_text, reason_text,
  verdict_text, order_final, all_reject_reasons,
}
use shopble_stellar.Models.Order.{OrderIntent}
use shopble_stellar.Models.Evidence.{PaymentEvidence}
use shopble_stellar.Stellar.Config.{StellarConfig}
use shopble_stellar.Stellar.Text.{decimal_text}
use shopble_stellar.Stellar.Instruction.{
  PaymentInstruction, Instructed, ok, err, build_instruction, stellar_decimals, explorer_tx_url,
}
use shopble_stellar.Report.Cells.{short, code, dash, code_or_dash, mark, join, row, latency_text}
use shopble_stellar.Report.Coverage.{Coverage, summarize, target_orders, target_wallets, target_txs}

join_reasons : List RejectReason → String
join_reasons rs = join ", " (map (λ r. "`" <> reason_text r <> "`") rs)

missing_reasons : Coverage → String
unfolding join_reasons
missing_reasons c =
    if ltb 0 (length c.reasons_missing)
    then "**Còn thiếu case cho:** "
      <> join_reasons c.reasons_missing
      <> " — campaign chưa phủ hết 5 lý do từ chối.\n\n"
    else ""

missing_orders : Coverage → String
missing_orders c =
    if ltb 0 (length c.on_chain_missing)
    then "**Chốt trong Postgres nhưng chưa lên chain:** `"
      <> join "`, `" c.on_chain_missing
      <> "`. Watcher sẽ tự thử ghi lại ở vòng poll sau; nếu vẫn trống thì đọc log để biết contract chặn ở đâu.\n\n"
    else ""

-- `writeCoverage`
unfoldable pub write_coverage : Coverage → String
unfolding row missing_reasons missing_orders
write_coverage c =
    "## Coverage\n\n"
    <> "| Yêu cầu SOW | Có | Cần | |\n|---|---|---|---|\n"
    <> row (
        "Order intent run (D1)"
        ∷ decimal_text c.orders
        ∷ decimal_text target_orders
        ∷ mark (leb target_orders c.orders)
        ∷ [])
    <> row (
        "Ví buyer khác nhau (D1)"
        ∷ decimal_text c.distinct_wallets
        ∷ decimal_text target_wallets
        ∷ mark (leb target_wallets c.distinct_wallets)
        ∷ [])
    <> row (
        "Transaction watcher (D2)"
        ∷ decimal_text c.evidence
        ∷ decimal_text target_txs
        ∷ mark (leb target_txs c.evidence)
        ∷ [])
    <> row (
        "Lý do từ chối có mặt (D2)"
        ∷ decimal_text (length c.reasons_seen)
        ∷ decimal_text (length all_reject_reasons)
        ∷ mark (length c.reasons_missing == 0)
        ∷ [])
    <> "\nVerdict: matched "
    <> decimal_text (c.verdicts matched)
    <> " · rejected "
    <> decimal_text (c.verdicts Verdict.rejected)
    <> " · duplicate "
    <> decimal_text (c.verdicts duplicate)
    <> "\n\n"
    <> missing_reasons c
    <> missing_orders c

uri_text : Instructed PaymentInstruction → String
uri_text (err e) = "—"
uri_text (ok ins) = "`" <> ins.uri <> "`"

module _ {D : Type 0} where
  -- `statusText`
  abbrev pub order_status_text : OrderIntent D → String
  order_status_text o =
      if not (reason_beq o.reject_reason no_reason)
      then status_text o.status <> " (" <> reason_text o.reject_reason <> ")"
      else status_text o.status

  link_text : OrderIntent D → String
  link_text o =
      if not (o.on_chain_tx_hash == "")
      then "[`" <> short o.on_chain_tx_hash <> "`](" <> explorer_tx_url o.on_chain_tx_hash <> ")"
      else "— (chưa ghi được)"

  -- The rows of `writeChain`, one for each final order.
  unfoldable pub chain_rows : List (OrderIntent D) → List String
  unfolding row link_text
  chain_rows [] = []
  chain_rows (o ∷ rest) =
      let others = chain_rows rest in
      if not (order_final o.status)
      then others
      else row (
          ("`" <> o.id <> "`")
          ∷ status_text o.status
          ∷ dash (reason_text o.reject_reason)
          ∷ link_text o
          ∷ [])
        ∷ others

  -- `writeChain`
  unfoldable pub write_chain : StellarConfig → List (OrderIntent D) → String
  write_chain cfg orders =
      let rows = chain_rows orders in
      "## D3 — On-chain status\n\n"
      <> "Contract: "
      <> code_or_dash cfg.contract_id
      <> "\n\n"
      <> "| Order | Trạng thái cuối | Reason | Transaction ghi verdict |\n|---|---|---|---|\n"
      <> join "" rows
      <> (if length rows == 0 then "| — | — | — | chưa có order nào chốt |\n" else "")
      <> "\n"

  module _ (dec : Decimal D) where
    order_rows : StellarConfig → ℕ → List (OrderIntent D) → String
    unfolding row uri_text
    order_rows cfg i [] = ""
    order_rows cfg i (o ∷ rest) =
        row (
          decimal_text (i + 1)
          ∷ ("`" <> o.id <> "`")
          ∷ o.product_ref
          ∷ dec.string_fixed stellar_decimals o.expected_amount
          ∷ ("`" <> o.asset_code <> "`")
          ∷ ("`" <> short o.asset_issuer <> "`")
          ∷ ("`" <> short o.destination_account <> "`")
          ∷ ("`" <> short o.buyer_wallet <> "`")
          ∷ order_status_text o
          ∷ uri_text (build_instruction dec cfg o.expected_amount o.memo)
          ∷ [])
        <> order_rows cfg (i + 1) rest

    -- `writeOrders`
    unfoldable pub write_orders : StellarConfig → List (OrderIntent D) → String
    unfolding order_rows
    write_orders cfg orders =
        "## D1 — Order intent runs\n\n"
        <> "7 field lưu theo SOW, cộng payment instruction sinh ra cho từng order.\n\n"
        <> "| # | Order id (= memo) | Product | Expected | Asset | Issuer | Destination | Buyer wallet | Status | Instruction |\n"
        <> "|---|---|---|---|---|---|---|---|---|---|\n"
        <> order_rows cfg 0 orders
        <> "\n"

    transaction_rows : ℕ → List (PaymentEvidence D) → String
    unfolding row
    transaction_rows i [] = ""
    transaction_rows i (e ∷ rest) =
        "| "
        <> join " | " (
            decimal_text (i + 1)
            ∷ ("[`" <> short e.tx_hash <> "`](" <> explorer_tx_url e.tx_hash <> ")")
            ∷ ("`" <> short e.source_account <> "`")
            ∷ dec.string_fixed stellar_decimals e.amount
            ∷ ("`" <> e.asset_code <> "`")
            ∷ code e.memo
            ∷ code e.order_id
            ∷ [])
        <> " | | "
        <> join " | " (
            verdict_text e.verdict
            ∷ dash (reason_text e.reject_reason)
            ∷ latency_text (wrap64 (e.captured_at -ℤ e.ledger_close_at))
            ∷ [])
        <> " |\n"
        <> transaction_rows (i + 1) rest

    -- `writeTransactions`
    unfoldable pub write_transactions : List (PaymentEvidence D) → String
    unfolding transaction_rows
    write_transactions evidence =
        "## D2 — Watcher transactions\n\n"
        <> "Cột **Expected** là ý định của test case, không suy ra được từ ledger — người chạy campaign tự điền. Mọi cột còn lại đọc từ dữ liệu đã lưu.\n\n"
        <> "| # | Tx | Source | Amount | Asset | Memo | Order | Expected | Verdict | Reason | Latency |\n"
        <> "|---|---|---|---|---|---|---|---|---|---|---|\n"
        <> transaction_rows 0 evidence
        <> "\n"

    -- `Markdown`
    unfoldable pub markdown :
        String → StellarConfig → List (OrderIntent D) → List (PaymentEvidence D) → String
    markdown now cfg orders evidence =
        let cov = summarize orders evidence in
        "# Shopble — Phase 1 evidence pack\n\n"
        <> "Sinh lúc "
        <> now
        <> " bằng `shopble report`.\n\n"
        <> "| | |\n|---|---|\n"
        <> "| Network | `"
        <> cfg.network_passphrase
        <> "` |\n"
        <> "| Asset | `"
        <> cfg.asset_code
        <> "` / `"
        <> cfg.asset_issuer
        <> "` |\n"
        <> "| Destination | `"
        <> cfg.destination_account
        <> "` |\n"
        <> "| Order-status contract | "
        <> code_or_dash cfg.contract_id
        <> " |\n\n"
        <> write_coverage cov
        <> write_orders cfg orders
        <> write_transactions evidence
        <> write_chain cfg orders
