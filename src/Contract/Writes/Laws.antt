-- ===== src/Contract/Writes/Laws.antt =====
-- Where a write leaves the order on the chain, from wherever an earlier one had left it.
use shopble_stellar.Common.{
  String, ◌≡◌, ◌≢◌, refl, ap, ◌∙◌, inl, inr, Bool-cases, true, false, not, Option, Option-cases,
  none, some, ◌==◌, string_eq, eq_iff, if◌then◌else◌,
}
use shopble_stellar.Models.Status.{OrderStatus, RejectReason, payment_detected, no_reason}
use shopble_stellar.Models.Order.{OrderIntent}
use shopble_stellar.Watcher.Database.{Database}
use shopble_stellar.Watcher.Chain.{World, write_chain}
use shopble_stellar.Contract.{
  ChainStatus, ChainOrder, Env, chain_transition, put_order, require_operator, store_new,
  register_order, move_order, record_status,
}
use shopble_stellar.Contract.Agreement.{to_chain}
use shopble_stellar.Contract.Writes.{
  is_final, accepts, status_of, is_open, store_hash-net, Setup, contract_create, contract_status,
  contract_chain, three_calls, on_host,
}

module _ {D A : Type 0} (setup : Setup D A) where
  -- The environment after some calls about one order, whose status is now `now`.
  record Lands (before : Env A) (id : String) (now : ChainStatus) (env : Env A) : Type 0 where
    pub operator : env.operator ≡ before.operator
    pub order : ChainOrder A
    pub here : env.orders id ≡ some order
    pub status : order.status ≡ now
    pub others : (k : String) → id ≢ k → env.orders k ≡ before.orders k

  abbrev opened : Option (ChainOrder A) → ChainStatus
  opened none = ChainStatus.awaiting_payment
  opened (some o) = o.status

  abbrev moved : ChainStatus → ChainStatus → ChainStatus
  moved s t = if chain_transition s t then t else s

  put_order-other :
      (id k : String) (o : ChainOrder A) (orders : String → Option (ChainOrder A))
      → id ≢ k
      → put_order id o orders k ≡ orders k
  put_order-other id k o orders other = elim (Bool-cases (id == k)) [
    | inl same ↦ absurd (other ((eq_iff id k).0 same))
    | inr away ↦ rw away
  ]

  put_order-same :
      (id : String) (o : ChainOrder A) (orders : String → Option (ChainOrder A))
      → put_order id o orders id ≡ some o
  put_order-same id o orders = rw ((eq_iff id id).1 refl)

  module _ (before : Env A) (operator buyer : A) (runs : before.operator ≡ some operator)
      (signs : setup.signed operator ≡ true) (live : (env : Env A) → setup.live env ≡ true) where
    require_operator-none :
        (env : Env A) → env.operator ≡ before.operator → require_operator setup.signed env ≡ none
    unfolding require_operator
    require_operator-none env same = rw (same, runs, signs)

    contract_create-Lands :
        (order : OrderIntent D)
        → setup.wallet order.buyer_wallet ≡ some buyer
        → Lands before order.id
            (opened (before.orders order.id))
            (contract_create setup order before).1
    unfolding register_order store_new
    contract_create-Lands order known = elim (Option-cases (before.orders order.id)) [
      | inl absent ↦
          rw
            (
              contract_create,
              known,
              on_host,
              live before,
              register_order,
              require_operator-none before refl,
              absent,
            )
            (record {
              operator = refl;
              order = _;
              here = put_order-same order.id _ before.orders;
              status = refl;
              others = λ k other. put_order-other order.id k _ before.orders other;
            })
      | inr (o, stored) ↦
          rw
            (
              contract_create,
              known,
              on_host,
              live before,
              register_order,
              require_operator-none before refl,
              stored,
            )
            (record {
              operator = refl;
              order = o;
              here = stored;
              status = refl;
              others = λ k other. refl;
            })
    ]

    contract_status-Lands :
        (id : String) (s : OrderStatus) (why : RejectReason) (t now : ChainStatus) (env : Env A)
        → to_chain s why ≡ some t
        → Lands before id now env
        → (accepts (contract_status setup id s why env).0 ≡ chain_transition now t)
          × Lands before id (moved now t) (contract_status setup id s why env).1
    unfolding record_status move_order
    contract_status-Lands id s why t now env named l = elim (Bool-cases (chain_transition now t)) [
      | inl allowed ↦
          let row : chain_transition l.order.status t ≡ true =
            ap (λ x. chain_transition x t) l.status ∙ allowed in
          rw
            (
              contract_status,
              named,
              on_host,
              live env,
              record_status,
              require_operator-none env l.operator,
              l.here,
              row,
              allowed,
            )
            (
              refl,
              record {
                operator = l.operator;
                order = _;
                here = put_order-same id _ env.orders;
                status = refl;
                others = λ k other. put_order-other id k _ env.orders other ∙ l.others k other;
              },
            )
      | inr refused ↦
          let row : chain_transition l.order.status t ≡ false =
            ap (λ x. chain_transition x t) l.status ∙ refused in
          rw
            (
              contract_status,
              named,
              on_host,
              live env,
              record_status,
              require_operator-none env l.operator,
              l.here,
              row,
              refused,
            )
            (
              refl,
              record {
                operator = l.operator;
                order = l.order;
                here = l.here;
                status = l.status;
                others = l.others;
              },
            )
    ]

    calls-Lands :
        (order : OrderIntent D) (status : OrderStatus) (why : RejectReason) (final : ChainStatus)
        → to_chain status why ≡ some final
        → setup.wallet order.buyer_wallet ≡ some buyer
        → let detected = moved (opened (before.orders order.id)) ChainStatus.payment_detected in
          let calls = three_calls setup order status why before in
          (accepts calls.0 ≡ chain_transition detected final)
          × Lands before order.id (moved detected final) calls.1
    calls-Lands order status why final named known =
        let created = contract_create-Lands order known in
        let detected =
          contract_status-Lands order.id payment_detected no_reason ChainStatus.payment_detected _ _
            refl created in
        contract_status-Lands order.id status why final _ _ named detected.1

  -- From any status, the three calls end in the final one exactly when the order was open.
  final_moves :
      (s final : ChainStatus)
      → is_final final ≡ true
      → (chain_transition (moved s ChainStatus.payment_detected) final ≡ not (is_final s))
        × (some (moved (moved s ChainStatus.payment_detected) final)
            ≡ (if not (is_final s) then some final else some s))
  unfolding chain_transition
  final_moves ChainStatus.awaiting_payment ChainStatus.validated h = (refl, refl)
  final_moves ChainStatus.awaiting_payment (ChainStatus.rejected why) h = (refl, refl)
  final_moves ChainStatus.payment_detected ChainStatus.validated h = (refl, refl)
  final_moves ChainStatus.payment_detected (ChainStatus.rejected why) h = (refl, refl)
  final_moves ChainStatus.validated final h = (refl, refl)
  final_moves (ChainStatus.rejected why) final h = (refl, refl)
  final_moves ChainStatus.awaiting_payment ChainStatus.awaiting_payment h = cc
  final_moves ChainStatus.awaiting_payment ChainStatus.payment_detected h = cc
  final_moves ChainStatus.payment_detected ChainStatus.awaiting_payment h = cc
  final_moves ChainStatus.payment_detected ChainStatus.payment_detected h = cc

  final_move :
      (found : Option (ChainOrder A)) (final : ChainStatus)
      → is_final final ≡ true
      → (chain_transition (moved (opened found) ChainStatus.payment_detected) final ≡ is_open found)
        × (some (moved (moved (opened found) ChainStatus.payment_detected) final)
            ≡ (if is_open found then some final else status_of found))
  final_move none final h = final_moves ChainStatus.awaiting_payment final h
  final_move (some o) final h = final_moves o.status final h

  -- While no entry of the contract is archived, which happens about 7 days after its last write, and
  -- when the operator signs and the buyer's wallet is an account, a write of a final status on a
  -- network that loses nothing answers true exactly when the chain had no verdict for the order
  -- yet, from wherever an earlier write had left it: no order, awaiting payment or detected. It
  -- then ends in the final status; otherwise the earlier verdict stands. No other order changes.
  pub write_chain-final :
      {S : Type 0} (db : Database D S) (order : OrderIntent D) (status : OrderStatus)
      (why : RejectReason) (final : ChainStatus) (w : World S (Env A)) (operator buyer : A)
      → w.net.operator ≡ some operator
      → setup.signed operator ≡ true
      → ((env : Env A) → setup.live env ≡ true)
      → setup.wallet order.buyer_wallet ≡ some buyer
      → to_chain status why ≡ some final
      → is_final final ≡ true
      → let (done, w') = write_chain db (some (contract_chain setup)) order status why w in
        let before = w.net.orders order.id in
        (done ≡ is_open before)
        × (status_of (w'.net.orders order.id)
            ≡ (if is_open before then some final else status_of before))
        × ((k : String) → order.id ≢ k → w'.net.orders k ≡ w.net.orders k)
  unfolding write_chain
  write_chain-final db order status why final w operator buyer runs signs live known named ends =
      let before = w.net in
      let l =
        calls-Lands before operator buyer runs signs live order status why final named known in
      let ends_in = final_move (before.orders order.id) final ends in
      let stored = store_hash-net db order.id (three_calls setup order status why before) w in
      (
        stored.0 ∙ l.0 ∙ ends_in.0,
        ap (λ (e : Env A). status_of (e.orders order.id)) stored.1
            ∙ ap status_of l.1.here
            ∙ ap some l.1.status
            ∙ ends_in.1,
        λ k other. ap (λ (e : Env A). e.orders k) stored.1 ∙ l.1.others k other,
      )
