-- ===== src/Soroban/Client/Laws.antt =====
-- When a call of the contract succeeds, and how often it asks the server.
use shopble_stellar.Common.{
  ℕ, zero, suc, ◌+◌, ◌≤◌, String, ◌≡◌, sym, ap, ◌∙◌, ◌↔◌, inl, inr, Bool-cases, Option,
  Option-cases, none, some, List, [], arith, eq_iff, string_eq, Option, ◌≢◌, ◌==◌,
}
use shopble_stellar.Stellar.Config.{StellarConfig}
use shopble_stellar.Soroban.Sdk.{Sdk, Rpc, Sent, Simulation}
use shopble_stellar.Soroban.Call.{
  Outcome, ok, after-ok, after-then, InvokeError, or_fail, ask, no_account, no_sequence,
  not_simulated, bad_entry, not_built, not_encoded, bad_data, not_signed, not_sent,
}
use shopble_stellar.Soroban.Client.{
  Client, no_contract, new, verdict, wait_ledger, submit, invoke, checked, accepted, auth_of, build,
  operator_address,
}
use shopble_stellar.Common.Int.{ℤ}

module _ {V C K T R U X : Type 0} (sdk : Sdk V C K T R U) (rpc : Rpc X) where
  success_status :
      (hash : String) (status : Option String) {h : String}
      → verdict sdk rpc hash status ≡ some (ok h)
      → (status ≡ some "SUCCESS") × (h ≡ hash)
  success_status hash none e = cc
  success_status hash (some status) e = ground (arith, eq_iff status "SUCCESS")

  pub wait_ledger-ok :
      (n : ℕ) (hash : String) (x : X) {h : String} {x' : X}
      → wait_ledger sdk rpc n hash x ≡ (ok h, x')
      → (h ≡ hash) × ((y : X) × (rpc.get_transaction hash y ≡ (some "SUCCESS", x')))
  unfolding wait_ledger
  wait_ledger-ok zero hash x e = cc
  wait_ledger-ok (suc n) hash x {h} {x'} e =
      let y = (rpc.wait_second x).1 in
      elim (Bool-cases ((rpc.wait_second x).0)) [
        | inl stopped ↦ absurd (cc (rw (wait_ledger, stopped) at e))
        | inr waited ↦ elim (Option-cases (verdict sdk rpc hash (rpc.get_transaction hash y).0)) [
          | inl again ↦
              wait_ledger-ok n hash (rpc.get_transaction hash y).1
                (rw (wait_ledger, waited, again) at e)
          | inr (answer, known) ↦
              let e' : ◌≡◌ {A = Outcome String × X} (answer, (rpc.get_transaction hash y).1)
                  (ok h, x') =
                rw (wait_ledger, waited, known) at e in
              let (status, same) =
                success_status hash (rpc.get_transaction hash y).0 (known ∙ ap some (cc e')) in
              (same, (y, cc (status, e')))
        ]
      ]

  -- A transaction that calls the function with the arguments, with the sequence number of the account
  -- and the resources and the fee of a simulation, both from the server, is signed with the client's key and sent, and the server takes it with this answer.
  pub record Submitted (c : Client C K) (fn : String) (args : List V) (sent : Sent) (y : X)
      : Type 0 where
    pub seq : ℤ
    pub sim : Simulation
    pub resources : R
    pub auth_entries : List U
    pub signing : T
    pub signed : T
    pub envelope : String
    pub raw : String
    pub start : X
    pub loaded : X
    pub asked : X
    pub answered : X
    pub before : X
    pub account : rpc.load_account (sdk.address_of c.kp) start ≡ (some (some seq), loaded)
    pub simulates : rpc.simulate_transaction raw asked ≡ (some sim, answered)
    pub simulated : sim.error ≡ ""
    pub limits : sdk.decode_data sim.transaction_data ≡ some resources
    pub built :
        sdk.new_transaction
          (sdk.address_of c.kp)
          seq
          (sdk.min_base_fee + sim.min_resource_fee)
          (some resources)
          auth_entries
          c.contract
          fn
          args
        ≡ some signing
    pub key : sdk.sign c.passphrase c.kp signing ≡ some signed
    pub encoded : sdk.base64 signed ≡ some envelope
    pub sends : rpc.send_transaction envelope before ≡ (some sent, y)
    pub taken : sent.status ≢ "ERROR"

  or_fail-ok :
      {B : Type 0} (e : InvokeError) (o : Option B) (x : X) {b : B} {x' : X}
      → or_fail e o x ≡ (ok b, x')
      → (o ≡ some b) × (x ≡ x')
  or_fail-ok e none x h = cc
  or_fail-ok e (some b) x h = (cc h, cc h)

  ask-ok :
      {B : Type 0} (e : InvokeError) (r : Option B × X) {b : B} {x' : X}
      → or_fail e r.0 r.1 ≡ (ok b, x')
      → r ≡ (some b, x')
  ask-ok e (none, x) h = cc
  ask-ok e (some b, x) h = cc h

  checked-ok :
      (sim : Simulation) (x : X) {s : Simulation} {x' : X}
      → checked sdk rpc sim x ≡ (ok s, x')
      → (sim ≡ s) × (sim.error ≡ "")
  unfolding checked
  checked-ok sim x h = elim (Bool-cases (sim.error == "")) [
    | inl fine ↦ (cc (rw (checked, fine) at h), (eq_iff sim.error "").0 fine)
    | inr bad ↦ absurd (cc (rw (checked, bad) at h))
  ]

  accepted-ok :
      (sent : Sent) (x : X) {s : Sent} {x' : X}
      → accepted sdk rpc sent x ≡ (ok s, x')
      → (sent ≡ s) × (x ≡ x') × (sent.status ≢ "ERROR")
  unfolding accepted
  accepted-ok sent x h = elim (Bool-cases (sent.status == "ERROR")) [
    | inl bad ↦ absurd (cc (rw (accepted, bad) at h))
    | inr fine ↦
        let same = rw (accepted, fine) at h in
        (cc same, cc same, λ e. cc ((eq_iff sent.status "ERROR").1 e, fine))
  ]

  submit-Submitted :
      (c : Client C K) (fn : String) (args : List V) (x : X) {sent : Sent} {y : X}
      → submit sdk rpc c fn args x ≡ (ok sent, y)
      → Submitted c fn args sent y
  unfolding submit
  submit-Submitted c fn args x h =
      after-then (ask no_account (rpc.load_account (operator_address sdk c)) x) _ h
        (λ acct x1 h1 r1. after-then (or_fail no_sequence acct x1) _ r1 (λ seq x2 h2 r2.
          after-then (or_fail not_built (build sdk c seq fn args sdk.min_base_fee none []) x2) _ r2
            (λ tx x3 h3 r3.
              after-then (or_fail not_encoded (sdk.base64 tx) x3) _ r3 (λ raw x4 h4 r4.
                after-then (ask not_simulated (rpc.simulate_transaction raw) x4) _ r4
                  (λ answer x5 h5 r5. after-then (checked sdk rpc answer x5) _ r5 (λ sim x6 h6 r6.
                    after-then (or_fail bad_data (sdk.decode_data sim.transaction_data) x6) _ r6
                      (λ resources x7 h7 r7.
                        after-then (or_fail bad_entry (auth_of sdk sim.results) x7) _ r7
                          (λ entries x8 h8 r8.
                            after-then
                              (or_fail not_built
                                (build sdk c seq fn args (sdk.min_base_fee + sim.min_resource_fee)
                                  (some resources) entries)
                                x8)
                              _ r8
                              (λ signing x9 h9 r9.
                                after-then
                                  (or_fail not_signed (sdk.sign c.passphrase c.kp signing) x9) _ r9
                                  (λ signed x10 h10 r10.
                                    after-then (or_fail not_encoded (sdk.base64 signed) x10) _ r10
                                      (λ envelope x11 h11 r11.
                                        after-then
                                          (ask not_sent (rpc.send_transaction envelope) x11) _ r11
                                          (λ got x12 h12 r12.
                                            let (same, there, fine) = accepted-ok got x12 r12 in
                                            let (same_sim, no_error) = checked-ok answer x5 h6 in
                                            let sends =
                                              ask-ok not_sent (rpc.send_transaction envelope x11)
                                                h12 in
                                            record {
                                              seq = seq;
                                              sim = sim;
                                              resources = resources;
                                              auth_entries = entries;
                                              signing = signing;
                                              signed = signed;
                                              envelope = envelope;
                                              before = x11;
                                              raw = raw;
                                              start = x;
                                              loaded = x1;
                                              asked = x4;
                                              answered = x5;
                                              account =
                                                  ask-ok no_account
                                                    (rpc.load_account (operator_address sdk c) x) h1
                                                  ∙ ap (λ o. (some o, x1))
                                                      (or_fail-ok no_sequence acct x1 h2).0;
                                              simulates =
                                                  ask-ok not_simulated
                                                    (rpc.simulate_transaction raw x4) h5
                                                  ∙ ap (λ s. (some s, x5)) same_sim;
                                              simulated =
                                                  ap (λ (s : Simulation). s.error) (sym same_sim)
                                                  ∙ no_error;
                                              limits = (or_fail-ok bad_data _ x6 h7).0;
                                              built = (or_fail-ok not_built _ x8 h9).0;
                                              key = (or_fail-ok not_signed _ x9 h10).0;
                                              encoded = (or_fail-ok not_encoded _ x10 h11).0;
                                              sends = sends ∙ (λ i. (some (same i), there i));
                                              taken =
                                                  λ e. fine (ap (λ (s : Sent). s.status) same ∙ e);
                                            }))))))))))))

  -- A call that returns no error has signed a transaction for the function and its arguments, with
  -- the account's sequence number and the resources and the fee of a simulation without error, both
  -- from the server, and sent it; it returns the hash in the
  -- server's answer to that, and the last answer of the server was that this transaction is in the
  -- ledger with success.
  pub invoke-ok :
      (c : Client C K) (fn : String) (args : List V) (x : X) {hash : String} {x' : X}
      → invoke sdk rpc c fn args x ≡ (ok hash, x')
      → (sent : Sent) × (y : X) × Submitted c fn args sent y
        × (sent.hash ≡ hash)
        × ((z : X) × (rpc.get_transaction sent.hash z ≡ (some "SUCCESS", x')))
  unfolding invoke
  invoke-ok c fn args x h =
      let (sent, y, submitted, waited) = after-ok (submit sdk rpc c fn args x) _ h in
      let (same, (z, answer)) = wait_ledger-ok 30 sent.hash y waited in
      (sent, y, submit-Submitted c fn args x submitted, sym same, (z, answer))

  -- A wait of `n` rounds asks the server for the transaction `n` times at most, and each time only
  -- after a second. `asked` is any count that goes up by one with such a question and does not
  -- with the second.
  pub wait_ledger_bound :
      (asked : X → ℕ)
      → ((x : X) → asked (rpc.wait_second x).1 ≡ asked x)
      → ((hash : String) (x : X) → asked (rpc.get_transaction hash x).1 ≡ asked x + 1)
      → (n : ℕ) (hash : String) (x : X) → asked (wait_ledger sdk rpc n hash x).1 ≤ asked x + n
  unfolding wait_ledger
  wait_ledger_bound asked idle counted zero hash x = omega arith
  wait_ledger_bound asked idle counted (suc n) hash x =
      let y = (rpc.wait_second x).1 in
      let z = (rpc.get_transaction hash y).1 in
      elim (Bool-cases ((rpc.wait_second x).0)) [
        | inl stopped ↦ rw (wait_ledger, stopped) (omega (arith, idle x))
        | inr waited ↦ elim (Option-cases (verdict sdk rpc hash (rpc.get_transaction hash y).0)) [
          | inl again ↦
              rw (wait_ledger, waited, again)
                (omega
                  (arith, idle x, counted hash y, wait_ledger_bound asked idle counted n hash z))
          | inr (answer, known) ↦
              rw (wait_ledger, waited, known) (omega (arith, idle x, counted hash y))
        ]
      ]

-- `New` answers with no client and no error exactly when the configuration names no contract.
pub new-no_contract_iff :
    {V C K T R U : Type 0} (sdk : Sdk V C K T R U) (cfg : StellarConfig)
    → (new sdk cfg ≡ no_contract) ↔ (cfg.contract_id ≡ "")
unfolding new
new-no_contract_iff sdk cfg = ground (arith, eq_iff cfg.contract_id "")
