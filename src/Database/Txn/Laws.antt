-- ===== src/Database/Txn/Laws.antt =====
-- What a transaction leaves: the database, and the handlers that have run.
use shopble_stellar.Common.{
  ◌≡◌, refl, ap, ◌∙◌, subst, inl, inr, Bool, Bool-cases, true, false, Option, Option-cases, some,
  List, [], ◌∷◌, ◌++◌,
}
use mathlib.Core.List.{append_assoc, append-nil}
use shopble_stellar.Database.Txn.{
  Program, done, fail, write, on_commit, nested, Server, Session, on_tx_commit, end_transaction,
  after_nested, execute_tx, run_program, txn, registered,
}

module _ {S H : Type 0} where
  -- The programs without a transaction of their own, and the handlers they register.
  abbrev pub IsFlat : Program S H → Type 0
  IsFlat done = Unit
  IsFlat fail = Unit
  IsFlat (write statement p) = IsFlat p
  IsFlat (on_commit handler p) = IsFlat p
  IsFlat (nested p committed rolled_back) = ⊥

  abbrev pub handlers : Program S H → List H
  handlers done = []
  handlers fail = []
  handlers (write statement p) = handlers p
  handlers (on_commit handler p) = handler ∷ handlers p
  handlers (nested p committed rolled_back) = []

  -- A session inside of a transaction.
  abbrev inside : S → List H → List H → Session S H
  inside d hs ran = record { db = d; on_commit_callbacks = some hs; executed = ran }

  module _ (server : Server S) where
    -- How a flat program ends.
    data FlatRun (p : Program S H) (hs ran : List H) : Bool × Session S H → Type 0 where
      errs : (d : S) (hs' : List H) → FlatRun p hs ran (false, inside d hs' ran)
      returns : (d : S) → FlatRun p hs ran (true, inside d (hs ++ handlers p) ran)

    FlatRun-on_commit :
        {p : Program S H} {h : H} {hs ran : List H} {r : Bool × Session S H}
        → FlatRun p (hs ++ (h ∷ [])) ran r
        → FlatRun (on_commit h p) hs ran r
    FlatRun-on_commit (errs d hs') = errs d hs'
    FlatRun-on_commit {p} {h} {hs} (returns d) =
        rw (append_assoc hs (h ∷ []) (handlers p)) (returns d)

    FlatRun-write :
        {p : Program S H} {f : S → Option S} {hs ran : List H} {r : Bool × Session S H}
        → FlatRun p hs ran r
        → FlatRun (write f p) hs ran r
    FlatRun-write (errs d hs') = errs d hs'
    FlatRun-write (returns d) = returns d

    run_program-FlatRun :
        (p : Program S H) (d : S) (hs ran : List H)
        → IsFlat p
        → FlatRun p hs ran (run_program server p (inside d hs ran))
    unfolding run_program on_tx_commit registered
    run_program-FlatRun done d hs ran flat =
        subst (λ l. FlatRun done hs ran (true, inside d l ran)) (append-nil hs) (returns d)
    run_program-FlatRun fail d hs ran flat = errs d hs
    run_program-FlatRun (write statement p) d hs ran flat = elim (Option-cases (statement d)) [
      | inl refused ↦ rw (run_program, refused) (errs d hs)
      | inr (d', made) ↦
          rw (run_program, made) (FlatRun-write (run_program-FlatRun p d' hs ran flat))
    ]
    run_program-FlatRun (on_commit handler p) d hs ran flat =
        FlatRun-on_commit (run_program-FlatRun p d (hs ++ (handler ∷ [])) ran flat)
    run_program-FlatRun (nested p committed rolled_back) d hs ran flat = elim flat [ ]

    -- What `Txn` does around a callback that ends in a given way.
    commits_flat :
        {p : Program S H} {ran : List H} (d : S) {r : Bool × Session S H}
        → FlatRun p [] ran r
        → let (committed, s') = end_transaction server.commits d r in
          (committed ≡ true → s'.executed ≡ ran ++ handlers p)
          × (committed ≡ false → (s'.executed ≡ ran) × (s'.db ≡ d))
    unfolding end_transaction
    commits_flat d (errs d' hs') = (λ c. cc, λ c. (refl, refl))
    commits_flat {p} {ran} d (returns d') = elim (Bool-cases (server.commits d')) [
      | inl kept ↦ rw kept (λ c. refl, λ c. cc)
      | inr lost ↦ rw lost (λ c. cc, λ c. (refl, refl))
    ]

    -- A transaction without another one inside runs its handlers once, in the order in which they
    -- were registered, if it commits. If it does not, it runs none and leaves the database as it was.
    pub txn_flat :
        (p : Program S H) (s : Session S H)
        → IsFlat p
        → let (committed, s') = txn server p s in
          (committed ≡ true → s'.executed ≡ s.executed ++ handlers p)
          × (committed ≡ false → (s'.executed ≡ s.executed) × (s'.db ≡ s.db))
    unfolding txn execute_tx
    txn_flat p s flat = elim (Bool-cases (server.begins s.db)) [
      | inl begun ↦ rw begun (commits_flat s.db (run_program-FlatRun p s.db [] s.executed flat))
      | inr refused ↦ rw refused (λ c. cc, λ c. (refl, refl))
    ]

    -- A nested transaction that returns nil, in an outer one that fails or returns nil after it.
    FlatRun-returned :
        {p : Program S H} {hs ran : List H} {r : Bool × Session S H}
        → FlatRun p hs ran r
        → r.0 ≡ true
        → (d : S) × (r ≡ (true, inside d (hs ++ handlers p) ran))
    FlatRun-returned (errs d hs') returned = cc
    FlatRun-returned (returns d) returned = (d, refl)

    nested-inside :
        (p committed rolled_back : Program S H) (d d' : S) (hs ran : List H)
        → server.saves d ≡ true
        → run_program server p (inside d [] ran) ≡ (true, inside d' hs ran)
        → run_program server (nested p committed rolled_back) (inside d [] ran)
          ≡ run_program server committed (inside d' hs (ran ++ hs))
    unfolding run_program execute_tx end_transaction after_nested
    nested-inside p committed rolled_back d d' hs ran saved ended =
        ap
          (λ (r : Bool × Session S H).
            after_nested (run_program server committed) (run_program server rolled_back)
              (execute_tx server (server.saves d) (λ x. true) (λ x. r) (inside d [] ran)))
          ended
        ∙ rw saved refl

    -- When the begin and the savepoint succeed and a nested transaction without another one
    -- inside returns nil, its handlers run at once: they have run even though the outer
    -- transaction then fails, and leaves the database as it was.
    pub txn_nested-fail :
        (p rolled_back : Program S H) (s : Session S H)
        → IsFlat p
        → server.begins s.db ≡ true
        → server.saves s.db ≡ true
        → (run_program server p (record s { on_commit_callbacks = some [] })).0 ≡ true
        → let (committed, s') = txn server (nested p fail rolled_back) s in
          (committed ≡ false) × (s'.db ≡ s.db) × (s'.executed ≡ s.executed ++ handlers p)
    unfolding txn execute_tx run_program end_transaction
    txn_nested-fail p rolled_back s flat begun saved ok =
        let (d, ended) = FlatRun-returned (run_program-FlatRun p s.db [] s.executed flat) ok in
        rw (begun, nested-inside p fail rolled_back s.db d (handlers p) s.executed saved ended)
          (refl, refl, refl)

    -- When the outer transaction then commits, the handlers of the nested one run again.
    pub txn_nested-done :
        (p rolled_back : Program S H) (s : Session S H)
        → IsFlat p
        → server.begins s.db ≡ true
        → server.saves s.db ≡ true
        → (run_program server p (record s { on_commit_callbacks = some [] })).0 ≡ true
        → let (committed, s') = txn server (nested p done rolled_back) s in
          committed ≡ true → s'.executed ≡ s.executed ++ handlers p ++ handlers p
    unfolding txn execute_tx run_program end_transaction
    txn_nested-done p rolled_back s flat begun saved ok =
        let (d, ended) = FlatRun-returned (run_program-FlatRun p s.db [] s.executed flat) ok in
        let again = nested-inside p done rolled_back s.db d (handlers p) s.executed saved ended in
        elim (Bool-cases (server.commits d)) [
          | inl kept ↦ rw (begun, again, kept) (λ c. refl)
          | inr lost ↦ rw (begun, again, lost) (λ c. cc)
        ]
