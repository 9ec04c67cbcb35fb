-- ===== src/Database/Txn.antt =====
-- database/sql_txn.go: transactions with handlers that wait for the commit. What the caller does in
-- a transaction is a `Program`, and a handler is a name: what it does is only logged, here in
-- `executed`. The context holds a wrapper in every transaction and none outside.
pub mod Laws
use shopble_stellar.Common.{
  Bool, true, false, not, ◌&&◌, Option, none, some, List, [], ◌∷◌, ◌++◌, if◌then◌else◌,
}

-- What a callback does with its context: it returns nil or an error, makes a statement and returns
-- its error, calls `OnTxCommit`, or calls `Txn` and goes on, after nil or after an error.
pub data Program (S H : Type 0) : Type 0 where
  done fail : Program S H
  write : (S → Option S) → Program S H → Program S H
  on_commit : H → Program S H → Program S H
  nested : Program S H → Program S H → Program S H → Program S H

-- gorm's answer to a begin or a savepoint, and to a commit: whether it succeeds.
pub record Server (S : Type 0) : Type 0 where
  pub begins : S → Bool
  pub saves : S → Bool
  pub commits : S → Bool

pub record Session (S H : Type 0) : Type 0 where
  pub db : S
  pub on_commit_callbacks : Option (List H)
  pub executed : List H

-- The wrapper's list, which nothing empties.
abbrev pub callbacks_of : {H : Type 0} → Option (List H) → List H
callbacks_of none = []
callbacks_of (some hs) = hs

module _ {S H : Type 0} where
  -- `RegisterOnCommitCallback` of the wrapper in the context, or `execOnCommitCallback`
  registered : H → Option (List H) → Session S H → Session S H
  registered handler none s = record s { executed = s.executed ++ (handler ∷ []) }
  registered handler (some hs) s = record s { on_commit_callbacks = some (hs ++ (handler ∷ [])) }

  -- `OnTxCommit`
  unfoldable pub on_tx_commit : H → Session S H → Session S H
  unfolding registered
  on_tx_commit handler s = registered handler s.on_commit_callbacks s

  -- `executeCallbacks`
  abbrev pub execute_callbacks : Session S H → Session S H
  execute_callbacks s = record s { executed = s.executed ++ callbacks_of s.on_commit_callbacks }

  -- gorm's `Transaction` when its callback has ended: an error, or a commit that fails, takes the
  -- database back to what it was. The wrapper's callbacks follow a commit.
  unfoldable pub end_transaction : (S → Bool) → S → Bool × Session S H → Bool × Session S H
  end_transaction commits before (false, s) = (false, record s { db = before })
  end_transaction commits before (true, s) =
      if commits s.db then (true, execute_callbacks s) else (false, record s { db = before })

  -- The caller of a nested `Txn` sees its error.
  after_nested :
      (Session S H → Bool × Session S H)
      → (Session S H → Bool × Session S H)
      → Bool × Session S H
      → Bool × Session S H
  after_nested committed rolled_back (true, s) = committed s
  after_nested committed rolled_back (false, s) = rolled_back s

  module _ (server : Server S) where
    -- `executeTx`, with gorm's answer to the begin. In the context of a transaction it is a
    -- savepoint, which nothing commits.
    unfoldable pub execute_tx :
        Bool → (S → Bool) → (Session S H → Bool × Session S H) → Session S H → Bool × Session S H
    unfolding end_transaction
    execute_tx begun commits callback s =
        if begun then end_transaction commits s.db (callback s) else (false, s)

    -- The callback of a transaction.
    unfoldable pub run_program : Program S H → Session S H → Bool × Session S H
    unfolding execute_tx on_tx_commit after_nested
    run_program done s = (true, s)
    run_program fail s = (false, s)
    run_program (write statement p) s = elim (statement s.db) [
      | none ↦ (false, s)
      | some d ↦ run_program p (record s { db = d })
    ]
    run_program (on_commit handler p) s = run_program p (on_tx_commit handler s)
    run_program (nested p committed rolled_back) s =
        after_nested (run_program committed) (run_program rolled_back)
          (execute_tx (server.saves s.db) (λ d. true) (run_program p) s)

    -- `Txn` outside of a transaction, with the wrapper that it makes; its caller's context has none.
    unfoldable pub txn : Program S H → Session S H → Bool × Session S H
    unfolding execute_tx
    txn p s =
        let (returned, s') =
          execute_tx (server.begins s.db) server.commits (run_program p)
            (record s { on_commit_callbacks = some [] }) in
        (returned, record s' { on_commit_callbacks = s.on_commit_callbacks })
