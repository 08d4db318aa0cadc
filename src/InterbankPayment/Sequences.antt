-- ===== src/InterbankPayment/Sequences.antt =====
-- The operations on a bank's payments in any sequence (exchange-service/internal/interbank/
-- payment_tx_processor.go, internal/handler/interbank_payment_http_handler.go, internal/service/
-- interbank_reconcile.go).
use exbanka_3_backend.Prelude.{ℕ, ◌≡◌, none, List, [], ◌∷◌}
use exbanka_3_backend.Prelude.Int.{ℤ}
use exbanka_3_backend.Prelude.Text.{Text}
use exbanka_3_backend.Prelude.Db.{Transactions}
use exbanka_3_backend.Interbank.Messages.{ForeignBankId, Transaction}
use exbanka_3_backend.InterbankPayment.Models.{
  outbound, InterbankPayment, Tables, Error, Env, key_of, get_by_tx_id,
}
use exbanka_3_backend.InterbankPayment.Receiver.{on_new_tx, on_commit_tx, on_rollback_tx}
use exbanka_3_backend.InterbankPayment.Sender.{
  Request, prepare, finalise_commit, finalise_rejected, finalise_failed, mark_dispatched,
}
use exbanka_3_backend.InterbankPayment.Keeps.{IsKept, Keeps, Keeps-refl, Keeps-trans}
use exbanka_3_backend.InterbankPayment.Operations.{Snapshot}
use exbanka_3_backend.InterbankPayment.Ledger.{
  on_commit_tx-Keeps, on_rollback_tx-Keeps, on_new_tx-Keeps, finalise_commit-Keeps,
  finalise_rejected-Keeps, finalise_failed-Keeps, prepare-Keeps, mark_dispatched-Keeps,
}

-- What a partner's message, a client's request or the reconciliation makes a bank do, one
-- transaction each. A finaliser works on the row that its caller has in memory.
pub data Operation : Type 0 where
  new_tx : ℕ → Transaction → Operation
  commit_tx rollback_tx : ForeignBankId → Operation
  prepares : ForeignBankId → ℤ → Request → Operation
  commits dispatched : InterbankPayment → Operation
  rejects fails : Text → InterbankPayment → Operation

-- The row in memory is the one of the table, as far as it never changes.
abbrev pub InMemory : InterbankPayment → Tables → Type 0
InMemory row t = Snapshot (key_of row) outbound row.amount row.local_account_id t

-- A new payment has a new id; a row in memory was read from the table.
abbrev pub CanRun : Operation → Tables → Type 0
CanRun (prepares key partner q) t = get_by_tx_id key t.payments ≡ none
CanRun (commits row) t = InMemory row t
CanRun (rejects reason row) t = InMemory row t
CanRun (fails reason row) t = InMemory row t
CanRun _ t = Unit {0}

module _ (own_routing : ℕ) (db : Transactions Tables Error) where
  abbrev pub perform : Env → Operation → Tables → Tables
  perform env (new_tx partner tx) t = (on_new_tx own_routing db env partner tx t).1
  perform env (commit_tx key) t = (on_commit_tx db env key t).1
  perform env (rollback_tx key) t = (on_rollback_tx db env key t).1
  perform env (prepares key partner q) t = (prepare db env key partner q t).1
  perform env (commits row) t = (finalise_commit db env row t).1
  perform env (dispatched row) t = (mark_dispatched db env row t).1
  perform env (rejects reason row) t = (finalise_rejected db env reason row t).1
  perform env (fails reason row) t = (finalise_failed db env reason row t).1

  unfoldable pub perform_all : List (Env × Operation) → Tables → Tables
  perform_all [] t = t
  perform_all ((env, op) ∷ rest) t = perform_all rest (perform env op t)

  abbrev pub CanRunAll : List (Env × Operation) → Tables → Type 0
  CanRunAll [] t = Unit {0}
  CanRunAll ((env, op) ∷ rest) t = CanRun op t × CanRunAll rest (perform env op t)

  pub perform-Keeps :
      (env : Env) (op : Operation) (t : Tables)
      → IsKept t
      → CanRun op t
      → Keeps t (perform env op t)
  perform-Keeps env (new_tx partner tx) t kept can =
      on_new_tx-Keeps db t kept own_routing env partner tx
  perform-Keeps env (commit_tx key) t kept can = on_commit_tx-Keeps db t kept env key
  perform-Keeps env (rollback_tx key) t kept can = on_rollback_tx-Keeps db t kept env key
  perform-Keeps env (prepares key partner q) t kept can =
      prepare-Keeps db t kept env key partner q can
  perform-Keeps env (commits row) t kept can = finalise_commit-Keeps db t kept env row can
  perform-Keeps env (dispatched row) t kept can = mark_dispatched-Keeps db t kept env row
  perform-Keeps env (rejects reason row) t kept can =
      finalise_rejected-Keeps db t kept env row can reason
  perform-Keeps env (fails reason row) t kept can =
      finalise_failed-Keeps db t kept env row can reason

  -- On tables with one row for each account and each payment, whose payments name accounts that are
  -- there, whatever messages of partners, requests of clients and finalisers run, in any order and
  -- whichever statements and commits fail, as long as a new payment has a new id and a finaliser's
  -- row is an outbound one of the table: the total on the books of the accounts changes by exactly
  -- the committed inbound payments less the committed outbound ones, what is on the books and cannot
  -- be spent changes by exactly the pending outbound payments, and the tables stay so.
  pub perform_all-Keeps :
      (ops : List (Env × Operation)) (t : Tables)
      → IsKept t
      → CanRunAll ops t
      → Keeps t (perform_all ops t)
  unfolding perform_all
  perform_all-Keeps [] t kept can = Keeps-refl t kept
  perform_all-Keeps ((env, op) ∷ rest) t kept (can, more) =
      let b = perform-Keeps env op t kept can in
      Keeps-trans t (perform env op t) (perform_all rest (perform env op t)) b
        (perform_all-Keeps rest (perform env op t) b.0 more)
