-- ===== src/InterbankPayment/Refinement.antt =====
-- A bank's handling of its payments refines the payment protocol (exchange-service/internal/interbank/
-- payment_tx_processor.go, internal/handler/interbank_payment_http_handler.go, internal/service/
-- interbank_reconcile.go).
use exbanka_3_backend.Prelude.{
  ℕ, ◌≡◌, refl, ap, ◌∙◌, Bool, true, false, Option, none, some, List, [], ◌∷◌, Bool-cases,
  Option-cases, inl, inr,
}
use exbanka_3_backend.Prelude.Int.{ℤ}
use exbanka_3_backend.Prelude.Db.{Transactions, transaction-cases}
use exbanka_3_backend.Prelude.Except.{Except-cases}
use exbanka_3_backend.Interbank.Messages.{ForeignBankId, Transaction}
use exbanka_3_backend.InterbankPayment.Models.{
  PaymentStatus, pending, committed, rolled_back, rejected, failed, unknown_status,
  InterbankPayment, Tables, Stmt, Error, Env, is_inbound, key_of, get_by_tx_id,
  mark_partner_finalised, inbound,
}
use exbanka_3_backend.InterbankPayment.Wallet.{lock_by_number}
use exbanka_3_backend.InterbankPayment.Receiver.{
  record_body, commit_body, rollback_body, new_tx_checks, on_new_tx, commit_status, credit_at,
  on_commit_tx, rollback_status, on_rollback_tx,
}
use exbanka_3_backend.InterbankPayment.Sender.{
  Request, outbound_row, at_account, prepare_body, prepare, finalise_commit_body,
  finalise_rejected_body, finalise_failed_body, finalise_commit, finalise_rejected, finalise_failed,
  mark_dispatched,
}
use exbanka_3_backend.InterbankPayment.Ledger.{tolerant-tables, is_inbound-eq, row_of-tables}
use exbanka_3_backend.InterbankPayment.Finalised.{mark_partner_finalised-none}
use exbanka_3_backend.InterbankPayment.Sequences.{
  Operation, new_tx, commit_tx, rollback_tx, prepares, commits, dispatched, rejects, fails, CanRun,
  CanRunAll, perform, perform_all,
}
use exbanka_3_backend.InterbankPayment.Protocol.{run_protocol}
use exbanka_3_backend.InterbankPayment.Views.{view, view-stamped}
use exbanka_3_backend.InterbankPayment.Follows.{
  Follows, Follows-refl, record_body-Follows, commit_body-Follows, rollback_body-Follows,
  prepare_body-begins, finalise_commit_body-Follows, finalise_rejected_body-Follows,
  finalise_failed_body-Follows,
}

module _ (db : Transactions Tables Error) (t : Tables) where
  transaction-Follows :
      (op : Operation) (body : Tables → Option Error × Tables)
      → ((body t).0 ≡ none → Follows op t (body t).1)
      → Follows op t (db.transaction body t).1
  transaction-Follows op body fine = elim (transaction-cases db body t) [
    | inl (k, done) ↦ rw (ap (λ r. r.1) done) (fine k)
    | inr (e, lost) ↦ rw (ap (λ r. r.1) lost) (Follows-refl op t)
  ]

  finalised-Follows :
      (op : Operation) (body : ℕ → Tables → Option Error × Tables)
      → ((k : ℕ) → (body k t).0 ≡ none → Follows op t (body k t).1)
      → (o : Option ℕ) → Follows op t (at_account o (λ k. db.transaction (body k)) t).1
  finalised-Follows op body fine none = Follows-refl op t
  finalised-Follows op body fine (some k) = transaction-Follows op (body k) (fine k)

  module _ (env : Env) (key : ForeignBankId) (p : InterbankPayment)
      (found : get_by_tx_id key t.payments ≡ some p) (inward : p.direction ≡ inbound) where
    credit_at-Follows : (o : Option ℕ) → Follows (commit_tx key) t (credit_at db env key p o t).1
    credit_at-Follows none = Follows-refl (commit_tx key) t
    credit_at-Follows (some k) = rw (tolerant-tables (db.transaction (commit_body env key k p) t)) (
        transaction-Follows (commit_tx key) (commit_body env key k p)
          (commit_body-Follows env t key p found inward k p))

    commit_status-Follows :
        (s : PaymentStatus) → Follows (commit_tx key) t (commit_status db env key p s t).1
    commit_status-Follows committed = Follows-refl (commit_tx key) t
    commit_status-Follows rolled_back = Follows-refl (commit_tx key) t
    commit_status-Follows rejected = Follows-refl (commit_tx key) t
    commit_status-Follows failed = Follows-refl (commit_tx key) t
    commit_status-Follows (unknown_status s) = Follows-refl (commit_tx key) t
    commit_status-Follows pending = credit_at-Follows p.local_account_id

    rollback_status-Follows :
        (s : PaymentStatus) → Follows (rollback_tx key) t (rollback_status db env key s t).1
    rollback_status-Follows committed = Follows-refl (rollback_tx key) t
    rollback_status-Follows rolled_back = Follows-refl (rollback_tx key) t
    rollback_status-Follows rejected = Follows-refl (rollback_tx key) t
    rollback_status-Follows failed = Follows-refl (rollback_tx key) t
    rollback_status-Follows (unknown_status s) = Follows-refl (rollback_tx key) t
    rollback_status-Follows pending =
        rw (tolerant-tables (db.transaction (rollback_body env key) t)) (
          transaction-Follows (rollback_tx key) (rollback_body env key)
            (rollback_body-Follows env t key p found inward))

  on_commit_tx-Follows :
      (env : Env) (key : ForeignBankId) → Follows (commit_tx key) t (on_commit_tx db env key t).1
  unfolding on_commit_tx
  on_commit_tx-Follows env key = elim (Bool-cases (env.fails Stmt.load_payment)) [
    | inl broken ↦ rw broken (Follows-refl (commit_tx key) t)
    | inr fine ↦ elim (Option-cases (get_by_tx_id key t.payments)) [
      | inl missing ↦ rw (fine, missing) (Follows-refl (commit_tx key) t)
      | inr (p, found) ↦ elim (Bool-cases (is_inbound p.direction)) [
        | inr outward ↦ rw (fine, found, outward) (Follows-refl (commit_tx key) t)
        | inl inward ↦
            rw (fine, found, inward)
              (commit_status-Follows env key p found (is_inbound-eq p.direction inward) p.status)
      ]
    ]
  ]

  on_rollback_tx-Follows :
      (env : Env) (key : ForeignBankId)
      → Follows (rollback_tx key) t (on_rollback_tx db env key t).1
  unfolding on_rollback_tx
  on_rollback_tx-Follows env key = elim (Bool-cases (env.fails Stmt.load_payment)) [
    | inl broken ↦ rw broken (Follows-refl (rollback_tx key) t)
    | inr fine ↦ elim (Option-cases (get_by_tx_id key t.payments)) [
      | inl missing ↦ rw (fine, missing) (Follows-refl (rollback_tx key) t)
      | inr (p, found) ↦ elim (Bool-cases (is_inbound p.direction)) [
        | inr outward ↦ rw (fine, found, outward) (Follows-refl (rollback_tx key) t)
        | inl inward ↦
            rw (fine, found, inward)
              (rollback_status-Follows env key p found (is_inbound-eq p.direction inward) p.status)
      ]
    ]
  ]

  on_new_tx-Follows :
      (own_routing : ℕ) (env : Env) (partner : ℕ) (tx : Transaction)
      → Follows (new_tx partner tx) t (on_new_tx own_routing db env partner tx t).1
  unfolding on_new_tx
  on_new_tx-Follows own_routing env partner tx =
      let stay = Follows-refl (new_tx partner tx) t in
      elim (Except-cases (new_tx_checks own_routing partner tx)) [
        | inr (r, e) ↦ rw e stay
        | inl (parsed, e) ↦ elim (Bool-cases (env.fails Stmt.load_payment)) [
          | inl broken ↦ rw (e, broken) stay
          | inr fine ↦ elim (Option-cases (get_by_tx_id tx.transaction_id t.payments)) [
            | inr (p, seen) ↦ rw (e, fine, seen) stay
            | inl fresh ↦
                rw (e, fine, fresh)
                  (transaction-Follows (new_tx partner tx) (record_body env partner tx parsed)
                    (record_body-Follows env t partner tx parsed fresh))
          ]
        ]
      ]

  prepare-Follows :
      (env : Env) (key : ForeignBankId) (partner : ℤ) (q : Request)
      → get_by_tx_id key t.payments ≡ none
      → Follows (prepares key partner q) t (prepare db env key partner q t).1
  unfolding prepare
  prepare-Follows env key partner q fresh =
      rw
        (row_of-tables (outbound_row key partner q)
          (lock_by_number env q.sender_account_number q.currency t)
          (db.transaction (prepare_body env key partner q) t))
        (transaction-Follows (prepares key partner q) (prepare_body env key partner q)
          (λ h. inr (prepare_body-begins env t key partner q fresh h)))

  mark_dispatched-Follows :
      (env : Env) (row : InterbankPayment)
      → Follows (dispatched row) t (mark_dispatched db env row t).1
  unfolding mark_dispatched
  mark_dispatched-Follows env row =
      transaction-Follows (dispatched row) (mark_partner_finalised env (key_of row)) (λ h.
        inl (λ key.
          ap (λ r. view key r.1.payments) (mark_partner_finalised-none env (key_of row) t h)
          ∙ view-stamped (key_of row) key t.payments))

  pub perform-Follows :
      (own_routing : ℕ) (env : Env) (op : Operation)
      → CanRun op t
      → Follows op t (perform own_routing db env op t)
  unfolding finalise_commit finalise_rejected finalise_failed
  perform-Follows own_routing env (new_tx partner tx) can =
      on_new_tx-Follows own_routing env partner tx
  perform-Follows own_routing env (commit_tx key) can = on_commit_tx-Follows env key
  perform-Follows own_routing env (rollback_tx key) can = on_rollback_tx-Follows env key
  perform-Follows own_routing env (prepares key partner q) can =
      prepare-Follows env key partner q can
  perform-Follows own_routing env (commits row) can =
      finalised-Follows (commits row) (finalise_commit_body env row)
        (finalise_commit_body-Follows env t row) row.local_account_id
  perform-Follows own_routing env (dispatched row) can = mark_dispatched-Follows env row
  perform-Follows own_routing env (rejects reason row) can =
      finalised-Follows (rejects reason row) (finalise_rejected_body env reason row)
        (finalise_rejected_body-Follows env t reason row) row.local_account_id
  perform-Follows own_routing env (fails reason row) can =
      finalised-Follows (fails reason row) (finalise_failed_body env reason row)
        (finalise_failed_body-Follows env t reason row) row.local_account_id

-- The operations that a list of marks picks.
abbrev pub picked : List Bool → List (Env × Operation) → List Operation
picked [] ops = []
picked (b ∷ marks) [] = []
picked (true ∷ marks) ((env, op) ∷ ops) = op ∷ picked marks ops
picked (false ∷ marks) ((env, op) ∷ ops) = picked marks ops

-- Refinement: whatever messages of partners, requests of clients and finalisers run, in any order and
-- whichever statements and commits fail, as long as a new payment has a new id and a finaliser's row
-- is an outbound one of the table, there is a choice among these operations, in their order, that as
-- a run of the protocol takes every transaction from its state before to its state after.
pub perform_all-refines :
    (own_routing : ℕ) (db : Transactions Tables Error) (ops : List (Env × Operation)) (t : Tables)
    → CanRunAll own_routing db ops t
    → (marks : List Bool) × ((key : ForeignBankId)
        → view key (perform_all own_routing db ops t).payments
          ≡ run_protocol (picked marks ops) key (view key t.payments))
unfolding perform_all run_protocol
perform_all-refines own_routing db [] t can = ([], λ key. refl)
perform_all-refines own_routing db ((env, op) ∷ rest) t (can, more) =
    let t' = perform own_routing db env op t in
    let (marks, same) = perform_all-refines own_routing db rest t' more in
    elim (perform-Follows db t own_routing env op can) [
      | inl stay ↦
          (false ∷ marks, λ key. same key ∙ ap (run_protocol (picked marks rest) key) (stay key))
      | inr step ↦
          (true ∷ marks, λ key. same key ∙ ap (run_protocol (picked marks rest) key) (step key))
    ]
