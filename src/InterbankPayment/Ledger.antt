-- ===== src/InterbankPayment/Ledger.antt =====
-- Every operation on a bank's payments, local or asked for by a partner, in any sequence
-- (exchange-service/internal/interbank/payment_tx_processor.go, internal/handler/
-- interbank_payment_http_handler.go, internal/service/interbank_reconcile.go).
use exbanka_3_backend.Prelude.{
  ℕ, ℕ, ◌≡◌, refl, ap, ◌∙◌, true, Option, none, some, Bool-cases, Option-cases, inl, inr,
}
use exbanka_3_backend.Prelude.Int.{ℤ}
use exbanka_3_backend.Prelude.Text.{Text}
use exbanka_3_backend.Prelude.Db.{Transactions, transaction-cases}
use exbanka_3_backend.Prelude.Except.{Except, ok, err, Except-cases}
use exbanka_3_backend.Payment.{Account}
use exbanka_3_backend.Interbank.Messages.{ForeignBankId, Transaction}
use exbanka_3_backend.InterbankPayment.Models.{
  PaymentDirection, inbound, outbound, unknown_direction, pending, committed, rolled_back, rejected,
  failed, unknown_status, PaymentStatus, InterbankPayment, Tables, Stmt, Error, Env, is_inbound,
  key_of, get_by_tx_id, mark_partner_finalised,
}
use exbanka_3_backend.InterbankPayment.Wallet.{lock_by_number}
use exbanka_3_backend.InterbankPayment.Receiver.{
  record_body, commit_body, rollback_body, tolerant, new_tx_checks, on_new_tx, credit_at,
  commit_status, on_commit_tx, rollback_status, on_rollback_tx,
}
use exbanka_3_backend.InterbankPayment.Sender.{
  at_account, row_of, Request, outbound_row, prepare_body, prepare, finalise_commit_body,
  finalise_rejected_body, finalise_failed_body, finalise_commit, finalise_rejected, finalise_failed,
  mark_dispatched,
}
use exbanka_3_backend.InterbankPayment.Keeps.{IsKept, Keeps, Keeps-refl}
use exbanka_3_backend.InterbankPayment.Created.{stamped-Keeps}
use exbanka_3_backend.InterbankPayment.Operations.{Snapshot, commit_body-Keeps, rollback_body-Keeps}
use exbanka_3_backend.InterbankPayment.Recorded.{record_body-Keeps, prepare_body-Keeps}
use exbanka_3_backend.InterbankPayment.Finalised.{
  mark_partner_finalised-none, finalise_commit_body-Keeps, finalise_rejected_body-Keeps,
  finalise_failed_body-Keeps,
}

pub is_inbound-eq : (d : PaymentDirection) → is_inbound d ≡ true → d ≡ inbound
is_inbound-eq inbound h = refl
is_inbound-eq outbound h = cc
is_inbound-eq (unknown_direction s) h = cc

pub tolerant-tables : (r : Option Error × Tables) → (tolerant r).1 ≡ r.1
tolerant-tables (none, s) = refl
tolerant-tables (some (Error.database x), s) = refl
tolerant-tables (some Error.no_such_account, s) = refl
tolerant-tables (some Error.account_inactive, s) = refl
tolerant-tables (some Error.currency_mismatch, s) = refl
tolerant-tables (some Error.insufficient_funds, s) = refl
tolerant-tables (some (Error.vote_no r), s) = refl
tolerant-tables (some Error.already_resolved, s) = refl
tolerant-tables (some Error.commit_unknown, s) = refl
tolerant-tables (some Error.not_inbound, s) = refl
tolerant-tables (some Error.commit_resolved, s) = refl
tolerant-tables (some Error.rollback_committed, s) = refl
tolerant-tables (some Error.bad_status, s) = refl
tolerant-tables (some Error.missing_local_account, s) = refl
tolerant-tables (some (Error.refusal r), s) = refl
tolerant-tables (some (Error.connection n), s) = refl

pub row_of-tables :
    (row : ℕ → InterbankPayment) (lock : Except Error Account) (r : Option Error × Tables)
    → (row_of row lock r).1 ≡ r.1
row_of-tables row lock (some e, s) = refl
row_of-tables row (err e) (none, s) = refl
row_of-tables row (ok a) (none, s) = refl

module _ (db : Transactions Tables Error) (t : Tables) (kept : IsKept t) where
  transaction-Keeps :
      (body : Tables → Option Error × Tables)
      → ((body t).0 ≡ none → Keeps t (body t).1)
      → Keeps t (db.transaction body t).1
  transaction-Keeps body fine = elim (transaction-cases db body t) [
    | inl (k, done) ↦ rw (ap (λ r. r.1) done) (fine k)
    | inr (e, lost) ↦ rw (ap (λ r. r.1) lost) (Keeps-refl t kept)
  ]

  module _ (env : Env) (key : ForeignBankId) (p : InterbankPayment)
      (found : get_by_tx_id key t.payments ≡ some p) (inward : p.direction ≡ inbound) where
    credit_at-Keeps :
        (o : Option ℕ) → p.local_account_id ≡ o → Keeps t (credit_at db env key p o t).1
    credit_at-Keeps none at = Keeps-refl t kept
    credit_at-Keeps (some k) at =
        let now : Snapshot key inbound p.amount (some k) t = record {
          row = p;
          found = found;
          same_direction = inward;
          same_amount = refl;
          same_account = at;
        } in
        rw (tolerant-tables (db.transaction (commit_body env key k p) t)) (
          transaction-Keeps (commit_body env key k p)
            (commit_body-Keeps env key inbound p.amount k t kept now p refl refl))

    commit_status-Keeps : (s : PaymentStatus) → Keeps t (commit_status db env key p s t).1
    commit_status-Keeps committed = Keeps-refl t kept
    commit_status-Keeps rolled_back = Keeps-refl t kept
    commit_status-Keeps rejected = Keeps-refl t kept
    commit_status-Keeps failed = Keeps-refl t kept
    commit_status-Keeps (unknown_status s) = Keeps-refl t kept
    commit_status-Keeps pending = credit_at-Keeps p.local_account_id refl

    rollback_status-Keeps : (s : PaymentStatus) → Keeps t (rollback_status db env key s t).1
    rollback_status-Keeps committed = Keeps-refl t kept
    rollback_status-Keeps rolled_back = Keeps-refl t kept
    rollback_status-Keeps rejected = Keeps-refl t kept
    rollback_status-Keeps failed = Keeps-refl t kept
    rollback_status-Keeps (unknown_status s) = Keeps-refl t kept
    rollback_status-Keeps pending =
        rw (tolerant-tables (db.transaction (rollback_body env key) t)) (
          transaction-Keeps (rollback_body env key)
            (rollback_body-Keeps env key p t kept found inward))

  pub on_commit_tx-Keeps : (env : Env) (key : ForeignBankId) → Keeps t (on_commit_tx db env key t).1
  unfolding on_commit_tx
  on_commit_tx-Keeps env key = elim (Bool-cases (env.fails Stmt.load_payment)) [
    | inl broken ↦ rw broken (Keeps-refl t kept)
    | inr fine ↦ elim (Option-cases (get_by_tx_id key t.payments)) [
      | inl missing ↦ rw (fine, missing) (Keeps-refl t kept)
      | inr (p, found) ↦ elim (Bool-cases (is_inbound p.direction)) [
        | inr outward ↦ rw (fine, found, outward) (Keeps-refl t kept)
        | inl inward ↦
            rw (fine, found, inward)
              (commit_status-Keeps env key p found (is_inbound-eq p.direction inward) p.status)
      ]
    ]
  ]

  pub on_rollback_tx-Keeps :
      (env : Env) (key : ForeignBankId) → Keeps t (on_rollback_tx db env key t).1
  unfolding on_rollback_tx
  on_rollback_tx-Keeps env key = elim (Bool-cases (env.fails Stmt.load_payment)) [
    | inl broken ↦ rw broken (Keeps-refl t kept)
    | inr fine ↦ elim (Option-cases (get_by_tx_id key t.payments)) [
      | inl missing ↦ rw (fine, missing) (Keeps-refl t kept)
      | inr (p, found) ↦ elim (Bool-cases (is_inbound p.direction)) [
        | inr outward ↦ rw (fine, found, outward) (Keeps-refl t kept)
        | inl inward ↦
            rw (fine, found, inward)
              (rollback_status-Keeps env key p found (is_inbound-eq p.direction inward) p.status)
      ]
    ]
  ]

  pub on_new_tx-Keeps :
      (own_routing : ℕ) (env : Env) (partner : ℕ) (tx : Transaction)
      → Keeps t (on_new_tx own_routing db env partner tx t).1
  unfolding on_new_tx
  on_new_tx-Keeps own_routing env partner tx =
      elim (Except-cases (new_tx_checks own_routing partner tx)) [
        | inr (r, e) ↦ rw e (Keeps-refl t kept)
        | inl (parsed, e) ↦ elim (Bool-cases (env.fails Stmt.load_payment)) [
          | inl broken ↦ rw (e, broken) (Keeps-refl t kept)
          | inr fine ↦ elim (Option-cases (get_by_tx_id tx.transaction_id t.payments)) [
            | inr (p, seen) ↦ rw (e, fine, seen) (Keeps-refl t kept)
            | inl fresh ↦
                rw (e, fine, fresh)
                  (transaction-Keeps (record_body env partner tx parsed)
                    (record_body-Keeps env t kept partner tx parsed fresh))
          ]
        ]
      ]

  -- A row in memory that is the outbound one of the table.
  module _ (env : Env) (row : InterbankPayment)
      (now : Snapshot (key_of row) outbound row.amount row.local_account_id t) where
    finalised-Keeps :
        (body : ℕ → Tables → Option Error × Tables)
        → ((k : ℕ)
            → Snapshot (key_of row) outbound row.amount (some k) t
            → (body k t).0 ≡ none
            → Keeps t (body k t).1)
        → (o : Option ℕ) → row.local_account_id ≡ o
        → Keeps t (at_account o (λ k. db.transaction (body k)) t).1
    finalised-Keeps body fine none at = Keeps-refl t kept
    finalised-Keeps body fine (some k) at =
        let here : Snapshot (key_of row) outbound row.amount (some k) t = record {
          row = now.row;
          found = now.found;
          same_direction = now.same_direction;
          same_amount = now.same_amount;
          same_account = now.same_account ∙ at;
        } in
        transaction-Keeps (body k) (fine k here)

    pub finalise_commit-Keeps : Keeps t (finalise_commit db env row t).1
    unfolding finalise_commit
    finalise_commit-Keeps =
        finalised-Keeps (finalise_commit_body env row)
          (λ k here. finalise_commit_body-Keeps env row k t kept here) row.local_account_id refl

    pub finalise_rejected-Keeps :
        (reason : Text) → Keeps t (finalise_rejected db env reason row t).1
    unfolding finalise_rejected
    finalise_rejected-Keeps reason =
        finalised-Keeps (finalise_rejected_body env reason row)
          (λ k here. finalise_rejected_body-Keeps env row k t kept here reason) row.local_account_id
          refl

    pub finalise_failed-Keeps : (reason : Text) → Keeps t (finalise_failed db env reason row t).1
    unfolding finalise_failed
    finalise_failed-Keeps reason =
        finalised-Keeps (finalise_failed_body env reason row)
          (λ k here. finalise_failed_body-Keeps env row k t kept here reason) row.local_account_id
          refl

  pub prepare-Keeps :
      (env : Env) (key : ForeignBankId) (partner : ℤ) (q : Request)
      → get_by_tx_id key t.payments ≡ none
      → Keeps t (prepare db env key partner q t).1
  unfolding prepare
  prepare-Keeps env key partner q fresh =
      rw
        (row_of-tables (outbound_row key partner q)
          (lock_by_number env q.sender_account_number q.currency t)
          (db.transaction (prepare_body env key partner q) t))
        (transaction-Keeps (prepare_body env key partner q)
          (prepare_body-Keeps env t kept key partner q fresh))

  pub mark_dispatched-Keeps :
      (env : Env) (row : InterbankPayment) → Keeps t (mark_dispatched db env row t).1
  unfolding mark_dispatched
  mark_dispatched-Keeps env row = transaction-Keeps (mark_partner_finalised env (key_of row)) (λ h.
      rw (ap (λ r. r.1) (mark_partner_finalised-none env (key_of row) t h))
        (stamped-Keeps (key_of row) t kept))
