-- ===== src/InterbankPayment/Receiver.antt =====
-- PaymentTxProcessor (exchange-service/internal/interbank/payment_tx_processor.go): the votes, commits
-- and rollbacks of the recipient's bank. A transaction's body runs on the tables that it finds, which
-- other handlers may have changed since the row in memory was read.
use exbanka_3_backend.Prelude.{ℕ, false, not, Option, none, some, [], if◌then◌else◌}
use exbanka_3_backend.Prelude.Int.{pos, eqb_ℤ}
use exbanka_3_backend.Prelude.Db.{Transactions}
use exbanka_3_backend.Prelude.Except.{Except, ok, err, ◌>>=◌, ◌>>◌, fail_if}
use exbanka_3_backend.Payment.{Account}
use exbanka_3_backend.Interbank.Messages.{
  ForeignBankId, Posting, Transaction, no_such_account, unacceptable_asset, NoVoteReason,
  TransactionVote, voting_no, voting_yes, about,
}
use exbanka_3_backend.Interbank.Acceptance.{check_balanced}
use exbanka_3_backend.InterbankPayment.Models.{
  inbound, PaymentStatus, pending, committed, rolled_back, rejected, failed, unknown_status,
  InterbankPayment, Tables, Stmt, Error, Env, is_inbound, get_by_tx_id, create_tx, as_committed,
  as_rolled_back, mark_cas,
}
use exbanka_3_backend.InterbankPayment.Wallet.{lock_by_number, credit}
use exbanka_3_backend.InterbankPayment.Shape.{PaymentTx, parse_payment_tx}

abbrev pub unless : Option NoVoteReason → Except NoVoteReason (Unit {0})
unless none = ok tt
unless (some r) = err r

-- The row of a first NEW_TX, on the account that was locked.
unfoldable pub inbound_row : ℕ → Transaction → PaymentTx → ℕ → InterbankPayment
inbound_row partner tx parsed account_id = record {
  tx_routing_number = tx.transaction_id.routing_number;
  tx_id = tx.transaction_id.id;
  direction = inbound;
  partner_routing_number = pos partner;
  sender_account_number = parsed.sender_account;
  recipient_account_number = parsed.recipient_account;
  currency = parsed.currency;
  amount = parsed.amount;
  local_account_id = some account_id;
  local_client_id = none;
  message = tx.message;
  payment_code = tx.payment_code;
  payment_purpose = tx.payment_purpose;
  status = pending;
  last_error = [];
  partner_finalised = false;
}

-- What the switch on the error of the lock makes of it.
abbrev pub vote_on_lock : Posting → Error → Error
vote_on_lock p Error.no_such_account = Error.vote_no (about no_such_account p)
vote_on_lock p Error.account_inactive = Error.vote_no (about unacceptable_asset p)
vote_on_lock p Error.currency_mismatch = Error.vote_no (about unacceptable_asset p)
vote_on_lock p e = e

abbrev pub record_locked :
    Env → ℕ → Transaction → PaymentTx → Tables → Except Error Account → Option Error × Tables
record_locked env partner tx parsed t (err e) = (some (vote_on_lock parsed.recipient_posting e), t)
record_locked env partner tx parsed t (ok a) = create_tx env (inbound_row partner tx parsed a.id) t

-- The body of the transaction of OnNewTx.
unfoldable pub record_body : Env → ℕ → Transaction → PaymentTx → Tables → Option Error × Tables
record_body env partner tx parsed t =
    record_locked env partner tx parsed t
      (lock_by_number env parsed.recipient_account parsed.currency t)

abbrev pub vote_of_record : Option Error → Except Error TransactionVote
vote_of_record none = ok voting_yes
vote_of_record (some (Error.vote_no r)) = ok (voting_no r)
vote_of_record (some e) = err e

-- A transaction that finds the row resolved is a success that changed nothing.
abbrev pub tolerant : Option Error × Tables → Option Error × Tables
tolerant (some Error.already_resolved, t) = (none, t)
tolerant r = r

abbrev pub stop_with : Option Error → Tables → Option Error × Tables
stop_with e t = (e, t)

-- The bodies of the transactions of OnCommitTx and OnRollbackTx.
unfoldable pub commit_body :
    Env → ForeignBankId → ℕ → InterbankPayment → Tables → Option Error × Tables
commit_body env key k p =
    mark_cas env key as_committed (some Error.already_resolved) (credit env k p.amount)

unfoldable pub rollback_body : Env → ForeignBankId → Tables → Option Error × Tables
rollback_body env key =
    mark_cas env key as_rolled_back (some Error.already_resolved) (stop_with none)

module _ (own_routing : ℕ) where
  -- The checks of OnNewTx before it looks for a row.
  unfoldable pub new_tx_checks : ℕ → Transaction → Except NoVoteReason PaymentTx
  new_tx_checks partner tx = do
    unless (check_balanced tx)
    parsed ← parse_payment_tx tx
    fail_if (not (eqb_ℤ parsed.recipient_routing (pos own_routing)))
        (about no_such_account parsed.recipient_posting)
    fail_if (not (eqb_ℤ parsed.sender_routing (pos partner)))
        (about no_such_account parsed.sender_posting)
    ok parsed

  module _ (db : Transactions Tables Error) where
    abbrev pub record_unseen :
        Env
        → ℕ
        → Transaction
        → PaymentTx
        → Tables
        → Option InterbankPayment
        → Except Error TransactionVote × Tables
    record_unseen env partner tx parsed t (some existing) = (ok voting_yes, t)
    record_unseen env partner tx parsed t none =
        let done = db.transaction (record_body env partner tx parsed) t in
        (vote_of_record done.0, done.1)

    abbrev pub answer_new_tx :
        Env
        → ℕ
        → Transaction
        → Tables
        → Except NoVoteReason PaymentTx
        → Except Error TransactionVote × Tables
    answer_new_tx env partner tx t (err r) = (ok (voting_no r), t)
    answer_new_tx env partner tx t (ok parsed) =
        if env.fails Stmt.load_payment
        then (err (Error.database Stmt.load_payment), t)
        else record_unseen env partner tx parsed t (get_by_tx_id tx.transaction_id t.payments)

    -- `OnNewTx`.
    unfoldable pub on_new_tx :
        Env → ℕ → Transaction → Tables → Except Error TransactionVote × Tables
    on_new_tx env partner tx t = answer_new_tx env partner tx t (new_tx_checks partner tx)

module _ (db : Transactions Tables Error) where
  abbrev pub credit_at :
      Env → ForeignBankId → InterbankPayment → Option ℕ → Tables → Option Error × Tables
  credit_at env key p none t = (some Error.missing_local_account, t)
  credit_at env key p (some k) t = tolerant (db.transaction (commit_body env key k p) t)

  abbrev pub commit_status :
      Env → ForeignBankId → InterbankPayment → PaymentStatus → Tables → Option Error × Tables
  commit_status env key p committed t = (none, t)
  commit_status env key p rolled_back t = (some Error.commit_resolved, t)
  commit_status env key p rejected t = (some Error.commit_resolved, t)
  commit_status env key p failed t = (some Error.commit_resolved, t)
  commit_status env key p pending t = credit_at env key p p.local_account_id t
  commit_status env key p (unknown_status s) t = (some Error.bad_status, t)

  abbrev pub commit_found :
      Env → ForeignBankId → Option InterbankPayment → Tables → Option Error × Tables
  commit_found env key none t = (some Error.commit_unknown, t)
  commit_found env key (some p) t =
      if is_inbound p.direction
      then commit_status env key p p.status t
      else (some Error.not_inbound, t)

  -- `OnCommitTx`.
  unfoldable pub on_commit_tx : Env → ForeignBankId → Tables → Option Error × Tables
  on_commit_tx env key t =
      if env.fails Stmt.load_payment
      then (some (Error.database Stmt.load_payment), t)
      else commit_found env key (get_by_tx_id key t.payments) t

  abbrev pub rollback_status : Env → ForeignBankId → PaymentStatus → Tables → Option Error × Tables
  rollback_status env key rolled_back t = (none, t)
  rollback_status env key committed t = (some Error.rollback_committed, t)
  rollback_status env key pending t = tolerant (db.transaction (rollback_body env key) t)
  rollback_status env key rejected t = (some Error.bad_status, t)
  rollback_status env key failed t = (some Error.bad_status, t)
  rollback_status env key (unknown_status s) t = (some Error.bad_status, t)

  abbrev pub rollback_found :
      Env → ForeignBankId → Option InterbankPayment → Tables → Option Error × Tables
  rollback_found env key none t = (none, t)
  rollback_found env key (some p) t =
      if is_inbound p.direction
      then rollback_status env key p.status t
      else (some Error.not_inbound, t)

  -- `OnRollbackTx`.
  unfoldable pub on_rollback_tx : Env → ForeignBankId → Tables → Option Error × Tables
  on_rollback_tx env key t =
      if env.fails Stmt.load_payment
      then (some (Error.database Stmt.load_payment), t)
      else rollback_found env key (get_by_tx_id key t.payments) t
