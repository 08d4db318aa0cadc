-- ===== src/Interbank/Processor.antt =====
-- OtcTxProcessor (exchange-service/internal/interbank/tx_processor.go): the votes, commits and
-- rollbacks of the buyer's bank. A transaction's body runs on the tables that it finds, which other
-- handlers may have changed since the row in memory was read.
use exbanka_3_backend.Prelude.{
  ℕ, ◌==◌, Bool, true, false, not, Option, none, some, ◌∷◌, if◌then◌else◌,
}
use exbanka_3_backend.Prelude.Text.{codes}
use exbanka_3_backend.Prelude.Db.{Transactions, ◌>>>◌}
use exbanka_3_backend.Prelude.Except.{Except, ok, err, ◌>>=◌, ◌>>◌, fail_if, or_fail}
use exbanka_3_backend.Interbank.Messages.{
  ForeignBankId, Posting, Transaction, no_such_account, insufficient_asset, option_used_or_expired,
  option_negotiation_not_found, NoVoteReason, TransactionVote, voting_no, voting_yes, bare, about,
}
use exbanka_3_backend.Interbank.Models.{
  InterbankOtcNegotiation, PendingTxStatus, pending, committed, rolled_back, unknown_status,
  InterbankPendingTx, InterbankOptionContract, Tables, Stmt, Error, get_negotiation,
  close_negotiations, get_by_tx_id, flip_pending, has_pending, has_contract, Env,
}
use exbanka_3_backend.Interbank.Acceptance.{TimeLayouts, check_balanced, OtcAcceptance}
use exbanka_3_backend.Interbank.Terms.{parse_otc_acceptance, match_acceptance_terms}
use exbanka_3_backend.Interbank.Wallet.{reserve, debit, release}

-- Why a NEW_TX is not accepted: a vote NO, or an error.
pub data Stop : Type 0 where
  refused : NoVoteReason → Stop
  failed : Error → Stop

abbrev pub voting : {A : Type 0} → Except NoVoteReason A → Except Stop A
voting (ok a) = ok a
voting (err r) = err (refused r)

abbrev pub unless : Option NoVoteReason → Except Stop (Unit {0})
unless none = ok tt
unless (some r) = err (refused r)

unfoldable pub pending_row : ℕ → ForeignBankId → InterbankOtcNegotiation → InterbankPendingTx
pending_row partner key n = record {
  tx_routing_number = key.routing_number;
  tx_id = key.id;
  partner_routing_number = partner;
  negotiation_routing_number = n.negotiation_routing_number;
  negotiation_id = n.negotiation_id;
  reserved_from_local_id = n.buyer_id;
  reserved_currency = n.premium_currency;
  reserved_amount = n.premium_amount;
  stock_ticker = n.stock_ticker;
  option_amount = n.amount;
  price_per_unit_currency = n.price_per_unit_currency;
  price_per_unit_amount = n.price_per_unit_amount;
  settlement_date = n.settlement_date;
  buyer_routing_number = n.buyer_routing_number;
  buyer_id = n.buyer_id;
  seller_routing_number = n.seller_routing_number;
  seller_id = n.seller_id;
  status = pending;
}

unfoldable pub create_pending_row : Env → InterbankPendingTx → Tables → Option Error × Tables
create_pending_row env row t =
    if env.fails Stmt.create_pending
    then (some (Error.database Stmt.create_pending), t)
    else (none, record t { pending_txs = row ∷ t.pending_txs })

-- The body of the transaction of OnNewTx.
abbrev pub reservation : Env → InterbankPendingTx → Tables → Option Error × Tables
reservation env row =
    reserve env row.reserved_from_local_id row.reserved_currency row.reserved_amount
    >>> create_pending_row env row

abbrev pub is_insufficient : Option Error → Bool
is_insufficient (some Error.wallet_insufficient) = true
is_insufficient _ = false

abbrev pub vote_of_reservation : Bool → Posting → Option Error → Except Error TransactionVote
vote_of_reservation true p e = ok (voting_no (about insufficient_asset p))
vote_of_reservation false p none = ok voting_yes
vote_of_reservation false p (some e) = err e

-- The flip of the pending row: no row flipped means that another caller resolved it.
unfoldable pub mark_pending_tx :
    Env → ForeignBankId → PendingTxStatus → Tables → Option Error × Tables
mark_pending_tx env key new t =
    if env.fails Stmt.mark_pending
    then (some (Error.database Stmt.mark_pending), t)
    else if has_pending key t.pending_txs
    then (none, record t { pending_txs = flip_pending key new t.pending_txs })
    else (some Error.already_resolved, t)

unfoldable pub contract_row : InterbankPendingTx → InterbankOptionContract
contract_row p = record {
  negotiation_routing_number = p.negotiation_routing_number;
  negotiation_id = p.negotiation_id;
  buyer_local_id = p.buyer_id;
  seller_routing_number = p.seller_routing_number;
  seller_id = p.seller_id;
  stock_ticker = p.stock_ticker;
  amount = p.option_amount;
  price_per_unit_currency = p.price_per_unit_currency;
  price_per_unit_amount = p.price_per_unit_amount;
  premium_currency = p.reserved_currency;
  premium_amount = p.reserved_amount;
  settlement_date = p.settlement_date;
  status = codes "valid";
}

unfoldable pub ensure_contract : Env → InterbankPendingTx → Tables → Option Error × Tables
ensure_contract env p t =
    if env.fails Stmt.load_contract
    then (some (Error.database Stmt.load_contract), t)
    else if has_contract p.negotiation_routing_number p.negotiation_id t.contracts
    then (none, t)
    else if env.fails Stmt.create_contract
    then (some (Error.database Stmt.create_contract), t)
    else (none, record t { contracts = contract_row p ∷ t.contracts })

unfoldable pub close_negotiation_of : Env → InterbankPendingTx → Tables → Option Error × Tables
close_negotiation_of env p t =
    if env.fails Stmt.close_negotiation
    then (some (Error.database Stmt.close_negotiation), t)
    else (
      none,
      record t {
        negotiations =
            close_negotiations p.negotiation_routing_number p.negotiation_id t.negotiations;
      },
    )

-- The bodies of the transactions of OnCommitTx and OnRollbackTx, on the row `p` as it was read.
abbrev pub commit_body : Env → ForeignBankId → InterbankPendingTx → Tables → Option Error × Tables
commit_body env key p =
    mark_pending_tx env key committed
    >>> debit env p.reserved_from_local_id p.reserved_currency p.reserved_amount
    >>> ensure_contract env p
    >>> close_negotiation_of env p

abbrev pub rollback_body : Env → ForeignBankId → InterbankPendingTx → Tables → Option Error × Tables
rollback_body env key p =
    mark_pending_tx env key rolled_back
    >>> release env p.reserved_from_local_id p.reserved_currency p.reserved_amount

-- A transaction that finds the row resolved is a success that changed nothing.
abbrev pub tolerant : Option Error × Tables → Option Error × Tables
tolerant (some Error.already_resolved, t) = (none, t)
tolerant r = r

module _ (time : TimeLayouts) (own_routing : ℕ) where
  -- The checks of OnNewTx before it looks for a pending row.
  unfoldable pub new_tx_checks :
      Env → ℕ → Transaction → Tables → Except Stop (OtcAcceptance × InterbankOtcNegotiation)
  new_tx_checks env partner tx t = do
    unless (check_balanced tx)
    a ← voting (parse_otc_acceptance time tx)
    fail_if (env.fails Stmt.load_negotiation) (failed (Error.database Stmt.load_negotiation))
    let key = a.option_leg_seller.option.negotiation_id
    n ←
        or_fail (get_negotiation key.routing_number key.id t.negotiations)
          (refused (about option_negotiation_not_found a.option_leg_buyer.posting))
    fail_if (not (partner == n.seller_routing_number)) (refused (bare option_negotiation_not_found))
    fail_if (not (n.buyer_routing_number == own_routing))
        (refused (about no_such_account a.option_leg_buyer.posting))
    voting (match_acceptance_terms time a n)
    fail_if (not n.is_ongoing) (refused (about option_used_or_expired a.option_leg_buyer.posting))
    ok (a, n)

  module _ (db : Transactions Tables Error) where
    unfoldable pub reserve_and_record :
        Env → Posting → InterbankPendingTx → Tables → Except Error TransactionVote × Tables
    reserve_and_record env at_buyer row t =
        let done = db.transaction (reservation env row) t in
        let insufficient = is_insufficient (reservation env row t).0 in
        (vote_of_reservation insufficient at_buyer done.0, done.1)

    abbrev pub answer_unseen :
        Env
        → ℕ
        → ForeignBankId
        → OtcAcceptance
        → InterbankOtcNegotiation
        → Tables
        → Option InterbankPendingTx
        → Except Error TransactionVote × Tables
    answer_unseen env partner key a n t (some existing) = (ok voting_yes, t)
    answer_unseen env partner key a n t none =
        reserve_and_record env a.cash_leg_buyer.posting (pending_row partner key n) t

    abbrev pub answer_new_tx :
        Env
        → ℕ
        → ForeignBankId
        → Tables
        → Except Stop (OtcAcceptance × InterbankOtcNegotiation)
        → Except Error TransactionVote × Tables
    answer_new_tx env partner key t (err (refused r)) = (ok (voting_no r), t)
    answer_new_tx env partner key t (err (failed e)) = (err e, t)
    answer_new_tx env partner key t (ok (a, n)) =
        if env.fails Stmt.load_pending
        then (err (Error.database Stmt.load_pending), t)
        else answer_unseen env partner key a n t (get_by_tx_id key t.pending_txs)

    -- `OnNewTx`.
    unfoldable pub on_new_tx :
        Env → ℕ → Transaction → Tables → Except Error TransactionVote × Tables
    on_new_tx env partner tx t =
        answer_new_tx env partner tx.transaction_id t (new_tx_checks env partner tx t)

module _ (db : Transactions Tables Error) where
  unfoldable pub apply_commit :
      Env → ForeignBankId → InterbankPendingTx → Tables → Option Error × Tables
  apply_commit env key p t = tolerant (db.transaction (commit_body env key p) t)

  abbrev pub commit_row :
      Env → ForeignBankId → InterbankPendingTx → PendingTxStatus → Tables → Option Error × Tables
  commit_row env key p committed t = (none, t)
  commit_row env key p rolled_back t = (some Error.commit_rolled_back, t)
  commit_row env key p pending t = apply_commit env key p t
  commit_row env key p (unknown_status s) t = (some Error.bad_status, t)

  abbrev pub commit_found :
      Env → ForeignBankId → Option InterbankPendingTx → Tables → Option Error × Tables
  commit_found env key none t = (some Error.commit_unknown, t)
  commit_found env key (some p) t = commit_row env key p p.status t

  -- `OnCommitTx`.
  unfoldable pub on_commit_tx : Env → ForeignBankId → Tables → Option Error × Tables
  on_commit_tx env key t =
      if env.fails Stmt.load_pending
      then (some (Error.database Stmt.load_pending), t)
      else commit_found env key (get_by_tx_id key t.pending_txs) t

  unfoldable pub apply_rollback :
      Env → ForeignBankId → InterbankPendingTx → Tables → Option Error × Tables
  apply_rollback env key p t = tolerant (db.transaction (rollback_body env key p) t)

  abbrev pub rollback_row :
      Env → ForeignBankId → InterbankPendingTx → PendingTxStatus → Tables → Option Error × Tables
  rollback_row env key p rolled_back t = (none, t)
  rollback_row env key p committed t = (some Error.rollback_committed, t)
  rollback_row env key p pending t = apply_rollback env key p t
  rollback_row env key p (unknown_status s) t = (some Error.bad_status, t)

  abbrev pub rollback_found :
      Env → ForeignBankId → Option InterbankPendingTx → Tables → Option Error × Tables
  rollback_found env key none t = (none, t)
  rollback_found env key (some p) t = rollback_row env key p p.status t

  -- `OnRollbackTx`.
  unfoldable pub on_rollback_tx : Env → ForeignBankId → Tables → Option Error × Tables
  on_rollback_tx env key t =
      if env.fails Stmt.load_pending
      then (some (Error.database Stmt.load_pending), t)
      else rollback_found env key (get_by_tx_id key t.pending_txs) t
