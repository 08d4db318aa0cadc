-- ===== src/Interbank/Finality.antt =====
-- Resolved transactions (OnNewTx, OnCommitTx, OnRollbackTx of exchange-service/internal/interbank/
-- tx_processor.go) under any further messages.
use exbanka_3_backend.Prelude.{
  ℕ, ◌≡◌, ap, false, none, some, List, [], ◌∷◌, arith, Option-cases, Bool-cases, inl, inr,
}
use exbanka_3_backend.Prelude.Db.{Transactions, transaction-cases}
use exbanka_3_backend.Prelude.Except.{Except-cases}
use exbanka_3_backend.Interbank.Messages.{ForeignBankId, Posting, Transaction}
use exbanka_3_backend.Interbank.Models.{
  PendingTxStatus, pending, committed, rolled_back, unknown_status, InterbankPendingTx, Tables,
  Stmt, Error, is_pending, is_tx, get_by_tx_id, flip_pending, Env,
}
use exbanka_3_backend.Interbank.Acceptance.{TimeLayouts}
use exbanka_3_backend.Interbank.Processor.{
  refused, failed, pending_row, reservation, commit_body, rollback_body, new_tx_checks,
  reserve_and_record, on_new_tx, apply_commit, commit_row, on_commit_tx, apply_rollback,
  rollback_row, on_rollback_tx,
}
use exbanka_3_backend.Interbank.Totals.{is_tx-key, key_of}
use exbanka_3_backend.Interbank.Steps.{IsKeyed}
use exbanka_3_backend.Interbank.Bodies.{
  rollback_body-Applied, commit_body-Applied, reservation-Applied,
}
use exbanka_3_backend.Interbank.Backing.{tolerant-tables}
use exbanka_3_backend.Interbank.Sequences.{
  Message, new_tx, commit_tx, rollback_tx, handle, handle_all, handle-Backs,
}

-- The row of a transaction, no longer pending.
abbrev pub Resolved : ForeignBankId → InterbankPendingTx → Tables → Type 0
Resolved key r t = get_by_tx_id key t.pending_txs ≡ some r

flip-resolved :
    (key other : ForeignBankId) (new : PendingTxStatus) (rows : List InterbankPendingTx)
    (r : InterbankPendingTx)
    → is_pending r.status ≡ false
    → get_by_tx_id key rows ≡ some r
    → get_by_tx_id key (flip_pending other new rows) ≡ some r
unfolding get_by_tx_id flip_pending is_tx
flip-resolved key other new [] r over h = cc
flip-resolved key other new (x ∷ rows) r over h =
    ground (arith, flip-resolved key other new rows r over)

fresh_row :
    (key : ForeignBankId) (p r : InterbankPendingTx) (rows : List InterbankPendingTx)
    → get_by_tx_id (key_of p) rows ≡ none
    → get_by_tx_id key rows ≡ some r
    → get_by_tx_id key (p ∷ rows) ≡ some r
unfolding get_by_tx_id
fresh_row key p r rows fresh h = elim (Bool-cases (is_tx key p)) [
  | inl same ↦ absurd (let e = ap (λ k. get_by_tx_id k rows) (is_tx-key key p same) in cc)
  | inr other ↦ rw other h
]

module _ (db : Transactions Tables Error) (env : Env) (key : ForeignBankId) (r : InterbankPendingTx)
    (over : is_pending r.status ≡ false) (t : Tables) (keyed : IsKeyed t)
    (resolved : Resolved key r t) where
  commit_row-Resolved :
      (k : ForeignBankId) (p : InterbankPendingTx) (s : PendingTxStatus)
      → Resolved key r (commit_row db env k p s t).1
  unfolding apply_commit
  commit_row-Resolved k p committed = resolved
  commit_row-Resolved k p rolled_back = resolved
  commit_row-Resolved k p (unknown_status s) = resolved
  commit_row-Resolved k p pending =
      rw (tolerant-tables (db.transaction (commit_body env k p) t))
        (elim (transaction-cases db (commit_body env k p) t) [
          | inr (e, lost) ↦ rw lost resolved
          | inl (fine, done) ↦
              let c = commit_body-Applied env k p t keyed.0 fine in
              rw (done, c.result) (flip-resolved key k committed t.pending_txs r over resolved)
        ])

  rollback_row-Resolved :
      (k : ForeignBankId) (p : InterbankPendingTx) (s : PendingTxStatus)
      → Resolved key r (rollback_row db env k p s t).1
  unfolding apply_rollback
  rollback_row-Resolved k p committed = resolved
  rollback_row-Resolved k p rolled_back = resolved
  rollback_row-Resolved k p (unknown_status s) = resolved
  rollback_row-Resolved k p pending =
      rw (tolerant-tables (db.transaction (rollback_body env k p) t))
        (elim (transaction-cases db (rollback_body env k p) t) [
          | inr (e, lost) ↦ rw lost resolved
          | inl (fine, done) ↦
              let c = rollback_body-Applied env k p t keyed.0 fine in
              rw (done, c.result) (flip-resolved key k rolled_back t.pending_txs r over resolved)
        ])

  on_commit_tx-Resolved : (k : ForeignBankId) → Resolved key r (on_commit_tx db env k t).1
  unfolding on_commit_tx
  on_commit_tx-Resolved k = elim (Bool-cases (env.fails Stmt.load_pending)) [
    | inl broken ↦ rw broken resolved
    | inr fine ↦ elim (Option-cases (get_by_tx_id k t.pending_txs)) [
      | inl missing ↦ rw (fine, missing) resolved
      | inr (p, found) ↦ rw (fine, found) (commit_row-Resolved k p p.status)
    ]
  ]

  on_rollback_tx-Resolved : (k : ForeignBankId) → Resolved key r (on_rollback_tx db env k t).1
  unfolding on_rollback_tx
  on_rollback_tx-Resolved k = elim (Bool-cases (env.fails Stmt.load_pending)) [
    | inl broken ↦ rw broken resolved
    | inr fine ↦ elim (Option-cases (get_by_tx_id k t.pending_txs)) [
      | inl missing ↦ rw (fine, missing) resolved
      | inr (p, found) ↦ rw (fine, found) (rollback_row-Resolved k p p.status)
    ]
  ]

  module _ (time : TimeLayouts) (own_routing : ℕ) where
    recorded-Resolved :
        (at_buyer : Posting) (p : InterbankPendingTx)
        → get_by_tx_id (key_of p) t.pending_txs ≡ none
        → Resolved key r (reserve_and_record time own_routing db env at_buyer p t).1
    unfolding reserve_and_record
    recorded-Resolved at_buyer p fresh = elim (transaction-cases db (reservation env p) t) [
      | inr (e, lost) ↦ rw lost resolved
      | inl (fine, done) ↦
          let (a, written) = reservation-Applied env key p t keyed.0 fine in
          rw (done, written) (fresh_row key p r t.pending_txs fresh resolved)
    ]

    on_new_tx-Resolved :
        (partner : ℕ) (tx : Transaction)
        → Resolved key r (on_new_tx time own_routing db env partner tx t).1
    unfolding on_new_tx pending_row
    on_new_tx-Resolved partner tx =
        elim (Except-cases (new_tx_checks time own_routing env partner tx t)) [
          | inr (refused v, e) ↦ rw e resolved
          | inr (failed x, e) ↦ rw e resolved
          | inl ((a, n), e) ↦ elim (Bool-cases (env.fails Stmt.load_pending)) [
            | inl broken ↦ rw (e, broken) resolved
            | inr fine ↦ elim (Option-cases (get_by_tx_id tx.transaction_id t.pending_txs)) [
              | inr (p, seen) ↦ rw (e, fine, seen) resolved
              | inl fresh ↦
                  rw (e, fine, fresh)
                    (recorded-Resolved a.cash_leg_buyer.posting
                      (pending_row partner tx.transaction_id n) fresh)
            ]
          ]
        ]

    handle-Resolved : (m : Message) → Resolved key r (handle time own_routing db env m t)
    handle-Resolved (new_tx partner tx) = on_new_tx-Resolved partner tx
    handle-Resolved (commit_tx k) = on_commit_tx-Resolved k
    handle-Resolved (rollback_tx k) = on_rollback_tx-Resolved k

-- A transaction that is committed or rolled back stays so: on tables with one row for each account
-- and transaction, its row is found unchanged after any further messages, in any order and repeated,
-- whichever statements and commits fail.
pub handle_all-Resolved :
    (time : TimeLayouts) (own_routing : ℕ) (db : Transactions Tables Error)
    (messages : List (Env × Message)) (key : ForeignBankId) (r : InterbankPendingTx) (t : Tables)
    → IsKeyed t
    → is_pending r.status ≡ false
    → get_by_tx_id key t.pending_txs ≡ some r
    → get_by_tx_id key (handle_all time own_routing db messages t).pending_txs ≡ some r
unfolding handle_all
handle_all-Resolved time own_routing db [] key r t keyed over h = h
handle_all-Resolved time own_routing db ((env, m) ∷ rest) key r t keyed over h =
    handle_all-Resolved time own_routing db rest key r (handle time own_routing db env m t)
      (handle-Backs time own_routing db env m t keyed).0 over
      (handle-Resolved db env key r over t keyed h time own_routing m)
