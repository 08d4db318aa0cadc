-- ===== src/Interbank/Sequences.antt =====
-- The messages of a partner bank (OnNewTx, OnCommitTx, OnRollbackTx of exchange-service/internal/
-- interbank/tx_processor.go) in any sequence, and the money that they block at the buyer's bank.
use exbanka_3_backend.Prelude.{
  ℕ, ◌≡◌, refl, ap, true, none, List, [], ◌∷◌, Option-cases, Bool-cases, inl, inr,
}
use exbanka_3_backend.Prelude.Db.{Transactions}
use exbanka_3_backend.Prelude.Except.{Except-cases}
use exbanka_3_backend.Interbank.Messages.{ForeignBankId, Posting, Transaction}
use exbanka_3_backend.Interbank.Models.{
  InterbankPendingTx, Tables, Stmt, Error, is_pending, get_by_tx_id, Env,
}
use exbanka_3_backend.Interbank.Acceptance.{TimeLayouts}
use exbanka_3_backend.Interbank.Processor.{
  refused, failed, pending_row, reservation, new_tx_checks, reserve_and_record, on_new_tx,
  on_commit_tx, on_rollback_tx,
}
use exbanka_3_backend.Interbank.Totals.{key_of}
use exbanka_3_backend.Interbank.Steps.{IsKeyed, Backs, Backs-refl, Backs-trans}
use exbanka_3_backend.Interbank.Bodies.{reservation-Applied}
use exbanka_3_backend.Interbank.Backing.{
  reserved-Backs, transaction-Backs, on_commit_tx-Backs, on_rollback_tx-Backs,
}

-- A message that has passed the idempotence cache.
pub data Message : Type 0 where
  new_tx : ℕ → Transaction → Message
  commit_tx rollback_tx : ForeignBankId → Message

module _ (time : TimeLayouts) (own_routing : ℕ) (db : Transactions Tables Error) where
  abbrev pub handle : Env → Message → Tables → Tables
  handle env (new_tx partner tx) t = (on_new_tx time own_routing db env partner tx t).1
  handle env (commit_tx key) t = (on_commit_tx db env key t).1
  handle env (rollback_tx key) t = (on_rollback_tx db env key t).1

  unfoldable pub handle_all : List (Env × Message) → Tables → Tables
  handle_all [] t = t
  handle_all ((env, m) ∷ rest) t = handle_all rest (handle env m t)

  reserve_and_record-Backs :
      (env : Env) (at_buyer : Posting) (p : InterbankPendingTx) (t : Tables)
      → IsKeyed t
      → get_by_tx_id (key_of p) t.pending_txs ≡ none
      → is_pending p.status ≡ true
      → Backs t (reserve_and_record time own_routing db env at_buyer p t).1
  unfolding reserve_and_record
  reserve_and_record-Backs env at_buyer p t keyed fresh pend =
      transaction-Backs db env (key_of p) t keyed (reservation env p) (λ h.
        let (r, e) = reservation-Applied env (key_of p) p t keyed.0 h in
        rw (ap (λ s. s.1) e) (reserved-Backs t p r.k r.account keyed fresh pend r.found r.covered))

  pub on_new_tx-Backs :
      (env : Env) (partner : ℕ) (tx : Transaction) (t : Tables)
      → IsKeyed t
      → Backs t (on_new_tx time own_routing db env partner tx t).1
  unfolding on_new_tx pending_row
  on_new_tx-Backs env partner tx t keyed =
      elim (Except-cases (new_tx_checks time own_routing env partner tx t)) [
        | inr (refused r, e) ↦ rw e (Backs-refl t keyed)
        | inr (failed x, e) ↦ rw e (Backs-refl t keyed)
        | inl ((a, n), e) ↦ rw e (elim (Bool-cases (env.fails Stmt.load_pending)) [
          | inl broken ↦ rw broken (Backs-refl t keyed)
          | inr fine ↦ rw fine (elim (Option-cases (get_by_tx_id tx.transaction_id t.pending_txs)) [
            | inr (p, found) ↦ rw found (Backs-refl t keyed)
            | inl fresh ↦ rw fresh (
                reserve_and_record-Backs env a.cash_leg_buyer.posting
                  (pending_row partner tx.transaction_id n) t keyed fresh refl)
          ])
        ])
      ]

  pub handle-Backs : (env : Env) (m : Message) (t : Tables) → IsKeyed t → Backs t (handle env m t)
  handle-Backs env (new_tx partner tx) t keyed = on_new_tx-Backs env partner tx t keyed
  handle-Backs env (commit_tx key) t keyed = on_commit_tx-Backs db env key t keyed
  handle-Backs env (rollback_tx key) t keyed = on_rollback_tx-Backs db env key t keyed

  -- On tables with one row for each account id and for each transaction id, whatever NEW_TX,
  -- COMMIT_TX and ROLLBACK_TX messages come, in any order and repeated, and whichever statements and
  -- commits fail: the ids stay unique, and what the accounts hold on the books but cannot spend, in
  -- total, changes by exactly as much as what the pending rows have reserved.
  pub handle_all-Backs :
      (messages : List (Env × Message)) (t : Tables) → IsKeyed t → Backs t (handle_all messages t)
  unfolding handle_all
  handle_all-Backs [] t keyed = Backs-refl t keyed
  handle_all-Backs ((env, m) ∷ rest) t keyed =
      let b = handle-Backs env m t keyed in
      Backs-trans t (handle env m t) (handle_all rest (handle env m t)) b
        (handle_all-Backs rest (handle env m t) b.0)
