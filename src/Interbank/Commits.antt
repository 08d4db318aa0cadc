-- ===== src/Interbank/Commits.antt =====
-- That a vote YES can be kept (OnNewTx, then OnCommitTx of exchange-service/internal/interbank/
-- tx_processor.go): the commit finds the account again and does not fail by itself.
use exbanka_3_backend.Prelude.{ℕ, ◌≡◌, refl, ap, ◌∙◌, true, false, none, arith}
use exbanka_3_backend.Prelude.Db.{Transactions}
use exbanka_3_backend.Prelude.Except.{ok}
use exbanka_3_backend.Interbank.Messages.{ForeignBankId, Transaction, voting_yes}
use exbanka_3_backend.Interbank.Models.{
  committed, InterbankPendingTx, Tables, Stmt, Error, get_by_tx_id, has_pending, Env,
}
use exbanka_3_backend.Interbank.Acceptance.{TimeLayouts}
use exbanka_3_backend.Interbank.Wallet.{lock_client_account, debit}
use exbanka_3_backend.Interbank.Processor.{
  pending_row, mark_pending_tx, ensure_contract, close_negotiation_of, commit_body, tolerant,
  on_new_tx, on_commit_tx,
}
use exbanka_3_backend.Interbank.Steps.{IsKeyed}
use exbanka_3_backend.Interbank.Bodies.{flipped, committed_tables, commit_body-Applied}
use exbanka_3_backend.Interbank.Answers.{Accepted, pending_commit}
use exbanka_3_backend.Interbank.Ready.{IsFaultless, on_new_tx-Ready}
use exbanka_3_backend.Interbank.Agreement.{ok-eq}
use exbanka_3_backend.Prelude.{sym}

commit_body-goes_through :
    (env : Env) (key : ForeignBankId) (p : InterbankPendingTx) (t : Tables) (k : ℕ)
    → ((s : Stmt) → env.fails s ≡ false)
    → has_pending key t.pending_txs ≡ true
    → lock_client_account env p.reserved_from_local_id p.reserved_currency (flipped key committed t)
      ≡ ok k
    → (commit_body env key p t).0 ≡ none
unfolding mark_pending_tx debit ensure_contract close_negotiation_of
commit_body-goes_through env key p t k fine there locked = ground (
  arith,
  fine Stmt.mark_pending,
  fine Stmt.debit_funds,
  fine Stmt.load_contract,
  fine Stmt.create_contract,
  fine Stmt.close_negotiation,
  there,
  locked,
)

module _ (time : TimeLayouts) (own_routing : ℕ) (db : Transactions Tables Error) (env env' : Env)
    (partner : ℕ) (tx : Transaction) (t : Tables) where
  -- A first vote YES can be kept, on tables with one row for each account and transaction: a COMMIT_TX
  -- right after it, when no statement fails and the commit goes through, reports success, takes the
  -- premium of the negotiation from the balance of the account that the vote reserved it on, commits
  -- the row, has the contract there and closes the negotiation.
  pub on_new_tx-commit :
      IsFaultless db env'
      → IsKeyed t
      → get_by_tx_id tx.transaction_id t.pending_txs ≡ none
      → (on_new_tx time own_routing db env partner tx t).0 ≡ ok voting_yes
      → let t₁ = (on_new_tx time own_routing db env partner tx t).1 in
        (yes : Accepted time env own_routing partner tx t t₁) × (on_commit_tx db env'
            tx.transaction_id t₁
          ≡ (
            none,
            committed_tables tx.transaction_id
                (pending_row partner tx.transaction_id yes.negotiation)
                yes.reserved.k
                t₁,
          ))
  unfolding pending_row
  on_new_tx-commit (fine, commits) keyed fresh h =
      let key = tx.transaction_id in
      let t₁ = (on_new_tx time own_routing db env partner tx t).1 in
      let ready =
        on_new_tx-Ready time own_routing db env env' partner tx t (fine Stmt.lock_account) keyed
          fresh h in
      let r = ready.yes.reserved in
      let p = pending_row partner key ready.yes.negotiation in
      let through =
        commit_body-goes_through env' key p t₁ r.k fine ready.there (ready.locked committed) in
      let d = commit_body-Applied env' key p t₁ ready.keyed.0 through in
      let same_k : d.k ≡ r.k = ok-eq d.k r.k (sym d.locked ∙ ready.locked committed) in
      (
        ready.yes,
        pending_commit db env' key t₁ p (fine Stmt.load_pending) ready.found refl
            ∙ ap tolerant (commits (commit_body env' key p) t₁ through)
            ∙ ap (λ o. (none, o.1)) d.result
            ∙ ap (λ j. (none, committed_tables key p j t₁)) same_k,
      )
