-- ===== src/Interbank/Restores.antt =====
-- A reservation that is rolled back (OnNewTx and OnRollbackTx of exchange-service/internal/interbank/
-- tx_processor.go, with Reserve and Release of internal/repository/interbank_wallet_repository.go).
use exbanka_3_backend.Prelude.{
  ℕ, ◌==◌, ◌≡◌, refl, sym, ap, ◌∙◌, true, false, none, some, List, [], ◌∷◌, arith, Bool-cases, inl,
  inr,
}
use exbanka_3_backend.Prelude.Int.{ℤ, ◌+ℤ◌, ◌-ℤ◌, leb_ℤ, int_laws}
use exbanka_3_backend.Prelude.Db.{Transactions}
use exbanka_3_backend.Prelude.Except.{ok}
use exbanka_3_backend.Payment.{Account, find_account, update_fields}
use exbanka_3_backend.Payment.Accounts.{UniqueIds, update-absent}
use exbanka_3_backend.Interbank.Messages.{ForeignBankId, Transaction, voting_yes}
use exbanka_3_backend.Interbank.Models.{
  rolled_back, InterbankPendingTx, Tables, Error, get_by_tx_id, Env,
}
use exbanka_3_backend.Interbank.Acceptance.{TimeLayouts}
use exbanka_3_backend.Interbank.Wallet.{lock_client_account, taken, refunded}
use exbanka_3_backend.Interbank.Processor.{pending_row, on_new_tx, on_rollback_tx}
use exbanka_3_backend.Interbank.Totals.{taken-id}
use exbanka_3_backend.Interbank.Steps.{IsKeyed}
use exbanka_3_backend.Interbank.Bodies.{flipped}
use exbanka_3_backend.Interbank.Ready.{IsFaultless, on_new_tx-Ready}
use exbanka_3_backend.Interbank.Models.{has_pending, Stmt}
use exbanka_3_backend.Interbank.Wallet.{release}
use exbanka_3_backend.Interbank.Agreement.{ok-eq}
use exbanka_3_backend.Interbank.Bodies.{rollback_body-Applied, rolled_back_tables}
use exbanka_3_backend.Interbank.Processor.{mark_pending_tx, rollback_body, tolerant}
use exbanka_3_backend.Interbank.Answers.{pending_rollback}

back_and_forth : (v x : ℤ) → v -ℤ x +ℤ x ≡ v
back_and_forth v x = grind int_laws

refunded-taken :
    (x : ℤ) (a : Account) → leb_ℤ x a.raspolozivo_stanje ≡ true → refunded x (taken x a) ≡ a
unfolding refunded taken
refunded-taken x a h =
    rw h (ap (λ v. record a { raspolozivo_stanje = v }) (back_and_forth a.raspolozivo_stanje x))

restored :
    (k : ℕ) (x : ℤ) (rows : List Account) (a : Account)
    → UniqueIds rows
    → find_account k rows ≡ some a
    → leb_ℤ x a.raspolozivo_stanje ≡ true
    → update_fields k (refunded x) (update_fields k (taken x) rows) ≡ rows
unfolding update_fields find_account taken
restored k x [] a u h covered = refl
restored k x (b ∷ rows) a (new, u) h covered = elim (Bool-cases (b.id == k)) [
  | inl here ↦
      let absent : find_account k rows ≡ none = ground arith in
      rw
        (
          here,
          taken-id x b,
          here,
          update-absent k (taken x) rows absent,
          update-absent k (refunded x) rows absent,
        )
        (ap (λ c. c ∷ rows) (refunded-taken x b (ground arith)))
  | inr later ↦ rw (later, later) (ap (λ cs. b ∷ cs) (restored k x rows a u (ground arith) covered))
]

rollback_body-goes_through :
    (env : Env) (key : ForeignBankId) (p : InterbankPendingTx) (t : Tables) (k : ℕ)
    → ((s : Stmt) → env.fails s ≡ false)
    → has_pending key t.pending_txs ≡ true
    → lock_client_account env p.reserved_from_local_id p.reserved_currency
        (flipped key rolled_back t)
      ≡ ok k
    → (rollback_body env key p t).0 ≡ none
unfolding mark_pending_tx release
rollback_body-goes_through env key p t k fine there locked =
    ground (arith, fine Stmt.mark_pending, fine Stmt.release_funds, there, locked)

module _ (time : TimeLayouts) (own_routing : ℕ) (db : Transactions Tables Error) (env env' : Env)
    (partner : ℕ) (tx : Transaction) (t : Tables) where
  -- A first vote YES that is rolled back, on tables with one row for each account and transaction,
  -- when no statement of the ROLLBACK_TX fails and its commit goes through: the ROLLBACK_TX reports
  -- success, the pending row is rolled back, every account is as it was before the NEW_TX, and nothing
  -- else has changed since the vote.
  pub on_new_tx-rollback :
      IsFaultless db env'
      → IsKeyed t
      → get_by_tx_id tx.transaction_id t.pending_txs ≡ none
      → (on_new_tx time own_routing db env partner tx t).0 ≡ ok voting_yes
      → let t₁ = (on_new_tx time own_routing db env partner tx t).1 in
        on_rollback_tx db env' tx.transaction_id t₁
        ≡ (none, record (flipped tx.transaction_id rolled_back t₁) { accounts = t.accounts })
  unfolding pending_row
  on_new_tx-rollback (fine, commits) keyed fresh h =
      let key = tx.transaction_id in
      let t₁ = (on_new_tx time own_routing db env partner tx t).1 in
      let ready =
        on_new_tx-Ready time own_routing db env env' partner tx t (fine Stmt.lock_account) keyed
          fresh h in
      let n = ready.yes.negotiation in
      let r = ready.yes.reserved in
      let p = pending_row partner key n in
      let through =
        rollback_body-goes_through env' key p t₁ r.k fine ready.there (ready.locked rolled_back) in
      let d = rollback_body-Applied env' key p t₁ ready.keyed.0 through in
      let same_k : d.k ≡ r.k = ok-eq d.k r.k (sym d.locked ∙ ready.locked rolled_back) in
      let accounts : (rolled_back_tables key p d.k t₁).accounts ≡ t.accounts =
        ap (λ j. update_fields j (refunded n.premium_amount) t₁.accounts) same_k
        ∙ ap (λ s. update_fields r.k (refunded n.premium_amount) s.accounts) ready.yes.written
        ∙ restored r.k n.premium_amount t.accounts r.account keyed.0 r.found r.covered in
      pending_rollback db env' key t₁ p (fine Stmt.load_pending) ready.found refl
      ∙ ap tolerant (commits (rollback_body env' key p) t₁ through)
      ∙ ap (λ o. (none, o.1)) d.result
      ∙ ap (λ rows. (none, record (flipped key rolled_back t₁) { accounts = rows })) accounts
