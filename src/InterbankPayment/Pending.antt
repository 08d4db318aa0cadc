-- ===== src/InterbankPayment/Pending.antt =====
-- What the sender's row is after `prepare` and after `finaliseCommit` (exchange-service/internal/
-- handler/interbank_payment_http_handler.go) went through.
use exbanka_3_backend.Prelude.{
  ℕ, ==_refl, ◌≡◌, refl, sym, ap, ◌∙◌, Bool, true, false, Option, none, some, arith, Bool-cases,
  Option-cases, inl, inr,
}
use exbanka_3_backend.Prelude.Int.{ℤ}
use exbanka_3_backend.Prelude.Text.{text_eq_refl}
use exbanka_3_backend.Prelude.Db.{Transactions, transaction-cases}
use exbanka_3_backend.Prelude.Except.{Except, ok, err}
use exbanka_3_backend.Payment.{Account}
use exbanka_3_backend.Interbank.Messages.{ForeignBankId, same_foreign_bank_id}
use exbanka_3_backend.InterbankPayment.Models.{
  PaymentDirection, PaymentStatus, outbound, pending, committed, InterbankPayment, Tables, Error,
  Env, key_of, get_by_tx_id, has_pending, is_pending, mark_cas, update_pending, Stmt, as_committed,
}
use exbanka_3_backend.InterbankPayment.Sender.{
  finalise_commit_body, at_account, prepare_body, Request, outbound_row, row_of, prepare,
  finalise_commit,
}
use exbanka_3_backend.InterbankPayment.Protocol.{State, begins, protocol, resolves}
use exbanka_3_backend.InterbankPayment.Views.{view, view-update, state_of}
use exbanka_3_backend.InterbankPayment.Follows.{prepare_body-begins}
use exbanka_3_backend.InterbankPayment.Operations.{change_account-none}
use exbanka_3_backend.InterbankPayment.Settles.{has_pending-true}
use exbanka_3_backend.InterbankPayment.Wallet.{debit, lock_by_number}
use exbanka_3_backend.InterbankPayment.Ledger.{row_of-tables}
use exbanka_3_backend.Interbank.Wallet.{spent}

abbrev pub not_seen : State
not_seen = none

abbrev pub seen : PaymentDirection → PaymentStatus → State
seen d s = some (d, s)

abbrev waits : State → Bool
waits none = false
waits (some (d, s)) = is_pending s

same_id_refl : (k : ForeignBankId) → same_foreign_bank_id k k ≡ true
same_id_refl k = rw (==_refl k.routing_number, text_eq_refl k.id) refl

module _ (env : Env) (row : InterbankPayment) (t : Tables)
    (pend : view (key_of row) t.payments ≡ some (outbound, pending)) where
  has_pending-view : has_pending (key_of row) t.payments ≡ true
  has_pending-view = elim (Option-cases (get_by_tx_id (key_of row) t.payments)) [
    | inl missing ↦
        (let bad : not_seen ≡ seen outbound pending = sym (ap state_of missing) ∙ pend in absurd cc)
    | inr (p, found) ↦
        has_pending-true (key_of row) t.payments p found
          (ap (λ o. waits (state_of o)) (sym found) ∙ ap waits pend)
  ]

  finalise_commit_body-commits :
      (k : ℕ)
      → (finalise_commit_body env row k t).0 ≡ none
      → view (key_of row) (finalise_commit_body env row k t).1.payments ≡ some (outbound, committed)
  unfolding finalise_commit_body mark_cas debit as_committed
  finalise_commit_body-commits k h = elim (Bool-cases (env.fails Stmt.mark_payment)) [
    | inl broken ↦ absurd (ground arith)
    | inr fine ↦
        let t₁ = record t { payments = update_pending (key_of row) as_committed t.payments } in
        let at : finalise_commit_body env row k t ≡ debit env k row.amount t₁ =
          rw (fine, has_pending-view) refl in
        ap (λ r. view (key_of row) r.1.payments)
          (at
            ∙ change_account-none env Stmt.debit_funds (spent row.amount) k t₁
                (sym (ap (λ r. r.0) at) ∙ h))
        ∙ view-update (key_of row) (key_of row) committed as_committed t.payments
            (λ r. (refl, refl, refl, refl)) (λ r. refl)
        ∙ rw (same_id_refl (key_of row)) (ap (resolves committed) pend)
  ]

  at_account-commits :
      (db : Transactions Tables Error) (o : Option ℕ)
      → (at_account o (λ k. db.transaction (finalise_commit_body env row k)) t).0 ≡ none
      → view
          (key_of row)
          (at_account o (λ k. db.transaction (finalise_commit_body env row k)) t).1.payments
        ≡ some (outbound, committed)
  at_account-commits db none h = cc
  at_account-commits db (some k) h =
      elim (transaction-cases db (finalise_commit_body env row k) t) [
        | inl (fine, done) ↦
            ap (λ r. view (key_of row) r.1.payments) done ∙ finalise_commit_body-commits k fine
        | inr (e, aborted) ↦ (let bad = sym (ap (λ r. r.0) aborted) ∙ h in absurd cc)
      ]

  pub finalise_commit-commits :
      (db : Transactions Tables Error)
      → (finalise_commit db env row t).0 ≡ none
      → view (key_of row) (finalise_commit db env row t).1.payments ≡ some (outbound, committed)
  unfolding finalise_commit
  finalise_commit-commits db h = at_account-commits db row.local_account_id h

abbrev row_or : InterbankPayment → Except Error InterbankPayment → InterbankPayment
row_or row (ok p) = p
row_or row (err e) = row

-- The row in the sender's hands after `prepare`.
row_of-ok :
    (key : ForeignBankId) (partner : ℤ) (q : Request) (row : InterbankPayment)
    (locked : Except Error Account) (r : Option Error × Tables)
    → (row_of (outbound_row key partner q) locked r).0 ≡ ok row
    → (r.0 ≡ none) × (key_of row ≡ key)
unfolding outbound_row
row_of-ok key partner q row locked (some e, t) h = cc
row_of-ok key partner q row (err e) (none, t) h = cc
row_of-ok key partner q row (ok a) (none, t) h =
    (refl, sym (ap (λ r. key_of (row_or (outbound_row key partner q a.id) r)) h))

module _ (db : Transactions Tables Error) (env : Env) (key : ForeignBankId) (partner : ℤ)
    (q : Request) (t : Tables) (fresh : get_by_tx_id key t.payments ≡ none) where
  transaction-begins :
      (db.transaction (prepare_body env key partner q) t).0 ≡ none
      → view key (db.transaction (prepare_body env key partner q) t).1.payments
        ≡ some (outbound, pending)
  unfolding protocol
  transaction-begins h = elim (transaction-cases db (prepare_body env key partner q) t) [
    | inr (e, aborted) ↦ (let bad = sym (ap (λ r. r.0) aborted) ∙ h in absurd cc)
    | inl (fine, done) ↦
        ap (λ r. view key r.1.payments) done
        ∙ prepare_body-begins env t key partner q fresh fine key
        ∙ rw (same_id_refl key) (ap (λ o. begins outbound (state_of o)) fresh)
  ]

  pub prepare-begins :
      (row : InterbankPayment)
      → (prepare db env key partner q t).0 ≡ ok row
      → (key_of row ≡ key)
        × (view key (prepare db env key partner q t).1.payments ≡ some (outbound, pending))
  unfolding prepare
  prepare-begins row h =
      let locked = lock_by_number env q.sender_account_number q.currency t in
      let r = db.transaction (prepare_body env key partner q) t in
      let (fine, at) = row_of-ok key partner q row locked r h in
      (
        at,
        ap (λ u. view key u.payments) (row_of-tables (outbound_row key partner q) locked r)
            ∙ transaction-begins fine,
      )
