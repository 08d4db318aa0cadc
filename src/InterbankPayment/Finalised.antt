-- ===== src/InterbankPayment/Finalised.antt =====
-- The sender's finalisers keep the books (exchange-service/internal/handler/
-- interbank_payment_http_handler.go, internal/service/interbank_reconcile.go).
use exbanka_3_backend.Prelude.{ℕ, ◌≡◌, refl, sym, ap, ◌∙◌, Option, none, some, arith}
use exbanka_3_backend.Prelude.Int.{ℤ, pos, ◌+ℤ◌, int_laws}
use exbanka_3_backend.Prelude.Text.{Text}
use exbanka_3_backend.Prelude.Db.{next-none, ◌>>>◌}
use exbanka_3_backend.Payment.{Account, update_fields}
use exbanka_3_backend.Interbank.Messages.{ForeignBankId}
use exbanka_3_backend.Interbank.Acceptance.{negated}
use exbanka_3_backend.Interbank.Wallet.{spent, refunded}
use exbanka_3_backend.Interbank.Totals.{
  blocked, spent-id, refunded-id, blocked-spent, blocked-refunded,
}
use exbanka_3_backend.InterbankPayment.Models.{
  outbound, InterbankPayment, Tables, Stmt, Error, Env, key_of, stamped, as_committed, as_rejected,
  as_failed, mark_cas, mark_partner_finalised,
}
use exbanka_3_backend.InterbankPayment.Wallet.{debit, release}
use exbanka_3_backend.InterbankPayment.Sender.{
  finalise_commit_body, finalise_rejected_body, finalise_failed_body,
}
use exbanka_3_backend.InterbankPayment.Books.{booked_as, held_as, KeepsTerms}
use exbanka_3_backend.InterbankPayment.Keeps.{IsKept, Keeps, Keeps-refl}
use exbanka_3_backend.InterbankPayment.Created.{stamped-Keeps}
use exbanka_3_backend.InterbankPayment.Operations.{
  with_zero, change_account-none, Snapshot, settling-Keeps,
}

spent-stanje : (x : ℤ) (a : Account) → (spent x a).stanje ≡ a.stanje +ℤ negated x
unfolding spent
spent-stanje x a = grind int_laws

refunded-stanje : (x : ℤ) (a : Account) → (refunded x a).stanje ≡ a.stanje
unfolding refunded
refunded-stanje x a = refl

pub mark_partner_finalised-none :
    (env : Env) (key : ForeignBankId) (s : Tables)
    → (mark_partner_finalised env key s).0 ≡ none
    → mark_partner_finalised env key s ≡ (none, record s { payments = stamped key s.payments })
unfolding mark_partner_finalised
mark_partner_finalised-none env key s h = ground arith

pub stamp_release :
    (env : Env) (key : ForeignBankId) (k : ℕ) (x : ℤ) (s : Tables)
    → ((mark_partner_finalised env key >>> release env k x) s).0 ≡ none
    → (mark_partner_finalised env key >>> release env k x) s ≡ (
      none,
      record {
        accounts = update_fields k (refunded x) s.accounts;
        payments = stamped key s.payments;
      },
    )
unfolding release
stamp_release env key k x s h =
    let (fine, next) = next-none (mark_partner_finalised env key s) (release env k x) h in
    let to_release =
      next ∙ ap (λ r. release env k x r.1) (mark_partner_finalised-none env key s fine) in
    to_release
    ∙ change_account-none env Stmt.release_funds (refunded x) k
        (record s { payments = stamped key s.payments }) (sym (ap (λ r. r.0) to_release) ∙ h)

-- The row in memory has the key, the amount and the account of the outbound one in the table.
module _ (env : Env) (row : InterbankPayment) (k : ℕ) (t : Tables) (kept : IsKept t)
    (now : Snapshot (key_of row) outbound row.amount (some k) t) where
  pub finalise_commit_body-Keeps :
      (finalise_commit_body env row k t).0 ≡ none → Keeps t (finalise_commit_body env row k t).1
  unfolding finalise_commit_body debit as_committed
  finalise_commit_body-Keeps =
      settling-Keeps env (key_of row) outbound row.amount k t kept now as_committed none
        (debit env k row.amount) (spent row.amount) (λ s. s) (λ r. (refl, refl, refl, refl))
        (spent-id row.amount) (spent-stanje row.amount)
        (λ a. blocked-spent row.amount a ∙ sym (with_zero (blocked a))) Keeps-refl
        (λ s. change_account-none env Stmt.debit_funds (spent row.amount) k s)

  released :
      (g : InterbankPayment → InterbankPayment)
      → booked_as outbound (g now.row).status row.amount ≡ pos 0
      → held_as outbound (g now.row).status row.amount ≡ pos 0
      → KeepsTerms g
      → (rest : Tables → Option Error × Tables) (after : Tables → Tables)
      → ((s : Tables) → IsKept s → Keeps s (after s))
      → ((s : Tables)
          → (rest s).0 ≡ none
          → rest s ≡ (
            none,
            after (record s { accounts = update_fields k (refunded row.amount) s.accounts }),
          ))
      → (mark_cas env (key_of row) g none rest t).0 ≡ none
      → Keeps t (mark_cas env (key_of row) g none rest t).1
  released g no_books no_hold terms rest after afterwards done =
      settling-Keeps env (key_of row) outbound row.amount k t kept now g none rest
        (refunded row.amount) after terms (refunded-id row.amount)
        (λ a.
          refunded-stanje row.amount a
          ∙ sym (ap (λ v. a.stanje +ℤ v) no_books ∙ with_zero a.stanje))
        (λ a.
          blocked-refunded row.amount a
          ∙ sym (ap (λ v. blocked a +ℤ v) no_hold ∙ with_zero (blocked a)))
        afterwards done

  pub finalise_failed_body-Keeps :
      (reason : Text)
      → (finalise_failed_body env reason row k t).0 ≡ none
      → Keeps t (finalise_failed_body env reason row k t).1
  unfolding finalise_failed_body release as_failed
  finalise_failed_body-Keeps reason =
      released (as_failed reason) refl refl (λ r. (refl, refl, refl, refl))
        (release env k row.amount) (λ s. s) Keeps-refl
        (λ s. change_account-none env Stmt.release_funds (refunded row.amount) k s)

  pub finalise_rejected_body-Keeps :
      (reason : Text)
      → (finalise_rejected_body env reason row k t).0 ≡ none
      → Keeps t (finalise_rejected_body env reason row k t).1
  unfolding finalise_rejected_body as_rejected
  finalise_rejected_body-Keeps reason =
      released (as_rejected reason) refl refl (λ r. (refl, refl, refl, refl))
        (mark_partner_finalised env (key_of row) >>> release env k row.amount)
        (λ s. record s { payments = stamped (key_of row) s.payments }) (stamped-Keeps (key_of row))
        (stamp_release env (key_of row) k row.amount)
