-- ===== src/Payment/Settlement.antt =====
-- What a settlement (settlePayment of payment-service/internal/service/payment_service.go) does to
-- the accounts, on every database.
use exbanka_3_backend.Prelude.{
  ◌≡◌, refl, ap, ◌⊎◌, inl, inr, true, none, some, arith, if◌then◌else◌, Bool-cases, Option-cases,
}
use exbanka_3_backend.Prelude.Int.{◌+ℤ◌, ◌≤ℤ◌}
use exbanka_3_backend.Prelude.Except.{ok, err}
use exbanka_3_backend.Prelude.Db.{Transactions, transaction-cases}
use exbanka_3_backend.Payment.Types.{Account, Payment, Tables, Error, Env}
use exbanka_3_backend.Payment.Repository.{find_account, find_payment}
use exbanka_3_backend.Payment.Service.{
  settle_checks, settle_body, settle_payment, after_settlement, settled, cancels, cancel_payment,
  find_receiver_account, is_pending,
}

cancel_payment-accounts :
    (env : Env) (p : Payment) (t : Tables) → (cancel_payment env p t).1.accounts ≡ t.accounts
unfolding cancel_payment
cancel_payment-accounts env p t = ground arith

-- The checks pass only on a pending payment between two accounts that are there, with the funds and
-- within both limits.
pub record Accepted (p : Payment) (t : Tables) (sender receiver : Account) : Type 0 where
  pub current : Payment
  pub found : find_payment p.id t.payments ≡ some current
  pub pending : is_pending current.status ≡ true
  pub sender_found : find_account p.racun_posiljaoca_id t.accounts ≡ some sender
  pub receiver_found : find_receiver_account p t ≡ some receiver
  pub covered : p.iznos ≤ℤ sender.raspolozivo_stanje
  pub daily : sender.dnevna_potrosnja +ℤ p.iznos ≤ℤ sender.dnevni_limit
  pub monthly : sender.mesecna_potrosnja +ℤ p.iznos ≤ℤ sender.mesecni_limit

pub settle_checks-Accepted :
    (env : Env) (p : Payment) (t : Tables) (sender receiver : Account)
    → settle_checks env p t ≡ ok (sender, receiver)
    → Accepted p t sender receiver
unfolding settle_checks
settle_checks-Accepted env p t sender receiver h =
    elim (Option-cases (find_payment p.id t.payments)) [
      | inl k ↦ absurd (ground arith)
      | inr (c, k) ↦ elim (Option-cases (find_account p.racun_posiljaoca_id t.accounts)) [
        | inl ks ↦ absurd (ground arith)
        | inr (s, ks) ↦ elim (Option-cases (find_receiver_account p t)) [
          | inl kr ↦ absurd (ground arith)
          | inr (r, kr) ↦ record {
            current = c;
            found = k;
            pending = ground arith;
            sender_found = ground arith;
            receiver_found = ground arith;
            covered = ground arith;
            daily = ground arith;
            monthly = ground arith;
          }
        ]
      ]
    ]

module _ (db : Transactions Tables Error) (env : Env) (p : Payment) (t : Tables) where
  pub settle_payment-cases :
      (((settle_body env p t).0 ≡ none)
        × (settle_payment db env p t ≡ (ok (settled p), (settle_body env p t).1)))
      ⊎ ((x : Error) × (settle_payment db env p t
            ≡ (err x, if cancels x then (cancel_payment env p t).1 else t)))
  unfolding settle_payment
  settle_payment-cases = elim (transaction-cases db (settle_body env p) t) [
    | inl (k, done) ↦ inl (k, ap (after_settlement db env p) done)
    | inr (x, lost) ↦ inr (x, ap (after_settlement db env p) lost)
  ]

  -- A settlement that reports an error has moved no money and counted no spending: no account is
  -- changed, whichever check or statement failed, the commit included.
  pub settle_payment-err :
      (e : Error)
      → (settle_payment db env p t).0 ≡ err e
      → (settle_payment db env p t).1.accounts ≡ t.accounts
  settle_payment-err e h = elim settle_payment-cases [
    | inl (k, done) ↦ cc
    | inr (x, lost) ↦ rw lost (elim (Bool-cases (cancels x)) [
      | inl c ↦ rw c (cancel_payment-accounts env p t)
      | inr c ↦ rw c refl
    ])
  ]

  pub settle_payment-ok :
      (q : Payment)
      → (settle_payment db env p t).0 ≡ ok q
      → ((settle_body env p t).0 ≡ none)
        × ((settle_payment db env p t).1 ≡ (settle_body env p t).1)
        × (q ≡ settled p)
  settle_payment-ok q h = elim settle_payment-cases [
    | inl (k, done) ↦ (k, ap (λ r. r.1) done, cc)
    | inr (x, lost) ↦ cc
  ]
