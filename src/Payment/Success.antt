-- ===== src/Payment/Success.antt =====
-- When a settlement goes through (settlePayment of payment-service/internal/service/
-- payment_service.go).
use exbanka_3_backend.Prelude.{◌≡◌, ap, ◌∙◌, true, false, none, some, arith}
use exbanka_3_backend.Prelude.Int.{◌+ℤ◌, ◌≤ℤ◌}
use exbanka_3_backend.Prelude.Except.{ok}
use exbanka_3_backend.Prelude.Db.{Transactions, AlwaysCommits}
use exbanka_3_backend.Payment.Types.{Account, Payment, Tables, Error, Env, Stmt}
use exbanka_3_backend.Payment.Repository.{find_payment, find_account}
use exbanka_3_backend.Payment.Service.{
  is_pending, settle_checks, settle_writes, settle_body, write_checked, settle_payment, settled,
  find_receiver_account, validate_payment_accounts, after_settlement,
}

-- No statement fails, and every commit goes through.
abbrev pub IsFaultless : Transactions Tables Error → Env → Type 0
IsFaultless db env = ((s : Stmt) → env.fails s ≡ false) × AlwaysCommits db

checks_pass :
    (env : Env) (p current : Payment) (t : Tables) (sender receiver : Account)
    → ((s : Stmt) → env.fails s ≡ false)
    → find_payment p.id t.payments ≡ some current
    → is_pending current.status ≡ true
    → find_account p.racun_posiljaoca_id t.accounts ≡ some sender
    → find_receiver_account p t ≡ some receiver
    → validate_payment_accounts sender receiver ≡ ok tt
    → p.iznos ≤ℤ sender.raspolozivo_stanje
    → sender.dnevna_potrosnja +ℤ p.iznos ≤ℤ sender.dnevni_limit
    → sender.mesecna_potrosnja +ℤ p.iznos ≤ℤ sender.mesecni_limit
    → settle_checks env p t ≡ ok (sender, receiver)
unfolding settle_checks
checks_pass env p current t sender receiver fine found pend s r valid covered daily monthly =
    ground (arith, fine Stmt.lock_payment, fine Stmt.lock_sender, fine Stmt.lock_receiver)

writes_pass :
    (env : Env) (p : Payment) (t : Tables) (sender receiver : Account)
    → ((s : Stmt) → env.fails s ≡ false)
    → (settle_writes env p sender receiver t).0 ≡ none
unfolding settle_writes
writes_pass env p t sender receiver fine =
    ground (arith, fine Stmt.deduct, fine Stmt.credit, fine Stmt.update_status)

-- When no statement fails and the commit goes through, a settlement succeeds: of a pending payment
-- between two accounts that are there and that the rules allow, whose amount the sender's available
-- funds cover and both of its limits leave room for.
pub settle_payment-succeeds :
    (db : Transactions Tables Error) (env : Env) (p current : Payment) (t : Tables)
    (sender receiver : Account)
    → IsFaultless db env
    → find_payment p.id t.payments ≡ some current
    → is_pending current.status ≡ true
    → find_account p.racun_posiljaoca_id t.accounts ≡ some sender
    → find_receiver_account p t ≡ some receiver
    → validate_payment_accounts sender receiver ≡ ok tt
    → p.iznos ≤ℤ sender.raspolozivo_stanje
    → sender.dnevna_potrosnja +ℤ p.iznos ≤ℤ sender.dnevni_limit
    → sender.mesecna_potrosnja +ℤ p.iznos ≤ℤ sender.mesecni_limit
    → (settle_payment db env p t).0 ≡ ok (settled p)
unfolding settle_payment settle_body
settle_payment-succeeds db env p current t sender receiver (fine, commits) found pend s r valid
      covered daily monthly =
    let checked =
      checks_pass env p current t sender receiver fine found pend s r valid covered daily monthly in
    let written : (settle_body env p t).0 ≡ none =
      ap (λ c. (write_checked env p t c).0) checked ∙ writes_pass env p t sender receiver fine in
    ap (λ o. (after_settlement db env p o).0) (commits (settle_body env p) t written)
