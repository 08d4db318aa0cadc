-- ===== src/Payment/Service.antt =====
-- PaymentService (payment-service/internal/service/payment_service.go): checks, cancellation and the
-- settlement in a database transaction. Notifications write no table and are left out.
use exbanka_3_backend.Prelude.{
  ℕ, Bool, true, false, not, ◌&&◌, Option, none, some, [], ◌==◌, if◌then◌else◌,
}
use exbanka_3_backend.Prelude.Int.{ℤ, ◌+ℤ◌, ◌-ℤ◌, ltb_ℤ}
use exbanka_3_backend.Prelude.Text.{Text, codes, text_eq}
use exbanka_3_backend.Prelude.Except.{Except, ok, err, ◌>>=◌, ◌>>◌, fail_if, read}
use exbanka_3_backend.Prelude.Db.{Transactions}
use exbanka_3_backend.Payment.Types.{
  Account, Payment, PaymentStatus, u_obradi, uspesno, stornirano, Tables, Code, Error, Env, Stmt,
}
use exbanka_3_backend.Payment.Repository.{
  find_account, find_by_broj_racuna, update_fields, find_payment, update_payment, save_payment,
}

abbrev pub payment_verification_code_ttl : ℕ
payment_verification_code_ttl = 300

abbrev pub payment_max_verification_tries : ℕ
payment_max_verification_tries = 3

abbrev pub is_pending : PaymentStatus → Bool
is_pending u_obradi = true
is_pending _ = false

abbrev pub is_empty : Text → Bool
is_empty s = text_eq s []

unfoldable pub validate_payment_accounts : Account → Account → Except Error (Unit {0})
validate_payment_accounts sender receiver = do
  fail_if (not (is_empty sender.status) && not (text_eq sender.status (codes "aktivan")))
      Error.sender_inactive
  fail_if (not (is_empty receiver.status) && not (text_eq receiver.status (codes "aktivan")))
      Error.receiver_inactive
  fail_if
      (not (sender.currency_id == 0)
        && not (receiver.currency_id == 0)
        && not (sender.currency_id == receiver.currency_id))
      Error.cross_currency
  fail_if (not (is_empty sender.currency_kod) && not (text_eq sender.currency_kod (codes "RSD")))
      Error.not_rsd
  fail_if
      (not (is_empty receiver.currency_kod) && not (text_eq receiver.currency_kod (codes "RSD")))
      Error.not_rsd

-- `cancelPayment`: the payment in memory, and the tables.
unfoldable pub cancelled : Env → Payment → Payment
cancelled env p = record p {
  status = stornirano;
  verifikacioni_kod = [];
  verification_expires_at = none;
  vreme_transakcije = env.now;
}

unfoldable pub cancel_payment : Env → Payment → Tables → Payment × Tables
unfolding cancelled save_payment
cancel_payment env p t = (cancelled env p, save_payment env (cancelled env p) t)

-- The two lookups of the receiver's account, in and out of a transaction.
unfoldable pub find_receiver_account : Payment → Tables → Option Account
find_receiver_account p t = elim (p.racun_primaoca_id) [
  | some k ↦ find_account k t.accounts
  | none ↦ find_by_broj_racuna p.racun_primaoca_broj t.accounts
]

abbrev pub refuse : Code → PaymentStatus → Error
refuse c s = Error.verification c s 0

abbrev pub as_unsupported : Except Error (Unit {0}) → Except Error (Unit {0})
as_unsupported (ok u) = ok u
as_unsupported (err e) = err (refuse Code.unsupported_payment_currency stornirano)

-- What the transaction of a settlement reads and checks, under row locks, before it writes.
unfoldable pub settle_checks : Env → Payment → Tables → Except Error (Account × Account)
settle_checks env p t = do
  current ←
      read (env.fails Stmt.lock_payment) (find_payment p.id t.payments) Error.payment_not_found
  fail_if (not (is_pending current.status)) (refuse Code.payment_already_processed current.status)
  sender ←
      read (env.fails Stmt.lock_sender) (find_account p.racun_posiljaoca_id t.accounts)
        Error.sender_not_found
  receiver ←
      read (env.fails Stmt.lock_receiver) (find_receiver_account p t) Error.receiver_not_found
  as_unsupported (validate_payment_accounts sender receiver)
  fail_if (ltb_ℤ sender.raspolozivo_stanje p.iznos) (refuse Code.insufficient_balance stornirano)
  fail_if (ltb_ℤ sender.dnevni_limit (sender.dnevna_potrosnja +ℤ p.iznos))
      (refuse Code.daily_limit_exceeded stornirano)
  fail_if (ltb_ℤ sender.mesecni_limit (sender.mesecna_potrosnja +ℤ p.iznos))
      (refuse Code.monthly_limit_exceeded stornirano)
  ok (sender, receiver)

-- The three updates, each of absolute values computed from the rows that were read.
unfoldable pub deducted : Account → ℤ → Account → Account
deducted sender x a = record a {
  stanje = sender.stanje -ℤ x;
  raspolozivo_stanje = sender.raspolozivo_stanje -ℤ x;
  dnevna_potrosnja = sender.dnevna_potrosnja +ℤ x;
  mesecna_potrosnja = sender.mesecna_potrosnja +ℤ x;
}

unfoldable pub credited : Account → ℤ → Account → Account
credited receiver x a = record a {
  stanje = receiver.stanje +ℤ x;
  raspolozivo_stanje = receiver.raspolozivo_stanje +ℤ x;
}

unfoldable pub completed : Env → Payment → Payment
completed env p = record p {
  status = uspesno;
  verifikacioni_kod = [];
  verification_expires_at = none;
  vreme_transakcije = env.now;
}

unfoldable pub settle_writes : Env → Payment → Account → Account → Tables → Option Error × Tables
settle_writes env p sender receiver t =
    if env.fails Stmt.deduct
    then (some Error.deduct_failed, t)
    else (let t₁ = record t {
      accounts = update_fields sender.id (deducted sender p.iznos) t.accounts;
    } in
        if env.fails Stmt.credit
        then (some Error.credit_failed, t₁)
        else (let t₂ = record t₁ {
          accounts = update_fields receiver.id (credited receiver p.iznos) t₁.accounts;
        } in
            if env.fails Stmt.update_status
            then (some Error.update_failed, t₂)
            else (none, record t₂ { payments = update_payment p.id (completed env) t₂.payments })))

abbrev pub write_checked :
    Env → Payment → Tables → Except Error (Account × Account) → Option Error × Tables
write_checked env p t (err e) = (some e, t)
write_checked env p t (ok (sender, receiver)) = settle_writes env p sender receiver t

unfoldable pub settle_body : Env → Payment → Tables → Option Error × Tables
settle_body env p t = write_checked env p t (settle_checks env p t)

-- Whether a failed transaction makes the service cancel the payment.
abbrev pub cancels : Error → Bool
cancels (Error.verification Code.payment_already_processed s n) = false
cancels (Error.verification c s n) = true
cancels _ = false

-- The payment in memory after a settlement that went through.
unfoldable pub settled : Payment → Payment
settled p = record p { status = uspesno; verifikacioni_kod = []; verification_expires_at = none }

module _ (db : Transactions Tables Error) where
  abbrev pub after_settlement :
      Env → Payment → Option Error × Tables → Except Error Payment × Tables
  after_settlement env p (none, t) = (ok (settled p), t)
  after_settlement env p (some e, t) = (err e, if cancels e then (cancel_payment env p t).1 else t)

  -- `settlePayment` with a database, on the payment `p` as it was read earlier.
  unfoldable pub settle_payment : Env → Payment → Tables → Except Error Payment × Tables
  unfolding settle_body
  settle_payment env p t = after_settlement env p (db.transaction (settle_body env p) t)
