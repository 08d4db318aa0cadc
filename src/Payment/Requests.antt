-- ===== src/Payment/Requests.antt =====
-- The requests of PaymentService (payment-service/internal/service/payment_service.go): create,
-- verify, approve and reject on the phone.
use exbanka_3_backend.Prelude.{
  ℕ, ◌+◌, ◌-◌, Bool, not, ◌&&◌, Option, none, some, ◌∷◌, ltb, leb, ◌==◌, if◌then◌else◌,
}
use exbanka_3_backend.Prelude.Int.{ℤ, pos, ◌+ℤ◌, ltb_ℤ, leb_ℤ}
use exbanka_3_backend.Prelude.Text.{Text, text_eq, trim_space}
use exbanka_3_backend.Prelude.Except.{Except, ok, err, ◌>>=◌, ◌>>◌, fail_if, read}
use exbanka_3_backend.Prelude.Db.{Transactions}
use exbanka_3_backend.Payment.Types.{
  Account, Payment, u_obradi, stornirano, Tables, Code, Error, Env, Stmt,
}
use exbanka_3_backend.Payment.Repository.{
  find_account, find_by_broj_racuna, find_payment, save_payment,
}
use exbanka_3_backend.Payment.Service.{
  payment_verification_code_ttl, payment_max_verification_tries, is_pending, is_empty,
  validate_payment_accounts, cancel_payment, refuse, settle_payment,
}

pub record CreatePaymentInput : Type 0 where
  pub racun_posiljaoca_id : ℕ
  pub racun_primaoca_broj : Text
  pub iznos : ℤ
  pub sifra_placanja : Text
  pub poziv_na_broj : Text
  pub svrha : Text
  pub recipient_id : Option ℕ
  pub add_recipient : Bool
  pub recipient_naziv : Text
  pub client_email : Text

-- The accounts of a new payment, after every check on them.
unfoldable pub create_checks : Env → CreatePaymentInput → Tables → Except Error (Account × Account)
create_checks env input t = do
  fail_if (leb_ℤ input.iznos (pos 0)) Error.amount_not_positive
  sender ←
      read (env.fails Stmt.read_sender) (find_account input.racun_posiljaoca_id t.accounts)
        Error.sender_not_found
  receiver ←
      read (env.fails Stmt.read_receiver)
        (find_by_broj_racuna (trim_space input.racun_primaoca_broj) t.accounts)
        Error.receiver_not_found
  fail_if (sender.id == receiver.id) Error.same_account
  validate_payment_accounts sender receiver
  fail_if (ltb_ℤ sender.raspolozivo_stanje input.iznos) Error.balance_too_low
  fail_if (ltb_ℤ sender.dnevni_limit (sender.dnevna_potrosnja +ℤ input.iznos)) Error.daily_limit
  fail_if (ltb_ℤ sender.mesecni_limit (sender.mesecna_potrosnja +ℤ input.iznos)) Error.monthly_limit
  ok (sender, receiver)

abbrev pub insert_recipient : Env → CreatePaymentInput → Option ℕ → Tables → Option ℕ × Tables
insert_recipient env input none t = (input.recipient_id, t)
insert_recipient env input (some client) t =
    if env.fails Stmt.write_recipient then (input.recipient_id, t) else (
      some t.next_recipient_id,
      record t {
        recipients =
            record {
              id = t.next_recipient_id;
              client_id = client;
              naziv = input.recipient_naziv;
              broj_racuna = input.racun_primaoca_broj;
            }
            ∷ t.recipients;
        next_recipient_id = t.next_recipient_id + 1;
      },
    )

-- The optional saved recipient: its id, and the tables. Ids start at 1.
unfoldable pub add_recipient : Env → CreatePaymentInput → Account → Tables → Option ℕ × Tables
add_recipient env input sender t =
    if input.add_recipient
    then insert_recipient env input sender.client_id t
    else (input.recipient_id, t)

unfoldable pub new_payment : Env → CreatePaymentInput → Text → Account → Option ℕ → Tables → Payment
new_payment env input code receiver recipient t = record {
  id = t.next_payment_id;
  racun_posiljaoca_id = input.racun_posiljaoca_id;
  racun_primaoca_id = some receiver.id;
  racun_primaoca_broj = receiver.broj_racuna;
  iznos = input.iznos;
  sifra_placanja = input.sifra_placanja;
  poziv_na_broj = input.poziv_na_broj;
  svrha = input.svrha;
  status = u_obradi;
  verifikacioni_kod = code;
  verification_expires_at = some (env.now + payment_verification_code_ttl);
  broj_pokusaja = 0;
  recipient_id = recipient;
  vreme_transakcije = env.now;
  created_at = env.now;
}

-- The insert and the e-mail; `sent` is whether a notifier takes the code.
unfoldable pub insert_payment :
    Env → Bool → CreatePaymentInput → Payment → Tables → Except Error Payment × Tables
unfolding cancel_payment
insert_payment env sent input p t =
    if env.fails Stmt.insert_row
    then (err Error.create_failed, t)
    else (let t' = record t {
      payments = p ∷ t.payments;
      next_payment_id = t.next_payment_id + 1;
    } in
        if not (is_empty (trim_space input.client_email)) && not sent
        then (err Error.send_failed, (cancel_payment env p t').1)
        else (ok p, t'))

abbrev pub create_checked :
    Env
    → Text
    → Bool
    → CreatePaymentInput
    → Tables
    → Except Error (Account × Account)
    → Except Error Payment × Tables
create_checked env code sent input t (err e) = (err e, t)
create_checked env code sent input t (ok (sender, receiver)) =
    let (recipient, t') = add_recipient env input sender t in
    insert_payment env sent input (new_payment env input code receiver recipient t') t'

-- `CreatePayment`; `code` is the random six-digit code.
unfoldable pub create_payment :
    Env → Text → Bool → CreatePaymentInput → Tables → Except Error Payment × Tables
unfolding create_checks add_recipient new_payment insert_payment
create_payment env code sent input t =
    create_checked env code sent input t (create_checks env input t)

abbrev or_ttl : Option ℕ → ℕ → ℕ
or_ttl (some at) created = at
or_ttl none created = created + payment_verification_code_ttl

unfoldable pub expires_at : Payment → ℕ
expires_at p = or_ttl p.verification_expires_at p.created_at

-- A wrong code: one more attempt is counted, and the third cancels the payment.
unfoldable pub wrong_code : Env → Payment → Tables → Except Error Payment × Tables
wrong_code env p t =
    let p' = record p { broj_pokusaja = p.broj_pokusaja + 1 } in
    if leb payment_max_verification_tries p'.broj_pokusaja
    then (err (refuse Code.verification_attempts_exceeded stornirano), (cancel_payment env p' t).1)
    else (
      err (
          Error.verification Code.invalid_verification_code u_obradi
            (payment_max_verification_tries - p'.broj_pokusaja)),
      save_payment env p' t,
    )

abbrev pub with_payment :
    Except Error Payment
    → Tables
    → (Payment → Except Error Payment × Tables)
    → Except Error Payment × Tables
with_payment (err e) t k = (err e, t)
with_payment (ok p) t k = k p

module _ (db : Transactions Tables Error) where
  unfoldable pub verify_found : Env → Text → Payment → Tables → Except Error Payment × Tables
  verify_found env code p t =
      if not (is_pending p.status)
      then (err (refuse Code.payment_not_pending p.status), t)
      else if ltb (expires_at p) env.now
      then (err (refuse Code.verification_code_expired stornirano), (cancel_payment env p t).1)
      else if not (text_eq p.verifikacioni_kod (trim_space code))
      then wrong_code env p t
      else settle_payment db env p t

  -- `VerifyPayment`.
  unfoldable pub verify_payment : Env → ℕ → Text → Tables → Except Error Payment × Tables
  unfolding verify_found
  verify_payment env id code t =
      with_payment
        (read (env.fails Stmt.read_payment) (find_payment id t.payments) Error.payment_not_found) t
        (λ p. verify_found env code p t)

-- `pendingPaymentForMobile`, on the payment that was found.
unfoldable pub pending_for_mobile : Env → Payment → Tables → Except Error Payment × Tables
unfolding expires_at cancel_payment
pending_for_mobile env p t =
    if not (is_pending p.status)
    then (err (refuse Code.payment_not_pending p.status), t)
    else if ltb (expires_at p) env.now
    then (err (refuse Code.verification_code_expired stornirano), (cancel_payment env p t).1)
    else if is_empty (trim_space p.verifikacioni_kod)
    then (err (refuse Code.verification_code_unavailable p.status), t)
    else (ok p, t)

abbrev pub reject_found : Env → Except Error Payment × Tables → Except Error Payment × Tables
reject_found env (err e, t) = (err e, t)
reject_found env (ok p, t) = let (p', t') = cancel_payment env p t in (ok p', t')

-- `RejectPayment`.
unfoldable pub reject_payment : Env → ℕ → Tables → Except Error Payment × Tables
unfolding pending_for_mobile cancel_payment
reject_payment env id t =
    with_payment
      (read (env.fails Stmt.read_payment) (find_payment id t.payments) Error.payment_not_found) t
      (λ p. reject_found env (pending_for_mobile env p t))
