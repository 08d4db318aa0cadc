-- ===== src/Payment/Tests.antt =====
-- A payment between two accounts, and the theorems at this input.
use exbanka_3_backend.Prelude.{
  ℕ, ◌≤◌, ◌≡◌, ◌≢◌, ap, refl, Bool, true, false, none, some, List, [], ◌∷◌, arith,
}
use exbanka_3_backend.Prelude.Int.{pos, ◌+ℤ◌}
use exbanka_3_backend.Prelude.Text.{Text, codes, trim_space, text_eq}
use exbanka_3_backend.Prelude.Except.{ok, err}
use exbanka_3_backend.Prelude.Db.{Transactions, reliable, keeps}
use exbanka_3_backend.Payment.Types.{
  Account, Payment, u_obradi, stornirano, Tables, Error, Env, Stmt,
}
use exbanka_3_backend.Payment.Repository.{find_account, find_payment}
use exbanka_3_backend.Payment.Service.{
  settle_payment, settled, is_pending, settle_checks, find_receiver_account,
  validate_payment_accounts, settle_writes,
}
use exbanka_3_backend.Payment.Requests.{verify_payment, expires_at}
use exbanka_3_backend.Payment.Accounts.{total_stanje}
use exbanka_3_backend.Payment.Settlement.{settle_payment-err}
use exbanka_3_backend.Payment.Transfer.{Moves, settle_payment-Moves, settle_payment-total}
use exbanka_3_backend.Payment.Success.{IsFaultless, settle_payment-succeeds}
use exbanka_3_backend.Payment.Once.{settle_payment-once}
use exbanka_3_backend.Payment.Verification.{verify_payment-ok, verify_all, verify_all-wrong}

abbrev account : ℕ → ℕ → Account
account id funds = record {
  id = id;
  broj_racuna = codes "333";
  client_id = some id;
  currency_id = 1;
  currency_kod = codes "RSD";
  raspolozivo_stanje = pos funds;
  stanje = pos funds;
  dnevni_limit = pos 10000;
  mesecni_limit = pos 100000;
  dnevna_potrosnja = pos 0;
  mesecna_potrosnja = pos 0;
  status = codes "aktivan";
}

abbrev payment : Payment
payment = record {
  id = 7;
  racun_posiljaoca_id = 1;
  racun_primaoca_id = some 2;
  racun_primaoca_broj = codes "333";
  iznos = pos 250;
  sifra_placanja = [];
  poziv_na_broj = [];
  svrha = [];
  status = u_obradi;
  verifikacioni_kod = codes "123456";
  verification_expires_at = some 1300;
  broj_pokusaja = 0;
  recipient_id = none;
  vreme_transakcije = 1000;
  created_at = 1000;
}

abbrev tables : Tables
tables = record {
  accounts = account 1 1000 ∷ account 2 40 ∷ account 3 5 ∷ [];
  payments = payment ∷ [];
  recipients = [];
  next_payment_id = 8;
  next_recipient_id = 1;
}

abbrev fine : Env
fine = record { now = 1100; fails = λ s. false }

abbrev is_credit : Stmt → Bool
is_credit Stmt.credit = true
is_credit _ = false

-- The credit of the receiver fails.
abbrev broken : Env
broken = record { now = 1100; fails = is_credit }

abbrev db : Transactions Tables Error
db = reliable (Error.database 0)

settle_goes_through : (settle_payment db fine payment tables).0 ≡ ok (settled payment)
unfolding settle_payment settle_checks find_receiver_account validate_payment_accounts settle_writes
    find_payment find_account text_eq ◌+ℤ◌
settle_goes_through = refl

settle_breaks : (settle_payment db broken payment tables).0 ≡ err Error.credit_failed
unfolding settle_payment settle_checks find_receiver_account validate_payment_accounts settle_writes
    find_payment find_account text_eq ◌+ℤ◌
settle_breaks = refl

settle_payment-err_example : (settle_payment db broken payment tables).1.accounts ≡ tables.accounts
settle_payment-err_example =
    settle_payment-err db broken payment tables Error.credit_failed settle_breaks

settle_payment-Moves_example :
    Moves 1 2 (pos 250) tables.accounts (settle_payment db fine payment tables).1.accounts
settle_payment-Moves_example =
    settle_payment-Moves db fine payment tables (settled payment) 2 refl (omega arith)
      settle_goes_through

receiver_is_another :
    (r : Account)
    → find_receiver_account payment tables ≡ some r
    → r.id ≢ payment.racun_posiljaoca_id
unfolding find_receiver_account find_account
receiver_is_another r h same =
    let e : account 2 40 ≡ r = cc in let at : 2 ≡ r.id = ap (λ a. a.id) e in omega arith

settle_payment-total_example :
    total_stanje (settle_payment db fine payment tables).1.accounts ≡ total_stanje tables.accounts
unfolding find_account
settle_payment-total_example =
    settle_payment-total db fine payment tables (refl, (refl, (refl, tt))) receiver_is_another

settle_payment-once_example :
    let t' = (settle_payment db fine payment tables).1 in
    (e : Error) × (settle_payment db broken payment t' ≡ (err e, t'))
settle_payment-once_example =
    settle_payment-once db fine broken payment payment (settled payment) tables settle_goes_through
      refl

verified : (verify_payment db fine 7 (codes " 123456 ") tables).0 ≡ ok (settled payment)
unfolding verify_payment settle_payment settle_checks find_receiver_account
    validate_payment_accounts settle_writes find_payment expires_at trim_space text_eq find_account
    ◌+ℤ◌
verified = refl

verify_payment-ok_example :
    (p : Payment) × (find_payment 7 tables.payments ≡ some p)
    × (is_pending p.status ≡ true)
    × (1100 ≤ expires_at p)
    × (p.verifikacioni_kod ≡ trim_space (codes " 123456 "))
    × (verify_payment db fine 7 (codes " 123456 ") tables ≡ settle_payment db fine p tables)
verify_payment-ok_example =
    verify_payment-ok db fine 7 (codes " 123456 ") tables (settled payment) verified

abbrev guesses : List (Env × Text)
guesses = (fine, codes "1") ∷ (fine, codes "2") ∷ (fine, codes "3") ∷ []

verify_all-wrong_example :
    (p' : Payment) × (find_payment 7 (verify_all db 7 guesses tables).payments ≡ some p')
    × (p'.status ≡ stornirano)
unfolding find_payment trim_space text_eq
verify_all-wrong_example =
    verify_all-wrong db 7 guesses tables payment refl refl (omega arith) (omega arith)
      ((refl, refl, refl), ((refl, refl, refl), ((refl, refl, refl), tt)))

faultless : IsFaultless db fine
faultless = ((λ s. refl), (λ body t h. keeps (body t) t h))

settle_payment-succeeds_example : (settle_payment db fine payment tables).0 ≡ ok (settled payment)
unfolding find_payment find_account find_receiver_account validate_payment_accounts text_eq ◌+ℤ◌
settle_payment-succeeds_example =
    settle_payment-succeeds db fine payment payment tables (account 1 1000) (account 2 40) faultless
      refl refl refl refl refl (omega arith) (omega arith) (omega arith)
