-- ===== src/Payment/Types.antt =====
-- The rows of payment-service (internal/models/account.go, payment.go), its errors, and the tables.
-- Amounts are hundredths of a dinar, as integers; times are seconds.
use exbanka_3_backend.Prelude.{ℕ, Bool, Option, List}
use exbanka_3_backend.Prelude.Int.{ℤ}
use exbanka_3_backend.Prelude.Text.{Text}

pub record Account : Type 0 where
  pub id : ℕ
  pub broj_racuna : Text
  pub client_id : Option ℕ
  pub currency_id : ℕ
  pub currency_kod : Text
  pub raspolozivo_stanje : ℤ
  pub stanje : ℤ
  pub dnevni_limit : ℤ
  pub mesecni_limit : ℤ
  pub dnevna_potrosnja : ℤ
  pub mesecna_potrosnja : ℤ
  pub status : Text

pub data PaymentStatus : Type 0 where
  u_obradi uspesno neuspesno stornirano : PaymentStatus

pub record Payment : Type 0 where
  pub id : ℕ
  pub racun_posiljaoca_id : ℕ
  pub racun_primaoca_id : Option ℕ
  pub racun_primaoca_broj : Text
  pub iznos : ℤ
  pub sifra_placanja : Text
  pub poziv_na_broj : Text
  pub svrha : Text
  pub status : PaymentStatus
  pub verifikacioni_kod : Text
  pub verification_expires_at : Option ℕ
  pub broj_pokusaja : ℕ
  pub recipient_id : Option ℕ
  pub vreme_transakcije : ℕ
  pub created_at : ℕ

pub record PaymentRecipient : Type 0 where
  pub id : ℕ
  pub client_id : ℕ
  pub naziv : Text
  pub broj_racuna : Text

pub record Tables : Type 0 where
  pub accounts : List Account
  pub payments : List Payment
  pub recipients : List PaymentRecipient
  pub next_payment_id : ℕ
  pub next_recipient_id : ℕ

-- `PaymentVerificationError.Code`.
pub data Code : Type 0 where
  payment_not_pending verification_code_expired verification_attempts_exceeded : Code
  invalid_verification_code payment_already_processed unsupported_payment_currency : Code
  insufficient_balance daily_limit_exceeded monthly_limit_exceeded : Code
  verification_code_unavailable : Code

pub data Error : Type 0 where
  -- `PaymentVerificationError`: its code, status and attempts remaining.
  verification : Code → PaymentStatus → ℕ → Error
  amount_not_positive payment_not_found sender_not_found receiver_not_found same_account : Error
  sender_inactive receiver_inactive cross_currency not_rsd : Error
  balance_too_low daily_limit monthly_limit : Error
  create_failed send_failed deduct_failed credit_failed update_failed unsupported_mode : Error
  -- An error of the database's own, such as a failed commit.
  database : ℕ → Error

-- The statements of a request that the database can refuse.
pub data Stmt : Type 0 where
  read_payment read_sender read_receiver write_recipient insert_row write_payment : Stmt
  lock_payment lock_sender lock_receiver deduct credit update_status : Stmt

-- What a request meets: the time, and the statements that fail.
pub record Env : Type 0 where
  pub now : ℕ
  pub fails : Stmt → Bool
