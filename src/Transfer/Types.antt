-- ===== src/Transfer/Types.antt =====
-- The rows and the errors of transfer-service (internal/models, internal/service/
-- transfer_service.go). The accounts are the table that the services share.
use exbanka_3_backend.Prelude.{ℕ, List, Bool}
use exbanka_3_backend.Prelude.Int.{ℤ}
use exbanka_3_backend.Prelude.Text.{Text}
use exbanka_3_backend.Payment.{Account}

pub data TransferStatus : Type 0 where
  u_obradi uspesno stornirano : TransferStatus
  other_status : Text → TransferStatus

-- Less the columns that no decision reads: the rate, the percentage, the purpose, the codes and the
-- time stamps. `iznos_rsd`, which is not rounded, is in units of 1e-8 RSD.
pub record Transfer : Type 0 where
  pub id : ℕ
  pub racun_posiljaoca_id : ℕ
  pub racun_primaoca_id : ℕ
  pub iznos : ℤ
  pub valuta_iznosa : Text
  pub konvertovani_iznos : ℤ
  pub iznos_rsd : ℕ
  pub provizija : ℤ
  pub status : TransferStatus

-- `firma_accounts`: the ids of the accounts whose `firma_id` is set, to a firma that is not the state.
pub record Tables : Type 0 where
  pub accounts : List Account
  pub firma_accounts : List ℕ
  pub transfers : List Transfer

-- The statements that the database can refuse.
pub data Stmt : Type 0 where
  lock_transfer load_account lock_sender lock_receiver find_bank update_account : Stmt
  complete_transfer create_transfer load_transfer save_transfer : Stmt

-- The codes of `TransferVerificationError`.
pub data Code : Type 0 where
  transfer_already_processed transfer_ownership_mismatch insufficient_balance : Code
  daily_limit_exceeded monthly_limit_exceeded transfer_not_pending : Code

pub data Error : Type 0 where
  database : Stmt → Error
  verification : Code → TransferStatus → Error
  -- The errors of `prepareTransfer`, and of a missing bank account.
  amount_not_positive same_account not_the_same_client balance_too_low over_daily_limit : Error
  over_monthly_limit no_rate no_bank_account : Error
  connection : ℕ → Error

pub record Env : Type 0 where
  pub fails : Stmt → Bool

pub record CreateTransferInput : Type 0 where
  pub racun_posiljaoca_id : ℕ
  pub racun_primaoca_id : ℕ
  pub iznos : ℤ

-- `TransferPreview`, less the input and the rate.
pub record TransferPreview : Type 0 where
  pub valuta_iznosa : Text
  pub konvertovani_iznos : ℤ
  pub iznos_rsd : ℕ
  pub provizija : ℤ
