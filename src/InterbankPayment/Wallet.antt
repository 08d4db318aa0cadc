-- ===== src/InterbankPayment/Wallet.antt =====
-- InterbankPaymentWalletRepository (exchange-service/internal/repository/
-- interbank_payment_repository.go): the account that a payment names by its number.
use exbanka_3_backend.Prelude.{ℕ, not, Option, none, some, if◌then◌else◌}
use exbanka_3_backend.Prelude.Int.{ℤ, ◌+ℤ◌}
use exbanka_3_backend.Prelude.Text.{Text, codes, text_eq}
use exbanka_3_backend.Prelude.Except.{Except, ok, ◌>>=◌, ◌>>◌, fail_if, or_fail}
use exbanka_3_backend.Payment.{Account, find_by_broj_racuna, update_fields}
use exbanka_3_backend.Interbank.Wallet.{covers, taken, spent, refunded}
use exbanka_3_backend.InterbankPayment.Models.{Tables, Stmt, Error, Env}

-- `LockByNumber`. The currency of an account's `currency_id` is there, and `currency_kod` is its code.
unfoldable pub lock_by_number : Env → Text → Text → Tables → Except Error Account
lock_by_number env broj_racuna currency t = do
  fail_if (env.fails Stmt.lock_account) (Error.database Stmt.lock_account)
  a ← or_fail (find_by_broj_racuna broj_racuna t.accounts) Error.no_such_account
  fail_if (not (text_eq a.status (codes "aktivan"))) Error.account_inactive
  fail_if (not (text_eq a.currency_kod currency)) Error.currency_mismatch
  ok a

-- `UPDATE accounts SET ... WHERE id = ?`; that no account has the id is not an error.
unfoldable pub change_account :
    Env → Stmt → (Account → Account) → ℕ → Tables → Option Error × Tables
change_account env s f k t =
    if env.fails s
    then (some (Error.database s), t)
    else (none, record t { accounts = update_fields k f t.accounts })

-- `Reserve`.
unfoldable pub reserve : Env → ℕ → ℤ → Tables → Option Error × Tables
reserve env k x t =
    if env.fails Stmt.reserve_funds
    then (some (Error.database Stmt.reserve_funds), t)
    else if covers k x t.accounts
    then (none, record t { accounts = update_fields k (taken x) t.accounts })
    else (some Error.insufficient_funds, t)

-- `Debit`.
unfoldable pub debit : Env → ℕ → ℤ → Tables → Option Error × Tables
debit env k x = change_account env Stmt.debit_funds (spent x) k

-- `Release`.
unfoldable pub release : Env → ℕ → ℤ → Tables → Option Error × Tables
release env k x = change_account env Stmt.release_funds (refunded x) k

unfoldable pub credited : ℤ → Account → Account
credited x a = record a { stanje = a.stanje +ℤ x; raspolozivo_stanje = a.raspolozivo_stanje +ℤ x }

-- `Credit`.
unfoldable pub credit : Env → ℕ → ℤ → Tables → Option Error × Tables
credit env k x = change_account env Stmt.credit_funds (credited x) k
