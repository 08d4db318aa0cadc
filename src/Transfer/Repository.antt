-- ===== src/Transfer/Repository.antt =====
-- The reads and writes of transfer-service (internal/repository/account_repo.go, transfer_repo.go).
use exbanka_3_backend.Prelude.{
  ℕ, ◌==◌, ◌≡◌, Bool, true, false, not, ◌&&◌, ◌||◌, Option, none, some, List, [], ◌∷◌,
  if◌then◌else◌,
}
use exbanka_3_backend.Prelude.Text.{Text, text_eq}
use exbanka_3_backend.Prelude.Except.{Except, ◌>>=◌, ◌>>◌, fail_if, or_fail, read}
use exbanka_3_backend.Payment.{Account, find_account, update_fields}
use exbanka_3_backend.Payment.Accounts.{UniqueIds}
use exbanka_3_backend.Transfer.Types.{Transfer, Tables, Stmt, Error, Env}

unfoldable pub is_firma : ℕ → List ℕ → Bool
is_firma k [] = false
is_firma k (j ∷ ids) = let rest = is_firma k ids in (j == k) || rest

abbrev pub is_set : Option ℕ → Bool
is_set none = false
is_set (some n) = true

-- The `Where` of the bank's own account in a currency.
unfoldable pub is_bank_account : Text → List ℕ → Account → Bool
is_bank_account kod firmas a =
    text_eq a.currency_kod kod && is_firma a.id firmas && not (is_set a.client_id)

-- `Pluck("accounts.id", &id)` of gorm: the id of one of the rows that the condition admits, if any,
-- where `id` is the primary key.
pub record Pluck : Type 0 where
  pub pluck : (Account → Bool) → List Account → Option ℕ
  pub admitted :
      (test : Account → Bool) (rows : List Account) (k : ℕ)
      → UniqueIds rows
      → pluck test rows ≡ some k
      → (a : Account) × (find_account k rows ≡ some a) × (test a ≡ true)

-- `FindByIDForUpdate`.
abbrev pub find_by_id_for_update : Env → Stmt → ℕ → Tables → Except Error Account
find_by_id_for_update env s k t = read (env.fails s) (find_account k t.accounts) (Error.database s)

-- `FindBankAccountByCurrencyForUpdate`.
unfoldable pub find_bank_account : Pluck → Env → Text → Tables → Except Error Account
find_bank_account gorm env kod t = do
  fail_if (env.fails Stmt.find_bank) (Error.database Stmt.find_bank)
  k ← or_fail (gorm.pluck (is_bank_account kod t.firma_accounts) t.accounts) Error.no_bank_account
  find_by_id_for_update env Stmt.find_bank k t

-- `UpdateFieldsTx`.
unfoldable pub update_fields_tx : Env → ℕ → (Account → Account) → Tables → Option Error × Tables
update_fields_tx env k f t =
    if env.fails Stmt.update_account
    then (some (Error.database Stmt.update_account), t)
    else (none, record t { accounts = update_fields k f t.accounts })

unfoldable pub find_transfer : ℕ → List Transfer → Option Transfer
find_transfer k [] = none
find_transfer k (r ∷ rows) = if r.id == k then some r else find_transfer k rows

unfoldable pub update_transfer : ℕ → (Transfer → Transfer) → List Transfer → List Transfer
update_transfer k f [] = []
update_transfer k f (r ∷ rows) = (if r.id == k then f r else r) ∷ update_transfer k f rows
