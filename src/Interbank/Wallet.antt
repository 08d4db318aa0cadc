-- ===== src/Interbank/Wallet.antt =====
-- InterbankWalletRepository (exchange-service/internal/repository/interbank_wallet_repository.go):
-- the cash of a local client, by the opaque id that the protocol carries.
use exbanka_3_backend.Prelude.{
  ℕ, ◌+◌, ◌-◌, ◌*◌, ◌==◌, ltb, leb, Bool, false, ◌&&◌, ◌||◌, Option, none, some, List, [], ◌∷◌,
  if◌then◌else◌,
}
use exbanka_3_backend.Prelude.Int.{ℤ, ◌+ℤ◌, ◌-ℤ◌, leb_ℤ}
use exbanka_3_backend.Prelude.Text.{Text, codes, text_eq}
use exbanka_3_backend.Prelude.Except.{Except, ok, err, ◌>>=◌, ◌>>◌, fail_if, or_fail}
use exbanka_3_backend.Payment.{Account}
use exbanka_3_backend.Payment.{update_fields}
use exbanka_3_backend.Interbank.Models.{Tables, Stmt, Error, Env}
use exbanka_3_backend.Numbers.Digits.{is_digit}

-- `strconv.ParseUint(s, 10, 64)`: some decimal digits, of a value below 2^64.
unfoldable pub uint_from : ℕ → Text → Option ℕ
uint_from n [] = some n
uint_from n (c ∷ cs) =
    let rest = uint_from (n * 10 + (c - b'0')) cs in if is_digit c then rest else none

abbrev pub in_64_bits : Option ℕ → Option ℕ
in_64_bits none = none
in_64_bits (some n) = if ltb n 18446744073709551616 then some n else none

abbrev pub parse_uint : Text → Option ℕ
parse_uint [] = none
parse_uint (c ∷ cs) = in_64_bits (uint_from 0 (c ∷ cs))

-- What follows a prefix.
abbrev pub after_prefix : Text → Text → Option Text
after_prefix [] s = some s
after_prefix (c ∷ cs) [] = none
after_prefix (c ∷ cs) (x ∷ xs) = let rest = after_prefix cs xs in if c == x then rest else none

abbrev pub option_bind : {A B : Type 0} → Option A → (A → Option B) → Option B
option_bind none f = none
option_bind (some a) f = f a

-- `parseClientLocalID`: "client-" and a number; the text before the first dash has no dash.
unfoldable pub parse_client_local_id : Text → Option ℕ
parse_client_local_id s = option_bind (after_prefix (codes "client-") s) parse_uint

abbrev pub owned_by : ℕ → Option ℕ → Bool
owned_by client none = false
owned_by client (some k) = k == client

unfoldable pub eligible : ℕ → Text → Account → Bool
eligible client currency a =
    owned_by client a.client_id
    && text_eq a.currency_kod currency
    && text_eq a.status (codes "aktivan")

abbrev pub smaller : ℕ → Option ℕ → Option ℕ
smaller k none = some k
smaller k (some j) = if leb k j then some k else some j

-- The least id of an eligible account: `Order("accounts.id").Limit(1)`.
unfoldable pub first_eligible : ℕ → Text → List Account → Option ℕ
first_eligible client currency [] = none
first_eligible client currency (a ∷ rows) =
    let rest = first_eligible client currency rows in
    if eligible client currency a then smaller a.id rest else rest

-- `lockClientAccount`.
unfoldable pub lock_client_account : Env → Text → Text → Tables → Except Error ℕ
lock_client_account env local_id currency t = do
  client ← or_fail (parse_client_local_id local_id) Error.wallet_insufficient
  fail_if (env.fails Stmt.lock_account) (Error.database Stmt.lock_account)
  or_fail (first_eligible client currency t.accounts) Error.wallet_insufficient

abbrev pub with_account :
    Except Error ℕ → (ℕ → Tables → Option Error × Tables) → Tables → Option Error × Tables
with_account (err e) k t = (some e, t)
with_account (ok a) k t = k a t

-- `UPDATE accounts SET ... WHERE id = ?`.
abbrev pub update_account : Env → Stmt → (Account → Account) → ℕ → Tables → Option Error × Tables
update_account env s f k t =
    if env.fails s
    then (some (Error.database s), t)
    else (none, record t { accounts = update_fields k f t.accounts })

-- Whether an account of the id covers an amount: the rows that the reservation affects.
unfoldable pub covers : ℕ → ℤ → List Account → Bool
covers k x [] = false
covers k x (a ∷ rows) =
    let rest = covers k x rows in ((a.id == k) && leb_ℤ x a.raspolozivo_stanje) || rest

unfoldable pub taken : ℤ → Account → Account
taken x a =
    if leb_ℤ x a.raspolozivo_stanje
    then record a { raspolozivo_stanje = a.raspolozivo_stanje -ℤ x }
    else a

unfoldable pub reserve_at : Env → ℤ → ℕ → Tables → Option Error × Tables
reserve_at env x k t =
    if env.fails Stmt.reserve_funds
    then (some (Error.database Stmt.reserve_funds), t)
    else if covers k x t.accounts
    then (none, record t { accounts = update_fields k (taken x) t.accounts })
    else (some Error.wallet_insufficient, t)

-- `Reserve`.
unfoldable pub reserve : Env → Text → Text → ℤ → Tables → Option Error × Tables
reserve env local_id currency x t =
    with_account (lock_client_account env local_id currency t) (reserve_at env x) t

unfoldable pub spent : ℤ → Account → Account
spent x a = record a { stanje = a.stanje -ℤ x }

-- `Debit`.
unfoldable pub debit : Env → Text → Text → ℤ → Tables → Option Error × Tables
debit env local_id currency x t =
    with_account (lock_client_account env local_id currency t)
      (update_account env Stmt.debit_funds (spent x)) t

unfoldable pub refunded : ℤ → Account → Account
refunded x a = record a { raspolozivo_stanje = a.raspolozivo_stanje +ℤ x }

-- `Release`.
unfoldable pub release : Env → Text → Text → ℤ → Tables → Option Error × Tables
release env local_id currency x t =
    with_account (lock_client_account env local_id currency t)
      (update_account env Stmt.release_funds (refunded x)) t
