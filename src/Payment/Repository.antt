-- ===== src/Payment/Repository.antt =====
-- The reads and writes of payment-service (internal/repository/account_repo.go, payment_repo.go) on
-- the tables. A read takes the first row that its condition admits; an update changes each such row.
-- `id` and `broj_racuna` are unique in the accounts, so that the order of the rows does not matter.
use exbanka_3_backend.Prelude.{ℕ, Option, none, some, List, [], ◌∷◌, ◌==◌, if◌then◌else◌}
use exbanka_3_backend.Prelude.Text.{Text, text_eq}
use exbanka_3_backend.Payment.Types.{Account, Payment, Tables, Env, Stmt}

unfoldable pub find_account : ℕ → List Account → Option Account
find_account k [] = none
find_account k (a ∷ rest) = if a.id == k then some a else find_account k rest

unfoldable pub find_by_broj_racuna : Text → List Account → Option Account
find_by_broj_racuna n [] = none
find_by_broj_racuna n (a ∷ rest) =
    if text_eq a.broj_racuna n then some a else find_by_broj_racuna n rest

unfoldable pub update_fields : ℕ → (Account → Account) → List Account → List Account
update_fields k f [] = []
update_fields k f (a ∷ rest) = (if a.id == k then f a else a) ∷ update_fields k f rest

unfoldable pub find_payment : ℕ → List Payment → Option Payment
find_payment k [] = none
find_payment k (p ∷ ps) = if p.id == k then some p else find_payment k ps

unfoldable pub update_payment : ℕ → (Payment → Payment) → List Payment → List Payment
update_payment k f [] = []
update_payment k f (p ∷ ps) = (if p.id == k then f p else p) ∷ update_payment k f ps

-- `PaymentRepository.Save`, whose error the callers drop: the row is written unless it fails.
unfoldable pub save_payment : Env → Payment → Tables → Tables
save_payment env p t =
    if env.fails Stmt.write_payment
    then t
    else record t { payments = update_payment p.id (λ _. p) t.payments }
