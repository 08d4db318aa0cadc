-- ===== src/InterbankPayment/Recorded.antt =====
-- New payment rows on a locked account keep the books (exchange-service/internal/interbank/
-- payment_tx_processor.go, internal/handler/interbank_payment_http_handler.go).
use exbanka_3_backend.Prelude.{
  ℕ, not, ℕ, ◌≡◌, refl, sym, ap, ◌∙◌, true, Option, none, some, List, ◌∷◌, arith, Bool-cases, inl,
  inr,
}
use exbanka_3_backend.Prelude.Int.{ℤ, pos, leb_ℤ}
use exbanka_3_backend.Prelude.Text.{Text, codes, text_eq}
use exbanka_3_backend.Prelude.Db.{next-none, ◌>>>◌}
use exbanka_3_backend.Prelude.Except.{ok, err, Except, or_fail, >>=-eq-ok, fail_if-eq-ok}
use exbanka_3_backend.Payment.{Account, find_account, find_by_broj_racuna, update_fields}
use exbanka_3_backend.Payment.Accounts.{broj_racuna-found, UniqueIds, find-update_self}
use exbanka_3_backend.Interbank.Messages.{ForeignBankId, Transaction}
use exbanka_3_backend.Interbank.Wallet.{taken, owned_by}
use exbanka_3_backend.Interbank.Totals.{covers-found, taken-id}
use exbanka_3_backend.InterbankPayment.Models.{
  InterbankPayment, Tables, Stmt, Error, Env, key_of, get_by_tx_id, create_tx,
}
use exbanka_3_backend.Interbank.Steps.{or_fail-eq-ok}
use exbanka_3_backend.InterbankPayment.Wallet.{lock_by_number, reserve}
use exbanka_3_backend.InterbankPayment.Shape.{PaymentTx}
use exbanka_3_backend.InterbankPayment.Receiver.{inbound_row, record_locked, record_body}
use exbanka_3_backend.InterbankPayment.Sender.{
  Request, outbound_row, reserve_locked, refusing, prepare_body,
}
use exbanka_3_backend.InterbankPayment.Books.{booked, held, HasAccount}
use exbanka_3_backend.InterbankPayment.Keeps.{IsKept, Keeps, Keeps-refl}
use exbanka_3_backend.InterbankPayment.Created.{created-Keeps, reserved-Keeps}

abbrev value_of : Except Error Account → Option Account
value_of (ok a) = some a
value_of (err e) = none

pub lock_by_number-found :
    (env : Env) (n currency : Text) (t : Tables) (a : Account)
    → UniqueIds t.accounts
    → lock_by_number env n currency t ≡ ok a
    → find_account a.id t.accounts ≡ some a
unfolding lock_by_number
lock_by_number-found env n currency t a u h =
    let (go, h₁) =
      fail_if-eq-ok (env.fails Stmt.lock_account) (Error.database Stmt.lock_account) _ h in
    let (b, found, h₂) =
      >>=-eq-ok (or_fail (find_by_broj_racuna n t.accounts) Error.no_such_account) _ h₁ in
    let (active, h₃) =
      fail_if-eq-ok (not (text_eq b.status (codes "aktivan"))) Error.account_inactive _ h₂ in
    let (match, h₄) =
      fail_if-eq-ok (not (text_eq b.currency_kod currency)) Error.currency_mismatch _ h₃ in
    broj_racuna-found n t.accounts a u (or_fail-eq-ok _ _ found ∙ ap value_of h₄)

pub create_tx-none :
    (env : Env) (row : InterbankPayment) (t : Tables)
    → (create_tx env row t).0 ≡ none
    → create_tx env row t ≡ (none, record t { payments = row ∷ t.payments })
unfolding create_tx
create_tx-none env row t h = ground arith

pub reserve-found :
    (env : Env) (k : ℕ) (x : ℤ) (t : Tables)
    → UniqueIds t.accounts
    → (reserve env k x t).0 ≡ none
    → (a : Account) × (find_account k t.accounts ≡ some a)
      × (leb_ℤ x a.raspolozivo_stanje ≡ true)
      × (reserve env k x t ≡ (none, record t { accounts = update_fields k (taken x) t.accounts }))
unfolding reserve
reserve-found env k x t u h =
    let (a, found, enough) = covers-found k x t.accounts u (ground arith) in
    (a, found, enough, ground arith)

pub refusing-none :
    (r : Option Error × Tables) → (refusing r).0 ≡ none → (r.0 ≡ none) × (refusing r ≡ r)
refusing-none (none, t) h = (refl, refl)
refusing-none (some e, t) h = cc

there :
    {k : ℕ} (accounts : List Account) (o : Option ℕ)
    → o ≡ some k
    → HasAccount accounts (some k)
    → HasAccount accounts o
there accounts none e h = tt
there {k} accounts (some j) e (a, at) = let same : j ≡ k = ground arith in (a, rw same at)

module _ (env : Env) (t : Tables) (kept : IsKept t) where
  record_locked-Keeps :
      (partner : ℕ) (tx : Transaction) (parsed : PaymentTx) (lock : Except Error Account)
      → get_by_tx_id tx.transaction_id t.payments ≡ none
      → lock_by_number env parsed.recipient_account parsed.currency t ≡ lock
      → (record_locked env partner tx parsed t lock).0 ≡ none
      → Keeps t (record_locked env partner tx parsed t lock).1
  unfolding inbound_row
  record_locked-Keeps partner tx parsed (err e) fresh locked h = cc
  record_locked-Keeps partner tx parsed (ok a) fresh locked h =
      let row = inbound_row partner tx parsed a.id in
      let at =
        lock_by_number-found env parsed.recipient_account parsed.currency t a kept.0 locked in
      rw (ap (λ r. r.1) (create_tx-none env row t h))
        (created-Keeps t kept row fresh refl (a, at) refl)

  -- The body of OnNewTx, on a transaction that has no row.
  pub record_body-Keeps :
      (partner : ℕ) (tx : Transaction) (parsed : PaymentTx)
      → get_by_tx_id tx.transaction_id t.payments ≡ none
      → (record_body env partner tx parsed t).0 ≡ none
      → Keeps t (record_body env partner tx parsed t).1
  unfolding record_body
  record_body-Keeps partner tx parsed fresh h = record_locked-Keeps partner tx parsed _ fresh refl h

  reserved_row-Keeps :
      (k : ℕ) (row : InterbankPayment)
      → get_by_tx_id (key_of row) t.payments ≡ none
      → booked row ≡ pos 0
      → held row ≡ row.amount
      → row.local_account_id ≡ some k
      → (((λ s. refusing (reserve env k row.amount s)) >>> create_tx env row) t).0 ≡ none
      → Keeps t (((λ s. refusing (reserve env k row.amount s)) >>> create_tx env row) t).1
  reserved_row-Keeps k row fresh nothing all_held on h =
      let (reserved, next) =
        next-none (refusing (reserve env k row.amount t)) (create_tx env row) h in
      let (fine, plain) = refusing-none (reserve env k row.amount t) reserved in
      let (a, at, enough, done) = reserve-found env k row.amount t kept.0 fine in
      let to_create = next ∙ ap (λ r. create_tx env row r.1) (plain ∙ done) in
      let t₁ = record t { accounts = update_fields k (taken row.amount) t.accounts } in
      let e = create_tx-none env row t₁ (sym (ap (λ r. r.0) to_create) ∙ h) in
      let still = find-update_self k (taken row.amount) t.accounts a (taken-id row.amount) at in
      rw (ap (λ r. r.1) (to_create ∙ e)) (
        reserved-Keeps t kept row fresh nothing k row.amount a at enough
          (there t₁.accounts row.local_account_id on (taken row.amount a, still)) all_held)

  reserve_locked-Keeps :
      (key : ForeignBankId) (partner : ℤ) (q : Request) (lock : Except Error Account)
      → get_by_tx_id key t.payments ≡ none
      → (reserve_locked env key partner q t lock).0 ≡ none
      → Keeps t (reserve_locked env key partner q t lock).1
  unfolding outbound_row
  reserve_locked-Keeps key partner q (err e) fresh h = cc
  reserve_locked-Keeps key partner q (ok a) fresh h =
      elim (Bool-cases (owned_by q.client_id a.client_id)) [
        | inr foreign ↦ rw foreign (Keeps-refl t kept)
        | inl own ↦ rw own (
            reserved_row-Keeps a.id (outbound_row key partner q a.id) fresh refl refl refl
              (ground arith))
      ]

  -- The body that prepares a payment, under a new transaction.
  pub prepare_body-Keeps :
      (key : ForeignBankId) (partner : ℤ) (q : Request)
      → get_by_tx_id key t.payments ≡ none
      → (prepare_body env key partner q t).0 ≡ none
      → Keeps t (prepare_body env key partner q t).1
  unfolding prepare_body
  prepare_body-Keeps key partner q fresh h = reserve_locked-Keeps key partner q _ fresh h
