-- ===== src/InterbankPayment/Operations.antt =====
-- Every operation of the two sides of a payment keeps the books (exchange-service/internal/interbank/
-- payment_tx_processor.go, internal/handler/interbank_payment_http_handler.go).
use exbanka_3_backend.Prelude.{
  ℕ, ◌≡◌, refl, sym, ap, ◌∙◌, true, Option, none, some, List, arith, Bool-cases, inl, inr, ◌⊎◌,
}
use exbanka_3_backend.Prelude.Int.{ℤ, pos, ◌+ℤ◌, int_laws}
use exbanka_3_backend.Payment.{Account, update_fields}
use exbanka_3_backend.Payment.Accounts.{KeepsId}
use exbanka_3_backend.Interbank.Messages.{ForeignBankId}
use exbanka_3_backend.Interbank.Totals.{blocked}
use exbanka_3_backend.InterbankPayment.Models.{
  PaymentDirection, inbound, outbound, PaymentStatus, pending, committed, rolled_back, rejected,
  failed, unknown_status, unknown_direction, InterbankPayment, Tables, Stmt, Error, Env, is_pending,
  get_by_tx_id, update_pending, has_pending, as_committed, as_rolled_back, mark_cas,
}
use exbanka_3_backend.InterbankPayment.Wallet.{change_account, credit, credited}
use exbanka_3_backend.InterbankPayment.Receiver.{commit_body, rollback_body, stop_with}
use exbanka_3_backend.InterbankPayment.Books.{
  booked_as, held_as, KeepsTerms, HasAccount, has_pending-found, Linked-found,
}
use exbanka_3_backend.InterbankPayment.Keeps.{
  IsKept, Keeps, Keeps-refl, Keeps-trans, settled-Keeps, resolved-Keeps,
}

pub is_pending-eq : (s : PaymentStatus) → is_pending s ≡ true → s ≡ pending
is_pending-eq pending h = refl
is_pending-eq committed h = cc
is_pending-eq rolled_back h = cc
is_pending-eq rejected h = cc
is_pending-eq failed h = cc
is_pending-eq (unknown_status s) h = cc

pub with_zero : (a : ℤ) → a +ℤ pos 0 ≡ a
with_zero a = grind int_laws

booked-pending : (d : PaymentDirection) (x : ℤ) → booked_as d pending x ≡ pos 0
booked-pending inbound x = refl
booked-pending outbound x = refl
booked-pending (unknown_direction s) x = refl

pub mark_cas-cases :
    (env : Env) (key : ForeignBankId) (f : InterbankPayment → InterbankPayment)
    (otherwise : Option Error) (rest : Tables → Option Error × Tables) (t : Tables)
    → (mark_cas env key f otherwise rest t).0 ≡ none
    → ((mark_cas env key f otherwise rest t).1 ≡ t)
      ⊎ ((has_pending key t.payments ≡ true)
          × (mark_cas env key f otherwise rest t
              ≡ rest (record t { payments = update_pending key f t.payments })))
unfolding mark_cas
mark_cas-cases env key f otherwise rest t h = elim (Bool-cases (has_pending key t.payments)) [
  | inr over ↦ inl (ground arith)
  | inl pend ↦ inr (pend, ground arith)
]

pub change_account-none :
    (env : Env) (s : Stmt) (f : Account → Account) (k : ℕ) (t : Tables)
    → (change_account env s f k t).0 ≡ none
    → change_account env s f k t ≡ (none, record t { accounts = update_fields k f t.accounts })
unfolding change_account
change_account-none env s f k t h = ground arith

-- The row that a handler has in memory, and the one of the table.
pub record Snapshot (key : ForeignBankId) (d : PaymentDirection) (x : ℤ) (account : Option ℕ)
    (t : Tables) : Type 0 where
  pub row : InterbankPayment
  pub found : get_by_tx_id key t.payments ≡ some row
  pub same_direction : row.direction ≡ d
  pub same_amount : row.amount ≡ x
  pub same_account : row.local_account_id ≡ account

weigh :
    (h : PaymentDirection → PaymentStatus → ℤ → ℤ) (r : InterbankPayment) (d : PaymentDirection)
    (s : PaymentStatus) (x : ℤ)
    → r.direction ≡ d
    → r.status ≡ s
    → r.amount ≡ x
    → h r.direction r.status r.amount ≡ h d s x
weigh h r d s x on at much =
    ap (λ e. h e r.status r.amount) on ∙ ap (λ e. h d e r.amount) at ∙ ap (λ e. h d s e) much

named :
    {k : ℕ} (accounts : List Account) (o : Option ℕ)
    → o ≡ some k
    → HasAccount accounts o
    → HasAccount accounts (some k)
named accounts none e h = cc
named {k} accounts (some j) e (a, at) = let same : j ≡ k = ground arith in (a, rw (sym same) at)

found-pending :
    (key : ForeignBankId) (r : InterbankPayment) (t : Tables)
    → IsKept t
    → get_by_tx_id key t.payments ≡ some r
    → has_pending key t.payments ≡ true
    → r.status ≡ pending
found-pending key r t kept at h =
    let (p, found, pend) = has_pending-found key t.payments kept.1 h in
    let e : p.status ≡ r.status = ground (arith, at) in sym e ∙ is_pending-eq p.status pend

-- A body that resolves a pending row, changes its account and may stamp the row.
module _ (env : Env) (key : ForeignBankId) (d : PaymentDirection) (x : ℤ) (k : ℕ) (t : Tables)
    (kept : IsKept t) (now : Snapshot key d x (some k) t) where
  pending_row : has_pending key t.payments ≡ true → now.row.status ≡ pending
  pending_row = found-pending key now.row t kept now.found

  account_of : HasAccount t.accounts (some k)
  account_of =
      named t.accounts now.row.local_account_id now.same_account
        (Linked-found t.accounts key t.payments now.row kept.2 now.found)

  pub settling-Keeps :
      (g : InterbankPayment → InterbankPayment) (otherwise : Option Error)
      (rest : Tables → Option Error × Tables) (f : Account → Account) (after : Tables → Tables)
      → KeepsTerms g
      → KeepsId f
      → ((a : Account) → (f a).stanje ≡ a.stanje +ℤ booked_as d (g now.row).status x)
      → ((a : Account)
          → blocked (f a) +ℤ held_as d pending x ≡ blocked a +ℤ held_as d (g now.row).status x)
      → ((s : Tables) → IsKept s → Keeps s (after s))
      → ((s : Tables)
          → (rest s).0 ≡ none
          → rest s ≡ (none, after (record s { accounts = update_fields k f s.accounts })))
      → (mark_cas env key g otherwise rest t).0 ≡ none
      → Keeps t (mark_cas env key g otherwise rest t).1
  settling-Keeps g otherwise rest f after terms ids on_books on_hold afterwards done h =
      elim (mark_cas-cases env key g otherwise rest t h) [
        | inl same ↦ rw same (Keeps-refl t kept)
        | inr (pend, e) ↦
            let p = now.row in
            let (a, at) = account_of in
            let t₁ = record t { payments = update_pending key g t.payments } in
            let t₂ = record t₁ { accounts = update_fields k f t.accounts } in
            let s = pending_row pend in
            let on = now.same_direction in
            let much = now.same_amount in
            let on' = (terms p).2 ∙ on in
            let much' = (terms p).3 ∙ much in
            let books = weigh booked_as p d pending x on s much ∙ booked-pending d x in
            let books' = weigh booked_as (g p) d (g p).status x on' refl much' in
            let hold = weigh held_as p d pending x on s much in
            let hold' = weigh held_as (g p) d (g p).status x on' refl much' in
            let first : Keeps t t₂ =
              settled-Keeps t kept key p g terms now.found (ap is_pending s) k f a ids at
                (ap (λ v. (f a).stanje +ℤ v) books
                  ∙ with_zero (f a).stanje
                  ∙ on_books a
                  ∙ ap (λ v. a.stanje +ℤ v) (sym books'))
                (ap (λ v. blocked (f a) +ℤ v) hold
                  ∙ on_hold a
                  ∙ ap (λ v. blocked a +ℤ v) (sym hold')) in
            rw (ap (λ r. r.1) (e ∙ done t₁ (sym (ap (λ r. r.0) e) ∙ h)))
              (Keeps-trans t t₂ (after t₂) first (afterwards t₂ first.0))
      ]

  pub after_it : (s : Tables) → IsKept s → Keeps s s
  after_it s = Keeps-refl s

  pub commit_body-Keeps :
      (p : InterbankPayment)
      → d ≡ inbound
      → p.amount ≡ x
      → (commit_body env key k p t).0 ≡ none
      → Keeps t (commit_body env key k p t).1
  unfolding commit_body credit credited as_committed
  commit_body-Keeps p inward much =
      settling-Keeps as_committed (some Error.already_resolved) (credit env k p.amount)
        (credited p.amount) (λ s. s) (λ r. (refl, refl, refl, refl)) (λ a. refl)
        (λ a. rw (inward, sym much) refl) (λ a. rw inward (grind int_laws)) after_it
        (λ s. change_account-none env Stmt.credit_funds (credited p.amount) k s)

-- A rollback of an inbound payment changes no account.
pub rollback_body-Keeps :
    (env : Env) (key : ForeignBankId) (p : InterbankPayment) (t : Tables)
    → IsKept t
    → get_by_tx_id key t.payments ≡ some p
    → p.direction ≡ inbound
    → (rollback_body env key t).0 ≡ none
    → Keeps t (rollback_body env key t).1
unfolding rollback_body as_rolled_back
rollback_body-Keeps env key p t kept found on h =
    let otherwise = some Error.already_resolved in
    elim (mark_cas-cases env key as_rolled_back otherwise (stop_with none) t h) [
      | inl same ↦ rw same (Keeps-refl t kept)
      | inr (pend, e) ↦
          let s = found-pending key p t kept found pend in
          rw (ap (λ r. r.1) e) (
            resolved-Keeps t kept key p as_rolled_back (λ r. (refl, refl, refl, refl)) found
              (ap is_pending s)
              (weigh booked_as p inbound pending p.amount on s refl
                ∙ sym
                    (weigh booked_as (as_rolled_back p) inbound rolled_back p.amount on refl refl))
              (weigh held_as p inbound pending p.amount on s refl
                ∙ sym (weigh held_as (as_rolled_back p) inbound rolled_back p.amount on refl refl)))
    ]
