-- ===== src/InterbankPayment/Follows.antt =====
-- Each operation on a bank's payments takes a step of the protocol or none (exchange-service/internal/
-- interbank/payment_tx_processor.go, internal/handler/interbank_payment_http_handler.go).
use exbanka_3_backend.Prelude.{
  ℕ, ◌≡◌, refl, sym, ap, ◌∙◌, Option, none, some, ◌∷◌, arith, if◌then◌else◌, Bool-cases, inl, inr,
  ◌⊎◌,
}
use exbanka_3_backend.Prelude.Int.{ℤ}
use exbanka_3_backend.Prelude.Text.{Text}
use exbanka_3_backend.Prelude.Db.{next-none, ◌>>>◌}
use exbanka_3_backend.Prelude.Except.{Except, ok, err}
use exbanka_3_backend.Payment.{Account}
use exbanka_3_backend.Interbank.Messages.{ForeignBankId, Transaction, same_foreign_bank_id}
use exbanka_3_backend.Interbank.Wallet.{spent, refunded, owned_by}
use exbanka_3_backend.InterbankPayment.Models.{
  PaymentStatus, pending, committed, rolled_back, rejected, failed, InterbankPayment, Tables, Stmt,
  Error, Env, key_of, get_by_tx_id, create_tx, as_committed, as_rolled_back, as_rejected, as_failed,
  mark_cas, mark_partner_finalised, inbound,
}
use exbanka_3_backend.InterbankPayment.Wallet.{
  change_account, debit, release, credit, credited, reserve,
}
use exbanka_3_backend.InterbankPayment.Shape.{PaymentTx}
use exbanka_3_backend.InterbankPayment.Receiver.{
  inbound_row, record_locked, record_body, commit_body, rollback_body, stop_with,
}
use exbanka_3_backend.InterbankPayment.Sender.{
  Request, outbound_row, refusing, reserve_locked, prepare_body, finalise_commit_body,
  finalise_rejected_body, finalise_failed_body,
}
use exbanka_3_backend.InterbankPayment.Books.{KeepsTerms}
use exbanka_3_backend.InterbankPayment.Operations.{mark_cas-cases, change_account-none}
use exbanka_3_backend.InterbankPayment.Recorded.{create_tx-none, refusing-none}
use exbanka_3_backend.InterbankPayment.Finalised.{stamp_release}
use exbanka_3_backend.InterbankPayment.Sequences.{
  Operation, new_tx, commit_tx, rollback_tx, prepares, commits, rejects, fails,
}
use exbanka_3_backend.InterbankPayment.Protocol.{begins, resolves, resolves_inbound, protocol}
use exbanka_3_backend.InterbankPayment.Views.{
  same_id, view, SetsStatus, view-update, view-cons, view-stamped, resolves-inbound,
}

-- No transaction changes its state, or each does as the protocol says.
abbrev pub Follows : Operation → Tables → Tables → Type 0
Follows op t t' =
    ((key : ForeignBankId) → view key t'.payments ≡ view key t.payments)
    ⊎ ((key : ForeignBankId) → view key t'.payments ≡ protocol op key (view key t.payments))

pub Follows-refl : (op : Operation) (t : Tables) → Follows op t t
Follows-refl op t = inl (λ key. refl)

-- A rest of a body that changes no status.
abbrev Rests : (Tables → Option Error × Tables) → Type 0
Rests rest =
    (s : Tables)
    → (rest s).0 ≡ none
    → (key : ForeignBankId) → view key (rest s).1.payments ≡ view key s.payments

abbrev Resolved : ForeignBankId → PaymentStatus → Tables → Tables → Type 0
Resolved k new t t' =
    (key : ForeignBankId)
    → view key t'.payments ≡ (
        if same_foreign_bank_id k key
        then resolves new (view key t.payments)
        else view key t.payments)

reserve-payments :
    (env : Env) (k : ℕ) (x : ℤ) (t : Tables)
    → (reserve env k x t).0 ≡ none
    → (reserve env k x t).1.payments ≡ t.payments
unfolding reserve
reserve-payments env k x t h = ground arith

module _ (env : Env) (t : Tables) where
  marked :
      (k : ForeignBankId) (new : PaymentStatus) (g : InterbankPayment → InterbankPayment)
      (otherwise : Option Error) (rest : Tables → Option Error × Tables)
      → KeepsTerms g
      → SetsStatus new g
      → Rests rest
      → (mark_cas env k g otherwise rest t).0 ≡ none
      → ((key : ForeignBankId)
          → view key (mark_cas env k g otherwise rest t).1.payments ≡ view key t.payments)
        ⊎ Resolved k new t (mark_cas env k g otherwise rest t).1
  marked k new g otherwise rest keeps sets rests h =
      elim (mark_cas-cases env k g otherwise rest t h) [
        | inl same ↦ inl (λ key. ap (λ s. view key s.payments) same)
        | inr (pend, e) ↦ inr (λ key.
            ap (λ r. view key r.1.payments) e
            ∙ rests _ (sym (ap (λ r. r.0) e) ∙ h) key
            ∙ view-update k key new g t.payments keeps sets)
      ]

  changes : (s : Stmt) (f : Account → Account) (k : ℕ) → Rests (change_account env s f k)
  changes s f k u h key = ap (λ r. view key r.1.payments) (change_account-none env s f k u h)

  pub finalise_commit_body-Follows :
      (row : InterbankPayment) (k : ℕ)
      → (finalise_commit_body env row k t).0 ≡ none
      → Follows (commits row) t (finalise_commit_body env row k t).1
  unfolding finalise_commit_body debit as_committed protocol
  finalise_commit_body-Follows row k =
      marked (key_of row) committed as_committed none (debit env k row.amount)
        (λ r. (refl, refl, refl, refl)) (λ r. refl) (changes Stmt.debit_funds (spent row.amount) k)

  pub finalise_failed_body-Follows :
      (reason : Text) (row : InterbankPayment) (k : ℕ)
      → (finalise_failed_body env reason row k t).0 ≡ none
      → Follows (fails reason row) t (finalise_failed_body env reason row k t).1
  unfolding finalise_failed_body release as_failed protocol
  finalise_failed_body-Follows reason row k =
      marked (key_of row) failed (as_failed reason) none (release env k row.amount)
        (λ r. (refl, refl, refl, refl)) (λ r. refl)
        (changes Stmt.release_funds (refunded row.amount) k)

  pub finalise_rejected_body-Follows :
      (reason : Text) (row : InterbankPayment) (k : ℕ)
      → (finalise_rejected_body env reason row k t).0 ≡ none
      → Follows (rejects reason row) t (finalise_rejected_body env reason row k t).1
  unfolding finalise_rejected_body as_rejected protocol
  finalise_rejected_body-Follows reason row k =
      marked (key_of row) rejected (as_rejected reason) none
        (mark_partner_finalised env (key_of row) >>> release env k row.amount)
        (λ r. (refl, refl, refl, refl)) (λ r. refl)
        (λ s h key.
          ap (λ r. view key r.1.payments) (stamp_release env (key_of row) k row.amount s h)
          ∙ view-stamped (key_of row) key s.payments)

  -- A partner's message finds the row inbound.
  module _ (k : ForeignBankId) (p : InterbankPayment) (found : get_by_tx_id k t.payments ≡ some p)
      (inward : p.direction ≡ inbound) where
    only_inbound :
        (new : PaymentStatus) (t' : Tables)
        → Resolved k new t t'
        → (key : ForeignBankId)
        → view key t'.payments ≡ (
            if same_foreign_bank_id k key
            then resolves_inbound new (view key t.payments)
            else view key t.payments)
    only_inbound new t' done key = elim (Bool-cases (same_foreign_bank_id k key)) [
      | inr other ↦ rw other (done key ∙ rw other refl)
      | inl same ↦
          let at = ap (λ j. get_by_tx_id j t.payments) (sym (same_id k key same)) ∙ found in
          rw same (done key ∙ rw same (resolves-inbound new key t.payments p at inward))
    ]

    pub commit_body-Follows :
        (a : ℕ) (q : InterbankPayment)
        → (commit_body env k a q t).0 ≡ none
        → Follows (commit_tx k) t (commit_body env k a q t).1
    unfolding commit_body credit as_committed protocol
    commit_body-Follows a q h =
        elim (marked k committed as_committed (some Error.already_resolved) (credit env a q.amount)
          (λ r. (refl, refl, refl, refl)) (λ r. refl)
          (changes Stmt.credit_funds (credited q.amount) a) h) [
            | inl same ↦ inl same
            | inr done ↦ inr (only_inbound committed (commit_body env k a q t).1 done)
          ]

    pub rollback_body-Follows :
        (rollback_body env k t).0 ≡ none → Follows (rollback_tx k) t (rollback_body env k t).1
    unfolding rollback_body as_rolled_back protocol
    rollback_body-Follows h =
        elim (marked k rolled_back as_rolled_back (some Error.already_resolved) (stop_with none)
          (λ r. (refl, refl, refl, refl)) (λ r. refl) (λ s go key. refl) h) [
            | inl same ↦ inl same
            | inr done ↦ inr (only_inbound rolled_back (rollback_body env k t).1 done)
          ]

  -- A new row begins its transaction.
  begun :
      (row : InterbankPayment) (s : Tables)
      → s.payments ≡ t.payments
      → get_by_tx_id (key_of row) t.payments ≡ none
      → row.status ≡ pending
      → (create_tx env row s).0 ≡ none
      → (key : ForeignBankId)
      → view key (create_tx env row s).1.payments ≡ (
          if same_foreign_bank_id (key_of row) key
          then begins row.direction (view key t.payments)
          else view key t.payments)
  begun row s same fresh pend h key =
      ap (λ r. view key r.1.payments) (create_tx-none env row s h)
      ∙ ap (λ rows. view key (row ∷ rows)) same
      ∙ view-cons key row t.payments fresh pend

  record_locked-Follows :
      (partner : ℕ) (tx : Transaction) (parsed : PaymentTx) (lock : Except Error Account)
      → get_by_tx_id tx.transaction_id t.payments ≡ none
      → (record_locked env partner tx parsed t lock).0 ≡ none
      → Follows (new_tx partner tx) t (record_locked env partner tx parsed t lock).1
  unfolding inbound_row protocol
  record_locked-Follows partner tx parsed (err e) fresh h = cc
  record_locked-Follows partner tx parsed (ok a) fresh h =
      inr (begun (inbound_row partner tx parsed a.id) t refl fresh refl h)

  pub record_body-Follows :
      (partner : ℕ) (tx : Transaction) (parsed : PaymentTx)
      → get_by_tx_id tx.transaction_id t.payments ≡ none
      → (record_body env partner tx parsed t).0 ≡ none
      → Follows (new_tx partner tx) t (record_body env partner tx parsed t).1
  unfolding record_body
  record_body-Follows partner tx parsed fresh h = record_locked-Follows partner tx parsed _ fresh h

  reserved_row :
      (k : ℕ) (row : InterbankPayment)
      → get_by_tx_id (key_of row) t.payments ≡ none
      → row.status ≡ pending
      → (((λ s. refusing (reserve env k row.amount s)) >>> create_tx env row) t).0 ≡ none
      → (key : ForeignBankId)
      → view key (((λ s. refusing (reserve env k row.amount s)) >>> create_tx env row) t).1.payments
        ≡ (if same_foreign_bank_id (key_of row) key
            then begins row.direction (view key t.payments)
            else view key t.payments)
  reserved_row k row fresh pend h key =
      let (reserved, next) =
        next-none (refusing (reserve env k row.amount t)) (create_tx env row) h in
      let (fine, plain) = refusing-none (reserve env k row.amount t) reserved in
      let to_create = next ∙ ap (λ r. create_tx env row r.1) plain in
      ap (λ r. view key r.1.payments) to_create
      ∙ begun row (reserve env k row.amount t).1 (reserve-payments env k row.amount t fine) fresh
          pend (sym (ap (λ r. r.0) to_create) ∙ h) key

  reserve_locked-begins :
      (key : ForeignBankId) (partner : ℤ) (q : Request) (lock : Except Error Account)
      → get_by_tx_id key t.payments ≡ none
      → (reserve_locked env key partner q t lock).0 ≡ none
      → (j : ForeignBankId)
      → view j (reserve_locked env key partner q t lock).1.payments
        ≡ protocol (prepares key partner q) j (view j t.payments)
  unfolding outbound_row protocol
  reserve_locked-begins key partner q (err e) fresh h = cc
  reserve_locked-begins key partner q (ok a) fresh h =
      elim (Bool-cases (owned_by q.client_id a.client_id)) [
        | inr foreign ↦ absurd (ground arith)
        | inl own ↦
            rw own (reserved_row a.id (outbound_row key partner q a.id) fresh refl (ground arith))
      ]

  pub prepare_body-begins :
      (key : ForeignBankId) (partner : ℤ) (q : Request)
      → get_by_tx_id key t.payments ≡ none
      → (prepare_body env key partner q t).0 ≡ none
      → (j : ForeignBankId)
      → view j (prepare_body env key partner q t).1.payments
        ≡ protocol (prepares key partner q) j (view j t.payments)
  unfolding prepare_body
  prepare_body-begins key partner q fresh h = reserve_locked-begins key partner q _ fresh h
