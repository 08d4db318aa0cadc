-- ===== src/Transfer/Refused.antt =====
-- Settlements that fail (settleTransfer of transfer-service/internal/service/transfer_service.go).
use exbanka_3_backend.Prelude.{
  ◌≡◌, refl, sym, ap, ◌∙◌, true, false, Option, none, some, arith, Bool-cases, Option-cases, inl,
  inr, ◌⊎◌,
}
use exbanka_3_backend.Prelude.Db.{Transactions}
use exbanka_3_backend.Prelude.Except.{Except, ok, err}
use exbanka_3_backend.Transfer.Types.{
  stornirano, TransferStatus, Transfer, Tables, Stmt, Code, Error, Env,
}
use exbanka_3_backend.Transfer.Repository.{Pluck, find_transfer, update_transfer}
use exbanka_3_backend.Transfer.Settlement.{
  settle_transfer, settle_checks, settle_checked, is_pending, settle_body, cancel_transfer, cancels,
  after_settlement,
}

-- The row of a transfer is there and still pending.
abbrev pub IsOpen : Transfer → Tables → Type 0
IsOpen r t =
    (current : Transfer) × (find_transfer r.id t.transfers ≡ some current)
    × (is_pending current.status ≡ true)

-- No table has changed, or a transfer whose row was still pending is cancelled with a code.
abbrev pub Refuses : Transfer → Error → Tables → Tables → Type 0
Refuses r e t t' =
    (t' ≡ t)
    ⊎ (IsOpen r t
        × ((c : Code) × (s : TransferStatus) × (e ≡ Error.verification c s))
        × (t' ≡ record t {
          transfers = update_transfer r.id (λ x. record r { status = stornirano }) t.transfers;
        }))

err_or : {A : Type 0} → Error → Except Error A → Error
err_or e (ok b) = e
err_or e (err x) = x

err_eq : {A : Type 0} {a b : Error} → Path (Except Error A) (err a) (err b) → a ≡ b
unfolding err_or
err_eq {A} {a} e = ap (err_or a) e

error_or : Error → Option Error → Error
error_or e none = e
error_or e (some x) = x

some_eq : {a b : Error} → Path (Option Error) (some a) (some b) → a ≡ b
unfolding error_or
some_eq {a} e = ap (error_or a) e

cancels-code :
    (e : Error)
    → cancels e ≡ true
    → (c : Code) × (s : TransferStatus) × (e ≡ Error.verification c s)
cancels-code (Error.verification c s) h = (c, s, refl)
cancels-code (Error.database x) h = cc
cancels-code Error.amount_not_positive h = cc
cancels-code Error.same_account h = cc
cancels-code Error.not_the_same_client h = cc
cancels-code Error.balance_too_low h = cc
cancels-code Error.over_daily_limit h = cc
cancels-code Error.over_monthly_limit h = cc
cancels-code Error.no_rate h = cc
cancels-code Error.no_bank_account h = cc
cancels-code (Error.connection n) h = cc

-- A settlement that does not find the transfer pending is refused, and does not cancel it.
settle_checks-cases :
    (env : Env) (r : Transfer) (t : Tables)
    → IsOpen r t ⊎ ((e : Error) × (settle_checks env r t ≡ err e) × (cancels e ≡ false))
unfolding settle_checks
settle_checks-cases env r t = elim (Bool-cases (env.fails Stmt.lock_transfer)) [
  | inl broken ↦ inr (Error.database Stmt.lock_transfer, ground (arith, broken), refl)
  | inr fine ↦ elim (Option-cases (find_transfer r.id t.transfers)) [
    | inl missing ↦ inr (Error.database Stmt.lock_transfer, ground (arith, fine, missing), refl)
    | inr (current, found) ↦ elim (Bool-cases (is_pending current.status)) [
      | inl waits ↦ inl (current, found, waits)
      | inr over ↦ inr (
        Error.verification Code.transfer_already_processed current.status,
        ground (arith, fine, found, over),
        refl,
      )
    ]
  ]
]

module _ (gorm : Pluck) (db : Transactions Tables Error) (env : Env) (r : Transfer)
    (t : Tables) where
  kept_unless :
      (e : Error) → cancels e ≡ false → Refuses r e t (after_settlement env r (some e, t)).1
  kept_unless e keeps = rw keeps (inl refl)

  open-Refuses : (e : Error) → IsOpen r t → Refuses r e t (after_settlement env r (some e, t)).1
  unfolding cancel_transfer
  open-Refuses e waits = elim (Bool-cases (cancels e)) [
    | inr keeps ↦ kept_unless e keeps
    | inl cancel ↦ elim (Bool-cases (env.fails Stmt.save_transfer)) [
      | inl broken ↦ rw (cancel, broken) (inl refl)
      | inr fine ↦ rw (cancel, fine) (inr (waits, cancels-code e cancel, refl))
    ]
  ]

  body-Refuses :
      (e : Error)
      → (settle_body gorm env r t).0 ≡ some e
      → Refuses r e t (after_settlement env r (some e, t)).1
  unfolding settle_body
  body-Refuses e h = elim (settle_checks-cases env r t) [
    | inl waits ↦ open-Refuses e waits
    | inr (e', refused, keeps) ↦
        let same : e' ≡ e =
          some_eq (sym (ap (λ c. (settle_checked gorm env r c t).0) refused) ∙ h) in
        kept_unless e (ap cancels (sym same) ∙ keeps)
  ]

  -- A settlement that fails, for whatever reason, has changed no account; it has changed no table at
  -- all, or the row of the transfer was still pending, it was refused with a code, and the transfer
  -- is saved as cancelled. A transfer that was completed or cancelled before is thus left as it is. An
  -- error of the commit itself is none with a code.
  pub settle_transfer-Refuses :
      (e : Error)
      → cancels db.commit_error ≡ false
      → (settle_transfer gorm db env r t).0 ≡ err e
      → Refuses r e t (settle_transfer gorm db env r t).1
  unfolding settle_transfer
  settle_transfer-Refuses e plain h = elim (Option-cases (settle_body gorm env r t).0) [
    | inr (e', k) ↦
        let back = db.rolls_back (settle_body gorm env r) t e' k in
        let is_e : e' ≡ e = err_eq (sym (ap (λ x. (after_settlement env r x).0) back) ∙ h) in
        rw back (rw (sym is_e) (body-Refuses e' k))
    | inl k ↦ elim (db.commits (settle_body gorm env r) t k) [
      | inl done ↦ absurd (let bad = sym (ap (λ x. (after_settlement env r x).0) done) ∙ h in cc)
      | inr lost ↦
          let is_e : db.commit_error ≡ e =
            err_eq (sym (ap (λ x. (after_settlement env r x).0) lost) ∙ h) in
          rw lost (rw (sym is_e) (kept_unless db.commit_error plain))
    ]
  ]
