-- ===== src/Transfer/Whole.antt =====
-- A transfer that is created and settled at once (CreateAndSettleTransfer of transfer-service/internal/
-- service/transfer_service.go).
use exbanka_3_backend.Prelude.{
  ℕ, ◌==◌, ◌≡◌, ◌≢◌, refl, sym, ap, ◌∙◌, false, not, some, arith, Bool-cases, inl, inr, ◌∷◌,
}
use exbanka_3_backend.Prelude.Int.{pos, ◌+ℤ◌, ltb_ℤ, leb_ℤ}
use exbanka_3_backend.Prelude.Db.{Transactions}
use exbanka_3_backend.Prelude.Except.{Except, ok, err, >>=-eq-ok, fail_if-eq-ok}
use exbanka_3_backend.Payment.{Account, find_account}
use exbanka_3_backend.Payment.Accounts.{UniqueIds}
use exbanka_3_backend.Transfer.Types.{
  Transfer, Tables, Stmt, Error, Env, CreateTransferInput, TransferPreview,
}
use exbanka_3_backend.Transfer.Repository.{Pluck, find_by_id_for_update}
use exbanka_3_backend.Transfer.Settlement.{same_owner}
use exbanka_3_backend.Transfer.Service.{
  Rates, preview_of, prepare_transfer, transfer_row, create_transfer, create_prepared,
  settle_created, create_and_settle_transfer,
}
use exbanka_3_backend.Transfer.Writes.{read_account-found}
use exbanka_3_backend.Transfer.Totals.{some_eq}
use exbanka_3_backend.Transfer.Settled.{Priced}
use exbanka_3_backend.Transfer.Pricing.{SameCurrencies, preview_of-Priced}
use exbanka_3_backend.Transfer.Conservation.{Conserves, settle_transfer-Conserves}

module _ (rates : Rates) (env : Env) (input : CreateTransferInput) (s v : Account) (t : Tables)
    (at_s : find_account input.racun_posiljaoca_id t.accounts ≡ some s)
    (at_v : find_account input.racun_primaoca_id t.accounts ≡ some v) where
  prepare-Priced :
      (id : ℕ) (preview : TransferPreview)
      → SameCurrencies s v
      → prepare_transfer rates env input t ≡ ok preview
      → ((input.racun_posiljaoca_id == input.racun_primaoca_id) ≡ false)
        × Priced (transfer_row id input preview) s v
  unfolding prepare_transfer
  prepare-Priced id preview agree h =
      let (positive, h₁) =
        fail_if-eq-ok (leb_ℤ input.iznos (pos 0)) Error.amount_not_positive _ h in
      let (two, h₂) =
        fail_if-eq-ok (input.racun_posiljaoca_id == input.racun_primaoca_id) Error.same_account _
          h₁ in
      let (s', e₁, h₃) =
        >>=-eq-ok (find_by_id_for_update env Stmt.load_account input.racun_posiljaoca_id t) _ h₂ in
      let (v', e₂, h₄) =
        >>=-eq-ok (find_by_id_for_update env Stmt.load_account input.racun_primaoca_id t) _ h₃ in
      let (own, h₅) =
        fail_if-eq-ok (not (same_owner s'.client_id v'.client_id)) Error.not_the_same_client _ h₄ in
      let (funds, h₆) =
        fail_if-eq-ok (ltb_ℤ s'.raspolozivo_stanje input.iznos) Error.balance_too_low _ h₅ in
      let (limit, h₇) =
        fail_if-eq-ok (ltb_ℤ s'.dnevni_limit input.iznos) Error.over_daily_limit _ h₆ in
      let (daily, h₈) =
        fail_if-eq-ok (ltb_ℤ s'.dnevni_limit (s'.dnevna_potrosnja +ℤ input.iznos))
          Error.over_daily_limit _ h₇ in
      let (monthly, h₉) =
        fail_if-eq-ok (ltb_ℤ s'.mesecni_limit (s'.mesecna_potrosnja +ℤ input.iznos))
          Error.over_monthly_limit _ h₈ in
      let is_s = some_eq (
        sym (read_account-found env Stmt.load_account input.racun_posiljaoca_id t s' e₁).0
        ∙ at_s) in
      let is_v =
        some_eq (
          sym (read_account-found env Stmt.load_account input.racun_primaoca_id t v' e₂).0
          ∙ at_v) in
      (
        two,
        preview_of-Priced rates s v id input preview agree (
            ap (λ x. preview_of rates x v input.iznos) (sym is_s)
            ∙ ap (λ y. preview_of rates s' y input.iznos) (sym is_v)
            ∙ h₉),
      )

  created-preview :
      (id : ℕ) (r : Transfer) (m : Except Error TransferPreview)
      → prepare_transfer rates env input t ≡ m
      → (create_prepared env id input m t).0 ≡ ok r
      → (preview : TransferPreview) × (m ≡ ok preview)
        × (create_prepared env id input m t ≡ (
          ok (transfer_row id input preview),
          record t { transfers = transfer_row id input preview ∷ t.transfers },
        ))
  created-preview id r (err e) p h = cc
  created-preview id r (ok preview) p h = elim (Bool-cases (env.fails Stmt.create_transfer)) [
    | inr fine ↦ (preview, refl, rw fine refl)
    | inl broken ↦ absurd (ground arith)
  ]

  settled-created :
      (gorm : Pluck) (db : Transactions Tables Error) (m : Except Error Transfer × Tables)
      (r' : Transfer)
      → (settle_created gorm db env m).0 ≡ ok r'
      → (r : Transfer) × (m.0 ≡ ok r)
  settled-created gorm db (err e, u) r' h = cc
  settled-created gorm db (ok r, u) r' h = (r, refl)

  -- A transfer that is created and settled at once, with whatever rates and bank accounts, between
  -- two accounts whose currency ids agree with their codes, on accounts with one row for each id:
  -- when it succeeds, in every currency the accounts hold together what they held before, but that an
  -- exchange into another currency than RSD adds the second commission to RSD; and no account of a
  -- client changes but the two.
  pub create_and_settle_transfer-Conserves :
      (gorm : Pluck) (db : Transactions Tables Error) (id : ℕ) (r' : Transfer)
      → UniqueIds t.accounts
      → SameCurrencies s v
      → (create_and_settle_transfer gorm db rates env id input t).0 ≡ ok r'
      → (preview : TransferPreview) × (prepare_transfer rates env input t ≡ ok preview)
        × Conserves
            (transfer_row id input preview)
            s
            v
            t
            (create_and_settle_transfer gorm db rates env id input t).1
  unfolding create_and_settle_transfer create_transfer transfer_row
  create_and_settle_transfer-Conserves gorm db id r' ids agree h =
      let m = prepare_transfer rates env input t in
      let (r, made) = settled-created gorm db (create_prepared env id input m t) r' h in
      let (preview, got, e) = created-preview id r m refl made in
      let (two, priced) = prepare-Priced id preview agree got in
      let row = transfer_row id input preview in
      let t₁ : Tables = record t { transfers = row ∷ t.transfers } in
      let differ : input.racun_posiljaoca_id ≢ input.racun_primaoca_id =
        λ same. absurd (ground arith) in
      let settled = sym (ap (λ x. (settle_created gorm db env x).0) e) ∙ h in
      (
        preview,
        got,
        rw e (
            settle_transfer-Conserves gorm env row s v t₁ ids at_s at_v differ priced db r'
              settled),
      )
