-- ===== src/Transfer/Conservation.antt =====
-- The whole of a settlement (settleTransfer of transfer-service/internal/service/transfer_service.go).
use exbanka_3_backend.Prelude.{
  ℕ, ◌==◌, ◌≡◌, ◌≢◌, refl, sym, ap, ◌∙◌, true, false, Option, none, some, [], arith, inl, inr,
}
use exbanka_3_backend.Prelude.Int.{◌+ℤ◌}
use exbanka_3_backend.Prelude.Text.{Text}
use exbanka_3_backend.Prelude.Db.{Transactions, transaction-cases}
use exbanka_3_backend.Prelude.Except.{Except, ok, err}
use exbanka_3_backend.Payment.{Account, find_account}
use exbanka_3_backend.Payment.Accounts.{UniqueIds, find_account-id}
use exbanka_3_backend.Transfer.Types.{Transfer, Tables, Error, Env}
use exbanka_3_backend.Transfer.Repository.{Pluck}
use exbanka_3_backend.Transfer.Settlement.{
  settle_checks, settle_checked, settle_writes, settle_body, after_settlement, settle_transfer,
}
use exbanka_3_backend.Transfer.Totals.{total_in, some_eq}
use exbanka_3_backend.Transfer.Conserved.{has_client}
use exbanka_3_backend.Transfer.Settled.{
  Priced, gain, is_other, settle_writes-Wrote, settle_checks-found,
}

-- No money is made or lost but the gain, and no account of a client changes but the two.
abbrev pub Conserves : Transfer → Account → Account → Tables → Tables → Type 0
Conserves r s v t t' =
    ((c : Text) → total_in c t'.accounts ≡ total_in c t.accounts +ℤ gain c r s v)
    × ((j : ℕ) (a : Account)
        → find_account j t.accounts ≡ some a
        → is_other s v a ≡ true
        → find_account j t'.accounts ≡ some a)

module _ (gorm : Pluck) (env : Env) (r : Transfer) (s v : Account) (t : Tables)
    (ids : UniqueIds t.accounts) (at_s : find_account r.racun_posiljaoca_id t.accounts ≡ some s)
    (at_v : find_account r.racun_primaoca_id t.accounts ≡ some v)
    (two : r.racun_posiljaoca_id ≢ r.racun_primaoca_id) (priced : Priced r s v) where
  written :
      has_client v ≡ true
      → (settle_writes gorm env r s v t).0 ≡ none
      → Conserves r s v t (settle_writes gorm env r s v t).1
  written owned h =
      let id_s = find_account-id r.racun_posiljaoca_id t.accounts s at_s in
      let id_v = find_account-id r.racun_primaoca_id t.accounts v at_v in
      let here_s = ap (λ i. find_account i t.accounts) id_s ∙ at_s in
      let here_v = ap (λ i. find_account i t.accounts) id_v ∙ at_v in
      let differ : (v.id == s.id) ≡ false = ground arith in
      (
        λ c. (settle_writes-Wrote gorm env c r s v t ids here_s here_v differ owned priced h).0,
        (settle_writes-Wrote gorm env [] r s v t ids here_s here_v differ owned priced h).1,
      )

  checked-Conserves :
      (m : Except Error (Account × Account))
      → settle_checks env r t ≡ m
      → (settle_checked gorm env r m t).0 ≡ none
      → Conserves r s v t (settle_checked gorm env r m t).1
  checked-Conserves (err e) h k = cc
  checked-Conserves (ok (s', v')) h k =
      let (at_s', at_v', owned) = settle_checks-found env r t (s', v') h in
      let same_s : s' ≡ s = some_eq (sym at_s' ∙ at_s) in
      let same_v : v' ≡ v = some_eq (sym at_v' ∙ at_v) in
      rw (same_s, same_v)
        (written (sym (ap has_client same_v) ∙ owned) (
          ap (λ x. (settle_writes gorm env r x v t).0) (sym same_s)
          ∙ ap (λ y. (settle_writes gorm env r s' y t).0) (sym same_v)
          ∙ k))

  body-Conserves :
      (settle_body gorm env r t).0 ≡ none → Conserves r s v t (settle_body gorm env r t).1
  unfolding settle_body
  body-Conserves h = checked-Conserves (settle_checks env r t) refl h

  failed-none :
      (m : Option Error × Tables) (r' : Transfer)
      → (after_settlement env r m).0 ≡ ok r'
      → (m.0 ≡ none) × ((after_settlement env r m).1 ≡ m.1)
  failed-none (none, u) r' h = (refl, refl)
  failed-none (some e, u) r' h = cc

  -- A settlement that succeeds, of a transfer that is priced as prepareTransfer prices it between two
  -- accounts of a table with one row for each id, whichever bank accounts it goes through: in every
  -- currency the accounts hold together what they held before, but that an exchange into another
  -- currency than RSD adds the second commission to RSD; and no account of a client changes but the
  -- two.
  pub settle_transfer-Conserves :
      (db : Transactions Tables Error) (r' : Transfer)
      → (settle_transfer gorm db env r t).0 ≡ ok r'
      → Conserves r s v t (settle_transfer gorm db env r t).1
  unfolding settle_transfer
  settle_transfer-Conserves db r' h =
      let (fine, same) = failed-none (db.transaction (settle_body gorm env r) t) r' h in
      elim (transaction-cases db (settle_body gorm env r) t) [
        | inr (e, lost) ↦ absurd (let bad = sym (ap (λ x. x.0) lost) ∙ fine in cc)
        | inl (k, done) ↦ rw (same, done) (body-Conserves k)
      ]
