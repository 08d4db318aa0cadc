-- ===== src/Transfer/Writes.antt =====
-- What the reads and writes of a settlement do when they report no error (transfer-service/internal/
-- repository/account_repo.go, internal/service/transfer_service.go).
use exbanka_3_backend.Prelude.{
  ℕ, ◌≡◌, refl, sym, ap, ◌∙◌, Bool, true, false, Option, none, some, List, arith,
}
use exbanka_3_backend.Prelude.Int.{ℤ, pos, ◌+ℤ◌, int_laws}
use exbanka_3_backend.Prelude.Text.{Text, text_eq-eq}
use exbanka_3_backend.Prelude.Db.{next-none, ◌>>>◌}
use exbanka_3_backend.Prelude.Except.{
  Except, ok, err, or_fail, >>=-eq-ok, fail_if-eq-ok, read-eq-ok,
}
use exbanka_3_backend.Payment.{Account, find_account, update_fields}
use exbanka_3_backend.Payment.Accounts.{
  UniqueIds, find_account-id, find-update_ne, update-UniqueIds,
}
use exbanka_3_backend.Interbank.Steps.{or_fail-eq-ok}
use exbanka_3_backend.Transfer.Types.{Tables, Stmt, Error, Env}
use exbanka_3_backend.Transfer.Repository.{
  Pluck, is_set, is_bank_account, find_by_id_for_update, find_bank_account, update_fields_tx,
}
use exbanka_3_backend.Transfer.Settlement.{with_account}
use exbanka_3_backend.Transfer.Totals.{share, total_in, KeepsOwner, total_in-write, apart, some_eq}

pub update_fields_tx-none :
    (env : Env) (k : ℕ) (f : Account → Account) (t : Tables)
    → (update_fields_tx env k f t).0 ≡ none
    → update_fields_tx env k f t ≡ (none, record t { accounts = update_fields k f t.accounts })
unfolding update_fields_tx
update_fields_tx-none env k f t h = ground arith

pub with_account-none :
    (m : Except Error Account) (k : Account → Tables → Option Error × Tables) (t : Tables)
    → (with_account m k t).0 ≡ none
    → (a : Account) × (m ≡ ok a) × (with_account m k t ≡ k a t)
with_account-none (err e) k t h = cc
with_account-none (ok a) k t h = (a, refl, refl)

pub read_account-found :
    (env : Env) (s : Stmt) (k : ℕ) (t : Tables) (a : Account)
    → find_by_id_for_update env s k t ≡ ok a
    → (find_account k t.accounts ≡ some a) × (a.id ≡ k)
read_account-found env s k t a h =
    let (go, found) = read-eq-ok (env.fails s) (find_account k t.accounts) (Error.database s) h in
    (found, find_account-id k t.accounts a found)

-- An account of the bank in the currency.
pub record IsBank (kod : Text) (rows : List Account) (b : Account) : Type 0 where
  pub found : find_account b.id rows ≡ some b
  pub currency : b.currency_kod ≡ kod
  pub no_client : is_set b.client_id ≡ false

pub find_bank_account-IsBank :
    (gorm : Pluck) (env : Env) (kod : Text) (t : Tables) (b : Account)
    → UniqueIds t.accounts
    → find_bank_account gorm env kod t ≡ ok b
    → IsBank kod t.accounts b
unfolding find_bank_account is_bank_account
find_bank_account-IsBank gorm env kod t b ids h =
    let test = is_bank_account kod t.firma_accounts in
    let (go, h₁) = fail_if-eq-ok (env.fails Stmt.find_bank) (Error.database Stmt.find_bank) _ h in
    let (k, picked, h₂) =
      >>=-eq-ok (or_fail (gorm.pluck test t.accounts) Error.no_bank_account) _ h₁ in
    let (found, same_id) = read_account-found env Stmt.find_bank k t b h₂ in
    let (a, found_a, fits) = gorm.admitted test t.accounts k ids (or_fail-eq-ok _ _ picked) in
    let fits_b : test b ≡ true = ap test (some_eq (sym found ∙ found_a)) ∙ fits in
    record {
      found = ap (λ i. find_account i t.accounts) same_id ∙ found;
      currency = text_eq-eq b.currency_kod kod (ground arith);
      no_client = ground arith;
    }

three : (p x y : ℤ) → p +ℤ x +ℤ y ≡ p +ℤ (x +ℤ y)
three p x y = grind int_laws

no_change : (p : ℤ) → p ≡ p +ℤ pos 0
no_change p = grind int_laws

-- What some writes do: the accounts that a test spares do not change, and the total in the currency
-- `c` moves by `x`.
pub record Wrote (spares : Account → Bool) (c : Text) (t : Tables) (done : Option Error × Tables)
    (x : ℤ) : Type 0 where
  pub rows : List Account
  pub result : done ≡ (none, record t { accounts = rows })
  pub ids : UniqueIds rows
  pub spared :
      (j : ℕ) (a : Account)
      → find_account j t.accounts ≡ some a
      → spares a ≡ true
      → find_account j rows ≡ some a
  pub total : total_in c rows ≡ total_in c t.accounts +ℤ x

module _ (spares : Account → Bool) (c : Text) where
  -- One such write, from the row that was read.
  pub update-Wrote :
      (kod : Text) (env : Env) (b : Account) (f : Account → Account) (x : ℤ) (t : Tables)
      → UniqueIds t.accounts
      → find_account b.id t.accounts ≡ some b
      → b.currency_kod ≡ kod
      → spares b ≡ false
      → KeepsOwner f
      → (f b).stanje ≡ b.stanje +ℤ x
      → (update_fields_tx env b.id f t).0 ≡ none
      → Wrote spares c t (update_fields_tx env b.id f t) (share c kod x)
  update-Wrote kod env b f x t u here currency not_spared keeps e h = record {
    rows = update_fields b.id f t.accounts;
    result = update_fields_tx-none env b.id f t h;
    ids = update-UniqueIds b.id f t.accounts (λ a. (keeps a).0) u;
    spared = λ j a found spare.
        find-update_ne j b.id f t.accounts (λ y. (keeps y).0)
          (apart spares t.accounts j b.id a b found here spare not_spared)
        ∙ found;
    total =
        total_in-write c f t.accounts b x u keeps here e
        ∙ ap (λ k. total_in c t.accounts +ℤ share c k x) currency;
  }

  pub skip-Wrote : (t : Tables) → UniqueIds t.accounts → Wrote spares c t (none, t) (pos 0)
  skip-Wrote t u = record {
    rows = t.accounts;
    result = refl;
    ids = u;
    spared = λ j a found spare. found;
    total = no_change (total_in c t.accounts);
  }

-- Two such in a row spare what each of them spares.
pub Wrote-then :
    (one two spares : Account → Bool) (c : Text) (t : Tables) (m k : Tables → Option Error × Tables)
    (x y : ℤ)
    → ((a : Account) → spares a ≡ true → one a ≡ true)
    → ((a : Account) → spares a ≡ true → two a ≡ true)
    → ((m t).0 ≡ none → Wrote one c t (m t) x)
    → ((w : Wrote one c t (m t) x)
        → (k (record t { accounts = w.rows })).0 ≡ none
        → Wrote two c (record t { accounts = w.rows }) (k (record t { accounts = w.rows })) y)
    → ((m >>> k) t).0 ≡ none
    → Wrote spares c t ((m >>> k) t) (x +ℤ y)
Wrote-then one two spares c t m k x y in_one in_two first second h =
    let (fine, next) = next-none (m t) k h in
    let w = first fine in
    let to_second = next ∙ ap (λ r. k r.1) w.result in
    let v = second w (sym (ap (λ r. r.0) to_second) ∙ h) in
    record {
      rows = v.rows;
      result = to_second ∙ v.result;
      ids = v.ids;
      spared =
          λ j a found spare. v.spared j a (w.spared j a found (in_one a spare)) (in_two a spare);
      total = v.total ∙ ap (λ s. s +ℤ y) w.total ∙ three (total_in c t.accounts) x y;
    }
