-- ===== src/Transfer/Settled.antt =====
-- The money of a settlement (settleTransfer of transfer-service/internal/service/transfer_service.go).
use exbanka_3_backend.Prelude.{
  ℕ, ◌==◌, ==_refl, ltb, ◌≡◌, refl, sym, ap, ◌∙◌, Bool, true, false, not, ◌&&◌, ◌||◌, Option, none,
  some, arith, if◌then◌else◌, Bool-cases, inl, inr,
}
use exbanka_3_backend.Prelude.Int.{ℤ, pos, ◌+ℤ◌, ltb_ℤ, int_laws}
use exbanka_3_backend.Prelude.Text.{Text, codes, text_eq}
use exbanka_3_backend.Prelude.Db.{next-none, ◌>>>◌}
use exbanka_3_backend.Prelude.Except.{Except, ok, err, read, >>=-eq-ok, fail_if-eq-ok}
use exbanka_3_backend.Payment.{Account, find_account}
use exbanka_3_backend.Payment.Accounts.{UniqueIds}
use exbanka_3_backend.Interbank.Acceptance.{negated}
use exbanka_3_backend.Transfer.Types.{Transfer, Tables, Stmt, Code, Error, Env}
use exbanka_3_backend.Transfer.Repository.{
  Pluck, is_set, find_by_id_for_update, find_transfer, update_fields_tx,
}
use exbanka_3_backend.Transfer.Settlement.{
  is_pending, same_owner, refuse, to_deduct, charged, raised, exchange, complete, settle_writes,
  settle_checks,
}
use exbanka_3_backend.Transfer.Totals.{share, total_in}
use exbanka_3_backend.Transfer.Writes.{read_account-found, Wrote, update-Wrote, Wrote-then}
use exbanka_3_backend.Transfer.Conserved.{added, has_client, minus, exchanged, exchange-Wrote}

-- A transfer as `prepareTransfer` prices it between two accounts whose currencies agree in id and code.
pub record Priced (r : Transfer) (s v : Account) : Type 0 where
  pub same_kod :
      (s.currency_id == v.currency_id) ≡ true
      → (s.currency_kod ≡ v.currency_kod) × (to_deduct r ≡ r.konvertovani_iznos)
  pub other_kod :
      (s.currency_id == v.currency_id) ≡ false → text_eq s.currency_kod v.currency_kod ≡ false
  pub rsd_only : ltb 0 r.iznos_rsd ≡ true → text_eq (codes "RSD") v.currency_kod ≡ false

-- What a settlement adds to the total in a currency.
abbrev pub gain : Text → Transfer → Account → Account → ℤ
gain c r s v = if s.currency_id == v.currency_id then pos 0 else added c r.iznos_rsd

-- The accounts of other clients, and of these clients' other accounts.
abbrev pub is_other : Account → Account → Account → Bool
is_other s v a = has_client a && not (a.id == s.id) && not (a.id == v.id)

share_neg : (c kod : Text) (x : ℤ) → share c kod (negated x) ≡ negated (share c kod x)
share_neg c kod x = elim (Bool-cases (text_eq kod c)) [
  | inl here ↦ rw here refl
  | inr away ↦ rw away (grind int_laws)
]

cancels_out : (x a y : ℤ) → negated x +ℤ (x +ℤ a +ℤ negated y) +ℤ y ≡ a
cancels_out x a y = grind int_laws

cancels_same : (x : ℤ) → negated x +ℤ pos 0 +ℤ x ≡ pos 0
cancels_same x = grind int_laws

net :
    (c : Text) (r : Transfer) (s v : Account)
    → Priced r s v
    → share c s.currency_kod (negated (to_deduct r))
        +ℤ exchanged c r s v
        +ℤ share c v.currency_kod r.konvertovani_iznos
      ≡ gain c r s v
net c r s v priced = elim (Bool-cases (s.currency_id == v.currency_id)) [
  | inr cross ↦
      rw
        (
          cross,
          share_neg c s.currency_kod (to_deduct r),
          share_neg c v.currency_kod r.konvertovani_iznos,
        )
        (cancels_out (share c s.currency_kod (to_deduct r)) (added c r.iznos_rsd)
          (share c v.currency_kod r.konvertovani_iznos))
  | inl same ↦
      let (kods, amounts) = priced.same_kod same in
      rw (same, kods, amounts, share_neg c v.currency_kod r.konvertovani_iznos)
        (cancels_same (share c v.currency_kod r.konvertovani_iznos))
]

module _ (gorm : Pluck) (env : Env) (c : Text) (r : Transfer) (s v : Account) (t : Tables)
    (ids : UniqueIds t.accounts) (at_s : find_account s.id t.accounts ≡ some s)
    (at_v : find_account v.id t.accounts ≡ some v) (differ : (v.id == s.id) ≡ false)
    (owned : has_client v ≡ true) (priced : Priced r s v) where
  abbrev charge : Tables → Option Error × Tables
  charge = update_fields_tx env s.id (charged s r)

  abbrev receive : Tables → Option Error × Tables
  receive = update_fields_tx env v.id (raised v r.konvertovani_iznos)

  moves-Wrote :
      ((charge >>> exchange gorm env r s v >>> receive) t).0 ≡ none
      → Wrote (is_other s v) c t ((charge >>> exchange gorm env r s v >>> receive) t) (
          share c s.currency_kod (negated (to_deduct r))
          +ℤ exchanged c r s v
          +ℤ share c v.currency_kod r.konvertovani_iznos)
  unfolding charged raised
  moves-Wrote =
      let not_s = λ (a : Account). not (a.id == s.id) in
      let not_v = λ (a : Account). not (a.id == v.id) in
      let between = λ (a : Account). has_client a && not (a.id == s.id) in
      Wrote-then between not_v (is_other s v) c t (charge >>> exchange gorm env r s v) receive _ _
        (λ a h. ground arith) (λ a h. ground arith)
        (Wrote-then not_s has_client between c t charge (exchange gorm env r s v) _ _
          (λ a h. ground arith) (λ a h. ground arith)
          (update-Wrote not_s c s.currency_kod env s (charged s r) (negated (to_deduct r)) t ids
            at_s refl (ap not (==_refl s.id)) (λ a. (refl, refl)) (minus s.stanje (to_deduct r)))
          (λ w.
            exchange-Wrote gorm env c r s v (record t { accounts = w.rows }) w.ids priced.other_kod
              priced.rsd_only))
        (λ w.
          update-Wrote not_v c v.currency_kod env v (raised v r.konvertovani_iznos)
            r.konvertovani_iznos (record t { accounts = w.rows }) w.ids
            (w.spared v.id v at_v (rw (owned, differ) refl)) refl (ap not (==_refl v.id))
            (λ a. (refl, refl)) refl)

  complete-none :
      (u : Tables)
      → (complete gorm env r u).0 ≡ none
      → (complete gorm env r u).1.accounts ≡ u.accounts
  unfolding complete
  complete-none u h = ground arith

  -- What the writes leave.
  pub settle_writes-Wrote :
      (settle_writes gorm env r s v t).0 ≡ none
      → (total_in c (settle_writes gorm env r s v t).1.accounts
          ≡ total_in c t.accounts +ℤ gain c r s v)
        × ((j : ℕ) (a : Account)
            → find_account j t.accounts ≡ some a
            → is_other s v a ≡ true
            → find_account j (settle_writes gorm env r s v t).1.accounts ≡ some a)
  unfolding settle_writes
  settle_writes-Wrote h =
      let moves = charge >>> exchange gorm env r s v >>> receive in
      let (fine, next) = next-none (moves t) (complete gorm env r) h in
      let w = moves-Wrote fine in
      let to_complete = next ∙ ap (λ x. complete gorm env r x.1) w.result in
      let rows =
        ap (λ x. x.1.accounts) to_complete
        ∙ complete-none (record t { accounts = w.rows }) (sym (ap (λ x. x.0) to_complete) ∙ h) in
      (
        ap (total_in c) rows ∙ w.total ∙ ap (λ x. total_in c t.accounts +ℤ x) (net c r s v priced),
        λ j a found other. ap (find_account j) rows ∙ w.spared j a found other,
      )

-- What the checks say of the accounts.
same_owner-client : (a b : Option ℕ) → same_owner a b ≡ true → is_set b ≡ true
same_owner-client none b h = cc
same_owner-client (some n) none h = cc
same_owner-client (some n) (some m) h = refl

ok_or : {A : Type 0} → A → Except Error A → A
ok_or a (ok b) = b
ok_or a (err e) = a

pub ok_eq : {A : Type 0} {a b : A} → Path (Except Error A) (ok a) (ok b) → a ≡ b
unfolding ok_or
ok_eq {A} {a} e = ap (ok_or a) e

pub settle_checks-found :
    (env : Env) (r : Transfer) (t : Tables) (p : Account × Account)
    → settle_checks env r t ≡ ok p
    → (find_account r.racun_posiljaoca_id t.accounts ≡ some p.0)
      × (find_account r.racun_primaoca_id t.accounts ≡ some p.1)
      × (has_client p.1 ≡ true)
unfolding settle_checks
settle_checks-found env r t p h =
    let (current, e₁, h₁) =
      >>=-eq-ok
        (read (env.fails Stmt.lock_transfer) (find_transfer r.id t.transfers)
          (Error.database Stmt.lock_transfer))
        _ h in
    let (pend, h₂) =
      fail_if-eq-ok (not (is_pending current.status))
        (Error.verification Code.transfer_already_processed current.status) _ h₁ in
    let (s, at_s, h₃) =
      >>=-eq-ok (find_by_id_for_update env Stmt.lock_sender r.racun_posiljaoca_id t) _ h₂ in
    let (v, at_v, h₄) =
      >>=-eq-ok (find_by_id_for_update env Stmt.lock_receiver r.racun_primaoca_id t) _ h₃ in
    let (own, h₅) =
      fail_if-eq-ok (not (same_owner s.client_id v.client_id))
        (refuse Code.transfer_ownership_mismatch) _ h₄ in
    let (funds, h₆) =
      fail_if-eq-ok (ltb_ℤ s.raspolozivo_stanje (to_deduct r)) (refuse Code.insufficient_balance) _
        h₅ in
    let (daily, h₇) =
      fail_if-eq-ok
        (ltb_ℤ s.dnevni_limit r.iznos || ltb_ℤ s.dnevni_limit (s.dnevna_potrosnja +ℤ r.iznos))
        (refuse Code.daily_limit_exceeded) _ h₆ in
    let (monthly, h₈) =
      fail_if-eq-ok (ltb_ℤ s.mesecni_limit (s.mesecna_potrosnja +ℤ r.iznos))
        (refuse Code.monthly_limit_exceeded) _ h₇ in
    let owned : same_owner s.client_id v.client_id ≡ true = ground arith in
    let same : (s, v) ≡ p = ok_eq h₈ in
    (
      (read_account-found env Stmt.lock_sender r.racun_posiljaoca_id t s at_s).0
          ∙ ap (λ x. some x.0) same,
      (read_account-found env Stmt.lock_receiver r.racun_primaoca_id t v at_v).0
          ∙ ap (λ x. some x.1) same,
      sym (ap (λ (x : Account × Account). has_client x.1) same)
          ∙ same_owner-client s.client_id v.client_id owned,
    )
