-- ===== src/Transfer/Conserved.antt =====
-- A settlement neither makes nor loses money but for the second commission (settleTransfer of
-- transfer-service/internal/service/transfer_service.go).
use exbanka_3_backend.Prelude.{
  ℕ, ◌==◌, ltb, ◌≡◌, refl, sym, ap, ◌∙◌, Bool, true, false, ◌||◌, none, arith, if◌then◌else◌,
  Bool-cases, inl, inr,
}
use exbanka_3_backend.Prelude.Int.{ℤ, pos, ◌+ℤ◌, ◌-ℤ◌, int_laws}
use exbanka_3_backend.Prelude.Text.{Text, codes, text_eq, text_eq_refl}
use exbanka_3_backend.Prelude.Db.{◌>>>◌}
use exbanka_3_backend.Payment.{Account}
use exbanka_3_backend.Payment.Accounts.{UniqueIds}
use exbanka_3_backend.Interbank.Acceptance.{negated}
use exbanka_3_backend.Transfer.Types.{Transfer, Tables, Env}
use exbanka_3_backend.Transfer.Repository.{Pluck, is_set, find_bank_account, update_fields_tx}
use exbanka_3_backend.Transfer.Settlement.{
  commission_in_rsd, to_deduct, raised, lowered, second_commission, exchange_writes, exchange,
  with_bank,
}
use exbanka_3_backend.Transfer.Totals.{share}
use exbanka_3_backend.Transfer.Writes.{
  with_account-none, find_bank_account-IsBank, IsBank, Wrote, update-Wrote, skip-Wrote, Wrote-then,
}

-- What the second commission adds to the total in a currency.
abbrev pub added : Text → ℕ → ℤ
added c u = if ltb 0 u then share c (codes "RSD") (pos (commission_in_rsd u)) else pos 0

-- The exchange, by what it does to the total in the currency.
abbrev pub exchanged : Text → Transfer → Account → Account → ℤ
exchanged c r s v =
    if s.currency_id == v.currency_id
    then pos 0
    else (share c s.currency_kod (to_deduct r)
        +ℤ added c r.iznos_rsd
        +ℤ share c v.currency_kod (negated r.konvertovani_iznos))

abbrev pub has_client : Account → Bool
has_client a = is_set a.client_id

abbrev client_or_in : Text → Account → Bool
client_or_in kod a = has_client a || text_eq a.currency_kod kod

pub minus : (p x : ℤ) → p -ℤ x ≡ p +ℤ negated x
minus p x = grind int_laws

module _ (gorm : Pluck) (env : Env) (c : Text) where
  -- A write to the bank's account in a currency that the test does not spare.
  bank-Wrote :
      (spares : Account → Bool) (kod : Text) (x : ℤ) (t : Tables)
      → UniqueIds t.accounts
      → ((b : Account) → IsBank kod t.accounts b → spares b ≡ false)
      → (with_bank gorm env kod (λ b. update_fields_tx env b.id (raised b x)) t).0 ≡ none
      → Wrote spares c t
          (with_bank gorm env kod (λ b. update_fields_tx env b.id (raised b x)) t)
          (share c kod x)
  unfolding raised
  bank-Wrote spares kod x t ids not_spared h =
      let write = λ (b : Account). update_fields_tx env b.id (raised b x) in
      let (b, got, e) = with_account-none (find_bank_account gorm env kod t) write t h in
      let bank = find_bank_account-IsBank gorm env kod t b ids got in
      rw e (
        update-Wrote spares c kod env b (raised b x) x t ids bank.found bank.currency
          (not_spared b bank) (λ a. (refl, refl)) refl (sym (ap (λ r. r.0) e) ∙ h))

  not_spared :
      (kod kod' : Text) (t : Tables) (b : Account)
      → text_eq kod kod' ≡ false
      → IsBank kod t.accounts b
      → client_or_in kod' b ≡ false
  not_spared kod kod' t b differ bank =
      ap (λ s. s || text_eq b.currency_kod kod') bank.no_client
      ∙ ap (λ k. text_eq k kod') bank.currency
      ∙ differ

  second_commission-Wrote :
      (kod : Text) (u : ℕ) (t : Tables)
      → UniqueIds t.accounts
      → (ltb 0 u ≡ true → text_eq (codes "RSD") kod ≡ false)
      → (second_commission gorm env u t).0 ≡ none
      → Wrote (client_or_in kod) c t (second_commission gorm env u t) (added c u)
  unfolding second_commission
  second_commission-Wrote kod u t ids other h = elim (Bool-cases (ltb 0 u)) [
    | inr none_due ↦ rw none_due (skip-Wrote (client_or_in kod) c t ids)
    | inl due ↦ rw due (
        bank-Wrote (client_or_in kod) (codes "RSD") (pos (commission_in_rsd u)) t ids
          (λ b bank. not_spared (codes "RSD") kod t b (other due) bank) (ground arith))
  ]

  exchange_writes-Wrote :
      (r : Transfer) (from to : Account) (t : Tables) (kod kod' : Text)
      → UniqueIds t.accounts
      → IsBank kod t.accounts from
      → IsBank kod' t.accounts to
      → text_eq kod kod' ≡ false
      → (ltb 0 r.iznos_rsd ≡ true → text_eq (codes "RSD") kod' ≡ false)
      → (exchange_writes gorm env r from to t).0 ≡ none
      → Wrote has_client c t (exchange_writes gorm env r from to t) (
          share c kod (to_deduct r)
          +ℤ added c r.iznos_rsd
          +ℤ share c kod' (negated r.konvertovani_iznos))
  unfolding exchange_writes raised lowered
  exchange_writes-Wrote r from to t kod kod' ids bank bank' differ other =
      let kept = client_or_in kod' in
      let x = share c kod (to_deduct r) in
      let raise = update_fields_tx env from.id (raised from (to_deduct r)) in
      let lower = update_fields_tx env to.id (lowered to r.konvertovani_iznos) in
      let second = second_commission gorm env r.iznos_rsd in
      let spare_to : kept to ≡ true =
        ap (λ s. s || text_eq to.currency_kod kod') bank'.no_client
        ∙ ap (λ k. text_eq k kod') bank'.currency
        ∙ text_eq_refl kod' in
      Wrote-then kept has_client has_client c t (raise >>> second) lower (x +ℤ added c r.iznos_rsd)
        (share c kod' (negated r.konvertovani_iznos)) (λ a h. ground arith) (λ a h. h)
        (Wrote-then kept kept kept c t raise second x (added c r.iznos_rsd) (λ a h. h) (λ a h. h)
          (update-Wrote kept c kod env from (raised from (to_deduct r)) (to_deduct r) t ids
            bank.found bank.currency (not_spared kod kod' t from differ bank) (λ a. (refl, refl))
            refl)
          (λ w.
            second_commission-Wrote kod' r.iznos_rsd (record t { accounts = w.rows }) w.ids other))
        (λ w.
          update-Wrote has_client c kod' env to (lowered to r.konvertovani_iznos)
            (negated r.konvertovani_iznos) (record t { accounts = w.rows }) w.ids
            (w.spared to.id to bank'.found spare_to) bank'.currency bank'.no_client
            (λ a. (refl, refl)) (minus to.stanje r.konvertovani_iznos))

  pub exchange-Wrote :
      (r : Transfer) (s v : Account) (t : Tables)
      → UniqueIds t.accounts
      → ((s.currency_id == v.currency_id) ≡ false → text_eq s.currency_kod v.currency_kod ≡ false)
      → (ltb 0 r.iznos_rsd ≡ true → text_eq (codes "RSD") v.currency_kod ≡ false)
      → (exchange gorm env r s v t).0 ≡ none
      → Wrote has_client c t (exchange gorm env r s v t) (exchanged c r s v)
  unfolding exchange
  exchange-Wrote r s v t ids differ other h = elim (Bool-cases (s.currency_id == v.currency_id)) [
    | inl same ↦ rw same (skip-Wrote has_client c t ids)
    | inr cross ↦ rw cross (through (differ cross) (ground arith))
  ]
    where
      through :
          text_eq s.currency_kod v.currency_kod ≡ false
          → (with_bank gorm env s.currency_kod
              (λ from. with_bank gorm env v.currency_kod (λ to. exchange_writes gorm env r from to))
              t).0
            ≡ none
          → Wrote has_client c t
              (with_bank gorm env s.currency_kod
                (λ from.
                  with_bank gorm env v.currency_kod (λ to. exchange_writes gorm env r from to))
                t)
              (share c s.currency_kod (to_deduct r)
                +ℤ added c r.iznos_rsd
                +ℤ share c v.currency_kod (negated r.konvertovani_iznos))
      through apart_kods k =
          let inner = λ (from : Account).
            with_bank gorm env v.currency_kod (λ to. exchange_writes gorm env r from to) in
          let (from, got, e) =
            with_account-none (find_bank_account gorm env s.currency_kod t) inner t k in
          let k₁ = sym (ap (λ x. x.0) e) ∙ k in
          let (to, got', e') =
            with_account-none (find_bank_account gorm env v.currency_kod t)
              (λ to. exchange_writes gorm env r from to) t k₁ in
          rw (e ∙ e') (
            exchange_writes-Wrote r from to t s.currency_kod v.currency_kod ids
              (find_bank_account-IsBank gorm env s.currency_kod t from ids got)
              (find_bank_account-IsBank gorm env v.currency_kod t to ids got') apart_kods other
              (sym (ap (λ x. x.0) e') ∙ k₁))
