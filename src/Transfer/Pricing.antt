-- ===== src/Transfer/Pricing.antt =====
-- What prepareTransfer establishes, and the transfer that is created and settled at once (transfer-
-- service/internal/service/transfer_service.go).
use exbanka_3_backend.Prelude.{
  ℕ, ◌==◌, ltb, ◌≡◌, refl, sym, ap, ◌∙◌, Bool, true, false, if◌then◌else◌, arith, Bool-cases, inl,
  inr,
}
use exbanka_3_backend.Prelude.Int.{ℤ, pos, ◌+ℤ◌, ltb_ℤ, pos_part, int_laws}
use exbanka_3_backend.Prelude.Text.{Text, codes, text_eq, text_eq-eq, text_eq_refl}
use exbanka_3_backend.Prelude.Except.{ok, >>=-eq-ok, fail_if-eq-ok}
use exbanka_3_backend.Payment.{Account}
use exbanka_3_backend.Transfer.Types.{Error, CreateTransferInput, TransferPreview}
use exbanka_3_backend.Transfer.Service.{
  Rates, commission, is_rsd, rsd_amount, converted, preview_within, preview_across, preview_of,
  transfer_row,
}
use exbanka_3_backend.Transfer.Settled.{Priced, ok_eq}

-- Two accounts have one currency by its id when they have it by its code.
pub record SameCurrencies (s v : Account) : Type 0 where
  pub by_id : (s.currency_id == v.currency_id) ≡ true → s.currency_kod ≡ v.currency_kod
  pub by_kod : s.currency_kod ≡ v.currency_kod → (s.currency_id == v.currency_id) ≡ true

converted-rsd :
    (rates : Rates) (v : Account) (u : ℕ) (p : ℕ × ℕ)
    → converted rates v u ≡ ok p
    → ltb 0 p.1 ≡ true
    → is_rsd v ≡ false
unfolding converted
converted-rsd rates v u p h due = elim (Bool-cases (is_rsd v)) [
  | inr away ↦ away
  | inl rsd ↦ absurd (let none_due : p.1 ≡ 0 = ground arith in ground arith)
]

chosen : {A : Type 0} {c : Bool} (x y : A) → c ≡ true → (if c then x else y) ≡ x
chosen x y e = rw e refl

otherwise : {A : Type 0} {c : Bool} (x y : A) → c ≡ false → (if c then x else y) ≡ y
otherwise x y e = rw e refl

with_nothing : (x : ℤ) → x +ℤ pos 0 ≡ x
with_nothing x = grind int_laws

different :
    (s v : Account)
    → SameCurrencies s v
    → (s.currency_id == v.currency_id) ≡ false
    → text_eq s.currency_kod v.currency_kod ≡ false
different s v agree cross = elim (Bool-cases (text_eq s.currency_kod v.currency_kod)) [
  | inr away ↦ away
  | inl same ↦
      absurd
        (let bad = sym cross ∙ agree.by_kod (text_eq-eq s.currency_kod v.currency_kod same) in cc)
]

not_rsd : (k : Text) → text_eq k (codes "RSD") ≡ false → text_eq (codes "RSD") k ≡ false
not_rsd k h = elim (Bool-cases (text_eq (codes "RSD") k)) [
  | inr away ↦ away
  | inl same ↦ absurd (
      let e = ap (λ x. text_eq x (codes "RSD")) (text_eq-eq (codes "RSD") k same) in
      let bad = sym (text_eq_refl (codes "RSD")) ∙ e ∙ h in cc)
]

preview_across-rsd :
    (rates : Rates) (s v : Account) (iznos : ℤ) (preview : TransferPreview)
    → preview_across rates s v iznos ≡ ok preview
    → ltb 0 preview.iznos_rsd ≡ true
    → text_eq (codes "RSD") v.currency_kod ≡ false
unfolding preview_across
preview_across-rsd rates s v iznos preview h due =
    let (u, e₁, h₁) = >>=-eq-ok (rsd_amount rates s (pos_part iznos)) _ h in
    let (p, e₂, h₂) = >>=-eq-ok (converted rates v u) _ h₁ in
    let (enough, h₃) =
      fail_if-eq-ok (ltb_ℤ s.raspolozivo_stanje (iznos +ℤ pos (commission (pos_part iznos))))
        Error.balance_too_low _ h₂ in
    not_rsd v.currency_kod (
      converted-rsd rates v u p e₂
        (ap (λ (x : TransferPreview). ltb 0 x.iznos_rsd) (ok_eq h₃) ∙ due))

pub preview_of-Priced :
    (rates : Rates) (s v : Account) (id : ℕ) (input : CreateTransferInput)
    (preview : TransferPreview)
    → SameCurrencies s v
    → preview_of rates s v input.iznos ≡ ok preview
    → Priced (transfer_row id input preview) s v
unfolding preview_of transfer_row
preview_of-Priced rates s v id input preview agree h =
    elim (Bool-cases (s.currency_id == v.currency_id)) [
      | inl same ↦
          let e : preview_within s input.iznos ≡ preview = ok_eq (sym (chosen _ _ same) ∙ h) in
          record {
            same_kod = λ k. (
              agree.by_id same,
              ap (λ x. input.iznos +ℤ x.provizija) (sym e)
                  ∙ with_nothing input.iznos
                  ∙ ap (λ (x : TransferPreview). x.konvertovani_iznos) e,
            );
            other_kod = λ k. absurd (let bad = sym same ∙ k in cc);
            rsd_only =
                λ k. absurd (let bad = ap (λ (x : TransferPreview). ltb 0 x.iznos_rsd) e ∙ k in cc);
          }
      | inr cross ↦ record {
        same_kod = λ k. absurd (let bad = sym cross ∙ k in cc);
        other_kod = λ k. different s v agree cross;
        rsd_only =
            λ k. preview_across-rsd rates s v input.iznos preview (sym (otherwise _ _ cross) ∙ h) k;
      }
    ]
