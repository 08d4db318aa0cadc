-- ===== src/Transfer/Totals.antt =====
-- What the accounts hold in one currency, and what the writes of a transfer make of it (transfer-
-- service/internal/repository/account_repo.go).
use exbanka_3_backend.Prelude.{
  ℕ, ◌≢◌, ◌==◌, Option, ◌≡◌, refl, sym, ap, ◌∙◌, Bool, true, false, none, some, List, [], ◌∷◌,
  arith, if◌then◌else◌, Bool-cases, inl, inr,
}
use exbanka_3_backend.Prelude.Int.{ℤ, pos, ◌+ℤ◌, pos_part, neg_part, eq_of_parts, int_laws}
use exbanka_3_backend.Prelude.Text.{Text, text_eq}
use exbanka_3_backend.Payment.{Account, find_account, update_fields}
use exbanka_3_backend.Payment.Accounts.{UniqueIds, update-absent}

-- An amount, if it is in the currency.
abbrev pub share : Text → Text → ℤ → ℤ
share c kod x = if text_eq kod c then x else pos 0

unfoldable pub total_in : Text → List Account → ℤ
total_in c [] = pos 0
total_in c (a ∷ rows) = share c a.currency_kod a.stanje +ℤ total_in c rows

-- A write that keeps the id, the currency and the owner of a row.
abbrev pub KeepsOwner : (Account → Account) → Type 0
KeepsOwner f = (a : Account) → ((f a).id ≡ a.id) × ((f a).currency_kod ≡ a.currency_kod)

shifted : (p t' t s s' : ℤ) → t' +ℤ s ≡ t +ℤ s' → p +ℤ t' +ℤ s ≡ p +ℤ t +ℤ s'
shifted p t' t s s' h =
    eq_of_parts (p +ℤ t' +ℤ s) (p +ℤ t +ℤ s') (omega (int_laws, ap pos_part h, ap neg_part h))

swapped : (p t s : ℤ) → p +ℤ t +ℤ s ≡ s +ℤ t +ℤ p
swapped p t s = grind int_laws

total_in-update :
    (c : Text) (k : ℕ) (f : Account → Account) (rows : List Account) (a : Account)
    → UniqueIds rows
    → KeepsOwner f
    → find_account k rows ≡ some a
    → total_in c (update_fields k f rows) +ℤ share c a.currency_kod a.stanje
      ≡ total_in c rows +ℤ share c a.currency_kod (f a).stanje
unfolding total_in update_fields find_account
total_in-update c k f [] a u keeps h = cc
total_in-update c k f (x ∷ rows) a (new, u) keeps h = elim (Bool-cases (x.id == k)) [
  | inl same ↦
      let e : x ≡ a = ground arith in
      let absent : find_account k rows ≡ none = ground arith in
      rw (same, update-absent k f rows absent, (keeps x).1, e)
        (swapped (share c a.currency_kod (f a).stanje) (total_in c rows)
          (share c a.currency_kod a.stanje))
  | inr other ↦
      let found : find_account k rows ≡ some a = ground arith in
      let rest = total_in-update c k f rows a u keeps found in
      rw other (
        shifted (share c x.currency_kod x.stanje) (total_in c (update_fields k f rows))
          (total_in c rows) (share c a.currency_kod a.stanje) (share c a.currency_kod (f a).stanje)
          rest)
]

share_add : (c kod : Text) (x y : ℤ) → share c kod (x +ℤ y) ≡ share c kod x +ℤ share c kod y
share_add c kod x y = elim (Bool-cases (text_eq kod c)) [
  | inl here ↦ rw here refl
  | inr away ↦ rw away (grind int_laws)
]

moved_by : (t t' p x : ℤ) → t' +ℤ p ≡ t +ℤ (p +ℤ x) → t' ≡ t +ℤ x
moved_by t t' p x h = eq_of_parts t' (t +ℤ x) (omega (int_laws, ap pos_part h, ap neg_part h))

-- A write from the row that was read moves the total of its currency.
pub total_in-write :
    (c : Text) (f : Account → Account) (rows : List Account) (a : Account) (x : ℤ)
    → UniqueIds rows
    → KeepsOwner f
    → find_account a.id rows ≡ some a
    → (f a).stanje ≡ a.stanje +ℤ x
    → total_in c (update_fields a.id f rows) ≡ total_in c rows +ℤ share c a.currency_kod x
total_in-write c f rows a x u keeps h e =
    moved_by (total_in c rows) (total_in c (update_fields a.id f rows))
      (share c a.currency_kod a.stanje) (share c a.currency_kod x)
      (total_in-update c a.id f rows a u keeps h
        ∙ ap (λ s. total_in c rows +ℤ share c a.currency_kod s) e
        ∙ ap (λ s. total_in c rows +ℤ s) (share_add c a.currency_kod a.stanje x))

some_or : Account → Option Account → Account
some_or a none = a
some_or a (some b) = b

pub some_eq : {a b : Account} → some a ≡ some b → a ≡ b
unfolding some_or
some_eq {a} e = ap (some_or a) e

-- Two rows that a test tells apart have different ids.
pub apart :
    (test : Account → Bool) (rows : List Account) (j k : ℕ) (a b : Account)
    → find_account j rows ≡ some a
    → find_account k rows ≡ some b
    → test a ≡ true
    → test b ≡ false
    → j ≢ k
apart test rows j k a b ha hb ta tb e =
    let same : a ≡ b = some_eq (sym ha ∙ ap (λ i. find_account i rows) e ∙ hb) in
    absurd (let bad = sym ta ∙ ap test same ∙ tb in cc)
