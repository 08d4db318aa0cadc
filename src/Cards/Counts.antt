-- ===== src/Cards/Counts.antt =====
-- The counts of cards under the writes of account-service/internal/repository/card_repo.go.
use exbanka_3_backend.Prelude.{
  ℕ, ◌==◌, ◌≤◌, ◌≡◌, refl, sym, ap, ◌∙◌, Bool, true, false, Option, none, some, List, [], ◌∷◌, ◌++◌,
  arith, Bool-cases, inl, inr,
}
use exbanka_3_backend.Cards.Types.{Card, find_by_id, plus_if, count_where, save}

pub count_where-append :
    (test : Card → Bool) (cards : List Card) (c : Card)
    → count_where test (cards ++ c ∷ []) ≡ plus_if (test c) (count_where test cards)
unfolding count_where
count_where-append test [] c = refl
count_where-append test (d ∷ cards) c = ground (arith, count_where-append test cards c)

abbrev card_or : Card → Option Card → Card
card_or d none = d
card_or d (some c) = c

pub find-here :
    (k : ℕ) (d c : Card) (cards : List Card)
    → (d.id == k) ≡ true
    → find_by_id k (d ∷ cards) ≡ some c
    → c ≡ d
unfolding find_by_id
find-here k d c cards here found =
    let shown : find_by_id k (d ∷ cards) ≡ some d = rw here refl in
    ap (card_or d) (sym found ∙ shown)

pub find-later :
    (k : ℕ) (d : Card) (cards : List Card)
    → (d.id == k) ≡ false
    → find_by_id k (d ∷ cards) ≡ find_by_id k cards
unfolding find_by_id
find-later k d cards later = rw later refl

pub count_where-save :
    (test : Card → Bool) (card c : Card) (cards : List Card)
    → find_by_id card.id cards ≡ some c
    → test card ≡ test c
    → count_where test (save card cards) ≡ count_where test cards
unfolding count_where save
count_where-save test card c [] found same = refl
count_where-save test card c (d ∷ cards) found same = elim (Bool-cases (d.id == card.id)) [
  | inl here ↦ rw here (
      ap (λ b. plus_if b (count_where test cards))
        (same ∙ ap test (find-here card.id d c cards here found)))
  | inr later ↦ rw later (
      ap (plus_if (test d))
        (count_where-save test card c cards (sym (find-later card.id d cards later) ∙ found) same))
]

pub count_where-le :
    (test weaker : Card → Bool) (cards : List Card)
    → ((c : Card) → test c ≡ true → weaker c ≡ true)
    → count_where test cards ≤ count_where weaker cards
unfolding count_where
count_where-le test weaker [] implied = ground arith
count_where-le test weaker (c ∷ cards) implied =
    let rest = count_where-le test weaker cards implied in
    elim (Bool-cases (test c)) [
      | inl yes_ ↦ rw (yes_, implied c yes_) (ground arith)
      | inr other ↦ rw other (ground arith)
    ]
