-- ===== src/Cards/Deactivated.antt =====
-- Deactivation of a card is final (account-service/internal/service/card_service.go).
use exbanka_3_backend.Prelude.{
  ℕ, ◌==◌, ◌≡◌, refl, sym, ap, ◌∙◌, ◌||◌, Bool, true, false, Option, none, some, List, [], ◌∷◌,
  ◌++◌, arith, Bool-cases, inl, inr,
}
use exbanka_3_backend.Prelude.Except.{Except, ok, err, Except-cases}
use exbanka_3_backend.Cards.Types.{
  CardStatus, aktivna, blokirana, deaktivirana, is_deaktivirana, Card, CardTable, CardStmt,
  CardError, CardEnv, find_by_id, save, has_number,
}
use exbanka_3_backend.Cards.Service.{
  CreateCardInput, create_checks, card_of, insert, create_card, save_if, block_checks, block_card,
  unblock_checks, unblock_card, deactivate_checks, deactivate_card, CardOperation, creates, blocks,
  unblocks, deactivates, perform,
}
use exbanka_3_backend.Cards.Sequences.{
  IsLive, block_checks-IsLive, unblock_checks-IsLive, deactivate_checks-IsLive, perform_all,
}

find-append :
    (k : ℕ) (cards : List Card) (c d : Card)
    → find_by_id k cards ≡ some d
    → find_by_id k (cards ++ c ∷ []) ≡ some d
unfolding find_by_id
find-append k [] c d found = cc
find-append k (b ∷ cards) c d found = ground (arith, find-append k cards c d)

find-save_ne :
    (k : ℕ) (card : Card) (cards : List Card)
    → (card.id == k) ≡ false
    → find_by_id k (save card cards) ≡ find_by_id k cards
unfolding find_by_id save
find-save_ne k card [] other = refl
find-save_ne k card (b ∷ cards) other = ground (arith, find-save_ne k card cards other)

abbrev is_gone : Option Card → Bool
is_gone none = false
is_gone (some c) = is_deaktivirana c.status

module _ (k : ℕ) (d : Card) (t : CardTable) (found : find_by_id k t.cards ≡ some d)
    (gone : d.status ≡ deaktivirana) where
  insert-stays : (env : CardEnv) (card : Card) → find_by_id k (insert env card t).1.cards ≡ some d
  unfolding insert
  insert-stays env card =
      elim (Bool-cases (env.fails CardStmt.create_card || has_number card.broj_kartice t.cards)) [
        | inl broken ↦ rw broken found
        | inr fine ↦ rw fine (find-append k t.cards card d found)
      ]

  create_card-stays :
      (env : CardEnv) (input : CreateCardInput) (middle cvv : ℕ)
      → find_by_id k (create_card env input middle cvv t).1.cards ≡ some d
  unfolding create_card
  create_card-stays env input middle cvv = elim (Except-cases (create_checks env input t.cards)) [
    | inr (e, refused) ↦ rw refused found
    | inl (account, passed) ↦ rw passed (insert-stays env (card_of env input middle cvv t.next_id))
  ]

  live-other : (j : ℕ) (c : Card) → IsLive j c t → (c.id == k) ≡ false
  live-other j c (there, at, live) = elim (Bool-cases (c.id == k)) [
    | inr other ↦ other
    | inl same ↦
        let e : j ≡ k = ground arith in
        let bad : true ≡ false =
          sym (ap is_deaktivirana gone)
          ∙ ap is_gone (sym found ∙ ap (λ i. find_by_id i t.cards) (sym e) ∙ there)
          ∙ live in
        absurd cc
  ]

  save_if-stays :
      (env : CardEnv) (new : CardStatus) (r : Except CardError Card) (j : ℕ)
      → ((c : Card) → r ≡ ok c → IsLive j c t)
      → find_by_id k (save_if env new t r).1.cards ≡ some d
  save_if-stays env new (err e) j live = found
  save_if-stays env new (ok c) j live = elim (Bool-cases (env.fails CardStmt.save_card)) [
    | inl broken ↦ rw broken found
    | inr fine ↦
        rw fine (
          find-save_ne k (record c { status = new }) t.cards (live-other j c (live c refl)) ∙ found)
  ]

  perform-stays :
      (env : CardEnv) (op : CardOperation) → find_by_id k (perform env op t).cards ≡ some d
  unfolding block_card unblock_card deactivate_card
  perform-stays env (creates input middle cvv) = create_card-stays env input middle cvv
  perform-stays env (blocks j by) =
      save_if-stays env blokirana (block_checks env j by t) j
        (λ c h. block_checks-IsLive env t j c by h)
  perform-stays env (unblocks j) =
      save_if-stays env aktivna (unblock_checks env j t) j
        (λ c h. unblock_checks-IsLive env t j c h)
  perform-stays env (deactivates j) =
      save_if-stays env deaktivirana (deactivate_checks env j t) j
        (λ c h. deactivate_checks-IsLive env t j c h)

-- A deactivated card is found unchanged after any operations on cards, in any order and whichever
-- statements fail.
pub perform_all-stays :
    (k : ℕ) (d : Card) (ops : List (CardEnv × CardOperation)) (t : CardTable)
    → find_by_id k t.cards ≡ some d
    → d.status ≡ deaktivirana
    → find_by_id k (perform_all ops t).cards ≡ some d
unfolding perform_all
perform_all-stays k d [] t found gone = found
perform_all-stays k d ((env, op) ∷ rest) t found gone =
    perform_all-stays k d rest (perform env op t) (perform-stays k d t found gone env op) gone
