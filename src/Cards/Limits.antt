-- ===== src/Cards/Limits.antt =====
-- The limits on the cards of an account (account-service/internal/service/card_service.go).
use exbanka_3_backend.Prelude.{
  ℕ, ◌==◌, ◌+◌, ◌≤◌, ◌≡◌, refl, sym, ap, ◌∙◌, leb, ◌&&◌, ◌||◌, not, Bool, true, false, Option, none,
  some, List, [], ◌∷◌, arith, Bool-cases, inl, inr,
}
use exbanka_3_backend.Prelude.Except.{
  Except, ok, err, >>=-eq-ok, fail_if-eq-ok, read, read-eq-ok, Except-cases,
}
use exbanka_3_backend.Cards.Types.{
  CardStatus, Card, AccountInfo, CardTable, CardStmt, CardError, CardEnv, find_by_id, count_where,
  has_number, is_some_id, valid_card_types,
}
use exbanka_3_backend.Cards.Service.{
  held_by, CreateCardInput, contains_str, is_poslovni, held_already, card_limit, create_checks,
  card_of, insert, create_card, save_if, load,
}
use exbanka_3_backend.Cards.Counts.{
  count_where-append, count_where-save, count_where-le, find-here, find-later,
}

-- The cards that count: those of the account, or on a business account those of one client himself.
abbrev is_none_id : Option ℕ → Bool
is_none_id none = true
is_none_id (some k) = false

abbrev pub counted : Bool → ℕ → ℕ → ℕ → ℕ → Option ℕ → Bool
counted true k client of_client of_account lice =
    (of_client == client && of_account == k) && is_none_id lice
counted false k client of_client of_account lice = of_account == k

abbrev pub counts : Bool → ℕ → ℕ → Card → Bool
counts business k client c = counted business k client c.client_id c.account_id c.ovlasceno_lice_id

abbrev pub IsWithin : AccountInfo → ℕ → ℕ → CardTable → Type 0
IsWithin a k client t = count_where (counts (is_poslovni a) k client) t.cards ≤ card_limit a

counted-account :
    (business : Bool) (k client of_client of_account : ℕ) (lice : Option ℕ)
    → counted business k client of_client of_account lice ≡ true
    → of_account ≡ k
counted-account true k client of_client of_account lice h = ground arith
counted-account false k client of_client of_account lice h = ground arith

counts-held :
    (business : Bool) (lice : Option ℕ) (k client : ℕ) (input : CreateCardInput) (cards : List Card)
    → counted business k client input.client_id input.account_id lice ≡ true
    → count_where (counts business k client) cards ≤ held_by business lice input cards
counts-held true (some l) k client input cards h = absurd (ground arith)
counts-held true none k client input cards h =
    count_where-le (counts true k client)
      (λ c. c.client_id == input.client_id && c.account_id == input.account_id) cards
      (λ c g. ground arith)
counts-held false lice k client input cards h =
    count_where-le (counts false k client) (λ c. c.account_id == input.account_id) cards
      (λ c g. ground arith)

abbrev info_or : AccountInfo → Except CardError AccountInfo → AccountInfo
info_or b (ok a) = a
info_or b (err e) = b

room :
    (env : CardEnv) (input : CreateCardInput) (cards : List Card) (account : AccountInfo)
    → create_checks env input cards ≡ ok account
    → (env.accounts input.account_id ≡ some account)
      × (leb (card_limit account) (held_already account input cards) ≡ false)
unfolding create_checks
room env input cards account h =
    let (c1, h1) =
      fail_if-eq-ok (not (contains_str valid_card_types input.vrsta_kartice)) CardError.invalid_type
        _ h in
    let (b, r, h2) =
      >>=-eq-ok
        (read (env.fails CardStmt.find_account) (env.accounts input.account_id)
          CardError.account_not_found)
        _ h1 in
    let (d, at) =
      read-eq-ok (env.fails CardStmt.find_account) (env.accounts input.account_id)
        CardError.account_not_found r in
    let (c3, h3) = fail_if-eq-ok (input.client_id == 0) CardError.client_required _ h2 in
    let (c4, h4) =
      fail_if-eq-ok (not (is_poslovni b) && not (is_some_id input.client_id b.client_id))
        CardError.not_owner _ h3 in
    let (c5, h5) =
      fail_if-eq-ok (env.fails CardStmt.count_cards) (CardError.database CardStmt.count_cards) _
        h4 in
    let (c6, h6) =
      fail_if-eq-ok (leb (card_limit b) (held_already b input cards)) CardError.card_limit_exceeded
        _ h5 in
    let same : b ≡ account = ap (info_or account) h6 in rw (sym same) (at, c6)

abbrev info_of : AccountInfo → Option AccountInfo → AccountInfo
info_of a none = a
info_of a (some b) = b

below : (n held limit : ℕ) → n ≤ held → leb limit held ≡ false → n + 1 ≤ limit
below n held limit h free = ground arith

module _ (a : AccountInfo) (k client : ℕ) (t : CardTable) (within : IsWithin a k client t) where
  insert-IsWithin :
      (env : CardEnv) (card : Card)
      → (counts (is_poslovni a) k client card ≡ true
          → count_where (counts (is_poslovni a) k client) t.cards + 1 ≤ card_limit a)
      → IsWithin a k client (insert env card t).1
  unfolding insert
  insert-IsWithin env card space =
      let test = counts (is_poslovni a) k client in
      elim (Bool-cases (env.fails CardStmt.create_card || has_number card.broj_kartice t.cards)) [
        | inl broken ↦ rw broken within
        | inr fine ↦
            rw (fine, count_where-append test t.cards card)
              (elim (Bool-cases (test card)) [
                | inl mine ↦ rw mine (space mine)
                | inr other ↦ rw other within
              ])
      ]

  pub create_card-IsWithin :
      (env : CardEnv) (input : CreateCardInput) (middle cvv : ℕ)
      → env.accounts k ≡ some a
      → IsWithin a k client (create_card env input middle cvv t).1
  unfolding create_card card_of
  create_card-IsWithin env input middle cvv known =
      elim (Except-cases (create_checks env input t.cards)) [
        | inr (e, refused) ↦ rw refused within
        | inl (account, passed) ↦ rw passed (
            insert-IsWithin env (card_of env input middle cvv t.next_id) (λ mine.
              let (at, roomy) = room env input t.cards account passed in
              let here =
                counted-account (is_poslovni a) k client input.client_id input.account_id
                  input.ovlasceno_lice_id mine in
              let same : a ≡ account =
                ap (info_of a) (sym known ∙ ap env.accounts (sym here) ∙ at) in
              let free : leb (card_limit a) (held_already a input t.cards) ≡ false =
                rw same roomy in
              let held =
                counts-held (is_poslovni a) input.ovlasceno_lice_id k client input t.cards mine in
              below _ _ _ held free))
      ]

  pub save_if-IsWithin :
      (env : CardEnv) (new : CardStatus) (r : Except CardError Card)
      → ((c : Card) → r ≡ ok c → find_by_id c.id t.cards ≡ some c)
      → IsWithin a k client (save_if env new t r).1
  save_if-IsWithin env new (err e) found = within
  save_if-IsWithin env new (ok c) found = elim (Bool-cases (env.fails CardStmt.save_card)) [
    | inl broken ↦ rw broken within
    | inr fine ↦ rw fine (
        rw
          (count_where-save (counts (is_poslovni a) k client) (record c { status = new }) c t.cards
            (found c refl) refl)
          within)
  ]

find-id : (k : ℕ) (cards : List Card) (c : Card) → find_by_id k cards ≡ some c → c.id ≡ k
unfolding find_by_id
find-id k [] c found = cc
find-id k (d ∷ cards) c found = elim (Bool-cases (d.id == k)) [
  | inr later ↦ find-id k cards c (sym (find-later k d cards later) ∙ found)
  | inl here ↦ ap (λ r. r.id) (find-here k d c cards here found) ∙ ground arith
]

pub load-found :
    (env : CardEnv) (k : ℕ) (t : CardTable) (c : Card)
    → load env k t ≡ ok c
    → (find_by_id k t.cards ≡ some c) × (c.id ≡ k)
load-found env k t c h =
    let found =
      (read-eq-ok (env.fails CardStmt.find_card) (find_by_id k t.cards) CardError.card_not_found
        h).1 in
    (found, find-id k t.cards c found)
