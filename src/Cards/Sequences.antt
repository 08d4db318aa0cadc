-- ===== src/Cards/Sequences.antt =====
-- Operations on cards in sequence, and the limits over them (account-service/internal/service/
-- card_service.go).
use exbanka_3_backend.Prelude.{ℕ, ◌==◌, ◌≡◌, refl, sym, ap, ◌∙◌, not, false, some, List, [], ◌∷◌}
use exbanka_3_backend.Prelude.Except.{Except, ok, err, >>=-eq-ok, fail_if-eq-ok}
use exbanka_3_backend.Cards.Types.{
  CardStatus, aktivna, blokirana, deaktivirana, other_status, is_aktivna, is_blokirana,
  is_deaktivirana, Card, AccountInfo, CardTable, CardError, CardEnv, find_by_id,
}
use exbanka_3_backend.Cards.Service.{
  block_checks, block_card, unblock_checks, unblock_card, deactivate_checks, deactivate_card, load,
  CardOperation, creates, blocks, unblocks, deactivates, perform,
}
use exbanka_3_backend.Cards.Limits.{IsWithin, create_card-IsWithin, save_if-IsWithin, load-found}

-- A card that is loaded and may still change its status.
abbrev pub IsLive : ℕ → Card → CardTable → Type 0
IsLive k c t = (find_by_id k t.cards ≡ some c) × (c.id ≡ k) × (is_deaktivirana c.status ≡ false)

active-live : (s : CardStatus) → not (is_aktivna s) ≡ false → is_deaktivirana s ≡ false
active-live aktivna h = refl
active-live blokirana h = refl
active-live deaktivirana h = cc
active-live (other_status s) h = refl

blocked-live : (s : CardStatus) → not (is_blokirana s) ≡ false → is_deaktivirana s ≡ false
blocked-live aktivna h = refl
blocked-live blokirana h = refl
blocked-live deaktivirana h = cc
blocked-live (other_status s) h = refl

abbrev card_in : Card → Except CardError Card → Card
card_in d (ok c) = c
card_in d (err e) = d

module _ (env : CardEnv) (t : CardTable) (k : ℕ) (c : Card) where
  pub block_checks-IsLive : (client : ℕ) → block_checks env k client t ≡ ok c → IsLive k c t
  unfolding block_checks
  block_checks-IsLive client h =
      let (b, loaded, h1) = >>=-eq-ok (load env k t) _ h in
      let (own, h2) = fail_if-eq-ok (not (b.client_id == client)) CardError.not_the_clients _ h1 in
      let (active, h3) = fail_if-eq-ok (not (is_aktivna b.status)) CardError.wrong_status _ h2 in
      let same : b ≡ c = ap (card_in b) h3 in
      let (found, at) = load-found env k t b loaded in
      rw (sym same) (found, at, active-live b.status active)

  pub unblock_checks-IsLive : unblock_checks env k t ≡ ok c → IsLive k c t
  unfolding unblock_checks
  unblock_checks-IsLive h =
      let (b, loaded, h1) = >>=-eq-ok (load env k t) _ h in
      let (blocked, h2) = fail_if-eq-ok (not (is_blokirana b.status)) CardError.wrong_status _ h1 in
      let same : b ≡ c = ap (card_in b) h2 in
      let (found, at) = load-found env k t b loaded in
      rw (sym same) (found, at, blocked-live b.status blocked)

  pub deactivate_checks-IsLive : deactivate_checks env k t ≡ ok c → IsLive k c t
  unfolding deactivate_checks
  deactivate_checks-IsLive h =
      let (b, loaded, h1) = >>=-eq-ok (load env k t) _ h in
      let (live, h2) = fail_if-eq-ok (is_deaktivirana b.status) CardError.wrong_status _ h1 in
      let same : b ≡ c = ap (card_in b) h2 in
      let (found, at) = load-found env k t b loaded in rw (sym same) (found, at, live)

pub live-found :
    (k : ℕ) (c : Card) (t : CardTable) → IsLive k c t → find_by_id c.id t.cards ≡ some c
live-found k c t (found, at, live) = ap (λ j. find_by_id j t.cards) at ∙ found

unfoldable pub perform_all : List (CardEnv × CardOperation) → CardTable → CardTable
perform_all [] t = t
perform_all ((env, op) ∷ rest) t = perform_all rest (perform env op t)

-- The account does not change its kind meanwhile.
abbrev pub AllSee : ℕ → AccountInfo → List (CardEnv × CardOperation) → Type 0
AllSee k a [] = Unit {0}
AllSee k a ((env, op) ∷ rest) = (env.accounts k ≡ some a) × AllSee k a rest

perform-IsWithin :
    (a : AccountInfo) (k client : ℕ) (env : CardEnv) (op : CardOperation) (t : CardTable)
    → env.accounts k ≡ some a
    → IsWithin a k client t
    → IsWithin a k client (perform env op t)
unfolding block_card unblock_card deactivate_card
perform-IsWithin a k client env (creates input middle cvv) t known within =
    create_card-IsWithin a k client t within env input middle cvv known
perform-IsWithin a k client env (blocks j by) t known within =
    save_if-IsWithin a k client t within env blokirana (block_checks env j by t)
      (λ c h. live-found j c t (block_checks-IsLive env t j c by h))
perform-IsWithin a k client env (unblocks j) t known within =
    save_if-IsWithin a k client t within env aktivna (unblock_checks env j t)
      (λ c h. live-found j c t (unblock_checks-IsLive env t j c h))
perform-IsWithin a k client env (deactivates j) t known within =
    save_if-IsWithin a k client t within env deaktivirana (deactivate_checks env j t)
      (λ c h. live-found j c t (deactivate_checks-IsLive env t j c h))

-- Whatever cards are asked for, blocked, unblocked and deactivated, in any order and whichever
-- statements fail, while the account stays as it is: the cards of a personal account stay at most
-- two, and on a business account those of one client that are not issued to an authorised person stay
-- at most one, if they are so at the start.
pub perform_all-IsWithin :
    (a : AccountInfo) (k client : ℕ) (ops : List (CardEnv × CardOperation)) (t : CardTable)
    → AllSee k a ops
    → IsWithin a k client t
    → IsWithin a k client (perform_all ops t)
unfolding perform_all
perform_all-IsWithin a k client [] t seen within = within
perform_all-IsWithin a k client ((env, op) ∷ rest) t (known, seen) within =
    perform_all-IsWithin a k client rest (perform env op t) seen
      (perform-IsWithin a k client env op t known within)
