-- ===== src/Cards/Service.antt =====
-- `CreateCard`, `BlockCardWithNotify`, `UnblockCardWithNotify` and `DeactivateCardWithNotify`
-- (account-service/internal/service/card_service.go). The notifications, whose errors are dropped, are
-- left out.
use exbanka_3_backend.Prelude.{
  ℕ, ◌==◌, ◌+◌, leb, ◌&&◌, ◌||◌, not, Bool, true, false, Option, none, some, List, [], ◌∷◌, ◌++◌,
  if◌then◌else◌,
}
use exbanka_3_backend.Prelude.Text.{Text, codes, text_eq}
use exbanka_3_backend.Prelude.Except.{Except, ok, err, ◌>>=◌, ◌>>◌, fail_if, read}
use exbanka_3_backend.Numbers.CardNumber.{generate_card_number, generate_cvv}
use exbanka_3_backend.Cards.Types.{
  CardStatus, aktivna, blokirana, deaktivirana, is_aktivna, is_blokirana, is_deaktivirana, Card,
  valid_card_types, AccountInfo, CardTable, CardStmt, CardError, CardEnv, find_by_id,
  count_by_account_id, count_by_client_and_account, count_by_ovlasceno_lice, has_number, save,
  is_some_id,
}

-- The e-mail and the name of the client are left out.
pub record CreateCardInput : Type 0 where
  pub account_id : ℕ
  pub client_id : ℕ
  pub ovlasceno_lice_id : Option ℕ
  pub vrsta_kartice : Text
  pub naziv_kartice : Text

unfoldable pub contains_str : List Text → Text → Bool
contains_str [] val = false
contains_str (s ∷ slice) val = let rest = contains_str slice val in text_eq s val || rest

abbrev pub is_poslovni : AccountInfo → Bool
is_poslovni account = text_eq account.vrsta (codes "poslovni")

-- The limit on cards of the account, of its owner or of the authorised person.
abbrev pub held_by : Bool → Option ℕ → CreateCardInput → List Card → ℕ
held_by true (some lice) input cards = count_by_ovlasceno_lice lice cards
held_by true none input cards = count_by_client_and_account input.client_id input.account_id cards
held_by false lice input cards = count_by_account_id input.account_id cards

abbrev pub held_already : AccountInfo → CreateCardInput → List Card → ℕ
held_already account input cards = held_by (is_poslovni account) input.ovlasceno_lice_id input cards

abbrev pub card_limit : AccountInfo → ℕ
card_limit account = if is_poslovni account then 1 else 2

unfoldable pub create_checks : CardEnv → CreateCardInput → List Card → Except CardError AccountInfo
create_checks env input cards = do
  fail_if (not (contains_str valid_card_types input.vrsta_kartice)) CardError.invalid_type
  account ←
      read (env.fails CardStmt.find_account) (env.accounts input.account_id)
        CardError.account_not_found
  fail_if (input.client_id == 0) CardError.client_required
  fail_if (not (is_poslovni account) && not (is_some_id input.client_id account.client_id))
      CardError.not_owner
  fail_if (env.fails CardStmt.count_cards) (CardError.database CardStmt.count_cards)
  fail_if (leb (card_limit account) (held_already account input cards))
      CardError.card_limit_exceeded
  ok account

-- The new card, with the drawn digits of its number and of its CVV.
unfoldable pub card_of : CardEnv → CreateCardInput → ℕ → ℕ → ℕ → Card
card_of env input middle cvv id = record {
  id = id;
  broj_kartice = generate_card_number input.vrsta_kartice middle;
  cvv = generate_cvv cvv;
  vrsta_kartice = input.vrsta_kartice;
  naziv_kartice = input.naziv_kartice;
  account_id = input.account_id;
  client_id = input.client_id;
  status = aktivna;
  ovlasceno_lice_id = input.ovlasceno_lice_id;
  datum_kreiranja = env.now;
  datum_isteka = env.add_years 5 env.now;
}

-- `Create` of the repository: the new row has the next id, and its number is unique.
unfoldable pub insert : CardEnv → Card → CardTable → Except CardError Card × CardTable
insert env card t =
    if env.fails CardStmt.create_card || has_number card.broj_kartice t.cards
    then (err (CardError.database CardStmt.create_card), t)
    else (ok card, record { cards = t.cards ++ card ∷ []; next_id = t.next_id + 1 })

abbrev pub insert_if :
    CardEnv → Card → CardTable → Except CardError AccountInfo → Except CardError Card × CardTable
insert_if env card t (err e) = (err e, t)
insert_if env card t (ok account) = insert env card t

unfoldable pub create_card :
    CardEnv → CreateCardInput → ℕ → ℕ → CardTable → Except CardError Card × CardTable
create_card env input middle cvv t =
    insert_if env (card_of env input middle cvv t.next_id) t (create_checks env input t.cards)

abbrev pub save_if :
    CardEnv → CardStatus → CardTable → Except CardError Card → Except CardError Card × CardTable
save_if env new t (err e) = (err e, t)
save_if env new t (ok c) =
    if env.fails CardStmt.save_card then (err (CardError.database CardStmt.save_card), t) else (
      ok (record c { status = new }),
      record t { cards = save (record c { status = new }) t.cards },
    )

abbrev pub load : CardEnv → ℕ → CardTable → Except CardError Card
load env k t = read (env.fails CardStmt.find_card) (find_by_id k t.cards) CardError.card_not_found

unfoldable pub block_checks : CardEnv → ℕ → ℕ → CardTable → Except CardError Card
block_checks env k client t = do
  card ← load env k t
  fail_if (not (card.client_id == client)) CardError.not_the_clients
  fail_if (not (is_aktivna card.status)) CardError.wrong_status
  ok card

unfoldable pub block_card : CardEnv → ℕ → ℕ → CardTable → Except CardError Card × CardTable
block_card env k client t = save_if env blokirana t (block_checks env k client t)

unfoldable pub unblock_checks : CardEnv → ℕ → CardTable → Except CardError Card
unblock_checks env k t = do
  card ← load env k t
  fail_if (not (is_blokirana card.status)) CardError.wrong_status
  ok card

unfoldable pub unblock_card : CardEnv → ℕ → CardTable → Except CardError Card × CardTable
unblock_card env k t = save_if env aktivna t (unblock_checks env k t)

unfoldable pub deactivate_checks : CardEnv → ℕ → CardTable → Except CardError Card
deactivate_checks env k t = do
  card ← load env k t
  fail_if (is_deaktivirana card.status) CardError.wrong_status
  ok card

unfoldable pub deactivate_card : CardEnv → ℕ → CardTable → Except CardError Card × CardTable
deactivate_card env k t = save_if env deaktivirana t (deactivate_checks env k t)

-- A request of a client or an employee, with the digits that it draws.
pub data CardOperation : Type 0 where
  creates : CreateCardInput → ℕ → ℕ → CardOperation
  blocks : ℕ → ℕ → CardOperation
  unblocks : ℕ → CardOperation
  deactivates : ℕ → CardOperation

abbrev pub perform : CardEnv → CardOperation → CardTable → CardTable
perform env (creates input middle cvv) t = (create_card env input middle cvv t).1
perform env (blocks k client) t = (block_card env k client t).1
perform env (unblocks k) t = (unblock_card env k t).1
perform env (deactivates k) t = (deactivate_card env k t).1
