-- ===== src/Cards/Tests.antt =====
-- Tests of the cards, and the properties at concrete inputs.
use exbanka_3_backend.Prelude.{◌≡◌, refl, false, none, some, List, [], ◌∷◌, ◌+◌, ◌*◌, arith}
use exbanka_3_backend.Prelude.Text.{codes, text_eq}
use exbanka_3_backend.Cards.Types.{
  deaktivirana, Card, AccountInfo, CardTable, CardEnv, find_by_id, count_where,
}
use exbanka_3_backend.Cards.Service.{CreateCardInput, CardOperation, creates, blocks, unblocks}
use exbanka_3_backend.Cards.Limits.{IsWithin}
use exbanka_3_backend.Cards.Sequences.{perform_all, perform_all-IsWithin}
use exbanka_3_backend.Cards.Deactivated.{perform_all-stays}

abbrev personal : AccountInfo
personal = record { vrsta = codes "licni"; client_id = some 7 }

abbrev env : CardEnv
env = record {
  fails = λ s. false;
  accounts = λ k. some personal;
  now = 1000;
  add_years = λ years at. at + years * 31536000;
}

abbrev old_card : Card
old_card = record {
  id = 1;
  broj_kartice = codes "4000000000000002";
  cvv = codes "123";
  vrsta_kartice = codes "visa";
  naziv_kartice = codes "Visa";
  account_id = 3;
  client_id = 7;
  status = deaktivirana;
  ovlasceno_lice_id = none;
  datum_kreiranja = 0;
  datum_isteka = 157680000;
}

abbrev table : CardTable
table = record { cards = old_card ∷ []; next_id = 2 }

abbrev wish : CreateCardInput
wish = record {
  account_id = 3;
  client_id = 7;
  ovlasceno_lice_id = none;
  vrsta_kartice = codes "visa";
  naziv_kartice = codes "Visa";
}

abbrev ops : List (CardEnv × CardOperation)
ops =
    (env, creates wish 17 555)
    ∷ (env, blocks 2 7)
    ∷ (env, unblocks 1)
    ∷ (env, creates wish 18 556)
    ∷ []

table-IsWithin : IsWithin personal 3 7 table
unfolding count_where text_eq
table-IsWithin = ground arith

perform_all-IsWithin_example : IsWithin personal 3 7 (perform_all ops table)
perform_all-IsWithin_example =
    perform_all-IsWithin personal 3 7 ops table (refl, (refl, (refl, (refl, tt)))) table-IsWithin

old_card-found : find_by_id 1 table.cards ≡ some old_card
unfolding find_by_id
old_card-found = refl

perform_all-stays_example : find_by_id 1 (perform_all ops table).cards ≡ some old_card
perform_all-stays_example = perform_all-stays 1 old_card ops table old_card-found refl
