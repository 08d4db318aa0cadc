-- ===== src/Cards/Types.antt =====
-- The cards and their table (account-service/internal/models/card.go, internal/repository/card_repo.go).
use exbanka_3_backend.Prelude.{
  ℕ, ◌==◌, ◌+◌, ◌&&◌, ◌||◌, Bool, true, false, Option, none, some, List, [], ◌∷◌, if◌then◌else◌,
}
use exbanka_3_backend.Prelude.Text.{Text, codes, text_eq}

-- The three statuses, and any other text of the column.
pub data CardStatus : Type 0 where
  aktivna blokirana deaktivirana : CardStatus
  other_status : Text → CardStatus

abbrev pub is_aktivna : CardStatus → Bool
is_aktivna aktivna = true
is_aktivna _ = false

abbrev pub is_blokirana : CardStatus → Bool
is_blokirana blokirana = true
is_blokirana _ = false

abbrev pub is_deaktivirana : CardStatus → Bool
is_deaktivirana deaktivirana = true
is_deaktivirana _ = false

-- Times are seconds; the columns that gorm fills are left out.
pub record Card : Type 0 where
  pub id : ℕ
  pub broj_kartice : Text
  pub cvv : Text
  pub vrsta_kartice : Text
  pub naziv_kartice : Text
  pub account_id : ℕ
  pub client_id : ℕ
  pub status : CardStatus
  pub ovlasceno_lice_id : Option ℕ
  pub datum_kreiranja : ℕ
  pub datum_isteka : ℕ

unfoldable pub valid_card_types : List Text
valid_card_types = codes "visa" ∷ codes "mastercard" ∷ codes "dinacard" ∷ codes "amex" ∷ []

-- What a card needs of the account: `Vrsta` and `ClientID`.
pub record AccountInfo : Type 0 where
  pub vrsta : Text
  pub client_id : Option ℕ

pub record CardTable : Type 0 where
  pub cards : List Card
  pub next_id : ℕ

pub data CardStmt : Type 0 where
  find_card find_account count_cards create_card save_card : CardStmt

pub data CardError : Type 0 where
  invalid_type account_not_found client_required not_owner card_limit_exceeded : CardError
  card_not_found not_the_clients wrong_status : CardError
  database : CardStmt → CardError

-- The statements that fail, and what the clock and `AddDate` say.
pub record CardEnv : Type 0 where
  pub fails : CardStmt → Bool
  pub accounts : ℕ → Option AccountInfo
  pub now : ℕ
  pub add_years : ℕ → ℕ → ℕ

unfoldable pub find_by_id : ℕ → List Card → Option Card
find_by_id k [] = none
find_by_id k (c ∷ cards) = let rest = find_by_id k cards in if c.id == k then some c else rest

-- `Where(...).Count`.
abbrev pub plus_if : Bool → ℕ → ℕ
plus_if true n = n + 1
plus_if false n = n

unfoldable pub count_where : (Card → Bool) → List Card → ℕ
count_where test [] = 0
count_where test (c ∷ cards) = plus_if (test c) (count_where test cards)

abbrev pub count_by_account_id : ℕ → List Card → ℕ
count_by_account_id k = count_where (λ c. c.account_id == k)

abbrev pub count_by_client_and_account : ℕ → ℕ → List Card → ℕ
count_by_client_and_account client k = count_where (λ c. c.client_id == client && c.account_id == k)

abbrev pub is_some_id : ℕ → Option ℕ → Bool
is_some_id k none = false
is_some_id k (some j) = j == k

abbrev pub count_by_ovlasceno_lice : ℕ → List Card → ℕ
count_by_ovlasceno_lice k = count_where (λ c. is_some_id k c.ovlasceno_lice_id)

-- The unique index on the numbers.
unfoldable pub has_number : Text → List Card → Bool
has_number n [] = false
has_number n (c ∷ cards) = let rest = has_number n cards in text_eq c.broj_kartice n || rest

-- `Save` of a card that has its id writes every column of its row; the id is the primary key.
unfoldable pub save : Card → List Card → List Card
save card [] = []
save card (c ∷ cards) =
    let rest = save card cards in if c.id == card.id then card ∷ cards else c ∷ rest
