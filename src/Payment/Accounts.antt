-- ===== src/Payment/Accounts.antt =====
-- Laws of the account rows of payment-service (internal/repository/account_repo.go) under updates.
use exbanka_3_backend.Prelude.Text.{Text, text_eq}
use exbanka_3_backend.Prelude.{Bool-cases, inl, inr, ◌==◌}
use exbanka_3_backend.Payment.Repository.{find_by_broj_racuna}
use exbanka_3_backend.Prelude.{ℕ, ◌≡◌, ◌≢◌, refl, none, some, List, [], ◌∷◌, arith}
use exbanka_3_backend.Prelude.Int.{ℤ, pos, ◌+ℤ◌, int_laws}
use exbanka_3_backend.Payment.Types.{Account, Payment}
use exbanka_3_backend.Payment.Repository.{find_account, update_fields, find_payment, update_payment}

-- An update that does not change ids.
abbrev pub KeepsId : (Account → Account) → Type 0
KeepsId f = (a : Account) → (f a).id ≡ a.id

pub find_account-id :
    (k : ℕ) (rows : List Account) (a : Account) → find_account k rows ≡ some a → a.id ≡ k
unfolding find_account
find_account-id k [] a h = cc
find_account-id k (x ∷ rows) a h = ground (arith, find_account-id k rows a)

pub find-update_self :
    (k : ℕ) (f : Account → Account) (rows : List Account) (a : Account)
    → KeepsId f
    → find_account k rows ≡ some a
    → find_account k (update_fields k f rows) ≡ some (f a)
unfolding find_account update_fields
find-update_self k f [] a keeps h = cc
find-update_self k f (x ∷ rows) a keeps h =
    ground (arith, keeps x, find-update_self k f rows a keeps)

pub find-update_ne :
    (j k : ℕ) (f : Account → Account) (rows : List Account)
    → KeepsId f
    → j ≢ k
    → find_account j (update_fields k f rows) ≡ find_account j rows
unfolding find_account update_fields
find-update_ne j k f [] keeps h = refl
find-update_ne j k f (x ∷ rows) keeps h = ground (arith, keeps x, find-update_ne j k f rows keeps h)

-- `id` is the primary key.
abbrev pub UniqueIds : List Account → Type 0
UniqueIds [] = Unit {0}
UniqueIds (a ∷ rows) = (find_account a.id rows ≡ none) × UniqueIds rows

pub broj_racuna-found :
    (n : Text) (rows : List Account) (a : Account)
    → UniqueIds rows
    → find_by_broj_racuna n rows ≡ some a
    → find_account a.id rows ≡ some a
unfolding find_by_broj_racuna find_account
broj_racuna-found n [] a u h = cc
broj_racuna-found n (x ∷ rows) a (fresh, u) h = elim (Bool-cases (text_eq x.broj_racuna n)) [
  | inl same ↦ let e : x ≡ a = ground arith in rw e (ground arith)
  | inr other ↦
      let found = broj_racuna-found n rows a u (ground arith) in
      elim (Bool-cases (x.id == a.id)) [
        | inl clash ↦ absurd (ground arith)
        | inr apart ↦ rw apart found
      ]
]

pub total_stanje : List Account → ℤ
total_stanje [] = pos 0
total_stanje (a ∷ rows) = a.stanje +ℤ total_stanje rows

find-update_none :
    (j k : ℕ) (f : Account → Account) (rows : List Account)
    → KeepsId f
    → find_account j rows ≡ none
    → find_account j (update_fields k f rows) ≡ none
unfolding find_account update_fields
find-update_none j k f [] keeps h = refl
find-update_none j k f (x ∷ rows) keeps h =
    ground (arith, keeps x, find-update_none j k f rows keeps)

pub update-absent :
    (k : ℕ) (f : Account → Account) (rows : List Account)
    → find_account k rows ≡ none
    → update_fields k f rows ≡ rows
unfolding find_account update_fields
update-absent k f [] h = refl
update-absent k f (x ∷ rows) h = ground (arith, update-absent k f rows)

pub update-UniqueIds :
    (k : ℕ) (f : Account → Account) (rows : List Account)
    → KeepsId f
    → UniqueIds rows
    → UniqueIds (update_fields k f rows)
unfolding update_fields
update-UniqueIds k f [] keeps u = tt
update-UniqueIds k f (x ∷ rows) keeps (new, u) =
    ground
      (arith, keeps x, find-update_none x.id k f rows keeps new, update-UniqueIds k f rows keeps u)

-- One row of a table with unique ids changes the total by what it changes itself.
pub total-update :
    (k : ℕ) (f : Account → Account) (rows : List Account) (a : Account)
    → UniqueIds rows
    → find_account k rows ≡ some a
    → total_stanje (update_fields k f rows) +ℤ a.stanje ≡ total_stanje rows +ℤ (f a).stanje
unfolding total_stanje update_fields find_account
total-update k f [] a u h = cc
total-update k f (x ∷ rows) a (new, u) h =
    grind (int_laws, update-absent k f rows, total-update k f rows a u)

pub find_payment-update_self :
    (k : ℕ) (f : Payment → Payment) (rows : List Payment) (p : Payment)
    → ((q : Payment) → (f q).id ≡ q.id)
    → find_payment k rows ≡ some p
    → find_payment k (update_payment k f rows) ≡ some (f p)
unfolding find_payment update_payment
find_payment-update_self k f [] p keeps h = cc
find_payment-update_self k f (x ∷ rows) p keeps h =
    ground (arith, keeps x, find_payment-update_self k f rows p keeps)
