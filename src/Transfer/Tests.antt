-- ===== src/Transfer/Tests.antt =====
-- A transfer of 100 EUR into USD, and the theorems at this input.
use exbanka_3_backend.Prelude.{
  ℕ, ◌≡◌, refl, ap, Bool, true, false, Option, none, some, List, [], ◌∷◌, arith, if◌then◌else◌,
  Bool-cases, inl, inr,
}
use exbanka_3_backend.Prelude.Int.{pos, ◌+ℤ◌, ◌-ℤ◌}
use exbanka_3_backend.Prelude.Text.{Text, codes, text_eq}
use exbanka_3_backend.Prelude.Db.{Transactions, reliable}
use exbanka_3_backend.Prelude.Except.{ok, err}
use exbanka_3_backend.Payment.{Account, find_account, update_fields}
use exbanka_3_backend.Payment.Accounts.{UniqueIds}
use exbanka_3_backend.Transfer.Types.{
  Tables, Error, Env, CreateTransferInput, TransferPreview, uspesno,
}
use exbanka_3_backend.Transfer.Repository.{
  Pluck, is_firma, is_bank_account, find_bank_account, update_fields_tx, find_transfer,
  update_transfer,
}
use exbanka_3_backend.Transfer.Settlement.{
  charged, raised, lowered, commission_in_rsd, second_commission, exchange_writes, exchange,
  complete, settle_writes, settle_checks, settle_body, settle_transfer,
}
use exbanka_3_backend.Transfer.Service.{
  Rates, commission, rsd_amount, converted, preview_across, preview_of, prepare_transfer,
  transfer_row, create_transfer, create_and_settle_transfer,
}
use exbanka_3_backend.Transfer.Pricing.{SameCurrencies}
use exbanka_3_backend.Transfer.Conservation.{Conserves}
use exbanka_3_backend.Transfer.Whole.{create_and_settle_transfer-Conserves}
use exbanka_3_backend.Transfer.Types.{Code}
use exbanka_3_backend.Transfer.Refused.{Refuses, settle_transfer-Refuses}

abbrev first_id : (Account → Bool) → List Account → Option ℕ
first_id test [] = none
first_id test (a ∷ rows) = let rest = first_id test rows in if test a then some a.id else rest

first_id-found :
    (test : Account → Bool) (rows : List Account) (k : ℕ)
    → UniqueIds rows
    → first_id test rows ≡ some k
    → (a : Account) × (find_account k rows ≡ some a) × (test a ≡ true)
unfolding find_account
first_id-found test [] k u h = cc
first_id-found test (x ∷ rows) k (new, u) h = elim (Bool-cases (test x)) [
  | inl fits ↦ (x, ground arith, fits)
  | inr not_here ↦
      let (a, found, fits) = first_id-found test rows k u (ground arith) in (a, ground arith, fits)
]

abbrev gorm : Pluck
gorm = record { pluck = first_id; admitted = first_id-found }

abbrev account : ℕ → Option ℕ → ℕ → Text → ℕ → Account
account id client currency kod amount = record {
  id = id;
  broj_racuna = [];
  client_id = client;
  currency_id = currency;
  currency_kod = kod;
  raspolozivo_stanje = pos amount;
  stanje = pos amount;
  dnevni_limit = pos 100000;
  mesecni_limit = pos 100000;
  dnevna_potrosnja = pos 0;
  mesecna_potrosnja = pos 0;
  status = codes "aktivan";
}

abbrev euros : Account
euros = account 1 (some 7) 2 (codes "EUR") 50000

abbrev dollars : Account
dollars = account 2 (some 7) 3 (codes "USD") 0

abbrev before : Tables
before = record {
  accounts =
      euros
      ∷ dollars
      ∷ account 11 none 2 (codes "EUR") 100000
      ∷ account 12 none 3 (codes "USD") 100000
      ∷ account 13 none 1 (codes "RSD") 100000
      ∷ [];
  firma_accounts = 11 ∷ 12 ∷ 13 ∷ [];
  transfers = [];
}

abbrev no_faults : Env
no_faults = record { fails = λ s. false }

abbrev db : Transactions Tables Error
db = reliable (Error.connection 1)

-- 117 RSD for a euro, 0.01 USD for a dinar.
abbrev rates : Rates
rates from to = if text_eq from (codes "RSD") then some 10000 else some 117000000

abbrev input : CreateTransferInput
input = record { racun_posiljaoca_id = 1; racun_primaoca_id = 2; iznos = pos 10000 }

abbrev preview : TransferPreview
preview = record {
  valuta_iznosa = codes "EUR";
  konvertovani_iznos = pos 11642;
  iznos_rsd = 1170000000000;
  provizija = pos 50;
}

prepare-test : prepare_transfer rates no_faults input before ≡ ok preview
unfolding prepare_transfer find_account text_eq preview_of preview_across rsd_amount converted
    commission commission_in_rsd ◌+ℤ◌
prepare-test = refl

settles :
    (create_and_settle_transfer gorm db rates no_faults 5 input before).0
    ≡ ok (record (transfer_row 5 input preview) { status = uspesno })
unfolding create_and_settle_transfer create_transfer transfer_row settle_transfer settle_body
    settle_checks find_transfer find_account prepare_transfer text_eq preview_of preview_across
    rsd_amount converted commission commission_in_rsd ◌+ℤ◌ ◌-ℤ◌ settle_writes update_fields_tx
    update_fields charged exchange find_bank_account is_bank_account is_firma exchange_writes raised
    second_commission lowered complete update_transfer
settles = refl

before-UniqueIds : UniqueIds before.accounts
unfolding find_account
before-UniqueIds = (refl, (refl, (refl, (refl, (refl, tt)))))

at_euros : find_account 1 before.accounts ≡ some euros
unfolding find_account
at_euros = refl

at_dollars : find_account 2 before.accounts ≡ some dollars
unfolding find_account
at_dollars = refl

eur_not_usd : text_eq (codes "EUR") (codes "EUR") ≡ text_eq (codes "USD") (codes "EUR") → ⊥
unfolding text_eq
eur_not_usd h = cc

agree : SameCurrencies euros dollars
agree = record {
  by_id = λ e. cc;
  by_kod = λ e. absurd (let bad = ap (λ k. text_eq k (codes "EUR")) e in eur_not_usd bad);
}

create_and_settle_transfer-Conserves_example :
    (p : TransferPreview) × (prepare_transfer rates no_faults input before ≡ ok p)
    × Conserves
        (transfer_row 5 input p)
        euros
        dollars
        before
        (create_and_settle_transfer gorm db rates no_faults 5 input before).1
create_and_settle_transfer-Conserves_example =
    create_and_settle_transfer-Conserves rates no_faults input euros dollars before at_euros
      at_dollars gorm db 5 (record (transfer_row 5 input preview) { status = uspesno })
      before-UniqueIds agree settles

-- The same transfer, completed before.
abbrev completed_before : Tables
completed_before = record before {
  transfers = record (transfer_row 5 input preview) { status = uspesno } ∷ [];
}

refused :
    (settle_transfer gorm db no_faults (transfer_row 5 input preview) completed_before).0
    ≡ err (Error.verification Code.transfer_already_processed uspesno)
unfolding settle_transfer settle_body settle_checks find_transfer transfer_row
refused = refl

settle_transfer-Refuses_example :
    Refuses
      (transfer_row 5 input preview)
      (Error.verification Code.transfer_already_processed uspesno)
      completed_before
      (settle_transfer gorm db no_faults (transfer_row 5 input preview) completed_before).1
settle_transfer-Refuses_example =
    settle_transfer-Refuses gorm db no_faults (transfer_row 5 input preview) completed_before
      (Error.verification Code.transfer_already_processed uspesno) refl refused
