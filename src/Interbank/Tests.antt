-- ===== src/Interbank/Tests.antt =====
-- The acceptance of one option between the banks 222 and 333, and the theorems at this input.
use exbanka_3_backend.Prelude.{ℕ, ◌≡◌, refl, ◌⊎◌, true, false, none, some, List, [], ◌∷◌, ◌↔◌}
use exbanka_3_backend.Prelude.Int.{ℤ, pos, negsuc, ◌+ℤ◌, ◌-ℤ◌}
use exbanka_3_backend.Prelude.Text.{Text, codes, text_eq}
use exbanka_3_backend.Prelude.Except.{Except, ok}
use exbanka_3_backend.Prelude.Db.{Transactions, reliable, keeps}
use exbanka_3_backend.Payment.{Account, find_account, update_fields}
use exbanka_3_backend.Interbank.Messages.{
  ForeignBankId, tx_account_person, TxAccount, asset_monas, asset_option, Asset, Posting,
  Transaction, option_negotiation_not_found, TransactionVote, voting_no, voting_yes, bare,
}
use exbanka_3_backend.Interbank.Models.{
  InterbankOtcNegotiation, PendingTxStatus, pending, committed, InterbankPendingTx, Tables, Error,
  get_negotiation, is_tx, get_by_tx_id, Env,
}
use exbanka_3_backend.Interbank.Wallet.{
  uint_from, parse_client_local_id, eligible, first_eligible, lock_client_account, covers, taken,
  reserve_at, reserve,
}
use exbanka_3_backend.Interbank.Acceptance.{
  TimeLayouts, decimal, asset_group_key, add_amount, asset_sums, all_zero, check_balanced,
  OtcAcceptance, place_cash, place_option, place_by_asset, place_posting, place_postings, all_legs,
}
use exbanka_3_backend.Interbank.Terms.{
  parse_otc_acceptance, match_acceptance_terms, check_legs, same_option, same_settlement_date,
}
use exbanka_3_backend.Interbank.Processor.{
  pending_row, create_pending_row, new_tx_checks, reserve_and_record, on_new_tx, on_commit_tx,
  on_rollback_tx,
}
use exbanka_3_backend.Interbank.Steps.{IsKeyed, Backs}
use exbanka_3_backend.Interbank.Bodies.{flipped, committed_tables}
use exbanka_3_backend.Interbank.Ready.{IsFaultless}
use exbanka_3_backend.Interbank.Models.{rolled_back}
use exbanka_3_backend.Interbank.Sequences.{
  Message, new_tx, commit_tx, rollback_tx, handle_all, handle_all-Backs,
}
use exbanka_3_backend.Interbank.Answers.{
  Accepted, Done, on_new_tx-yes, on_new_tx-not_yes, on_commit_tx-Done,
}
use exbanka_3_backend.Interbank.Restores.{on_new_tx-rollback}
use exbanka_3_backend.Interbank.Commits.{on_new_tx-commit}
use exbanka_3_backend.Interbank.Finality.{handle_all-Resolved}
use exbanka_3_backend.Interbank.Balance.{sum_of, check_balanced_iff}

abbrev no_dates : TimeLayouts
no_dates = record { parse_rfc3339 = λ s. none; parse_date = λ s. none }

abbrev at_bank : ℕ → Text → ForeignBankId
at_bank routing id = record { routing_number = routing; id = id }

abbrev buyer : ForeignBankId
buyer = at_bank 333 (codes "client-5")

abbrev seller : ForeignBankId
seller = at_bank 222 (codes "s")

abbrev cash : Asset
cash = record {
  kind = asset_monas;
  monas = some (record { currency = codes "EUR" });
  stock = none;
  option = none;
}

abbrev call : Asset
call = record {
  kind = asset_option;
  monas = none;
  stock = none;
  option = some record {
    negotiation_id = at_bank 222 (codes "n");
    stock = record { ticker = codes "AB" };
    price_per_unit = record { currency = codes "EUR"; amount = pos 900 };
    settlement_date = codes "d";
    amount = pos 1000;
  };
}

abbrev person : ForeignBankId → TxAccount
person id = record { kind = tx_account_person; id = some id; num = [] }

abbrev posting : ForeignBankId → ℤ → Asset → Posting
posting id x a = record { account = person id; amount = x; asset = a }

abbrev acceptance : Transaction
acceptance = record {
  postings =
      posting buyer (negsuc 249) cash
      ∷ posting seller (pos 250) cash
      ∷ posting seller (negsuc 99) call
      ∷ posting buyer (pos 100) call
      ∷ [];
  transaction_id = at_bank 222 (codes "t");
  message = [];
  call_number = [];
  payment_code = [];
  payment_purpose = [];
}

abbrev negotiation : InterbankOtcNegotiation
negotiation = record {
  negotiation_routing_number = 222;
  negotiation_id = codes "n";
  buyer_routing_number = 333;
  buyer_id = codes "client-5";
  seller_routing_number = 222;
  seller_id = codes "s";
  stock_ticker = codes "AB";
  amount = pos 1000;
  price_per_unit_currency = codes "EUR";
  price_per_unit_amount = pos 900;
  premium_currency = codes "EUR";
  premium_amount = pos 250;
  settlement_date = codes "d";
  is_ongoing = true;
}

abbrev account : ℕ → ℕ → Account
account id client = record {
  id = id;
  broj_racuna = [];
  client_id = some client;
  currency_id = 2;
  currency_kod = codes "EUR";
  raspolozivo_stanje = pos 1000;
  stanje = pos 1000;
  dnevni_limit = pos 0;
  mesecni_limit = pos 0;
  dnevna_potrosnja = pos 0;
  mesecna_potrosnja = pos 0;
  status = codes "aktivan";
}

abbrev tables : Tables
tables = record {
  accounts = account 4 5 ∷ account 2 6 ∷ [];
  negotiations = negotiation ∷ [];
  pending_txs = [];
  contracts = [];
}

abbrev fine : Env
fine = record { fails = λ s. false }

abbrev db : Transactions Tables Error
db = reliable (Error.connection 0)

abbrev key : ForeignBankId
key = acceptance.transaction_id

tables-IsKeyed : IsKeyed tables
unfolding find_account
tables-IsKeyed = ((refl, (refl, tt)), tt)

acceptance-balanced : check_balanced acceptance ≡ none
unfolding check_balanced all_zero asset_sums add_amount asset_group_key decimal text_eq ◌+ℤ◌
acceptance-balanced = refl

acceptance-checked :
    (a : OtcAcceptance) × (new_tx_checks no_dates 333 fine 222 acceptance tables
      ≡ ok (a, negotiation))
unfolding new_tx_checks check_balanced all_zero asset_sums add_amount asset_group_key decimal
    text_eq ◌+ℤ◌ ◌-ℤ◌ parse_otc_acceptance place_postings place_posting place_by_asset place_cash
    place_option all_legs check_legs same_option same_settlement_date match_acceptance_terms
    get_negotiation
acceptance-checked = (_, refl)

voted : (on_new_tx no_dates 333 db fine 222 acceptance tables).0 ≡ ok voting_yes
unfolding on_new_tx new_tx_checks check_balanced all_zero asset_sums add_amount asset_group_key
    decimal text_eq ◌+ℤ◌ ◌-ℤ◌ parse_otc_acceptance place_postings place_posting place_by_asset
    place_cash place_option all_legs check_legs same_option same_settlement_date
    match_acceptance_terms get_negotiation reserve_and_record reserve reserve_at lock_client_account
    parse_client_local_id uint_from first_eligible eligible covers taken update_fields
    create_pending_row pending_row get_by_tx_id
voted = refl

unseen : get_by_tx_id key tables.pending_txs ≡ none
unfolding get_by_tx_id
unseen = refl

on_new_tx-yes_example :
    Accepted no_dates fine 333 222 acceptance tables
      (on_new_tx no_dates 333 db fine 222 acceptance tables).1
on_new_tx-yes_example =
    on_new_tx-yes no_dates 333 db fine 222 acceptance tables tables-IsKeyed unseen voted

-- The partner 444 is not the seller's bank.
abbrev vote : ℕ → Except Error TransactionVote
vote partner = (on_new_tx no_dates 333 db fine partner acceptance tables).0

spoofed : vote 444 ≡ ok (voting_no (bare option_negotiation_not_found))
unfolding on_new_tx new_tx_checks check_balanced all_zero asset_sums add_amount asset_group_key
    decimal text_eq ◌+ℤ◌ ◌-ℤ◌ parse_otc_acceptance place_postings place_posting place_by_asset
    place_cash place_option all_legs check_legs same_option same_settlement_date get_negotiation
spoofed = refl

on_new_tx-not_yes_example : (on_new_tx no_dates 333 db fine 444 acceptance tables).1 ≡ tables
on_new_tx-not_yes_example =
    on_new_tx-not_yes no_dates 333 db fine 444 acceptance tables (λ h. let e = spoofed in cc)

-- A pending row, and the same row committed.
abbrev row : InterbankPendingTx
row = record {
  tx_routing_number = 222;
  tx_id = codes "t";
  partner_routing_number = 222;
  negotiation_routing_number = 222;
  negotiation_id = codes "n";
  reserved_from_local_id = codes "client-5";
  reserved_currency = codes "EUR";
  reserved_amount = pos 250;
  stock_ticker = codes "AB";
  option_amount = pos 1000;
  price_per_unit_currency = codes "EUR";
  price_per_unit_amount = pos 900;
  settlement_date = codes "d";
  buyer_routing_number = 333;
  buyer_id = codes "client-5";
  seller_routing_number = 222;
  seller_id = codes "s";
  status = pending;
}

abbrev with_row : PendingTxStatus → Tables
with_row s = record tables { pending_txs = record row { status = s } ∷ [] }

with_row-IsKeyed : (s : PendingTxStatus) → IsKeyed (with_row s)
unfolding find_account get_by_tx_id
with_row-IsKeyed s = ((refl, (refl, tt)), (refl, tt))

row_found :
    (s : PendingTxStatus)
    → get_by_tx_id key (with_row s).pending_txs ≡ some (record row { status = s })
unfolding get_by_tx_id is_tx text_eq
row_found s = refl

on_commit_tx-Done_example :
    ((on_commit_tx db fine key (with_row pending)).1 ≡ with_row pending)
    ⊎ Done fine row
        (with_row pending)
        (flipped key committed (with_row pending))
        (λ k. committed_tables key row k (with_row pending))
        (on_commit_tx db fine key (with_row pending))
on_commit_tx-Done_example =
    on_commit_tx-Done db fine key (with_row pending) row (with_row-IsKeyed pending)
      (row_found pending) refl

abbrev messages : List (Env × Message)
messages =
    (fine, new_tx 222 acceptance)
    ∷ (fine, commit_tx key)
    ∷ (fine, rollback_tx key)
    ∷ (fine, commit_tx key)
    ∷ []

handle_all-Backs_example : Backs tables (handle_all no_dates 333 db messages tables)
handle_all-Backs_example = handle_all-Backs no_dates 333 db messages tables tables-IsKeyed

handle_all-Resolved_example :
    get_by_tx_id key (handle_all no_dates 333 db messages (with_row committed)).pending_txs
    ≡ some (record row { status = committed })
handle_all-Resolved_example =
    handle_all-Resolved no_dates 333 db messages key (record row { status = committed })
      (with_row committed) (with_row-IsKeyed committed) refl (row_found committed)

check_balanced_iff_example :
    (check_balanced acceptance ≡ none) ↔ ((k : Text) → sum_of k acceptance.postings ≡ pos 0)
check_balanced_iff_example = check_balanced_iff acceptance

faultless : IsFaultless db fine
faultless = ((λ s. refl), (λ body t h. keeps (body t) t h))

on_new_tx-rollback_example :
    on_rollback_tx db fine key (on_new_tx no_dates 333 db fine 222 acceptance tables).1 ≡ (
      none,
      record (flipped key rolled_back (on_new_tx no_dates 333 db fine 222 acceptance tables).1) {
        accounts = tables.accounts;
      },
    )
on_new_tx-rollback_example =
    on_new_tx-rollback no_dates 333 db fine fine 222 acceptance tables faultless tables-IsKeyed
      unseen voted

on_new_tx-commit_example :
    let t₁ = (on_new_tx no_dates 333 db fine 222 acceptance tables).1 in
    (yes : Accepted no_dates fine 333 222 acceptance tables t₁) × (on_commit_tx db fine key t₁
      ≡ (none, committed_tables key (pending_row 222 key yes.negotiation) yes.reserved.k t₁))
on_new_tx-commit_example =
    on_new_tx-commit no_dates 333 db fine fine 222 acceptance tables faultless tables-IsKeyed unseen
      voted
