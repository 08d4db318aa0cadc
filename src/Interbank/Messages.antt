-- ===== src/Interbank/Messages.antt =====
-- The wire types of exchange-service/internal/interbank/messages.go that the transactions use.
-- Amounts are hundredths, as integers. A pointer to a part that may be missing is an option.
use exbanka_3_backend.Prelude.{ℕ, ◌==◌, Bool, ◌&&◌, Option, none, some, List, [], ◌∷◌}
use exbanka_3_backend.Prelude.Int.{ℤ}
use exbanka_3_backend.Prelude.Text.{Text, text_eq}

pub record ForeignBankId : Type 0 where
  pub routing_number : ℕ
  pub id : Text

-- `sameForeignBankId`.
abbrev pub same_foreign_bank_id : ForeignBankId → ForeignBankId → Bool
same_foreign_bank_id a b = (a.routing_number == b.routing_number) && text_eq a.id b.id

-- The three known types, and any other text.
pub data TxAccountType : Type 0 where
  tx_account_person tx_account_account tx_account_option : TxAccountType
  tx_account_other : Text → TxAccountType

pub record TxAccount : Type 0 where
  pub kind : TxAccountType
  pub id : Option ForeignBankId
  pub num : Text

pub data AssetType : Type 0 where
  asset_monas asset_stock asset_option : AssetType
  asset_other : Text → AssetType

pub record MonetaryAsset : Type 0 where
  pub currency : Text

pub record MonetaryValue : Type 0 where
  pub currency : Text
  pub amount : ℤ

pub record StockDescription : Type 0 where
  pub ticker : Text

pub record OptionDescription : Type 0 where
  pub negotiation_id : ForeignBankId
  pub stock : StockDescription
  pub price_per_unit : MonetaryValue
  pub settlement_date : Text
  pub amount : ℤ

pub record Asset : Type 0 where
  pub kind : AssetType
  pub monas : Option MonetaryAsset
  pub stock : Option StockDescription
  pub option : Option OptionDescription

pub record Posting : Type 0 where
  pub account : TxAccount
  pub amount : ℤ
  pub asset : Asset

pub record Transaction : Type 0 where
  pub postings : List Posting
  pub transaction_id : ForeignBankId
  pub message : Text
  pub call_number : Text
  pub payment_code : Text
  pub payment_purpose : Text

-- `NoVoteReasonCode`.
pub data ReasonCode : Type 0 where
  unbalanced_tx no_such_account no_such_asset unacceptable_asset insufficient_asset : ReasonCode
  option_amount_incorrect option_used_or_expired option_negotiation_not_found : ReasonCode

pub record NoVoteReason : Type 0 where
  pub reason : ReasonCode
  pub posting : Option Posting

pub data Vote : Type 0 where
  vote_yes vote_no : Vote

pub record TransactionVote : Type 0 where
  pub vote : Vote
  pub reasons : List NoVoteReason

-- `voteNo`, and the vote YES.
abbrev pub voting_no : NoVoteReason → TransactionVote
voting_no r = record { vote = vote_no; reasons = r ∷ [] }

abbrev pub voting_yes : TransactionVote
voting_yes = record { vote = vote_yes; reasons = [] }

abbrev pub bare : ReasonCode → NoVoteReason
bare c = record { reason = c; posting = none }

abbrev pub about : ReasonCode → Posting → NoVoteReason
about c p = record { reason = c; posting = some p }
