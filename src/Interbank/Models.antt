-- ===== src/Interbank/Models.antt =====
-- The rows of exchange-service/internal/models/interbank.go that a settlement reads and writes, less
-- the row ids and time stamps, which it does not read; the shared `accounts` table; and the reads
-- and updates of internal/repository/interbank_otc_repository.go and interbank_tx_repository.go.
use exbanka_3_backend.Prelude.{
  ℕ, ◌==◌, Bool, true, false, ◌&&◌, ◌||◌, Option, none, some, List, [], ◌∷◌, if◌then◌else◌,
}
use exbanka_3_backend.Prelude.Int.{ℤ}
use exbanka_3_backend.Prelude.Text.{Text, text_eq}
use exbanka_3_backend.Payment.{Account}
use exbanka_3_backend.Interbank.Messages.{ForeignBankId}

pub record InterbankOtcNegotiation : Type 0 where
  pub negotiation_routing_number : ℕ
  pub negotiation_id : Text
  pub buyer_routing_number : ℕ
  pub buyer_id : Text
  pub seller_routing_number : ℕ
  pub seller_id : Text
  pub stock_ticker : Text
  pub amount : ℤ
  pub price_per_unit_currency : Text
  pub price_per_unit_amount : ℤ
  pub premium_currency : Text
  pub premium_amount : ℤ
  pub settlement_date : Text
  pub is_ongoing : Bool

pub data PendingTxStatus : Type 0 where
  pending committed rolled_back : PendingTxStatus
  unknown_status : Text → PendingTxStatus

pub record InterbankPendingTx : Type 0 where
  pub tx_routing_number : ℕ
  pub tx_id : Text
  pub partner_routing_number : ℕ
  pub negotiation_routing_number : ℕ
  pub negotiation_id : Text
  pub reserved_from_local_id : Text
  pub reserved_currency : Text
  pub reserved_amount : ℤ
  pub stock_ticker : Text
  pub option_amount : ℤ
  pub price_per_unit_currency : Text
  pub price_per_unit_amount : ℤ
  pub settlement_date : Text
  pub buyer_routing_number : ℕ
  pub buyer_id : Text
  pub seller_routing_number : ℕ
  pub seller_id : Text
  pub status : PendingTxStatus

pub record InterbankOptionContract : Type 0 where
  pub negotiation_routing_number : ℕ
  pub negotiation_id : Text
  pub buyer_local_id : Text
  pub seller_routing_number : ℕ
  pub seller_id : Text
  pub stock_ticker : Text
  pub amount : ℤ
  pub price_per_unit_currency : Text
  pub price_per_unit_amount : ℤ
  pub premium_currency : Text
  pub premium_amount : ℤ
  pub settlement_date : Text
  -- `status`, "valid" when it is created.
  pub status : Text

pub record Tables : Type 0 where
  pub accounts : List Account
  pub negotiations : List InterbankOtcNegotiation
  pub pending_txs : List InterbankPendingTx
  pub contracts : List InterbankOptionContract

-- The statements that the database can refuse.
pub data Stmt : Type 0 where
  load_negotiation load_pending lock_account reserve_funds create_pending mark_pending : Stmt
  debit_funds load_contract create_contract close_negotiation release_funds : Stmt

pub data Error : Type 0 where
  database : Stmt → Error
  -- `ErrInterbankWalletInsufficient`.
  wallet_insufficient : Error
  -- `errAlreadyResolved`.
  already_resolved : Error
  commit_unknown commit_rolled_back rollback_committed bad_status : Error
  -- An error of the database's own, such as a failed commit.
  connection : ℕ → Error

abbrev pub is_pending : PendingTxStatus → Bool
is_pending pending = true
is_pending committed = false
is_pending rolled_back = false
is_pending (unknown_status s) = false

-- `Where("negotiation_routing_number = ? AND negotiation_id = ?")`.
abbrev pub is_negotiation : ℕ → Text → InterbankOtcNegotiation → Bool
is_negotiation routing id n =
    (n.negotiation_routing_number == routing) && text_eq n.negotiation_id id

-- `InterbankOtcRepository.Get`.
unfoldable pub get_negotiation :
    ℕ → Text → List InterbankOtcNegotiation → Option InterbankOtcNegotiation
get_negotiation routing id [] = none
get_negotiation routing id (n ∷ rows) =
    let rest = get_negotiation routing id rows in
    if is_negotiation routing id n then some n else rest

unfoldable pub close_negotiations :
    ℕ → Text → List InterbankOtcNegotiation → List InterbankOtcNegotiation
close_negotiations routing id [] = []
close_negotiations routing id (n ∷ rows) =
    (if is_negotiation routing id n then record n { is_ongoing = false } else n)
    ∷ close_negotiations routing id rows

-- `Where("tx_routing_number = ? AND tx_id = ?")`.
unfoldable pub is_tx : ForeignBankId → InterbankPendingTx → Bool
is_tx key r = (r.tx_routing_number == key.routing_number) && text_eq r.tx_id key.id

-- `InterbankPendingTxRepository.GetByTxID`.
unfoldable pub get_by_tx_id : ForeignBankId → List InterbankPendingTx → Option InterbankPendingTx
get_by_tx_id key [] = none
get_by_tx_id key (r ∷ rows) =
    let rest = get_by_tx_id key rows in if is_tx key r then some r else rest

-- The rows that the update from pending changes, and whether there are any.
unfoldable pub flip_pending :
    ForeignBankId → PendingTxStatus → List InterbankPendingTx → List InterbankPendingTx
flip_pending key new [] = []
flip_pending key new (r ∷ rows) =
    (if is_tx key r && is_pending r.status then record r { status = new } else r)
    ∷ flip_pending key new rows

unfoldable pub has_pending : ForeignBankId → List InterbankPendingTx → Bool
has_pending key [] = false
has_pending key (r ∷ rows) =
    let rest = has_pending key rows in (is_tx key r && is_pending r.status) || rest

unfoldable pub has_contract : ℕ → Text → List InterbankOptionContract → Bool
has_contract routing id [] = false
has_contract routing id (c ∷ rows) =
    let rest = has_contract routing id rows in
    ((c.negotiation_routing_number == routing) && text_eq c.negotiation_id id) || rest

-- What a message meets: the statements that fail.
pub record Env : Type 0 where
  pub fails : Stmt → Bool
