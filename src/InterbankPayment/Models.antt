-- ===== src/InterbankPayment/Models.antt =====
-- The rows of direct payments between banks (InterbankPayment of exchange-service/internal/models/
-- interbank.go, less its row id and the time stamps that no decision reads) and the reads and updates
-- of InterbankPaymentRepository (internal/repository/interbank_payment_repository.go).
use exbanka_3_backend.Prelude.{
  ℕ, ◌==◌, Bool, true, false, ◌&&◌, ◌||◌, Option, none, some, List, [], ◌∷◌, if◌then◌else◌,
}
use exbanka_3_backend.Prelude.Int.{ℤ}
use exbanka_3_backend.Prelude.Text.{Text, text_eq}
use exbanka_3_backend.Payment.{Account}
use exbanka_3_backend.Interbank.Messages.{ForeignBankId, NoVoteReason}

pub data PaymentDirection : Type 0 where
  inbound outbound : PaymentDirection
  unknown_direction : Text → PaymentDirection

pub data PaymentStatus : Type 0 where
  pending committed rolled_back rejected failed : PaymentStatus
  unknown_status : Text → PaymentStatus

pub record InterbankPayment : Type 0 where
  pub tx_routing_number : ℕ
  pub tx_id : Text
  pub direction : PaymentDirection
  pub partner_routing_number : ℤ
  pub sender_account_number : Text
  pub recipient_account_number : Text
  pub currency : Text
  pub amount : ℤ
  pub local_account_id : Option ℕ
  pub local_client_id : Option ℕ
  pub message : Text
  pub payment_code : Text
  pub payment_purpose : Text
  pub status : PaymentStatus
  pub last_error : Text
  -- Whether `PartnerFinalisedAt` is set.
  pub partner_finalised : Bool

pub record Tables : Type 0 where
  pub accounts : List Account
  pub payments : List InterbankPayment

-- The statements that the database can refuse.
pub data Stmt : Type 0 where
  load_payment lock_account create_payment mark_payment stamp_payment : Stmt
  reserve_funds debit_funds release_funds credit_funds : Stmt

-- `preparePaymentErr`: the message of each HTTP status that it carries.
pub data Refusal : Type 0 where
  sender_not_found sender_inactive wrong_currency not_the_owner insufficient_balance : Refusal

pub data Error : Type 0 where
  database : Stmt → Error
  -- `ErrInterbankPaymentNoSuchAccount` and the three after it.
  no_such_account account_inactive currency_mismatch insufficient_funds : Error
  -- `errPaymentVoteNo`, with the reason that its body leaves to the handler.
  vote_no : NoVoteReason → Error
  -- `errPaymentAlreadyResolved`.
  already_resolved : Error
  commit_unknown not_inbound commit_resolved rollback_committed bad_status : Error
  missing_local_account : Error
  refusal : Refusal → Error
  -- An error of the database's own, such as a failed commit.
  connection : ℕ → Error

-- What an operation meets: the statements that fail.
pub record Env : Type 0 where
  pub fails : Stmt → Bool

abbrev pub is_pending : PaymentStatus → Bool
is_pending pending = true
is_pending _ = false

abbrev pub is_inbound : PaymentDirection → Bool
is_inbound inbound = true
is_inbound _ = false

abbrev pub key_of : InterbankPayment → ForeignBankId
key_of r = record { routing_number = r.tx_routing_number; id = r.tx_id }

-- `Where("tx_routing_number = ? AND tx_id = ?")`.
unfoldable pub is_tx : ForeignBankId → InterbankPayment → Bool
is_tx key r = (r.tx_routing_number == key.routing_number) && text_eq r.tx_id key.id

-- `GetByTxID`.
unfoldable pub get_by_tx_id : ForeignBankId → List InterbankPayment → Option InterbankPayment
get_by_tx_id key [] = none
get_by_tx_id key (r ∷ rows) =
    let rest = get_by_tx_id key rows in if is_tx key r then some r else rest

-- The rows after an update of the pending ones of a transaction, and whether there are any.
unfoldable pub update_pending :
    ForeignBankId
    → (InterbankPayment → InterbankPayment)
    → List InterbankPayment
    → List InterbankPayment
update_pending key f [] = []
update_pending key f (r ∷ rows) =
    (if is_tx key r && is_pending r.status then f r else r) ∷ update_pending key f rows

unfoldable pub has_pending : ForeignBankId → List InterbankPayment → Bool
has_pending key [] = false
has_pending key (r ∷ rows) =
    let rest = has_pending key rows in (is_tx key r && is_pending r.status) || rest

unfoldable pub stamped : ForeignBankId → List InterbankPayment → List InterbankPayment
stamped key [] = []
stamped key (r ∷ rows) =
    (if is_tx key r then record r { partner_finalised = true } else r) ∷ stamped key rows

-- `CreateTx`.
unfoldable pub create_tx : Env → InterbankPayment → Tables → Option Error × Tables
create_tx env row t =
    if env.fails Stmt.create_payment
    then (some (Error.database Stmt.create_payment), t)
    else (none, record t { payments = row ∷ t.payments })

-- The changes that `MarkCommittedCAS`, `MarkRolledBackCAS`, `MarkRejectedCAS` and `MarkFailedCAS`
-- make to a pending row.
unfoldable pub as_committed : InterbankPayment → InterbankPayment
as_committed r = record r { status = committed }

unfoldable pub as_rolled_back : InterbankPayment → InterbankPayment
as_rolled_back r = record r { status = rolled_back }

unfoldable pub as_rejected : Text → InterbankPayment → InterbankPayment
as_rejected reason r = record r { status = rejected; last_error = reason }

unfoldable pub as_failed : Text → InterbankPayment → InterbankPayment
as_failed reason r = record r { status = failed; last_error = reason }

-- One of the four, and the rest of its transaction's body: `otherwise` when no row was pending.
unfoldable pub mark_cas :
    Env
    → ForeignBankId
    → (InterbankPayment → InterbankPayment)
    → Option Error
    → (Tables → Option Error × Tables)
    → Tables
    → Option Error × Tables
mark_cas env key f otherwise rest t =
    if env.fails Stmt.mark_payment
    then (some (Error.database Stmt.mark_payment), t)
    else if has_pending key t.payments
    then rest (record t { payments = update_pending key f t.payments })
    else (otherwise, t)

-- `MarkPartnerFinalised`; a row that has the stamp keeps it.
unfoldable pub mark_partner_finalised : Env → ForeignBankId → Tables → Option Error × Tables
mark_partner_finalised env key t =
    if env.fails Stmt.stamp_payment
    then (some (Error.database Stmt.stamp_payment), t)
    else (none, record t { payments = stamped key t.payments })
