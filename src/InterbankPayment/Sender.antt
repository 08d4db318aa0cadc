-- ===== src/InterbankPayment/Sender.antt =====
-- The sender's bank: the database work of `createPayment` (exchange-service/internal/handler/
-- interbank_payment_http_handler.go) and of the reconciliation (internal/service/
-- interbank_reconcile.go), each one transaction. The bodies of applyCommit, applyRejected and
-- applyFailed of the reconciliation are those of the handler's finalisers.
use exbanka_3_backend.Prelude.{
  ℕ, ◌-◌, ◌==◌, leb, Bool, true, false, not, ◌&&◌, ◌||◌, Option, none, some, List, [], ◌∷◌,
  if◌then◌else◌,
}
use exbanka_3_backend.Prelude.Int.{ℤ, pos, eqb_ℤ, leb_ℤ}
use exbanka_3_backend.Prelude.Text.{Text, codes, text_eq, trim_space}
use exbanka_3_backend.Prelude.Db.{Transactions, ◌>>>◌}
use exbanka_3_backend.Prelude.Except.{Except, ok, err, ◌>>=◌, ◌>>◌, fail_if, or_fail}
use exbanka_3_backend.Payment.{Account}
use exbanka_3_backend.Interbank.Messages.{ForeignBankId}
use exbanka_3_backend.Interbank.Wallet.{owned_by}
use exbanka_3_backend.InterbankPayment.Models.{
  outbound, pending, InterbankPayment, Tables, Refusal, Error, Env, key_of, create_tx, as_committed,
  as_rejected, as_failed, mark_cas, mark_partner_finalised,
}
use exbanka_3_backend.InterbankPayment.Wallet.{lock_by_number, reserve, debit, release}
use exbanka_3_backend.InterbankPayment.Shape.{routing_number_from_account}

-- The claims of the token and the body of the request.
pub record Request : Type 0 where
  pub token_source : Text
  pub client_id : ℕ
  pub sender_account_number : Text
  pub recipient_account_number : Text
  pub currency : Text
  pub amount : ℤ
  pub message : Text
  pub payment_code : Text
  pub payment_purpose : Text

-- `Registry`: the bank's own number and the partners'.
pub record Registry : Type 0 where
  pub own_routing : ℕ
  pub by_code : List ℤ

-- The requests that are answered before the database is asked.
pub data BadRequest : Type 0 where
  only_clients accounts_required currency_required unknown_currency : BadRequest
  amount_not_positive same_accounts no_sender_routing foreign_sender : BadRequest
  no_recipient_routing local_recipient no_partner : BadRequest

-- `Lookup(code) != nil`.
unfoldable pub is_registered : ℤ → List ℤ → Bool
is_registered code [] = false
is_registered code (c ∷ cs) = let rest = is_registered code cs in eqb_ℤ c code || rest

-- `ResolveBankFromAccount`: the routing number, and whether the account is local.
unfoldable pub resolve_bank_from_account : Registry → Text → Option (ℤ × Bool)
resolve_bank_from_account r account_number = elim (routing_number_from_account account_number) [
  | none ↦ none
  | some code ↦
      if eqb_ℤ code (pos r.own_routing)
      then some (code, true)
      else if is_registered code r.by_code
      then some (code, false)
      else none
]

-- `strings.ToUpper` as far as a currency can tell: the letters whose upper case is an ASCII one.
abbrev pub upper : ℕ → ℕ
upper c =
    if leb b'a' c && leb c b'z'
    then c - 32
    else if c == 0x131
    then b'I'
    else if c == 0x17F
    then b'S'
    else c

unfoldable pub to_upper : Text → Text
to_upper [] = []
to_upper (c ∷ cs) = upper c ∷ to_upper cs

unfoldable pub is_one_of : Text → List Text → Bool
is_one_of s [] = false
is_one_of s (x ∷ xs) = let rest = is_one_of s xs in text_eq s x || rest

-- `IsKnownCurrency`.
unfoldable pub is_known_currency : Text → Bool
is_known_currency s = is_one_of s (
    codes "RSD"
    ∷ codes "EUR"
    ∷ codes "USD"
    ∷ codes "CHF"
    ∷ codes "JPY"
    ∷ codes "AUD"
    ∷ codes "CAD"
    ∷ codes "GBP"
    ∷ [])

abbrev pub trimmed : Request → Request
trimmed q = record q {
  sender_account_number = trim_space q.sender_account_number;
  recipient_account_number = trim_space q.recipient_account_number;
  currency = trim_space (to_upper q.currency);
}

abbrev pub is_empty : Text → Bool
is_empty s = text_eq s []

-- The checks of `createPayment` up to its first transaction: the routing number of the recipient.
unfoldable pub check_routing : Registry → Request → Except BadRequest ℤ
check_routing registry q = do
  (send_routing, local_sender) ←
      or_fail (resolve_bank_from_account registry q.sender_account_number)
        BadRequest.no_sender_routing
  fail_if (not local_sender) BadRequest.foreign_sender
  (recv_routing, local_recv) ←
      or_fail (resolve_bank_from_account registry q.recipient_account_number)
        BadRequest.no_recipient_routing
  fail_if local_recv BadRequest.local_recipient
  fail_if (not (is_registered recv_routing registry.by_code)) BadRequest.no_partner
  ok recv_routing

unfoldable pub check_request : Registry → Request → Except BadRequest (Request × ℤ)
check_request registry given = do
  fail_if (not (text_eq given.token_source (codes "client")) || given.client_id == 0)
      BadRequest.only_clients
  let q = trimmed given
  fail_if (is_empty q.sender_account_number || is_empty q.recipient_account_number)
      BadRequest.accounts_required
  fail_if (is_empty q.currency) BadRequest.currency_required
  fail_if (not (is_known_currency q.currency)) BadRequest.unknown_currency
  fail_if (leb_ℤ q.amount (pos 0)) BadRequest.amount_not_positive
  fail_if (text_eq q.sender_account_number q.recipient_account_number) BadRequest.same_accounts
  recv_routing ← check_routing registry q
  ok (q, recv_routing)

-- The row of a payment that is prepared, on the account that was locked.
unfoldable pub outbound_row : ForeignBankId → ℤ → Request → ℕ → InterbankPayment
outbound_row key partner q account_id = record {
  tx_routing_number = key.routing_number;
  tx_id = key.id;
  direction = outbound;
  partner_routing_number = partner;
  sender_account_number = q.sender_account_number;
  recipient_account_number = q.recipient_account_number;
  currency = q.currency;
  amount = q.amount;
  local_account_id = some account_id;
  local_client_id = some q.client_id;
  message = q.message;
  payment_code = q.payment_code;
  payment_purpose = q.payment_purpose;
  status = pending;
  last_error = [];
  partner_finalised = false;
}

-- What the switches on the errors of the lock and of the reservation make of them.
abbrev pub refusal_of : Error → Error
refusal_of Error.no_such_account = Error.refusal Refusal.sender_not_found
refusal_of Error.account_inactive = Error.refusal Refusal.sender_inactive
refusal_of Error.currency_mismatch = Error.refusal Refusal.wrong_currency
refusal_of Error.insufficient_funds = Error.refusal Refusal.insufficient_balance
refusal_of e = e

abbrev pub refusing : Option Error × Tables → Option Error × Tables
refusing (none, t) = (none, t)
refusing (some e, t) = (some (refusal_of e), t)

abbrev pub reserve_locked :
    Env → ForeignBankId → ℤ → Request → Tables → Except Error Account → Option Error × Tables
reserve_locked env key partner q t (err e) = (some (refusal_of e), t)
reserve_locked env key partner q t (ok a) =
    if owned_by q.client_id a.client_id
    then ((λ s. refusing (reserve env a.id q.amount s))
          >>> create_tx env (outbound_row key partner q a.id))
        t
    else (some (Error.refusal Refusal.not_the_owner), t)

-- The body of the first transaction of `createPayment`.
unfoldable pub prepare_body : Env → ForeignBankId → ℤ → Request → Tables → Option Error × Tables
prepare_body env key partner q t =
    reserve_locked env key partner q t (lock_by_number env q.sender_account_number q.currency t)

-- `paymentRow`, which the body sets.
abbrev pub row_of :
    (ℕ → InterbankPayment)
    → Except Error Account
    → Option Error × Tables
    → Except Error InterbankPayment × Tables
row_of row locked (some e, t) = (err e, t)
row_of row (err e) (none, t) = (err e, t)
row_of row (ok a) (none, t) = (ok (row a.id), t)

-- The bodies of the finalisers: a row that is no longer pending is left alone.
unfoldable pub finalise_commit_body : Env → InterbankPayment → ℕ → Tables → Option Error × Tables
finalise_commit_body env row k =
    mark_cas env (key_of row) as_committed none (debit env k row.amount)

unfoldable pub finalise_rejected_body :
    Env → Text → InterbankPayment → ℕ → Tables → Option Error × Tables
finalise_rejected_body env reason row k =
    mark_cas env (key_of row) (as_rejected reason) none
      (mark_partner_finalised env (key_of row) >>> release env k row.amount)

unfoldable pub finalise_failed_body :
    Env → Text → InterbankPayment → ℕ → Tables → Option Error × Tables
finalise_failed_body env reason row k =
    mark_cas env (key_of row) (as_failed reason) none (release env k row.amount)

abbrev pub at_account :
    Option ℕ → (ℕ → Tables → Option Error × Tables) → Tables → Option Error × Tables
at_account none body t = (some Error.missing_local_account, t)
at_account (some k) body t = body k t

module _ (db : Transactions Tables Error) where
  unfoldable pub prepare :
      Env → ForeignBankId → ℤ → Request → Tables → Except Error InterbankPayment × Tables
  prepare env key partner q t =
      row_of (outbound_row key partner q) (lock_by_number env q.sender_account_number q.currency t)
        (db.transaction (prepare_body env key partner q) t)

  -- `finaliseCommit`, and `applyCommit`.
  unfoldable pub finalise_commit : Env → InterbankPayment → Tables → Option Error × Tables
  finalise_commit env row =
      at_account row.local_account_id (λ k. db.transaction (finalise_commit_body env row k))

  -- `finaliseRejected`, and `applyRejected`.
  unfoldable pub finalise_rejected : Env → Text → InterbankPayment → Tables → Option Error × Tables
  finalise_rejected env reason row =
      at_account row.local_account_id
        (λ k. db.transaction (finalise_rejected_body env reason row k))

  -- `applyFailed`, and the transaction of `finaliseTransportFailure`.
  unfoldable pub finalise_failed : Env → Text → InterbankPayment → Tables → Option Error × Tables
  finalise_failed env reason row =
      at_account row.local_account_id (λ k. db.transaction (finalise_failed_body env reason row k))

  -- `markCommitDispatched`, and `markPartnerFinalised` of the reconciliation.
  unfoldable pub mark_dispatched : Env → InterbankPayment → Tables → Option Error × Tables
  mark_dispatched env row = db.transaction (mark_partner_finalised env (key_of row))
