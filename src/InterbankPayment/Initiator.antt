-- ===== src/InterbankPayment/Initiator.antt =====
-- `createPayment` (exchange-service/internal/handler/interbank_payment_http_handler.go) and the
-- reconciliation of one payment (internal/service/interbank_reconcile.go): the sender's transactions
-- with the messages to the partner between them.
use exbanka_3_backend.Prelude.{
  ℕ, ◌==◌, ltb, leb, Bool, true, false, not, ◌&&◌, ◌||◌, Option, none, some, List, [], ◌∷◌, ◌++◌,
  if◌then◌else◌,
}
use exbanka_3_backend.Prelude.Int.{ℤ}
use exbanka_3_backend.Prelude.Text.{Text, codes}
use exbanka_3_backend.Prelude.Db.{Transactions}
use exbanka_3_backend.Prelude.Except.{Except, ok, err}
use exbanka_3_backend.Interbank.Messages.{
  ForeignBankId, Transaction, ReasonCode, unbalanced_tx, no_such_account, no_such_asset,
  unacceptable_asset, insufficient_asset, option_amount_incorrect, option_used_or_expired,
  option_negotiation_not_found, NoVoteReason, Vote, vote_yes, vote_no, TransactionVote,
}
use exbanka_3_backend.InterbankPayment.Models.{
  PaymentStatus, committed, failed, InterbankPayment, Tables, Error, Env, key_of,
}
use exbanka_3_backend.InterbankPayment.Shape.{build_payment_tx}
use exbanka_3_backend.InterbankPayment.Sender.{
  Request, Registry, BadRequest, check_request, prepare, finalise_commit, finalise_rejected,
  finalise_failed, mark_dispatched,
}

-- What `Client` reports: the text of the error, and the partner's HTTP status if it answered.
pub record SendError : Type 0 where
  pub text : Text
  pub status_code : Option ℕ

-- `Client`: the messages to a partner, by its routing number. `W` is what lies beyond the network.
pub record Client (W : Type 0) : Type 0 where
  pub send_new_tx : ℤ → Transaction → W → Except SendError TransactionVote × W
  pub send_commit_tx : ℤ → ForeignBankId → W → Option SendError × W
  pub send_rollback_tx : ℤ → ForeignBankId → W → Option SendError × W

-- The transactions of one call, each with the statements that fail in it.
pub data Phase : Type 0 where
  preparing finalising stamping : Phase

pub data Response : Type 0 where
  bad_request : BadRequest → Response
  not_prepared : Error → Response
  dispatch_failed : Response
  partner_refused : TransactionVote → Response
  local_commit_failed : Error → Response
  -- 202: the partner has not acknowledged the commit.
  accepted : Response
  created : Response

abbrev pub is_yes : Vote → Bool
is_yes vote_yes = true
is_yes vote_no = false

abbrev pub reason_text : ReasonCode → Text
reason_text unbalanced_tx = codes "UNBALANCED_TX"
reason_text no_such_account = codes "NO_SUCH_ACCOUNT"
reason_text no_such_asset = codes "NO_SUCH_ASSET"
reason_text unacceptable_asset = codes "UNACCEPTABLE_ASSET"
reason_text insufficient_asset = codes "INSUFFICIENT_ASSET"
reason_text option_amount_incorrect = codes "OPTION_AMOUNT_INCORRECT"
reason_text option_used_or_expired = codes "OPTION_USED_OR_EXPIRED"
reason_text option_negotiation_not_found = codes "OPTION_NEGOTIATION_NOT_FOUND"

abbrev pub joined : NoVoteReason → List NoVoteReason → Text
joined r [] = reason_text r.reason
joined r (s ∷ rest) = reason_text r.reason ++ codes ", " ++ joined s rest

abbrev pub summary : List NoVoteReason → Text
summary [] = codes "partner voted NO without reason"
summary (r ∷ rest) = codes "partner voted NO: " ++ joined r rest

-- `summariseNoVote`, and `summarisePartnerVote`.
unfoldable pub summarise_no_vote : TransactionVote → Text
summarise_no_vote vote = summary vote.reasons

-- `isPermanentRemoteError`.
abbrev pub is_permanent_code : Option ℕ → Bool
is_permanent_code none = false
is_permanent_code (some n) = not (ltb n 400 || leb 500 n) && not (n == 408) && not (n == 429)

unfoldable pub is_permanent_remote_error : SendError → Bool
is_permanent_remote_error e = is_permanent_code e.status_code

-- `BuildPaymentTx` of a row.
unfoldable pub new_tx_of : InterbankPayment → Transaction
new_tx_of row =
    build_payment_tx (key_of row) row.sender_account_number row.recipient_account_number
      row.currency row.amount row.message row.payment_code row.payment_purpose

module _ {W : Type 0} (client : Client W) (db : Transactions Tables Error)
    (envs : Phase → Env) where
  abbrev pub mark_if_sent : InterbankPayment → Tables → Option SendError × W → Bool × Tables × W
  mark_if_sent row t (some e, w) = (false, t, w)
  mark_if_sent row t (none, w) = (true, (mark_dispatched db (envs stamping) row t).1, w)

  abbrev pub roll_back_if : ℤ → InterbankPayment → Option Error × Tables → W → Tables × W
  roll_back_if partner row (some e, t) w = (t, w)
  roll_back_if partner row (none, t) w =
      let marked = mark_if_sent row t (client.send_rollback_tx partner (key_of row) w) in
      (marked.1, marked.2)

  -- `finaliseTransportFailure`.
  unfoldable pub finalise_transport_failure :
      ℤ → InterbankPayment → SendError → Tables → W → Tables × W
  finalise_transport_failure partner row e t w =
      roll_back_if partner row (finalise_failed db (envs finalising) e.text row t) w

  abbrev pub commit_if : ℤ → InterbankPayment → Option Error × Tables → W → Response × Tables × W
  commit_if partner row (some e, t) w = (local_commit_failed e, t, w)
  commit_if partner row (none, t) w =
      let marked = mark_if_sent row t (client.send_commit_tx partner (key_of row) w) in
      (if marked.0 then created else accepted, marked.1, marked.2)

  -- What `createPayment` does with the answer to NEW_TX.
  abbrev pub on_vote :
      ℤ → InterbankPayment → Tables → Except SendError TransactionVote × W → Response × Tables × W
  on_vote partner row t (err e, w) =
      let done = finalise_transport_failure partner row e t w in (dispatch_failed, done.0, done.1)
  on_vote partner row t (ok vote, w) =
      if is_yes vote.vote
      then commit_if partner row (finalise_commit db (envs finalising) row t) w
      else (
        partner_refused vote,
        (finalise_rejected db (envs finalising) (summarise_no_vote vote) row t).1,
        w,
      )

  abbrev pub on_prepared : ℤ → Except Error InterbankPayment × Tables → W → Response × Tables × W
  on_prepared partner (err e, t) w = (not_prepared e, t, w)
  on_prepared partner (ok row, t) w =
      on_vote partner row t (client.send_new_tx partner (new_tx_of row) w)

  abbrev pub on_checked :
      ForeignBankId → Except BadRequest (Request × ℤ) → Tables → W → Response × Tables × W
  on_checked key (err b) t w = (bad_request b, t, w)
  on_checked key (ok (q, partner)) t w =
      on_prepared partner (prepare db (envs preparing) key partner q t) w

  -- `createPayment`, with the text that `uuid.NewString` draws.
  unfoldable pub create_payment : Registry → Text → Request → Tables → W → Response × Tables × W
  create_payment registry uuid q t w =
      on_checked (record { routing_number = registry.own_routing; id = uuid })
        (check_request registry q) t w

  abbrev pub commit_again : InterbankPayment → Option Error × Tables → W → Tables × W
  commit_again row (some e, t) w = (t, w)
  commit_again row (none, t) w =
      let marked =
        mark_if_sent row t (client.send_commit_tx row.partner_routing_number (key_of row) w) in
      (marked.1, marked.2)

  abbrev pub on_vote_again :
      InterbankPayment → Tables → Except SendError TransactionVote × W → Tables × W
  on_vote_again row t (err e, w) =
      if is_permanent_remote_error e
      then ((finalise_failed db (envs finalising) e.text row t).1, w)
      else (t, w)
  on_vote_again row t (ok vote, w) =
      if is_yes vote.vote
      then commit_again row (finalise_commit db (envs finalising) row t) w
      else ((finalise_rejected db (envs finalising) (summarise_no_vote vote) row t).1, w)

  -- `reconcilePending`; it writes no other column than `updated_at` when it leaves a row for later.
  unfoldable pub reconcile_pending : InterbankPayment → Tables → W → Tables × W
  reconcile_pending row t w =
      on_vote_again row t (client.send_new_tx row.partner_routing_number (new_tx_of row) w)

  -- `reconcileTerminal`.
  abbrev pub resend : PaymentStatus → InterbankPayment → Tables → W → Bool × Tables × W
  resend committed row t w =
      mark_if_sent row t (client.send_commit_tx row.partner_routing_number (key_of row) w)
  resend failed row t w =
      mark_if_sent row t (client.send_rollback_tx row.partner_routing_number (key_of row) w)
  resend _ row t w = (false, t, w)

  unfoldable pub reconcile_terminal : InterbankPayment → Tables → W → Tables × W
  reconcile_terminal row t w = let done = resend row.status row t w in (done.1, done.2)
