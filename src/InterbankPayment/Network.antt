-- ===== src/InterbankPayment/Network.antt =====
-- Two banks with this program: the client of the one reaches the processor of the other
-- (exchange-service/internal/interbank/client.go and server.go, whose transport is not modelled).
use exbanka_3_backend.Prelude.{ℕ, Option, none, some, if◌then◌else◌}
use exbanka_3_backend.Prelude.Int.{pos, eqb_ℤ}
use exbanka_3_backend.Prelude.Text.{codes}
use exbanka_3_backend.Prelude.Db.{Transactions}
use exbanka_3_backend.Prelude.Except.{Except, ok, err}
use exbanka_3_backend.Interbank.Messages.{TransactionVote}
use exbanka_3_backend.InterbankPayment.Models.{Tables, Error, Env}
use exbanka_3_backend.InterbankPayment.Receiver.{on_new_tx, on_commit_tx, on_rollback_tx}
use exbanka_3_backend.InterbankPayment.Initiator.{SendError, Client}

-- A message may not arrive, or its answer may not.
pub data Delivery : Type 0 where
  lost answer_lost delivered : Delivery

-- The partner at the other end, and what becomes of each message.
pub record Link : Type 0 where
  pub own_routing : ℕ
  pub from : ℕ
  pub db : Transactions Tables Error
  pub env : Env
  pub new_tx : Delivery
  pub commit_tx : Delivery
  pub rollback_tx : Delivery

abbrev pub timeout : SendError
timeout = record { text = codes "timeout"; status_code = none }

-- An error of the processor is answered by a 500.
abbrev pub server_error : SendError
server_error = record { text = codes "server error"; status_code = some 500 }

abbrev pub vote_answer : Except Error TransactionVote → Except SendError TransactionVote
vote_answer (ok v) = ok v
vote_answer (err e) = err server_error

abbrev pub plain_answer : Option Error → Option SendError
plain_answer none = none
plain_answer (some e) = some server_error

abbrev pub deliver_vote :
    Delivery
    → (Tables → Except Error TransactionVote × Tables)
    → Tables
    → Except SendError TransactionVote × Tables
deliver_vote lost handler t = (err timeout, t)
deliver_vote answer_lost handler t = (err timeout, (handler t).1)
deliver_vote delivered handler t = (vote_answer (handler t).0, (handler t).1)

abbrev pub deliver :
    Delivery → (Tables → Option Error × Tables) → Tables → Option SendError × Tables
deliver lost handler t = (some timeout, t)
deliver answer_lost handler t = (some timeout, (handler t).1)
deliver delivered handler t = (plain_answer (handler t).0, (handler t).1)

-- A message to another bank than the one of the link does not arrive at it.
unfoldable pub client_of : Link → Client Tables
client_of l = record {
  send_new_tx = λ code tx.
      deliver_vote (if eqb_ℤ code (pos l.own_routing) then l.new_tx else lost)
        (on_new_tx l.own_routing l.db l.env l.from tx);
  send_commit_tx = λ code key.
      deliver (if eqb_ℤ code (pos l.own_routing) then l.commit_tx else lost)
        (on_commit_tx l.db l.env key);
  send_rollback_tx = λ code key.
      deliver (if eqb_ℤ code (pos l.own_routing) then l.rollback_tx else lost)
        (on_rollback_tx l.db l.env key);
}
