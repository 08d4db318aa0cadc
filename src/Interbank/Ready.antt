-- ===== src/Interbank/Ready.antt =====
-- What a first vote YES (OnNewTx of exchange-service/internal/interbank/tx_processor.go) leaves for the
-- message that decides its transaction: the pending row, and an account that is found again.
use exbanka_3_backend.Prelude.{
  ℕ, ◌≡◌, refl, ap, ◌∙◌, true, false, none, some, List, [], ◌∷◌, arith, ==_refl,
}
use exbanka_3_backend.Prelude.Int.{ℤ}
use exbanka_3_backend.Prelude.Db.{Transactions}
use exbanka_3_backend.Prelude.Text.{Text, text_eq_refl}
use exbanka_3_backend.Prelude.Except.{ok}
use exbanka_3_backend.Payment.{Account, update_fields}
use exbanka_3_backend.Interbank.Messages.{ForeignBankId, Transaction, voting_yes}
use exbanka_3_backend.Interbank.Models.{
  InterbankOtcNegotiation, InterbankPendingTx, Tables, Error, is_tx, get_by_tx_id, Env,
}
use exbanka_3_backend.Interbank.Acceptance.{TimeLayouts}
use exbanka_3_backend.Interbank.Wallet.{
  parse_client_local_id, eligible, first_eligible, lock_client_account, taken,
}
use exbanka_3_backend.Interbank.Processor.{pending_row, on_new_tx}
use exbanka_3_backend.Interbank.Totals.{taken-id}
use exbanka_3_backend.Interbank.Steps.{IsKeyed}
use exbanka_3_backend.Interbank.Bodies.{flipped}
use exbanka_3_backend.Interbank.Sequences.{on_new_tx-Backs}
use exbanka_3_backend.Interbank.Answers.{on_new_tx-yes}
use exbanka_3_backend.Prelude.Db.{AlwaysCommits}
use exbanka_3_backend.Interbank.Answers.{Accepted}
use exbanka_3_backend.Interbank.Models.{has_pending, Stmt, PendingTxStatus}

taken-eligible :
    (client : ℕ) (currency : Text) (x : ℤ) (a : Account)
    → eligible client currency (taken x a) ≡ eligible client currency a
unfolding eligible taken
taken-eligible client currency x a = ground arith

first_eligible-taken :
    (client : ℕ) (currency : Text) (k : ℕ) (x : ℤ) (rows : List Account)
    → first_eligible client currency (update_fields k (taken x) rows)
      ≡ first_eligible client currency rows
unfolding first_eligible update_fields
first_eligible-taken client currency k x [] = refl
first_eligible-taken client currency k x (a ∷ rows) = ground (
  arith,
  taken-id x a,
  taken-eligible client currency x a,
  first_eligible-taken client currency k x rows,
)

lock-first :
    (env : Env) (local_id currency : Text) (t : Tables) (k client : ℕ)
    → parse_client_local_id local_id ≡ some client
    → lock_client_account env local_id currency t ≡ ok k
    → first_eligible client currency t.accounts ≡ some k
unfolding lock_client_account
lock-first env local_id currency t k client parsed h = ground arith

first_row :
    (partner : ℕ) (key : ForeignBankId) (n : InterbankOtcNegotiation)
    (rows : List InterbankPendingTx)
    → get_by_tx_id key (pending_row partner key n ∷ rows) ≡ some (pending_row partner key n)
unfolding get_by_tx_id is_tx pending_row
first_row partner key n rows = rw (==_refl key.routing_number, text_eq_refl key.id) refl

-- No statement fails, and every commit goes through.
abbrev pub IsFaultless : Transactions Tables Error → Env → Type 0
IsFaultless db env = ((s : Stmt) → env.fails s ≡ false) × AlwaysCommits db

lock-again :
    (env : Env) (local_id currency : Text) (t : Tables) (k client : ℕ)
    → env.fails Stmt.lock_account ≡ false
    → parse_client_local_id local_id ≡ some client
    → first_eligible client currency t.accounts ≡ some k
    → lock_client_account env local_id currency t ≡ ok k
unfolding lock_client_account
lock-again env local_id currency t k client fine parsed h = ground arith

first_pending :
    (partner : ℕ) (key : ForeignBankId) (n : InterbankOtcNegotiation)
    (rows : List InterbankPendingTx)
    → has_pending key (pending_row partner key n ∷ rows) ≡ true
unfolding has_pending is_tx pending_row
first_pending partner key n rows = rw (==_refl key.routing_number, text_eq_refl key.id) refl

-- A first vote YES, and what a message on its transaction finds on the tables `t₁` that it leaves.
pub record Ready (time : TimeLayouts) (own_routing : ℕ) (env env' : Env) (partner : ℕ)
    (tx : Transaction) (t t₁ : Tables) : Type 0 where
  pub yes : Accepted time env own_routing partner tx t t₁
  pub keyed : IsKeyed t₁
  pub found :
      get_by_tx_id tx.transaction_id t₁.pending_txs
      ≡ some (pending_row partner tx.transaction_id yes.negotiation)
  pub there : has_pending tx.transaction_id t₁.pending_txs ≡ true
  pub locked :
      (new : PendingTxStatus)
      → lock_client_account env' yes.negotiation.buyer_id yes.negotiation.premium_currency
          (flipped tx.transaction_id new t₁)
        ≡ ok yes.reserved.k

pub on_new_tx-Ready :
    (time : TimeLayouts) (own_routing : ℕ) (db : Transactions Tables Error) (env env' : Env)
    (partner : ℕ) (tx : Transaction) (t : Tables)
    → env'.fails Stmt.lock_account ≡ false
    → IsKeyed t
    → get_by_tx_id tx.transaction_id t.pending_txs ≡ none
    → (on_new_tx time own_routing db env partner tx t).0 ≡ ok voting_yes
    → Ready time own_routing env env' partner tx t
        (on_new_tx time own_routing db env partner tx t).1
on_new_tx-Ready time own_routing db env env' partner tx t fine keyed fresh h =
    let key = tx.transaction_id in
    let yes = on_new_tx-yes time own_routing db env partner tx t keyed fresh h in
    let n = yes.negotiation in
    let r = yes.reserved in
    record {
      yes = yes;
      keyed = (on_new_tx-Backs time own_routing db env partner tx t keyed).0;
      found =
          ap (λ s. get_by_tx_id key s.pending_txs) yes.written
          ∙ first_row partner key n t.pending_txs;
      there =
          ap (λ s. has_pending key s.pending_txs) yes.written
          ∙ first_pending partner key n t.pending_txs;
      locked = λ new.
          lock-again env' n.buyer_id n.premium_currency
            (flipped key new (on_new_tx time own_routing db env partner tx t).1) r.k r.client fine
            r.parsed
            (ap (λ s. first_eligible r.client n.premium_currency s.accounts) yes.written
              ∙ first_eligible-taken r.client n.premium_currency r.k n.premium_amount t.accounts
              ∙ lock-first env n.buyer_id n.premium_currency t r.k r.client r.parsed r.locked);
    }
