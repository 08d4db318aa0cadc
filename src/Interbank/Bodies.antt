-- ===== src/Interbank/Bodies.antt =====
-- What the bodies of the transactions do when they report no error (OtcTxProcessor of exchange-service/
-- internal/interbank/tx_processor.go).
use exbanka_3_backend.Prelude.{
  ℕ, ◌≡◌, sym, ap, ◌∙◌, Option, none, some, List, ◌∷◌, arith, if◌then◌else◌,
}
use exbanka_3_backend.Prelude.Db.{next-none}
use exbanka_3_backend.Prelude.Except.{ok}
use exbanka_3_backend.Payment.{Account, find_account, update_fields}
use exbanka_3_backend.Payment.Accounts.{UniqueIds}
use exbanka_3_backend.Interbank.Messages.{ForeignBankId}
use exbanka_3_backend.Interbank.Models.{
  PendingTxStatus, committed, rolled_back, InterbankPendingTx, InterbankOptionContract, Tables,
  Error, close_negotiations, flip_pending, has_contract, Env,
}
use exbanka_3_backend.Interbank.Wallet.{lock_client_account, taken, spent, debit, refunded, release}
use exbanka_3_backend.Interbank.Processor.{
  create_pending_row, reservation, mark_pending_tx, contract_row, ensure_contract,
  close_negotiation_of, commit_body, rollback_body,
}
use exbanka_3_backend.Interbank.Steps.{Reserved, reserve-Reserved, debit-Updated, release-Updated}

pub mark-none :
    (env : Env) (key : ForeignBankId) (new : PendingTxStatus) (t : Tables)
    → (mark_pending_tx env key new t).0 ≡ none
    → mark_pending_tx env key new t
      ≡ (none, record t { pending_txs = flip_pending key new t.pending_txs })
unfolding mark_pending_tx
mark-none env key new t h = ground arith

create-none :
    (env : Env) (p : InterbankPendingTx) (t : Tables)
    → (create_pending_row env p t).0 ≡ none
    → create_pending_row env p t ≡ (none, record t { pending_txs = p ∷ t.pending_txs })
unfolding create_pending_row
create-none env p t h = ground arith

-- The contracts after a commit.
abbrev pub with_contract :
    InterbankPendingTx → List InterbankOptionContract → List InterbankOptionContract
with_contract p rows =
    if has_contract p.negotiation_routing_number p.negotiation_id rows
    then rows
    else contract_row p ∷ rows

ensure-none :
    (env : Env) (p : InterbankPendingTx) (t : Tables)
    → (ensure_contract env p t).0 ≡ none
    → ensure_contract env p t ≡ (none, record t { contracts = with_contract p t.contracts })
unfolding ensure_contract
ensure-none env p t h = ground arith

close-none :
    (env : Env) (p : InterbankPendingTx) (t : Tables)
    → (close_negotiation_of env p t).0 ≡ none
    → close_negotiation_of env p t ≡ (
      none,
      record t {
        negotiations =
            close_negotiations p.negotiation_routing_number p.negotiation_id t.negotiations;
      },
    )
unfolding close_negotiation_of
close-none env p t h = ground arith

-- The tables once the row is flipped, and the ones that a commit and a rollback leave.
abbrev pub flipped : ForeignBankId → PendingTxStatus → Tables → Tables
flipped key new t = record t { pending_txs = flip_pending key new t.pending_txs }

abbrev pub committed_tables : ForeignBankId → InterbankPendingTx → ℕ → Tables → Tables
committed_tables key p k t = record {
  accounts = update_fields k (spent p.reserved_amount) t.accounts;
  negotiations = close_negotiations p.negotiation_routing_number p.negotiation_id t.negotiations;
  pending_txs = flip_pending key committed t.pending_txs;
  contracts = with_contract p t.contracts;
}

abbrev pub rolled_back_tables : ForeignBankId → InterbankPendingTx → ℕ → Tables → Tables
rolled_back_tables key p k t = record (flipped key rolled_back t) {
  accounts = update_fields k (refunded p.reserved_amount) t.accounts;
}

-- What a body did that reports no error: the account it changed, and its tables.
pub record Applied (env : Env) (p : InterbankPendingTx) (t after : Tables)
    (done : Option Error × Tables) (left : ℕ → Tables) : Type 0 where
  pub k : ℕ
  pub account : Account
  pub locked : lock_client_account env p.reserved_from_local_id p.reserved_currency after ≡ ok k
  pub found : find_account k t.accounts ≡ some account
  pub result : done ≡ (none, left k)

module _ (env : Env) (key : ForeignBankId) (p : InterbankPendingTx) (t : Tables) where
  pub rollback_body-Applied :
      UniqueIds t.accounts
      → (rollback_body env key p t).0 ≡ none
      → Applied env p t
          (flipped key rolled_back t)
          (rollback_body env key p t)
          (λ k. rolled_back_tables key p k t)
  rollback_body-Applied ids h =
      let local_id = p.reserved_from_local_id in
      let mark = mark_pending_tx env key rolled_back t in
      let t₁ = flipped key rolled_back t in
      let (marked, rest) =
        next-none mark (release env local_id p.reserved_currency p.reserved_amount) h in
      let to_release =
        rest
        ∙ ap (λ r. release env local_id p.reserved_currency p.reserved_amount r.1)
            (mark-none env key rolled_back t marked) in
      let u =
        release-Updated env local_id p.reserved_currency p.reserved_amount t₁ ids
          (sym (ap (λ r. r.0) to_release) ∙ h) in
      record {
        k = u.k;
        account = u.account;
        locked = u.locked;
        found = u.found;
        result = to_release ∙ u.result;
      }

  pub commit_body-Applied :
      UniqueIds t.accounts
      → (commit_body env key p t).0 ≡ none
      → Applied env p t
          (flipped key committed t)
          (commit_body env key p t)
          (λ k. committed_tables key p k t)
  commit_body-Applied ids h =
      let local_id = p.reserved_from_local_id in
      let mark = mark_pending_tx env key committed t in
      let t₁ = flipped key committed t in
      let pay = debit env local_id p.reserved_currency p.reserved_amount in
      let (ensured, last) = next-none _ (close_negotiation_of env p) h in
      let (paid, third) = next-none _ (ensure_contract env p) ensured in
      let (marked, second) = next-none mark pay paid in
      let to_pay = second ∙ ap (λ r. pay r.1) (mark-none env key committed t marked) in
      let u =
        debit-Updated env local_id p.reserved_currency p.reserved_amount t₁ ids
          (sym (ap (λ r. r.0) to_pay) ∙ paid) in
      let t₂ = record t₁ { accounts = update_fields u.k (spent p.reserved_amount) t.accounts } in
      let to_ensure = third ∙ ap (λ r. ensure_contract env p r.1) (to_pay ∙ u.result) in
      let e = ensure-none env p t₂ (sym (ap (λ r. r.0) to_ensure) ∙ ensured) in
      let t₃ = record t₂ { contracts = with_contract p t.contracts } in
      let to_close = last ∙ ap (λ r. close_negotiation_of env p r.1) (to_ensure ∙ e) in
      record {
        k = u.k;
        account = u.account;
        locked = u.locked;
        found = u.found;
        result = to_close ∙ close-none env p t₃ (sym (ap (λ r. r.0) to_close) ∙ h);
      }

  pub reservation-Applied :
      UniqueIds t.accounts
      → (reservation env p t).0 ≡ none
      → (r : Reserved env p.reserved_from_local_id p.reserved_currency p.reserved_amount t)
        × (reservation env p t ≡ (
          none,
          record t {
            accounts = update_fields r.k (taken p.reserved_amount) t.accounts;
            pending_txs = p ∷ t.pending_txs;
          },
        ))
  reservation-Applied ids h =
      let (reserved, rest) = next-none _ (create_pending_row env p) h in
      let r =
        reserve-Reserved env p.reserved_from_local_id p.reserved_currency p.reserved_amount t ids
          reserved in
      let to_create = rest ∙ ap (λ s. create_pending_row env p s.1) r.done in
      (r, to_create ∙ create-none env p _ (sym (ap (λ s. s.0) to_create) ∙ h))
