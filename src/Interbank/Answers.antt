-- ===== src/Interbank/Answers.antt =====
-- What the answers of OtcTxProcessor (exchange-service/internal/interbank/tx_processor.go) say: a vote
-- YES, a vote that is not YES, a commit and a rollback that succeed.
use exbanka_3_backend.Prelude.{
  ℕ, ◌≡◌, ◌≢◌, refl, ap, ◌∙◌, false, Option, none, some, ◌∷◌, arith, Option-cases, Bool-cases, ◌⊎◌,
  inl, inr,
}
use exbanka_3_backend.Prelude.Db.{Transactions, transaction-cases}
use exbanka_3_backend.Prelude.Except.{ok, Except-cases}
use exbanka_3_backend.Payment.{Account, find_account, update_fields}
use exbanka_3_backend.Interbank.Messages.{ForeignBankId, Posting, Transaction, voting_yes}
use exbanka_3_backend.Interbank.Models.{
  InterbankOtcNegotiation, pending, committed, rolled_back, InterbankPendingTx, Tables, Stmt, Error,
  get_by_tx_id, Env,
}
use exbanka_3_backend.Interbank.Acceptance.{TimeLayouts, OtcAcceptance}
use exbanka_3_backend.Interbank.Wallet.{lock_client_account, taken}
use exbanka_3_backend.Interbank.Processor.{
  refused, failed, pending_row, reservation, is_insufficient, commit_body, rollback_body, tolerant,
  new_tx_checks, reserve_and_record, on_new_tx, apply_commit, commit_row, on_commit_tx,
  apply_rollback, rollback_row, on_rollback_tx,
}
use exbanka_3_backend.Interbank.Agreement.{Checked, new_tx_checks-Checked}
use exbanka_3_backend.Interbank.Steps.{Reserved, IsKeyed}
use exbanka_3_backend.Interbank.Bodies.{
  rollback_body-Applied, commit_body-Applied, reservation-Applied, flipped, committed_tables,
  rolled_back_tables,
}
use exbanka_3_backend.Interbank.Backing.{tolerant-tables}

-- What a first vote YES has checked and done, on the tables `t`.
pub record Accepted (time : TimeLayouts) (env : Env) (own_routing partner : ℕ) (tx : Transaction)
    (t t' : Tables) : Type 0 where
  pub acceptance : OtcAcceptance
  pub negotiation : InterbankOtcNegotiation
  pub checked : Checked time own_routing partner tx t acceptance negotiation
  pub reserved :
      Reserved env negotiation.buyer_id negotiation.premium_currency negotiation.premium_amount t
  pub written : t' ≡ record t {
    accounts = update_fields reserved.k (taken negotiation.premium_amount) t.accounts;
    pending_txs = pending_row partner tx.transaction_id negotiation ∷ t.pending_txs;
  }

module _ (time : TimeLayouts) (own_routing : ℕ) (db : Transactions Tables Error) (env : Env)
    (partner : ℕ) (tx : Transaction) (t : Tables) where
  -- A reservation is recorded with a vote YES, or nothing is written and the vote is not YES.
  reserve_and_record-cases :
      (at_buyer : Posting) (p : InterbankPendingTx)
      → (((reservation env p t).0 ≡ none)
          × (reserve_and_record time own_routing db env at_buyer p t
              ≡ (ok voting_yes, (reservation env p t).1)))
        ⊎ (((reserve_and_record time own_routing db env at_buyer p t).1 ≡ t)
            × ((reserve_and_record time own_routing db env at_buyer p t).0 ≢ ok voting_yes))
  unfolding reserve_and_record
  reserve_and_record-cases at_buyer p = elim (transaction-cases db (reservation env p) t) [
    | inl (k, done) ↦ inl (k, rw (done, k) refl)
    | inr (e, lost) ↦ inr (
      ap (λ r. r.1) lost,
      elim (Bool-cases (is_insufficient (reservation env p t).0)) [
        | inl poor ↦ rw (lost, poor) (λ same. absurd (cc))
        | inr other ↦ rw (lost, other) (λ same. absurd (cc))
      ],
    )
  ]

  -- A NEW_TX that is not answered by a vote YES, but by a vote NO or an error, has changed nothing.
  pub on_new_tx-not_yes :
      (on_new_tx time own_routing db env partner tx t).0 ≢ ok voting_yes
      → (on_new_tx time own_routing db env partner tx t).1 ≡ t
  unfolding on_new_tx
  on_new_tx-not_yes h = elim (Except-cases (new_tx_checks time own_routing env partner tx t)) [
    | inr (refused r, e) ↦ rw e refl
    | inr (failed x, e) ↦ rw e refl
    | inl ((a, n), e) ↦ elim (Bool-cases (env.fails Stmt.load_pending)) [
      | inl broken ↦ rw (e, broken) refl
      | inr fine ↦ elim (Option-cases (get_by_tx_id tx.transaction_id t.pending_txs)) [
        | inr (p, seen) ↦ rw (e, fine, seen) refl
        | inl fresh ↦
            elim (reserve_and_record-cases a.cash_leg_buyer.posting
              (pending_row partner tx.transaction_id n)) [
                | inl (k, done) ↦ absurd (h (rw (e, fine, fresh, done) refl))
                | inr (kept, other) ↦ rw (e, fine, fresh) kept
              ]
      ]
    ]
  ]

  -- A transaction id that was seen before changes nothing, whatever its postings and its answer.
  pub on_new_tx-seen :
      (p : InterbankPendingTx)
      → get_by_tx_id tx.transaction_id t.pending_txs ≡ some p
      → (on_new_tx time own_routing db env partner tx t).1 ≡ t
  unfolding on_new_tx
  on_new_tx-seen p seen = elim (Except-cases (new_tx_checks time own_routing env partner tx t)) [
    | inr (refused r, e) ↦ rw e refl
    | inr (failed x, e) ↦ rw e refl
    | inl ((a, n), e) ↦ elim (Bool-cases (env.fails Stmt.load_pending)) [
      | inl broken ↦ rw (e, broken) refl
      | inr fine ↦ rw (e, fine, seen) refl
    ]
  ]

  -- The first vote YES on a transaction id, on tables with one row for each account and transaction:
  -- the postings balance and are one option against cash between the same buyer and seller; the
  -- negotiation that the option names is there and ongoing, has these parties and terms, this bank
  -- as the buyer's and the partner as the seller's; an active account of the buyer in the premium's
  -- currency covers the premium, which is taken from its available balance alone; and the pending
  -- row is recorded.
  pub on_new_tx-yes :
      IsKeyed t
      → get_by_tx_id tx.transaction_id t.pending_txs ≡ none
      → (on_new_tx time own_routing db env partner tx t).0 ≡ ok voting_yes
      → Accepted time env own_routing partner tx t
          (on_new_tx time own_routing db env partner tx t).1
  unfolding on_new_tx pending_row
  on_new_tx-yes keyed fresh h =
      elim (Except-cases (new_tx_checks time own_routing env partner tx t)) [
        | inr (refused r, e) ↦ absurd (ground (arith, e))
        | inr (failed x, e) ↦ absurd (ground (arith, e))
        | inl ((a, n), e) ↦ elim (Bool-cases (env.fails Stmt.load_pending)) [
          | inl broken ↦ absurd (ground (arith, e, broken))
          | inr fine ↦
              elim (reserve_and_record-cases a.cash_leg_buyer.posting
                (pending_row partner tx.transaction_id n)) [
                  | inr (kept, other) ↦ absurd (other (rw (e, fine, fresh) at h))
                  | inl (k, done) ↦
                      let (r, written) =
                        reservation-Applied env tx.transaction_id
                          (pending_row partner tx.transaction_id n) t keyed.0 k in
                      record {
                        acceptance = a;
                        negotiation = n;
                        checked = new_tx_checks-Checked time own_routing env partner tx t a n e;
                        reserved = r;
                        written = rw (e, fine, fresh, done) (ap (λ s. s.1) written);
                      }
                ]
        ]
      ]

-- What a commit and a rollback leave of the tables: nothing is changed, or all of it is done.
pub record Done (env : Env) (p : InterbankPendingTx) (t after : Tables) (left : ℕ → Tables)
    (done : Option Error × Tables) : Type 0 where
  pub k : ℕ
  pub account : Account
  pub locked : lock_client_account env p.reserved_from_local_id p.reserved_currency after ≡ ok k
  pub found : find_account k t.accounts ≡ some account
  pub result : done ≡ (none, left k)

module _ (db : Transactions Tables Error) (env : Env) (key : ForeignBankId) (t : Tables)
    (p : InterbankPendingTx) where
  pub pending_commit :
      env.fails Stmt.load_pending ≡ false
      → get_by_tx_id key t.pending_txs ≡ some p
      → p.status ≡ pending
      → on_commit_tx db env key t ≡ tolerant (db.transaction (commit_body env key p) t)
  unfolding on_commit_tx apply_commit
  pending_commit fine found pend = rw (fine, found) (ap (λ s. commit_row db env key p s t) pend)

  -- A COMMIT_TX of a pending row, on tables with one row for each account and transaction, changes
  -- nothing or does all of it: the amount reserved is taken from the balance of the account that the
  -- buyer's id leads to, the row is committed, the contract is there and the negotiation is closed;
  -- and then it reports success.
  pub on_commit_tx-Done :
      IsKeyed t
      → get_by_tx_id key t.pending_txs ≡ some p
      → p.status ≡ pending
      → ((on_commit_tx db env key t).1 ≡ t)
        ⊎ Done env p t
            (flipped key committed t)
            (λ k. committed_tables key p k t)
            (on_commit_tx db env key t)
  unfolding on_commit_tx
  on_commit_tx-Done keyed found pend = elim (Bool-cases (env.fails Stmt.load_pending)) [
    | inl broken ↦ inl (rw broken refl)
    | inr fine ↦ elim (transaction-cases db (commit_body env key p) t) [
      | inr (e, lost) ↦ inl (
          ap (λ r. r.1) (pending_commit fine found pend ∙ ap tolerant lost)
          ∙ tolerant-tables (some e, t))
      | inl (k, done) ↦
          let c = commit_body-Applied env key p t keyed.0 k in
          inr record {
            k = c.k;
            account = c.account;
            locked = c.locked;
            found = c.found;
            result =
                pending_commit fine found pend ∙ ap tolerant done ∙ ap (λ r. (none, r.1)) c.result;
          }
    ]
  ]

  pub pending_rollback :
      env.fails Stmt.load_pending ≡ false
      → get_by_tx_id key t.pending_txs ≡ some p
      → p.status ≡ pending
      → on_rollback_tx db env key t ≡ tolerant (db.transaction (rollback_body env key p) t)
  unfolding on_rollback_tx apply_rollback
  pending_rollback fine found pend = rw (fine, found) (ap (λ s. rollback_row db env key p s t) pend)

  -- A ROLLBACK_TX of a pending row, on such tables, changes nothing or does all of it: the amount is
  -- available again on the account that the buyer's id leads to, and the row is rolled back; and then
  -- it reports success.
  pub on_rollback_tx-Done :
      IsKeyed t
      → get_by_tx_id key t.pending_txs ≡ some p
      → p.status ≡ pending
      → ((on_rollback_tx db env key t).1 ≡ t)
        ⊎ Done env p t
            (flipped key rolled_back t)
            (λ k. rolled_back_tables key p k t)
            (on_rollback_tx db env key t)
  unfolding on_rollback_tx
  on_rollback_tx-Done keyed found pend = elim (Bool-cases (env.fails Stmt.load_pending)) [
    | inl broken ↦ inl (rw broken refl)
    | inr fine ↦ elim (transaction-cases db (rollback_body env key p) t) [
      | inr (e, lost) ↦ inl (
          ap (λ r. r.1) (pending_rollback fine found pend ∙ ap tolerant lost)
          ∙ tolerant-tables (some e, t))
      | inl (k, done) ↦
          let c = rollback_body-Applied env key p t keyed.0 k in
          inr record {
            k = c.k;
            account = c.account;
            locked = c.locked;
            found = c.found;
            result =
                pending_rollback fine found pend
                ∙ ap tolerant done
                ∙ ap (λ r. (none, r.1)) c.result;
          }
    ]
  ]
