-- ===== src/Interbank/Backing.antt =====
-- The money that messages of a partner bank block at the buyer's bank (OtcTxProcessor of
-- exchange-service/internal/interbank/tx_processor.go), over any sequence of messages.
use exbanka_3_backend.Prelude.{
  ℕ, ◌≡◌, refl, ap, true, false, Option, none, some, ◌∷◌, Option-cases, Bool-cases, inl, inr,
}
use exbanka_3_backend.Prelude.Int.{◌+ℤ◌, pos_part, neg_part, eq_of_parts, leb_ℤ, int_laws}
use exbanka_3_backend.Prelude.Db.{Transactions, transaction-cases}
use exbanka_3_backend.Payment.{Account, find_account, update_fields}
use exbanka_3_backend.Payment.Accounts.{KeepsId, update-UniqueIds}
use exbanka_3_backend.Interbank.Messages.{ForeignBankId}
use exbanka_3_backend.Interbank.Models.{
  PendingTxStatus, pending, committed, rolled_back, unknown_status, InterbankPendingTx, Tables,
  Stmt, Error, is_pending, get_by_tx_id, flip_pending, Env,
}
use exbanka_3_backend.Interbank.Wallet.{taken, spent, refunded}
use exbanka_3_backend.Interbank.Processor.{
  commit_body, rollback_body, tolerant, apply_commit, commit_row, on_commit_tx, apply_rollback,
  rollback_row, on_rollback_tx,
}
use exbanka_3_backend.Interbank.Totals.{
  reserved-cons, blocked, total_blocked, total_reserved, key_of, blocked-update, blocked-spent,
  blocked-refunded, blocked-taken, taken-id, spent-id, refunded-id, reserved-flip,
}
use exbanka_3_backend.Interbank.Steps.{IsKeyed, Backs, Backs-refl, flip-UniqueTxs}
use exbanka_3_backend.Interbank.Bodies.{rollback_body-Applied, commit_body-Applied}

-- A row that leaves pending, with an account that gives up as much of what it has blocked.
freed-Backs :
    (t : Tables) (key : ForeignBankId) (new : PendingTxStatus) (p : InterbankPendingTx) (k : ℕ)
    (a : Account) (f : Account → Account)
    → IsKeyed t
    → get_by_tx_id key t.pending_txs ≡ some p
    → is_pending p.status ≡ true
    → is_pending new ≡ false
    → find_account k t.accounts ≡ some a
    → KeepsId f
    → (blocked (f a) +ℤ p.reserved_amount ≡ blocked a)
    → Backs t (record t {
      accounts = update_fields k f t.accounts;
      pending_txs = flip_pending key new t.pending_txs;
    })
freed-Backs t key new p k a f (ids, txs) found pend resolved at_k keeps less =
    let kept = reserved-flip key new t.pending_txs p txs found pend resolved in
    let moved = blocked-update k f t.accounts a ids at_k in
    (
      (update-UniqueIds k f t.accounts keeps ids, flip-UniqueTxs key new t.pending_txs txs),
      eq_of_parts (total_blocked (update_fields k f t.accounts) +ℤ total_reserved t.pending_txs)
          (total_blocked t.accounts +ℤ total_reserved (flip_pending key new t.pending_txs))
          (omega (
            int_laws,
            ap pos_part kept,
            ap neg_part kept,
            ap pos_part moved,
            ap neg_part moved,
            ap pos_part less,
            ap neg_part less,
          )),
    )

-- A new row, with an account that blocks as much more.
pub reserved-Backs :
    (t : Tables) (p : InterbankPendingTx) (k : ℕ) (a : Account)
    → IsKeyed t
    → get_by_tx_id (key_of p) t.pending_txs ≡ none
    → is_pending p.status ≡ true
    → find_account k t.accounts ≡ some a
    → leb_ℤ p.reserved_amount a.raspolozivo_stanje ≡ true
    → Backs t (record t {
      accounts = update_fields k (taken p.reserved_amount) t.accounts;
      pending_txs = p ∷ t.pending_txs;
    })
reserved-Backs t p k a (ids, txs) fresh pend at_k covered =
    let f = taken p.reserved_amount in
    let moved = blocked-update k f t.accounts a ids at_k in
    let one_more = reserved-cons p t.pending_txs pend in
    let more = blocked-taken p.reserved_amount a covered in
    (
      (update-UniqueIds k f t.accounts (taken-id p.reserved_amount) ids, (fresh, txs)),
      eq_of_parts (total_blocked (update_fields k f t.accounts) +ℤ total_reserved t.pending_txs)
          (total_blocked t.accounts +ℤ total_reserved (p ∷ t.pending_txs))
          (omega (
            int_laws,
            ap pos_part moved,
            ap neg_part moved,
            ap pos_part more,
            ap neg_part more,
            ap pos_part one_more,
            ap neg_part one_more,
          )),
    )

pub tolerant-tables : (r : Option Error × Tables) → (tolerant r).1 ≡ r.1
tolerant-tables (none, s) = refl
tolerant-tables (some Error.already_resolved, s) = refl
tolerant-tables (some _, s) = refl

module _ (db : Transactions Tables Error) (env : Env) (key : ForeignBankId) (t : Tables)
    (keyed : IsKeyed t) where
  commit_body-Backs :
      (p : InterbankPendingTx)
      → get_by_tx_id key t.pending_txs ≡ some p
      → is_pending p.status ≡ true
      → (commit_body env key p t).0 ≡ none
      → Backs t (commit_body env key p t).1
  commit_body-Backs p found pend h =
      let c = commit_body-Applied env key p t keyed.0 h in
      rw (ap (λ r. r.1) c.result) (
        freed-Backs t key committed p c.k c.account (spent p.reserved_amount) keyed found pend refl
          c.found (spent-id p.reserved_amount) (blocked-spent p.reserved_amount c.account))

  rollback_body-Backs :
      (p : InterbankPendingTx)
      → get_by_tx_id key t.pending_txs ≡ some p
      → is_pending p.status ≡ true
      → (rollback_body env key p t).0 ≡ none
      → Backs t (rollback_body env key p t).1
  rollback_body-Backs p found pend h =
      let c = rollback_body-Applied env key p t keyed.0 h in
      rw (ap (λ r. r.1) c.result) (
        freed-Backs t key rolled_back p c.k c.account (refunded p.reserved_amount) keyed found pend
          refl c.found (refunded-id p.reserved_amount)
          (blocked-refunded p.reserved_amount c.account))

  pub transaction-Backs :
      (body : Tables → Option Error × Tables)
      → ((body t).0 ≡ none → Backs t (body t).1)
      → Backs t (db.transaction body t).1
  transaction-Backs body fine = elim (transaction-cases db body t) [
    | inl (k, done) ↦ rw (ap (λ r. r.1) done) (fine k)
    | inr (e, lost) ↦ rw (ap (λ r. r.1) lost) (Backs-refl t keyed)
  ]

  commit_row-Backs :
      (p : InterbankPendingTx) (s : PendingTxStatus)
      → p.status ≡ s
      → get_by_tx_id key t.pending_txs ≡ some p
      → Backs t (commit_row db env key p s t).1
  unfolding apply_commit
  commit_row-Backs p committed e found = Backs-refl t keyed
  commit_row-Backs p rolled_back e found = Backs-refl t keyed
  commit_row-Backs p (unknown_status s) e found = Backs-refl t keyed
  commit_row-Backs p pending e found =
      rw (tolerant-tables (db.transaction (commit_body env key p) t))
        (transaction-Backs (commit_body env key p) (commit_body-Backs p found (ap is_pending e)))

  rollback_row-Backs :
      (p : InterbankPendingTx) (s : PendingTxStatus)
      → p.status ≡ s
      → get_by_tx_id key t.pending_txs ≡ some p
      → Backs t (rollback_row db env key p s t).1
  unfolding apply_rollback
  rollback_row-Backs p committed e found = Backs-refl t keyed
  rollback_row-Backs p rolled_back e found = Backs-refl t keyed
  rollback_row-Backs p (unknown_status s) e found = Backs-refl t keyed
  rollback_row-Backs p pending e found =
      rw (tolerant-tables (db.transaction (rollback_body env key p) t)) (
        transaction-Backs (rollback_body env key p) (rollback_body-Backs p found (ap is_pending e)))

  pub on_commit_tx-Backs : Backs t (on_commit_tx db env key t).1
  unfolding on_commit_tx
  on_commit_tx-Backs = elim (Bool-cases (env.fails Stmt.load_pending)) [
    | inl broken ↦ rw broken (Backs-refl t keyed)
    | inr fine ↦ rw fine (elim (Option-cases (get_by_tx_id key t.pending_txs)) [
      | inl missing ↦ rw missing (Backs-refl t keyed)
      | inr (p, found) ↦ rw found (commit_row-Backs p p.status refl found)
    ])
  ]

  pub on_rollback_tx-Backs : Backs t (on_rollback_tx db env key t).1
  unfolding on_rollback_tx
  on_rollback_tx-Backs = elim (Bool-cases (env.fails Stmt.load_pending)) [
    | inl broken ↦ rw broken (Backs-refl t keyed)
    | inr fine ↦ rw fine (elim (Option-cases (get_by_tx_id key t.pending_txs)) [
      | inl missing ↦ rw missing (Backs-refl t keyed)
      | inr (p, found) ↦ rw found (rollback_row-Backs p p.status refl found)
    ])
  ]
