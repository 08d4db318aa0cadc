-- ===== src/Interbank/Steps.antt =====
-- What each statement of an interbank settlement (exchange-service/internal/interbank/
-- tx_processor.go and internal/repository/interbank_wallet_repository.go) does to the totals.
use exbanka_3_backend.Prelude.{
  ℕ, ◌≡◌, refl, ap, true, Option, none, some, List, [], ◌∷◌, arith, inl, inr,
}
use exbanka_3_backend.Prelude.Int.{ℤ, ◌+ℤ◌, leb_ℤ, pos_part, neg_part, eq_of_parts, int_laws}
use exbanka_3_backend.Prelude.Text.{Text}
use exbanka_3_backend.Prelude.Except.{ok, or_fail, Except-cases, >>=-eq-ok, fail_if-eq-ok}
use exbanka_3_backend.Payment.{Account, find_account, update_fields}
use exbanka_3_backend.Payment.Accounts.{UniqueIds}
use exbanka_3_backend.Interbank.Messages.{ForeignBankId}
use exbanka_3_backend.Interbank.Models.{
  PendingTxStatus, InterbankPendingTx, Tables, Stmt, Error, is_tx, get_by_tx_id, flip_pending, Env,
}
use exbanka_3_backend.Interbank.Wallet.{
  parse_client_local_id, eligible, lock_client_account, taken, reserve_at, reserve, spent, debit,
  refunded, release,
}
use exbanka_3_backend.Interbank.Totals.{
  total_blocked, total_reserved, key_of, UniqueTxs, first_eligible-found, covers-found,
}

pub or_fail-eq-ok : {E A : Type 0} (o : Option A) (e : E) {a : A} → or_fail o e ≡ ok a → o ≡ some a
or_fail-eq-ok none e h = cc
or_fail-eq-ok (some a) e h = cc

module _ (env : Env) (local_id currency : Text) (x : ℤ) (t : Tables) where
  -- An account that is locked is one of the client's.
  pub lock-found :
      (k : ℕ)
      → UniqueIds t.accounts
      → lock_client_account env local_id currency t ≡ ok k
      → (client : ℕ) × (a : Account) × (parse_client_local_id local_id ≡ some client)
        × (find_account k t.accounts ≡ some a)
        × (eligible client currency a ≡ true)
  unfolding lock_client_account
  lock-found k u h =
      let (client, parsed, h₁) =
        >>=-eq-ok (or_fail (parse_client_local_id local_id) Error.wallet_insufficient) _ h in
      let (fine, h₂) =
        fail_if-eq-ok (env.fails Stmt.lock_account) (Error.database Stmt.lock_account) _ h₁ in
      let (a, found, fit) =
        first_eligible-found client currency t.accounts k u (or_fail-eq-ok _ _ h₂) in
      (client, a, or_fail-eq-ok _ _ parsed, found, fit)

  -- A reservation that goes through takes what is available from one account that covers it.
  pub record Reserved : Type 0 where
    pub k : ℕ
    pub account : Account
    pub client : ℕ
    pub locked : lock_client_account env local_id currency t ≡ ok k
    pub parsed : parse_client_local_id local_id ≡ some client
    pub found : find_account k t.accounts ≡ some account
    pub fit : eligible client currency account ≡ true
    pub covered : leb_ℤ x account.raspolozivo_stanje ≡ true
    pub done :
        reserve env local_id currency x t
        ≡ (none, record t { accounts = update_fields k (taken x) t.accounts })

  pub reserve-Reserved :
      UniqueIds t.accounts → (reserve env local_id currency x t).0 ≡ none → Reserved
  unfolding reserve reserve_at
  reserve-Reserved u h = elim (Except-cases (lock_client_account env local_id currency t)) [
    | inr (e, k) ↦ absurd (ground arith)
    | inl (k, locked) ↦
        let (client, a, parsed, found, fit) = lock-found k u locked in
        let (b, found_b, covered) = covers-found k x t.accounts u (ground arith) in
        record {
          k = k;
          account = b;
          client = client;
          locked = locked;
          parsed = parsed;
          found = found_b;
          fit = ground arith;
          covered = covered;
          done = ground arith;
        }
  ]

  -- A debit or a release that goes through changes one account, which is there.
  pub record Updated (f : Account → Account) (done : Option Error × Tables) : Type 0 where
    pub k : ℕ
    pub account : Account
    pub locked : lock_client_account env local_id currency t ≡ ok k
    pub found : find_account k t.accounts ≡ some account
    pub result : done ≡ (none, record t { accounts = update_fields k f t.accounts })

  pub debit-Updated :
      UniqueIds t.accounts
      → (debit env local_id currency x t).0 ≡ none
      → Updated (spent x) (debit env local_id currency x t)
  unfolding debit
  debit-Updated u h = elim (Except-cases (lock_client_account env local_id currency t)) [
    | inr (e, k) ↦ absurd (ground arith)
    | inl (k, locked) ↦
        let (client, a, parsed, found, fit) = lock-found k u locked in
        record { k = k; account = a; locked = locked; found = found; result = ground arith }
  ]

  pub release-Updated :
      UniqueIds t.accounts
      → (release env local_id currency x t).0 ≡ none
      → Updated (refunded x) (release env local_id currency x t)
  unfolding release
  release-Updated u h = elim (Except-cases (lock_client_account env local_id currency t)) [
    | inr (e, k) ↦ absurd (ground arith)
    | inl (k, locked) ↦
        let (client, a, parsed, found, fit) = lock-found k u locked in
        record { k = k; account = a; locked = locked; found = found; result = ground arith }
  ]

-- One row for each account and each transaction.
abbrev pub IsKeyed : Tables → Type 0
IsKeyed t = UniqueIds t.accounts × UniqueTxs t.pending_txs

-- The ids stay unique, and what is blocked changes by what is reserved.
abbrev pub Backs : Tables → Tables → Type 0
Backs t t' =
    IsKeyed t'
    × (total_blocked t'.accounts +ℤ total_reserved t.pending_txs
        ≡ total_blocked t.accounts +ℤ total_reserved t'.pending_txs)

crossed : (b b' b'' r r' r'' : ℤ) → b' +ℤ r ≡ b +ℤ r' → b'' +ℤ r' ≡ b' +ℤ r'' → b'' +ℤ r ≡ b +ℤ r''
crossed b b' b'' r r' r'' h k =
    eq_of_parts (b'' +ℤ r) (b +ℤ r'')
      (omega (int_laws, ap pos_part h, ap neg_part h, ap pos_part k, ap neg_part k))

pub Backs-refl : (t : Tables) → IsKeyed t → Backs t t
Backs-refl t u = (u, refl)

pub Backs-trans : (t t' t'' : Tables) → Backs t t' → Backs t' t'' → Backs t t''
Backs-trans t t' t'' b c = (
  c.0,
  crossed (total_blocked t.accounts) (total_blocked t'.accounts) (total_blocked t''.accounts)
      (total_reserved t.pending_txs) (total_reserved t'.pending_txs)
      (total_reserved t''.pending_txs) b.1 c.1,
)

flip-fresh :
    (key other : ForeignBankId) (new : PendingTxStatus) (rows : List InterbankPendingTx)
    → get_by_tx_id other rows ≡ none
    → get_by_tx_id other (flip_pending key new rows) ≡ none
unfolding flip_pending get_by_tx_id is_tx
flip-fresh key other new [] h = refl
flip-fresh key other new (r ∷ rows) h = ground (arith, flip-fresh key other new rows)

pub flip-UniqueTxs :
    (key : ForeignBankId) (new : PendingTxStatus) (rows : List InterbankPendingTx)
    → UniqueTxs rows
    → UniqueTxs (flip_pending key new rows)
unfolding flip_pending
flip-UniqueTxs key new [] u = tt
flip-UniqueTxs key new (r ∷ rows) (fresh, u) =
    ground (arith, flip-fresh key (key_of r) new rows fresh, flip-UniqueTxs key new rows u)
