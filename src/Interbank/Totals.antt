-- ===== src/Interbank/Totals.antt =====
-- Totals over the accounts and the pending rows of an interbank settlement, and what the updates of
-- exchange-service/internal/repository/interbank_wallet_repository.go make of them.
use exbanka_3_backend.Prelude.{
  ℕ, ◌==◌, ◌≡◌, refl, sym, ap, ◌∙◌, true, false, ◌&&◌, none, some, List, [], ◌∷◌, arith,
  if◌then◌else◌, Option-cases, Bool-cases, inl, inr,
}
use exbanka_3_backend.Prelude.Int.{ℤ, pos, ◌+ℤ◌, ◌-ℤ◌, leb_ℤ, int_laws}
use exbanka_3_backend.Prelude.Text.{Text, text_eq-eq}
use exbanka_3_backend.Payment.{Account, find_account, update_fields}
use exbanka_3_backend.Payment.Accounts.{KeepsId, UniqueIds, update-absent}
use exbanka_3_backend.Interbank.Messages.{ForeignBankId}
use exbanka_3_backend.Interbank.Models.{
  PendingTxStatus, InterbankPendingTx, is_pending, is_tx, get_by_tx_id, flip_pending,
}
use exbanka_3_backend.Interbank.Wallet.{eligible, first_eligible, covers, taken, spent, refunded}

-- What is on the books of an account and cannot be spent.
abbrev pub blocked : Account → ℤ
blocked a = a.stanje -ℤ a.raspolozivo_stanje

pub total_blocked : List Account → ℤ
total_blocked [] = pos 0
total_blocked (a ∷ rows) = blocked a +ℤ total_blocked rows

-- What the pending rows have reserved.
abbrev pub reserved_by : InterbankPendingTx → ℤ
reserved_by r = if is_pending r.status then r.reserved_amount else pos 0

pub total_reserved : List InterbankPendingTx → ℤ
total_reserved [] = pos 0
total_reserved (r ∷ rows) = reserved_by r +ℤ total_reserved rows

-- `idx_interbank_pending_tx_key`: one row for each transaction.
abbrev pub key_of : InterbankPendingTx → ForeignBankId
key_of r = record { routing_number = r.tx_routing_number; id = r.tx_id }

abbrev pub UniqueTxs : List InterbankPendingTx → Type 0
UniqueTxs [] = Unit {0}
UniqueTxs (r ∷ rows) = (get_by_tx_id (key_of r) rows ≡ none) × UniqueTxs rows

pub blocked-update :
    (k : ℕ) (f : Account → Account) (rows : List Account) (a : Account)
    → UniqueIds rows
    → find_account k rows ≡ some a
    → total_blocked (update_fields k f rows) +ℤ blocked a ≡ total_blocked rows +ℤ blocked (f a)
unfolding total_blocked update_fields find_account
blocked-update k f [] a u h = cc
blocked-update k f (x ∷ rows) a (new, u) h =
    grind (int_laws, update-absent k f rows, blocked-update k f rows a u)

pub blocked-spent : (x : ℤ) (a : Account) → blocked (spent x a) +ℤ x ≡ blocked a
unfolding spent
blocked-spent x a = grind int_laws

pub blocked-refunded : (x : ℤ) (a : Account) → blocked (refunded x a) +ℤ x ≡ blocked a
unfolding refunded
blocked-refunded x a = grind int_laws

pub blocked-taken :
    (x : ℤ) (a : Account)
    → leb_ℤ x a.raspolozivo_stanje ≡ true
    → blocked (taken x a) ≡ blocked a +ℤ x
unfolding taken
blocked-taken x a h = rw h (grind int_laws)

pub taken-id : (x : ℤ) → KeepsId (taken x)
unfolding taken
taken-id x a = ground arith

pub spent-id : (x : ℤ) → KeepsId (spent x)
unfolding spent
spent-id x a = refl

pub refunded-id : (x : ℤ) → KeepsId (refunded x)
unfolding refunded
refunded-id x a = refl

-- The account that is locked is there.
pub first_eligible-found :
    (client : ℕ) (currency : Text) (rows : List Account) (k : ℕ)
    → UniqueIds rows
    → first_eligible client currency rows ≡ some k
    → (a : Account) × (find_account k rows ≡ some a) × (eligible client currency a ≡ true)
unfolding first_eligible find_account
first_eligible-found client currency [] k u h = cc
first_eligible-found client currency (a ∷ rows) k (new, u) h =
    elim (Option-cases (first_eligible client currency rows)) [
      | inl none_left ↦ (a, ground arith, ground arith)
      | inr (j, found) ↦
          let (b, found_b, fit) = first_eligible-found client currency rows j u found in
          elim (Bool-cases (a.id == k)) [
            | inl same ↦ (a, ground arith, ground arith)
            | inr other ↦ (b, ground arith, fit)
          ]
    ]

-- Under unique ids the rows that a reservation affects are the one that covers it.
pub covers-found :
    (k : ℕ) (x : ℤ) (rows : List Account)
    → UniqueIds rows
    → covers k x rows ≡ true
    → (a : Account) × (find_account k rows ≡ some a) × (leb_ℤ x a.raspolozivo_stanje ≡ true)
unfolding covers find_account
covers-found k x [] u h = cc
covers-found k x (a ∷ rows) (new, u) h =
    elim (Bool-cases ((a.id == k) && leb_ℤ x a.raspolozivo_stanje)) [
      | inl here ↦ (a, ground arith, ground arith)
      | inr later ↦
          let (b, found, enough) = covers-found k x rows u (ground arith) in
          elim (Bool-cases (a.id == k)) [
            | inl same ↦ absurd (ground arith)
            | inr other ↦ (b, ground arith, enough)
          ]
    ]

pub is_tx-key : (key : ForeignBankId) (r : InterbankPendingTx) → is_tx key r ≡ true → key_of r ≡ key
unfolding is_tx
is_tx-key key r h = ground (arith, text_eq-eq r.tx_id key.id)

flip-absent :
    (key : ForeignBankId) (new : PendingTxStatus) (rows : List InterbankPendingTx)
    → get_by_tx_id key rows ≡ none
    → flip_pending key new rows ≡ rows
unfolding flip_pending get_by_tx_id
flip-absent key new [] h = refl
flip-absent key new (r ∷ rows) h = ground (arith, flip-absent key new rows)

pub reserved-flip :
    (key : ForeignBankId) (new : PendingTxStatus) (rows : List InterbankPendingTx)
    (r : InterbankPendingTx)
    → UniqueTxs rows
    → get_by_tx_id key rows ≡ some r
    → is_pending r.status ≡ true
    → is_pending new ≡ false
    → total_reserved (flip_pending key new rows) +ℤ r.reserved_amount ≡ total_reserved rows
unfolding flip_pending get_by_tx_id total_reserved
reserved-flip key new [] r u h p n = cc
reserved-flip key new (x ∷ rows) r (fresh, u) h p n = elim (Bool-cases (is_tx key x)) [
  | inl same ↦
      let absent = sym (ap (λ k. get_by_tx_id k rows) (is_tx-key key x same)) ∙ fresh in
      let kept = flip-absent key new rows absent in
      elim (Bool-cases (is_pending x.status)) [
        | inl p ↦ grind (int_laws, kept)
        | inr q ↦ absurd (ground arith)
      ]
  | inr other ↦
      let later = reserved-flip key new rows r u (ground arith) p n in grind (int_laws, later)
]

pub reserved-cons :
    (p : InterbankPendingTx) (rows : List InterbankPendingTx)
    → is_pending p.status ≡ true
    → total_reserved (p ∷ rows) ≡ p.reserved_amount +ℤ total_reserved rows
unfolding total_reserved
reserved-cons p rows h = rw h refl
