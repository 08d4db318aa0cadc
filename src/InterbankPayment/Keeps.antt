-- ===== src/InterbankPayment/Keeps.antt =====
-- What the writes of the payment protocol keep (exchange-service/internal/repository/
-- interbank_payment_repository.go): the books of the accounts and of the rows move together.
use exbanka_3_backend.Prelude.{ℕ, ◌≡◌, refl, sym, ap, ◌∙◌, true, some}
use exbanka_3_backend.Prelude.Int.{ℤ, ◌+ℤ◌, pos_part, neg_part, eq_of_parts, int_laws}
use exbanka_3_backend.Payment.{Account, find_account, update_fields}
use exbanka_3_backend.Payment.Accounts.{
  KeepsId, UniqueIds, total_stanje, total-update, update-UniqueIds,
}
use exbanka_3_backend.Interbank.Messages.{ForeignBankId}
use exbanka_3_backend.Interbank.Totals.{blocked, total_blocked, blocked-update}
use exbanka_3_backend.InterbankPayment.Models.{
  InterbankPayment, Tables, is_pending, get_by_tx_id, update_pending,
}
use exbanka_3_backend.InterbankPayment.Books.{
  booked, held, sum_of, UniqueTxs, KeepsTerms, Linked, sum-update, update-UniqueTxs, Linked-update,
  Linked-rows,
}

-- One row for each account and each transaction, and the accounts of the rows are there.
abbrev pub IsKept : Tables → Type 0
IsKept t = UniqueIds t.accounts × UniqueTxs t.payments × Linked t.accounts t.payments

-- From `t` to `t'`: the books change by what the payments have booked, and what is blocked by what
-- the payments hold.
abbrev pub Keeps : Tables → Tables → Type 0
Keeps t t' =
    IsKept t'
    × (total_stanje t'.accounts +ℤ sum_of booked t.payments
        ≡ total_stanje t.accounts +ℤ sum_of booked t'.payments)
    × (total_blocked t'.accounts +ℤ sum_of held t.payments
        ≡ total_blocked t.accounts +ℤ sum_of held t'.payments)

pub Keeps-refl : (t : Tables) → IsKept t → Keeps t t
Keeps-refl t kept = (kept, refl, refl)

-- Two changes in a row, and two totals that change by the same.
chain : (b b' b'' r r' r'' : ℤ) → b' +ℤ r ≡ b +ℤ r' → b'' +ℤ r' ≡ b' +ℤ r'' → b'' +ℤ r ≡ b +ℤ r''
chain b b' b'' r r' r'' h k =
    eq_of_parts (b'' +ℤ r) (b +ℤ r'')
      (omega (int_laws, ap pos_part h, ap neg_part h, ap pos_part k, ap neg_part k))

together :
    (b b' a a' r r' g g' : ℤ)
    → b' +ℤ a ≡ b +ℤ a'
    → r' +ℤ g ≡ r +ℤ g'
    → a' +ℤ g ≡ a +ℤ g'
    → b' +ℤ r ≡ b +ℤ r'
together b b' a a' r r' g g' h k e = eq_of_parts (b' +ℤ r) (b +ℤ r') (
    omega (
      int_laws,
      ap pos_part h,
      ap neg_part h,
      ap pos_part k,
      ap neg_part k,
      ap pos_part e,
      ap neg_part e,
    ))

unchanged : (b r r' g : ℤ) → r' +ℤ g ≡ r +ℤ g → b +ℤ r ≡ b +ℤ r'
unchanged b r r' g h =
    eq_of_parts (b +ℤ r) (b +ℤ r') (omega (int_laws, ap pos_part h, ap neg_part h))

pub Keeps-trans : (t t' t'' : Tables) → Keeps t t' → Keeps t' t'' → Keeps t t''
Keeps-trans t t' t'' (k, b, h) (k', b', h') = (
  k',
  chain (total_stanje t.accounts) (total_stanje t'.accounts) (total_stanje t''.accounts)
      (sum_of booked t.payments) (sum_of booked t'.payments) (sum_of booked t''.payments) b b',
  chain (total_blocked t.accounts) (total_blocked t'.accounts) (total_blocked t''.accounts)
      (sum_of held t.payments) (sum_of held t'.payments) (sum_of held t''.payments) h h',
)

-- A pending row is resolved and its account changed, each by the same.
module _ (t : Tables) (kept : IsKept t) (key : ForeignBankId) (p : InterbankPayment)
    (g : InterbankPayment → InterbankPayment) (terms : KeepsTerms g)
    (found : get_by_tx_id key t.payments ≡ some p) (pend : is_pending p.status ≡ true) where
  pub settled-Keeps :
      (k : ℕ) (f : Account → Account) (a : Account)
      → KeepsId f
      → find_account k t.accounts ≡ some a
      → (f a).stanje +ℤ booked p ≡ a.stanje +ℤ booked (g p)
      → blocked (f a) +ℤ held p ≡ blocked a +ℤ held (g p)
      → Keeps t (record t {
        accounts = update_fields k f t.accounts;
        payments = update_pending key g t.payments;
      })
  settled-Keeps k f a ids at on_books on_hold = (
    (
      update-UniqueIds k f t.accounts ids kept.0,
      update-UniqueTxs key g t.payments terms kept.1,
      Linked-rows (update_fields k f t.accounts) key g t.payments terms
          (Linked-update k f t.accounts t.payments ids kept.2),
    ),
    together (total_stanje t.accounts) (total_stanje (update_fields k f t.accounts)) a.stanje
        (f a).stanje (sum_of booked t.payments) (sum_of booked (update_pending key g t.payments))
        (booked p) (booked (g p)) (total-update k f t.accounts a kept.0 at)
        (sum-update booked key g t.payments p kept.1 found pend) on_books,
    together (total_blocked t.accounts) (total_blocked (update_fields k f t.accounts)) (blocked a)
        (blocked (f a)) (sum_of held t.payments) (sum_of held (update_pending key g t.payments))
        (held p) (held (g p)) (blocked-update k f t.accounts a kept.0 at)
        (sum-update held key g t.payments p kept.1 found pend) on_hold,
  )

  -- A row that is resolved without a change to an account.
  pub resolved-Keeps :
      booked p ≡ booked (g p)
      → held p ≡ held (g p)
      → Keeps t (record t { payments = update_pending key g t.payments })
  resolved-Keeps same_books same_hold = (
    (
      kept.0,
      update-UniqueTxs key g t.payments terms kept.1,
      Linked-rows t.accounts key g t.payments terms kept.2,
    ),
    let h = sum-update booked key g t.payments p kept.1 found pend in
        unchanged (total_stanje t.accounts) (sum_of booked t.payments) _ (booked p)
          (h ∙ ap (λ x. sum_of booked t.payments +ℤ x) (sym same_books)),
    let h = sum-update held key g t.payments p kept.1 found pend in
        unchanged (total_blocked t.accounts) (sum_of held t.payments) _ (held p)
          (h ∙ ap (λ x. sum_of held t.payments +ℤ x) (sym same_hold)),
  )
