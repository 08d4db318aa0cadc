-- ===== src/InterbankPayment/Created.antt =====
-- New payment rows, with and without a reservation, and the stamps of those that the partner has
-- acknowledged (exchange-service/internal/repository/interbank_payment_repository.go).
use exbanka_3_backend.Prelude.{
  ℕ, ◌≡◌, refl, sym, ap, ◌∙◌, true, none, some, List, [], ◌∷◌, arith, Bool-cases, inl, inr,
}
use exbanka_3_backend.Prelude.Int.{ℤ, pos, ◌+ℤ◌, leb_ℤ, pos_part, neg_part, eq_of_parts, int_laws}
use exbanka_3_backend.Payment.{Account, find_account, update_fields}
use exbanka_3_backend.Payment.Accounts.{total_stanje, total-update, update-UniqueIds}
use exbanka_3_backend.Interbank.Messages.{ForeignBankId}
use exbanka_3_backend.Interbank.Totals.{
  blocked, total_blocked, blocked-update, blocked-taken, taken-id,
}
use exbanka_3_backend.Interbank.Wallet.{taken}
use exbanka_3_backend.InterbankPayment.Models.{
  InterbankPayment, Tables, key_of, is_tx, get_by_tx_id, stamped,
}
use exbanka_3_backend.InterbankPayment.Books.{
  booked, held, sum_of, UniqueTxs, HasAccount, Linked, Linked-update,
}
use exbanka_3_backend.InterbankPayment.Keeps.{IsKept, Keeps}

with_nothing : (b r g : ℤ) → g ≡ pos 0 → b +ℤ r ≡ b +ℤ (g +ℤ r)
with_nothing b r g e = rw e (grind int_laws)

with_held :
    (b b' a a' r g x : ℤ) → b' +ℤ a ≡ b +ℤ a' → a' ≡ a +ℤ x → g ≡ x → b' +ℤ r ≡ b +ℤ (g +ℤ r)
with_held b b' a a' r g x h e k = eq_of_parts (b' +ℤ r) (b +ℤ (g +ℤ r)) (
    omega (
      int_laws,
      ap pos_part h,
      ap neg_part h,
      ap pos_part e,
      ap neg_part e,
      ap pos_part k,
      ap neg_part k,
    ))

with_same : (b b' a r g : ℤ) → b' +ℤ a ≡ b +ℤ a → g ≡ pos 0 → b' +ℤ r ≡ b +ℤ (g +ℤ r)
with_same b b' a r g h e =
    eq_of_parts (b' +ℤ r) (b +ℤ (g +ℤ r))
      (omega (int_laws, ap pos_part h, ap neg_part h, ap pos_part e, ap neg_part e))

taken-stanje : (x : ℤ) (a : Account) → (taken x a).stanje ≡ a.stanje
unfolding taken
taken-stanje x a = ground arith

module _ (t : Tables) (kept : IsKept t) (p : InterbankPayment)
    (fresh : get_by_tx_id (key_of p) t.payments ≡ none) (nothing : booked p ≡ pos 0) where
  pub created-Keeps :
      HasAccount t.accounts p.local_account_id
      → held p ≡ pos 0
      → Keeps t (record t { payments = p ∷ t.payments })
  unfolding sum_of
  created-Keeps here nothing_held = (
    (kept.0, (fresh, kept.1), (here, kept.2)),
    with_nothing (total_stanje t.accounts) (sum_of booked t.payments) (booked p) nothing,
    with_nothing (total_blocked t.accounts) (sum_of held t.payments) (held p) nothing_held,
  )

  pub reserved-Keeps :
      (k : ℕ) (x : ℤ) (a : Account)
      → find_account k t.accounts ≡ some a
      → leb_ℤ x a.raspolozivo_stanje ≡ true
      → HasAccount (update_fields k (taken x) t.accounts) p.local_account_id
      → held p ≡ x
      → Keeps t
          (record { accounts = update_fields k (taken x) t.accounts; payments = p ∷ t.payments })
  unfolding sum_of
  reserved-Keeps k x a at enough here all_held =
      let rows = update_fields k (taken x) t.accounts in
      (
        (
          update-UniqueIds k (taken x) t.accounts (taken-id x) kept.0,
          (fresh, kept.1),
          (here, Linked-update k (taken x) t.accounts t.payments (taken-id x) kept.2),
        ),
        with_same (total_stanje t.accounts) (total_stanje rows) a.stanje (sum_of booked t.payments)
            (booked p)
            (total-update k (taken x) t.accounts a kept.0 at
              ∙ ap (λ s. total_stanje t.accounts +ℤ s) (taken-stanje x a))
            nothing,
        with_held (total_blocked t.accounts) (total_blocked rows) (blocked a) (blocked (taken x a))
            (sum_of held t.payments) (held p) x (blocked-update k (taken x) t.accounts a kept.0 at)
            (blocked-taken x a enough) all_held,
      )

-- A stamp changes no term of a row.
module _ (key : ForeignBankId) where
  stamped-get_none :
      (other : ForeignBankId) (rows : List InterbankPayment)
      → get_by_tx_id other rows ≡ none
      → get_by_tx_id other (stamped key rows) ≡ none
  unfolding stamped get_by_tx_id is_tx
  stamped-get_none other [] h = refl
  stamped-get_none other (r ∷ rows) h = ground (arith, stamped-get_none other rows)

  stamped-UniqueTxs : (rows : List InterbankPayment) → UniqueTxs rows → UniqueTxs (stamped key rows)
  unfolding stamped
  stamped-UniqueTxs [] u = tt
  stamped-UniqueTxs (r ∷ rows) (fresh, u) =
      let rest = stamped-UniqueTxs rows u in
      let still = stamped-get_none (key_of r) rows fresh in
      elim (Bool-cases (is_tx key r)) [
        | inr other ↦ rw other (still, rest)
        | inl same ↦ rw same (still, rest)
      ]

  stamped-Linked :
      (accounts : List Account) (rows : List InterbankPayment)
      → Linked accounts rows
      → Linked accounts (stamped key rows)
  unfolding stamped
  stamped-Linked accounts [] l = tt
  stamped-Linked accounts (r ∷ rows) (here, l) =
      let rest = stamped-Linked accounts rows l in
      elim (Bool-cases (is_tx key r)) [
        | inr other ↦ rw other (here, rest)
        | inl same ↦ rw same (here, rest)
      ]

  sum-stamped :
      (g : InterbankPayment → ℤ) (rows : List InterbankPayment)
      → ((r : InterbankPayment) → g (record r { partner_finalised = true }) ≡ g r)
      → sum_of g (stamped key rows) ≡ sum_of g rows
  unfolding stamped sum_of
  sum-stamped g [] same = refl
  sum-stamped g (r ∷ rows) same = ground (arith, same r, sum-stamped g rows same)

  pub stamped-Keeps :
      (t : Tables) → IsKept t → Keeps t (record t { payments = stamped key t.payments })
  stamped-Keeps t kept = (
    (kept.0, stamped-UniqueTxs t.payments kept.1, stamped-Linked t.accounts t.payments kept.2),
    ap (λ x. total_stanje t.accounts +ℤ x) (sym (sum-stamped booked t.payments (λ r. refl))),
    ap (λ x. total_blocked t.accounts +ℤ x) (sym (sum-stamped held t.payments (λ r. refl))),
  )
