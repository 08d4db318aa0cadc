-- ===== src/InterbankPayment/Books.antt =====
-- Totals over the accounts and the payment rows (exchange-service/internal/repository/
-- interbank_payment_repository.go) and what the updates make of them.
use exbanka_3_backend.Prelude.{
  ℕ, ◌≡◌, refl, sym, ap, ◌∙◌, true, ◌==◌, ◌&&◌, Option, none, some, List, [], ◌∷◌, arith,
  Bool-cases, inl, inr,
}
use exbanka_3_backend.Prelude.Int.{ℤ, pos, ◌+ℤ◌, int_laws}
use exbanka_3_backend.Prelude.Text.{text_eq, text_eq-eq}
use exbanka_3_backend.Payment.{Account, find_account, update_fields}
use exbanka_3_backend.Payment.Accounts.{KeepsId, find-update_self, find-update_ne}
use exbanka_3_backend.Interbank.Messages.{ForeignBankId}
use exbanka_3_backend.Interbank.Acceptance.{negated}
use exbanka_3_backend.InterbankPayment.Models.{
  PaymentDirection, inbound, outbound, PaymentStatus, pending, committed, InterbankPayment,
  is_pending, key_of, is_tx, get_by_tx_id, update_pending, has_pending,
}

-- What a row has moved onto the books of its account: a committed one, its amount.
abbrev pub booked_as : PaymentDirection → PaymentStatus → ℤ → ℤ
booked_as inbound committed x = x
booked_as outbound committed x = negated x
booked_as _ _ x = pos 0

abbrev pub booked : InterbankPayment → ℤ
booked r = booked_as r.direction r.status r.amount

-- What a row holds back on its account: a pending outbound one, its amount.
abbrev pub held_as : PaymentDirection → PaymentStatus → ℤ → ℤ
held_as outbound pending x = x
held_as _ _ x = pos 0

abbrev pub held : InterbankPayment → ℤ
held r = held_as r.direction r.status r.amount

unfoldable pub sum_of : (InterbankPayment → ℤ) → List InterbankPayment → ℤ
sum_of g [] = pos 0
sum_of g (r ∷ rows) = g r +ℤ sum_of g rows

-- `idx_interbank_payment_key`: one row for each transaction.
abbrev pub UniqueTxs : List InterbankPayment → Type 0
UniqueTxs [] = Unit {0}
UniqueTxs (r ∷ rows) = (get_by_tx_id (key_of r) rows ≡ none) × UniqueTxs rows

-- An update that keeps the transaction, the account and the terms of a row.
abbrev pub KeepsTerms : (InterbankPayment → InterbankPayment) → Type 0
KeepsTerms f =
    (r : InterbankPayment)
    → (key_of (f r) ≡ key_of r)
      × ((f r).local_account_id ≡ r.local_account_id)
      × ((f r).direction ≡ r.direction)
      × ((f r).amount ≡ r.amount)

pub is_tx-key : (key : ForeignBankId) (r : InterbankPayment) → is_tx key r ≡ true → key_of r ≡ key
unfolding is_tx
is_tx-key key r h = ground (arith, text_eq-eq r.tx_id key.id)

pub is_tx-keeps :
    (f : InterbankPayment → InterbankPayment)
    → KeepsTerms f
    → (key : ForeignBankId) (r : InterbankPayment) → is_tx key (f r) ≡ is_tx key r
unfolding is_tx
is_tx-keeps f keeps key r =
    ap (λ k. (k.routing_number == key.routing_number) && text_eq k.id key.id) (keeps r).0

update-absent :
    (key : ForeignBankId) (f : InterbankPayment → InterbankPayment) (rows : List InterbankPayment)
    → get_by_tx_id key rows ≡ none
    → update_pending key f rows ≡ rows
unfolding update_pending get_by_tx_id
update-absent key f [] h = refl
update-absent key f (r ∷ rows) h = ground (arith, update-absent key f rows)

pub has_pending-found :
    (key : ForeignBankId) (rows : List InterbankPayment)
    → UniqueTxs rows
    → has_pending key rows ≡ true
    → (p : InterbankPayment) × (get_by_tx_id key rows ≡ some p) × (is_pending p.status ≡ true)
unfolding has_pending get_by_tx_id
has_pending-found key [] u h = cc
has_pending-found key (r ∷ rows) (fresh, u) h = elim (Bool-cases (is_tx key r)) [
  | inr other ↦
      let (p, found, pend) = has_pending-found key rows u (ground arith) in
      (p, rw other found, pend)
  | inl same ↦ elim (Bool-cases (is_pending r.status)) [
    | inl pend ↦ (r, rw same refl, pend)
    | inr over ↦
        let (p, found, pend) = has_pending-found key rows u (ground arith) in
        absurd (let e = ap (λ k. get_by_tx_id k rows) (is_tx-key key r same) in cc)
  ]
]

-- The one pending row of a transaction changes a total by what it changes itself.
pub sum-update :
    (g : InterbankPayment → ℤ) (key : ForeignBankId) (f : InterbankPayment → InterbankPayment)
    (rows : List InterbankPayment) (p : InterbankPayment)
    → UniqueTxs rows
    → get_by_tx_id key rows ≡ some p
    → is_pending p.status ≡ true
    → sum_of g (update_pending key f rows) +ℤ g p ≡ sum_of g rows +ℤ g (f p)
unfolding update_pending get_by_tx_id sum_of
sum-update g key f [] p u h pend = cc
sum-update g key f (x ∷ rows) p (fresh, u) h pend = elim (Bool-cases (is_tx key x)) [
  | inl same ↦
      let absent = sym (ap (λ k. get_by_tx_id k rows) (is_tx-key key x same)) ∙ fresh in
      grind (int_laws, update-absent key f rows absent)
  | inr other ↦ grind (int_laws, sum-update g key f rows p u)
]

pub get-update_none :
    (key other : ForeignBankId) (f : InterbankPayment → InterbankPayment)
    (rows : List InterbankPayment)
    → KeepsTerms f
    → get_by_tx_id other rows ≡ none
    → get_by_tx_id other (update_pending key f rows) ≡ none
unfolding update_pending get_by_tx_id
get-update_none key other f [] keeps h = refl
get-update_none key other f (r ∷ rows) keeps h =
    ground (arith, is_tx-keeps f keeps other r, get-update_none key other f rows keeps)

pub update-UniqueTxs :
    (key : ForeignBankId) (f : InterbankPayment → InterbankPayment) (rows : List InterbankPayment)
    → KeepsTerms f
    → UniqueTxs rows
    → UniqueTxs (update_pending key f rows)
unfolding update_pending
update-UniqueTxs key f [] keeps u = tt
update-UniqueTxs key f (r ∷ rows) keeps (fresh, u) =
    let rest = update-UniqueTxs key f rows keeps u in
    let still = get-update_none key (key_of r) f rows keeps fresh in
    elim (Bool-cases (is_tx key r && is_pending r.status)) [
      | inr other ↦ rw other (still, rest)
      | inl same ↦
          rw same (ap (λ k. get_by_tx_id k (update_pending key f rows)) (keeps r).0 ∙ still, rest)
    ]

-- The accounts that the rows name are there.
abbrev pub HasAccount : List Account → Option ℕ → Type 0
HasAccount accounts none = Unit {0}
HasAccount accounts (some k) = (a : Account) × (find_account k accounts ≡ some a)

abbrev pub Linked : List Account → List InterbankPayment → Type 0
Linked accounts [] = Unit {0}
Linked accounts (r ∷ rows) = HasAccount accounts r.local_account_id × Linked accounts rows

pub Linked-found :
    (accounts : List Account) (key : ForeignBankId) (rows : List InterbankPayment)
    (p : InterbankPayment)
    → Linked accounts rows
    → get_by_tx_id key rows ≡ some p
    → HasAccount accounts p.local_account_id
unfolding get_by_tx_id
Linked-found accounts key [] p l h = cc
Linked-found accounts key (r ∷ rows) p (here, l) h = elim (Bool-cases (is_tx key r)) [
  | inl same ↦ let e : r.local_account_id ≡ p.local_account_id = ground arith in rw (sym e) here
  | inr other ↦ Linked-found accounts key rows p l (ground arith)
]

HasAccount-update :
    (k : ℕ) (f : Account → Account) (accounts : List Account) (o : Option ℕ)
    → KeepsId f
    → HasAccount accounts o
    → HasAccount (update_fields k f accounts) o
HasAccount-update k f accounts none keeps h = tt
HasAccount-update k f accounts (some j) keeps (a, h) = elim (Bool-cases (j == k)) [
  | inl same ↦
      let e : j ≡ k = ground arith in
      (f a, rw e (find-update_self k f accounts a keeps (rw (sym e) h)))
  | inr other ↦ (a, find-update_ne j k f accounts keeps (λ e. absurd (ground arith)) ∙ h)
]

pub Linked-update :
    (k : ℕ) (f : Account → Account) (accounts : List Account) (rows : List InterbankPayment)
    → KeepsId f
    → Linked accounts rows
    → Linked (update_fields k f accounts) rows
Linked-update k f accounts [] keeps l = tt
Linked-update k f accounts (r ∷ rows) keeps (here, l) = (
  HasAccount-update k f accounts r.local_account_id keeps here,
  Linked-update k f accounts rows keeps l,
)

pub Linked-rows :
    (accounts : List Account) (key : ForeignBankId) (f : InterbankPayment → InterbankPayment)
    (rows : List InterbankPayment)
    → KeepsTerms f
    → Linked accounts rows
    → Linked accounts (update_pending key f rows)
unfolding update_pending
Linked-rows accounts key f [] keeps l = tt
Linked-rows accounts key f (r ∷ rows) keeps (here, l) =
    let rest = Linked-rows accounts key f rows keeps l in
    elim (Bool-cases (is_tx key r && is_pending r.status)) [
      | inr other ↦ rw other (here, rest)
      | inl same ↦ rw (same, (keeps r).1) (here, rest)
    ]
