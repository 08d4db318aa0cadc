-- ===== src/InterbankPayment/Views.antt =====
-- The state of a transaction, read off the payment rows, under the updates of
-- exchange-service/internal/repository/interbank_payment_repository.go.
use exbanka_3_backend.Prelude.{
  ◌≡◌, refl, sym, ap, ◌∙◌, true, false, Option, none, some, List, [], ◌∷◌, arith, if◌then◌else◌,
  Bool-cases, inl, inr,
}
use exbanka_3_backend.Prelude.Text.{text_eq-eq}
use exbanka_3_backend.Interbank.Messages.{ForeignBankId, same_foreign_bank_id}
use exbanka_3_backend.InterbankPayment.Models.{
  PaymentDirection, inbound, PaymentStatus, pending, committed, rolled_back, rejected, failed,
  unknown_status, InterbankPayment, is_pending, key_of, is_tx, get_by_tx_id, update_pending,
  stamped,
}
use exbanka_3_backend.InterbankPayment.Books.{KeepsTerms, is_tx-keeps, is_tx-key}
use exbanka_3_backend.InterbankPayment.Operations.{is_pending-eq}
use exbanka_3_backend.InterbankPayment.Protocol.{State, begins, resolves, resolves_inbound}

abbrev pub state_of : Option InterbankPayment → State
state_of none = none
state_of (some r) = some (r.direction, r.status)

abbrev pub view : ForeignBankId → List InterbankPayment → State
view key rows = state_of (get_by_tx_id key rows)

-- An update that sets the status.
abbrev pub SetsStatus : PaymentStatus → (InterbankPayment → InterbankPayment) → Type 0
SetsStatus new f = (r : InterbankPayment) → (f r).status ≡ new

abbrev pending_or_same :
    (InterbankPayment → InterbankPayment) → Option InterbankPayment → Option InterbankPayment
pending_or_same f none = none
pending_or_same f (some r) = some (if is_pending r.status then f r else r)

get-update :
    (key : ForeignBankId) (f : InterbankPayment → InterbankPayment) (rows : List InterbankPayment)
    → KeepsTerms f
    → get_by_tx_id key (update_pending key f rows) ≡ pending_or_same f (get_by_tx_id key rows)
unfolding get_by_tx_id update_pending
get-update key f [] keeps = refl
get-update key f (r ∷ rows) keeps =
    ground (arith, is_tx-keeps f keeps key r, get-update key f rows keeps)

is_tx-same :
    (key k : ForeignBankId) (r : InterbankPayment)
    → key_of r ≡ k
    → is_tx key r ≡ same_foreign_bank_id k key
unfolding is_tx
is_tx-same key k r e = ap (λ j. same_foreign_bank_id j key) e

get-update_ne :
    (k key : ForeignBankId) (f : InterbankPayment → InterbankPayment) (rows : List InterbankPayment)
    → KeepsTerms f
    → same_foreign_bank_id k key ≡ false
    → get_by_tx_id key (update_pending k f rows) ≡ get_by_tx_id key rows
unfolding get_by_tx_id update_pending
get-update_ne k key f [] keeps h = refl
get-update_ne k key f (r ∷ rows) keeps h =
    let rest = get-update_ne k key f rows keeps h in
    elim (Bool-cases (is_tx k r)) [
      | inr other ↦ rw (other, rest) refl
      | inl same ↦
          let far = is_tx-same key k r (is_tx-key k r same) ∙ h in
          ground (arith, is_tx-keeps f keeps key r)
    ]

over :
    (new : PaymentStatus) (d : PaymentDirection) (s : PaymentStatus)
    → is_pending s ≡ false
    → resolves new (some (d, s)) ≡ some (d, s)
over new d pending h = cc
over new d committed h = refl
over new d rolled_back h = refl
over new d rejected h = refl
over new d failed h = refl
over new d (unknown_status s) h = refl

pub same_id : (k key : ForeignBankId) → same_foreign_bank_id k key ≡ true → k ≡ key
same_id k key h = ground (arith, text_eq-eq k.id key.id)

resolved :
    (new : PaymentStatus) (f : InterbankPayment → InterbankPayment) (o : Option InterbankPayment)
    → KeepsTerms f
    → SetsStatus new f
    → state_of (pending_or_same f o) ≡ resolves new (state_of o)
resolved new f none keeps sets = refl
resolved new f (some r) keeps sets = elim (Bool-cases (is_pending r.status)) [
  | inr done ↦ rw done (sym (over new r.direction r.status done))
  | inl pend ↦ rw pend (
      ap (λ d. some (d, (f r).status)) (keeps r).2
      ∙ ap (λ s. some (r.direction, s)) (sets r)
      ∙ sym (ap (λ s. resolves new (some (r.direction, s))) (is_pending-eq r.status pend)))
]

pub view-update :
    (k key : ForeignBankId) (new : PaymentStatus) (f : InterbankPayment → InterbankPayment)
    (rows : List InterbankPayment)
    → KeepsTerms f
    → SetsStatus new f
    → view key (update_pending k f rows)
      ≡ (if same_foreign_bank_id k key then resolves new (view key rows) else view key rows)
view-update k key new f rows keeps sets = elim (Bool-cases (same_foreign_bank_id k key)) [
  | inr other ↦ rw other (ap state_of (get-update_ne k key f rows keeps other))
  | inl same ↦
      rw (same, same_id k key same)
        (ap state_of (get-update key f rows keeps)
          ∙ resolved new f (get_by_tx_id key rows) keeps sets)
]

pub view-cons :
    (key : ForeignBankId) (row : InterbankPayment) (rows : List InterbankPayment)
    → get_by_tx_id (key_of row) rows ≡ none
    → row.status ≡ pending
    → view key (row ∷ rows) ≡ (
        if same_foreign_bank_id (key_of row) key
        then begins row.direction (view key rows)
        else view key rows)
unfolding get_by_tx_id
view-cons key row rows fresh pend = elim (Bool-cases (same_foreign_bank_id (key_of row) key)) [
  | inr other ↦ rw (is_tx-same key (key_of row) row refl, other) refl
  | inl same ↦
      let none_before =
        ap (λ k. get_by_tx_id k rows) (sym (same_id (key_of row) key same)) ∙ fresh in
      rw (is_tx-same key (key_of row) row refl, same, none_before)
        (ap (λ s. some (row.direction, s)) pend)
]

either_way :
    (new s : PaymentStatus)
    → resolves new (some (inbound, s)) ≡ resolves_inbound new (some (inbound, s))
either_way new pending = refl
either_way new committed = refl
either_way new rolled_back = refl
either_way new rejected = refl
either_way new failed = refl
either_way new (unknown_status s) = refl

-- What a partner resolves is inbound.
pub resolves-inbound :
    (new : PaymentStatus) (key : ForeignBankId) (rows : List InterbankPayment)
    (p : InterbankPayment)
    → get_by_tx_id key rows ≡ some p
    → p.direction ≡ inbound
    → resolves new (view key rows) ≡ resolves_inbound new (view key rows)
resolves-inbound new key rows p found inward =
    let e = ap state_of found ∙ ap (λ d. some (d, p.status)) inward in
    ap (resolves new) e ∙ either_way new p.status ∙ sym (ap (resolves_inbound new) e)

pub view-stamped :
    (k key : ForeignBankId) (rows : List InterbankPayment)
    → view key (stamped k rows) ≡ view key rows
unfolding get_by_tx_id stamped is_tx
view-stamped k key [] = refl
view-stamped k key (r ∷ rows) = ground (arith, view-stamped k key rows)
