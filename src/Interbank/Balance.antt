-- ===== src/Interbank/Balance.antt =====
-- The balance check of a transaction (checkBalanced of exchange-service/internal/interbank/
-- tx_processor.go) against the protocol's words: for every asset its postings add up to zero.
use exbanka_3_backend.Prelude.{
  ◌≡◌, refl, sym, ap, ◌∙◌, Bool, true, false, none, List, [], ◌∷◌, arith, if◌then◌else◌, Bool-cases,
  inl, inr, ◌↔◌,
}
use exbanka_3_backend.Prelude.Int.{ℤ, pos, ◌+ℤ◌, int_laws}
use exbanka_3_backend.Prelude.Text.{Text, text_eq, text_eq-eq, text_eq_refl}
use exbanka_3_backend.Interbank.Messages.{Posting, Transaction}
use exbanka_3_backend.Interbank.Acceptance.{
  asset_group_key, add_amount, asset_sums, all_zero, check_balanced,
}

-- What the postings of one asset add up to.
abbrev pub amount_of : Text → Posting → ℤ
amount_of key p = if text_eq (asset_group_key p.asset) key then p.amount else pos 0

pub sum_of : Text → List Posting → ℤ
sum_of key [] = pos 0
sum_of key (p ∷ ps) = amount_of key p +ℤ sum_of key ps

lookup : Text → List (Text × ℤ) → ℤ
lookup key [] = pos 0
lookup key ((k, v) ∷ sums) = let rest = lookup key sums in if text_eq k key then v else rest

lookup-add :
    (key k : Text) (x : ℤ) (sums : List (Text × ℤ))
    → lookup key (add_amount k x sums) ≡ lookup key sums +ℤ (if text_eq k key then x else pos 0)
unfolding lookup add_amount
lookup-add key k x [] = elim (Bool-cases (text_eq k key)) [
  | inl same ↦ rw same (grind int_laws)
  | inr other ↦ rw other (grind int_laws)
]
lookup-add key k x ((k₀, v) ∷ sums) = elim (Bool-cases (text_eq k₀ k)) [
  | inl same ↦
      let e = ap (λ s. text_eq s key) (text_eq-eq k₀ k same) in
      elim (Bool-cases (text_eq k key)) [
        | inl here ↦ rw (same, e, here) refl
        | inr there ↦ rw (same, e, there) (grind int_laws)
      ]
  | inr apart ↦ elim (Bool-cases (text_eq k₀ key)) [
    | inl here ↦ elim (Bool-cases (text_eq k key)) [
      | inl same ↦
          let e : text_eq k₀ k ≡ text_eq k k =
            ap (λ s. text_eq s k) (text_eq-eq k₀ key here ∙ sym (text_eq-eq k key same)) in
          absurd (let f = e ∙ text_eq_refl k in cc)
      | inr other ↦ rw (apart, here, other) (grind int_laws)
    ]
    | inr there ↦ rw (apart, there) (lookup-add key k x sums)
  ]
]

lookup-sums :
    (key : Text) (sums : List (Text × ℤ)) (ps : List Posting)
    → lookup key (asset_sums sums ps) ≡ lookup key sums +ℤ sum_of key ps
unfolding asset_sums sum_of
lookup-sums key sums [] = grind int_laws
lookup-sums key sums (p ∷ ps) =
    let step = lookup-add key (asset_group_key p.asset) p.amount sums in
    let rest = lookup-sums key (add_amount (asset_group_key p.asset) p.amount sums) ps in
    grind (int_laws, step, rest)

has_key : Text → List (Text × ℤ) → Bool
has_key key [] = false
has_key key ((k, v) ∷ sums) = let rest = has_key key sums in if text_eq k key then true else rest

Distinct : List (Text × ℤ) → Type 0
Distinct [] = Unit {0}
Distinct ((k, v) ∷ sums) = (has_key k sums ≡ false) × Distinct sums

lookup-zero : (key : Text) (sums : List (Text × ℤ)) → all_zero sums ≡ true → lookup key sums ≡ pos 0
unfolding all_zero lookup
lookup-zero key [] h = refl
lookup-zero key ((k, v) ∷ sums) h = ground (arith, lookup-zero key sums)

lookup-absent :
    (key : Text) (sums : List (Text × ℤ)) → has_key key sums ≡ false → lookup key sums ≡ pos 0
unfolding lookup has_key
lookup-absent key [] h = refl
lookup-absent key ((k, v) ∷ sums) h = ground (arith, lookup-absent key sums)

has_key-add :
    (key k : Text) (x : ℤ) (sums : List (Text × ℤ))
    → has_key key sums ≡ false
    → text_eq k key ≡ false
    → has_key key (add_amount k x sums) ≡ false
unfolding has_key add_amount
has_key-add key k x [] h apart = rw apart refl
has_key-add key k x ((k₀, v) ∷ sums) h apart = ground (arith, has_key-add key k x sums)

text_neq_sym : (a b : Text) → text_eq a b ≡ false → text_eq b a ≡ false
text_neq_sym a b h = elim (Bool-cases (text_eq b a)) [
  | inr other ↦ other
  | inl same ↦
      absurd (let e = sym (ap (λ c. text_eq c b) (text_eq-eq b a same)) ∙ text_eq_refl b in cc)
]

add-Distinct :
    (k : Text) (x : ℤ) (sums : List (Text × ℤ)) → Distinct sums → Distinct (add_amount k x sums)
unfolding add_amount Distinct has_key
add-Distinct k x [] u = (refl, tt)
add-Distinct k x ((k₀, v) ∷ sums) (new, u) = elim (Bool-cases (text_eq k₀ k)) [
  | inl same ↦ rw same (new, u)
  | inr apart ↦
      rw apart (has_key-add k₀ k x sums new (text_neq_sym k₀ k apart), add-Distinct k x sums u)
]

sums-Distinct :
    (sums : List (Text × ℤ)) (ps : List Posting) → Distinct sums → Distinct (asset_sums sums ps)
unfolding asset_sums
sums-Distinct sums [] u = u
sums-Distinct sums (p ∷ ps) u =
    sums-Distinct (add_amount (asset_group_key p.asset) p.amount sums) ps
      (add-Distinct (asset_group_key p.asset) p.amount sums u)

zeros :
    (sums : List (Text × ℤ))
    → Distinct sums
    → ((key : Text) → lookup key sums ≡ pos 0)
    → all_zero sums ≡ true
unfolding all_zero lookup Distinct
zeros [] u h = refl
zeros ((k, v) ∷ sums) (new, u) h =
    let rest = zeros sums u (λ key. elim (Bool-cases (text_eq k key)) [
      | inl same ↦ ap (λ s. lookup s sums) (sym (text_eq-eq k key same)) ∙ lookup-absent k sums new
      | inr other ↦ (let hk = h key in rw other at hk)
    ]) in
    let own : v ≡ pos 0 = (let hk = h k in rw (text_eq_refl k) at hk) in rw own rest

-- A transaction passes the balance check exactly when, for every asset, the amounts of its postings
-- of that asset add up to zero.
pub check_balanced_iff :
    (tx : Transaction)
    → (check_balanced tx ≡ none) ↔ ((key : Text) → sum_of key tx.postings ≡ pos 0)
unfolding check_balanced lookup Distinct
check_balanced_iff tx =
    let all = asset_sums [] tx.postings in
    (
      (λ h key.
          let z = lookup-zero key all (ground arith) in
          let e = lookup-sums key [] tx.postings in grind (int_laws, z, e)),
      (λ h.
          let z = zeros all (sums-Distinct [] tx.postings tt) (λ key.
            let e = lookup-sums key [] tx.postings in let s = h key in grind (int_laws, e, s)) in
          rw z refl),
    )
