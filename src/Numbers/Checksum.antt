-- ===== src/Numbers/Checksum.antt =====
-- What the digit-sum check of account-service (internal/util/account_number.go) makes of the numbers
-- that are given out.
use exbanka_3_backend.Prelude.{
  ℕ, ◌+◌, ◌%◌, ◌≤◌, ◌<◌, ◌≡◌, ◌≢◌, refl, ap, ◌∙◌, inl, inr, true, some, List, [], ◌∷◌, ◌++◌, arith,
  length, length-append, take, All, All-append, ◌==◌, ==_iff, Bool-cases,
}
use mathlib.Core.Path.{subst}
use exbanka_3_backend.Prelude.Text.{Text, codes, text_eq}
use exbanka_3_backend.Numbers.Digits.{digit_code, IsDigit, padded, length-padded, padded-IsDigit}
use exbanka_3_backend.Numbers.AccountNumber.{
  account_type_code, digit_sum, digit_sum_from, digit_value, prefix_of, check_digit,
  generate_account_number, all_digits, validate_account_number,
}

all_digits-true : (cs : Text) → All IsDigit cs → all_digits cs ≡ true
unfolding all_digits
all_digits-true [] h = refl
all_digits-true (c ∷ cs) (d, ds) = ground (arith, all_digits-true cs ds)

digit_sum_from-append :
    (xs ys : Text) (sum : ℕ)
    → digit_sum_from sum (xs ++ ys) ≡ digit_sum_from (digit_sum_from sum xs) ys
unfolding digit_sum_from
digit_sum_from-append [] ys sum = refl
digit_sum_from-append (x ∷ xs) ys sum = digit_sum_from-append xs ys (sum + digit_value x)

digit_sum_from-start : (xs : Text) (sum : ℕ) → digit_sum_from sum xs ≡ sum + digit_sum_from 0 xs
unfolding digit_sum_from
digit_sum_from-start [] sum = omega arith
digit_sum_from-start (x ∷ xs) sum = omega (
  arith,
  digit_sum_from-start xs (sum + digit_value x),
  digit_sum_from-start xs (0 + digit_value x),
)

digit_sum-append : (xs ys : Text) → digit_sum (xs ++ ys) ≡ digit_sum xs + digit_sum ys
unfolding digit_sum
digit_sum-append xs ys =
    digit_sum_from-append xs ys 0 ∙ digit_sum_from-start ys (digit_sum_from 0 xs)

digit_sum-one : (d : ℕ) (ys : Text) → d ≤ 9 → digit_sum (digit_code d ∷ ys) ≡ d + digit_sum ys
unfolding digit_sum digit_sum_from
digit_sum-one d ys h = digit_sum_from-start ys (0 + digit_value (48 + d)) ∙ ground arith

check_digit-sum :
    (prefix suffix : Text)
    → ((digit_sum prefix + check_digit prefix suffix + digit_sum suffix) % 11) ≡ 0
unfolding check_digit
check_digit-sum prefix suffix = omega arith

check_digit-lt : (prefix suffix : Text) → check_digit prefix suffix < 11
unfolding check_digit
check_digit-lt prefix suffix = omega arith

type_code-digits : (tip vrsta podvrsta : Text) → All IsDigit (account_type_code tip vrsta podvrsta)
unfolding account_type_code
type_code-digits tip vrsta podvrsta = ground arith

length-type_code : (tip vrsta podvrsta : Text) → length (account_type_code tip vrsta podvrsta) ≡ 2
unfolding account_type_code
length-type_code tip vrsta podvrsta = ground arith

-- The check of ten, which is drawn again, belongs to one residue of the digits alone.
same_residue :
    (a b suffix : Text)
    → check_digit a suffix ≡ 10
    → check_digit b suffix ≡ 10
    → (digit_sum a % 11) ≡ (digit_sum b % 11)
unfolding check_digit
same_residue a b suffix h k = omega arith

-- What a number that is given out looks like to `ValidateAccountNumber`.
abbrev pub IsIssued : Text → Type 0
IsIssued number =
    (length number ≡ 18)
    × (take 3 number ≡ codes "333")
    × All IsDigit number
    × (validate_account_number number ≡ true)

validate_number :
    (number : Text)
    → length number ≡ 18
    → all_digits number ≡ true
    → take 3 number ≡ codes "333"
    → (digit_sum number % 11) ≡ 0
    → validate_account_number number ≡ true
unfolding validate_account_number text_eq
validate_number number a b c d = rw (a, b, c, d) refl

IsIssued-number :
    (draw : ℕ) (suffix : Text)
    → All IsDigit suffix
    → length suffix ≡ 2
    → check_digit (prefix_of draw) suffix ≢ 10
    → IsIssued (prefix_of draw ++ digit_code (check_digit (prefix_of draw) suffix) ∷ suffix)
IsIssued-number draw suffix ds len ne =
    let check = check_digit (prefix_of draw) suffix in
    let small : check ≤ 9 = omega (arith, check_digit-lt (prefix_of draw) suffix) in
    let number = prefix_of draw ++ digit_code check ∷ suffix in
    let eighteen : length number ≡ 18 = omega (
      arith,
      length-append {0} (padded 8 draw) (digit_code check ∷ suffix),
      length-padded 8 draw,
      len,
    ) in
    let digits : All IsDigit number =
      All-append IsDigit (prefix_of draw) (digit_code check ∷ suffix)
        (All-append IsDigit (codes "3330001") (padded 8 draw) (omega arith) (padded-IsDigit 8 draw))
        ((omega arith, omega arith), ds) in
    let sum : (digit_sum number % 11) ≡ 0 =
      ap (λ k. k % 11)
        (digit_sum-append (prefix_of draw) (digit_code check ∷ suffix)
          ∙ ap (λ k. digit_sum (prefix_of draw) + k) (digit_sum-one check suffix small)
          ∙ omega arith)
      ∙ check_digit-sum (prefix_of draw) suffix in
    (
      eighteen,
      refl,
      digits,
      validate_number number eighteen (all_digits-true number digits) refl sum,
    )

-- Every account number that is given out has 18 characters, all digits, begins with the bank's code,
-- and is accepted by the validation, whatever the kind of the account and the random draws.
pub generate_account_number-IsIssued :
    (tip vrsta podvrsta : Text) (draws : List ℕ) (number : Text)
    → generate_account_number tip vrsta podvrsta draws ≡ some number
    → IsIssued number
unfolding generate_account_number
generate_account_number-IsIssued tip vrsta podvrsta [] number h = cc
generate_account_number-IsIssued tip vrsta podvrsta (draw ∷ draws) number h =
    let suffix = account_type_code tip vrsta podvrsta in
    elim (Bool-cases (check_digit (prefix_of draw) suffix == 10)) [
      | inl again ↦ generate_account_number-IsIssued tip vrsta podvrsta draws number (ground arith)
      | inr keep ↦
          let this = prefix_of draw ++ digit_code (check_digit (prefix_of draw) suffix) ∷ suffix in
          let same : this ≡ number = ground arith in
          subst IsIssued same (
            IsIssued-number draw suffix (type_code-digits tip vrsta podvrsta)
              (length-type_code tip vrsta podvrsta) (ground arith))
    ]

-- The generation ends: of any two draws whose digit sums leave different remainders by 11, at least
-- one gives a number, whatever else is drawn.
pub generate_account_number-two :
    (tip vrsta podvrsta : Text) (d e : ℕ) (draws : List ℕ)
    → (digit_sum (prefix_of d) % 11) ≢ (digit_sum (prefix_of e) % 11)
    → (number : Text) × (generate_account_number tip vrsta podvrsta (d ∷ e ∷ draws) ≡ some number)
unfolding generate_account_number
generate_account_number-two tip vrsta podvrsta d e draws apart =
    let suffix = account_type_code tip vrsta podvrsta in
    elim (Bool-cases (check_digit (prefix_of d) suffix == 10)) [
      | inr keep ↦
          (prefix_of d ++ digit_code (check_digit (prefix_of d) suffix) ∷ suffix, rw keep refl)
      | inl again ↦ elim (Bool-cases (check_digit (prefix_of e) suffix == 10)) [
        | inr keep ↦ (
          prefix_of e ++ digit_code (check_digit (prefix_of e) suffix) ∷ suffix,
          rw (again, keep) refl,
        )
        | inl twice ↦ absurd (
            apart (
              same_residue (prefix_of d) (prefix_of e) suffix ((==_iff _ 10).0 again)
                ((==_iff _ 10).0 twice)))
      ]
    ]
