-- ===== src/Numbers/Luhn.antt =====
-- What the Luhn check of account-service (internal/util/card_number.go) accepts and detects.
use exbanka_3_backend.Prelude.{
  ℕ, ◌+◌, ◌%◌, ◌≤◌, ◌≡◌, ◌≢◌, refl, sym, ap, ◌∙◌, true, false, [], ◌∷◌, ◌++◌, arith, length,
  length-append, All, All-append, ◌==◌, ==_iff,
}
use exbanka_3_backend.Prelude.Text.{Text}
use exbanka_3_backend.Numbers.Digits.{digit_code, IsDigit, padded, length-padded, padded-IsDigit}
use exbanka_3_backend.Numbers.CardNumber.{
  card_iin, luhn_term, luhn_sum, luhn_check_digit, validate_from, validate_luhn,
  generate_card_number,
}

-- On digits the validation is the sum of the check digit's loop.
validate_from-sum :
    (parity i : ℕ) (cs : Text) (sum : ℕ)
    → All IsDigit cs
    → validate_from parity i cs sum ≡ ((luhn_sum parity i cs sum % 10) == 0)
unfolding validate_from luhn_sum
validate_from-sum parity i [] sum h = refl
validate_from-sum parity i (c ∷ cs) sum (d, ds) =
    ground (arith, validate_from-sum parity (i + 1) cs (sum + luhn_term parity i c) ds)

luhn_sum-append :
    (parity i : ℕ) (xs ys : Text) (sum : ℕ)
    → luhn_sum parity i (xs ++ ys) sum
      ≡ luhn_sum parity (i + length xs) ys (luhn_sum parity i xs sum)
unfolding luhn_sum
luhn_sum-append parity i [] ys sum = ap (λ k. luhn_sum parity k ys sum) (omega arith)
luhn_sum-append parity i (x ∷ xs) ys sum =
    luhn_sum-append parity (i + 1) xs ys (sum + luhn_term parity i x)
    ∙ ap (λ k. luhn_sum parity k ys (luhn_sum parity (i + 1) xs (sum + luhn_term parity i x)))
        (omega arith)

luhn_sum-start :
    (parity i : ℕ) (xs : Text) (sum : ℕ) → luhn_sum parity i xs sum ≡ sum + luhn_sum parity i xs 0
unfolding luhn_sum
luhn_sum-start parity i [] sum = omega arith
luhn_sum-start parity i (x ∷ xs) sum = omega (
  arith,
  luhn_sum-start parity (i + 1) xs (sum + luhn_term parity i x),
  luhn_sum-start parity (i + 1) xs (0 + luhn_term parity i x),
)

-- The last index never has the parity of the length, so the check digit counts once.
last_term : (n d : ℕ) → d ≤ 9 → luhn_term ((n + 1) % 2) n (digit_code d) ≡ d
unfolding luhn_term
last_term n d h = ground arith

luhn_check_digit-le : (partial : Text) → luhn_check_digit partial ≤ 9
unfolding luhn_check_digit
luhn_check_digit-le partial = omega arith

luhn_check_digit-sum :
    (partial : Text)
    → ((luhn_sum ((length partial + 1) % 2) 0 partial 0 + luhn_check_digit partial) % 10) ≡ 0
unfolding luhn_check_digit
luhn_check_digit-sum partial = omega arith

luhn_sum-one : (parity i c sum : ℕ) → luhn_sum parity i (c ∷ []) sum ≡ sum + luhn_term parity i c
unfolding luhn_sum
luhn_sum-one parity i c sum = refl

luhn_sum-cons :
    (parity i c : ℕ) (cs : Text) (sum : ℕ)
    → luhn_sum parity i (c ∷ cs) sum ≡ luhn_sum parity (i + 1) cs (sum + luhn_term parity i c)
unfolding luhn_sum
luhn_sum-cons parity i c cs sum = refl

-- Any digits followed by their check digit pass the validation.
validate_luhn-check :
    (partial : Text)
    → All IsDigit partial
    → validate_luhn (partial ++ digit_code (luhn_check_digit partial) ∷ []) ≡ true
unfolding validate_luhn
validate_luhn-check partial ds =
    let check = luhn_check_digit partial in
    let full = partial ++ digit_code check ∷ [] in
    let len : length full ≡ length partial + 1 =
      omega (arith, length-append {0} partial (digit_code check ∷ [])) in
    let p = (length partial + 1) % 2 in
    let s = luhn_sum p 0 partial 0 in
    let sum : luhn_sum p 0 full 0 ≡ s + check =
      luhn_sum-append p 0 partial (digit_code check ∷ []) 0
      ∙ luhn_sum-one p (0 + length partial) (digit_code check) s
      ∙ ap (λ k. s + luhn_term p k (digit_code check)) (omega arith)
      ∙ ap (λ k. s + k) (last_term (length partial) check (luhn_check_digit-le partial)) in
    let digits : All IsDigit full =
      All-append IsDigit partial (digit_code check ∷ []) ds
        ((omega arith, omega (arith, luhn_check_digit-le partial)), tt) in
    rw len (
      validate_from-sum p 0 full 0 digits
      ∙ ap (λ k. (k % 10) == 0) sum
      ∙ ap (λ k. k == 0) (luhn_check_digit-sum partial))

card_iin-IsDigit : (kind : Text) → All IsDigit (card_iin kind)
unfolding card_iin
card_iin-IsDigit kind = ground arith

length-card_iin : (kind : Text) → length (card_iin kind) ≡ 6
unfolding card_iin
length-card_iin kind = ground arith

-- Every card number that is given out has 16 characters, all digits, and passes the Luhn check,
-- whatever the kind of the card and the random digits.
pub generate_card_number-valid :
    (kind : Text) (middle : ℕ)
    → (length (generate_card_number kind middle) ≡ 16)
      × All IsDigit (generate_card_number kind middle)
      × (validate_luhn (generate_card_number kind middle) ≡ true)
unfolding generate_card_number
generate_card_number-valid kind middle =
    let partial = card_iin kind ++ padded 9 middle in
    let check = luhn_check_digit partial in
    let ds =
      All-append IsDigit (card_iin kind) (padded 9 middle) (card_iin-IsDigit kind)
        (padded-IsDigit 9 middle) in
    (
      omega (
        arith,
        length-append {0} partial (digit_code check ∷ []),
        length-append {0} (card_iin kind) (padded 9 middle),
        length-card_iin kind,
        length-padded 9 middle,
      ),
      All-append IsDigit partial (digit_code check ∷ []) ds
          ((omega arith, omega (arith, luhn_check_digit-le partial)), tt),
      validate_luhn-check partial ds,
    )

luhn_term-le : (parity i c : ℕ) → IsDigit c → luhn_term parity i c ≤ 9
unfolding luhn_term
luhn_term-le parity i c d = ground arith

luhn_term-injective :
    (parity i c d : ℕ) → IsDigit c → IsDigit d → luhn_term parity i c ≡ luhn_term parity i d → c ≡ d
unfolding luhn_term
luhn_term-injective parity i c d hc hd h = ground arith

-- Two texts that differ at one place differ in the sum by that place alone.
luhn_sum-around :
    (p c : ℕ) (xs ys : Text)
    → luhn_sum p 0 (xs ++ c ∷ ys) 0
      ≡ luhn_sum p 0 xs 0 + luhn_term p (0 + length xs) c + luhn_sum p (0 + length xs + 1) ys 0
luhn_sum-around p c xs ys =
    luhn_sum-append p 0 xs (c ∷ ys) 0
    ∙ luhn_sum-cons p (0 + length xs) c ys (luhn_sum p 0 xs 0)
    ∙ luhn_sum-start p (0 + length xs + 1) ys (luhn_sum p 0 xs 0 + luhn_term p (0 + length xs) c)

All-middle : (xs ys : Text) (c : ℕ) → All IsDigit (xs ++ c ∷ ys) → IsDigit c
All-middle [] ys c h = h.0
All-middle (x ∷ xs) ys c h = All-middle xs ys c h.1

other_residue :
    (a r t u : ℕ)
    → t ≤ 9
    → u ≤ 9
    → t ≢ u
    → ((a + t + r) % 10) ≡ 0
    → (((a + u + r) % 10) == 0) ≡ false
other_residue a r t u ht hu ne h = ground arith

validate_luhn-sum :
    (number : Text)
    → All IsDigit number
    → validate_luhn number ≡ ((luhn_sum (length number % 2) 0 number 0 % 10) == 0)
unfolding validate_luhn
validate_luhn-sum number ds = validate_from-sum (length number % 2) 0 number 0 ds

-- The check detects every wrong digit: a number of digits that passes it no longer passes
-- once a single digit is replaced by another one, wherever it stands.
pub validate_luhn-substitution :
    (xs ys : Text) (c d : ℕ)
    → All IsDigit (xs ++ c ∷ ys)
    → All IsDigit (xs ++ d ∷ ys)
    → c ≢ d
    → validate_luhn (xs ++ c ∷ ys) ≡ true
    → validate_luhn (xs ++ d ∷ ys) ≡ false
validate_luhn-substitution xs ys c d hc hd ne passes =
    let dc = All-middle xs ys c hc in
    let dd = All-middle xs ys d hd in
    let p = length (xs ++ c ∷ ys) % 2 in
    let i = 0 + length xs in
    let len : length (xs ++ d ∷ ys) ≡ length (xs ++ c ∷ ys) =
      omega (arith, length-append {0} xs (c ∷ ys), length-append {0} xs (d ∷ ys)) in
    let zero_sum : (luhn_sum p 0 (xs ++ c ∷ ys) 0 % 10) ≡ 0 =
      (==_iff _ 0).0 (sym (validate_luhn-sum (xs ++ c ∷ ys) hc) ∙ passes) in
    validate_luhn-sum (xs ++ d ∷ ys) hd
    ∙ ap (λ k. (luhn_sum (k % 2) 0 (xs ++ d ∷ ys) 0 % 10) == 0) len
    ∙ ap (λ k. (k % 10) == 0) (luhn_sum-around p d xs ys)
    ∙ other_residue (luhn_sum p 0 xs 0) (luhn_sum p (i + 1) ys 0) (luhn_term p i c)
        (luhn_term p i d) (luhn_term-le p i c dc) (luhn_term-le p i d dd)
        (λ same. ne (luhn_term-injective p i c d dc dd same))
        (ap (λ k. k % 10) (sym (luhn_sum-around p c xs ys)) ∙ zero_sum)
