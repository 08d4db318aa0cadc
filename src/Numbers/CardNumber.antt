-- ===== src/Numbers/CardNumber.antt =====
-- Card numbers (account-service/internal/util/card_number.go).
use exbanka_3_backend.Prelude.{
  ℕ, ◌+◌, ◌-◌, ◌*◌, ◌%◌, Bool, false, not, [], ◌∷◌, ◌++◌, length, ltb, ◌==◌, if◌then◌else◌,
}
use exbanka_3_backend.Prelude.Text.{Text, codes, text_eq}
use exbanka_3_backend.Numbers.Digits.{digit_code, is_digit, padded}

-- `cardIIN`, with the default of a missing key.
unfoldable pub card_iin : Text → Text
unfolding text_eq
card_iin kind =
    if text_eq kind (codes "visa")
    then codes "453201"
    else if text_eq kind (codes "mastercard")
    then codes "542523"
    else if text_eq kind (codes "dinacard")
    then codes "989100"
    else if text_eq kind (codes "amex")
    then codes "371449"
    else codes "453201"

-- What one digit adds to the sum: doubled, less nine past nine, where its index has the parity.
unfoldable pub luhn_term : ℕ → ℕ → ℕ → ℕ
luhn_term parity i c =
    let digit = c - b'0' in
    if (i % 2) == parity then (if ltb 9 (digit * 2) then digit * 2 - 9 else digit * 2) else digit

-- The loop of `luhnCheckDigit` from the index `i`, with the sum so far.
unfoldable pub luhn_sum : ℕ → ℕ → Text → ℕ → ℕ
unfolding luhn_term
luhn_sum parity i [] sum = sum
luhn_sum parity i (c ∷ cs) sum = luhn_sum parity (i + 1) cs (sum + luhn_term parity i c)

unfoldable pub luhn_check_digit : Text → ℕ
unfolding luhn_sum
luhn_check_digit partial = (10 - luhn_sum ((length partial + 1) % 2) 0 partial 0 % 10) % 10

-- The loop of `ValidateLuhn`, which stops at a character that is no digit.
unfoldable pub validate_from : ℕ → ℕ → Text → ℕ → Bool
unfolding luhn_term
validate_from parity i [] sum = (sum % 10) == 0
validate_from parity i (c ∷ cs) sum =
    let rest = validate_from parity (i + 1) cs (sum + luhn_term parity i c) in
    if not (is_digit c) then false else rest

unfoldable pub validate_luhn : Text → Bool
unfolding validate_from
validate_luhn number = validate_from (length number % 2) 0 number 0

-- `GenerateCardNumber`; `middle` is the random number below 10^9.
unfoldable pub generate_card_number : Text → ℕ → Text
unfolding card_iin padded luhn_check_digit
generate_card_number kind middle =
    let partial = card_iin kind ++ padded 9 middle in
    partial ++ digit_code (luhn_check_digit partial) ∷ []

-- `GenerateCVV`; `n` is the random number below 1000.
unfoldable pub generate_cvv : ℕ → Text
unfolding padded
generate_cvv n = padded 3 n
