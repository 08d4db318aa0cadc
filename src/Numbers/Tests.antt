-- ===== src/Numbers/Tests.antt =====
-- Known numbers, and the theorems at concrete inputs.
use exbanka_3_backend.Prelude.{◌≡◌, refl, true, false, some, [], ◌∷◌, arith, length, All}
use exbanka_3_backend.Prelude.Text.{Text, codes}
use exbanka_3_backend.Numbers.Digits.{IsDigit, padded}
use exbanka_3_backend.Numbers.CardNumber.{validate_luhn, generate_card_number}
use exbanka_3_backend.Numbers.AccountNumber.{
  generate_account_number, check_digit, account_type_code, digit_sum,
}
use exbanka_3_backend.Numbers.Luhn.{generate_card_number-valid, validate_luhn-substitution}
use exbanka_3_backend.Numbers.Checksum.{
  IsIssued, generate_account_number-IsIssued, generate_account_number-two,
}

known_card : validate_luhn (codes "4532015112830366") ≡ true
unfolding validate_luhn
known_card = refl

wrong_card : validate_luhn (codes "4532015112830367") ≡ false
unfolding validate_luhn
wrong_card = refl

generate_card_number-valid_example :
    (length (generate_card_number (codes "visa") 511283036) ≡ 16)
    × All IsDigit (generate_card_number (codes "visa") 511283036)
    × (validate_luhn (generate_card_number (codes "visa") 511283036) ≡ true)
generate_card_number-valid_example = generate_card_number-valid (codes "visa") 511283036

validate_luhn-substitution_example : validate_luhn (codes "79927398712") ≡ false
unfolding validate_luhn
validate_luhn-substitution_example =
    validate_luhn-substitution (codes "7992739871") [] b'3' b'2' (omega arith) (omega arith)
      (omega arith) refl

abbrev tekuci : Text
tekuci = codes "tekuci"

abbrev licni : Text
licni = codes "licni"

-- The first draw has the check ten, and is drawn again.
first_account :
    generate_account_number tekuci licni [] (0 ∷ 1 ∷ []) ≡ some (codes "333000100000001911")
unfolding generate_account_number check_digit padded account_type_code
first_account = refl

generate_account_number-IsIssued_example : IsIssued (codes "333000100000001911")
generate_account_number-IsIssued_example =
    generate_account_number-IsIssued tekuci licni [] (0 ∷ 1 ∷ []) (codes "333000100000001911")
      first_account

-- The digit sums of the first two prefixes are 13 and 14.
generate_account_number-two_example :
    (number : Text) × (generate_account_number tekuci licni [] (1 ∷ 2 ∷ []) ≡ some number)
unfolding digit_sum padded
generate_account_number-two_example =
    generate_account_number-two tekuci licni [] 1 2 [] (omega arith)
