-- ===== src/Numbers/AccountNumber.antt =====
-- Account numbers (account-service/internal/util/account_number.go).
use exbanka_3_backend.Prelude.{
  ℕ, ◌+◌, ◌-◌, ◌%◌, Bool, true, false, not, ◌||◌, Option, none, some, List, [], ◌∷◌, ◌++◌, length,
  take, ◌==◌, if◌then◌else◌,
}
use exbanka_3_backend.Prelude.Text.{Text, codes, text_eq}
use exbanka_3_backend.Numbers.Digits.{digit_code, is_digit, padded}

abbrev pub bank_code : Text
bank_code = codes "333"

abbrev pub branch_code : Text
branch_code = codes "0001"

unfoldable pub account_type_code : Text → Text → Text → Text
unfolding text_eq
account_type_code tip vrsta podvrsta =
    if text_eq tip (codes "devizni")
    then (if text_eq vrsta (codes "poslovni") then codes "22" else codes "21")
    else if text_eq vrsta (codes "poslovni")
    then codes "12"
    else if text_eq podvrsta (codes "stedni")
    then codes "13"
    else if text_eq podvrsta (codes "penzionerski")
    then codes "14"
    else if text_eq podvrsta (codes "za_mlade")
    then codes "15"
    else if text_eq podvrsta (codes "za_studente")
    then codes "16"
    else if text_eq podvrsta (codes "za_nezaposlene")
    then codes "17"
    else codes "11"

abbrev pub digit_value : ℕ → ℕ
digit_value c = if is_digit c then c - b'0' else 0

-- The loop of `digitSum`, with the sum so far.
unfoldable pub digit_sum_from : ℕ → Text → ℕ
digit_sum_from sum [] = sum
digit_sum_from sum (c ∷ cs) = digit_sum_from (sum + digit_value c) cs

unfoldable pub digit_sum : Text → ℕ
unfolding digit_sum_from
digit_sum number = digit_sum_from 0 number

abbrev pub prefix_of : ℕ → Text
prefix_of draw = bank_code ++ branch_code ++ padded 8 draw

unfoldable pub check_digit : Text → Text → ℕ
unfolding digit_sum
check_digit prefix suffix = (11 - (digit_sum prefix + digit_sum suffix) % 11) % 11

-- `GenerateAccountNumber`: `draws` are the random numbers below 10^8 of its rounds; `none` means
-- that they are used up.
unfoldable pub generate_account_number : Text → Text → Text → List ℕ → Option Text
generate_account_number tip vrsta podvrsta [] = none
generate_account_number tip vrsta podvrsta (draw ∷ draws) =
    let suffix = account_type_code tip vrsta podvrsta in
    let check = check_digit (prefix_of draw) suffix in
    let again = generate_account_number tip vrsta podvrsta draws in
    if check == 10 then again else some (prefix_of draw ++ digit_code check ∷ suffix)

unfoldable pub all_digits : Text → Bool
all_digits [] = true
all_digits (c ∷ cs) = let rest = all_digits cs in if not (is_digit c) then false else rest

abbrev pub valid_bank : Text → Bool
valid_bank b =
    text_eq b (codes "111")
    || text_eq b (codes "222")
    || text_eq b (codes "333")
    || text_eq b (codes "444")

unfoldable pub validate_account_number : Text → Bool
validate_account_number number =
    if not (length number == 18)
    then false
    else if not (all_digits number)
    then false
    else if not (valid_bank (take 3 number))
    then false
    else (digit_sum number % 11) == 0
