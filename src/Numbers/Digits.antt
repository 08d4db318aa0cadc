-- ===== src/Numbers/Digits.antt =====
-- Decimal digits in texts, as Go's `fmt` prints them.
use exbanka_3_backend.Prelude.{
  ℕ, zero, suc, ◌+◌, ◌/◌, ◌%◌, ◌≤◌, ◌≡◌, refl, Bool, ◌&&◌, [], ◌∷◌, ◌++◌, arith, length,
  length-append, leb, All, All-append,
}
use exbanka_3_backend.Prelude.Text.{Text}

-- `'0'`, and the code of a digit.
abbrev pub digit_code : ℕ → ℕ
digit_code d = b'0' + d

-- `c >= '0' && c <= '9'`.
abbrev pub is_digit : ℕ → Bool
is_digit c = leb b'0' c && leb c b'9'

abbrev pub IsDigit : ℕ → Type 0
IsDigit c = (48 ≤ c) × (c ≤ 57)

-- `fmt.Sprintf("%0wd", n)`, for an `n` of at most `w` digits.
unfoldable pub padded : ℕ → ℕ → Text
padded zero n = []
padded (suc w) n = padded w (n / 10) ++ digit_code (n % 10) ∷ []

pub length-padded : (w n : ℕ) → length (padded w n) ≡ w
unfolding padded
length-padded zero n = refl
length-padded (suc w) n = omega (
  arith,
  length-padded w (n / 10),
  length-append {0} (padded w (n / 10)) (digit_code (n % 10) ∷ []),
)

pub padded-IsDigit : (w n : ℕ) → All IsDigit (padded w n)
unfolding padded
padded-IsDigit zero n = tt
padded-IsDigit (suc w) n =
    All-append IsDigit (padded w (n / 10)) (digit_code (n % 10) ∷ []) (padded-IsDigit w (n / 10))
      ((omega arith, omega arith), tt)
