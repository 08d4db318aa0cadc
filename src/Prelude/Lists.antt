-- ===== src/Prelude/Lists.antt =====
-- Lists measured and indexed by native numbers, and predicates on all their elements.
use Prim.Native.Nat.{ℕ, zero, suc, ◌+◌}
use mathlib.Core.Path.{◌≡◌}
use mathlib.Core.List.{List, [], ◌∷◌, ◌++◌}
use mathlib.Core.Option.{Option, none, some}
use native.Mathlib.Omega.{arith}

module _ {ℓ} {A : Type ℓ} where
  abbrev pub length : List A → ℕ
  length [] = 0
  length (x ∷ xs) = suc (length xs)

  abbrev pub get_elem? : List A → ℕ → Option A
  get_elem? [] i = none
  get_elem? (x ∷ xs) zero = some x
  get_elem? (x ∷ xs) (suc i) = get_elem? xs i

  abbrev pub take : ℕ → List A → List A
  take zero xs = []
  take (suc n) [] = []
  take (suc n) (x ∷ xs) = x ∷ take n xs

  pub length-append : (xs ys : List A) → length (xs ++ ys) ≡ length xs + length ys
  length-append [] ys = omega arith
  length-append (x ∷ xs) ys = omega (arith, length-append xs ys)

-- Nested pairs, one for each element.
abbrev pub All {ℓ ℓ'} : {A : Type ℓ} (Fits : A → Type ℓ') → List A → Type ℓ'
All Fits (first ∷ rest) = Fits first × All Fits rest
All Fits [] = Unit

pub All-append {ℓ ℓ'} :
    {A : Type ℓ} (Fits : A → Type ℓ') (front back : List A)
    → All Fits front
    → All Fits back
    → All Fits (front ++ back)
All-append Fits (first ∷ rest) back (fits, more) last = (fits, All-append Fits rest back more last)
All-append Fits [] back more last = last
