-- ===== src/Prelude/Except.antt =====
-- Fallible code: a value or the error that is returned, with `do`.
use mathlib.Core.Bool.{Bool, true, false}
use mathlib.Core.Option.{Option, none, some}
use mathlib.Core.Path.{◌≡◌, refl}
use mathlib.Core.Logic.{◌⊎◌, inl, inr}

pub data Except (E A : Type 0) : Type 0 where
  ok : A → Except E A
  err : E → Except E A

-- The rest runs on the value; an error skips it.
infixl 5 ◌>>=◌ ◌>>◌
abbrev pub ◌>>=◌ : {E A B : Type 0} (first : Except E A) (rest : A → Except E B) → Except E B
err why >>= rest = err why
ok value >>= rest = rest value

abbrev pub ◌>>◌ : {E B : Type 0} (check : Except E (Unit {0})) (rest : Except E B) → Except E B
check >> rest = check >>= λ done. rest

-- `if c { return e }`.
abbrev pub fail_if : {E : Type 0} → Bool → E → Except E (Unit {0})
fail_if true e = err e
fail_if false e = ok tt

abbrev pub or_fail : {E A : Type 0} → Option A → E → Except E A
or_fail none e = err e
or_fail (some a) e = ok a

-- A read whose statement may fail, or find no row: both are errors of the database.
abbrev pub read : {E A : Type 0} → Bool → Option A → E → Except E A
read true row e = err e
read false row e = or_fail row e

-- What a success says of the steps before it.
pub >>=-eq-ok :
    {E A B : Type 0} (first : Except E A) (rest : A → Except E B) {last : B}
    → (first >>= rest) ≡ ok last
    → (value : A) × (first ≡ ok value) × (rest value ≡ ok last)
>>=-eq-ok (err why) rest same = cc
>>=-eq-ok (ok value) rest same = (value, refl, same)

pub fail_if-eq-ok :
    {E B : Type 0} (c : Bool) (e : E) (k : Except E B) {b : B}
    → (fail_if c e >> k) ≡ ok b
    → (c ≡ false) × (k ≡ ok b)
fail_if-eq-ok true e k h = cc
fail_if-eq-ok false e k h = (refl, h)

pub read-eq-ok :
    {E A : Type 0} (fails : Bool) (row : Option A) (e : E) {a : A}
    → read fails row e ≡ ok a
    → (fails ≡ false) × (row ≡ some a)
read-eq-ok true row e h = cc
read-eq-ok false none e h = cc
read-eq-ok false (some x) e h = (refl, cc)

pub Except-cases :
    {E A : Type 0} (r : Except E A) → ((a : A) × (r ≡ ok a)) ⊎ ((e : E) × (r ≡ err e))
Except-cases (ok a) = inl (a, refl)
Except-cases (err e) = inr (e, refl)
