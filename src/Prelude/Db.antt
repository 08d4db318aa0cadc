-- ===== src/Prelude/Db.antt =====
-- What the services assume of the database handle `*gorm.DB`, which they do not implement.
use mathlib.Core.Path.{◌≡◌, refl}
use mathlib.Core.Logic.{◌⊎◌, inl, inr}
use mathlib.Core.Option.{Option, none, some}
use exbanka_3_backend.Prelude.Tests.{Option-cases}

-- `db.Transaction(body)`: `S` is what the tables hold, `E` the errors. The body reports its error
-- and leaves the tables that it wrote. On an error nothing that it wrote is kept and that error is
-- returned; without one the tables are committed, or the commit itself fails and nothing is kept.
pub record Transactions (S E : Type 0) : Type 0 where
  pub transaction : (S → Option E × S) → S → Option E × S
  pub commit_error : E
  pub rolls_back :
      (body : S → Option E × S) (s : S) (e : E)
      → (body s).0 ≡ some e
      → transaction body s ≡ (some e, s)
  pub commits :
      (body : S → Option E × S) (s : S)
      → (body s).0 ≡ none
      → (transaction body s ≡ (none, (body s).1)) ⊎ (transaction body s ≡ (some commit_error, s))

-- Every commit goes through.
abbrev pub AlwaysCommits : {S E : Type 0} → Transactions S E → Type 0
AlwaysCommits {S} {E} db =
    (body : S → Option E × S) (s : S)
    → (body s).0 ≡ none
    → db.transaction body s ≡ (none, (body s).1)

-- A transaction commits all that its body wrote, or fails and writes nothing.
pub transaction-cases :
    {S E : Type 0} (db : Transactions S E) (body : S → Option E × S) (s : S)
    → (((body s).0 ≡ none) × (db.transaction body s ≡ (none, (body s).1)))
      ⊎ ((e : E) × (db.transaction body s ≡ (some e, s)))
transaction-cases db body s = elim (Option-cases (body s).0) [
  | inr (e, k) ↦ inr (e, db.rolls_back body s e k)
  | inl k ↦ elim (db.commits body s k) [
    | inl done ↦ inl (k, done)
    | inr lost ↦ inr (db.commit_error, lost)
  ]
]

-- A database on which every commit goes through: what is assumed can hold.
module _ {S E : Type 0} where
  abbrev pub commit_or_restore : Option E × S → S → Option E × S
  commit_or_restore (none, s') s = (none, s')
  commit_or_restore (some e, s') s = (some e, s)

  pub restores :
      (r : Option E × S) (s : S) (e : E) → r.0 ≡ some e → commit_or_restore r s ≡ (some e, s)
  restores (none, s') s e h = cc
  restores (some e', s') s e h = cc

  pub keeps : (r : Option E × S) (s : S) → r.0 ≡ none → commit_or_restore r s ≡ (none, r.1)
  keeps (none, s') s h = refl
  keeps (some e', s') s h = cc

abbrev pub reliable : {S E : Type 0} → E → Transactions S E
reliable e = record {
  transaction = λ body s. commit_or_restore (body s) s;
  commit_error = e;
  rolls_back = λ body s x h. restores (body s) s x h;
  commits = λ body s h. inl (keeps (body s) s h);
}

-- The statements of a body in order: the first error ends it.
infixl 5 ◌>>>◌
abbrev pub next : {S E : Type 0} → Option E × S → (S → Option E × S) → Option E × S
next (none, s) k = k s
next (some e, s) k = (some e, s)

abbrev pub ◌>>>◌ : {S E : Type 0} → (S → Option E × S) → (S → Option E × S) → S → Option E × S
◌>>>◌ m k s = next (m s) k

pub next-none :
    {S E : Type 0} (r : Option E × S) (k : S → Option E × S)
    → (next r k).0 ≡ none
    → (r.0 ≡ none) × (next r k ≡ k r.1)
next-none (none, s) k h = (refl, refl)
next-none (some e, s) k h = cc
