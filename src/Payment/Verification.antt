-- ===== src/Payment/Verification.antt =====
-- The verification of a payment by its code (VerifyPayment of payment-service/internal/service/
-- payment_service.go).
use exbanka_3_backend.Prelude.{
  ℕ, ◌+◌, ◌≤◌, ◌<◌, ◌≡◌, refl, sym, ◌∙◌, ap, ◌⊎◌, inl, inr, true, false, some, List, [], ◌∷◌, arith,
  length, Bool-cases, Option-cases, All, ltb, leb,
}
use exbanka_3_backend.Prelude.Text.{Text, text_eq, text_eq-eq, trim_space}
use exbanka_3_backend.Prelude.Except.{ok}
use exbanka_3_backend.Prelude.Db.{Transactions}
use exbanka_3_backend.Payment.Types.{Payment, Tables, Error, Env, Stmt, stornirano}
use exbanka_3_backend.Payment.Repository.{find_payment, update_payment, save_payment}
use exbanka_3_backend.Payment.Service.{settle_payment, cancel_payment, cancelled, is_pending}
use exbanka_3_backend.Payment.Requests.{verify_payment, verify_found, expires_at, wrong_code}

find-update_const :
    (k : ℕ) (p' : Payment) (rows : List Payment) (p : Payment)
    → p'.id ≡ k
    → find_payment k rows ≡ some p
    → find_payment k (update_payment k (λ _. p') rows) ≡ some p'
unfolding find_payment update_payment
find-update_const k p' [] p same h = cc
find-update_const k p' (x ∷ rows) p same h = ground (arith, find-update_const k p' rows p same)

find_payment-id :
    (k : ℕ) (rows : List Payment) (p : Payment) → find_payment k rows ≡ some p → p.id ≡ k
unfolding find_payment
find_payment-id k [] p h = cc
find_payment-id k (x ∷ rows) p h = ground (arith, find_payment-id k rows p)

save_payment-found :
    (env : Env) (p p' : Payment) (t : Tables)
    → env.fails Stmt.write_payment ≡ false
    → find_payment p'.id t.payments ≡ some p
    → find_payment p'.id (save_payment env p' t).payments ≡ some p'
unfolding save_payment
save_payment-found env p p' t fine h = rw fine (find-update_const p'.id p' t.payments p refl h)

module _ (db : Transactions Tables Error) where
  -- Only the right code, in time, settles a payment: when a verification succeeds, the payment was
  -- there and pending, its time was not over, and its code is the given one with the spaces
  -- around it trimmed; and what the request does is the settlement of that payment.
  pub verify_payment-ok :
      (env : Env) (id : ℕ) (code : Text) (t : Tables) (q : Payment)
      → (verify_payment db env id code t).0 ≡ ok q
      → (p : Payment) × (find_payment id t.payments ≡ some p)
        × (is_pending p.status ≡ true)
        × (env.now ≤ expires_at p)
        × (p.verifikacioni_kod ≡ trim_space code)
        × (verify_payment db env id code t ≡ settle_payment db env p t)
  unfolding verify_payment verify_found wrong_code
  verify_payment-ok env id code t q h = elim (Option-cases (find_payment id t.payments)) [
    | inl k ↦ absurd (ground arith)
    | inr (p, k) ↦ (p, k, ground arith, ground arith, text_eq-eq _ _ (ground arith), ground arith)
  ]

  -- A sequence of verification requests, each with what it meets and the code that it gives.
  pub verify_all : ℕ → List (Env × Text) → Tables → Tables
  verify_all id [] t = t
  verify_all id ((env, code) ∷ rest) t = verify_all id rest (verify_payment db env id code t).1

  -- The database lets the request read and write the payment's row, and its code is not `kod`.
  abbrev pub IsWrong : Text → Env × Text → Type 0
  IsWrong kod (env, code) =
      (env.fails Stmt.read_payment ≡ false)
      × (env.fails Stmt.write_payment ≡ false)
      × (text_eq kod (trim_space code) ≡ false)

  -- What is left of the payment: cancelled, or pending with one attempt more.
  abbrev Remains : Payment → Payment → Type 0
  Remains p p' =
      (p'.id ≡ p.id)
      × ((p'.status ≡ stornirano)
          ⊎ ((is_pending p'.status ≡ true)
              × (p'.verifikacioni_kod ≡ p.verifikacioni_kod)
              × (p'.broj_pokusaja ≡ p.broj_pokusaja + 1)
              × (p'.broj_pokusaja < 3)))

  cancelled-status : (env : Env) (p : Payment) → (cancelled env p).status ≡ stornirano
  unfolding cancelled
  cancelled-status env p = refl

  cancelled-id : (env : Env) (p : Payment) → (cancelled env p).id ≡ p.id
  unfolding cancelled
  cancelled-id env p = refl

  cancel_payment-found :
      (env : Env) (p p₀ : Payment) (t : Tables)
      → env.fails Stmt.write_payment ≡ false
      → find_payment p.id t.payments ≡ some p₀
      → find_payment p.id (cancel_payment env p t).1.payments ≡ some (cancelled env p)
  unfolding cancel_payment cancelled
  cancel_payment-found env p p₀ t fine h = save_payment-found env p₀ (cancelled env p) t fine h

  verify_payment-found :
      (id : ℕ) (env : Env) (code : Text) (t : Tables) (p : Payment)
      → find_payment id t.payments ≡ some p
      → env.fails Stmt.read_payment ≡ false
      → verify_payment db env id code t ≡ verify_found db env code p t
  unfolding verify_payment
  verify_payment-found id env code t p found readable = rw (readable, found) refl

  verify_found-wrong :
      (env : Env) (code : Text) (t : Tables) (p : Payment)
      → find_payment p.id t.payments ≡ some p
      → is_pending p.status ≡ true
      → IsWrong p.verifikacioni_kod (env, code)
      → (p' : Payment) × (find_payment p.id (verify_found db env code p t).1.payments ≡ some p')
        × Remains p p'
  unfolding verify_found wrong_code
  verify_found-wrong env code t p found pending (readable, writable, wrong) =
      elim (Bool-cases (ltb (expires_at p) env.now)) [
        | inl late ↦ (
          cancelled env p,
          ground (arith, cancel_payment-found env p p t writable found),
          (cancelled-id env p, inl (cancelled-status env p)),
        )
        | inr early ↦ elim (Bool-cases (leb 3 (p.broj_pokusaja + 1))) [
          | inl third ↦ (
            cancelled env tried,
            ground (arith, cancel_payment-found env tried p t writable found),
            (cancelled-id env tried, inl (cancelled-status env tried)),
          )
          | inr fewer ↦ (
            tried,
            ground (arith, save_payment-found env p tried t writable found),
            (refl, inr (pending, refl, refl, ground arith)),
          )
        ]
      ]
    where
      tried : Payment
      tried = record p { broj_pokusaja = p.broj_pokusaja + 1 }

  verify_wrong :
      (id : ℕ) (env : Env) (code : Text) (t : Tables) (p : Payment)
      → find_payment id t.payments ≡ some p
      → is_pending p.status ≡ true
      → IsWrong p.verifikacioni_kod (env, code)
      → (p' : Payment) × (find_payment id (verify_payment db env id code t).1.payments ≡ some p')
        × Remains p p'
  verify_wrong id env code t p found pending wrong =
      let same = find_payment-id id t.payments p found in
      let (p', found', left) =
        verify_found-wrong env code t p (ap (λ k. find_payment k t.payments) same ∙ found) pending
          wrong in
      (
        p',
        ap (λ r. find_payment id r.1.payments) (verify_payment-found id env code t p found wrong.0)
            ∙ ap (λ k. find_payment k (verify_found db env code p t).1.payments) (sym same)
            ∙ found',
        left,
      )

  verify_closed :
      (id : ℕ) (env : Env) (code : Text) (t : Tables) (p : Payment)
      → find_payment id t.payments ≡ some p
      → p.status ≡ stornirano
      → (verify_payment db env id code t).1 ≡ t
  unfolding verify_payment verify_found
  verify_closed id env code t p found closed = ground arith

  verify_all-closed :
      (id : ℕ) (reqs : List (Env × Text)) (t : Tables) (p : Payment)
      → find_payment id t.payments ≡ some p
      → p.status ≡ stornirano
      → verify_all id reqs t ≡ t
  unfolding verify_all
  verify_all-closed id [] t p found closed = refl
  verify_all-closed id ((env, code) ∷ rest) t p found closed =
      let same = verify_closed id env code t p found closed in
      ap (verify_all id rest) same ∙ verify_all-closed id rest t p found closed

  -- Guessing the code is bounded. When requests that all give a wrong code bring the attempts at a
  -- pending payment to three, whenever they come and while its row can be read and written, the payment is
  -- cancelled at their end.
  pub verify_all-wrong :
      (id : ℕ) (reqs : List (Env × Text)) (t : Tables) (p : Payment)
      → find_payment id t.payments ≡ some p
      → is_pending p.status ≡ true
      → p.broj_pokusaja < 3
      → 3 ≤ p.broj_pokusaja + length reqs
      → All (IsWrong p.verifikacioni_kod) reqs
      → (p' : Payment) × (find_payment id (verify_all id reqs t).payments ≡ some p')
        × (p'.status ≡ stornirano)
  unfolding verify_all
  verify_all-wrong id [] t p found pending few enough wrong = absurd (omega arith)
  verify_all-wrong id ((env, code) ∷ rest) t p found pending few enough (w, ws) =
      let (p', found', left) = verify_wrong id env code t p found pending w in
      elim (left.1) [
        | inl closed ↦ (
          p',
          ap (λ u. find_payment id u.payments) (verify_all-closed id rest t' p' found' closed)
              ∙ found',
          closed,
        )
        | inr (still, kod, counted, fewer) ↦
            verify_all-wrong id rest t' p' found' still fewer (omega arith) (rw kod ws)
      ]
    where
      t' : Tables
      t' = (verify_payment db env id code t).1
