-- ===== src/Saga/RetryLaws.antt =====
-- The retry cron (exchange-service/internal/service/saga_retry.go): what a tick makes of a saga that
-- is stuck in rolling_back.
use exbanka_3_backend.Prelude.{
  ℕ, ◌+◌, ◌-◌, ◌≤◌, ◌<◌, ◌≡◌, ◌≢◌, refl, ap, ◌⊎◌, inl, inr, ◌∙◌, true, false, leb, Bool-cases,
  Option, none, some, List, [], ◌∷◌, arith, length,
}
use mathlib.Core.List.{reverse}
use exbanka_3_backend.Prelude.Text.{Text}
use exbanka_3_backend.Saga.Types.{
  State, SagaStep, SagaTransactionRecord, SagaStatus, Result, ok, err,
}
use exbanka_3_backend.Saga.Repository.{set_status, set_status_with_error, increment_retry, is_stuck}
use exbanka_3_backend.Saga.Retry.{count_steps}
use exbanka_3_backend.Saga.Undo.{Undone}
use exbanka_3_backend.Saga.RetryKeeps.{retry_compensations-Keeps}
use exbanka_3_backend.Saga.Recovery.{due, retry_compensations-Undone}
use exbanka_3_backend.Saga.Retry.{
  retry_compensations, retry_saga, retry_run, settle_saga, build_steps, saga_max_retries,
  saga_retry_staleness,
}

is_stuck-rolling_back :
    (older retries : ℕ) (saga : SagaTransactionRecord)
    → is_stuck older retries saga ≡ true
    → saga.status ≡ SagaStatus.rolling_back
unfolding is_stuck
is_stuck-rolling_back older retries saga h = ground arith

Result-cases : {A : Type 0} (r : Result A) → ((a : A) × (r ≡ ok a)) ⊎ ((e : Text) × (r ≡ err e))
Result-cases (ok a) = inl (a, refl)
Result-cases (err e) = inr (e, refl)

abbrev pub IsSettled : SagaTransactionRecord → Type 0
IsSettled saga =
    (saga.status ≡ SagaStatus.rolled_back) ⊎ (saga.status ≡ SagaStatus.requires_manual_intervention)

-- The first tick comes more than the staleness after `last`, and each next one after the one before.
abbrev pub Spaced : ℕ → List ℕ → Type 0
Spaced last [] = Unit {0}
Spaced last (t ∷ ts) = (last + saga_retry_staleness < t) × Spaced t ts

module _ {W : Type 0} where
  abbrev pub IsSure : State W → Type 0
  IsSure s = (n : ℕ) → s.write_fails n ≡ false

  -- The tick has taken back every step of the plan that was owed, from the last to the first.
  abbrev pub Recovered : (Text → Result (List (SagaStep W))) → State W → State W → Type 0
  Recovered plan s s' =
      (steps : List (SagaStep W)) × (build_steps plan s ≡ ok steps)
      × Undone (due s.steps (count_steps steps) (reverse steps)) s.world s'.world

  -- What a tick may make of a stuck saga.
  abbrev pub Progress : (Text → Result (List (SagaStep W))) → State W → State W → Type 0
  Progress plan s s' =
      ((s'.saga.status ≡ SagaStatus.rolled_back) × Recovered plan s s')
      ⊎ (s'.saga.status ≡ SagaStatus.requires_manual_intervention)
      ⊎ ((s'.saga.status ≡ SagaStatus.rolling_back)
          × (s'.saga.retry_count ≡ s.saga.retry_count + 1)
          × (s'.saga.retry_count < saga_max_retries)
          × (s'.saga.updated_at ≡ s.now)
          × IsSure s')

  settle_saga-Progress :
      (plan : Text → Result (List (SagaStep W))) (s : State W) (r : Option Text × State W)
      → r.1.saga.status ≡ SagaStatus.rolling_back
      → r.1.saga.retry_count ≡ s.saga.retry_count + 1
      → r.1.saga.updated_at ≡ s.now
      → IsSure r.1
      → (r.0 ≡ none → Recovered plan s r.1)
      → Progress plan s (settle_saga s.saga.retry_count r)
  unfolding set_status set_status_with_error
  settle_saga-Progress plan s (none, u) a b c sure recovered =
      rw (sure u.writes) (inl (refl, recovered refl))
  settle_saga-Progress plan s (some e, u) a b c sure recovered =
      elim (Bool-cases (leb saga_max_retries (s.saga.retry_count + 1))) [
        | inl last ↦ rw (last, sure u.writes) (inr (inl refl))
        | inr more ↦ rw more (inr (inr (a, b, ground arith, c, sure)))
      ]

  retry_saga-Progress :
      (plan : Text → Result (List (SagaStep W))) (s : State W)
      → s.saga.status ≡ SagaStatus.rolling_back
      → IsSure s
      → Progress plan s (retry_saga plan none s)
  unfolding increment_retry set_status_with_error retry_saga retry_compensations
  retry_saga-Progress plan s h sure = elim (Result-cases (build_steps plan s)) [
    | inr (e, k) ↦
        let done : retry_saga plan none s
            ≡ set_status_with_error SagaStatus.requires_manual_intervention e s =
          rw (k, retry_saga) refl in
        rw (done, set_status_with_error, sure s.writes) (inr (inl refl))
    | inl (steps, k) ↦
        let u = increment_retry s in
        let r = retry_compensations steps u in
        let (same, at, writes) = retry_compensations-Keeps steps u in
        let done : retry_saga plan none s ≡ settle_saga s.saga.retry_count r =
          rw (k, retry_saga) refl in
        rw done (
          settle_saga-Progress plan s r (ap (λ g. g.status) same ∙ h) (ap (λ g. g.retry_count) same)
            (ap (λ g. g.updated_at) same) (λ n. ap (λ f. f n) writes ∙ sure n)
            (λ clean. (steps, k, retry_compensations-Undone steps u clean)))
  ]

  retry_run-Progress :
      (plan : Text → Result (List (SagaStep W))) (s : State W)
      → is_stuck (s.now - saga_retry_staleness) saga_max_retries s.saga ≡ true
      → IsSure s
      → Progress plan s (retry_run plan none s)
  unfolding retry_run
  retry_run-Progress plan s k sure =
      rw k (retry_saga-Progress plan s (is_stuck-rolling_back _ saga_max_retries s.saga k) sure)

  retry_run-idle :
      (plan : Text → Result (List (SagaStep W))) (s : State W)
      → s.saga.status ≢ SagaStatus.rolling_back
      → retry_run plan none s ≡ s
  unfolding retry_run is_stuck
  retry_run-idle plan s k = ground arith

  -- One tick of the cron at the time `t`, and the ticks at the times `ts`.
  abbrev pub tick : (Text → Result (List (SagaStep W))) → ℕ → State W → State W
  tick plan t s = retry_run plan none (record s { now = t })

  pub ticks : (Text → Result (List (SagaStep W))) → List ℕ → State W → State W
  ticks plan [] s = s
  ticks plan (t ∷ ts) s = ticks plan ts (tick plan t s)

  IsSettled-ticks :
      (plan : Text → Result (List (SagaStep W))) (ts : List ℕ) (s : State W)
      → IsSettled s.saga
      → IsSettled (ticks plan ts s).saga
  unfolding ticks
  IsSettled-ticks plan [] s h = h
  IsSettled-ticks plan (t ∷ ts) s h =
      IsSettled-ticks plan ts (tick plan t s)
        (rw (retry_run-idle plan (record s { now = t }) (ground arith)) h)

  -- One of the ticks hands the saga to manual intervention, or takes back all that is owed and rolls
  -- it back; the ticks before it leave it rolling back.
  abbrev pub Settles : (Text → Result (List (SagaStep W))) → List ℕ → State W → Type 0
  Settles plan [] s = ⊥
  Settles plan (t ∷ ts) s =
      (((tick plan t s).saga.status ≡ SagaStatus.rolled_back) × Recovered plan s (tick plan t s))
      ⊎ ((tick plan t s).saga.status ≡ SagaStatus.requires_manual_intervention)
      ⊎ (((tick plan t s).saga.status ≡ SagaStatus.rolling_back) × Settles plan ts (tick plan t s))

  -- A saga left in rolling_back does not stay there: whatever its compensators do, once the cron has
  -- ticked often enough to bring its retries to three, each tick more than five minutes after the
  -- update before it, and when no write to the saga's row fails, the saga is rolled back or handed to
  -- manual intervention; and the tick that makes it rolled back has had committed, once and from the
  -- last step to the first, the compensator of each step whose record was completed, or failed in an
  -- earlier compensation.
  pub ticks-IsSettled :
      (plan : Text → Result (List (SagaStep W))) (ts : List ℕ) (s : State W)
      → s.saga.status ≡ SagaStatus.rolling_back
      → s.saga.retry_count < saga_max_retries
      → saga_max_retries ≤ s.saga.retry_count + length ts
      → Spaced s.saga.updated_at ts
      → ((n : ℕ) → s.write_fails n ≡ false)
      → IsSettled (ticks plan ts s).saga × Settles plan ts s
  unfolding ticks build_steps
  ticks-IsSettled plan [] s rolling few enough spaced sure = absurd (omega arith)
  ticks-IsSettled plan (t ∷ ts) s rolling few enough (apart, spaced) sure =
      let s' = record s { now = t } in
      elim (retry_run-Progress plan s' (unfold is_stuck in (rw rolling (ground arith))) sure) [
        | inl (done, recovered) ↦
            (IsSettled-ticks plan ts (tick plan t s) (inl done), inl (done, recovered))
        | inr (inl manual) ↦
            (IsSettled-ticks plan ts (tick plan t s) (inr manual), inr (inl manual))
        | inr (inr (still, counted, fewer, at, sure')) ↦
            let (settled, how) =
              ticks-IsSettled plan ts (tick plan t s) still fewer (omega arith) (rw at spaced)
                sure' in
            (settled, inr (inr (still, how)))
      ]
