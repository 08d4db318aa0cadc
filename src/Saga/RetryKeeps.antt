-- ===== src/Saga/RetryKeeps.antt =====
-- Compensating again (exchange-service/internal/service/saga_orchestrator.go) writes to the step records,
-- the log and the business tables alone.
use exbanka_3_backend.Prelude.{
  ℕ, ◌-◌, ◌≡◌, refl, inl, inr, ◌∙◌, ◌++◌, Bool-cases, Option, none, some, List, [], ◌∷◌, arith,
  Option-cases,
}
use mathlib.Core.List.{reverse}
use exbanka_3_backend.Prelude.Text.{Text}
use exbanka_3_backend.Saga.Types.{State, SagaStep, SagaStepRecord, Tx, Phase}
use exbanka_3_backend.Saga.Repository.{mark_step_failed, mark_step_compensated}
use exbanka_3_backend.Saga.Repository.{append_attempt, update_step}
use exbanka_3_backend.Saga.Retry.{settle_retry, retry_prefix, needs_compensation}
use exbanka_3_backend.Saga.Orchestrator.{log_attempt, run_compensation}
use exbanka_3_backend.Saga.Retry.{
  retry_record, retry_step, retry_steps, retry_compensations, step_by_number,
}

module _ {W : Type 0} where
  -- The columns of the saga's row, the time and the outcome of writes are as they were.
  abbrev pub Keeps : State W → State W → Type 0
  Keeps s s' = (s'.saga ≡ s.saga) × (s'.now ≡ s.now) × (s'.write_fails ≡ s.write_fails)

  Keeps-trans : (s u v : State W) → Keeps s u → Keeps u v → Keeps s v
  Keeps-trans s u v (a, b, c) (d, e, f) = (d ∙ a, e ∙ b, f ∙ c)

  log_attempt-Keeps : (p : Phase) (c : Option Text) (s : State W) → Keeps s (log_attempt p c s)
  unfolding log_attempt append_attempt
  log_attempt-Keeps p none s = (ground arith, ground arith, ground arith)
  log_attempt-Keeps p (some e) s = (ground arith, ground arith, ground arith)

  mark_step_compensated-Keeps : (id : ℕ) (s : State W) → Keeps s (mark_step_compensated id s)
  unfolding mark_step_compensated update_step
  mark_step_compensated-Keeps id s = (ground arith, ground arith, ground arith)

  mark_step_failed-Keeps : (id : ℕ) (m : Text) (s : State W) → Keeps s (mark_step_failed id m s)
  unfolding mark_step_failed update_step
  mark_step_failed-Keeps id m s = (ground arith, ground arith, ground arith)

  run_compensation-Keeps : (c : Tx W) (n : ℕ) (s : State W) → Keeps s (run_compensation c n s).1
  unfolding run_compensation
  run_compensation-Keeps c n s = (ground arith, ground arith, ground arith)

  settle_retry-Keeps :
      (id : ℕ) (first : Option Text) (r : Option Text × State W)
      → Keeps r.1 (settle_retry id first r).1
  settle_retry-Keeps id first (none, s) = mark_step_compensated-Keeps id s
  settle_retry-Keeps id first (some e, s) = mark_step_failed-Keeps id (retry_prefix ++ e) s

  retry_record-Keeps :
      (n : ℕ) (st : SagaStep W) (r : SagaStepRecord) (first : Option Text) (s : State W)
      → Keeps s (retry_record n st r first s).1
  unfolding retry_record
  retry_record-Keeps n st r first s = elim (Option-cases st.compensate) [
    | inl k ↦ rw k (mark_step_compensated-Keeps r.id s)
    | inr (c, k) ↦
        let ran = run_compensation c n (record s { faults = none }) in
        let back = record (ran.1) { faults = s.faults } in
        let logged = log_attempt (Phase.compensate_phase n) ran.0 back in
        rw k (
          Keeps-trans s back (settle_retry r.id first (ran.0, logged)).1
            (run_compensation-Keeps c n (record s { faults = none }))
            (Keeps-trans back logged (settle_retry r.id first (ran.0, logged)).1
              (log_attempt-Keeps (Phase.compensate_phase n) ran.0 back)
              (settle_retry-Keeps r.id first (ran.0, logged))))
  ]

  retry_step-Keeps :
      (recs : List SagaStepRecord) (n : ℕ) (st : SagaStep W) (first : Option Text) (s : State W)
      → Keeps s (retry_step recs n st first s).1
  unfolding retry_step
  retry_step-Keeps recs n st first s = elim (Option-cases (step_by_number n recs)) [
    | inl k ↦ rw (k, retry_step) (refl, refl, refl)
    | inr (r, k) ↦ elim (Bool-cases (needs_compensation r)) [
      | inl owes ↦ rw (k, retry_step, owes) (retry_record-Keeps n st r first s)
      | inr settled ↦ rw (k, retry_step, settled) (refl, refl, refl)
    ]
  ]

  retry_steps-Keeps :
      (recs : List SagaStepRecord) (n : ℕ) (steps : List (SagaStep W)) (first : Option Text)
      (s : State W)
      → Keeps s (retry_steps recs n steps first s).1
  unfolding retry_steps
  retry_steps-Keeps recs n [] first s = (refl, refl, refl)
  retry_steps-Keeps recs n (st ∷ steps) first s =
      let (first', s') = retry_step recs n st first s in
      Keeps-trans s s' (retry_steps recs (n - 1) steps first' s').1
        (retry_step-Keeps recs n st first s) (retry_steps-Keeps recs (n - 1) steps first' s')

  pub retry_compensations-Keeps :
      (steps : List (SagaStep W)) (s : State W) → Keeps s (retry_compensations steps s).1
  unfolding retry_compensations
  retry_compensations-Keeps steps s = retry_steps-Keeps s.steps _ (reverse steps) none s
