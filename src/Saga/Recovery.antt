-- ===== src/Saga/Recovery.antt =====
-- RetryCompensations (exchange-service/internal/service/saga_orchestrator.go) that reports no error has
-- taken back every step that was owed.
use exbanka_3_backend.Prelude.{
  ℕ, ◌-◌, ◌≡◌, refl, sym, ap, ◌∙◌, inl, inr, Bool, true, false, ◌||◌, Option, none, some, List, [],
  ◌∷◌, Option-cases, Bool-cases,
}
use mathlib.Core.List.{reverse}
use exbanka_3_backend.Prelude.Text.{Text, codes}
use exbanka_3_backend.Saga.Types.{State, SagaStep, SagaStepRecord, StepStatus, Tx, ok, Phase}
use exbanka_3_backend.Saga.Orchestrator.{log_attempt, run_compensation}
use exbanka_3_backend.Saga.Retry.{
  has_prefix, needs_compensation, step_by_number, settle_retry, retry_record, retry_step,
  retry_steps, retry_compensations, count_steps,
}
use exbanka_3_backend.Saga.Writes.{log_attempt-world, mark_step_compensated-world}
use exbanka_3_backend.Saga.Undo.{TookBack, Undone, run_compensation-ok}

-- A step is owed its compensation if it stands completed, or failed in an earlier compensation.
abbrev pub owed : StepStatus → Text → Bool
owed StepStatus.completed msg = true
owed StepStatus.failed msg =
    has_prefix msg (codes "compensation:") || has_prefix msg (codes "retry compensation:")
owed _ msg = false

abbrev pub is_owed : Option SagaStepRecord → Bool
is_owed none = false
is_owed (some rec) = owed rec.status rec.error_message

needs_compensation-owed :
    (status : StepStatus) (rec : SagaStepRecord)
    → rec.status ≡ status
    → needs_compensation rec ≡ owed status rec.error_message
unfolding needs_compensation
needs_compensation-owed StepStatus.pending rec h = rw h refl
needs_compensation-owed StepStatus.in_progress rec h = rw h refl
needs_compensation-owed StepStatus.completed rec h = rw h refl
needs_compensation-owed StepStatus.failed rec h = rw h refl
needs_compensation-owed StepStatus.compensated rec h = rw h refl

module _ {W : Type 0} where
  abbrev pub add_if : Bool → SagaStep W → List (SagaStep W) → List (SagaStep W)
  add_if true st rest = st ∷ rest
  add_if false st rest = rest

  -- Of the steps, of which the first has the number `n` and each next one the number before, those
  -- that are owed.
  abbrev pub due : List SagaStepRecord → ℕ → List (SagaStep W) → List (SagaStep W)
  due recs n [] = []
  due recs n (st ∷ steps) = add_if (is_owed (step_by_number n recs)) st (due recs (n - 1) steps)

  settle_retry-ok :
      (id : ℕ) (first : Option Text) (r : Option Text × State W)
      → (settle_retry id first r).0 ≡ none
      → (first ≡ none) × (r.0 ≡ none) × ((settle_retry id first r).1.world ≡ r.1.world)
  settle_retry-ok id first (none, s) h = (h, refl, mark_step_compensated-world id s)
  settle_retry-ok id none (some e, s) h = cc
  settle_retry-ok id (some f) (some e, s) h = cc

  record_result :
      (n : ℕ) (st : SagaStep W) (rec : SagaStepRecord) (oc : Option (Tx W)) (first : Option Text)
      (s : State W)
      → st.compensate ≡ oc
      → (retry_record n st rec first s).0 ≡ none
      → (first ≡ none) × TookBack oc s.world (retry_record n st rec first s).1.world
  unfolding retry_record
  record_result n st rec none first s k h = (rw k at h, rw k (mark_step_compensated-world rec.id s))
  record_result n st rec (some c) first s k h =
      let quiet = record s { faults = none } in
      let ran = run_compensation c n quiet in
      let logged =
        log_attempt (Phase.compensate_phase n) ran.0 (record (ran.1) { faults = s.faults }) in
      let (clean, committed, same) = settle_retry-ok rec.id first (ran.0, logged) (rw k at h) in
      (
        clean,
        rw k (
          s.clock,
          run_compensation-ok c n quiet committed
              ∙ ap ok (
                  sym (
                    same
                    ∙ log_attempt-world (Phase.compensate_phase n) ran.0
                        (record (ran.1) { faults = s.faults }))),
        ),
      )

  -- A round that leaves no error had none before, and has taken the step back if it was owed.
  step_result :
      (recs : List SagaStepRecord) (n : ℕ) (st : SagaStep W) (rest : List (SagaStep W))
      (first : Option Text) (s : State W) (v : W)
      → (retry_step recs n st first s).0 ≡ none
      → Undone rest (retry_step recs n st first s).1.world v
      → (first ≡ none) × Undone (add_if (is_owed (step_by_number n recs)) st rest) s.world v
  unfolding retry_step
  step_result recs n st rest first s v h more = elim (Option-cases (step_by_number n recs)) [
    | inl k ↦ rw k (rw (k, retry_step) at h, rw (k, retry_step) at more)
    | inr (rec, k) ↦
        let same = needs_compensation-owed rec.status rec refl in
        elim (Bool-cases (owed rec.status rec.error_message)) [
          | inr settled ↦
              rw (k, settled)
                (rw (k, retry_step, same, settled) at h, rw (k, retry_step, same, settled) at more)
          | inl owes ↦
              let (clean, back) =
                record_result n st rec st.compensate first s refl
                  (rw (k, retry_step, same, owes) at h) in
              rw (k, owes)
                (
                  clean,
                  (
                    (retry_record n st rec first s).1.world,
                    back,
                    rw (k, retry_step, same, owes) at more,
                  ),
                )
        ]
  ]

  retry_steps-Undone :
      (recs : List SagaStepRecord) (n : ℕ) (steps : List (SagaStep W)) (first : Option Text)
      (s : State W)
      → (retry_steps recs n steps first s).0 ≡ none
      → (first ≡ none)
        × Undone (due recs n steps) s.world (retry_steps recs n steps first s).1.world
  unfolding retry_steps
  retry_steps-Undone recs n [] first s h = (h, refl)
  retry_steps-Undone recs n (st ∷ steps) first s h =
      let (first', s') = retry_step recs n st first s in
      let (clean, more) = retry_steps-Undone recs (n - 1) steps first' s' h in
      step_result recs n st (due recs (n - 1) steps) first s
        (retry_steps recs (n - 1) steps first' s').1.world clean more

  pub retry_compensations-Undone :
      (steps : List (SagaStep W)) (s : State W)
      → (retry_compensations steps s).0 ≡ none
      → Undone
          (due s.steps (count_steps steps) (reverse steps))
          s.world
          (retry_compensations steps s).1.world
  unfolding retry_compensations
  retry_compensations-Undone steps s h =
      (retry_steps-Undone s.steps (count_steps steps) (reverse steps) none s h).1
