-- ===== src/Saga/Retry.antt =====
-- SagaOrchestrator.RetryCompensations (exchange-service/internal/service/saga_orchestrator.go) and
-- the cron SagaRetryRunner (saga_retry.go).
use exbanka_3_backend.Prelude.{
  ℕ, ◌+◌, ◌-◌, Bool, true, false, ◌&&◌, ◌||◌, Option, none, some, List, [], ◌∷◌, ◌++◌, leb, ◌==◌,
  if◌then◌else◌,
}
use mathlib.Core.List.{reverse}
use exbanka_3_backend.Prelude.Text.{Text, codes, text_eq}
use exbanka_3_backend.Saga.Types.{
  State, SagaStep, SagaStepRecord, SagaStatus, StepStatus, Phase, Result, ok, err,
}
use exbanka_3_backend.Saga.Repository.{
  mark_step_failed, mark_step_compensated, set_status, set_status_with_error, increment_retry,
  is_stuck,
}
use exbanka_3_backend.Saga.Orchestrator.{log_attempt, run_compensation, keep_first}

abbrev pub saga_max_retries : ℕ
saga_max_retries = 3

abbrev pub saga_retry_staleness : ℕ
saga_retry_staleness = 300

abbrev pub saga_type_otc_exercise : Text
saga_type_otc_exercise = codes "otc_exercise"

abbrev pub unknown_saga_type : Text
unknown_saga_type = codes "unknown saga type"

abbrev pub retry_prefix : Text
retry_prefix = codes "retry compensation: "

-- `strings.HasPrefix`.
unfoldable pub has_prefix : Text → Text → Bool
has_prefix s [] = true
has_prefix [] (p ∷ ps) = false
has_prefix (c ∷ cs) (p ∷ ps) = (c == p) && has_prefix cs ps

abbrev status_completed : StepStatus → Bool
status_completed StepStatus.completed = true
status_completed _ = false

abbrev status_failed : StepStatus → Bool
status_failed StepStatus.failed = true
status_failed _ = false

-- Whether a retry has this record to compensate: completed, or failed in an earlier compensation.
unfoldable pub needs_compensation : SagaStepRecord → Bool
unfolding has_prefix
needs_compensation rec =
    status_completed rec.status
    || (status_failed rec.status
        && (has_prefix rec.error_message (codes "compensation:")
            || has_prefix rec.error_message (codes "retry compensation:")))

-- `stepsByNumber[n]`: a later record of a number replaces an earlier one.
unfoldable pub step_by_number : ℕ → List SagaStepRecord → Option SagaStepRecord
step_by_number n [] = none
step_by_number n (rec ∷ recs) = elim (step_by_number n recs) [
  | some r ↦ some r
  | none ↦ if rec.step_number == n then some rec else none
]

module _ {W : Type 0} where
  abbrev pub settle_retry : ℕ → Option Text → Option Text × State W → Option Text × State W
  settle_retry id first (none, s) = (first, mark_step_compensated id s)
  settle_retry id first (some e, s) =
      (keep_first first e, mark_step_failed id (retry_prefix ++ e) s)

  -- The compensator of one record that needs it, run once with no fault injected.
  unfoldable pub retry_record :
      ℕ → SagaStep W → SagaStepRecord → Option Text → State W → Option Text × State W
  retry_record n step rec first s = elim (step.compensate) [
    | none ↦ (first, mark_step_compensated rec.id s)
    | some comp ↦
        let (cause, s') = run_compensation comp n (record s { faults = none }) in
        settle_retry rec.id first
          (cause, log_attempt (Phase.compensate_phase n) cause (record s' { faults = s.faults }))
  ]

  -- One round of the loop: the step of number `n`, over the records that were loaded.
  unfoldable pub retry_step :
      List SagaStepRecord → ℕ → SagaStep W → Option Text → State W → Option Text × State W
  unfolding retry_record
  retry_step recs n step first s = elim (step_by_number n recs) [
    | none ↦ (first, s)
    | some rec ↦ if needs_compensation rec then retry_record n step rec first s else (first, s)
  ]

  -- `steps` from the last, of number `n`, to the first.
  unfoldable pub retry_steps :
      List SagaStepRecord → ℕ → List (SagaStep W) → Option Text → State W → Option Text × State W
  retry_steps recs n [] first s = (first, s)
  retry_steps recs n (step ∷ steps) first s =
      let (first', s') = retry_step recs n step first s in retry_steps recs (n - 1) steps first' s'

  abbrev pub count_steps : List (SagaStep W) → ℕ
  count_steps [] = 0
  count_steps (x ∷ xs) = count_steps xs + 1

  unfoldable pub retry_compensations : List (SagaStep W) → State W → Option Text × State W
  unfolding retry_steps
  retry_compensations steps s = retry_steps s.steps (count_steps steps) (reverse steps) none s

  -- `buildSteps`: `plan` stands for what the payload and the contract that it names give.
  unfoldable pub build_steps :
      (Text → Result (List (SagaStep W))) → State W → Result (List (SagaStep W))
  build_steps plan s =
      if text_eq s.saga.kind saga_type_otc_exercise
      then plan s.saga.payload
      else err unknown_saga_type

  abbrev pub settle_saga : ℕ → Option Text × State W → State W
  settle_saga retries (none, s) = set_status SagaStatus.rolled_back s
  settle_saga retries (some e, s) =
      if leb saga_max_retries (retries + 1)
      then set_status_with_error SagaStatus.requires_manual_intervention e s
      else s

  -- `retrySaga`; `failure` is the error of the update that counts the retry, if it fails.
  unfoldable pub retry_saga : (Text → Result (List (SagaStep W))) → Option Text → State W → State W
  retry_saga plan failure s = elim (build_steps plan s) [
    | err e ↦ set_status_with_error SagaStatus.requires_manual_intervention e s
    | ok steps ↦ elim failure [
      | some e ↦ s
      | none ↦ settle_saga s.saga.retry_count (retry_compensations steps (increment_retry s))
    ]
  ]

  -- One tick of the cron, at time `s.now`, for this saga.
  unfoldable pub retry_run : (Text → Result (List (SagaStep W))) → Option Text → State W → State W
  unfolding retry_saga
  retry_run plan failure s =
      if is_stuck (s.now - saga_retry_staleness) saga_max_retries s.saga
      then retry_saga plan failure s
      else s
