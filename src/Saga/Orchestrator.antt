-- ===== src/Saga/Orchestrator.antt =====
-- SagaOrchestrator (exchange-service/internal/service/saga_orchestrator.go) and the fault hooks that
-- it consults (saga_faults.go).
use exbanka_3_backend.Prelude.{
  ℕ, zero, suc, ◌+◌, Bool, true, false, not, ◌&&◌, ◌||◌, Option, none, some, List, [], ◌∷◌, ◌++◌,
  leb, ◌==◌, if◌then◌else◌,
}
use exbanka_3_backend.Prelude.Text.{Text, codes}
use exbanka_3_backend.Saga.Types.{
  State, SagaStep, SagaFaultConfig, SagaStatus, Phase, Outcome, Result, ok, err, Tx,
}
use exbanka_3_backend.Saga.Repository.{
  mark_step_in_progress, mark_step_completed, mark_step_failed, mark_step_compensated,
  set_current_step, set_status, set_status_with_error, append_attempt,
}

abbrev pub max_inline_compensate_attempts : ℕ
max_inline_compensate_attempts = 3

-- What `RunWithFaults` returns when it is not nil.
pub data RunError : Type 0 where
  create_failed : Text → RunError
  append_failed : ℕ → Text → RunError
  step_failed : Text → Text → RunError
  compensation_error : Text → Text → Text → RunError

unfoldable pub should_fail_forward : Option SagaFaultConfig → ℕ → Bool
should_fail_forward none n = false
should_fail_forward (some f) n = f.force_fail_step == n

unfoldable pub force_fail_after : Option SagaFaultConfig → Bool
force_fail_after none = false
force_fail_after (some f) = f.force_fail_after

abbrev bump_at : (ℕ → ℕ) → ℕ → ℕ → ℕ
bump_at m k j = if j == k then m j + 1 else m j

-- Whether this attempt is forced to fail, and the configuration with the failure consumed.
unfoldable pub should_fail_compensation : Option SagaFaultConfig → ℕ → Bool × Option SagaFaultConfig
should_fail_compensation none n = (false, none)
should_fail_compensation (some f) n =
    if not (f.compensate_fail_step == n) || leb f.compensate_fail_times 0
    then (false, some f)
    else if leb f.compensate_fail_times (f.compensate_attempts n)
    then (false, some f)
    else (true, some (record f { compensate_attempts = bump_at f.compensate_attempts n }))

-- A step of the run with its 1-based number and the id of its record.
pub record Entry (W : Type 0) : Type 0 where
  pub number : ℕ
  pub step : SagaStep W
  pub rec_id : ℕ

abbrev pub forced_before : Text
forced_before = codes "forced fault: forward failed before side effects"

abbrev pub forced_after : Text
forced_after = codes "forced fault: forward failed after side effects"

abbrev pub forced_compensation : Text
forced_compensation = codes "forced fault: compensation failed"

abbrev pub compensation_prefix : Text
compensation_prefix = codes "compensation: "

abbrev pub keep_first : Option Text → Text → Option Text
keep_first none e = some e
keep_first (some e) e' = some e

module _ {W : Type 0} where
  unfoldable pub log_attempt : Phase → Option Text → State W → State W
  unfolding append_attempt
  log_attempt phase none s = append_attempt phase Outcome.ok_outcome [] s
  log_attempt phase (some e) s = append_attempt phase Outcome.err_outcome e s

  abbrev commit_tx : Result W → State W → Option Text × State W
  commit_tx (ok w) s = (none, record s { world = w; clock = s.clock + 1 })
  commit_tx (err e) s = (some e, record s { clock = s.clock + 1 })

  -- `db.Transaction(step)`.
  unfoldable pub run_tx : Tx W → State W → Option Text × State W
  run_tx t s = commit_tx (t s.clock s.world) s

  abbrev pub after_forward : Bool → Option Text × State W → Bool × Option Text × State W
  after_forward forced (some e, s) = (false, some e, s)
  after_forward forced (none, s) = if forced then (true, some forced_after, s) else (false, none, s)

  -- Whether side effects stand in spite of the error, and the error.
  unfoldable pub run_forward : SagaStep W → ℕ → State W → Bool × Option Text × State W
  unfolding should_fail_forward force_fail_after run_tx
  run_forward step n s =
      if should_fail_forward s.faults n && not (force_fail_after s.faults)
      then (false, some forced_before, s)
      else after_forward (should_fail_forward s.faults n && force_fail_after s.faults)
          (run_tx step.forward s)

  unfoldable pub run_compensation : Tx W → ℕ → State W → Option Text × State W
  unfolding should_fail_compensation run_tx
  run_compensation comp n s =
      let (forced, faults') = should_fail_compensation s.faults n in
      if forced
      then (some forced_compensation, record s { faults = faults' })
      else run_tx comp (record s { faults = faults' })

  -- The inline attempts at one compensator, `left` of them still allowed: `none` once one succeeds,
  -- else the last error.
  unfoldable pub attempt_compensation :
      ℕ → Tx W → Entry W → Option Text → State W → Option Text × State W
  attempt_compensation zero comp e last s = (last, s)
  attempt_compensation (suc left) comp e last s =
      let (cause, s') = run_compensation comp e.number s in
      let logged = log_attempt (Phase.compensate_phase e.number) cause s' in
      elim cause [
        | some msg ↦ attempt_compensation left comp e (some msg) logged
        | none ↦ (none, mark_step_compensated e.rec_id logged)
      ]

  abbrev pub settle_compensation :
      Entry W → Option Text → Option Text × State W → Option Text × State W
  settle_compensation e first (none, s) = (first, s)
  settle_compensation e first (some msg, s) =
      (keep_first first msg, mark_step_failed e.rec_id (compensation_prefix ++ msg) s)

  -- One round of the loop: the first error so far, and the state.
  unfoldable pub compensate_with :
      Option (Tx W) → Entry W → Option Text → State W → Option Text × State W
  compensate_with none e first s = (first, s)
  compensate_with (some comp) e first s =
      settle_compensation e first
        (attempt_compensation max_inline_compensate_attempts comp e none s)

  unfoldable pub compensate_entry : Entry W → Option Text → State W → Option Text × State W
  unfolding compensate_with
  compensate_entry e first s = compensate_with e.step.compensate e first s

  -- `compensateBackward` over the entries `from`, …, 0, in this order.
  unfoldable pub compensate_backward :
      List (Entry W) → Option Text → State W → Option Text × State W
  compensate_backward [] first s = (first, s)
  compensate_backward (e ∷ es) first s =
      let (first', s') = compensate_entry e first s in compensate_backward es first' s'

  abbrev pub finish_rollback : Text → Text → Option Text × State W → Option RunError × State W
  finish_rollback name cause (none, s) =
      (some (RunError.step_failed name cause), set_status SagaStatus.rolled_back s)
  finish_rollback name cause (some comp, s) = (
    some (RunError.compensation_error name cause comp),
    set_status_with_error SagaStatus.rolling_back comp s,
  )

  -- The failure branch of `RunWithFaults`: `done` are the entries before `e`, the latest first.
  unfoldable pub roll_back :
      Entry W → List (Entry W) → Bool → Text → State W → Option RunError × State W
  unfolding compensate_backward
  roll_back e done applied cause s =
      let failed = mark_step_failed e.rec_id cause s in
      let rolling = set_status_with_error SagaStatus.rolling_back cause failed in
      finish_rollback e.step.name cause
        (compensate_backward (if applied then e ∷ done else done) none rolling)

  -- The start of a round of the forward loop, up to and with the logged attempt.
  unfoldable pub forward_entry : Entry W → State W → Bool × Option Text × State W
  unfolding run_forward
  forward_entry e s =
      let started = set_current_step e.number (mark_step_in_progress e.rec_id s) in
      let (applied, cause, s') = run_forward e.step e.number started in
      (applied, cause, log_attempt (Phase.forward_phase e.number) cause s')

  -- The forward loop over the entries still to run.
  unfoldable pub run_entries : List (Entry W) → List (Entry W) → State W → Option RunError × State W
  run_entries [] done s = (none, set_status SagaStatus.completed s)
  run_entries (e ∷ todo) done s =
      let (applied, cause, s') = forward_entry e s in
      elim cause [
        | some msg ↦ roll_back e done applied msg s'
        | none ↦ run_entries todo (e ∷ done) (mark_step_completed e.rec_id s')
      ]
