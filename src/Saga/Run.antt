-- ===== src/Saga/Run.antt =====
-- SagaOrchestrator.Run and RunWithFaults (exchange-service/internal/service/saga_orchestrator.go).
use exbanka_3_backend.Prelude.{ℕ, ◌+◌, Option, none, some, List, [], ◌∷◌, ◌++◌}
use exbanka_3_backend.Prelude.Text.{Text}
use exbanka_3_backend.Saga.Types.{State, SagaStep, SagaStatus, SagaFaultConfig}
use exbanka_3_backend.Saga.Repository.{append_step, set_status_with_error}
use exbanka_3_backend.Saga.Orchestrator.{RunError, create_failed, append_failed, Entry, run_entries}

-- What the inserts of a run report: the error of creating the saga's row, and that of the step
-- record of each number.
pub record Inserts : Type 0 where
  pub create_error : Option Text
  pub append_error : ℕ → Option Text

-- What the loop that persists the step records comes to.
pub data Appended (W : Type 0) : Type 0 where
  appended : List (Entry W) → Appended W
  refused : ℕ → Text → Appended W

module _ {W : Type 0} where
  -- `n` is the number of the next step, `recs` the entries so far.
  unfoldable pub append_steps :
      (ℕ → Option Text) → ℕ → List (Entry W) → List (SagaStep W) → State W → Appended W × State W
  append_steps fails n recs [] s = (appended recs, s)
  append_steps fails n recs (step ∷ steps) s =
      let (id, s') = append_step n step.name s in
      let e : Entry W = record { number = n; step = step; rec_id = id } in
      let rest = append_steps fails (n + 1) (recs ++ e ∷ []) steps s' in
      elim (fails n) [ some msg ↦ (refused n msg, s) | none ↦ rest ]

  abbrev pub run_appended : Appended W × State W → Option RunError × State W
  run_appended (refused n msg, s) =
      (some (append_failed n msg), set_status_with_error SagaStatus.failed msg s)
  run_appended (appended recs, s) = run_entries recs [] s

  -- The rows of a saga just created.
  unfoldable pub create_transaction : Text → Text → State W → State W
  create_transaction kind payload s = record s {
    saga = record {
      kind = kind;
      status = SagaStatus.in_progress;
      current_step = 0;
      payload = payload;
      error = [];
      retry_count = 0;
      updated_at = s.now;
    };
    steps = [];
    attempts = [];
  }

  unfoldable pub run_with_faults :
      Inserts
      → Text
      → Text
      → List (SagaStep W)
      → Option SagaFaultConfig
      → State W
      → Option RunError × State W
  run_with_faults io kind payload steps faults s = elim (io.create_error) [
    | some msg ↦ (some (create_failed msg), s)
    | none ↦ run_appended (
        append_steps io.append_error 1 [] steps
          (create_transaction kind payload (record s { faults = faults })))
  ]

  unfoldable pub run :
      Inserts → Text → Text → List (SagaStep W) → State W → Option RunError × State W
  unfolding run_with_faults
  run io kind payload steps s = run_with_faults io kind payload steps none s
