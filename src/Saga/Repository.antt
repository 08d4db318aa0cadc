-- ===== src/Saga/Repository.antt =====
-- The writes of SagaRepository (exchange-service/internal/repository/saga_repository.go) to the
-- rows of one saga. `UPDATE … WHERE id = ?` changes each row of that id and no other.
use exbanka_3_backend.Prelude.{
  ℕ, ◌+◌, Bool, List, [], ◌∷◌, ◌++◌, map, ltb, ◌==◌, ◌&&◌, if◌then◌else◌, true, false,
}
use exbanka_3_backend.Prelude.Text.{Text}
use exbanka_3_backend.Saga.Types.{
  State, SagaTransactionRecord, SagaStepRecord, SagaStatus, StepStatus, Phase, Outcome,
}

abbrev update_row : ℕ → (SagaStepRecord → SagaStepRecord) → SagaStepRecord → SagaStepRecord
update_row id f r = if r.id == id then f r else r

unfoldable pub update_rows :
    ℕ → (SagaStepRecord → SagaStepRecord) → List SagaStepRecord → List SagaStepRecord
update_rows id f rows = map (update_row id f) rows

module _ {W : Type 0} where
  -- A write whose error the caller drops (`_ = …`): it takes effect, or it fails and writes nothing.
  abbrev pub dropping : (State W → State W) → State W → State W
  dropping write s =
      if s.write_fails s.writes
      then record s { writes = s.writes + 1 }
      else record (write s) { writes = s.writes + 1 }

  unfoldable pub update_step : ℕ → (SagaStepRecord → SagaStepRecord) → State W → State W
  unfolding update_rows
  update_step id f s = record s { steps = update_rows id f s.steps }

  unfoldable pub mark_step_in_progress : ℕ → State W → State W
  unfolding update_step
  mark_step_in_progress id =
      dropping (update_step id (λ r. record r { status = StepStatus.in_progress }))

  unfoldable pub mark_step_completed : ℕ → State W → State W
  unfolding update_step
  mark_step_completed id =
      dropping (update_step id (λ r. record r { status = StepStatus.completed }))

  unfoldable pub mark_step_failed : ℕ → Text → State W → State W
  unfolding update_step
  mark_step_failed id msg =
      dropping (update_step id (λ r. record r { status = StepStatus.failed; error_message = msg }))

  unfoldable pub mark_step_compensated : ℕ → State W → State W
  unfolding update_step
  mark_step_compensated id =
      dropping (update_step id (λ r. record r { status = StepStatus.compensated }))

  -- Every update of the saga's row sets `updated_at`.
  unfoldable pub set_current_step : ℕ → State W → State W
  set_current_step n =
      dropping (λ s. record s { saga = record (s.saga) { current_step = n; updated_at = s.now } })

  unfoldable pub set_status : SagaStatus → State W → State W
  set_status st =
      dropping (λ s. record s { saga = record (s.saga) { status = st; updated_at = s.now } })

  unfoldable pub set_status_with_error : SagaStatus → Text → State W → State W
  set_status_with_error st msg =
      dropping
        (λ s. record s { saga = record (s.saga) { status = st; error = msg; updated_at = s.now } })

  -- The one update whose error is not dropped; this is the update that goes through.
  unfoldable pub increment_retry : State W → State W
  increment_retry s = record s {
    saga = record (s.saga) { retry_count = s.saga.retry_count + 1; updated_at = s.now };
  }

  -- `AppendStep`, where the insert goes through; it returns the new row's id.
  unfoldable pub append_step : ℕ → Text → State W → ℕ × State W
  append_step number name s = (
    s.next_step_id,
    record s {
      steps =
          s.steps
          ++ (record {
            id = s.next_step_id;
            step_number = number;
            step_name = name;
            status = StepStatus.pending;
            error_message = [];
          }
              ∷ []);
      next_step_id = s.next_step_id + 1;
    },
  )

  unfoldable pub append_attempt : Phase → Outcome → Text → State W → State W
  append_attempt phase outcome msg = dropping (λ s. record s {
    attempts = s.attempts ++ (record { phase = phase; outcome = outcome; error = msg } ∷ []);
  })

abbrev is_rolling_back : SagaStatus → Bool
is_rolling_back SagaStatus.rolling_back = true
is_rolling_back _ = false

-- The condition of `ListStuckRollingBack`.
unfoldable pub is_stuck : ℕ → ℕ → SagaTransactionRecord → Bool
is_stuck older_than max_retries saga =
    is_rolling_back saga.status
    && ltb saga.updated_at older_than
    && ltb saga.retry_count max_retries
