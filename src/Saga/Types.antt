-- ===== src/Saga/Types.antt =====
-- The rows of a saga (exchange-service/internal/models/saga.go), its steps, and the state of a run.
-- `W` is what the business tables hold. A step's transaction is a parameter: it is given the number
-- of transactions already run and the tables, and either commits new tables or fails with a message
-- and writes nothing; that number lets a retry succeed where an earlier attempt failed. Times are
-- seconds.
use exbanka_3_backend.Prelude.{ℕ, Bool, Option, List}
use exbanka_3_backend.Prelude.Text.{Text}

pub data SagaStatus : Type 0 where
  in_progress completed failed rolling_back rolled_back requires_manual_intervention : SagaStatus

pub data StepStatus : Type 0 where
  pending in_progress completed failed compensated : StepStatus

-- `SagaTransactionRecord`.
pub record SagaTransactionRecord : Type 0 where
  pub kind : Text
  pub status : SagaStatus
  pub current_step : ℕ
  pub payload : Text
  pub error : Text
  pub retry_count : ℕ
  pub updated_at : ℕ

pub record SagaStepRecord : Type 0 where
  pub id : ℕ
  pub step_number : ℕ
  pub step_name : Text
  pub status : StepStatus
  pub error_message : Text

-- The letter F or C, for a step or its compensator, with the step's number.
pub data Phase : Type 0 where
  forward_phase compensate_phase : ℕ → Phase

pub data Outcome : Type 0 where
  ok_outcome err_outcome : Outcome

pub record SagaAttemptRecord : Type 0 where
  pub phase : Phase
  pub outcome : Outcome
  pub error : Text

-- What a transaction of a step comes to.
pub data Result (A : Type 0) : Type 0 where
  ok : A → Result A
  err : Text → Result A

abbrev pub Tx : Type 0 → Type 0
Tx W = ℕ → W → Result W

pub record SagaStep (W : Type 0) : Type 0 where
  pub name : Text
  pub forward : Tx W
  pub compensate : Option (Tx W)

-- `SagaFaultConfig`, without the injected delays, which write nothing.
pub record SagaFaultConfig : Type 0 where
  pub force_fail_step : ℕ
  pub force_fail_after : Bool
  pub compensate_fail_step : ℕ
  pub compensate_fail_times : ℕ
  pub compensate_attempts : ℕ → ℕ

-- The rows of one saga, the business tables, and the run's fault configuration (`none` in
-- production). `now` is the time of the run. `write_fails n` says that the `n`-th of the writes to
-- the saga's rows whose error the code drops fails; `writes` counts them.
pub record State (W : Type 0) : Type 0 where
  pub world : W
  pub clock : ℕ
  pub now : ℕ
  pub saga : SagaTransactionRecord
  pub steps : List SagaStepRecord
  pub next_step_id : ℕ
  pub attempts : List SagaAttemptRecord
  pub faults : Option SagaFaultConfig
  pub write_fails : ℕ → Bool
  pub writes : ℕ
