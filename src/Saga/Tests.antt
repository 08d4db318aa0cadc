-- ===== src/Saga/Tests.antt =====
-- A saga of two steps on a single balance: runs of it, and the theorems at these inputs.
use exbanka_3_backend.Prelude.{
  ℕ, Bool, false, ◌%◌, ◌==◌, ◌+◌, ◌-◌, refl, none, some, List, [], ◌∷◌, arith,
}
use exbanka_3_backend.Prelude.Text.{Text, codes}
use exbanka_3_backend.Saga.Types.{State, Result, SagaStep, SagaStatus, StepStatus, ok, err, Tx}
use exbanka_3_backend.Saga.Run.{Inserts, run_with_faults}
use exbanka_3_backend.Saga.Endings.{Ends}
use exbanka_3_backend.Saga.AtomicRun.{run_with_faults-Ends}
use exbanka_3_backend.Saga.RetryLaws.{ticks, IsSettled, Settles, ticks-IsSettled}
use exbanka_3_backend.Saga.Retry.{saga_type_otc_exercise}

abbrev put : Tx ℕ
put t w = ok (w + 5)

abbrev take_back : Tx ℕ
take_back t w = ok (w - 5)

abbrev refuse : Tx ℕ
refuse t w = err (codes "refused")

abbrev pay : SagaStep ℕ
pay = record { name = codes "pay"; forward = put; compensate = some take_back }

abbrev deliver : SagaStep ℕ
deliver = record { name = codes "deliver"; forward = refuse; compensate = none }

abbrev plan : List (SagaStep ℕ)
plan = pay ∷ deliver ∷ []

abbrev all_inserted : Inserts
all_inserted = record { create_error = none; append_error = λ n. none }

abbrev idle : State ℕ
idle = record {
  world = 10;
  clock = 0;
  now = 1000;
  saga = record {
    kind = [];
    status = SagaStatus.in_progress;
    current_step = 0;
    payload = [];
    error = [];
    retry_count = 0;
    updated_at = 0;
  };
  steps = [];
  next_step_id = 1;
  attempts = [];
  faults = none;
  write_fails = λ n. false;
  writes = 0;
}

-- The first write to the saga's rows fails, and each later third one.
abbrev some_lost : ℕ → Bool
some_lost n = n % 3 == 0

run_with_faults-Ends_example :
    Ends 10 plan
      (run_with_faults all_inserted [] [] plan none (record idle { write_fails = some_lost }))
run_with_faults-Ends_example =
    run_with_faults-Ends all_inserted [] [] plan none (record idle { write_fails = some_lost })

-- A compensator that never commits.
abbrev stuck_step : SagaStep ℕ
stuck_step = record { name = codes "pay"; forward = put; compensate = some refuse }

abbrev stuck : State ℕ
stuck = record idle {
  saga = record {
    kind = saga_type_otc_exercise;
    status = SagaStatus.rolling_back;
    current_step = 2;
    payload = [];
    error = [];
    retry_count = 1;
    updated_at = 0;
  };
  steps =
      record {
        id = 1;
        step_number = 1;
        step_name = codes "pay";
        status = StepStatus.completed;
        error_message = [];
      }
      ∷ [];
}

abbrev payload_plan : Text → Result (List (SagaStep ℕ))
payload_plan payload = ok (stuck_step ∷ [])

ticks-IsSettled_example :
    IsSettled (ticks payload_plan (301 ∷ 602 ∷ []) stuck).saga
    × Settles payload_plan (301 ∷ 602 ∷ []) stuck
ticks-IsSettled_example =
    ticks-IsSettled payload_plan (301 ∷ 602 ∷ []) stuck refl (omega arith) (omega arith)
      (omega arith) (λ n. refl)
