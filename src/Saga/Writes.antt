-- ===== src/Saga/Writes.antt =====
-- The writes of SagaRepository (exchange-service/internal/repository/saga_repository.go) leave the
-- business tables, and a status that is written last is there unless its write failed.
use exbanka_3_backend.Prelude.{
  ℕ, ◌+◌, ◌≡◌, refl, ◌⊎◌, inl, inr, true, Bool-cases, Option, none, some, arith,
}
use exbanka_3_backend.Prelude.Text.{Text}
use exbanka_3_backend.Saga.Types.{State, SagaStatus, Phase}
use exbanka_3_backend.Saga.Repository.{
  update_step, mark_step_in_progress, mark_step_completed, mark_step_failed, mark_step_compensated,
  set_current_step, set_status, set_status_with_error, append_attempt,
}
use exbanka_3_backend.Saga.Orchestrator.{log_attempt}

module _ {W : Type 0} where
  pub mark_step_in_progress-world :
      (id : ℕ) (s : State W) → (mark_step_in_progress id s).world ≡ s.world
  unfolding mark_step_in_progress update_step
  mark_step_in_progress-world id s = ground arith

  pub mark_step_completed-world :
      (id : ℕ) (s : State W) → (mark_step_completed id s).world ≡ s.world
  unfolding mark_step_completed update_step
  mark_step_completed-world id s = ground arith

  pub mark_step_failed-world :
      (id : ℕ) (m : Text) (s : State W) → (mark_step_failed id m s).world ≡ s.world
  unfolding mark_step_failed update_step
  mark_step_failed-world id m s = ground arith

  pub mark_step_compensated-world :
      (id : ℕ) (s : State W) → (mark_step_compensated id s).world ≡ s.world
  unfolding mark_step_compensated update_step
  mark_step_compensated-world id s = ground arith

  pub set_current_step-world : (n : ℕ) (s : State W) → (set_current_step n s).world ≡ s.world
  unfolding set_current_step
  set_current_step-world n s = ground arith

  pub set_status-world : (st : SagaStatus) (s : State W) → (set_status st s).world ≡ s.world
  unfolding set_status
  set_status-world st s = ground arith

  pub set_status_with_error-world :
      (st : SagaStatus) (m : Text) (s : State W) → (set_status_with_error st m s).world ≡ s.world
  unfolding set_status_with_error
  set_status_with_error-world st m s = ground arith

  pub log_attempt-world :
      (p : Phase) (c : Option Text) (s : State W) → (log_attempt p c s).world ≡ s.world
  unfolding log_attempt append_attempt
  log_attempt-world p none s = ground arith
  log_attempt-world p (some e) s = ground arith

  -- The saga's row has this status, or the last of the writes to the saga's rows failed.
  abbrev pub Says : SagaStatus → State W → Type 0
  Says st s = (s.saga.status ≡ st) ⊎ ((n : ℕ) × (s.writes ≡ n + 1) × (s.write_fails n ≡ true))

  pub set_status-Says : (st : SagaStatus) (s : State W) → Says st (set_status st s)
  unfolding set_status
  set_status-Says st s = elim (Bool-cases (s.write_fails s.writes)) [
    | inl fails ↦ rw fails (inr (s.writes, refl, fails))
    | inr fine ↦ rw fine (inl refl)
  ]

  pub set_status_with_error-Says :
      (st : SagaStatus) (m : Text) (s : State W) → Says st (set_status_with_error st m s)
  unfolding set_status_with_error
  set_status_with_error-Says st m s = elim (Bool-cases (s.write_fails s.writes)) [
    | inl fails ↦ rw fails (inr (s.writes, refl, fails))
    | inr fine ↦ rw fine (inl refl)
  ]
