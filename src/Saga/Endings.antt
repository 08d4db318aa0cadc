-- ===== src/Saga/Endings.antt =====
-- How a run of a saga may end, and that a rollback (exchange-service/internal/service/
-- saga_orchestrator.go) ends so.
use exbanka_3_backend.Prelude.{
  ◌≡◌, refl, ◌∙◌, Bool, true, false, Option, none, some, List, [], ◌∷◌, if◌then◌else◌,
}
use exbanka_3_backend.Prelude.Text.{Text}
use exbanka_3_backend.Saga.Types.{State, SagaStep, SagaStatus}
use exbanka_3_backend.Saga.Repository.{set_status_with_error, mark_step_failed}
use exbanka_3_backend.Saga.Orchestrator.{
  RunError, step_failed, compensation_error, create_failed, append_failed, Entry, finish_rollback,
  roll_back,
}
use exbanka_3_backend.Saga.Unrecovered.{compensate_backward-partly}
use exbanka_3_backend.Saga.Undo.{
  PartlyUndone, Undone, back_onto, Applied-Ran, Ran, Applied, steps_of, compensate_backward-ok,
}
use exbanka_3_backend.Saga.Orchestrator.{compensate_backward}
use exbanka_3_backend.Saga.Writes.{
  Says, set_status-Says, set_status_with_error-Says, set_status-world, set_status_with_error-world,
  mark_step_failed-world,
}

module _ {W : Type 0} where
  -- How a run of the saga `steps` may end that began at the tables `w₀`. When it is rolled back, the
  -- steps up to some one were committed, to the tables `v`, and taken back from there.
  abbrev pub Ends : W → List (SagaStep W) → Option RunError × State W → Type 0
  Ends w₀ steps (none, s) = Says SagaStatus.completed s × Ran steps w₀ s.world
  Ends w₀ steps (some (step_failed name cause), s) =
      Says SagaStatus.rolled_back s
      × ((undone : List (SagaStep W)) × (rest : List (SagaStep W)) × (v : W) × (steps
            ≡ back_onto undone rest)
          × Ran (back_onto undone []) w₀ v
          × Undone undone v s.world)
  Ends w₀ steps (some (compensation_error name cause comp), s) =
      Says SagaStatus.rolling_back s
      × ((undone : List (SagaStep W)) × (rest : List (SagaStep W)) × (v : W) × (steps
            ≡ back_onto undone rest)
          × Ran (back_onto undone []) w₀ v
          × PartlyUndone undone v s.world)
  Ends w₀ steps (some (append_failed n msg), s) = Says SagaStatus.failed s × (s.world ≡ w₀)
  Ends w₀ steps (some (create_failed msg), s) = s.world ≡ w₀

  finish_rollback-Ends :
      (w₀ : W) (steps undone rest : List (SagaStep W)) (v : W) (name cause : Text)
      (r : Option Text × State W)
      → steps ≡ back_onto undone rest
      → Applied w₀ undone v
      → (r.0 ≡ none → Undone undone v r.1.world)
      → PartlyUndone undone v r.1.world
      → Ends w₀ steps (finish_rollback name cause r)
  finish_rollback-Ends w₀ steps undone rest v name cause (none, s) split ran back partly = (
    set_status-Says SagaStatus.rolled_back s,
    (
      undone,
      rest,
      v,
      split,
      Applied-Ran w₀ undone [] v v ran refl,
      rw (set_status-world SagaStatus.rolled_back s) (back refl),
    ),
  )
  finish_rollback-Ends w₀ steps undone rest v name cause (some c, s) split ran back partly = (
    set_status_with_error-Says SagaStatus.rolling_back c s,
    (
      undone,
      rest,
      v,
      split,
      Applied-Ran w₀ undone [] v v ran refl,
      rw (set_status_with_error-world SagaStatus.rolling_back c s) partly,
    ),
  )

  rolling-world :
      (e : Entry W) (cause : Text) (s : State W)
      → (set_status_with_error SagaStatus.rolling_back cause
          (mark_step_failed e.rec_id cause s)).world
        ≡ s.world
  rolling-world e cause s =
      set_status_with_error-world SagaStatus.rolling_back cause (mark_step_failed e.rec_id cause s)
      ∙ mark_step_failed-world e.rec_id cause s

  -- The steps to take back are those that ran, with this one if its side effects stand.
  rolled_back_from :
      (w₀ : W) (steps : List (SagaStep W)) (e : Entry W) (undone : List (Entry W))
      (rest : List (SagaStep W)) (cause : Text) (s : State W)
      → steps ≡ back_onto (steps_of undone) rest
      → Applied w₀ (steps_of undone) s.world
      → Ends w₀ steps (
          finish_rollback e.step.name cause (
            compensate_backward undone none (
              set_status_with_error SagaStatus.rolling_back cause
                (mark_step_failed e.rec_id cause s))))
  rolled_back_from w₀ steps e undone rest cause s split ran =
      let rolling =
        set_status_with_error SagaStatus.rolling_back cause (mark_step_failed e.rec_id cause s) in
      finish_rollback-Ends w₀ steps (steps_of undone) rest rolling.world e.step.name cause
        (compensate_backward undone none rolling) split (rw (rolling-world e cause s) ran)
        (compensate_backward-ok undone none rolling)
        (compensate_backward-partly undone none rolling)

  pub roll_back-Ends :
      (w₀ : W) (steps : List (SagaStep W)) (e : Entry W) (done todo : List (Entry W))
      (applied : Bool) (cause : Text) (s : State W)
      → steps ≡ back_onto (steps_of done) (e.step ∷ steps_of todo)
      → Applied w₀ (steps_of (if applied then e ∷ done else done)) s.world
      → Ends w₀ steps (roll_back e done applied cause s)
  unfolding roll_back
  roll_back-Ends w₀ steps e done todo true cause s split ran =
      rolled_back_from w₀ steps e (e ∷ done) (steps_of todo) cause s split ran
  roll_back-Ends w₀ steps e done todo false cause s split ran =
      rolled_back_from w₀ steps e done (e.step ∷ steps_of todo) cause s split ran
