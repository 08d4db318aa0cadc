-- ===== src/Saga/AtomicRun.antt =====
-- What a saga (exchange-service/internal/service/saga_orchestrator.go) does to the business tables:
-- all of its steps, or the compensations of those that ran.
use exbanka_3_backend.Prelude.{
  ℕ, ◌+◌, ◌≡◌, refl, sym, ap, ◌∙◌, inl, inr, Option, List, [], ◌∷◌, ◌++◌, Option-cases,
}
use exbanka_3_backend.Prelude.Text.{Text}
use exbanka_3_backend.Saga.Types.{State, SagaStep, SagaFaultConfig}
use exbanka_3_backend.Saga.Repository.{append_step}
use exbanka_3_backend.Saga.Orchestrator.{Entry}
use exbanka_3_backend.Saga.Undo.{steps_of}
use exbanka_3_backend.Saga.Types.{SagaStatus}
use exbanka_3_backend.Saga.Writes.{set_status_with_error-Says, set_status_with_error-world}
use exbanka_3_backend.Saga.Endings.{Ends}
use exbanka_3_backend.Saga.Atomicity.{run_entries-Ends}
use exbanka_3_backend.Saga.Run.{
  Inserts, Appended, appended, refused, append_steps, run_appended, create_transaction,
  run_with_faults,
}
use mathlib.Core.List.{append-nil, append_assoc}

module _ {W : Type 0} where
  steps_of-append : (xs ys : List (Entry W)) → steps_of (xs ++ ys) ≡ steps_of xs ++ steps_of ys
  steps_of-append [] ys = refl
  steps_of-append (x ∷ xs) ys = rw (steps_of-append xs ys)

  -- The step records of a run, when all are written, are those of its steps, in order.
  abbrev Recorded : W → List (SagaStep W) → Appended W × State W → Type 0
  Recorded w steps (appended recs, s) = (steps_of recs ≡ steps) × (s.world ≡ w)
  Recorded w steps (refused n msg, s) = s.world ≡ w

  append_steps-Recorded :
      (fails : ℕ → Option Text) (n : ℕ) (recs : List (Entry W)) (steps : List (SagaStep W))
      (s : State W)
      → Recorded s.world (steps_of recs ++ steps) (append_steps fails n recs steps s)
  unfolding append_steps append_step
  append_steps-Recorded fails n recs [] s = (sym (append-nil (steps_of recs)), refl)
  append_steps-Recorded fails n recs (st ∷ steps) s =
      let (id, s') = append_step n st.name s in
      let e : Entry W = record { number = n; step = st; rec_id = id } in
      elim (Option-cases (fails n)) [
        | inr (msg, k) ↦ rw (k, append_steps) refl
        | inl k ↦
            rw (k, append_steps)
              (rw
                (sym (append_assoc (steps_of recs) (st ∷ []) steps)
                  ∙ ap (λ x. x ++ steps) (sym (steps_of-append recs (e ∷ []))))
                (append_steps-Recorded fails (n + 1) (recs ++ e ∷ []) steps s'))
      ]

  run_appended-Ends :
      (w : W) (steps : List (SagaStep W)) (r : Appended W × State W)
      → Recorded w steps r
      → Ends w steps (run_appended r)
  run_appended-Ends w steps (appended recs, s) (same, at) =
      run_entries-Ends w steps recs [] s (sym same) at
  run_appended-Ends w steps (refused n msg, s) at = (
    set_status_with_error-Says SagaStatus.failed msg s,
    set_status_with_error-world SagaStatus.failed msg s ∙ at,
  )

  -- Whatever its forward actions and compensators come to, whatever faults are injected and
  -- whichever writes to its rows fail, a run of a saga ends in one of these ways. It reports success,
  -- and every step was committed once, in order. It reports that a step failed, and some first steps
  -- of the saga were committed once, in order, and then the compensators of these, where they have
  -- one, from the last to the first, each once; nothing else has changed the tables. It reports that
  -- a compensator was not recovered, and the same holds but that some of the compensators changed
  -- nothing. Or it failed before its first step, with the tables as they were. The status of its row is
  -- completed, rolled back, rolling back or failed accordingly, unless the last write failed.
  pub run_with_faults-Ends :
      (io : Inserts) (kind payload : Text) (steps : List (SagaStep W))
      (faults : Option SagaFaultConfig) (s : State W)
      → Ends s.world steps (run_with_faults io kind payload steps faults s)
  unfolding run_with_faults create_transaction
  run_with_faults-Ends io kind payload steps faults s = elim (Option-cases io.create_error) [
    | inr (msg, k) ↦ rw (k, run_with_faults) refl
    | inl k ↦
        rw (k, run_with_faults)
          (run_appended-Ends s.world steps (append_steps io.append_error 1 [] steps start)
            (append_steps-Recorded io.append_error 1 [] steps start))
  ]
    where
      start : State W
      start = create_transaction kind payload (record s { faults = faults })
