-- ===== src/Saga/Atomicity.antt =====
-- What a saga (exchange-service/internal/service/saga_orchestrator.go) does to the business tables:
-- all of its steps, or the compensations of those that ran.
use exbanka_3_backend.Prelude.{
  ℕ, ◌≡◌, refl, sym, ◌∙◌, inl, inr, Bool, true, false, not, ◌&&◌, Option, none, some, List, [], ◌∷◌,
  arith, if◌then◌else◌, Bool-cases, Option-cases,
}
use exbanka_3_backend.Prelude.Text.{Text}
use exbanka_3_backend.Saga.Types.{State, SagaStep, SagaStatus, ok, forward_phase}
use exbanka_3_backend.Saga.Repository.{
  set_status, mark_step_completed, mark_step_in_progress, set_current_step,
}
use exbanka_3_backend.Saga.Orchestrator.{
  RunError, Entry, run_tx, run_forward, should_fail_forward, force_fail_after, log_attempt,
  after_forward, forward_entry, roll_back, run_entries,
}
use exbanka_3_backend.Saga.Undo.{back_onto, Applied-Ran, Applied, steps_of, run_tx-ok, run_tx-err}
use exbanka_3_backend.Saga.Writes.{
  set_status-Says, set_status-world, mark_step_completed-world, mark_step_in_progress-world,
  set_current_step-world, log_attempt-world,
}
use exbanka_3_backend.Saga.Endings.{Ends, roll_back-Ends}

module _ {W : Type 0} where
  -- A round of the forward loop: the tables are as before, or the step has been applied.
  abbrev Stepped : Entry W → W → Bool × Option Text × State W → Type 0
  Stepped e w (true, some m, s) = (t : ℕ) × (e.step.forward t w ≡ ok s.world)
  Stepped e w (false, some m, s) = s.world ≡ w
  Stepped e w (applied, none, s) = (t : ℕ) × (e.step.forward t w ≡ ok s.world)

  after_forward-Stepped :
      (e : Entry W) (forced : Bool) (w : W) (r : Option Text × State W)
      → (r.0 ≡ none → (t : ℕ) × (e.step.forward t w ≡ ok r.1.world))
      → ((m : Text) → r.0 ≡ some m → r.1.world ≡ w)
      → Stepped e w (after_forward forced r)
  after_forward-Stepped e true w (none, s) done same = done refl
  after_forward-Stepped e false w (none, s) done same = done refl
  after_forward-Stepped e forced w (some m, s) done same = same m refl

  run_forward-Stepped :
      (e : Entry W) (s : State W) → Stepped e s.world (run_forward e.step e.number s)
  unfolding run_forward
  run_forward-Stepped e s =
      let forced = should_fail_forward s.faults e.number in
      let after = force_fail_after s.faults in
      elim (Bool-cases (forced && not after)) [
        | inl stop ↦ rw stop refl
        | inr go ↦ rw go (
            after_forward-Stepped e (forced && after) s.world (run_tx e.step.forward s)
              (λ h. (s.clock, run_tx-ok e.step.forward s h)) (λ m h. run_tx-err e.step.forward s h))
      ]

  logged-Stepped :
      (e : Entry W) (w : W) (r : Bool × Option Text × State W)
      → Stepped e w r
      → Stepped e w (r.0, r.1, log_attempt (forward_phase e.number) r.1 r.2)
  logged-Stepped e w (true, some m, s) h =
      rw (log_attempt-world (forward_phase e.number) (some m) s) h
  logged-Stepped e w (false, some m, s) h =
      log_attempt-world (forward_phase e.number) (some m) s ∙ h
  logged-Stepped e w (true, none, s) h = rw (log_attempt-world (forward_phase e.number) none s) h
  logged-Stepped e w (false, none, s) h = rw (log_attempt-world (forward_phase e.number) none s) h

  Stepped-at :
      (e : Entry W) (w w' : W) (r : Bool × Option Text × State W)
      → w ≡ w'
      → Stepped e w r
      → Stepped e w' r
  Stepped-at e w w' r same h = rw (sym same) h

  forward_entry-Stepped : (e : Entry W) (s : State W) → Stepped e s.world (forward_entry e s)
  unfolding forward_entry
  forward_entry-Stepped e s =
      let started = set_current_step e.number (mark_step_in_progress e.rec_id s) in
      let same : started.world ≡ s.world =
        set_current_step-world e.number (mark_step_in_progress e.rec_id s)
        ∙ mark_step_in_progress-world e.rec_id s in
      logged-Stepped e s.world (run_forward e.step e.number started) (
        Stepped-at e started.world s.world (run_forward e.step e.number started) same
          (run_forward-Stepped e started))

  failed-Applied :
      (w₀ : W) (e : Entry W) (done : List (Entry W)) (s : State W) (applied : Bool) (m : Text)
      (s' : State W)
      → Applied w₀ (steps_of done) s.world
      → Stepped e s.world (applied, some m, s')
      → Applied w₀ (steps_of (if applied then e ∷ done else done)) s'.world
  failed-Applied w₀ e done s true m s' ran (t, q) = (t, s.world, q, ran)
  failed-Applied w₀ e done s false m s' ran same = rw same ran

  abbrev continue_run :
      List (Entry W)
      → List (Entry W)
      → Entry W
      → Bool × Option Text × State W
      → Option RunError × State W
  continue_run todo done e (applied, some m, s') = roll_back e done applied m s'
  continue_run todo done e (applied, none, s') =
      run_entries todo (e ∷ done) (mark_step_completed e.rec_id s')

  run_entries-step :
      (e : Entry W) (todo done : List (Entry W)) (s : State W)
      → run_entries (e ∷ todo) done s ≡ continue_run todo done e (forward_entry e s)
  unfolding run_entries
  run_entries-step e todo done s = elim (Option-cases (forward_entry e s).1) [
    | inl k ↦ ground arith
    | inr (m, k) ↦ ground arith
  ]

  Stepped-ran :
      (e : Entry W) (w : W) (applied : Bool) (s : State W)
      → Stepped e w (applied, none, s)
      → (t : ℕ) × (e.step.forward t w ≡ ok s.world)
  Stepped-ran e w true s h = h
  Stepped-ran e w false s h = h

  -- The rest of a round, given how the rounds after it end.
  continue_run-Ends :
      (w₀ : W) (steps : List (SagaStep W)) (todo done : List (Entry W)) (e : Entry W) (s : State W)
      → steps ≡ back_onto (steps_of done) (e.step ∷ steps_of todo)
      → Applied w₀ (steps_of done) s.world
      → ((s' : State W)
          → Applied w₀ (e.step ∷ steps_of done) s'.world
          → Ends w₀ steps (run_entries todo (e ∷ done) s'))
      → (r : Bool × Option Text × State W) → Stepped e s.world r
      → Ends w₀ steps (continue_run todo done e r)
  continue_run-Ends w₀ steps todo done e s split ran next (applied, some m, s') stepped =
      roll_back-Ends w₀ steps e done todo applied m s' split
        (failed-Applied w₀ e done s applied m s' ran stepped)
  continue_run-Ends w₀ steps todo done e s split ran next (applied, none, s') stepped =
      let (t, q) = Stepped-ran e s.world applied s' stepped in
      let s'' = mark_step_completed e.rec_id s' in
      let q' : e.step.forward t s.world ≡ ok s''.world =
        rw (mark_step_completed-world e.rec_id s') q in
      next s'' (t, s.world, q', ran)

  run_entries-nil :
      (done : List (Entry W)) (s : State W)
      → run_entries [] done s ≡ (none, set_status SagaStatus.completed s)
  unfolding run_entries
  run_entries-nil done s = refl

  pub run_entries-Ends :
      (w₀ : W) (steps : List (SagaStep W)) (todo done : List (Entry W)) (s : State W)
      → steps ≡ back_onto (steps_of done) (steps_of todo)
      → Applied w₀ (steps_of done) s.world
      → Ends w₀ steps (run_entries todo done s)
  run_entries-Ends w₀ steps [] done s split ran = rw (run_entries-nil done s) (
    set_status-Says SagaStatus.completed s,
    rw (split, set_status-world SagaStatus.completed s)
        (Applied-Ran w₀ (steps_of done) [] s.world s.world ran refl),
  )
  run_entries-Ends w₀ steps (e ∷ todo) done s split ran = rw (run_entries-step e todo done s) (
      continue_run-Ends w₀ steps todo done e s split ran
        (λ s' applied. run_entries-Ends w₀ steps todo (e ∷ done) s' split applied)
        (forward_entry e s) (forward_entry-Stepped e s))
