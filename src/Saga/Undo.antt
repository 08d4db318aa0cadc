-- ===== src/Saga/Undo.antt =====
-- What a saga (exchange-service/internal/service/saga_orchestrator.go) does to the business tables:
-- all of its steps, or the compensations of those that ran.
use exbanka_3_backend.Prelude.{
  ℕ, zero, suc, ◌<◌, ◌≡◌, ◌≢◌, refl, sym, ap, ◌∙◌, ◌⊎◌, inl, inr, Option, none, some, List, [], ◌∷◌,
  arith, Option-cases,
}
use exbanka_3_backend.Prelude.Text.{Text}
use exbanka_3_backend.Saga.Types.{State, SagaStep, ok, Tx, compensate_phase}
use exbanka_3_backend.Saga.Repository.{mark_step_compensated}
use exbanka_3_backend.Saga.Writes.{log_attempt-world, mark_step_compensated-world}
use exbanka_3_backend.Saga.Orchestrator.{
  Entry, run_tx, run_compensation, log_attempt, attempt_compensation, compensate_entry,
  compensate_with, settle_compensation, compensate_backward,
}

module _ {W : Type 0} where
  -- The compensator of a step committed, from `w` to `v`; a step without one is left out.
  abbrev pub TookBack : Option (Tx W) → W → W → Type 0
  TookBack none w v = v ≡ w
  TookBack (some c) w v = (t : ℕ) × (c t w ≡ ok v)

  -- The compensators of the steps, in this order, each committed once, from `w` to `v`.
  abbrev pub Undone : List (SagaStep W) → W → W → Type 0
  Undone [] w v = v ≡ w
  Undone (st ∷ rest) w v = (m : W) × TookBack st.compensate w m × Undone rest m v

  -- The same, but that some of the compensators changed nothing.
  abbrev pub PartlyUndone : List (SagaStep W) → W → W → Type 0
  PartlyUndone [] w v = v ≡ w
  PartlyUndone (st ∷ rest) w v =
      (m : W) × (TookBack st.compensate w m ⊎ (m ≡ w)) × PartlyUndone rest m v

  -- The forward transactions of the steps, in order, each run once and committed, from `w` to `v`.
  abbrev pub Ran : List (SagaStep W) → W → W → Type 0
  Ran [] w v = v ≡ w
  Ran (st ∷ rest) w v = (t : ℕ) × (w' : W) × (st.forward t w ≡ ok w') × Ran rest w' v

  -- The same from the last step backward: `done` has the latest step first.
  abbrev pub Applied : W → List (SagaStep W) → W → Type 0
  Applied w₀ [] v = v ≡ w₀
  Applied w₀ (st ∷ done) v = (t : ℕ) × (w : W) × (st.forward t w ≡ ok v) × Applied w₀ done w

  -- The steps that ran, the latest first, put back before the rest.
  abbrev pub back_onto : List (SagaStep W) → List (SagaStep W) → List (SagaStep W)
  back_onto [] rest = rest
  back_onto (st ∷ done) rest = back_onto done (st ∷ rest)

  pub Applied-Ran :
      (w₀ : W) (done rest : List (SagaStep W)) (v u : W)
      → Applied w₀ done v
      → Ran rest v u
      → Ran (back_onto done rest) w₀ u
  Applied-Ran w₀ [] rest v u same ran = rw (sym same) ran
  Applied-Ran w₀ (st ∷ done) rest v u (t, w, q, before) ran =
      Applied-Ran w₀ done (st ∷ rest) w u before (t, v, q, ran)

  abbrev pub steps_of : List (Entry W) → List (SagaStep W)
  steps_of [] = []
  steps_of (e ∷ es) = e.step ∷ steps_of es

  pub run_tx-ok :
      (t : Tx W) (s : State W) → (run_tx t s).0 ≡ none → t s.clock s.world ≡ ok (run_tx t s).1.world
  unfolding run_tx
  run_tx-ok t s h = ground arith

  pub run_tx-err :
      (t : Tx W) (s : State W) {e : Text} → (run_tx t s).0 ≡ some e → (run_tx t s).1.world ≡ s.world
  unfolding run_tx
  run_tx-err t s h = ground arith

  pub run_compensation-ok :
      (c : Tx W) (n : ℕ) (s : State W)
      → (run_compensation c n s).0 ≡ none
      → c s.clock s.world ≡ ok (run_compensation c n s).1.world
  unfolding run_compensation
  run_compensation-ok c n s h = ground arith

  pub run_compensation-err :
      (c : Tx W) (n : ℕ) (s : State W) {e : Text}
      → (run_compensation c n s).0 ≡ some e
      → (run_compensation c n s).1.world ≡ s.world
  unfolding run_compensation
  run_compensation-err c n s h = ground arith

  -- One attempt at a compensator: it commits, or the next one is made.
  pub attempt-committed :
      (left : ℕ) (c : Tx W) (e : Entry W) (last : Option Text) (s : State W)
      → (run_compensation c e.number s).0 ≡ none
      → attempt_compensation (suc left) c e last s ≡ (
        none,
        mark_step_compensated e.rec_id
            (log_attempt (compensate_phase e.number) none (run_compensation c e.number s).1),
      )
  unfolding attempt_compensation
  attempt-committed left c e last s k = ground arith

  pub attempt-refused :
      (left : ℕ) (c : Tx W) (e : Entry W) (last : Option Text) (s : State W) {m : Text}
      → (run_compensation c e.number s).0 ≡ some m
      → attempt_compensation (suc left) c e last s
        ≡ attempt_compensation left c e
            (some m)
            (log_attempt (compensate_phase e.number) (some m) (run_compensation c e.number s).1)
  unfolding attempt_compensation
  attempt-refused left c e last s k = ground arith

  pub attempt-exhausted :
      (c : Tx W) (e : Entry W) (last : Option Text) (s : State W)
      → attempt_compensation zero c e last s ≡ (last, s)
  unfolding attempt_compensation
  attempt-exhausted c e last s = refl

  -- With an attempt left, no error means that one of the attempts committed.
  pub attempt-ok :
      (left : ℕ) (c : Tx W) (e : Entry W) (last : Option Text) (s : State W)
      → (attempt_compensation left c e last s).0 ≡ none
      → last ≢ none ⊎ 0 < left
      → (t : ℕ) × (c t s.world ≡ ok (attempt_compensation left c e last s).1.world)
  attempt-ok zero c e last s h some_left = ground (arith, attempt-exhausted c e last s)
  attempt-ok (suc left) c e last s h some_left =
      elim (Option-cases (run_compensation c e.number s).0) [
        | inl k ↦ (
          s.clock,
          rw (attempt-committed left c e last s k) (
              run_compensation-ok c e.number s k
              ∙ cc (
                mark_step_compensated-world e.rec_id (
                    log_attempt (compensate_phase e.number) none (run_compensation c e.number s).1),
                log_attempt-world (compensate_phase e.number) none
                    (run_compensation c e.number s).1,
              )),
        )
        | inr (m, k) ↦
            let s' =
              log_attempt (compensate_phase e.number) (some m) (run_compensation c e.number s).1 in
            let (t, q) =
              attempt-ok left c e (some m) s' (rw (attempt-refused left c e last s k) at h)
                (inl (λ x. cc)) in
            (
              t,
              cc (
                attempt-refused left c e last s k,
                log_attempt-world (compensate_phase e.number) (some m)
                    (run_compensation c e.number s).1,
                run_compensation-err c e.number s k,
              ),
            )
      ]

  settle_compensation-ok :
      (e : Entry W) (first : Option Text) (r : Option Text × State W)
      → (settle_compensation e first r).0 ≡ none
      → (first ≡ none) × (r.0 ≡ none) × ((settle_compensation e first r).1.world ≡ r.1.world)
  settle_compensation-ok e first (none, s) h = (h, refl, refl)
  settle_compensation-ok e none (some m, s) h = cc
  settle_compensation-ok e (some f) (some m, s) h = cc

  -- A round that leaves no error had none before, and has taken the step back.
  compensate_with-ok :
      (oc : Option (Tx W)) (e : Entry W) (first : Option Text) (s : State W)
      → (compensate_with oc e first s).0 ≡ none
      → TookBack oc s.world (compensate_with oc e first s).1.world
  unfolding compensate_with
  compensate_with-ok none e first s h = refl
  compensate_with-ok (some c) e first s h =
      let tried = attempt_compensation 3 c e none s in
      let (no_error, committed, same) = settle_compensation-ok e first tried h in
      let (t, q) = attempt-ok 3 c e none s committed (inr (omega arith)) in
      (t, q ∙ ap ok (sym same))

  compensate_entry-ok :
      (e : Entry W) (first : Option Text) (s : State W)
      → (compensate_entry e first s).0 ≡ none
      → TookBack e.step.compensate s.world (compensate_entry e first s).1.world
  unfolding compensate_entry
  compensate_entry-ok e first s h = compensate_with-ok e.step.compensate e first s h

  compensate_with-keeps :
      (oc : Option (Tx W)) (e : Entry W) (first : Option Text) (s : State W)
      → (compensate_with oc e first s).0 ≡ none
      → first ≡ none
  unfolding compensate_with
  compensate_with-keeps none e first s h = h
  compensate_with-keeps (some c) e first s h =
      (settle_compensation-ok e first (attempt_compensation 3 c e none s) h).0

  -- The first error of a rollback is never forgotten.
  pub compensate_backward-keeps :
      (done : List (Entry W)) (first : Option Text) (s : State W)
      → (compensate_backward done first s).0 ≡ none
      → first ≡ none
  unfolding compensate_backward compensate_entry
  compensate_backward-keeps [] first s h = h
  compensate_backward-keeps (e ∷ done) first s h =
      let (first', s') = compensate_entry e first s in
      compensate_with-keeps e.step.compensate e first s (compensate_backward-keeps done first' s' h)

  -- A rollback that leaves no error has taken back each of its steps, once and in its order.
  pub compensate_backward-ok :
      (done : List (Entry W)) (first : Option Text) (s : State W)
      → (compensate_backward done first s).0 ≡ none
      → Undone (steps_of done) s.world (compensate_backward done first s).1.world
  unfolding compensate_backward
  compensate_backward-ok [] first s h = refl
  compensate_backward-ok (e ∷ done) first s h =
      let (first', s') = compensate_entry e first s in
      (
        s'.world,
        compensate_entry-ok e first s (compensate_backward-keeps done first' s' h),
        compensate_backward-ok done first' s' h,
      )
