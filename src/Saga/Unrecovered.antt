-- ===== src/Saga/Unrecovered.antt =====
-- A rollback some of whose compensators are not recovered (exchange-service/internal/service/
-- saga_orchestrator.go).
use exbanka_3_backend.Prelude.{
  ℕ, zero, suc, ◌≡◌, refl, sym, ap, ◌∙◌, ◌⊎◌, inl, inr, Option, none, some, List, [], ◌∷◌, arith,
  Option-cases,
}
use exbanka_3_backend.Prelude.Text.{Text}
use exbanka_3_backend.Saga.Types.{State, ok, Tx, compensate_phase}
use exbanka_3_backend.Saga.Writes.{log_attempt-world}
use exbanka_3_backend.Saga.Orchestrator.{
  Entry, run_compensation, log_attempt, attempt_compensation, compensate_entry, compensate_with,
  settle_compensation, compensate_backward,
}
use exbanka_3_backend.Saga.Writes.{mark_step_failed-world}
use exbanka_3_backend.Saga.Orchestrator.{compensation_prefix}
use exbanka_3_backend.Prelude.{◌++◌}
use exbanka_3_backend.Saga.Undo.{
  TookBack, PartlyUndone, steps_of, attempt-committed, attempt-refused, attempt-exhausted,
  attempt-ok, run_compensation-err,
}

module _ {W : Type 0} where
  -- A compensator that is not recovered has changed nothing.
  attempt-failed :
      (left : ℕ) (c : Tx W) (e : Entry W) (last : Option Text) (s : State W) (m : Text)
      → (attempt_compensation left c e last s).0 ≡ some m
      → (attempt_compensation left c e last s).1.world ≡ s.world
  attempt-failed zero c e last s m h = ap (λ r. r.1.world) (attempt-exhausted c e last s)
  attempt-failed (suc left) c e last s m h = elim (Option-cases (run_compensation c e.number s).0) [
    | inl k ↦ absurd (let bad = sym (ap (λ r. r.0) (attempt-committed left c e last s k)) ∙ h in cc)
    | inr (n, k) ↦
        let s' =
          log_attempt (compensate_phase e.number) (some n) (run_compensation c e.number s).1 in
        let refused = attempt-refused left c e last s k in
        ap (λ r. r.1.world) refused
        ∙ attempt-failed left c e (some n) s' m (sym (ap (λ r. r.0) refused) ∙ h)
        ∙ log_attempt-world (compensate_phase e.number) (some n) (run_compensation c e.number s).1
        ∙ run_compensation-err c e.number s k
  ]

  settle_compensation-world :
      (e : Entry W) (first : Option Text) (r : Option Text × State W)
      → (settle_compensation e first r).1.world ≡ r.1.world
  settle_compensation-world e first (none, s) = refl
  settle_compensation-world e first (some m, s) =
      mark_step_failed-world e.rec_id (compensation_prefix ++ m) s

  compensate_with-partly :
      (oc : Option (Tx W)) (e : Entry W) (first : Option Text) (s : State W)
      → TookBack oc s.world (compensate_with oc e first s).1.world
        ⊎ ((compensate_with oc e first s).1.world ≡ s.world)
  unfolding compensate_with
  compensate_with-partly none e first s = inr refl
  compensate_with-partly (some c) e first s =
      let tried = attempt_compensation 3 c e none s in
      let same = settle_compensation-world e first tried in
      elim (Option-cases tried.0) [
        | inl k ↦
            let (t, q) = attempt-ok 3 c e none s k (inr (omega arith)) in
            inl (t, q ∙ ap ok (sym same))
        | inr (m, k) ↦ inr (same ∙ attempt-failed 3 c e none s m k)
      ]

  pub compensate_backward-partly :
      (done : List (Entry W)) (first : Option Text) (s : State W)
      → PartlyUndone (steps_of done) s.world (compensate_backward done first s).1.world
  unfolding compensate_backward compensate_entry
  compensate_backward-partly [] first s = refl
  compensate_backward-partly (e ∷ done) first s =
      let (first', s') = compensate_entry e first s in
      (
        s'.world,
        compensate_with-partly e.step.compensate e first s,
        compensate_backward-partly done first' s',
      )
