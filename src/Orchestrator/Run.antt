-- ===== src/Orchestrator/Run.antt =====
-- The loop of `run_to_phase`: where it stops, and what it records.
use rice_factor.Prelude.{
  ◌+◌, ◌≡◌, refl, ◌∙◌, String, Bool, true, false, not, ◌&&◌, ◌||◌, some, List, [], ◌∷◌, arith, take,
  length, any, is_empty, Bool-cases, Option-cases, inl, inr, ◌⊎◌,
}
use rice_factor.Prelude.Eq.{text_eq}
use rice_factor.Prelude.Dict.{Dict, get}
use rice_factor.Orchestrator.Phases.{
  LifecyclePhase, lifecycle_phase_eq, phase_order, is_completed, is_failed, PhaseResult,
}
use rice_factor.Orchestrator.Files.{OrchestratorState, phase_value}
use rice_factor.Orchestrator.Service.{
  Orchestrator, index_in, begin, execute_from, completed_result, run_phases, run_to_phase,
}

-- No result but the last has failed.
abbrev pub stops_at_failure : List PhaseResult → Bool
stops_at_failure [] = true
stops_at_failure (r ∷ rs) = is_empty rs || not (is_failed r.status) && stops_at_failure rs

abbrev pub any_failed : List PhaseResult → Bool
any_failed rs = any (λ r. is_failed r.status) rs

module _ {V : Type 0} where
  pub completed_result-status :
      (p : LifecyclePhase) (s : OrchestratorState V) (r : PhaseResult)
      → completed_result p s ≡ some r
      → (get (phase_value p) s.phase_results ≡ some r) × (is_completed r.status ≡ true)
  unfolding completed_result
  completed_result-status p s r h = ground arith

module _ {V W : Type 0} where
  run_phases-stops :
      (ps : List LifecyclePhase) (c : Dict String V) (s : OrchestratorState V)
      (o : Orchestrator V W)
      → (stops_at_failure (run_phases ps c s o).0 ≡ true)
        × (any_failed (run_phases ps c s o).0 ≡ false → length (run_phases ps c s o).0 ≡ length ps)
  unfolding run_phases
  run_phases-stops [] c s o = (refl, λ h. refl)
  run_phases-stops (p ∷ ps) c s o = elim (Option-cases (completed_result p s)) [
    | inr (r, found) ↦
        rw (found, run_phases)
          (ground (arith, completed_result-status p s r, run_phases-stops ps c s o))
    | inl missing ↦ elim (Bool-cases (is_failed (execute_from p c s o).0.status)) [
      | inl fails ↦ rw (missing, fails, run_phases) (ground arith)
      | inr goes_on ↦
          rw (missing, goes_on, run_phases)
            (ground
              (arith, run_phases-stops ps c (execute_from p c s o).1 (execute_from p c s o).2))
    ]
  ]

pub length-take_order :
    (target : LifecyclePhase)
    → length (take (index_in target phase_order + 1) phase_order) ≡ index_in target phase_order + 1
unfolding index_in
length-take_order target = ground arith

module _ {V W : Type 0} where
  -- Running to a phase stops at the first failure: no result but the last has failed; and where none
  -- has failed, there is one for each phase up to the target.
  pub run_to_phase-stops :
      (target : LifecyclePhase) (c : Dict String V) (o : Orchestrator V W)
      → let rs = (run_to_phase target c o).0 in
        (stops_at_failure rs ≡ true)
        × ((any_failed rs ≡ true) ⊎ (length rs ≡ index_in target phase_order + 1))
  unfolding run_to_phase
  run_to_phase-stops target c o =
      let b = begin c o in
      let ps = take (index_in target phase_order + 1) phase_order in
      let (stops, whole) = run_phases-stops ps c b.0 b.1 in
      (
        stops,
        elim (Bool-cases (any_failed (run_phases ps c b.0 b.1).0)) [
          | inl fails ↦ inl fails
          | inr none_fails ↦ inr (whole none_fails ∙ length-take_order target)
        ],
      )
