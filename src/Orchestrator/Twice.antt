-- ===== src/Orchestrator/Twice.antt =====
-- A run to a phase that has been completed is not done again.
use rice_factor.Prelude.{
  ◌+◌, ◌≡◌, refl, ap, ◌∙◌, String, Bool, true, false, not, ◌&&◌, some, List, [], ◌∷◌, arith, take,
  all, if◌then◌else◌, Bool-cases, Option-cases, inl, inr,
}
use rice_factor.Prelude.Eq.{◌==◌, ==_refl, contains, text_eq, same_of_inj}
use rice_factor.Prelude.Dict.{Dict, get, get-put}
use rice_factor.Orchestrator.Phases.{
  LifecyclePhase, lifecycle_phase_eq, phase_order, is_completed, is_failed, PhaseResult,
}
use rice_factor.Orchestrator.Files.{OrchestratorState, phase_value, phase_of, phase_of-phase_value}
use rice_factor.Orchestrator.Service.{
  Orchestrator, save_state, start, index_in, begin, execute_from, completed_result, run_phases,
  run_to_phase,
}
use rice_factor.Orchestrator.Run.{completed_result-status}

abbrev pub all_completed : List PhaseResult → Bool
all_completed rs = all (λ r. is_completed r.status) rs

abbrev distinct : List LifecyclePhase → Bool
distinct [] = true
distinct (p ∷ ps) = not (contains p ps) && distinct ps

distinct-take_order :
    (target : LifecyclePhase) → distinct (take (index_in target phase_order + 1) phase_order) ≡ true
unfolding index_in
distinct-take_order target = ground arith

phase_value-inj : (p q : LifecyclePhase) → phase_value p ≡ phase_value q → p ≡ q
phase_value-inj p q e =
    let read : phase_of (phase_value p) ≡ phase_of (phase_value q) = ap phase_of e in
    cc (read, phase_of-phase_value p, phase_of-phase_value q)

module _ {V W : Type 0} where
  pub execute_from-result :
      (p q : LifecyclePhase) (c : Dict String V) (s : OrchestratorState V) (o : Orchestrator V W)
      → get (phase_value q) (execute_from p c s o).1.phase_results
        ≡ (if p == q then some (execute_from p c s o).0 else get (phase_value q) s.phase_results)
  unfolding execute_from
  execute_from-result p q c s o =
      rw (← same_of_inj phase_value p q (phase_value-inj p q))
        (get-put (phase_value p) (phase_value q) (execute_from p c s o).0 s.phase_results)

  pub execute_from-state :
      (p : LifecyclePhase) (c : Dict String V) (s : OrchestratorState V) (o : Orchestrator V W)
      → (execute_from p c s o).2.state ≡ some (execute_from p c s o).1
  unfolding execute_from save_state
  execute_from-state p c s o = refl

  run_phases-other :
      (q : LifecyclePhase) (ps : List LifecyclePhase) (c : Dict String V) (s : OrchestratorState V)
      (o : Orchestrator V W)
      → contains q ps ≡ false
      → get (phase_value q) (run_phases ps c s o).1.phase_results
        ≡ get (phase_value q) s.phase_results
  unfolding run_phases
  run_phases-other q [] c s o h = refl
  run_phases-other q (p ∷ ps) c s o h =
      let e = execute_from p c s o in
      elim (Option-cases (completed_result p s)) [
        | inr (r, found) ↦ rw (found, run_phases) (run_phases-other q ps c s o (ground arith))
        | inl missing ↦ elim (Bool-cases (is_failed e.0.status)) [
          | inl fails ↦
              rw (missing, fails, run_phases) (ground (arith, execute_from-result p q c s o))
          | inr goes_on ↦
              rw (missing, goes_on, run_phases)
                (run_phases-other q ps c e.1 e.2 (ground arith)
                  ∙ ground (arith, execute_from-result p q c s o))
        ]
      ]

  run_phases-state :
      (ps : List LifecyclePhase) (c : Dict String V) (s : OrchestratorState V)
      (o : Orchestrator V W)
      → o.state ≡ some s
      → (run_phases ps c s o).2.state ≡ some (run_phases ps c s o).1
  unfolding run_phases
  run_phases-state [] c s o h = h
  run_phases-state (p ∷ ps) c s o h =
      let e = execute_from p c s o in
      elim (Option-cases (completed_result p s)) [
        | inr (r, found) ↦ rw (found, run_phases) (run_phases-state ps c s o h)
        | inl missing ↦ elim (Bool-cases (is_failed e.0.status)) [
          | inl fails ↦ rw (missing, fails, run_phases) (execute_from-state p c s o)
          | inr goes_on ↦
              rw (missing, goes_on, run_phases)
                (run_phases-state ps c e.1 e.2 (execute_from-state p c s o))
        ]
      ]

-- Each phase of the list has its result recorded, and is completed.
unfoldable Recorded :
    {V : Type 0} → List LifecyclePhase → List PhaseResult → OrchestratorState V → Type 0
Recorded [] [] s = Unit
Recorded [] (r ∷ rs) s = ⊥
Recorded (p ∷ ps) [] s = ⊥
Recorded (p ∷ ps) (r ∷ rs) s =
    (get (phase_value p) s.phase_results ≡ some r)
    × (is_completed r.status ≡ true)
    × Recorded ps rs s

module _ {V W : Type 0} where
  run_phases-Recorded :
      (ps : List LifecyclePhase) (c : Dict String V) (s : OrchestratorState V)
      (o : Orchestrator V W)
      → distinct ps ≡ true
      → all_completed (run_phases ps c s o).0 ≡ true
      → Recorded ps (run_phases ps c s o).0 (run_phases ps c s o).1
  unfolding run_phases Recorded
  run_phases-Recorded [] c s o d h = tt
  run_phases-Recorded (p ∷ ps) c s o d h =
      let e = execute_from p c s o in
      elim (Option-cases (completed_result p s)) [
        | inr (r, found) ↦
            let done = completed_result-status p s r found in
            rw (found, run_phases)
              (
                run_phases-other p ps c s o (ground arith) ∙ done.0,
                done.1,
                run_phases-Recorded ps c s o (ground arith)
                    (ground (arith, rw (found, run_phases) at h)),
              )
        | inl missing ↦ elim (Bool-cases (is_failed e.0.status)) [
          | inl fails ↦ absurd (ground (arith, rw (missing, fails, run_phases) at h))
          | inr goes_on ↦
              let rest = rw (missing, goes_on, run_phases) at h in
              rw (missing, goes_on, run_phases)
                (
                  run_phases-other p ps c e.1 e.2 (ground arith)
                      ∙ ground (arith, execute_from-result p p c s o, ==_refl p),
                  ground (arith, rest),
                  run_phases-Recorded ps c e.1 e.2 (ground arith) (ground (arith, rest)),
                )
        ]
      ]

  Recorded-run_phases :
      (ps : List LifecyclePhase) (rs : List PhaseResult) (c : Dict String V)
      (s : OrchestratorState V) (o : Orchestrator V W)
      → Recorded ps rs s
      → run_phases ps c s o ≡ (rs, s, o)
  unfolding run_phases Recorded completed_result
  Recorded-run_phases [] [] c s o h = refl
  Recorded-run_phases [] (r ∷ rs) c s o h = absurd h
  Recorded-run_phases (p ∷ ps) [] c s o h = absurd h
  Recorded-run_phases (p ∷ ps) (r ∷ rs) c s o (there, done, rest) =
      let found : completed_result p s ≡ some r = ground (arith, there, done) in
      let ih = Recorded-run_phases ps rs c s o rest in rw (found, ih, run_phases) refl

  begin-state :
      (c : Dict String V) (o : Orchestrator V W) → (begin c o).1.state ≡ some (begin c o).0
  unfolding begin start save_state
  begin-state c o = elim (Option-cases o.state) [
    | inl fresh ↦ rw (fresh, begin) refl
    | inr (s, there) ↦ rw (there, begin) there
  ]

  pub begin_again :
      (c : Dict String V) (s : OrchestratorState V) (o : Orchestrator V W)
      → o.state ≡ some s
      → begin c o ≡ (s, o)
  unfolding begin
  begin_again c s o h = ground (arith, h)

  -- When all the phases up to the target have completed, running to the target again, with any
  -- context, runs no handler and no hook: it returns the same results and leaves everything as it is.
  pub run_to_phase_twice :
      (target : LifecyclePhase) (c d : Dict String V) (o : Orchestrator V W)
      → all_completed (run_to_phase target c o).0 ≡ true
      → run_to_phase target d (run_to_phase target c o).1 ≡ run_to_phase target c o
  unfolding run_to_phase
  run_to_phase_twice target c d o h =
      let b = begin c o in
      let ps = take (index_in target phase_order + 1) phase_order in
      let r = run_phases ps c b.0 b.1 in
      let again = begin_again d r.1 r.2 (run_phases-state ps c b.0 b.1 (begin-state c o)) in
      let same =
        Recorded-run_phases ps r.0 d r.1 r.2
          (run_phases-Recorded ps c b.0 b.1 (distinct-take_order target) h) in
      rw (again, same) refl
