-- ===== src/Orchestrator/Progress.antt =====
-- Progress: what is saved, and how far `advance` gets.
use mathlib.Core.Path.{subst}
use rice_factor.Prelude.{
  Bool-cases, ℕ, ◌+◌, ◌≤◌, ◌≡◌, refl, sym, ◌∙◌, ◌↔◌, ◌≢◌, String, true, false, none, some, List, [],
  ◌∷◌, arith, all, length, ltb, if◌then◌else◌, Option-cases, inl, inr,
}
use rice_factor.Prelude.Eq.{==_iff, text_eq}
use rice_factor.Prelude.Dict.{Dict, get}
use rice_factor.Orchestrator.Phases.{
  LifecyclePhase, init, plan, scaffold, test, implement, execute, validate, refactor, complete,
  lifecycle_phase_eq, phase_order,
}
use rice_factor.Orchestrator.Files.{OrchestratorState, phase_value}
use rice_factor.Orchestrator.Service.{
  Orchestrator, save_state, new_state, start, index_in, nth_phase, execute_from, advance,
  get_phase_result, is_phase_complete, count_complete, progress_status,
}
use rice_factor.Orchestrator.Twice.{begin_again, execute_from-result, execute_from-state}

-- The next phase is never the first.
next-ne-init : (p : LifecyclePhase) → nth_phase (index_in p phase_order + 1) phase_order ≢ some init
unfolding nth_phase index_in
next-ne-init init e = cc
next-ne-init plan e = cc
next-ne-init scaffold e = cc
next-ne-init test e = cc
next-ne-init implement e = cc
next-ne-init execute e = cc
next-ne-init validate e = cc
next-ne-init refactor e = cc
next-ne-init complete e = cc

status_text_iff :
    (n m : ℕ)
    → n ≤ m
    → (◌≡◌ {A = String} (if ltb n m then "in_progress" else "complete") "complete") ↔ (n ≡ m)
status_text_iff n m h = elim (Bool-cases (ltb n m)) [
  | inl less ↦ (λ e. cc (rw less at e), λ same. absurd (ground arith))
  | inr equal ↦ (λ e. ground arith, λ same. rw equal refl)
]

module _ {V W : Type 0} where
  count_complete-le :
      (ps : List LifecyclePhase) (o : Orchestrator V W) → count_complete ps o ≤ length ps
  unfolding count_complete
  count_complete-le [] o = omega arith
  count_complete-le (p ∷ ps) o = ground (arith, count_complete-le ps o)

  count_complete-all :
      (ps : List LifecyclePhase) (o : Orchestrator V W)
      → (count_complete ps o ≡ length ps) ↔ (all (λ p. is_phase_complete p o) ps ≡ true)
  unfolding count_complete
  count_complete-all [] o = ground arith
  count_complete-all (p ∷ ps) o = ground (arith, count_complete-all ps o, count_complete-le ps o)

  progress_status_lem :
      (o : Orchestrator V W) (s : OrchestratorState V)
      → o.state ≡ some s
      → progress_status o ≡ (
          if ltb (count_complete phase_order o) (length phase_order)
          then "in_progress"
          else "complete")
  unfolding progress_status
  progress_status_lem o s h = ground (arith, h)

  -- A project is reported as complete exactly when it has a state and every phase is completed.
  pub progress_status-complete_iff :
      (o : Orchestrator V W)
      → (progress_status o ≡ "complete")
        ↔ ((o.state ≢ none) × (all (λ p. is_phase_complete p o) phase_order ≡ true))
  unfolding progress_status
  progress_status-complete_iff o = elim (Option-cases o.state) [
    | inl fresh ↦ (λ e. cc (rw (fresh, progress_status) at e), λ (h, done). absurd (h fresh))
    | inr (s, there) ↦
        let whole = count_complete-all phase_order o in
        let text =
          status_text_iff (count_complete phase_order o) 9 (count_complete-le phase_order o) in
        let as_text = progress_status_lem o s there in
        (
          λ e. (λ fresh. cc (sym there ∙ fresh), whole.0 (text.0 (sym as_text ∙ e))),
          λ (h, done). as_text ∙ text.1 (whole.1 done),
        )
  ]

  -- The orchestrator has a state, in which init has no result.
  record NoInit (o : Orchestrator V W) : Type 0 where
    state : OrchestratorState V
    current : o.state ≡ some state
    no_init : get (phase_value init) state.phase_results ≡ none

  -- What `advance` does where there is a state.
  advance_from :
      (c : Dict String V) (s : OrchestratorState V) (o : Orchestrator V W)
      → o.state ≡ some s
      → (advance c o).1 ≡ elim (nth_phase (index_in s.current_phase phase_order + 1) phase_order) [
        | none ↦ o
        | some p ↦ (execute_from p c s o).2
      ]
  unfolding advance
  advance_from c s o h =
      elim (Option-cases (nth_phase (index_in s.current_phase phase_order + 1) phase_order)) [
        | inl last ↦ ground (arith, last, begin_again c s o h)
        | inr (p, next) ↦ ground (arith, next, begin_again c s o h)
      ]

  advance-NoInit : (c : Dict String V) (o : Orchestrator V W) → NoInit o → NoInit (advance c o).1
  advance-NoInit c o h =
      let s = h.state in
      let from = advance_from c s o h.current in
      elim (Option-cases (nth_phase (index_in s.current_phase phase_order + 1) phase_order)) [
        | inl last ↦ subst (λ x. NoInit x) (sym (rw last at from)) h
        | inr (p, next) ↦
            subst (λ x. NoInit x) (sym (rw next at from))
              (record {
                state = (execute_from p c s o).1;
                current = execute_from-state p c s o;
                no_init = ground (
                  arith,
                  execute_from-result p init c s o,
                  h.no_init,
                  ==_iff p init,
                  next,
                  next-ne-init s.current_phase,
                );
              })
      ]

  unfoldable pub advances : List (Dict String V) → Orchestrator V W → Orchestrator V W
  advances [] o = o
  advances (c ∷ cs) o = advances cs (advance c o).1

  advances-NoInit :
      (cs : List (Dict String V)) (o : Orchestrator V W) → NoInit o → NoInit (advances cs o)
  unfolding advances
  advances-NoInit [] o h = h
  advances-NoInit (c ∷ cs) o h = advances-NoInit cs (advance c o).1 (advance-NoInit c o h)

  start-NoInit : (c : Dict String V) (o : Orchestrator V W) → NoInit (start c o).1
  unfolding start save_state new_state get
  start-NoInit c o = record { state = new_state c; current = refl; no_init = refl }

  NoInit-in_progress : (o : Orchestrator V W) → NoInit o → progress_status o ≡ "in_progress"
  unfolding count_complete is_phase_complete get_phase_result
  NoInit-in_progress o h =
      let incomplete : is_phase_complete init o ≡ false = ground (arith, h.current, h.no_init) in
      progress_status_lem o h.state h.current
      ∙ ground (
        arith,
        incomplete,
        count_complete-le
            (plan ∷ scaffold ∷ test ∷ implement ∷ execute ∷ validate ∷ refactor ∷ complete ∷ []) o,
      )

  -- A project that is driven by `advance` alone is never reported as complete: after `start` and any
  -- number of calls of `advance`, whatever the handlers do, the status is "in_progress".
  pub advances-in_progress :
      (c : Dict String V) (cs : List (Dict String V)) (o : Orchestrator V W)
      → progress_status (advances cs (start c o).1) ≡ "in_progress"
  advances-in_progress c cs o =
      NoInit-in_progress (advances cs (start c o).1)
        (advances-NoInit cs (start c o).1 (start-NoInit c o))
