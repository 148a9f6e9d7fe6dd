-- ===== src/Orchestrator/Resume.antt =====
-- What `resume` finds on disk, in every sequence of operations.
use rice_factor.Prelude.{String, List, [], ◌∷◌}
use rice_factor.Prelude.Dict.{Dict}
use rice_factor.Orchestrator.Phases.{LifecyclePhase}
use rice_factor.Prelude.Table.{or_default}
use rice_factor.Orchestrator.Service.{
  Orchestrator, load_state, start, execute_phase, advance, run_to_phase, skip_phase, reset,
}

-- A call of one of the operations that change the state.
pub data Call (V : Type 0) : Type 0 where
  start_with : Dict String V → Call V
  execute : LifecyclePhase → Dict String V → Call V
  advance_with : Dict String V → Call V
  run_to : LifecyclePhase → Dict String V → Call V
  skip : LifecyclePhase → String → Call V
  resume reset_all : Call V

module _ {V W : Type 0} where
  unfoldable pub call : Call V → Orchestrator V W → Orchestrator V W
  call (start_with c) o = (start c o).1
  call (execute p c) o = (execute_phase p c o).1
  call (advance_with c) o = (advance c o).1
  call (run_to p c) o = (run_to_phase p c o).1
  call (skip p reason) o = (skip_phase p reason o).1
  call resume o = or_default o (load_state o)
  call reset_all o = reset o

  unfoldable pub calls : List (Call V) → Orchestrator V W → Orchestrator V W
  unfolding call
  calls [] o = o
  calls (k ∷ ks) o = calls ks (call k o)
