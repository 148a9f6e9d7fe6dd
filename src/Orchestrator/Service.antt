-- ===== src/Orchestrator/Service.antt =====
-- rice_factor/domain/services/lifecycle_orchestrator.py: `LifecycleOrchestrator`. `V` stands for the
-- values of the context and `W` for all that handlers and hooks read and change outside of the
-- orchestrator. A handler gets the context, which it may change, and returns a result or raises; a
-- hook only changes the outside, since what it raises is dropped.
use rice_factor.Prelude.{
  ℕ, zero, suc, ◌+◌, String, Bool, true, false, Option, none, some, List, [], ◌∷◌, ◌++◌, take, ltb,
  length, if◌then◌else◌,
}
use rice_factor.Prelude.Eq.{◌==◌, text_eq}
use rice_factor.Prelude.Dict.{Dict, get, put}
use rice_factor.Orchestrator.Phases.{
  LifecyclePhase, init, lifecycle_phase_eq, phase_order, PhaseStatus, pending, completed, failed,
  skipped, is_completed, is_failed, PhaseResult,
}
use rice_factor.Orchestrator.Files.{
  phase_value, OrchestratorState, StateJson, value, key_error, value_error, to_dict, from_dict,
}

-- The file: none, one that is no JSON or cannot be opened, or the dictionary that it holds.
pub data StateFile (V : Type 0) : Type 0 where
  absent corrupt : StateFile V
  saved : StateJson V → StateFile V

pub data Outcome : Type 0 where
  returned : PhaseResult → Outcome
  raised : String → Outcome

abbrev pub Handler : Type 0 → Type 0 → Type 0
Handler V W = W → Dict String V → W × Dict String V × Outcome

abbrev pub Hook : Type 0 → Type 0
Hook W = LifecyclePhase → PhaseResult → W → W

pub record Orchestrator (V W : Type 0) : Type 0 where
  pub state : Option (OrchestratorState V)
  pub handlers : Dict LifecyclePhase (Handler V W)
  pub pre : List (Hook W)
  pub post : List (Hook W)
  pub state_file : StateFile V
  pub world : W

unfoldable pub result_of : LifecyclePhase → PhaseStatus → Option String → PhaseResult
result_of p s e = record { phase = p; status = s; artifacts_created = []; error = e }

-- `PHASE_ORDER.index(phase)`
unfoldable pub index_in : LifecyclePhase → List LifecyclePhase → ℕ
index_in p [] = 0
index_in p (q ∷ qs) = let n = index_in p qs in if q == p then 0 else n + 1

unfoldable pub nth_phase : ℕ → List LifecyclePhase → Option LifecyclePhase
nth_phase n [] = none
nth_phase zero (p ∷ ps) = some p
nth_phase (suc n) (p ∷ ps) = nth_phase n ps

unfoldable pub result_in : LifecyclePhase → Outcome → PhaseResult
unfolding result_of
result_in p (returned r) = r
result_in p (raised e) = result_of p failed (some e)

module _ {V : Type 0} where
  unfoldable pub new_state : Dict String V → OrchestratorState V
  new_state context = record { current_phase = init; phase_results = []; context = context }

  -- `d.update(e)`
  unfoldable pub update : Dict String V → Dict String V → Dict String V
  update d [] = d
  update d ((k, v) ∷ e) = update (put k v d) e

  -- The result of a phase that is completed, which is not run again.
  unfoldable pub completed_result : LifecyclePhase → OrchestratorState V → Option PhaseResult
  completed_result p s = elim (get (phase_value p) s.phase_results) [
    | none ↦ none
    | some r ↦ if is_completed r.status then some r else none
  ]

module _ {W : Type 0} where
  unfoldable pub run_hooks : List (Hook W) → LifecyclePhase → PhaseResult → W → W
  run_hooks [] p r w = w
  run_hooks (h ∷ hs) p r w = run_hooks hs p r (h p r w)

module _ {V W : Type 0} where
  -- `none` for the ValueError, which is not caught
  unfoldable pub load_state : Orchestrator V W → Option (Orchestrator V W)
  unfolding from_dict
  load_state o = elim o.state_file [
    | absent ↦ some o
    | corrupt ↦ some (record o { state = none })
    | saved j ↦ elim (from_dict j) [
      | value s ↦ some (record o { state = some s })
      | key_error ↦ some (record o { state = none })
      | value_error ↦ none
    ]
  ]

  -- The state is changed and written.
  unfoldable pub save_state : OrchestratorState V → Orchestrator V W → Orchestrator V W
  save_state s o = record o { state = some s; state_file = saved (to_dict s) }

  unfoldable pub register_handler :
      LifecyclePhase → Handler V W → Orchestrator V W → Orchestrator V W
  register_handler p h o = record o { handlers = put p h o.handlers }

  unfoldable pub register_hook : String → Hook W → Orchestrator V W → Orchestrator V W
  register_hook kind h o =
      if kind == "pre"
      then record o { pre = o.pre ++ (h ∷ []) }
      else if kind == "post"
      then record o { post = o.post ++ (h ∷ []) }
      else o

  unfoldable pub start : Dict String V → Orchestrator V W → OrchestratorState V × Orchestrator V W
  unfolding new_state save_state
  start context o = let s = new_state context in (s, save_state s o)

  -- `if self._state is None: self.start(context)`
  unfoldable pub begin : Dict String V → Orchestrator V W → OrchestratorState V × Orchestrator V W
  unfolding start
  begin context o = elim o.state [ none ↦ start context o | some s ↦ (s, o) ]

  unfoldable pub run_handler :
      Option (Handler V W) → LifecyclePhase → W → Dict String V → W × Dict String V × PhaseResult
  unfolding result_of result_in
  run_handler none p w c = (w, c, result_of p completed none)
  run_handler (some h) p w c = let (w', c', out) = h w c in (w', c', result_in p out)

  -- `execute_phase` from a state; the state that it leaves comes with the orchestrator.
  unfoldable pub execute_from :
      LifecyclePhase
      → Dict String V
      → OrchestratorState V
      → Orchestrator V W
      → PhaseResult × OrchestratorState V × Orchestrator V W
  unfolding run_hooks update save_state run_handler
  execute_from p context s o =
      let w1 = run_hooks o.pre p (result_of p pending none) o.world in
      let s1 = record s { current_phase = p; context = update s.context context } in
      let o1 = save_state s1 (record o { world = w1 }) in
      let (w2, c, result) = run_handler (get p o1.handlers) p o1.world s1.context in
      let s2 = record s1 {
        context = c;
        phase_results = put (phase_value p) result s1.phase_results;
      } in
      let o2 = save_state s2 (record o1 { world = w2 }) in
      (result, s2, record o2 { world = run_hooks o2.post p result o2.world })

  unfoldable pub execute_phase :
      LifecyclePhase → Dict String V → Orchestrator V W → PhaseResult × Orchestrator V W
  unfolding begin execute_from
  execute_phase p context o =
      let (s, o1) = begin context o in let (r, s2, o2) = execute_from p context s o1 in (r, o2)

  unfoldable pub advance : Dict String V → Orchestrator V W → Option PhaseResult × Orchestrator V W
  unfolding begin execute_from
  advance context o =
      let (s, o1) = begin context o in
      elim (nth_phase (index_in s.current_phase phase_order + 1) phase_order) [
        | none ↦ (none, o1)
        | some p ↦ let (r, s2, o2) = execute_from p context s o1 in (some r, o2)
      ]

  -- The loop of `run_to_phase`.
  unfoldable pub run_phases :
      List LifecyclePhase
      → Dict String V
      → OrchestratorState V
      → Orchestrator V W
      → List PhaseResult × OrchestratorState V × Orchestrator V W
  unfolding completed_result execute_from
  run_phases [] context s o = ([], s, o)
  run_phases (p ∷ ps) context s o = elim (completed_result p s) [
    | some r ↦ let (rs, s', o') = run_phases ps context s o in (r ∷ rs, s', o')
    | none ↦
        let (r, s1, o1) = execute_from p context s o in
        elim (is_failed r.status) [
          | true ↦ (r ∷ [], s1, o1)
          | false ↦ let (rs, s', o') = run_phases ps context s1 o1 in (r ∷ rs, s', o')
        ]
  ]

  unfoldable pub run_to_phase :
      LifecyclePhase → Dict String V → Orchestrator V W → List PhaseResult × Orchestrator V W
  unfolding begin run_phases
  run_to_phase target context o =
      let (s, o1) = begin context o in
      let phases = take (index_in target phase_order + 1) phase_order in
      let (rs, s', o') = run_phases phases context s o1 in (rs, o')

  unfoldable pub skip_phase :
      LifecyclePhase → String → Orchestrator V W → PhaseResult × Orchestrator V W
  unfolding begin save_state result_of
  skip_phase p reason o =
      let (s, o1) = begin [] o in
      let r = result_of p skipped (some reason) in
      (r, save_state (record s { phase_results = put (phase_value p) r s.phase_results }) o1)

  unfoldable pub get_phase_result : LifecyclePhase → Orchestrator V W → Option PhaseResult
  get_phase_result p o = elim o.state [ none ↦ none | some s ↦ get (phase_value p) s.phase_results ]

  unfoldable pub is_phase_complete : LifecyclePhase → Orchestrator V W → Bool
  is_phase_complete p o = elim (get_phase_result p o) [
    | none ↦ false
    | some r ↦ is_completed r.status
  ]

  unfoldable pub reset : Orchestrator V W → Orchestrator V W
  reset o = record o { state = none; state_file = absent }

  unfoldable pub count_complete : List LifecyclePhase → Orchestrator V W → ℕ
  count_complete [] o = 0
  count_complete (p ∷ ps) o =
      let n = count_complete ps o in if is_phase_complete p o then n + 1 else n

  -- `get_progress()["status"]`
  unfoldable pub progress_status : Orchestrator V W → String
  progress_status o = elim o.state [
    | none ↦ "not_started"
    | some s ↦
        if ltb (count_complete phase_order o) (length phase_order)
        then "in_progress"
        else "complete"
  ]
