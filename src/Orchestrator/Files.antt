-- ===== src/Orchestrator/Files.antt =====
-- rice_factor/domain/services/lifecycle_orchestrator.py: `OrchestratorState` and the JSON of its file.
-- Times are not kept: the file says of each whether it can be read. `V` stands for the values of the
-- context that JSON gives back as they are; a context with anything else, at which `json.dumps` raises
-- or which it changes, is outside of the model.
use rice_factor.Prelude.{◌≡◌, refl, String, Option, none, some, List, [], ◌∷◌, if◌then◌else◌}
use rice_factor.Prelude.Eq.{◌==◌, text_eq}
use rice_factor.Prelude.Dict.{Dict}
use rice_factor.Prelude.Table.{or_default}
use rice_factor.Orchestrator.Phases.{
  LifecyclePhase, init, plan, scaffold, test, implement, execute, validate, refactor, complete,
  PhaseStatus, pending, in_progress, completed, failed, skipped, PhaseResult,
}

-- `phase.value` and `Phase(text)`, `none` for the ValueError
unfoldable pub phase_value : LifecyclePhase → String
phase_value init = "init"
phase_value plan = "plan"
phase_value scaffold = "scaffold"
phase_value test = "test"
phase_value implement = "implement"
phase_value execute = "execute"
phase_value validate = "validate"
phase_value refactor = "refactor"
phase_value complete = "complete"

unfoldable pub phase_of : String → Option LifecyclePhase
phase_of s =
    if s == "init"
    then some init
    else if s == "plan"
    then some plan
    else if s == "scaffold"
    then some scaffold
    else if s == "test"
    then some test
    else if s == "implement"
    then some implement
    else if s == "execute"
    then some execute
    else if s == "validate"
    then some validate
    else if s == "refactor"
    then some refactor
    else if s == "complete"
    then some complete
    else none

-- `status.value` and `PhaseStatus(text)`
unfoldable pub status_value : PhaseStatus → String
status_value pending = "pending"
status_value in_progress = "in_progress"
status_value completed = "completed"
status_value failed = "failed"
status_value skipped = "skipped"

unfoldable pub status_of : String → Option PhaseStatus
status_of s =
    if s == "pending"
    then some pending
    else if s == "in_progress"
    then some in_progress
    else if s == "completed"
    then some completed
    else if s == "failed"
    then some failed
    else if s == "skipped"
    then some skipped
    else none

-- The results stand under the values of their phases.
pub record OrchestratorState (V : Type 0) : Type 0 where
  pub current_phase : LifecyclePhase
  pub phase_results : Dict String PhaseResult
  pub context : Dict String V

-- A time under its key: one that `fromisoformat` reads, no key (or null, for completed_at), or a text
-- that it refuses.
pub data Stamp : Type 0 where
  legible missing illegible : Stamp

-- `none` for a key that is missing, and for error also for null.
pub record ResultJson : Type 0 where
  pub phase : Option String
  pub status : Option String
  pub started_at : Stamp
  pub completed_at : Stamp
  pub artifacts_created : Option (List String)
  pub error : Option String

pub record StateJson (V : Type 0) : Type 0 where
  pub current_phase : Option String
  pub phase_results : Option (Dict String ResultJson)
  pub started_at : Stamp
  pub last_updated : Stamp
  pub context : Option (Dict String V)

-- What reading gives: a value, or what it raises.
pub data Read (A : Type 0) : Type 0 where
  value : A → Read A
  key_error value_error : Read A

infixl 1 ◌>>=◌
abbrev ◌>>=◌ : {A B : Type 0} → Read A → (A → Read B) → Read B
value a >>= f = f a
key_error >>= f = key_error
value_error >>= f = value_error

abbrev pub or_value_error : {A : Type 0} → Option A → Read A
or_value_error none = value_error
or_value_error (some a) = value a

-- `Enumeration(data[key])`
abbrev pub read_value : {A : Type 0} → (String → Option A) → Option String → Read A
read_value of_text none = key_error
read_value of_text (some s) = or_value_error (of_text s)

-- `fromisoformat(data[key])`, and where the key may be missing
abbrev pub read_stamp : Stamp → Read Unit
read_stamp legible = value tt
read_stamp missing = key_error
read_stamp illegible = value_error

abbrev pub read_optional_stamp : Stamp → Read Unit
read_optional_stamp missing = value tt
read_optional_stamp t = read_stamp t

-- `PhaseResult.to_dict` and `PhaseResult.from_dict`
unfoldable pub result_to_dict : PhaseResult → ResultJson
result_to_dict r = record {
  phase = some (phase_value r.phase);
  status = some (status_value r.status);
  started_at = legible;
  completed_at = legible;
  artifacts_created = some r.artifacts_created;
  error = r.error;
}

unfoldable pub result_from_dict : ResultJson → Read PhaseResult
result_from_dict j = do
  phase ← read_value phase_of j.phase
  status ← read_value status_of j.status
  started ← read_stamp j.started_at
  ended ← read_optional_stamp j.completed_at
  value (record {
    phase = phase;
    status = status;
    artifacts_created = or_default [] j.artifacts_created;
    error = j.error;
  })

unfoldable pub results_to_dict : Dict String PhaseResult → Dict String ResultJson
unfolding result_to_dict
results_to_dict [] = []
results_to_dict ((k, r) ∷ d) = (k, result_to_dict r) ∷ results_to_dict d

unfoldable pub results_from_dict : Dict String ResultJson → Read (Dict String PhaseResult)
unfolding result_from_dict
results_from_dict [] = value []
results_from_dict ((k, j) ∷ d) = do
  r ← result_from_dict j
  rs ← results_from_dict d
  value ((k, r) ∷ rs)

module _ {V : Type 0} where
  -- `OrchestratorState.to_dict` and `OrchestratorState.from_dict`
  unfoldable pub to_dict : OrchestratorState V → StateJson V
  to_dict s = record {
    current_phase = some (phase_value s.current_phase);
    phase_results = some (results_to_dict s.phase_results);
    started_at = legible;
    last_updated = legible;
    context = some s.context;
  }

  unfoldable pub from_dict : StateJson V → Read (OrchestratorState V)
  from_dict j = do
    current_phase ← read_value phase_of j.current_phase
    phase_results ← results_from_dict (or_default [] j.phase_results)
    started ← read_stamp j.started_at
    updated ← read_stamp j.last_updated
    value (record {
      current_phase = current_phase;
      phase_results = phase_results;
      context = or_default [] j.context;
    })

pub phase_of-phase_value : (p : LifecyclePhase) → phase_of (phase_value p) ≡ some p
unfolding phase_of phase_value
phase_of-phase_value init = refl
phase_of-phase_value plan = refl
phase_of-phase_value scaffold = refl
phase_of-phase_value test = refl
phase_of-phase_value implement = refl
phase_of-phase_value execute = refl
phase_of-phase_value validate = refl
phase_of-phase_value refactor = refl
phase_of-phase_value complete = refl

status_of-status_value : (s : PhaseStatus) → status_of (status_value s) ≡ some s
unfolding status_of status_value
status_of-status_value pending = refl
status_of-status_value in_progress = refl
status_of-status_value completed = refl
status_of-status_value failed = refl
status_of-status_value skipped = refl

result_from_dict-result_to_dict : (r : PhaseResult) → result_from_dict (result_to_dict r) ≡ value r
unfolding result_from_dict result_to_dict
result_from_dict-result_to_dict r =
    rw (phase_of-phase_value r.phase, status_of-status_value r.status) refl

results_from_dict-results_to_dict :
    (d : Dict String PhaseResult) → results_from_dict (results_to_dict d) ≡ value d
unfolding results_from_dict results_to_dict
results_from_dict-results_to_dict [] = refl
results_from_dict-results_to_dict ((k, r) ∷ d) =
    rw (result_from_dict-result_to_dict r, results_from_dict-results_to_dict d) refl

module _ {V : Type 0} where
  -- What is written of a state is read as that state.
  pub from_dict-to_dict : (s : OrchestratorState V) → from_dict (to_dict s) ≡ value s
  unfolding from_dict to_dict
  from_dict-to_dict s =
      rw (phase_of-phase_value s.current_phase, results_from_dict-results_to_dict s.phase_results)
        refl
