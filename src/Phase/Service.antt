-- ===== src/Phase/Service.antt =====
-- rice_factor/domain/services/phase_service.py: `PhaseService`. What it reads of the project is a
-- record: whether `.project` is there and is a directory, and, where there is an artifact service,
-- the statuses that `storage.list_by_type` gives for each type (`none` where that call raises).
use rice_factor.Prelude.{
  ℕ, suc, String, Bool, true, false, not, ◌&&◌, ◌||◌, Option, none, some, List, [], ◌∷◌, any, leb,
  eqb, if◌then◌else◌, ◌≡◌, ◌↔◌, arith,
}
use rice_factor.Prelude.Eq.{Eq, ◌==◌, text_eq}
use rice_factor.Prelude.Dict.{Dict, get}
use rice_factor.Artifacts.{
  ArtifactType, project_plan, scaffold_plan, test_plan, ArtifactStatus, approved, locked, status_eq,
}
use Prim.Native.String.{◌++◌}

pub data Phase : Type 0 where
  uninit init planning scaffolded test_locked implementing : Phase

abbrev pub phase_order : List Phase
phase_order = uninit ∷ init ∷ planning ∷ scaffolded ∷ test_locked ∷ implementing ∷ []

-- `phase.value`
abbrev pub value : Phase → String
value uninit = "uninit"
value init = "init"
value planning = "planning"
value scaffolded = "scaffolded"
value test_locked = "test_locked"
value implementing = "implementing"

abbrev pub ordinal : Phase → ℕ
ordinal uninit = 0
ordinal init = 1
ordinal planning = 2
ordinal scaffolded = 3
ordinal test_locked = 4
ordinal implementing = 5

pub phase_beq_iff : (a b : Phase) → (eqb (ordinal a) (ordinal b) ≡ true) ↔ (a ≡ b)
phase_beq_iff a b = ground arith

instance abbrev pub phase_eq : Eq Phase
phase_eq = record { same = λ a b. eqb (ordinal a) (ordinal b); same_iff = phase_beq_iff }

-- `phase_order.index(phase)`
unfoldable pub index : Phase → List Phase → ℕ
index p [] = 0
index p (q ∷ qs) = if q == p then 0 else suc (index p qs)

unfoldable pub command_phases : Dict String Phase
command_phases =
    ("init", uninit)
    ∷ ("plan project", init)
    ∷ ("plan architecture", planning)
    ∷ ("scaffold", planning)
    ∷ ("plan tests", scaffolded)
    ∷ ("lock", scaffolded)
    ∷ ("plan impl", test_locked)
    ∷ ("impl", test_locked)
    ∷ ("review", test_locked)
    ∷ ("apply", test_locked)
    ∷ ("test", test_locked)
    ∷ ("diagnose", test_locked)
    ∷ ("approve", init)
    ∷ ("plan refactor", test_locked)
    ∷ ("refactor check", test_locked)
    ∷ ("refactor dry-run", test_locked)
    ∷ ("refactor apply", test_locked)
    ∷ ("validate", init)
    ∷ ("override", init)
    ∷ ("resume", init)
    ∷ []

unfoldable pub phase_description : Phase → String
phase_description uninit = "not initialized"
phase_description init = "initialized (no artifacts)"
phase_description planning = "planning (ProjectPlan approved)"
phase_description scaffolded = "scaffolded (structure created)"
phase_description test_locked = "tests locked (implementation phase)"
phase_description implementing = "implementing (active development)"

abbrev pub Listing : Type 0
Listing = ArtifactType → Option (List ArtifactStatus)

pub record Project : Type 0 where
  pub dir_exists : Bool
  pub dir_is_dir : Bool
  pub artifact_service : Option Listing

unfoldable pub is_initialized : Project → Bool
is_initialized p = p.dir_exists && p.dir_is_dir

-- `a.status in (APPROVED, LOCKED)`
abbrev pub is_approved : ArtifactStatus → Bool
is_approved s = s == approved || s == locked

abbrev pub is_locked : ArtifactStatus → Bool
is_locked s = s == locked

-- The body that the three checks share: no service, or an exception, is `False`.
unfoldable pub any_artifact : (ArtifactStatus → Bool) → ArtifactType → Option Listing → Bool
any_artifact test t none = false
any_artifact test t (some list_by_type) = elim (list_by_type t) [
  | none ↦ false
  | some artifacts ↦ any test artifacts
]

unfoldable pub has_approved_project_plan : Project → Bool
unfolding any_artifact
has_approved_project_plan p = any_artifact is_approved project_plan p.artifact_service

unfoldable pub has_scaffolded : Project → Bool
unfolding any_artifact
has_scaffolded p = any_artifact is_approved scaffold_plan p.artifact_service

unfoldable pub has_locked_test_plan : Project → Bool
unfolding any_artifact
has_locked_test_plan p = any_artifact is_locked test_plan p.artifact_service

abbrev pub is_none : Option Listing → Bool
is_none none = true
is_none (some l) = false

unfoldable pub get_current_phase : Project → Phase
unfolding is_initialized
get_current_phase p =
    if not (is_initialized p)
    then uninit
    else if is_none p.artifact_service
    then init
    else if has_locked_test_plan p
    then test_locked
    else if has_scaffolded p
    then scaffolded
    else if has_approved_project_plan p
    then planning
    else init

-- The comparison of `can_execute`, with the required phase looked up.
unfoldable pub reaches : Phase → Option Phase → Bool
unfolding index
reaches current none = true
reaches current (some required) = leb (index required phase_order) (index current phase_order)

unfoldable pub can_execute : Project → String → Bool
can_execute p command = reaches (get_current_phase p) (get command command_phases)

unfoldable pub get_blocking_reason : Project → String → Option String
get_blocking_reason p command =
    if can_execute p command then none else elim (get command command_phases) [
      | none ↦ none
      | some required ↦ some (
          "Cannot run '"
          ++ command
          ++ "' in current phase: "
          ++ phase_description (get_current_phase p)
          ++ ". Required phase: "
          ++ phase_description required
          ++ ".")
    ]

pub data Refusal : Type 0 where
  missing_prerequisite : String → Refusal
  phase_error : String → String → String → Refusal

-- `require_phase`: `none` where it returns, the exception where it raises
unfoldable pub require_phase : Project → String → Option Refusal
require_phase p command =
    if not (command == "init") && (get_current_phase p == uninit)
    then some (missing_prerequisite command)
    else elim (get command command_phases) [
      | none ↦ none
      | some required ↦
          if can_execute p command
          then none
          else some (phase_error command (value (get_current_phase p)) (value required))
    ]
