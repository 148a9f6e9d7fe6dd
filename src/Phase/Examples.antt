-- ===== src/Phase/Examples.antt =====
-- Projects in several phases, and the theorems at them.
use rice_factor.Prelude.{◌≡◌, refl, ◌↔◌, true, leb, false, none, some, [], ◌∷◌, arith}
use rice_factor.Prelude.Eq.{text_eq}
use rice_factor.Prelude.Dict.{get}
use rice_factor.Artifacts.{ArtifactType, project_plan, test_plan, draft, approved, locked}
use rice_factor.Phase.Service.{
  planning, scaffolded, test_locked, ordinal, command_phases, Listing, Project, phase_description,
  is_initialized, has_locked_test_plan, has_scaffolded, has_approved_project_plan,
  get_current_phase, reaches, can_execute, get_blocking_reason, missing_prerequisite, phase_error,
  require_phase,
}
use rice_factor.Phase.Gate.{Reached, get_current_phase-Reached, can_execute-test_locked_iff}
use rice_factor.Phase.Progress.{ListingGrows, Advances}

abbrev empty_project : Project
empty_project = record { dir_exists = false; dir_is_dir = false; artifact_service = none }

abbrev planned : Listing
planned project_plan = some (draft ∷ approved ∷ [])
planned test_plan = some (approved ∷ [])
planned _ = some []

abbrev tested : Listing
tested project_plan = some (draft ∷ approved ∷ [])
tested test_plan = some (locked ∷ [])
tested _ = some []

abbrev with_listing : Listing → Project
with_listing l = record { dir_exists = true; dir_is_dir = true; artifact_service = some l }

planned-phase : get_current_phase (with_listing planned) ≡ planning
unfolding get_current_phase has_locked_test_plan has_scaffolded has_approved_project_plan
planned-phase = refl

tested-phase : get_current_phase (with_listing tested) ≡ test_locked
unfolding get_current_phase has_locked_test_plan has_scaffolded has_approved_project_plan
tested-phase = refl

refused-impl :
    require_phase (with_listing planned) "impl" ≡ some (phase_error "impl" "planning" "test_locked")
unfolding require_phase can_execute reaches command_phases get get_current_phase
    has_locked_test_plan has_scaffolded has_approved_project_plan
refused-impl = refl

-- An unknown command is refused in an uninitialized project, although `can_execute` allows it.
unknown-uninit :
    (can_execute empty_project "frobnicate" ≡ true)
    × (require_phase empty_project "frobnicate" ≡ some (missing_prerequisite "frobnicate"))
unfolding require_phase can_execute reaches command_phases get get_current_phase
unknown-uninit = (refl, refl)

blocked-lock :
    get_blocking_reason (with_listing planned) "lock"
    ≡ some
        "Cannot run 'lock' in current phase: planning (ProjectPlan approved). Required phase: scaffolded (structure created)."
unfolding get_blocking_reason can_execute reaches command_phases get get_current_phase
    has_locked_test_plan has_scaffolded has_approved_project_plan phase_description
blocked-lock = refl

get_current_phase-Reached_example :
    (leb (ordinal scaffolded) (ordinal (get_current_phase (with_listing planned))) ≡ true)
    ↔ Reached scaffolded (with_listing planned)
get_current_phase-Reached_example = get_current_phase-Reached (with_listing planned) scaffolded

can_execute-test_locked_iff_example : (can_execute (with_listing tested) "impl" ≡ true) ↔ (
    (is_initialized (with_listing tested) ≡ true)
    × (has_locked_test_plan (with_listing tested) ≡ true))
unfolding get command_phases
can_execute-test_locked_iff_example = can_execute-test_locked_iff (with_listing tested) "impl" refl

tested-grows : (t : ArtifactType) → ListingGrows (planned t) (tested t)
tested-grows project_plan = omega arith
tested-grows test_plan = omega arith
tested-grows _ = tt

planned-Advances : Advances (with_listing planned) (with_listing tested)
unfolding is_initialized
planned-Advances = record { initialized = λ h. refl; service = tested-grows }
