-- ===== src/Lock/Prerequisites.antt =====
-- rice_factor/domain/services/safety_enforcer.py: the checks of artifacts and of the phase, over what
-- `PhaseService` reads of a project. A message names the command and the type; its text is left out.
use rice_factor.Prelude.{
  ◌≡◌, refl, String, Bool, true, false, Option, none, some, List, [], ◌∷◌, any, is_empty,
  if◌then◌else◌, Option-cases, inl, inr,
}
use rice_factor.Prelude.Eq.{◌==◌}
use rice_factor.Artifacts.{ArtifactType, test_plan, ArtifactStatus, locked, status_eq}
use rice_factor.Phase.Service.{
  Listing, Project, any_artifact, is_locked, has_locked_test_plan, can_execute, Refusal,
  missing_prerequisite, require_phase,
}

abbrev pub has_status : Option ArtifactStatus → List ArtifactStatus → Bool
has_status none found = true
has_status (some s) found = any (λ t. t == s) found

unfoldable pub check_artifact_exists : Option Listing → ArtifactType → Option ArtifactStatus → Bool
check_artifact_exists none t status = false
check_artifact_exists (some list_by_type) t status = elim (list_by_type t) [
  | none ↦ false
  | some artifacts ↦ if is_empty artifacts then false else has_status status artifacts
]

-- `none` where it returns
unfoldable pub require_artifact_exists :
    Option Listing → ArtifactType → Option ArtifactStatus → String → Option Refusal
unfolding check_artifact_exists
require_artifact_exists service t status command =
    if check_artifact_exists service t status then none else some (missing_prerequisite command)

-- The phase service is a project, where there is one.
unfoldable pub check_phase_valid : Option Project → String → Bool
check_phase_valid none command = true
check_phase_valid (some p) command = can_execute p command

unfoldable pub require_phase_valid : Option Project → String → Option Refusal
require_phase_valid none command = none
require_phase_valid (some p) command = require_phase p command

empty_or_any :
    (found : List ArtifactStatus)
    → (if is_empty found then false else has_status (some locked) found) ≡ any is_locked found
empty_or_any [] = refl
empty_or_any (s ∷ ss) = refl

-- The enforcer and the phase service agree on whether there is a locked test plan.
pub check_artifact_exists-has_locked_test_plan :
    (p : Project)
    → check_artifact_exists p.artifact_service test_plan (some locked) ≡ has_locked_test_plan p
unfolding check_artifact_exists has_locked_test_plan any_artifact
check_artifact_exists-has_locked_test_plan p = elim (Option-cases p.artifact_service) [
  | inl gone ↦ rw gone refl
  | inr (l, there) ↦ rw there (elim (Option-cases (l test_plan)) [
    | inl raised ↦ rw raised refl
    | inr (found, lists) ↦ rw lists (empty_or_any found)
  ])
]
