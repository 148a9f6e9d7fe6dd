-- ===== src/Phase/Gate.antt =====
-- What the gate lets through in each phase.
use rice_factor.Prelude.{
  String, ◌≡◌, refl, ◌≢◌, ◌↔◌, ◌⊎◌, inl, inr, Bool, true, ◌||◌, none, some, List, any, leb, arith,
  Option-cases,
}
use rice_factor.Prelude.Eq.{◌==◌, ==_iff, text_eq}
use rice_factor.Artifacts.{
  ArtifactType, project_plan, scaffold_plan, test_plan, ArtifactStatus, approved, locked, status_eq,
}
use rice_factor.Prelude.Dict.{get}
use rice_factor.Phase.Service.{
  Phase, uninit, init, planning, scaffolded, test_locked, implementing, phase_eq, ordinal,
  command_phases, Listing, Project, any_artifact, is_initialized, has_locked_test_plan,
  has_scaffolded, has_approved_project_plan, get_current_phase, reaches, can_execute,
  get_blocking_reason, require_phase,
}

-- The place of a phase in the order is its ordinal.
pub reaches-ordinal : (c r : Phase) → reaches c (some r) ≡ leb (ordinal r) (ordinal c)
unfolding reaches
reaches-ordinal c r = ground arith

reaches-none : (c : Phase) → reaches c none ≡ true
unfolding reaches
reaches-none c = refl

-- The artifact service lists, among the artifacts of the type, one whose status is good.
abbrev pub Lists : ArtifactType → (ArtifactStatus → Bool) → Project → Type 0
Lists t good p =
    (l : Listing) × (statuses : List ArtifactStatus) × (p.artifact_service ≡ some l)
    × (l t ≡ some statuses)
    × (any good statuses ≡ true)

abbrev HasDir : Project → Type 0
HasDir p = (p.dir_exists ≡ true) × (p.dir_is_dir ≡ true)

-- What a project shows that has come as far as a phase.
abbrev pub Reached : Phase → Project → Type 0
Reached uninit p = Unit
Reached init p = HasDir p
Reached planning p =
    HasDir p
    × (Lists test_plan (λ s. s == locked) p
        ⊎ (Lists scaffold_plan (λ s. s == approved || s == locked) p
            ⊎ Lists project_plan (λ s. s == approved || s == locked) p))
Reached scaffolded p =
    HasDir p
    × (Lists test_plan (λ s. s == locked) p
        ⊎ Lists scaffold_plan (λ s. s == approved || s == locked) p)
Reached test_locked p = HasDir p × Lists test_plan (λ s. s == locked) p
Reached implementing p = ⊥

any_artifact-Lists :
    (good : ArtifactStatus → Bool) (t : ArtifactType) (p : Project)
    → any_artifact good t p.artifact_service ≡ true
    → Lists t good p
unfolding any_artifact
any_artifact-Lists good t p h = elim (Option-cases p.artifact_service) [
  | inl no_service ↦ cc (rw (no_service, any_artifact) at h)
  | inr (l, service) ↦ elim (Option-cases (l t)) [
    | inl raises ↦ cc (rw (service, raises, any_artifact) at h)
    | inr (statuses, listed) ↦
        (l, statuses, service, listed, rw (service, listed, any_artifact) at h)
  ]
]

Lists-any_artifact :
    (good : ArtifactStatus → Bool) (t : ArtifactType) (p : Project)
    → Lists t good p
    → any_artifact good t p.artifact_service ≡ true
unfolding any_artifact
Lists-any_artifact good t p (l, statuses, service, listed, found) =
    rw (service, listed, any_artifact) found

-- The same in the code's own tests.
abbrev Tested : Phase → Project → Type 0
Tested uninit p = Unit
Tested init p = HasDir p
Tested planning p =
    HasDir p
    × ((has_locked_test_plan p ≡ true)
        ⊎ ((has_scaffolded p ≡ true) ⊎ (has_approved_project_plan p ≡ true)))
Tested scaffolded p = HasDir p × ((has_locked_test_plan p ≡ true) ⊎ (has_scaffolded p ≡ true))
Tested test_locked p = HasDir p × (has_locked_test_plan p ≡ true)
Tested implementing p = ⊥

get_current_phase-Tested :
    (p : Project) (r : Phase)
    → (leb (ordinal r) (ordinal (get_current_phase p)) ≡ true) ↔ Tested r p
unfolding get_current_phase has_locked_test_plan has_scaffolded has_approved_project_plan
    is_initialized any_artifact
get_current_phase-Tested p uninit = ground arith
get_current_phase-Tested p init = ground arith
get_current_phase-Tested p planning = ground arith
get_current_phase-Tested p scaffolded = ground arith
get_current_phase-Tested p test_locked = ground arith
get_current_phase-Tested p implementing = ground arith

Tested-Reached : (p : Project) (r : Phase) → Tested r p → Reached r p
unfolding has_locked_test_plan has_scaffolded has_approved_project_plan
Tested-Reached p uninit h = tt
Tested-Reached p init h = h
Tested-Reached p planning (dir, inl l) = (dir, inl (any_artifact-Lists _ test_plan p l))
Tested-Reached p planning (dir, inr (inl s)) =
    (dir, inr (inl (any_artifact-Lists _ scaffold_plan p s)))
Tested-Reached p planning (dir, inr (inr a)) =
    (dir, inr (inr (any_artifact-Lists _ project_plan p a)))
Tested-Reached p scaffolded (dir, inl l) = (dir, inl (any_artifact-Lists _ test_plan p l))
Tested-Reached p scaffolded (dir, inr s) = (dir, inr (any_artifact-Lists _ scaffold_plan p s))
Tested-Reached p test_locked (dir, l) = (dir, any_artifact-Lists _ test_plan p l)
Tested-Reached p implementing h = h

Reached-Tested : (p : Project) (r : Phase) → Reached r p → Tested r p
unfolding has_locked_test_plan has_scaffolded has_approved_project_plan
Reached-Tested p uninit h = tt
Reached-Tested p init h = h
Reached-Tested p planning (dir, inl l) = (dir, inl (Lists-any_artifact _ test_plan p l))
Reached-Tested p planning (dir, inr (inl s)) =
    (dir, inr (inl (Lists-any_artifact _ scaffold_plan p s)))
Reached-Tested p planning (dir, inr (inr a)) =
    (dir, inr (inr (Lists-any_artifact _ project_plan p a)))
Reached-Tested p scaffolded (dir, inl l) = (dir, inl (Lists-any_artifact _ test_plan p l))
Reached-Tested p scaffolded (dir, inr s) = (dir, inr (Lists-any_artifact _ scaffold_plan p s))
Reached-Tested p test_locked (dir, l) = (dir, Lists-any_artifact _ test_plan p l)
Reached-Tested p implementing h = h

-- The current phase is at or past a phase exactly if the project shows what the phase asks: a
-- directory, and for the later phases a locked test plan or, before that, an approved or locked scaffold
-- plan or, before that, an approved or locked project plan. No project reaches the phase implementing.
pub get_current_phase-Reached :
    (p : Project) (r : Phase)
    → (leb (ordinal r) (ordinal (get_current_phase p)) ≡ true) ↔ Reached r p
get_current_phase-Reached p r =
    let tested = get_current_phase-Tested p r in
    ((λ h. Tested-Reached p r (tested.0 h)), (λ h. tested.1 (Reached-Tested p r h)))

-- `require_phase` lets a command through exactly when `can_execute` does and, unless the command is
-- "init", the project is initialized; "init" and unknown commands included.
pub require_phase_iff :
    (p : Project) (command : String)
    → (require_phase p command ≡ none)
      ↔ ((can_execute p command ≡ true) × ((command ≡ "init") ⊎ (get_current_phase p ≢ uninit)))
unfolding require_phase can_execute
require_phase_iff p command = (
  (λ h. (
    ground (arith, reaches-none (get_current_phase p)),
    ground (arith, ==_iff command "init", ==_iff (get_current_phase p) uninit),
  )),
  (λ h. ground (arith, ==_iff command "init", ==_iff (get_current_phase p) uninit)),
)

-- A reason is given exactly for the commands that cannot be executed.
pub get_blocking_reason_iff :
    (p : Project) (command : String)
    → (get_blocking_reason p command ≡ none) ↔ (can_execute p command ≡ true)
unfolding get_blocking_reason can_execute
get_blocking_reason_iff p command = ground (arith, reaches-none (get_current_phase p))

-- A command that needs locked tests can be executed exactly when the project is initialized and
-- its artifact service lists a locked test plan.
pub can_execute-test_locked_iff :
    (p : Project) (command : String)
    → get command command_phases ≡ some test_locked
    → (can_execute p command ≡ true) ↔ ((is_initialized p ≡ true) × (has_locked_test_plan p ≡ true))
unfolding can_execute get_current_phase has_locked_test_plan
can_execute-test_locked_iff p command need =
    ground (arith, reaches-ordinal (get_current_phase p) test_locked)
