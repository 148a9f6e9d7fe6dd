-- ===== src/Phase/Progress.antt =====
-- As artifacts are approved and locked, the gate only opens.
use rice_factor.Prelude.{
  ◌≤◌, String, ◌≡◌, refl, Bool, true, false, Option, none, some, List, [], ◌∷◌, any, arith,
}
use rice_factor.Prelude.Eq.{text_eq}
use rice_factor.Prelude.Dict.{get}
use rice_factor.Artifacts.{
  ArtifactType, project_plan, scaffold_plan, test_plan, ArtifactStatus, rank,
}
use rice_factor.Phase.Service.{
  Phase, ordinal, command_phases, Listing, Project, is_initialized, is_locked, is_approved,
  any_artifact, is_none, has_locked_test_plan, has_scaffolded, has_approved_project_plan,
  get_current_phase, reaches, can_execute,
}
use rice_factor.Phase.Gate.{reaches-ordinal}

-- No artifact has been dropped and none has gone back: the later list has, place for place, a
-- status at least as far, and perhaps more artifacts.
abbrev pub Grows : List ArtifactStatus → List ArtifactStatus → Type 0
Grows [] ys = Unit
Grows (x ∷ xs) [] = ⊥
Grows (x ∷ xs) (y ∷ ys) = (rank x ≤ rank y) × Grows xs ys

-- What could be listed can still be listed, and has grown.
abbrev pub ListingGrows : Option (List ArtifactStatus) → Option (List ArtifactStatus) → Type 0
ListingGrows none o = Unit
ListingGrows (some xs) none = ⊥
ListingGrows (some xs) (some ys) = Grows xs ys

-- The later project still has its directory and its artifact service, and each listing has grown.
abbrev pub ServiceGrows : Option Listing → Option Listing → Type 0
ServiceGrows none o = Unit
ServiceGrows (some l) none = ⊥
ServiceGrows (some l) (some m) = (t : ArtifactType) → ListingGrows (l t) (m t)

pub record Advances (p q : Project) : Type 0 where
  pub initialized : is_initialized p ≡ true → is_initialized q ≡ true
  pub service : ServiceGrows p.artifact_service q.artifact_service

any-locked_mono :
    (xs ys : List ArtifactStatus) → Grows xs ys → any is_locked xs ≡ true → any is_locked ys ≡ true
any-locked_mono [] ys g h = cc
any-locked_mono (x ∷ xs) [] g h = absurd g
any-locked_mono (x ∷ xs) (y ∷ ys) g h = ground (arith, any-locked_mono xs ys g.1)

any-approved_mono :
    (xs ys : List ArtifactStatus)
    → Grows xs ys
    → any is_approved xs ≡ true
    → any is_approved ys ≡ true
any-approved_mono [] ys g h = cc
any-approved_mono (x ∷ xs) [] g h = absurd g
any-approved_mono (x ∷ xs) (y ∷ ys) g h = ground (arith, any-approved_mono xs ys g.1)

module _ (test : ArtifactStatus → Bool) (t : ArtifactType)
    (mono : (xs ys : List ArtifactStatus)
      → Grows xs ys
      → any test xs ≡ true
      → any test ys ≡ true) where
  listed_mono :
      (o r : Option (List ArtifactStatus))
      → ListingGrows o r
      → elim o as (λ _. Bool) [ none ↦ false | some xs ↦ any test xs ] ≡ true
      → elim r as (λ _. Bool) [ none ↦ false | some xs ↦ any test xs ] ≡ true
  listed_mono none r g h = cc
  listed_mono (some xs) none g h = absurd g
  listed_mono (some xs) (some ys) g h = mono xs ys g h

  any_artifact_mono :
      (a b : Option Listing)
      → ServiceGrows a b
      → any_artifact test t a ≡ true
      → any_artifact test t b ≡ true
  unfolding any_artifact
  any_artifact_mono none b g h = cc
  any_artifact_mono (some l) none g h = absurd g
  any_artifact_mono (some l) (some m) g h = listed_mono (l t) (m t) (g t) h

service_stays : (a b : Option Listing) → ServiceGrows a b → is_none b ≡ true → is_none a ≡ true
service_stays none b g h = refl
service_stays (some l) none g h = absurd g
service_stays (some l) (some m) g h = h

module _ (p q : Project) (adv : Advances p q) where
  locked_mono : has_locked_test_plan p ≡ true → has_locked_test_plan q ≡ true
  unfolding has_locked_test_plan
  locked_mono =
      any_artifact_mono is_locked test_plan any-locked_mono p.artifact_service q.artifact_service
        adv.service

  scaffolded_mono : has_scaffolded p ≡ true → has_scaffolded q ≡ true
  unfolding has_scaffolded
  scaffolded_mono =
      any_artifact_mono is_approved scaffold_plan any-approved_mono p.artifact_service
        q.artifact_service adv.service

  planned_mono : has_approved_project_plan p ≡ true → has_approved_project_plan q ≡ true
  unfolding has_approved_project_plan
  planned_mono =
      any_artifact_mono is_approved project_plan any-approved_mono p.artifact_service
        q.artifact_service adv.service

  phase_mono : ordinal (get_current_phase p) ≤ ordinal (get_current_phase q)
  unfolding get_current_phase
  phase_mono = ground (
    arith,
    adv.initialized,
    locked_mono,
    scaffolded_mono,
    planned_mono,
    service_stays p.artifact_service q.artifact_service adv.service,
  )

  reaches_mono :
      (o : Option Phase)
      → reaches (get_current_phase p) o ≡ true
      → reaches (get_current_phase q) o ≡ true
  reaches_mono none h = unfold reaches in refl
  reaches_mono (some r) h = ground (
    arith,
    phase_mono,
    reaches-ordinal (get_current_phase p) r,
    reaches-ordinal (get_current_phase q) r,
  )

  -- A command that could be executed can still be executed after artifacts were approved, locked or
  -- added, with the project still initialized, its artifact service there and its listings readable.
  pub can_execute_mono :
      (command : String) → can_execute p command ≡ true → can_execute q command ≡ true
  unfolding can_execute
  can_execute_mono command = reaches_mono (get command command_phases)
