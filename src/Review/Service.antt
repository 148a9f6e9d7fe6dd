-- ===== src/Review/Service.antt =====
-- rice_factor/domain/services/lifecycle_service.py: `LifecycleService`. The store, the architecture
-- validator and the coverage monitor are parameters, as the code takes them.
use rice_factor.Prelude.{
  ℕ, String, Bool, true, false, not, Option, none, some, List, [], ◌∷◌, keep, length, is_empty,
  if◌then◌else◌,
}
use rice_factor.Prelude.Eq.{◌==◌, text_eq}
use rice_factor.Prelude.Dict.{Dict, get}
use rice_factor.Review.Policy.{
  Artifact, LifecyclePolicy, PolicyResult, urgency_eq, requires_action, blocks_work, evaluate,
}

pub record LifecycleService (V : Type 0) : Type 0 where
  pub artifacts : List Artifact  -- `artifact_store.list_all()`
  pub policies : Dict String LifecyclePolicy
  pub arch_validator : Option (Artifact → List V)
  pub coverage_monitor : Option (Artifact → ℕ)

pub record AgeReport (V : Type 0) : Type 0 where
  pub total_artifacts : ℕ
  pub requiring_action : List (PolicyResult V)
  pub blocking : List (PolicyResult V)
  pub healthy : List (PolicyResult V)

-- `collaborator(artifact)` where the type is the one it is asked for and there is one.
abbrev pub ask : {B : Type 0} → Bool → Option (Artifact → B) → Artifact → Option B
ask false f a = none
ask true none a = none
ask true (some f) a = some (f a)

module _ {V : Type 0} (parts : ℕ) where
  abbrev pub violations_of : LifecycleService V → Artifact → Option (List V)
  violations_of s a = ask (a.artifact_type == "ArchitecturePlan") s.arch_validator a

  abbrev pub drift_of : LifecycleService V → Artifact → Option ℕ
  drift_of s a = ask (a.artifact_type == "TestPlan") s.coverage_monitor a

  unfoldable pub evaluate_artifact :
      LifecycleService V → Artifact → Option (List V) → Option ℕ → Option (PolicyResult V)
  evaluate_artifact s a violations coverage_drift = elim (get a.artifact_type s.policies) [
    | none ↦ none
    | some policy ↦ some (evaluate parts policy a violations coverage_drift)
  ]

  unfoldable pub results_of : LifecycleService V → List Artifact → List (PolicyResult V)
  results_of s [] = []
  results_of s (a ∷ artifacts) =
      let results = results_of s artifacts in
      elim (get a.artifact_type s.policies) [
        | none ↦ results
        | some policy ↦ evaluate parts policy a (violations_of s a) (drift_of s a) ∷ results
      ]

  unfoldable pub evaluate_all : LifecycleService V → List (PolicyResult V)
  unfolding results_of
  evaluate_all s = results_of s s.artifacts

  unfoldable pub get_blocking_issues : LifecycleService V → List (PolicyResult V)
  unfolding evaluate_all
  get_blocking_issues s = keep (λ r. blocks_work r.urgency) (evaluate_all s)

  unfoldable pub check_can_proceed : LifecycleService V → Bool × List (PolicyResult V)
  unfolding get_blocking_issues
  check_can_proceed s = let blocking = get_blocking_issues s in (is_empty blocking, blocking)

  -- `none` where it returns, the issues of LifecycleBlockingError where it raises
  unfoldable pub require_can_proceed : LifecycleService V → Option (List (PolicyResult V))
  unfolding check_can_proceed
  require_can_proceed s =
      let (can_proceed, blocking) = check_can_proceed s in
      if can_proceed then none else some blocking

  -- The results for which `generate_prompts` makes a prompt.
  unfoldable pub prompted : LifecycleService V → List (PolicyResult V)
  unfolding evaluate_all
  prompted s = keep (λ r. not (is_empty r.triggers)) (evaluate_all s)

  unfoldable pub generate_age_report : LifecycleService V → AgeReport V
  unfolding evaluate_all
  generate_age_report s =
      let results = evaluate_all s in
      record {
        total_artifacts = length results;
        requiring_action = keep (λ r. requires_action r.urgency) results;
        blocking = keep (λ r. blocks_work r.urgency) results;
        healthy = keep (λ r. not (requires_action r.urgency)) results;
      }
