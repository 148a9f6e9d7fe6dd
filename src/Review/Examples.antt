-- ===== src/Review/Examples.antt =====
-- An architecture plan with one violation, under the default policies.
use rice_factor.Prelude.{◌≡◌, ◌↔◌, ◌⊎◌, refl, String, true, false, some, none, List, [], ◌∷◌, All}
use rice_factor.Prelude.Eq.{text_eq}
use rice_factor.Prelude.Dict.{Dict, get, has, IsDict}
use rice_factor.Review.Policy.{Artifact, LifecyclePolicy, default_policies}
use rice_factor.Review.Service.{LifecycleService, check_can_proceed, prompted}
use rice_factor.Review.Blocking.{Blocked, check_can_proceed_iff}
use rice_factor.Review.Prompts.{generate_prompts, Prompts, generate_prompts-Prompts}
use rice_factor.Review.Config.{
  Settings, Entry, settings, no_mapping, policies, from_file, get_policy, policy_of, configured,
  Rejected, get_policy-from_file,
}

abbrev architecture : Artifact
architecture = record { id = "a1"; artifact_type = "ArchitecturePlan"; age_months = 20 }

abbrev under_review : LifecycleService String
under_review = record {
  artifacts = architecture ∷ [];
  policies = default_policies 10;
  arch_validator = some (λ a. "domain imports adapters" ∷ []);
  coverage_monitor = none;
}

check_can_proceed_iff_example :
    ((check_can_proceed 10 under_review).0 ≡ true)
    ↔ All (λ a. ¬ Blocked 10 under_review a) (architecture ∷ [])
check_can_proceed_iff_example = check_can_proceed_iff 10 under_review

generate_prompts-Prompts_example :
    Prompts 10 (prompted 10 under_review) (generate_prompts 10 under_review)
generate_prompts-Prompts_example = generate_prompts-Prompts 10 under_review

abbrev monthly : Settings
monthly = record {
  review_after_months = some 1;
  warning_at_months = some none;
  mandatory_on_violation = none;
  coverage_drift_threshold = none;
  other_keys = false;
}

abbrev odd : Settings
odd = record monthly { other_keys = true }

abbrev entries : List (String × Entry)
entries = ("TestPlan", settings monthly) ∷ ("Note", settings odd) ∷ ("X", no_mapping) ∷ []

entries-IsDict : IsDict entries
unfolding IsDict has
entries-IsDict = (refl, (refl, (refl, tt)))

get_policy-from_file_example :
    ((ds : Dict String LifecyclePolicy) × (from_file 10 (policies entries) ≡ some ds)
      × ((t : String)
          → get_policy t ds ≡ policy_of (get t entries) t (get_policy t (default_policies 10))))
    ⊎ (from_file 10 (policies entries) ≡ none) × Rejected entries (default_policies 10)
get_policy-from_file_example = get_policy-from_file 10 entries entries-IsDict

-- Another key is passed over for a type with a default, and raises for a type with none.
other_key_test : from_file 10 (policies (("Note", settings odd) ∷ [])) ≡ none
unfolding from_file get configured
other_key_test = refl
