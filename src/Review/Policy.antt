-- ===== src/Review/Policy.antt =====
-- rice_factor/domain/models/lifecycle.py. Ages and drifts, which are floats in the source, are counted in
-- parts of a month and of a percent; `parts` is how many make one. Violations are values of a type `V`.
use rice_factor.Prelude.{
  ℕ, ◌-◌, ◌*◌, ◌≡◌, ◌↔◌, String, Bool, true, false, not, ◌&&◌, ◌||◌, Option, none, some, List, [],
  ◌∷◌, ◌++◌, eqb, leb, ltb, is_empty, arith, if◌then◌else◌,
}
use rice_factor.Prelude.Eq.{Eq, ◌==◌, text_eq}
use rice_factor.Prelude.Dict.{Dict}
use rice_factor.Prelude.Table.{or_default}

pub data ReviewTrigger : Type 0 where
  age violation drift manual : ReviewTrigger

pub data ReviewUrgency : Type 0 where
  informational recommended required mandatory : ReviewUrgency

abbrev rank : ReviewUrgency → ℕ
rank informational = 0
rank recommended = 1
rank required = 2
rank mandatory = 3

abbrev pub same_urgency : ReviewUrgency → ReviewUrgency → Bool
same_urgency u v = eqb (rank u) (rank v)

pub same_urgency_iff : (u v : ReviewUrgency) → (same_urgency u v ≡ true) ↔ (u ≡ v)
same_urgency_iff u v = ground arith

instance abbrev pub urgency_eq : Eq ReviewUrgency
urgency_eq = record { same_iff = same_urgency_iff; same = same_urgency }

-- Of an envelope, what the policies read.
pub record Artifact : Type 0 where
  pub id : String
  pub artifact_type : String
  pub age_months : ℕ

pub record LifecyclePolicy : Type 0 where
  pub artifact_type : String
  pub review_after_months : ℕ
  pub warning_at_months : Option ℕ
  pub mandatory_on_violation : Bool
  pub coverage_drift_threshold : Option ℕ

pub record PolicyResult (V : Type 0) : Type 0 where
  pub artifact_id : String
  pub artifact_type : String
  pub triggers : List ReviewTrigger
  pub urgency : ReviewUrgency
  pub age_months : ℕ
  pub violations : List V
  pub coverage_drift : Option ℕ

abbrev pub requires_action : ReviewUrgency → Bool
requires_action u = u == required || u == mandatory

abbrev pub blocks_work : ReviewUrgency → Bool
blocks_work u = u == mandatory

-- `coverage_drift is not None and ... and coverage_drift >= self.coverage_drift_threshold`
abbrev pub drifted : Option ℕ → Option ℕ → Bool
drifted none threshold = false
drifted (some d) none = false
drifted (some d) (some t) = leb t d

-- The triggers so far, and the urgency.
abbrev pub Finding : Type 0
Finding = List ReviewTrigger × ReviewUrgency

module _ (parts : ℕ) where
  -- A warning at one month before a review after none is at -1, which every age has passed.
  unfoldable pub in_warning_period : LifecyclePolicy → ℕ → Bool
  in_warning_period p months =
      let warning = or_default (p.review_after_months - 1) p.warning_at_months in
      leb (warning * parts) months && ltb months (p.review_after_months * parts)

  unfoldable pub check_age : LifecyclePolicy → ℕ → Finding
  unfolding in_warning_period
  check_age p months =
      if leb (p.review_after_months * parts) months
      then (age ∷ [], required)
      else if in_warning_period p months
      then (age ∷ [], recommended)
      else ([], informational)

  unfoldable pub check_violations : LifecyclePolicy → Bool → Finding → Finding
  check_violations p any_violation (triggers, urgency) =
      if any_violation && p.mandatory_on_violation
      then (triggers ++ (violation ∷ []), mandatory)
      else (triggers, urgency)

  unfoldable pub check_drift : LifecyclePolicy → Option ℕ → Finding → Finding
  check_drift p coverage_drift (triggers, urgency) =
      if drifted coverage_drift p.coverage_drift_threshold
      then (triggers ++ (drift ∷ []), if urgency == mandatory then urgency else required)
      else (triggers, urgency)

  abbrev pub has_any : {V : Type 0} → Option (List V) → Bool
  has_any none = false
  has_any (some vs) = not (is_empty vs)

  unfoldable pub evaluate :
      {V : Type 0} → LifecyclePolicy → Artifact → Option (List V) → Option ℕ → PolicyResult V
  unfolding check_age check_violations check_drift
  evaluate p a violations coverage_drift =
      let (triggers, urgency) =
        check_drift p coverage_drift
          (check_violations p (has_any violations) (check_age p a.age_months)) in
      record {
        artifact_id = a.id;
        artifact_type = a.artifact_type;
        triggers = triggers;
        urgency = urgency;
        age_months = a.age_months;
        violations = or_default [] violations;
        coverage_drift = coverage_drift;
      }

abbrev pub default_policy : String → ℕ → ℕ → LifecyclePolicy
default_policy artifact_type review warning = record {
  artifact_type = artifact_type;
  review_after_months = review;
  warning_at_months = some warning;
  mandatory_on_violation = false;
  coverage_drift_threshold = none;
}

-- The threshold is ten percent.
abbrev pub default_policies : ℕ → Dict String LifecyclePolicy
default_policies parts =
    ("ProjectPlan", default_policy "ProjectPlan" 3 2)
    ∷ (
      "ArchitecturePlan",
      record (default_policy "ArchitecturePlan" 6 5) { mandatory_on_violation = true },
    )
    ∷ (
      "TestPlan",
      record (default_policy "TestPlan" 3 2) { coverage_drift_threshold = some (10 * parts) },
    )
    ∷ ("ImplementationPlan", default_policy "ImplementationPlan" 6 5)
    ∷ ("ScaffoldPlan", default_policy "ScaffoldPlan" 6 5)
    ∷ ("RefactorPlan", default_policy "RefactorPlan" 3 2)
    ∷ ("ValidationResult", default_policy "ValidationResult" 1 0)
    ∷ []
