-- ===== src/Review/Blocking.antt =====
-- Which artifacts block work, and which are due.
use rice_factor.Prelude.{
  ℕ, ◌*◌, ◌≡◌, ◌↔◌, refl, sym, ◌∙◌, Bool, true, false, ◌&&◌, ◌||◌, Option, none, some, List, [],
  ◌∷◌, keep, is_empty, leb, All, arith, inl, inr, Bool-cases, Option-cases,
}
use rice_factor.Prelude.Eq.{◌==◌, ==_iff, text_eq}
use rice_factor.Prelude.Dict.{get}
use rice_factor.Review.Policy.{
  Artifact, LifecyclePolicy, urgency_eq, requires_action, blocks_work, drifted, has_any,
  in_warning_period, check_age, check_violations, check_drift, evaluate,
}
use rice_factor.Review.Service.{
  LifecycleService, ask, violations_of, drift_of, results_of, evaluate_all, get_blocking_issues,
  check_can_proceed,
}

module _ {V : Type 0} (parts : ℕ) where
  -- The urgency follows from three questions: violations that count, an age at the review, a drift at
  -- the threshold.
  evaluate-blocks_work :
      (p : LifecyclePolicy) (a : Artifact) (vs : Option (List V)) (d : Option ℕ)
      → blocks_work (evaluate parts p a vs d).urgency
        ≡ (has_any parts vs && p.mandatory_on_violation)
  unfolding evaluate check_age check_violations check_drift in_warning_period
  evaluate-blocks_work p a vs d = ground arith

  evaluate-requires_action :
      (p : LifecyclePolicy) (a : Artifact) (vs : Option (List V)) (d : Option ℕ)
      → requires_action (evaluate parts p a vs d).urgency ≡ (
          (has_any parts vs && p.mandatory_on_violation)
          || leb (p.review_after_months * parts) a.age_months
          || drifted d p.coverage_drift_threshold)
  unfolding evaluate check_age check_violations check_drift in_warning_period
  evaluate-requires_action p a vs d = ground arith

  -- An artifact with a policy that makes violations mandatory, and with violations.
  pub record Blocked (s : LifecycleService V) (a : Artifact) : Type 0 where
    pub policy : LifecyclePolicy
    pub has_policy : get a.artifact_type s.policies ≡ some policy
    pub strict : policy.mandatory_on_violation ≡ true
    pub is_plan : a.artifact_type ≡ "ArchitecturePlan"
    pub validator : Artifact → List V
    pub has_validator : s.arch_validator ≡ some validator
    pub violated : is_empty (validator a) ≡ false

  has_any-ask :
      (b : Bool) (f : Option (Artifact → List V)) (a : Artifact)
      → has_any parts (ask b f a) ≡ true
      → (b ≡ true) × ((g : Artifact → List V) × (f ≡ some g) × (is_empty (g a) ≡ false))
  has_any-ask false f a h = cc
  has_any-ask true none a h = cc
  has_any-ask true (some g) a h = (refl, (g, refl, ground (arith, h)))

  blocks_work-Blocked :
      (s : LifecycleService V) (a : Artifact) (p : LifecyclePolicy)
      → get a.artifact_type s.policies ≡ some p
      → blocks_work (evaluate parts p a (violations_of parts s a) (drift_of parts s a)).urgency
        ≡ true
      → Blocked s a
  blocks_work-Blocked s a p known blocks =
      let e =
        sym (evaluate-blocks_work p a (violations_of parts s a) (drift_of parts s a)) ∙ blocks in
      let violating : has_any parts (violations_of parts s a) ≡ true = ground (arith, e) in
      let (plan, asked) =
        has_any-ask (a.artifact_type == "ArchitecturePlan") s.arch_validator a violating in
      let (g, there, violated) = asked in
      record {
        policy = p;
        has_policy = known;
        strict = ground (arith, e);
        is_plan = (==_iff a.artifact_type "ArchitecturePlan").0 plan;
        validator = g;
        has_validator = there;
        violated = violated;
      }

  Blocked-blocks_work :
      (s : LifecycleService V) (a : Artifact) (p : LifecyclePolicy)
      → get a.artifact_type s.policies ≡ some p
      → Blocked s a
      → blocks_work (evaluate parts p a (violations_of parts s a) (drift_of parts s a)).urgency
        ≡ true
  Blocked-blocks_work s a p known b =
      let same : p ≡ b.policy = cc (known, b.has_policy) in
      let plan : (a.artifact_type == "ArchitecturePlan") ≡ true =
        (==_iff a.artifact_type "ArchitecturePlan").1 b.is_plan in
      evaluate-blocks_work p a (violations_of parts s a) (drift_of parts s a)
      ∙ rw (plan, b.has_validator, b.violated, same, b.strict) refl

  results_of-Blocked :
      (s : LifecycleService V) (artifacts : List Artifact)
      → (is_empty (keep (λ r. blocks_work r.urgency) (results_of parts s artifacts)) ≡ true)
        ↔ All (λ a. ¬ Blocked s a) artifacts
  unfolding results_of
  results_of-Blocked s [] = ((λ e. tt), (λ a. refl))
  results_of-Blocked s (a ∷ artifacts) =
      let rest = results_of-Blocked s artifacts in
      elim (Option-cases (get a.artifact_type s.policies)) [
        | inl gone ↦ (
          (λ e. ((λ b. cc (gone, b.has_policy)), rest.0 (rw (gone, results_of) at e))),
          (λ h. rw (gone, results_of) (rest.1 h.1)),
        )
        | inr (p, known) ↦
            let result = evaluate parts p a (violations_of parts s a) (drift_of parts s a) in
            elim (Bool-cases (blocks_work result.urgency)) [
              | inl hit ↦ (
                (λ e. cc (rw (known, results_of, hit) at e)),
                (λ h. absurd (h.0 (blocks_work-Blocked s a p known hit))),
              )
              | inr miss ↦ (
                (λ e. (
                  (λ b. cc (miss, Blocked-blocks_work s a p known b)),
                  rest.0 (rw (known, results_of, miss) at e),
                )),
                (λ h. rw (known, results_of, miss) (rest.1 h.1)),
              )
            ]
      ]

  -- Work can proceed exactly if no artifact is blocked: none that is an architecture plan in which the
  -- validator finds violations, under a policy that makes these mandatory.
  pub check_can_proceed_iff :
      (s : LifecycleService V)
      → ((check_can_proceed parts s).0 ≡ true) ↔ All (λ a. ¬ Blocked s a) s.artifacts
  unfolding check_can_proceed get_blocking_issues evaluate_all
  check_can_proceed_iff s = results_of-Blocked s s.artifacts
