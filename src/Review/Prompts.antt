-- ===== src/Review/Prompts.antt =====
-- `generate_prompts`: the messages and actions of LifecycleService, by what their texts say.
use rice_factor.Prelude.{
  ℕ, ◌≡◌, ◌↔◌, refl, inl, inr, String, Bool, true, false, not, Option, none, some, List, [], ◌∷◌,
  ◌++◌, ◌&&◌, ◌||◌, all, any, keep, length, eqb, ltb, is_empty, All, if◌then◌else◌, Bool-cases,
  Option-cases, arith,
}
use rice_factor.Prelude.Eq.{Eq, ◌==◌, text_eq, contains}
use rice_factor.Prelude.Dict.{get}
use rice_factor.Prelude.Table.{◌>>=◌}
use rice_factor.Review.Policy.{
  Artifact, LifecyclePolicy, PolicyResult, ReviewTrigger, age, violation, drift, manual,
  ReviewUrgency, recommended, required, mandatory, urgency_eq, requires_action, blocks_work,
  in_warning_period, check_age, check_violations, check_drift, evaluate,
}
use rice_factor.Review.Service.{LifecycleService, violations_of, drift_of, results_of, prompted}
use mathlib.Core.Option
use mathlib.Core.Path.{subst}

abbrev trigger_rank : ReviewTrigger → ℕ
trigger_rank age = 0
trigger_rank violation = 1
trigger_rank drift = 2
trigger_rank manual = 3

abbrev pub same_trigger : ReviewTrigger → ReviewTrigger → Bool
same_trigger t u = eqb (trigger_rank t) (trigger_rank u)

pub same_trigger_iff : (t u : ReviewTrigger) → (same_trigger t u ≡ true) ↔ (t ≡ u)
same_trigger_iff t u = ground arith

instance abbrev pub trigger_eq : Eq ReviewTrigger
trigger_eq = record { same_iff = same_trigger_iff; same = same_trigger }

pub data Reason : Type 0 where
  of_age of_drift : ℕ → Reason

-- The texts of `_format_message`; each names the artifact.
pub data Message : Type 0 where
  blocking_violations : ℕ → Message
  blocking : Message
  review_required : List Reason → Message
  review_soon : ℕ → Message
  for_information : ℕ → Message

-- The texts of `_suggested_actions`.
pub data Action : Type 0 where
  fix_violations run_review review_artifact consider_extend no_action : Action

pub record ReviewPrompt : Type 0 where
  pub artifact_id : String
  pub artifact_type : String
  pub urgency : ReviewUrgency
  pub message : Message
  pub actions : List Action

module _ {V : Type 0} where
  -- Formatting a drift that is `None` raises.
  unfoldable pub drift_reasons : PolicyResult V → Option (List Reason)
  drift_reasons r =
      if contains drift r.triggers
      then Option.map (λ d. of_drift d ∷ []) r.coverage_drift
      else some []

  unfoldable pub reasons : PolicyResult V → Option (List Reason)
  unfolding drift_reasons
  reasons r =
      let aged : List Reason = if contains age r.triggers then of_age r.age_months ∷ [] else [] in
      Option.map (λ rest. aged ++ rest) (drift_reasons r)

  -- `none` where it raises
  unfoldable pub format_message : PolicyResult V → Option Message
  unfolding reasons
  format_message r =
      if r.urgency == mandatory
      then some (
          if contains violation r.triggers
          then blocking_violations (length r.violations)
          else blocking)
      else if r.urgency == required
      then Option.map review_required (reasons r)
      else if r.urgency == recommended
      then some (review_soon r.age_months)
      else some (for_information r.age_months)

  unfoldable pub suggested_actions : PolicyResult V → List Action
  suggested_actions r =
      if blocks_work r.urgency
      then (if contains violation r.triggers then fix_violations ∷ [] else []) ++ (run_review ∷ [])
      else if requires_action r.urgency
      then review_artifact ∷ consider_extend ∷ []
      else no_action ∷ []

  unfoldable pub prompt : PolicyResult V → Option ReviewPrompt
  unfolding format_message suggested_actions
  prompt r =
      Option.map
        (λ m. record {
          artifact_id = r.artifact_id;
          artifact_type = r.artifact_type;
          urgency = r.urgency;
          message = m;
          actions = suggested_actions r;
        })
        (format_message r)

  unfoldable pub prompts_of : List (PolicyResult V) → Option (List ReviewPrompt)
  unfolding prompt
  prompts_of [] = some []
  prompts_of (r ∷ rs) = do p ← prompt r; ps ← prompts_of rs; some (p ∷ ps)

  unfoldable pub generate_prompts : ℕ → LifecycleService V → Option (List ReviewPrompt)
  unfolding prompts_of
  generate_prompts parts s = prompts_of (prompted parts s)

abbrev pub names_age : Reason → Bool
names_age (of_age months) = true
names_age (of_drift d) = false

abbrev pub names_drift : Reason → Bool
names_drift (of_age months) = false
names_drift (of_drift d) = true

module _ {V : Type 0} where
  -- A reason is one of the result's own: its age or its drift, with a trigger for it.
  abbrev pub is_reason : PolicyResult V → Reason → Bool
  is_reason r (of_age months) = contains age r.triggers && eqb months r.age_months
  is_reason r (of_drift d) =
      contains drift r.triggers && elim r.coverage_drift [ none ↦ false | some e ↦ eqb d e ]

  -- The reasons are the result's own, and there is one for the age and one for the drift if these are
  -- triggers.
  abbrev pub gives_reasons : PolicyResult V → List Reason → Bool
  gives_reasons r rs =
      not (is_empty rs)
      && all (is_reason r) rs
      && (not (contains age r.triggers) || any names_age rs)
      && (not (contains drift r.triggers) || any names_drift rs)

  -- A message fits a result: its urgency, and the count, the reasons or the age that it gives.
  abbrev pub fits : PolicyResult V → ReviewUrgency → Message → Bool
  fits r mandatory (blocking_violations n) = ltb 0 n && eqb n (length r.violations)
  fits r required (review_required rs) = gives_reasons r rs
  fits r recommended (review_soon months) = eqb months r.age_months
  fits r u m = false

  abbrev fits_some : PolicyResult V → Option Message → Bool
  fits_some r none = false
  fits_some r (some m) = fits r r.urgency m

  -- Each prompt is for its result, with a message that fits it.
  abbrev pub Fit : List (PolicyResult V) → List ReviewPrompt → Type 0
  Fit [] [] = Unit
  Fit (r ∷ rs) (p ∷ ps) =
      ((p.artifact_id ≡ r.artifact_id)
        × (p.artifact_type ≡ r.artifact_type)
        × (p.urgency ≡ r.urgency)
        × (fits r r.urgency p.message ≡ true))
      × Fit rs ps
  Fit rs ps = ⊥

module _ {V : Type 0} (parts : ℕ) where
  -- Where there are triggers there is a message, and it fits.
  evaluate-fits :
      (p : LifecyclePolicy) (a : Artifact) (violations : Option (List V)) (d : Option ℕ)
      → let r = evaluate parts p a violations d in
        is_empty r.triggers ≡ false → fits_some r (format_message r) ≡ true
  unfolding evaluate check_age check_violations check_drift in_warning_period format_message reasons
      drift_reasons
  evaluate-fits p a none none h = ground arith
  evaluate-fits p a none (some d) h = ground arith
  evaluate-fits p a (some []) none h = ground arith
  evaluate-fits p a (some []) (some d) h = ground arith
  evaluate-fits p a (some (x ∷ xs)) none h = ground arith
  evaluate-fits p a (some (x ∷ xs)) (some d) h = ground arith

  abbrev Answers : PolicyResult V → Type 0
  Answers r = fits_some r (format_message r) ≡ true

  results_of-Answers :
      (s : LifecycleService V) (artifacts : List Artifact)
      → All (λ r. Answers r) (keep (λ r. not (is_empty r.triggers)) (results_of parts s artifacts))
  unfolding results_of
  results_of-Answers s [] = tt
  results_of-Answers s (a ∷ rest) = elim (Option-cases (get a.artifact_type s.policies)) [
    | inl unknown ↦ rw (unknown, results_of) (results_of-Answers s rest)
    | inr (p, known) ↦
        let r = evaluate parts p a (violations_of parts s a) (drift_of parts s a) in
        rw (known, results_of)
          (elim (Bool-cases (is_empty r.triggers)) [
            | inl quiet ↦ rw quiet (results_of-Answers s rest)
            | inr due ↦ rw due (
              evaluate-fits p a (violations_of parts s a) (drift_of parts s a) due,
              results_of-Answers s rest,
            )
          ])
  ]

  -- The prompts for a list of results: one for each, with a message that fits.
  abbrev pub Prompts : List (PolicyResult V) → Option (List ReviewPrompt) → Type 0
  Prompts rs o = (ps : List ReviewPrompt) × (o ≡ some ps) × Fit rs ps

  prompts_of-Prompts :
      (rs : List (PolicyResult V)) → All (λ r. Answers r) rs → Prompts rs (prompts_of rs)
  unfolding prompts_of prompt
  prompts_of-Prompts [] h = ([], refl, tt)
  prompts_of-Prompts (r ∷ rs) h = elim (Option-cases (format_message r)) [
    | inl silent ↦ cc (subst (λ o. fits_some r o ≡ true) silent h.0)
    | inr (m, told) ↦
        let (ps, runs, fit) = prompts_of-Prompts rs h.1 in
        let p : ReviewPrompt = record {
          artifact_id = r.artifact_id;
          artifact_type = r.artifact_type;
          urgency = r.urgency;
          message = m;
          actions = suggested_actions r;
        } in
        (
          p ∷ ps,
          rw (told, ◌>>=◌, runs, ◌>>=◌) refl,
          ((refl, refl, refl, subst (λ o. fits_some r o ≡ true) told h.0), fit),
        )
  ]

  -- `generate_prompts` does not raise: it gives one prompt for each result with triggers, in order, with
  -- its id, type and urgency. None is for information alone: the message of a mandatory review counts
  -- the result's violations, at least one; that of a required review lists reasons, at least one, all of
  -- them the age or the drift of the result with a trigger for it, the age if it is a trigger and the
  -- drift if it is one; that of a recommended review gives the age.
  pub generate_prompts-Prompts :
      (s : LifecycleService V) → Prompts (prompted parts s) (generate_prompts parts s)
  unfolding generate_prompts prompted
  generate_prompts-Prompts s =
      prompts_of-Prompts (prompted parts s) (results_of-Answers s s.artifacts)
