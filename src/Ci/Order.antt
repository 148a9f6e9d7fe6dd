-- ===== src/Ci/Order.antt =====
-- Which stages a run of the pipeline reports, in which order, and when it has passed.
use rice_factor.Prelude.{
  suc, ◌≡◌, refl, ap, Bool, true, ◌&&◌, Option, none, some, List, [], ◌∷◌, map, arith, drop, keep,
  all, Bool-cases, inl, inr,
}
use rice_factor.Prelude.Eq.{contains}
use rice_factor.Prelude.Dict.{Dict, get}
use rice_factor.Ci.Models.{CiStage, stage_eq, CiStageResult}
use rice_factor.Ci.Pipeline.{
  CiPipelineConfig, Validator, Outcome, returned, raised, stage_order, get_stages_to_run,
  stage_result, index, call_validator, skipped_after_failure, run_stage, run_stages, run,
}

-- From each stage of `rest`, what `stages` has after it is what `rest` has after it.
abbrev pub Resumes : List CiStage → List CiStage → Type 0
Resumes stages [] = Unit
Resumes stages (s ∷ rest) = (drop (suc (index s stages)) stages ≡ rest) × Resumes stages rest

Resumes-keep : (p : CiStage → Bool) → Resumes (keep p stage_order) (keep p stage_order)
unfolding index
Resumes-keep p = ground arith

pub Resumes-get_stages_to_run :
    (c : CiPipelineConfig) → Resumes (get_stages_to_run c) (get_stages_to_run c)
unfolding get_stages_to_run index
Resumes-get_stages_to_run c = go c.stages_to_run
  where
    go :
        (o : Option (List CiStage))
        → let stages : List CiStage = elim o [
          | none ↦ stage_order
          | some wanted ↦ keep (λ s. contains s wanted) stage_order
        ] in
          Resumes stages stages
    go none = (refl, (refl, (refl, (refl, (refl, tt)))))
    go (some wanted) = Resumes-keep (λ s. contains s wanted)

-- Every validator that returns a result returns one for the stage that it is registered for.
module _ {W : Type 0} where
  abbrev pub AnswersOwnStage : Dict CiStage (Validator W) → Type 0
  AnswersOwnStage vs =
      (s : CiStage) (v : Validator W) (w : W) (r : CiStageResult)
      → get s vs ≡ some v
      → (v w).0 ≡ returned r
      → r.stage ≡ s

module _ {W : Type 0} (c : CiPipelineConfig) (vs : Dict CiStage (Validator W)) where
  stage-stage_result :
      (s : CiStage) (v : Validator W) (w : W)
      → AnswersOwnStage vs
      → get s vs ≡ some v
      → (o : Outcome) → (v w).0 ≡ o
      → (stage_result s o).stage ≡ s
  unfolding stage_result
  stage-stage_result s v w own g (returned r) e = own s v w r g e
  stage-stage_result s v w own g (raised text name) e = refl

  stage-call_validator :
      (s : CiStage) (o : Option (Validator W)) (w : W)
      → AnswersOwnStage vs
      → get s vs ≡ o
      → (call_validator s o w).0.stage ≡ s
  unfolding call_validator
  stage-call_validator s none w own g = refl
  stage-call_validator s (some v) w own g = stage-stage_result s v w own g (v w).0 refl

  stage-run_stage : (s : CiStage) (w : W) → AnswersOwnStage vs → (run_stage c vs s w).0.stage ≡ s
  unfolding run_stage
  stage-run_stage s w own = elim (Bool-cases (contains s c.skip_stages)) [
    | inl skipped ↦ rw skipped
    | inr runs ↦ rw runs (stage-call_validator s (get s vs) w own refl)
  ]

  map-stage-skipped : (ss : List CiStage) → map (λ r. r.stage) (map skipped_after_failure ss) ≡ ss
  map-stage-skipped [] = refl
  map-stage-skipped (s ∷ ss) = ap (◌∷◌ s) (map-stage-skipped ss)

  map-stage-run_stages :
      (stages rest : List CiStage) (p : Bool) (w : W)
      → AnswersOwnStage vs
      → Resumes stages rest
      → map (λ r. r.stage) (run_stages c vs stages rest p w).1 ≡ rest
  unfolding run_stages
  map-stage-run_stages stages [] p w own res = refl
  map-stage-run_stages stages (s ∷ rest) p w own res = ground (
    arith,
    stage-run_stage s w own,
    map-stage-skipped rest,
    map-stage-run_stages stages rest (p && (run_stage c vs s w).0.passed) (run_stage c vs s w).1 own
        res.1,
  )

  pub passed-run_stages :
      (stages rest : List CiStage) (p : Bool) (w : W)
      → (run_stages c vs stages rest p w).0
        ≡ (p && all (λ r. r.passed) (run_stages c vs stages rest p w).1)
  unfolding run_stages
  passed-run_stages stages [] p w = ground arith
  passed-run_stages stages (s ∷ rest) p w = ground (
    arith,
    passed-run_stages stages rest (p && (run_stage c vs s w).0.passed) (run_stage c vs s w).1,
  )

  -- If each validator answers for its own stage, a run reports every stage to run exactly once, in
  -- the pipeline's order, whether it passed, failed, raised or was skipped.
  pub stage_results-run :
      (w : W)
      → AnswersOwnStage vs
      → map (λ r. r.stage) (run c vs w).0.stage_results ≡ get_stages_to_run c
  unfolding run
  stage_results-run w own =
      map-stage-run_stages (get_stages_to_run c) (get_stages_to_run c) true w own
        (Resumes-get_stages_to_run c)

  -- A run has passed exactly when every stage result that it reports has passed.
  pub passed-run :
      (w : W) → (run c vs w).0.passed ≡ all (λ r. r.passed) (run c vs w).0.stage_results
  unfolding run
  passed-run w = passed-run_stages (get_stages_to_run c) (get_stages_to_run c) true w
