-- ===== src/Ci/FailFast.antt =====
-- What `stop_on_failure` does to a run, and what an exception in a validator does.
use rice_factor.Prelude.{
  ◌≡◌, refl, ap, Bool, true, false, ◌&&◌, some, List, [], ◌∷◌, map, arith, all, if◌then◌else◌,
}
use rice_factor.Prelude.Eq.{contains, ==_iff}
use rice_factor.Prelude.Dict.{Dict, get}
use rice_factor.Ci.Models.{CiStage, stage_eq, CiStageResult}
use rice_factor.Ci.Pipeline.{
  CiPipelineConfig, Validator, Outcome, returned, raised, get_stages_to_run, stage_result,
  call_validator, skipped_after_failure, run_stage, run_stages, run,
}
use rice_factor.Ci.Order.{Resumes, Resumes-get_stages_to_run, passed-run_stages, passed-run}

-- What a reader expects of fail-fast: the results up to the first failure, then a skipped result
-- for each stage that is left.
unfoldable pub cut : List CiStage → List CiStageResult → List CiStageResult
cut (s ∷ ss) (r ∷ rs) = r ∷ (if r.passed then cut ss rs else map skipped_after_failure ss)
cut ss rs = rs

abbrev pub fail_fast : CiPipelineConfig → CiPipelineConfig
fail_fast c = record c { stop_on_failure = true }

abbrev pub keep_going : CiPipelineConfig → CiPipelineConfig
keep_going c = record c { stop_on_failure = false }

module _ {W : Type 0} (c : CiPipelineConfig) (vs : Dict CiStage (Validator W)) where
  run_stage-fail_fast :
      (s : CiStage) (w : W) → run_stage (fail_fast c) vs s w ≡ run_stage (keep_going c) vs s w
  unfolding run_stage
  run_stage-fail_fast s w = refl

  results-fail_fast :
      (stages rest : List CiStage) (p q : Bool) (w : W)
      → Resumes stages rest
      → (run_stages (fail_fast c) vs stages rest p w).1
        ≡ cut rest (run_stages (keep_going c) vs stages rest q w).1
  unfolding run_stages cut
  results-fail_fast stages [] p q w res = refl
  results-fail_fast stages (s ∷ rest) p q w res =
      let t = run_stage (keep_going c) vs s w in
      ground (
        arith,
        run_stage-fail_fast s w,
        results-fail_fast stages rest (p && t.0.passed) (q && t.0.passed) t.1 res.1,
      )

  all_passed-skipped :
      (ss : List CiStage) → all (λ r. r.passed) (map skipped_after_failure ss) ≡ true
  all_passed-skipped [] = refl
  all_passed-skipped (s ∷ ss) = all_passed-skipped ss

  all_passed-cut :
      (ss : List CiStage) (rs : List CiStageResult)
      → all (λ r. r.passed) (cut ss rs) ≡ all (λ r. r.passed) rs
  unfolding cut
  all_passed-cut [] rs = refl
  all_passed-cut (s ∷ ss) [] = refl
  all_passed-cut (s ∷ ss) (r ∷ rs) = ground (arith, all_passed-cut ss rs)

  results-run :
      (w : W)
      → (run (fail_fast c) vs w).0.stage_results
        ≡ cut (get_stages_to_run c) (run (keep_going c) vs w).0.stage_results
  unfolding run get_stages_to_run
  results-run w =
      results-fail_fast (get_stages_to_run c) (get_stages_to_run c) true true w
        (Resumes-get_stages_to_run c)

  -- With `stop_on_failure` a run from any world passes exactly when the run without it passes, and
  -- reports the same results up to the first failed stage and a skipped result for each stage
  -- after it.
  pub run-fail_fast :
      (w : W)
      → ((run (fail_fast c) vs w).0.passed ≡ (run (keep_going c) vs w).0.passed)
        × ((run (fail_fast c) vs w).0.stage_results
            ≡ cut (get_stages_to_run c) (run (keep_going c) vs w).0.stage_results)
  run-fail_fast w = (
    cc (
      passed-run (fail_fast c) vs w,
      passed-run (keep_going c) vs w,
      ap (all (λ r. r.passed)) (results-run w),
      all_passed-cut (get_stages_to_run c) (run (keep_going c) vs w).0.stage_results,
    ),
    results-run w,
  )

-- The validator's outcome makes its stage fail: a failed result, or an exception.
abbrev pub Fails : Outcome → Type 0
Fails (returned r) = r.passed ≡ false
Fails (raised text name) = Unit

passed-stage_result : (s : CiStage) (o : Outcome) → Fails o → (stage_result s o).passed ≡ false
unfolding stage_result
passed-stage_result s (returned r) h = h
passed-stage_result s (raised text name) h = refl

module _ {W : Type 0} (c : CiPipelineConfig) (vs : Dict CiStage (Validator W)) where
  passed-run_stage :
      (s : CiStage) (v : Validator W) (w : W)
      → contains s c.skip_stages ≡ false
      → get s vs ≡ some v
      → Fails (v w).0
      → (run_stage c vs s w).0.passed ≡ false
  unfolding run_stage call_validator
  passed-run_stage s v w runs reg fails =
      rw runs (rw (reg, call_validator) (passed-stage_result s (v w).0 fails))

  failing-run_stages :
      (s : CiStage) (v : Validator W)
      → contains s c.skip_stages ≡ false
      → get s vs ≡ some v
      → ((w : W) → Fails (v w).0)
      → (stages rest : List CiStage) (p : Bool) (w : W) → contains s rest ≡ true
      → (run_stages c vs stages rest p w).0 ≡ false
  unfolding run_stages
  failing-run_stages s v runs reg fails stages [] p w h = cc
  failing-run_stages s v runs reg fails stages (t ∷ rest) p w h =
      let next = run_stage c vs t w in
      ground (
        arith,
        ==_iff t s,
        passed-run_stage s v w runs reg (fails w),
        passed-run_stages c vs stages rest (p && next.0.passed) next.1,
        failing-run_stages s v runs reg fails stages rest (p && next.0.passed) next.1,
      )

  -- A stage that is to run and is not skipped, with a validator that from every world raises or
  -- returns a failed result, makes the run fail, whatever the other validators do and whether or
  -- not the pipeline stops at failures.
  pub failing_stage-run :
      (s : CiStage) (v : Validator W) (w : W)
      → contains s (get_stages_to_run c) ≡ true
      → contains s c.skip_stages ≡ false
      → get s vs ≡ some v
      → ((w' : W) → Fails (v w').0)
      → (run c vs w).0.passed ≡ false
  unfolding run
  failing_stage-run s v w wanted runs reg fails =
      failing-run_stages s v runs reg fails (get_stages_to_run c) (get_stages_to_run c) true w
        wanted
