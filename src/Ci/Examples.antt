-- ===== src/Ci/Examples.antt =====
-- Runs of the pipeline over a world that counts the validators called, and the theorems at them.
use rice_factor.Prelude.{
  ℕ, suc, ◌+◌, ◌≡◌, refl, true, false, Option, none, some, [], ◌∷◌, arith, length, ap,
}
use rice_factor.Prelude.Dict.{Dict, get, put}
use rice_factor.Ci.Models.{
  CiStage, artifact_validation, approval_verification, test_execution, audit_verification, stage_eq,
  CiStageResult, summary, all_failures, summary_accounts,
}
use rice_factor.Ci.Pipeline.{
  CiPipelineConfig, Validator, Outcome, returned, raised, get_stages_to_run, run_stage,
  register_stage, run,
}
use rice_factor.Ci.Order.{AnswersOwnStage}
use rice_factor.Ci.FailFast.{cut, fail_fast, keep_going, run-fail_fast}

abbrev plain : CiStage → CiStageResult
plain s = record { stage = s; passed = true; failures = []; skipped = false; skip_reason = none }

-- The world counts the calls.
abbrev passing : CiStage → Validator ℕ
passing s n = (returned (plain s), suc n)

abbrev raising : Validator ℕ
raising n = (raised "boom" "ValueError", suc n)

abbrev validators : Dict CiStage (Validator ℕ)
validators =
    (artifact_validation, passing artifact_validation)
    ∷ (approval_verification, raising)
    ∷ (test_execution, passing test_execution)
    ∷ []

abbrev config : CiPipelineConfig
config = record {
  stop_on_failure = true;
  stages_to_run = none;
  skip_stages = audit_verification ∷ [];
}

-- Fail-fast calls two validators; without it three are called.
calls-fail_fast : (run (fail_fast config) validators 0).1 ≡ 2
unfolding run run_stage get_stages_to_run get
calls-fail_fast = refl

calls-keep_going : (run (keep_going config) validators 0).1 ≡ 3
unfolding run run_stage get_stages_to_run get
calls-keep_going = refl

registered : get test_execution (register_stage test_execution raising validators) ≡ some raising
unfolding register_stage get put
registered = refl

abbrev answer : ℕ → Option (Validator ℕ) → Outcome
answer w none = raised "" ""
answer w (some v) = (v w).0

validators-AnswersOwnStage : AnswersOwnStage validators
unfolding get
validators-AnswersOwnStage artifact_validation v w r g e = ground (arith, ap (answer w) g)
validators-AnswersOwnStage s v w r g e = ground (arith, ap (answer w) g)

run-fail_fast_example :
    ((run (fail_fast config) validators 0).0.passed
      ≡ (run (keep_going config) validators 0).0.passed)
    × ((run (fail_fast config) validators 0).0.stage_results
        ≡ cut (get_stages_to_run config) (run (keep_going config) validators 0).0.stage_results)
run-fail_fast_example = run-fail_fast config validators 0

summary_accounts_example :
    let p = (run config validators 0).0 in
    ((summary p).total_failures ≡ length (all_failures p.stage_results))
    × ((summary p).stages_passed + (summary p).stages_failed ≡ length p.stage_results)
summary_accounts_example = summary_accounts (run config validators 0).0
