-- ===== src/Ci/Pipeline.antt =====
-- rice_factor/domain/ci/pipeline.py: `CIPipeline`. A validator may read and change the world (the
-- repository, the test processes), so a call of `validate` takes a world and gives the next one;
-- it returns a stage result or raises an exception, of which the code reads the text and the type's
-- name. The clock readings and the labels (branch, commit, root) of the result are left out.
use rice_factor.Prelude.{
  ℕ, suc, String, Bool, true, false, not, ◌&&◌, Option, none, some, List, [], ◌∷◌, map, drop, keep,
  if◌then◌else◌,
}
use rice_factor.Prelude.Eq.{◌==◌, contains}
use rice_factor.Prelude.Dict.{Dict, get, put}
use rice_factor.Ci.Models.{
  CiStage, artifact_validation, approval_verification, invariant_enforcement, test_execution,
  audit_verification, stage_eq, schema_validation_failed, CiStageResult, CiPipelineResult,
}
use Prim.Native.String.{◌++◌}

pub record CiPipelineConfig : Type 0 where
  pub stop_on_failure : Bool
  pub stages_to_run : Option (List CiStage)
  pub skip_stages : List CiStage

abbrev pub stage_order : List CiStage
stage_order =
    artifact_validation ∷ approval_verification ∷ invariant_enforcement ∷ test_execution
    ∷ audit_verification ∷ []

pub data Outcome : Type 0 where
  returned : CiStageResult → Outcome
  raised : String → String → Outcome

abbrev pub Validator : Type 0 → Type 0
Validator W = W → Outcome × W

-- `_get_stages_to_run`
unfoldable pub get_stages_to_run : CiPipelineConfig → List CiStage
get_stages_to_run c = elim c.stages_to_run [
  | none ↦ stage_order
  | some wanted ↦ keep (λ s. contains s wanted) stage_order
]

abbrev pub skip : String → CiStage → CiStageResult
skip reason s = record {
  stage = s;
  passed = true;
  failures = [];
  skipped = true;
  skip_reason = some reason;
}

-- the `except` branch: the exception becomes a failed result
unfoldable pub stage_result : CiStage → Outcome → CiStageResult
stage_result s (returned r) = r
stage_result s (raised text name) = record {
  stage = s;
  passed = false;
  failures =
      (record {
        code = schema_validation_failed;
        message = "Stage execution error: " ++ text;
        file_path = none;
        line_number = none;
        remediation = none;
        details = some (("exception", name) ∷ []);
      })
      ∷ [];
  skipped = false;
  skip_reason = none;
}

-- `stages.index(stage)`; the loop asks only for stages that are there
unfoldable pub index : CiStage → List CiStage → ℕ
index s [] = 0
index s (t ∷ ts) = if t == s then 0 else suc (index s ts)

abbrev pub skipped_by_config : CiStage → CiStageResult
skipped_by_config = skip "Skipped by configuration"

abbrev pub skipped_unregistered : CiStage → CiStageResult
skipped_unregistered = skip "No validator registered"

abbrev pub skipped_after_failure : CiStage → CiStageResult
skipped_after_failure = skip "Skipped due to earlier failure"

module _ {W : Type 0} where
  -- `register_stage`
  unfoldable pub register_stage :
      CiStage → Validator W → Dict CiStage (Validator W) → Dict CiStage (Validator W)
  register_stage s v vs = put s v vs

  -- The validator registered for the stage is called; a stage without one is skipped.
  unfoldable pub call_validator : CiStage → Option (Validator W) → W → CiStageResult × W
  unfolding stage_result
  call_validator s none w = (skipped_unregistered s, w)
  call_validator s (some validate) w = let (o, w') = validate w in (stage_result s o, w')

module _ {W : Type 0} (c : CiPipelineConfig) (vs : Dict CiStage (Validator W)) where
  -- One round of the loop, up to the test whether to stop.
  unfoldable pub run_stage : CiStage → W → CiStageResult × W
  unfolding call_validator
  run_stage s w =
      if contains s c.skip_stages then (skipped_by_config s, w) else call_validator s (get s vs) w

  -- The loop over what is left of `stages`; a stage that was skipped has passed, so that the test
  -- of `result.passed` after it changes nothing.
  unfoldable pub run_stages : List CiStage → List CiStage → Bool → W → Bool × List CiStageResult × W
  run_stages stages [] passed w = (passed, [], w)
  run_stages stages (s ∷ rest) passed w =
      let (result, w') = run_stage s w in
      elim (not result.passed && c.stop_on_failure) [
        | true ↦
            (false, result ∷ map skipped_after_failure (drop (suc (index s stages)) stages), w')
        | false ↦
            let (p, results, w'') = run_stages stages rest (passed && result.passed) w' in
            (p, result ∷ results, w'')
      ]

  -- `run`: the result, and the world that the validators leave
  unfoldable pub run : W → CiPipelineResult × W
  unfolding run_stages
  run w =
      let stages = get_stages_to_run c in
      let (p, results, w') = run_stages stages stages true w in
      (record { passed = p; stage_results = results }, w')
