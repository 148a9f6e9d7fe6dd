-- ===== src/Ci/Models.antt =====
-- rice_factor/domain/ci/models.py and failure_codes.py: stages, failures, stage results and the
-- pipeline's result. Durations, the timestamp and the texts built for display are left out.
use rice_factor.Prelude.{
  ℕ, ◌+◌, String, ◌≡◌, refl, Bool, true, not, Option, List, [], ◌∷◌, ◌++◌, arith, length, keep,
  length-append,
}
use rice_factor.Prelude.Eq.{Eq}
use rice_factor.Prelude.Dict.{Dict}
use rice_factor.Prelude.{eqb, ◌↔◌}

pub data CiStage : Type 0 where
  artifact_validation approval_verification invariant_enforcement : CiStage
  test_execution audit_verification : CiStage

abbrev pub ordinal : CiStage → ℕ
ordinal artifact_validation = 0
ordinal approval_verification = 1
ordinal invariant_enforcement = 2
ordinal test_execution = 3
ordinal audit_verification = 4

pub stage_beq_iff : (a b : CiStage) → (eqb (ordinal a) (ordinal b) ≡ true) ↔ (a ≡ b)
stage_beq_iff a b = ground arith

instance abbrev pub stage_eq : Eq CiStage
stage_eq = record { same = λ a b. eqb (ordinal a) (ordinal b); same_iff = stage_beq_iff }

pub data CiFailureCategory : Type 0 where
  artifact approval invariant audit : CiFailureCategory

pub data CiFailureCode : Type 0 where
  draft_artifact_present locked_artifact_modified schema_validation_failed : CiFailureCode
  artifact_hash_mismatch artifact_not_approved approval_metadata_missing : CiFailureCode
  approval_expired test_modification_after_lock unplanned_code_change : CiFailureCode
  architecture_violation test_failure lint_failure orphaned_code_change : CiFailureCode
  audit_integrity_violation audit_missing_entry audit_hash_chain_broken : CiFailureCode

unfoldable pub category : CiFailureCode → CiFailureCategory
category draft_artifact_present = artifact
category locked_artifact_modified = artifact
category schema_validation_failed = artifact
category artifact_hash_mismatch = artifact
category artifact_not_approved = approval
category approval_metadata_missing = approval
category approval_expired = approval
category test_modification_after_lock = invariant
category unplanned_code_change = invariant
category architecture_violation = invariant
category test_failure = invariant
category lint_failure = invariant
category orphaned_code_change = invariant
category audit_integrity_violation = audit
category audit_missing_entry = audit
category audit_hash_chain_broken = audit

pub record CiFailure : Type 0 where
  pub code : CiFailureCode
  pub message : String
  pub file_path : Option String
  pub line_number : Option ℕ
  pub remediation : Option String
  pub details : Option (Dict String String)

pub record CiStageResult : Type 0 where
  pub stage : CiStage
  pub passed : Bool
  pub failures : List CiFailure
  pub skipped : Bool
  pub skip_reason : Option String

pub record CiPipelineResult : Type 0 where
  pub passed : Bool
  pub stage_results : List CiStageResult

-- `sum(len(r.failures) for r in self.stage_results)`
unfoldable pub failure_count : List CiStageResult → ℕ
failure_count [] = 0
failure_count (r ∷ rs) = length r.failures + failure_count rs

-- the loop of `all_failures`: `failures.extend(result.failures)`
unfoldable pub all_failures : List CiStageResult → List CiFailure
all_failures [] = []
all_failures (r ∷ rs) = r.failures ++ all_failures rs

-- the counts under "summary" of `CIPipelineResult.to_dict`
pub record Summary : Type 0 where
  pub total_failures : ℕ
  pub stages_passed : ℕ
  pub stages_failed : ℕ
  pub stages_skipped : ℕ

unfoldable pub summary : CiPipelineResult → Summary
unfolding failure_count
summary p = record {
  total_failures = failure_count p.stage_results;
  stages_passed = length (keep (λ r. r.passed) p.stage_results);
  stages_failed = length (keep (λ r. not r.passed) p.stage_results);
  stages_skipped = length (keep (λ r. r.skipped) p.stage_results);
}

length-all_failures : (rs : List CiStageResult) → length (all_failures rs) ≡ failure_count rs
unfolding all_failures failure_count
length-all_failures [] = refl
length-all_failures (r ∷ rs) =
    omega (arith, length-append r.failures (all_failures rs), length-all_failures rs)

passed-add-failed :
    (rs : List CiStageResult)
    → length (keep (λ r. r.passed) rs) + length (keep (λ r. not r.passed) rs) ≡ length rs
passed-add-failed [] = omega arith
passed-add-failed (r ∷ rs) = ground (arith, passed-add-failed rs)

-- Of every pipeline result, whatever its stage results: the total of the summary is the number of
-- failures listed, and the stages counted as passed and as failed are together all the stages.
pub summary_accounts :
    (p : CiPipelineResult)
    → ((summary p).total_failures ≡ length (all_failures p.stage_results))
      × ((summary p).stages_passed + (summary p).stages_failed ≡ length p.stage_results)
unfolding summary
summary_accounts p =
    (omega (arith, length-all_failures p.stage_results), passed-add-failed p.stage_results)
