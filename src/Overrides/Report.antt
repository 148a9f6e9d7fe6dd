-- ===== src/Overrides/Report.antt =====
-- rice_factor/domain/services/override_scope_manager.py: expiry, `get_ci_flags`,
-- `check_scope_violations` and `generate_report`. The texts of the violations are left as the values
-- that they show.
use rice_factor.Prelude.{
  ℕ, ◌+◌, ◌-◌, ◌/◌, ◌≤◌, ◌≡◌, refl, String, Bool, not, ◌&&◌, List, [], ◌∷◌, ◌++◌, map, ltb, leb,
  arith, keep, any, All, length, if◌then◌else◌,
}
use rice_factor.Prelude.Eq.{◌==◌, text_eq}
use rice_factor.Overrides.Records.{
  OverrideScope, file, directory, project, artifact, scope_eq, OverrideRecord, CiFlag, ScopeManager,
}
use rice_factor.Overrides.Manager.{get_active_overrides, count_scope}
use rice_factor.Overrides.Limits.{WithinLimits}

-- 86400 seconds
abbrev pub day : ℕ
day = 86_400_000_000

-- `(now - created_at).days`, rounded down, as a difference: days past, and days ahead where the
-- record is from the future.
unfoldable pub days_past : ℕ → OverrideRecord → ℕ
days_past now r = (now - r.created_at) / day

unfoldable pub days_ahead : ℕ → OverrideRecord → ℕ
days_ahead now r = (r.created_at - now + (day - 1)) / day

-- `0 <= max_override_age_days - age_days <= days`
unfoldable pub is_expiring : ℕ → ℕ → ℕ → OverrideRecord → Bool
is_expiring now days max_age r =
    leb (days_past now r) (max_age + days_ahead now r)
    && leb (max_age + days_ahead now r) (days + days_past now r)

unfoldable pub get_expiring_overrides : ℕ → ℕ → ScopeManager → List OverrideRecord
get_expiring_overrides now days m =
    keep (is_expiring now days m.limits.max_override_age_days) (get_active_overrides m)

-- `age_days > max_override_age_days`
unfoldable pub is_expired : ℕ → ℕ → OverrideRecord → Bool
is_expired now max_age r = ltb (max_age + days_ahead now r) (days_past now r)

unfoldable pub get_expired_overrides : ℕ → ScopeManager → List OverrideRecord
get_expired_overrides now m =
    keep (is_expired now m.limits.max_override_age_days) (get_active_overrides m)

unfoldable pub get_ci_flags : ScopeManager → List CiFlag
get_ci_flags m =
    keep (λ f. any (λ r. r.override_id == f.override_id) (get_active_overrides m)) m.ci_flags

pub data Violation : Type 0 where
  limit_exceeded : OverrideScope → ℕ → ℕ → Violation
  expired : String → ℕ → Violation

unfoldable pub check_limit : OverrideScope → ℕ → ℕ → List Violation
check_limit sc current max = if ltb max current then limit_exceeded sc current max ∷ [] else []

unfoldable pub check_scope_violations : ℕ → ScopeManager → List Violation
check_scope_violations now m =
    let active = get_active_overrides m in
    (check_limit file (count_scope file active) m.limits.max_file_overrides
      ++ check_limit directory (count_scope directory active) m.limits.max_directory_overrides
      ++ check_limit project (count_scope project active) m.limits.max_project_overrides)
    ++ map (λ r. expired r.target_path (days_past now r)) (get_expired_overrides now m)

pub record ScopeReport : Type 0 where
  pub generated_at : ℕ
  pub file_overrides : ℕ
  pub directory_overrides : ℕ
  pub project_overrides : ℕ
  pub artifact_overrides : ℕ
  pub violations : List Violation
  pub expiring_soon : List OverrideRecord
  pub ci_flags : List CiFlag

unfoldable pub total_overrides : ScopeReport → ℕ
total_overrides r =
    r.file_overrides + r.directory_overrides + r.project_overrides + r.artifact_overrides

unfoldable pub has_violations : ScopeReport → Bool
has_violations r = ltb 0 (length r.violations)

unfoldable pub generate_report : ℕ → ScopeManager → ScopeReport
generate_report now m =
    let active = get_active_overrides m in
    record {
      generated_at = now;
      file_overrides = count_scope file active;
      directory_overrides = count_scope directory active;
      project_overrides = count_scope project active;
      artifact_overrides = count_scope artifact active;
      violations = check_scope_violations now m;
      expiring_soon = get_expiring_overrides now 7 m;
      ci_flags = get_ci_flags m;
    }

sum_of_scopes :
    (rs : List OverrideRecord)
    → count_scope file rs
        + count_scope directory rs
        + count_scope project rs
        + count_scope artifact rs
      ≡ length rs
unfolding count_scope
sum_of_scopes [] = refl
sum_of_scopes (r ∷ rs) = ground (arith, sum_of_scopes rs)

check_limit-within :
    (sc : OverrideScope) (current max : ℕ) → current ≤ max → check_limit sc current max ≡ []
unfolding check_limit
check_limit-within sc current max h = ground arith

-- The report counts each active override once, and, where the limits are kept, its violations are
-- exactly the expired overrides.
pub generate_report-total :
    (now : ℕ) (m : ScopeManager)
    → WithinLimits m
    → (total_overrides (generate_report now m) ≡ length (get_active_overrides m))
      × ((generate_report now m).violations
          ≡ map (λ r. expired r.target_path (days_past now r)) (get_expired_overrides now m))
unfolding generate_report total_overrides check_scope_violations
generate_report-total now m h = (
  sum_of_scopes (get_active_overrides m),
  rw
      (
        check_limit-within file (count_scope file (get_active_overrides m))
            m.limits.max_file_overrides h.files,
        check_limit-within directory (count_scope directory (get_active_overrides m))
            m.limits.max_directory_overrides h.directories,
        check_limit-within project (count_scope project (get_active_overrides m))
            m.limits.max_project_overrides h.projects,
      )
      refl,
)

-- A record that is not from the future is either expiring or expired, in a wide window.
is_expired-is_expiring :
    (now days max_age : ℕ) (r : OverrideRecord)
    → r.created_at ≤ now
    → max_age ≤ days
    → is_expired now max_age r ≡ not (is_expiring now days max_age r)
unfolding is_expired is_expiring days_ahead
is_expired-is_expiring now days max_age r past wide =
    let none_ahead : r.created_at - now ≡ 0 = omega arith in rw none_ahead (ground arith)

keep_partition :
    (now days max_age : ℕ) (rs : List OverrideRecord)
    → All (λ r. r.created_at ≤ now) rs
    → max_age ≤ days
    → length (keep (is_expiring now days max_age) rs) + length (keep (is_expired now max_age) rs)
      ≡ length rs
keep_partition now days max_age [] past wide = refl
keep_partition now days max_age (r ∷ rs) past wide = ground (
  arith,
  is_expired-is_expiring now days max_age r past.0 wide,
  keep_partition now days max_age rs past.1 wide,
)

-- For a window of `max_override_age_days` or more, and active overrides that were created in the
-- past, each of them is counted once among those that are expiring and those that have expired.
pub expiring_or_expired :
    (now days : ℕ) (m : ScopeManager)
    → All (λ r. r.created_at ≤ now) (get_active_overrides m)
    → m.limits.max_override_age_days ≤ days
    → length (get_expiring_overrides now days m) + length (get_expired_overrides now m)
      ≡ length (get_active_overrides m)
unfolding get_expiring_overrides get_expired_overrides
expiring_or_expired now days m past wide =
    keep_partition now days m.limits.max_override_age_days (get_active_overrides m) past wide
