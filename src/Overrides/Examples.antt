-- ===== src/Overrides/Examples.antt =====
-- A scope manager in use, and the theorems at it.
use rice_factor.Prelude.{ℕ, ◌≤◌, ◌≡◌, refl, true, false, none, some, List, [], ◌∷◌, arith, All}
use rice_factor.Prelude.Eq.{text_eq}
use rice_factor.Prelude.Dict.{get, has, IsDict}
use rice_factor.Prelude.Table.{absent, load_table}
use rice_factor.Prelude.Marked.{marked_time}
use rice_factor.Overrides.Records.{
  file, directory, ScopeLimit, OverrideRecord, CiFlag, readable, ScopeManager,
}
use rice_factor.Overrides.Files.{load_records, load_ci_flags, load_readable, load}
use rice_factor.Overrides.Manager.{
  count_scope, get_active_overrides, Request, registered, new_record, check_scope_limits,
  first_flag, register_override, flag_for_ci, Operation, register, reconcile, flag, run,
}
use rice_factor.Overrides.Limits.{WithinLimits, run-WithinLimits}
use rice_factor.Overrides.Saved.{Keyed}
use rice_factor.Overrides.Reload.{load-run}
use rice_factor.Overrides.Paths.{first_affecting, scope_affects, normalized, get_override_for_path}
use rice_factor.Overrides.Flags.{flag_count, flag_for_ci-register_override}

abbrev default_limits : ScopeLimit
default_limits = record {
  max_file_overrides = 10;
  max_directory_overrides = 3;
  max_project_overrides = 1;
  max_override_age_days = 30;
  require_reason_min_length = 20;
}

abbrev billing : Request
billing = record {
  override_id = "o1";
  scope = directory;
  target_path = "src\\billing";
  reason = "the invoice parser is being replaced";
  created_by = none;
}

abbrev clock : Request
clock = record {
  override_id = "o2";
  scope = file;
  target_path = "src/clock.py";
  reason = "a hotfix for the release of today";
  created_by = some "ops";
}

abbrev start : ScopeManager
start = record {
  limits = default_limits;
  records = [];
  ci_flags = [];
  records_file = absent;
  flags_file = absent;
}

abbrev day_of_work : List Operation
day_of_work =
    register 5 billing ∷ register 6 clock ∷ flag 7 "o1" "c0ffee" "warning" ∷ reconcile 8 "o2" ∷ []

start-WithinLimits : WithinLimits start
unfolding get_active_overrides count_scope
start-WithinLimits = record {
  files = omega arith;
  directories = omega arith;
  projects = omega arith;
}

run-WithinLimits_example : WithinLimits (run marked_time day_of_work start)
run-WithinLimits_example = run-WithinLimits marked_time day_of_work start start-WithinLimits

abbrev fresh : ScopeManager
fresh = record {
  limits = default_limits;
  records = [];
  ci_flags = [];
  records_file = absent;
  flags_file = absent;
}

fresh-loads : load marked_time default_limits (readable absent) (readable absent) ≡ some fresh
unfolding load load_readable load_records load_ci_flags load_table
fresh-loads = refl

load-run_example :
    let m = run marked_time day_of_work fresh in
    load marked_time m.limits (readable m.records_file) (readable m.flags_file) ≡ some m
load-run_example =
    load-run marked_time default_limits (readable absent) (readable absent) fresh day_of_work
      fresh-loads

-- Two records, one of them reconciled.
abbrev billing_record : ℕ → OverrideRecord
billing_record now = record {
  override_id = "o1";
  scope = directory;
  target_path = "src\\billing";
  reason = "the invoice parser is being replaced";
  created_at = now;
  created_by = none;
  reconciled = false;
  reconciled_at = none;
  ci_flagged = false;
  ci_flag_commit = none;
}

abbrev clock_record : OverrideRecord
clock_record = record {
  override_id = "o2";
  scope = file;
  target_path = "src/clock.py";
  reason = "a hotfix for the release of today";
  created_at = 6;
  created_by = some "ops";
  reconciled = true;
  reconciled_at = some 8;
  ci_flagged = false;
  ci_flag_commit = none;
}

abbrev in_use : ScopeManager
in_use = record start { records = ("o2", clock_record) ∷ ("o1", billing_record 5) ∷ [] }

in_use-Keyed : Keyed in_use.records
unfolding IsDict has
in_use-Keyed = record { once = (refl, (refl, tt)); own_id = (refl, (refl, tt)) }

below : get_override_for_path "src/billing/tax.py" in_use ≡ some (billing_record 5)
unfolding get_override_for_path first_affecting get_active_overrides scope_affects normalized
below = refl

in_use-WithinLimits : WithinLimits in_use
unfolding get_active_overrides count_scope
in_use-WithinLimits = record {
  files = omega arith;
  directories = omega arith;
  projects = omega arith;
}

in_use-past : All (λ r. r.created_at ≤ 9) (get_active_overrides in_use)
unfolding get_active_overrides
in_use-past = (omega arith, tt)

no_flags : flag_count "o1" start.ci_flags ≤ 1
unfolding flag_count
no_flags = omega arith

abbrev old_flag : CiFlag
old_flag = record {
  file_path = "src\\billing";
  override_id = "o1";
  flagged_at = 7;
  flagged_commit = "c0ffee";
  message = "Override active: the invoice parser is being replaced...";
  severity = "warning";
}

abbrev flagged : ScopeManager
flagged = record in_use { ci_flags = old_flag ∷ [] }

has_flag : first_flag "o1" flagged.ci_flags ≡ some old_flag
unfolding first_flag
has_flag = refl

accepted : (register_override marked_time 20 billing flagged).0 ≡ registered (billing_record 20)
unfolding register_override check_scope_limits get_active_overrides count_scope new_record
accepted = refl

flag_for_ci-register_override_example :
    let m' = (register_override marked_time 20 billing flagged).1 in
    (flag_for_ci marked_time 21 "o1" "beef" "error" m' ≡ (some old_flag, m'))
    × (get "o1" m'.records ≡ some (billing_record 20))
    × ((billing_record 20).ci_flagged ≡ false)
flag_for_ci-register_override_example =
    flag_for_ci-register_override marked_time 20 21 billing flagged old_flag (billing_record 20)
      "beef" "error" has_flag accepted
