-- ===== src/Overrides/Manager.antt =====
-- rice_factor/domain/services/override_scope_manager.py: the operations that change the state.
use Prim.Native.String.{count}
use rice_factor.Prelude.{
  ℕ, zero, suc, ◌+◌, String, Bool, true, false, not, Option, none, some, List, [], ◌∷◌, ◌++◌, ltb,
  leb, keep, if◌then◌else◌,
}
use rice_factor.Prelude.Eq.{◌==◌, text_eq}
use rice_factor.Prelude.Dict.{values, get, put}
use rice_factor.Prelude.Table.{IsoTime}
use rice_factor.Overrides.Records.{
  OverrideScope, file, directory, project, artifact, scope_eq, OverrideRecord, CiFlag, ScopeManager,
}
use rice_factor.Overrides.Files.{save_records, save_ci_flags}

unfoldable pub get_active_overrides : ScopeManager → List OverrideRecord
get_active_overrides m = keep (λ r. not r.reconciled) (values m.records)

unfoldable pub get_overrides_by_scope : OverrideScope → ScopeManager → List OverrideRecord
get_overrides_by_scope sc m = keep (λ r. r.scope == sc) (get_active_overrides m)

-- `counts[scope]` after the loop `counts[record.scope] += 1`
unfoldable pub count_scope : OverrideScope → List OverrideRecord → ℕ
count_scope sc [] = 0
count_scope sc (r ∷ rs) = let n = count_scope sc rs in if r.scope == sc then n + 1 else n

pub record ScopeLimitViolation : Type 0 where
  pub limit : String
  pub current : ℕ
  pub max_allowed : ℕ

abbrev pub violation : String → ℕ → ℕ → Option ScopeLimitViolation
violation name current max =
    if leb max current
    then some (record { limit = name; current = current; max_allowed = max })
    else none

-- `_check_scope_limits`; `some` is what it raises
unfoldable pub check_scope_limits : OverrideScope → ScopeManager → Option ScopeLimitViolation
check_scope_limits file m =
    violation "max_file_overrides" (count_scope file (get_active_overrides m))
      m.limits.max_file_overrides
check_scope_limits directory m =
    violation "max_directory_overrides" (count_scope directory (get_active_overrides m))
      m.limits.max_directory_overrides
check_scope_limits project m =
    violation "max_project_overrides" (count_scope project (get_active_overrides m))
      m.limits.max_project_overrides
check_scope_limits artifact m = none

-- What `register_override` returns or raises.
pub data Registered : Type 0 where
  registered : OverrideRecord → Registered
  reason_too_short : Registered
  limit_violated : ScopeLimitViolation → Registered

-- The arguments of `register_override`.
pub record Request : Type 0 where
  pub override_id : String
  pub scope : OverrideScope
  pub target_path : String
  pub reason : String
  pub created_by : Option String

unfoldable pub new_record : ℕ → Request → OverrideRecord
new_record now q = record {
  override_id = q.override_id;
  scope = q.scope;
  target_path = q.target_path;
  reason = q.reason;
  created_at = now;
  created_by = q.created_by;
  reconciled = false;
  reconciled_at = none;
  ci_flagged = false;
  ci_flag_commit = none;
}

-- `reason[:n]`
unfoldable pub first_chars : ℕ → String → String
first_chars zero s = ""
first_chars (suc n) String.[] = ""
first_chars (suc n) (String.◌∷◌ c s) = String.◌∷◌ c (first_chars n s)

unfoldable pub first_flag : String → List CiFlag → Option CiFlag
first_flag id [] = none
first_flag id (f ∷ fs) = if f.override_id == id then some f else first_flag id fs

unfoldable pub new_flag : ℕ → String → String → String → OverrideRecord → CiFlag
unfolding first_chars
new_flag now id commit severity r = record {
  file_path = r.target_path;
  override_id = id;
  flagged_at = now;
  flagged_commit = commit;
  message =
      Prim.Native.String.◌++◌ "Override active: "
        (Prim.Native.String.◌++◌ (first_chars 50 r.reason) "...");
  severity = severity;
}

module _ (iso : IsoTime) where
  unfoldable pub register_override : ℕ → Request → ScopeManager → Registered × ScopeManager
  unfolding new_record
  register_override now q m =
      if ltb (count q.reason) m.limits.require_reason_min_length
      then (reason_too_short, m)
      else elim (check_scope_limits q.scope m) [
        | some v ↦ (limit_violated v, m)
        | none ↦
            let r = new_record now q in
            (registered r, save_records iso (record m { records = put q.override_id r m.records }))
      ]

  unfoldable pub reconcile_override : ℕ → String → ScopeManager → Bool × ScopeManager
  reconcile_override now id m = elim (get id m.records) [
    | none ↦ (false, m)
    | some r ↦
        let done = record r { reconciled = true; reconciled_at = some now } in
        let m' = save_records iso (record m { records = put id done m.records }) in
        (
          true,
          save_ci_flags iso
              (record m' { ci_flags = keep (λ f. not (f.override_id == id)) m'.ci_flags }),
        )
  ]

  unfoldable pub flag_for_ci :
      ℕ → String → String → String → ScopeManager → Option CiFlag × ScopeManager
  flag_for_ci now id commit severity m = elim (get id m.records) [
    | none ↦ (none, m)
    | some r ↦ elim (first_flag id m.ci_flags) [
      | some f ↦ (some f, m)
      | none ↦
          let f = new_flag now id commit severity r in
          let r' = record r { ci_flagged = true; ci_flag_commit = some commit } in
          let m' = record m { ci_flags = m.ci_flags ++ (f ∷ []); records = put id r' m.records } in
          (some f, save_ci_flags iso (save_records iso m'))
    ]
  ]

-- An operation with the time at which it runs, and what it makes of the state.
pub data Operation : Type 0 where
  register : ℕ → Request → Operation
  reconcile : ℕ → String → Operation
  flag : ℕ → String → String → String → Operation

module _ (iso : IsoTime) where
  unfoldable pub apply : Operation → ScopeManager → ScopeManager
  apply (register now q) m = (register_override iso now q m).1
  apply (reconcile now id) m = (reconcile_override iso now id m).1
  apply (flag now id commit severity) m = (flag_for_ci iso now id commit severity m).1

  unfoldable pub run : List Operation → ScopeManager → ScopeManager
  unfolding apply
  run [] m = m
  run (o ∷ os) m = run os (apply o m)
