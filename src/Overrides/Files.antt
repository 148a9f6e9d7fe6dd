-- ===== src/Overrides/Files.antt =====
-- rice_factor/domain/services/override_scope_manager.py: `_save_records`, `_save_ci_flags`,
-- `_load_records` and `_load_ci_flags`, between the state and the entries of the JSON files.
use rice_factor.Prelude.{ℕ, String, false, Option, none, some, List, [], ◌∷◌, map, if◌then◌else◌}
use rice_factor.Prelude.Eq.{◌==◌, text_eq}
use rice_factor.Prelude.Dict.{Dict, values}
use rice_factor.Prelude.Table.{
  JsonFile, absent, corrupt, items, IsoTime, or_default, ◌>>=◌, load_table,
}
use rice_factor.Overrides.Records.{
  OverrideScope, file, directory, project, artifact, ScopeLimit, OverrideRecord, CiFlag, RecordJson,
  FlagJson, FoundFile, readable, misshapen, ScopeManager,
}

-- `OverrideScope.value` and `OverrideScope(text)`, `none` for the ValueError
unfoldable pub scope_value : OverrideScope → String
scope_value file = "file"
scope_value directory = "directory"
scope_value project = "project"
scope_value artifact = "artifact"

unfoldable pub scope_of : String → Option OverrideScope
scope_of s =
    if s == "file"
    then some file
    else if s == "directory"
    then some directory
    else if s == "project"
    then some project
    else if s == "artifact"
    then some artifact
    else none

abbrev pub map_option {ℓ κ} : {A : Type ℓ} {B : Type κ} → (A → B) → Option A → Option B
map_option f none = none
map_option f (some a) = some (f a)

module _ (iso : IsoTime) where
  unfoldable pub record_to_json : OverrideRecord → RecordJson
  unfolding scope_value
  record_to_json r = record {
    override_id = some r.override_id;
    scope = some (scope_value r.scope);
    target_path = some r.target_path;
    reason = some r.reason;
    created_at = some (iso.isoformat r.created_at);
    created_by = r.created_by;
    reconciled = some r.reconciled;
    reconciled_at = map_option iso.isoformat r.reconciled_at;
    ci_flagged = some r.ci_flagged;
    ci_flag_commit = r.ci_flag_commit;
  }

  unfoldable pub save_records : ScopeManager → ScopeManager
  save_records m = record m { records_file = items (map record_to_json (values m.records)) }

  unfoldable pub flag_to_json : CiFlag → FlagJson
  flag_to_json f = record {
    file_path = some f.file_path;
    override_id = some f.override_id;
    flagged_at = some (iso.isoformat f.flagged_at);
    flagged_commit = some f.flagged_commit;
    message = some f.message;
    severity = some f.severity;
  }

  unfoldable pub save_ci_flags : ScopeManager → ScopeManager
  save_ci_flags m = record m { flags_file = items (map flag_to_json m.ci_flags) }

  -- `if item.get("reconciled_at"): ...`; the outer `none` is the ValueError
  unfoldable pub read_reconciled_at : Option String → Option (Option ℕ)
  read_reconciled_at none = some none
  read_reconciled_at (some s) =
      if s == ""
      then some none
      else elim (iso.fromisoformat s) [ none ↦ none | some t ↦ some (some t) ]

  -- `none` is the KeyError or the ValueError
  unfoldable pub record_from_json : RecordJson → Option OverrideRecord
  unfolding scope_of read_reconciled_at
  record_from_json j = do
    reconciled_at ← read_reconciled_at j.reconciled_at
    override_id ← j.override_id
    scope_text ← j.scope
    scope ← scope_of scope_text
    target_path ← j.target_path
    reason ← j.reason
    created_text ← j.created_at
    created_at ← iso.fromisoformat created_text
    some (record {
      override_id = override_id;
      scope = scope;
      target_path = target_path;
      reason = reason;
      created_at = created_at;
      created_by = j.created_by;
      reconciled = or_default false j.reconciled;
      reconciled_at = reconciled_at;
      ci_flagged = or_default false j.ci_flagged;
      ci_flag_commit = j.ci_flag_commit;
    })

  unfoldable pub load_records : JsonFile RecordJson → Dict String OverrideRecord
  load_records f = load_table (λ r. r.override_id) record_from_json f

  unfoldable pub flag_from_json : FlagJson → Option CiFlag
  flag_from_json j = do
    file_path ← j.file_path
    override_id ← j.override_id
    flagged_text ← j.flagged_at
    flagged_at ← iso.fromisoformat flagged_text
    flagged_commit ← j.flagged_commit
    message ← j.message
    some (record {
      file_path = file_path;
      override_id = override_id;
      flagged_at = flagged_at;
      flagged_commit = flagged_commit;
      message = message;
      severity = or_default "warning" j.severity;
    })

  unfoldable pub read_flags : List FlagJson → Option (List CiFlag)
  read_flags [] = some []
  read_flags (j ∷ js) = elim (flag_from_json j) [
    | none ↦ none
    | some f ↦ map_option (◌∷◌ f) (read_flags js)
  ]

  unfoldable pub load_ci_flags : JsonFile FlagJson → List CiFlag
  unfolding read_flags
  load_ci_flags absent = []
  load_ci_flags corrupt = []
  load_ci_flags (items js) = or_default [] (read_flags js)

  unfoldable pub load_readable : ScopeLimit → JsonFile RecordJson → JsonFile FlagJson → ScopeManager
  load_readable l records flags = record {
    limits = l;
    records = load_records records;
    ci_flags = load_ci_flags flags;
    records_file = records;
    flags_file = flags;
  }

  -- A new manager over the files: `__post_init__`, `none` where it raises
  unfoldable pub load : ScopeLimit → FoundFile RecordJson → FoundFile FlagJson → Option ScopeManager
  unfolding load_readable
  load l (readable records) (readable flags) = some (load_readable l records flags)
  load l (readable records) misshapen = none
  load l misshapen flags = none
