-- ===== src/Overrides/Records.antt =====
-- rice_factor/domain/services/override_scope_manager.py: the records, the CI flags, the state of
-- `OverrideScopeManager`, and the two JSON files under audit/. Times are microseconds in UTC.
use rice_factor.Prelude.{ℕ, ◌≡◌, ◌↔◌, String, Bool, true, false, Option, List, arith}
use rice_factor.Prelude.Eq.{Eq}
use rice_factor.Prelude.Dict.{Dict}
use rice_factor.Prelude.Table.{JsonFile}

pub data OverrideScope : Type 0 where
  file directory project artifact : OverrideScope

abbrev pub same_scope : OverrideScope → OverrideScope → Bool
same_scope file file = true
same_scope directory directory = true
same_scope project project = true
same_scope artifact artifact = true
same_scope a b = false

pub same_scope_iff : (a b : OverrideScope) → (same_scope a b ≡ true) ↔ (a ≡ b)
same_scope_iff a b = ground arith

instance abbrev pub scope_eq : Eq OverrideScope
scope_eq = record { same_iff = same_scope_iff; same = same_scope }

pub record ScopeLimit : Type 0 where
  pub max_file_overrides : ℕ
  pub max_directory_overrides : ℕ
  pub max_project_overrides : ℕ
  pub max_override_age_days : ℕ
  pub require_reason_min_length : ℕ

pub record OverrideRecord : Type 0 where
  pub override_id : String
  pub scope : OverrideScope
  pub target_path : String
  pub reason : String
  pub created_at : ℕ
  pub created_by : Option String
  pub reconciled : Bool
  pub reconciled_at : Option ℕ
  pub ci_flagged : Bool
  pub ci_flag_commit : Option String

pub record CiFlag : Type 0 where
  pub file_path : String
  pub override_id : String
  pub flagged_at : ℕ
  pub flagged_commit : String
  pub message : String
  pub severity : String

-- An entry of "records" in override_scopes.json, whose keys hold values of the types that the manager
-- writes: `none` for a key that is missing, and for created_by, reconciled_at and ci_flag_commit, where
-- it is the same to the code, also for null. A null under another key is outside of the model.
pub record RecordJson : Type 0 where
  pub override_id : Option String
  pub scope : Option String
  pub target_path : Option String
  pub reason : Option String
  pub created_at : Option String
  pub created_by : Option String
  pub reconciled : Option Bool
  pub reconciled_at : Option String
  pub ci_flagged : Option Bool
  pub ci_flag_commit : Option String

-- An entry of "flags" in ci_override_flags.json, in the same way: `none` for a key that is missing.
pub record FlagJson : Type 0 where
  pub file_path : Option String
  pub override_id : Option String
  pub flagged_at : Option String
  pub flagged_commit : Option String
  pub message : Option String
  pub severity : Option String

-- A file as a new manager finds it: one that it reads or drops, or JSON of another shape (no object, a
-- list of anything else), at which reading raises an AttributeError or a TypeError.
pub data FoundFile (A : Type 0) : Type 0 where
  readable : JsonFile A → FoundFile A
  misshapen : FoundFile A

pub record ScopeManager : Type 0 where
  pub limits : ScopeLimit
  pub records : Dict String OverrideRecord
  pub ci_flags : List CiFlag
  pub records_file : JsonFile RecordJson
  pub flags_file : JsonFile FlagJson
