-- ===== src/Schema/Validate.antt =====
-- `validate_compatibility` and `needs_migration`.
use rice_factor.Prelude.{
  ℕ, ◌≡◌, Bool, true, false, not, Option, none, some, List, [], ◌∷◌, String, length, is_empty,
  if◌then◌else◌,
}
use rice_factor.Prelude.Eq.{◌==◌, text_eq}
use rice_factor.Prelude.Dict.{get}
use rice_factor.Prelude.Text.{Text, codes}
use rice_factor.Schema.Version.{
  SchemaVersion, version_eq, Chars, Parsed, version, parse_error, parse, CompatibilityLevel, full,
  forward, backward, breaking, is_compatible_with,
}
use rice_factor.Schema.Manager.{
  Value, text, other, Artifact, Migration, Manager, attribute_error, VersionArg, Result, ok, raise,
  ◌>>=◌, get_current_version,
}
use rice_factor.Schema.Path.{path_between}
use rice_factor.Schema.Migrate.{target_version}
pub mod Reports

-- The issues and warnings, by what their texts say.
pub data Note : Type 0 where
  invalid_version : Text → Note
  unknown_type : String → Note
  major_mismatch : SchemaVersion → SchemaVersion → Note
  path_available : ℕ → Note
  older newer : SchemaVersion → SchemaVersion → Note

pub record ValidationResult : Type 0 where
  pub compatible : Bool
  pub level : CompatibilityLevel
  pub issues : List Note
  pub warnings : List Note

-- `artifact_data.get("artifact_version", "1.0")` and `.strip()` on it
unfoldable pub spelling : {O : Type 0} → Option (Value O) → Result Text
spelling none = ok (codes "1.0")
spelling (some (text t)) = ok t
spelling (some (other o)) = raise attribute_error

unfoldable pub version_text : {O : Type 0} → Artifact O → Result Text
unfolding spelling
version_text d = spelling (get "artifact_version" d)

-- `if path: warnings.append(...)`
unfoldable pub path_note : {O : Type 0} → List (Migration O) → List Note
path_note p = if is_empty p then [] else path_available (length p) ∷ []

unfoldable pub report :
    {O : Type 0}
    → Manager O
    → String
    → SchemaVersion
    → SchemaVersion
    → CompatibilityLevel
    → Option ValidationResult
unfolding path_note
report m t v to breaking = elim (path_between m t v to) [
  | none ↦ none
  | some p ↦ some (record {
    compatible = false;
    level = breaking;
    issues = major_mismatch v to ∷ [];
    warnings = path_note p;
  })
]
report m t v to forward =
    some (record { compatible = true; level = forward; issues = []; warnings = older v to ∷ [] })
report m t v to backward =
    some (record { compatible = true; level = backward; issues = []; warnings = newer v to ∷ [] })
report m t v to full = some (record { compatible = true; level = full; issues = []; warnings = [] })

-- The last comparison of `needs_migration`.
unfoldable pub differs : Parsed → Option SchemaVersion → Bool
differs parse_error current = true
differs (version v) none = false
differs (version v) (some current) = not (v == current)

module _ {O : Type 0} (chars : Chars) where
  -- Against the target; `none` is a search that ran out of fuel.
  unfoldable pub validate_against :
      Manager O → String → SchemaVersion → Option SchemaVersion → Option ValidationResult
  unfolding report is_compatible_with
  validate_against m t v none =
      some (record { compatible = true; level = full; issues = []; warnings = unknown_type t ∷ [] })
  validate_against m t v (some to) = report m t v to (is_compatible_with v to)

  unfoldable pub validate_parsed :
      Manager O → String → Text → Parsed → Option VersionArg → Result (Option ValidationResult)
  unfolding validate_against target_version
  validate_parsed m t s parse_error to = ok (
      some (record {
        compatible = false;
        level = breaking;
        issues = invalid_version s ∷ [];
        warnings = [];
      }))
  validate_parsed m t s (version v) to = do
    target ← target_version chars m t to
    ok (validate_against m t v target)

  unfoldable pub validate_compatibility :
      Manager O → Artifact O → String → Option VersionArg → Result (Option ValidationResult)
  unfolding version_text validate_parsed parse
  validate_compatibility m d t to = do s ← version_text d; validate_parsed m t s (parse chars s) to

  unfoldable pub needs_migration : Manager O → Artifact O → String → Result Bool
  unfolding version_text differs parse get_current_version
  needs_migration m d t = do
    s ← version_text d
    ok (differs (parse chars s) (get_current_version t m))
