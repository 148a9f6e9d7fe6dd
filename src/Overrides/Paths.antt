-- ===== src/Overrides/Paths.antt =====
-- rice_factor/domain/services/override_scope_manager.py: `is_path_overridden` and
-- `get_override_for_path`, with the paths that an override covers.
use Prim.Native.Char.{code}
use text.Mathlib.Text.{starts_with}
use rice_factor.Prelude.{
  String, Bool, true, false, Option, none, some, List, [], ◌∷◌, eqb, if◌then◌else◌,
}
use rice_factor.Prelude.Eq.{◌==◌, text_eq}
use rice_factor.Overrides.Records.{
  OverrideScope, file, directory, project, artifact, OverrideRecord, ScopeManager,
}
use rice_factor.Overrides.Manager.{get_active_overrides}

-- `path.replace("\\", "/")`
unfoldable pub normalized : String → String
normalized String.[] = ""
normalized (String.◌∷◌ c s) =
    if eqb (code c) b'\\' then String.◌∷◌ "/" (normalized s) else String.◌∷◌ c (normalized s)

-- The tests of both loops, on the normalized paths.
unfoldable pub scope_affects : OverrideScope → String → String → Bool
scope_affects file path target = path == target
scope_affects directory path target =
    if starts_with path (Prim.Native.String.◌++◌ target "/") then true else path == target
scope_affects project path target = true
scope_affects artifact path target = false

unfoldable pub affects : String → OverrideRecord → Bool
affects path r = scope_affects r.scope (normalized path) (normalized r.target_path)

unfoldable pub any_affects : String → List OverrideRecord → Bool
unfolding affects
any_affects path [] = false
any_affects path (r ∷ rs) = if affects path r then true else any_affects path rs

unfoldable pub first_affecting : String → List OverrideRecord → Option OverrideRecord
unfolding affects
first_affecting path [] = none
first_affecting path (r ∷ rs) = if affects path r then some r else first_affecting path rs

unfoldable pub is_path_overridden : String → ScopeManager → Bool
is_path_overridden path m = any_affects path (get_active_overrides m)

unfoldable pub get_override_for_path : String → ScopeManager → Option OverrideRecord
get_override_for_path path m = first_affecting path (get_active_overrides m)
