-- ===== src/Schema/Migrate.antt =====
-- `migrate`: the migrations of a path applied in their order, each stamping its version.
use rice_factor.Prelude.{
  ◌≡◌, Bool, true, false, Option, none, some, List, [], ◌∷◌, String, is_empty, if◌then◌else◌,
}
use rice_factor.Prelude.Eq.{◌==◌, text_eq}
use mathlib.Core.Option
use rice_factor.Prelude.Dict.{get, has, put}
use rice_factor.Prelude.Text.{Text, codes}
use rice_factor.Schema.Version.{SchemaVersion, version_eq, Chars, str}
use rice_factor.Schema.Manager.{
  Value, text, Artifact, Outcome, returns, raises, Migration, Manager, migration_error, VersionArg,
  Result, ok, raise, ◌>>=◌, resolve, get_current_version,
}
use rice_factor.Schema.Path.{path_between}
pub mod Applied
pub mod Outcomes
pub mod Stamped

abbrev pub no_path : Text
no_path = codes "No migration path found"

module _ {O : Type 0} where
  -- `if "artifact_version" in result: result["artifact_version"] = ...`
  unfoldable pub stamp : SchemaVersion → Artifact O → Artifact O
  stamp v d = if has "artifact_version" d then put "artifact_version" (text (str v)) d else d

  unfoldable pub stamped : String → Migration O → Outcome O → Result (Artifact O)
  unfolding stamp
  stamped t m (returns d) = ok (stamp m.to_version d)
  stamped t m (raises message) =
      raise (migration_error (str m.from_version) (str m.to_version) t message)

  unfoldable pub apply_step : String → Migration O → Artifact O → Result (Artifact O)
  unfolding stamped
  apply_step t m d = stamped t m (m.migrate d (str m.from_version) (str m.to_version))

  -- `for migration in path`
  unfoldable pub apply_all : String → List (Migration O) → Artifact O → Result (Artifact O)
  apply_all t [] d = ok d
  apply_all t (m ∷ p) d = do r ← apply_step t m d; apply_all t p r

  unfoldable pub along :
      String → SchemaVersion → SchemaVersion → Artifact O → List (Migration O) → Result (Artifact O)
  unfolding apply_all
  along t from to d p =
      if is_empty p then raise (migration_error (str from) (str to) t no_path) else apply_all t p d

  -- From one version to another; `none` is a search that ran out of fuel.
  unfoldable pub migrate_between :
      Manager O → String → SchemaVersion → SchemaVersion → Artifact O → Option (Result (Artifact O))
  unfolding along
  migrate_between m t from to d =
      if from == to then some (ok d) else Option.map (along t from to d) (path_between m t from to)

  module _ (chars : Chars) where
    -- The target: the current version if none is given, and none for a type that is not known.
    unfoldable pub target_version :
        Manager O → String → Option VersionArg → Result (Option SchemaVersion)
    unfolding resolve get_current_version
    target_version m t none = ok (get_current_version t m)
    target_version m t (some arg) = do v ← resolve chars arg; ok (some v)

    unfoldable pub migrate_to :
        Manager O
        → Artifact O
        → String
        → SchemaVersion
        → Result (Option SchemaVersion)
        → Option (Result (Artifact O))
    unfolding migrate_between
    migrate_to m d t from (raise e) = some (raise e)
    migrate_to m d t from (ok none) = some (ok d)
    migrate_to m d t from (ok (some to)) = migrate_between m t from to d

    unfoldable pub migrate_from :
        Manager O
        → Artifact O
        → String
        → Result SchemaVersion
        → Option VersionArg
        → Option (Result (Artifact O))
    unfolding migrate_to target_version
    migrate_from m d t (raise e) to = some (raise e)
    migrate_from m d t (ok from) to = migrate_to m d t from (target_version m t to)

    unfoldable pub migrate :
        Manager O
        → Artifact O
        → String
        → VersionArg
        → Option VersionArg
        → Option (Result (Artifact O))
    unfolding migrate_from resolve
    migrate m d t from to = migrate_from m d t (resolve chars from) to
