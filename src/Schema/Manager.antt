-- ===== src/Schema/Manager.antt =====
-- `SchemaVersionManager`: its two tables, and what sets and reads them. The lock makes each method
-- one step.
use rice_factor.Prelude.{
  ℕ, ◌≡◌, Bool, true, false, ◌&&◌, Option, none, some, List, [], ◌∷◌, ◌++◌, map, String, length,
  ltb, leb, eqb, refl, if◌then◌else◌,
}
use rice_factor.Prelude.Eq.{◌==◌, text_eq}
use rice_factor.Prelude.Dict.{Dict, keys, get, has, put}
use rice_factor.Prelude.Table.{or_default}
use rice_factor.Prelude.Text.{Text}
use rice_factor.Schema.Version.{
  SchemaVersion, version_eq, le_version, Chars, Parsed, version, parse_error, parse,
}
pub mod Sorted
pub mod Consistent

-- A value of an artifact's data: a text, or anything else.
pub data Value (O : Type 0) : Type 0 where
  text : Text → Value O
  other : O → Value O

abbrev pub Artifact : Type 0 → Type 0
Artifact O = Dict String (Value O)

-- A migration function returns new data or raises with a message.
pub data Outcome (O : Type 0) : Type 0 where
  returns : Artifact O → Outcome O
  raises : Text → Outcome O

abbrev pub MigrationFunc : Type 0 → Type 0
MigrationFunc O = Artifact O → Text → Text → Outcome O

pub record Migration (O : Type 0) : Type 0 where
  pub from_version : SchemaVersion
  pub to_version : SchemaVersion
  pub artifact_type : String
  pub migrate : MigrationFunc O
  pub rollback : Option (MigrationFunc O)
  pub description : Text

-- `VersionParseError`, `MigrationError`, and the error of `.strip` on a value that is no text
pub data Error : Type 0 where
  version_parse_error attribute_error : Error
  migration_error : Text → Text → String → Text → Error

pub data Result {ℓ} (A : Type ℓ) : Type ℓ where
  ok : A → Result A
  raise : Error → Result A

infixl 1 ◌>>=◌
abbrev pub ◌>>=◌ {ℓ κ} : {A : Type ℓ} {B : Type κ} → Result A → (A → Result B) → Result B
ok a >>= f = f a
raise e >>= f = raise e

pub >>=-eq-ok {ℓ κ} :
    {A : Type ℓ} {B : Type κ} (x : Result A) (f : A → Result B) (b : B)
    → (x >>= f) ≡ ok b
    → (a : A) × (x ≡ ok a) × (f a ≡ ok b)
>>=-eq-ok (ok a) f b h = (a, refl, h)
>>=-eq-ok (raise e) f b h = cc

-- A version is given as a text or as an object.
pub data VersionArg : Type 0 where
  spelled : Text → VersionArg
  given : SchemaVersion → VersionArg

unfoldable pub parsed : Parsed → Result SchemaVersion
parsed (version v) = ok v
parsed parse_error = raise version_parse_error

unfoldable pub resolve : Chars → VersionArg → Result SchemaVersion
unfolding parsed
resolve chars (spelled t) = parsed (parse chars t)
resolve chars (given v) = ok v

module _ {O : Type 0} where
  -- The key of the sort, `(m.from_version, m.to_version)`.
  unfoldable pub le_key : Migration O → Migration O → Bool
  unfolding le_version
  le_key m n =
      if m.from_version == n.from_version
      then le_version m.to_version n.to_version
      else le_version m.from_version n.from_version

  -- `list.sort`: before the first migration with no smaller key, so that equal ones keep their order.
  unfoldable pub insert_sorted : Migration O → List (Migration O) → List (Migration O)
  unfolding le_key
  insert_sorted m [] = m ∷ []
  insert_sorted m (n ∷ ns) = if le_key m n then m ∷ n ∷ ns else n ∷ insert_sorted m ns

  unfoldable pub sort : List (Migration O) → List (Migration O)
  unfolding insert_sorted
  sort [] = []
  sort (m ∷ ms) = insert_sorted m (sort ms)

pub record Manager (O : Type 0) : Type 0 where
  pub current_versions : Dict String SchemaVersion
  pub migrations : Dict String (List (Migration O))

abbrev pub default_types : List String
default_types =
    "ProjectPlan" ∷ "ArchitecturePlan" ∷ "ScaffoldPlan" ∷ "TestPlan" ∷ "ImplementationPlan"
    ∷ "RefactorPlan" ∷ "ValidationResult" ∷ "FailureReport" ∷ "ReconciliationPlan" ∷ []

abbrev pub first_version : SchemaVersion
first_version = record { major = 1; minor = 0 }

module _ {O : Type 0} where
  unfoldable pub init_defaults : List String → Manager O → Manager O
  init_defaults [] m = m
  init_defaults (t ∷ ts) m = init_defaults ts (record m {
    current_versions = put t first_version m.current_versions;
    migrations = put t [] m.migrations;
  })

  -- `__init__`
  unfoldable pub init : Manager O
  unfolding init_defaults
  init = init_defaults default_types (record { current_versions = []; migrations = [] })

  -- `if artifact_type not in self._migrations: self._migrations[artifact_type] = []`
  unfoldable pub with_type :
      String → Dict String (List (Migration O)) → Dict String (List (Migration O))
  with_type t d = if has t d then d else put t [] d

  unfoldable pub set_version : String → SchemaVersion → Manager O → Manager O
  unfolding with_type
  set_version t v m = record {
    current_versions = put t v m.current_versions;
    migrations = with_type t m.migrations;
  }

  -- The table of versions when a migration is registered: a type with no migrations yet and no version
  -- gets the version that the migration leads to.
  unfoldable pub known_versions : Manager O → String → SchemaVersion → Dict String SchemaVersion
  known_versions m t v =
      if has t m.migrations
      then m.current_versions
      else if has t m.current_versions
      then m.current_versions
      else put t v m.current_versions

  unfoldable pub add_migration : Migration O → Manager O → Manager O
  unfolding with_type known_versions sort
  add_migration mg m =
      let t = mg.artifact_type in
      let table = with_type t m.migrations in
      record {
        current_versions = known_versions m t mg.to_version;
        migrations = put t (sort (or_default [] (get t table) ++ (mg ∷ []))) table;
      }

  module _ (chars : Chars) where
    unfoldable pub set_current_version : String → VersionArg → Manager O → Result (Manager O)
    unfolding resolve set_version
    set_current_version t arg m = do v ← resolve chars arg; ok (set_version t v m)

    unfoldable pub register_migration :
        String
        → VersionArg
        → VersionArg
        → MigrationFunc O
        → Option (MigrationFunc O)
        → Text
        → Manager O
        → Result (Migration O × Manager O)
    unfolding resolve add_migration
    register_migration t from_arg to_arg migrate rollback description m = do
      from ← resolve chars from_arg
      to ← resolve chars to_arg
      let mg : Migration O = record {
        from_version = from;
        to_version = to;
        artifact_type = t;
        migrate = migrate;
        rollback = rollback;
        description = description;
      }
      ok (mg, add_migration mg m)

  unfoldable pub get_current_version : String → Manager O → Option SchemaVersion
  get_current_version t m = get t m.current_versions

  -- `self._migrations.get(artifact_type, [])`
  unfoldable pub migrations_of : String → Manager O → List (Migration O)
  migrations_of t m = or_default [] (get t m.migrations)

  unfoldable pub get_registered_types : Manager O → List String
  get_registered_types m = keys m.current_versions

  unfoldable pub get_migration_count : String → Manager O → ℕ
  unfolding migrations_of
  get_migration_count t m = length (migrations_of t m)
