-- ===== src/Schema/Examples.antt =====
-- Runs and instances.
use rice_factor.Prelude.{
  ℕ, ◌-◌, ◌≡◌, refl, ◌⊎◌, false, ◌&&◌, ◌||◌, none, some, List, [], ◌∷◌, leb, eqb, if◌then◌else◌,
  arith,
}
use rice_factor.Prelude.Eq.{text_eq}
use rice_factor.Prelude.Dict.{get, has, put}
use rice_factor.Prelude.Text.{codes}
use rice_factor.Schema.Version.{
  SchemaVersion, Chars, str, version, parse, backward, is_compatible_with,
}
use rice_factor.Schema.Version.RoundTrip.{IsAscii, parse-str}
use rice_factor.Schema.Manager.{
  text, other, Artifact, returns, raises, MigrationFunc, Migration, Manager, spelled, given, ok,
  raise, init, register_migration, set_current_version, migrations_of, migration_error, resolve,
}
use rice_factor.Schema.Manager.Consistent.{
  Call, set_current, register, run, IsConsistent, run-IsConsistent,
}
use rice_factor.Schema.Path.{path_between, find_migration_path}
use rice_factor.Schema.Path.Shortest.{IsBest, path_between-IsBest}
use rice_factor.Schema.Migrate.{apply_step, target_version, migrate}
use rice_factor.Schema.Migrate.Outcomes.{Refuses, Applies, migrate-cases}
use rice_factor.Schema.Validate.{
  ValidationResult, version_text, needs_migration, validate_compatibility,
}
use rice_factor.Schema.Validate.Reports.{
  Reports, needs_migration-migrate, validate_compatibility-Reports,
}

abbrev chars : Chars
chars = record {
  is_space = λ c. eqb c 32 || eqb c 10;
  digit = λ c. if leb b'0' c && leb c b'9' then some (c - b'0') else none;
}

chars-IsAscii : IsAscii chars
chars-IsAscii = record {
  digit_own = λ d h. ground arith;
  dot_no_digit = refl;
  digit_no_space = λ d h. ground arith;
  dot_no_space = refl;
}

abbrev at : ℕ → ℕ → SchemaVersion
at a b = record { major = a; minor = b }

parse_test :
    (parse chars (codes " 12.30\n") ≡ version (at 12 30))
    × (is_compatible_with (at 1 2) (at 1 0) ≡ backward)
unfolding parse is_compatible_with
parse_test = (refl, refl)

parse-str_example : parse chars (str (at 20 7)) ≡ version (at 20 7)
parse-str_example = parse-str chars chars-IsAscii (at 20 7)

-- A function that adds a field, and one that raises.
abbrev add_field : MigrationFunc ℕ
add_field d from to = returns (put "field" (other 1) d)

abbrev fail : MigrationFunc ℕ
fail d from to = raises (codes "no")

program : Unit {0}
unfolding migrate path_between find_migration_path run register_migration set_current_version init
    parse get put has apply_step str
program = tt

abbrev calls : List (Call ℕ)
calls =
    register "TestPlan" (given (at 1 0)) (given (at 1 1)) add_field none []
    ∷ register "TestPlan" (given (at 1 1)) (given (at 2 0)) add_field none []
    ∷ register "TestPlan" (given (at 1 0)) (spelled (codes "x")) add_field none []
    ∷ set_current "TestPlan" (given (at 2 0))
    ∷ []

run-IsConsistent_example : IsConsistent (run chars calls init)
run-IsConsistent_example = run-IsConsistent chars calls

abbrev manager : Manager ℕ
manager = run chars calls init

abbrev step : ℕ → ℕ → ℕ → ℕ → Migration ℕ
step a b c d = record {
  from_version = at a b;
  to_version = at c d;
  artifact_type = "TestPlan";
  migrate = add_field;
  rollback = none;
  description = [];
}

run_test :
    path_between manager "TestPlan" (at 1 0) (at 2 0) ≡ some (step 1 0 1 1 ∷ step 1 1 2 0 ∷ [])
unfolding program
run_test = refl

path_between-IsBest_example :
    (p : List (Migration ℕ)) × (path_between manager "TestPlan" (at 1 0) (at 2 0) ≡ some p)
    × IsBest (migrations_of "TestPlan" manager) (at 1 0) (at 2 0) p
path_between-IsBest_example = path_between-IsBest manager "TestPlan" (at 1 0) (at 2 0)

abbrev plan : Artifact ℕ
plan = ("artifact_version", text (codes "1.0")) ∷ []

migrate-cases_example :
    Refuses manager "TestPlan"
      (at 1 0)
      (at 2 0)
      plan
      (migrate chars manager plan "TestPlan" (given (at 1 0)) (some (given (at 2 0))))
    ⊎ Applies manager "TestPlan"
        (at 1 0)
        (at 2 0)
        plan
        (migrate chars manager plan "TestPlan" (given (at 1 0)) (some (given (at 2 0))))
unfolding resolve target_version
migrate-cases_example =
    migrate-cases chars manager plan "TestPlan" (at 1 0) (at 2 0) (given (at 1 0))
      (some (given (at 2 0))) refl refl

abbrev migrated : Artifact ℕ
migrated = ("artifact_version", text (codes "2.0")) ∷ ("field", other 1) ∷ []

migrate_test :
    migrate chars manager plan "TestPlan" (spelled (codes "1.0")) none ≡ some (ok migrated)
unfolding program
migrate_test = refl

migrate_back :
    migrate chars manager plan "TestPlan" (given (at 2 0)) (some (given (at 1 0)))
    ≡ some (
        raise (
          migration_error (codes "2.0") (codes "1.0") "TestPlan" (codes "No migration path found")))
unfolding program
migrate_back = refl

needs_migration-migrate_example : needs_migration chars manager migrated "TestPlan" ≡ ok false
unfolding version_text get parse resolve has
needs_migration-migrate_example =
    needs_migration-migrate chars manager "TestPlan" plan migrated (codes "1.0") (at 1 0)
      (spelled (codes "1.0")) chars-IsAscii refl refl refl migrate_test refl

validate_compatibility-Reports_example :
    (r : ValidationResult) × (validate_compatibility chars manager plan "TestPlan"
        (some (given (at 2 0)))
      ≡ ok (some r))
    × Reports manager "TestPlan" (at 1 0) (at 2 0) r
unfolding version_text get parse target_version
validate_compatibility-Reports_example =
    validate_compatibility-Reports chars manager "TestPlan" plan (codes "1.0") (at 1 0) (at 2 0)
      (some (given (at 2 0))) refl refl refl
