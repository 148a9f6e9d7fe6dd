-- ===== src/Schema/Path/Registered.antt =====
-- The search after a registration.
use rice_factor.Prelude.{
  ◌≡◌, ◌≢◌, refl, sym, ap, ◌∙◌, inl, inr, Option, some, List, [], ◌∷◌, String, arith,
}
use rice_factor.Prelude.Eq.{==_refl, text_eq}
use rice_factor.Prelude.Text.{Text}
use rice_factor.Schema.Version.{SchemaVersion, Chars}
use rice_factor.Schema.Manager.{
  Migration, MigrationFunc, Manager, VersionArg, Result, ok, raise, ◌>>=◌, resolve, add_migration,
  register_migration, migrations_of,
}
use rice_factor.Schema.Manager.Sorted.{Memᴰ-sort}
use rice_factor.Schema.Manager.Consistent.{migrations_of-add_migration}
use rice_factor.Schema.Path.{path_between}
use rice_factor.Schema.Path.Chains.{Chain}
use rice_factor.Schema.Path.Shortest.{IsBest, path_between-IsBest}
use mathlib.Core.List.{Memᴰ}
use mathlib.Core.List.Memᴰ

module _ {O : Type 0} where
  is_listed :
      (mg : Migration O) (m : Manager O)
      → Memᴰ mg (migrations_of mg.artifact_type (add_migration mg m))
  is_listed mg m =
      rw (migrations_of-add_migration mg m mg.artifact_type, ==_refl mg.artifact_type)
        (Memᴰ-sort mg _ (Memᴰ.append_right (migrations_of mg.artifact_type m) (Memᴰ.head refl)))

  -- A migration of the type that leads from one version to the other, alone.
  abbrev pub OneStep : Manager O → String → SchemaVersion → SchemaVersion → Type 0
  OneStep m t from to =
      (k : Migration O) × (path_between m t from to ≡ some (k ∷ []))
      × (k.from_version ≡ from)
      × (k.to_version ≡ to)
      × Memᴰ k (migrations_of t m)

  one_step :
      (m : Manager O) (t : String) (mg : Migration O)
      → Memᴰ mg (migrations_of t m)
      → mg.from_version ≢ mg.to_version
      → OneStep m t mg.from_version mg.to_version
  one_step m t mg listed apart =
      let (p, runs, best) = path_between-IsBest m t mg.from_version mg.to_version in
      single p runs best
    where
      alone : Chain (migrations_of t m) mg.from_version (mg ∷ []) mg.to_version
      alone = (listed, refl, refl)

      single :
          (p : List (Migration O))
          → path_between m t mg.from_version mg.to_version ≡ some p
          → IsBest (migrations_of t m) mg.from_version mg.to_version p
          → OneStep m t mg.from_version mg.to_version
      single p runs (inl (bare, no_chain)) = absurd (no_chain (mg ∷ []) alone)
      single [] runs (inr (c, least)) = absurd (apart c)
      single (k ∷ []) runs (inr (c, least)) = (k, runs, c.1, c.2, c.0)
      single (k ∷ l ∷ p) runs (inr (c, least)) = absurd (omega (arith, least (mg ∷ []) alone))

  abbrev added : Migration O → Manager O → Migration O × Manager O
  added mg m = (mg, add_migration mg m)

  registered-cases :
      (t : String) (f : SchemaVersion → SchemaVersion → Migration O)
      → ((v w : SchemaVersion) → (f v w).artifact_type ≡ t)
      → (from to : Result SchemaVersion) (m m' : Manager O) (mg : Migration O)
      → (from >>= λ v. to >>= λ w. ok (added (f v w) m)) ≡ ok (mg, m')
      → (mg.artifact_type ≡ t) × (m' ≡ add_migration mg m)
  registered-cases t f own (ok v) (ok w) m m' mg h =
      let e : f v w ≡ mg = cc in
      (ap (λ (k : Migration O). k.artifact_type) (sym e) ∙ own v w, rw (← e) (cc))
  registered-cases t f own (raise x) to m m' mg h = cc
  registered-cases t f own (ok v) (raise x) m m' mg h = cc

  -- Once a migration between two different versions is registered, the path between them is a single
  -- migration that leads from the one to the other, whatever was registered before.
  pub path_between-register_migration :
      (chars : Chars) (t : String) (from to : VersionArg) (migrate : MigrationFunc O)
      (rollback : Option (MigrationFunc O)) (description : Text) (m m' : Manager O)
      (mg : Migration O)
      → register_migration chars t from to migrate rollback description m ≡ ok (mg, m')
      → mg.from_version ≢ mg.to_version
      → OneStep m' t mg.from_version mg.to_version
  unfolding register_migration
  path_between-register_migration chars t from to migrate rollback description m m' mg h apart =
      let (own, added_to) =
        registered-cases t _ (λ v w. refl) (resolve chars from) (resolve chars to) m m' mg h in
      one_step m' t mg (rw (added_to, ← own) (is_listed mg m)) apart
