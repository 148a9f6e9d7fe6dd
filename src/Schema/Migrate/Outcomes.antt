-- ===== src/Schema/Migrate/Outcomes.antt =====
-- When a migration is refused, and what is applied otherwise.
use rice_factor.Prelude.{
  ◌≤◌, ◌≡◌, refl, ap, ◌⊎◌, inl, inr, true, false, Option, some, List, [], ◌∷◌, String, length,
  Bool-cases, arith,
}
use rice_factor.Prelude.Eq.{◌==◌, ==_iff}
use rice_factor.Schema.Version.{SchemaVersion, version_eq, Chars, str}
use rice_factor.Schema.Manager.{
  Artifact, Migration, Manager, migration_error, VersionArg, Result, ok, raise, resolve,
  migrations_of,
}
use rice_factor.Schema.Path.Chains.{Chain}
use rice_factor.Schema.Path.Shortest.{path_between-IsBest}
use rice_factor.Schema.Migrate.Applied.{Applied, apply_all-Applied}
use rice_factor.Schema.Migrate.{
  no_path, apply_all, along, migrate_between, target_version, migrate_to, migrate_from, migrate,
}

module _ {O : Type 0} (m : Manager O) (t : String) (from to : SchemaVersion) (d : Artifact O) where
  -- The result is that of the migrations of a chain, none shorter.
  abbrev pub Applies : Option (Result (Artifact O)) → Type 0
  Applies r =
      (p : List (Migration O)) × Chain (migrations_of t m) from p to
      × ((q : List (Migration O)) → Chain (migrations_of t m) from q to → length p ≤ length q)
      × ((o : Result (Artifact O)) × (r ≡ some o) × Applied t p d o)

  -- The same, by the loop.
  abbrev pub Loops : Option (Result (Artifact O)) → Type 0
  Loops r =
      (p : List (Migration O)) × Chain (migrations_of t m) from p to
      × ((q : List (Migration O)) → Chain (migrations_of t m) from q to → length p ≤ length q)
      × (r ≡ some (apply_all t p d))

  -- There is no chain.
  abbrev pub Refuses : Option (Result (Artifact O)) → Type 0
  Refuses r =
      ((q : List (Migration O)) → ¬ Chain (migrations_of t m) from q to)
      × (r ≡ some (raise (migration_error (str from) (str to) t no_path)))

  -- No shorter chain than the empty one, which leads nowhere else.
  only_start : Chain (migrations_of t m) from [] to → (from == to) ≡ true
  only_start c = (==_iff from to).1 c

  along-apply_all :
      (p : List (Migration O))
      → Chain (migrations_of t m) from p to
      → (from == to) ≡ false
      → along t from to d p ≡ apply_all t p d
  unfolding along
  along-apply_all [] c apart = cc (only_start c)
  along-apply_all (k ∷ p) c apart = refl

  apply_nil : ok d ≡ apply_all t [] d
  unfolding apply_all
  apply_nil = refl

  pub migrate_between-cases :
      Refuses (migrate_between m t from to d) ⊎ Loops (migrate_between m t from to d)
  unfolding migrate_between
  migrate_between-cases = elim (Bool-cases (from == to)) [
    | inl same ↦ inr ([], (==_iff from to).0 same, λ q c. omega arith, rw same (ap some apply_nil))
    | inr apart ↦
        let (p, runs, best) = path_between-IsBest m t from to in
        elim best [
          | inl (none_found, no_chain) ↦ inl (no_chain, rw (apart, runs, none_found, along) refl)
          | inr (chain, least) ↦
              inr (p, chain, least, rw (apart, runs) (ap some (along-apply_all p chain apart)))
        ]
  ]

module _ {O : Type 0} (chars : Chars) (m : Manager O) (d : Artifact O) (t : String) where
  pub migrate-between :
      (from to : SchemaVersion) (from_arg : VersionArg) (to_arg : Option VersionArg)
      → resolve chars from_arg ≡ ok from
      → target_version chars m t to_arg ≡ ok (some to)
      → migrate chars m d t from_arg to_arg ≡ migrate_between m t from to d
  unfolding migrate migrate_from migrate_to
  migrate-between from to from_arg to_arg h k = rw (h, migrate_from, k, migrate_to) refl

  -- Where both versions are read, `migrate` raises "No migration path found" if no chain of the
  -- registered migrations of the type leads from one version to the other. Otherwise the migrations of
  -- such a chain of the least length are applied, in their order: each gets the data that the one before
  -- it returned, with the version that it states replaced, and the first that raises ends it with an
  -- error of its two versions.
  pub migrate-cases :
      (from to : SchemaVersion) (from_arg : VersionArg) (to_arg : Option VersionArg)
      → resolve chars from_arg ≡ ok from
      → target_version chars m t to_arg ≡ ok (some to)
      → Refuses m t from to d (migrate chars m d t from_arg to_arg)
        ⊎ Applies m t from to d (migrate chars m d t from_arg to_arg)
  migrate-cases from to from_arg to_arg h k =
      rw (migrate-between from to from_arg to_arg h k) (elim (migrate_between-cases m t from to d) [
        | inl refused ↦ inl refused
        | inr (p, chain, least, runs) ↦
            inr (p, chain, least, (apply_all t p d, runs, apply_all-Applied t p d))
      ])
