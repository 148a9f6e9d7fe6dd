-- ===== src/Schema/Manager/Consistent.antt =====
-- What holds of the manager's tables whatever was called.
use rice_factor.Prelude.{
  ◌≡◌, refl, ◌∙◌, inl, inr, true, Option, List, [], ◌∷◌, ◌++◌, String, All, All-append,
  if◌then◌else◌, Bool-cases, arith,
}
use rice_factor.Prelude.Eq.{◌==◌, ==_iff, text_eq}
use rice_factor.Prelude.Dict.{Dict, get, has, put, get-put, has-put, has_iff}
use rice_factor.Prelude.Table.{or_default}
use rice_factor.Prelude.Text.{Text}
use rice_factor.Schema.Version.{SchemaVersion, version_eq, Chars}
use rice_factor.Schema.Manager.{
  Migration, MigrationFunc, Manager, VersionArg, Result, ok, raise, ◌>>=◌, resolve, sort,
  default_types, first_version, init_defaults, init, with_type, set_version, known_versions,
  add_migration, set_current_version, register_migration, migrations_of,
}
use rice_factor.Schema.Manager.Sorted.{IsSorted, sort-IsSorted, All-sort}

module _ {O : Type 0} where
  -- Both tables know the same types; the migrations of a type are sorted and are of that type.
  pub record IsConsistent (m : Manager O) : Type 0 where
    pub same_types : (t : String) → has t m.current_versions ≡ has t m.migrations
    pub sorted : (t : String) → IsSorted (migrations_of t m)
    pub own_type : (t : String) → All (λ k. k.artifact_type ≡ t) (migrations_of t m)

  migrations_of-with_type :
      (t u : String) (d : Dict String (List (Migration O)))
      → or_default [] (get u (with_type t d)) ≡ or_default [] (get u d)
  unfolding with_type
  migrations_of-with_type t u d = ground (arith, get-put t u [] d, has_iff t d, ==_iff t u)

  has-with_type :
      (t u : String) (d : Dict String (List (Migration O)))
      → has u (with_type t d) ≡ (if t == u then true else has u d)
  unfolding with_type
  has-with_type t u d = ground (arith, has-put t u [] d, ==_iff t u)

  also :
      (t u : String) (m : Manager O)
      → has u m.current_versions ≡ has u m.migrations
      → (if t == u then true else has u m.current_versions) ≡ has u (with_type t m.migrations)
  also t u m h = rw (has-with_type t u m.migrations, h) refl

  set_version-IsConsistent :
      (t : String) (v : SchemaVersion) (m : Manager O)
      → IsConsistent m
      → IsConsistent (set_version t v m)
  unfolding set_version migrations_of
  set_version-IsConsistent t v m h = record {
    same_types = λ u. has-put t u v m.current_versions ∙ also t u m (h.same_types u);
    sorted = λ u. rw (migrations_of-with_type t u m.migrations) (h.sorted u);
    own_type = λ u. rw (migrations_of-with_type t u m.migrations) (h.own_type u);
  }

  has-add_migration :
      (mg : Migration O) (m : Manager O) (u : String)
      → IsConsistent m
      → has u (add_migration mg m).current_versions ≡ has u (add_migration mg m).migrations
  unfolding add_migration known_versions
  has-add_migration mg m u h =
      let t = mg.artifact_type in
      ground (
        arith,
        h.same_types t,
        h.same_types u,
        has-put t u mg.to_version m.current_versions,
        has-put t u (sort (or_default [] (get t (with_type t m.migrations)) ++ (mg ∷ [])))
            (with_type t m.migrations),
        has-with_type t u m.migrations,
        ==_iff t u,
      )

  -- After a registration the migrations of its type are the old ones and the new one, sorted.
  pub migrations_of-add_migration :
      (mg : Migration O) (m : Manager O) (u : String)
      → migrations_of u (add_migration mg m) ≡ (
          if mg.artifact_type == u
          then sort (migrations_of mg.artifact_type m ++ (mg ∷ []))
          else migrations_of u m)
  unfolding add_migration migrations_of
  migrations_of-add_migration mg m u =
      let t = mg.artifact_type in
      elim (Bool-cases (t == u)) [
        | inl same ↦ rw (get-put, same, migrations_of-with_type t t m.migrations) refl
        | inr other ↦ rw (get-put, other, migrations_of-with_type t u m.migrations) refl
      ]

  add_migration-IsConsistent :
      (mg : Migration O) (m : Manager O) → IsConsistent m → IsConsistent (add_migration mg m)
  add_migration-IsConsistent mg m h = record {
    same_types = λ u. has-add_migration mg m u h;
    sorted = sorted_after;
    own_type = own_after;
  }
    where
      sorted_after : (u : String) → IsSorted (migrations_of u (add_migration mg m))
      sorted_after u = elim (Bool-cases (mg.artifact_type == u)) [
        | inl same ↦ rw (migrations_of-add_migration mg m u, same) (sort-IsSorted _)
        | inr other ↦ rw (migrations_of-add_migration mg m u, other) (h.sorted u)
      ]

      own_after :
          (u : String) → All (λ k. k.artifact_type ≡ u) (migrations_of u (add_migration mg m))
      own_after u = elim (Bool-cases (mg.artifact_type == u)) [
        | inl same ↦
            let e : mg.artifact_type ≡ u = (==_iff mg.artifact_type u).0 same in
            rw (migrations_of-add_migration mg m u, same)
              (All-sort (λ k. k.artifact_type ≡ u) _
                (All-append (λ k. k.artifact_type ≡ u) (migrations_of mg.artifact_type m) (mg ∷ [])
                  (rw e (h.own_type u)) (e, tt)))
        | inr other ↦ rw (migrations_of-add_migration mg m u, other) (h.own_type u)
      ]

  init_defaults-IsConsistent :
      (ts : List String) (m : Manager O)
      → IsConsistent m
      → ((t : String) → migrations_of t m ≡ [])
      → IsConsistent (init_defaults ts m)
  unfolding init_defaults migrations_of
  init_defaults-IsConsistent [] m h bare = h
  init_defaults-IsConsistent (t ∷ ts) m h bare =
      let m' : Manager O = record m {
        current_versions = put t first_version m.current_versions;
        migrations = put t [] m.migrations;
      } in
      let still : (u : String) → migrations_of u m' ≡ [] =
        λ u. ground (arith, get-put t u [] m.migrations, bare u) in
      init_defaults-IsConsistent ts m'
        (record {
          same_types = λ u. ground (
            arith,
            has-put t u first_version m.current_versions,
            has-put t u [] m.migrations,
            h.same_types u,
          );
          sorted = λ u. rw (still u) tt;
          own_type = λ u. rw (still u) tt;
        })
        still

-- The calls that change the manager.
pub data Call (O : Type 0) : Type 0 where
  set_current : String → VersionArg → Call O
  register :
      String → VersionArg → VersionArg → MigrationFunc O → Option (MigrationFunc O) → Text → Call O

module _ {O : Type 0} (chars : Chars) where
  -- A call that raises has changed nothing.
  unfoldable pub kept : Manager O → Result (Manager O) → Manager O
  kept m (ok m') = m'
  kept m (raise e) = m

  unfoldable pub registered : Manager O → Result (Migration O × Manager O) → Manager O
  registered m (ok (mg, m')) = m'
  registered m (raise e) = m

  unfoldable pub call : Call O → Manager O → Manager O
  unfolding kept registered
  call (set_current t arg) m = kept m (set_current_version chars t arg m)
  call (register t from to migrate rollback description) m =
      registered m (register_migration chars t from to migrate rollback description m)

  unfoldable pub run : List (Call O) → Manager O → Manager O
  unfolding call
  run [] m = m
  run (c ∷ cs) m = run cs (call c m)

  set_current-IsConsistent :
      (r : Result SchemaVersion) (t : String) (m : Manager O)
      → IsConsistent m
      → IsConsistent (kept m (r >>= λ v. ok (set_version t v m)))
  unfolding kept
  set_current-IsConsistent (ok v) t m h = set_version-IsConsistent t v m h
  set_current-IsConsistent (raise e) t m h = h

  register-IsConsistent :
      (from to : Result SchemaVersion) (mg : SchemaVersion → SchemaVersion → Migration O)
      (m : Manager O)
      → IsConsistent m
      → IsConsistent
          (registered m (from >>= λ v. to >>= λ w. ok (mg v w, add_migration (mg v w) m)))
  unfolding registered
  register-IsConsistent (raise e) to mg m h = h
  register-IsConsistent (ok v) (raise e) mg m h = h
  register-IsConsistent (ok v) (ok w) mg m h = add_migration-IsConsistent (mg v w) m h

  call-IsConsistent : (c : Call O) (m : Manager O) → IsConsistent m → IsConsistent (call c m)
  unfolding call set_current_version register_migration
  call-IsConsistent (set_current t arg) m h = set_current-IsConsistent (resolve chars arg) t m h
  call-IsConsistent (register t from to migrate rollback description) m h =
      register-IsConsistent (resolve chars from) (resolve chars to) _ m h

  from-IsConsistent :
      (cs : List (Call O)) (m : Manager O) → IsConsistent m → IsConsistent (run cs m)
  unfolding run
  from-IsConsistent [] m h = h
  from-IsConsistent (c ∷ cs) m h = from-IsConsistent cs (call c m) (call-IsConsistent c m h)

  -- Whatever versions are set and migrations registered on a new manager, the types with a version are
  -- those with a list of migrations, and the migrations of a type are of that type and sorted by the
  -- versions that they lead from and to.
  pub run-IsConsistent : (cs : List (Call O)) → IsConsistent (run cs init)
  unfolding init has migrations_of get
  run-IsConsistent cs = from-IsConsistent cs init (
      init_defaults-IsConsistent default_types (record { current_versions = []; migrations = [] })
        bare_start (λ t. refl))
    where
      bare_start : IsConsistent {O = O} (record { current_versions = []; migrations = [] })
      bare_start = record { same_types = λ t. refl; sorted = λ t. tt; own_type = λ t. tt }
