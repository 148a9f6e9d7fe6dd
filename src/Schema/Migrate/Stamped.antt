-- ===== src/Schema/Migrate/Stamped.antt =====
-- The version that the result of a migration states.
use rice_factor.Prelude.{
  ◌≡◌, sym, ◌∙◌, ◌⊎◌, inl, inr, true, some, List, [], ◌∷◌, String, Bool-cases,
}
use rice_factor.Prelude.Eq.{text_eq}
use rice_factor.Prelude.Dict.{get, has, get-put_self}
use rice_factor.Schema.Version.{SchemaVersion, version_eq, str}
use rice_factor.Schema.Manager.{
  text, Artifact, Outcome, returns, raises, Migration, Manager, ok, >>=-eq-ok, migrations_of,
}
use rice_factor.Schema.Path.Chains.{Chain}
use rice_factor.Schema.Migrate.{stamp, stamped, apply_step, apply_all, migrate_between}
use rice_factor.Schema.Migrate.Outcomes.{migrate_between-cases}

module _ {O : Type 0} (t : String) where
  stamp-get :
      (v : SchemaVersion) (d : Artifact O)
      → has "artifact_version" (stamp v d) ≡ true
      → get "artifact_version" (stamp v d) ≡ some (text (str v))
  unfolding stamp
  stamp-get v d h = elim (Bool-cases (has "artifact_version" d)) [
    | inl there ↦ rw there (get-put_self "artifact_version" (text (str v)) d)
    | inr missing ↦ cc
  ]

  stamped-ok :
      (m : Migration O) (o : Outcome O) (r : Artifact O)
      → stamped t m o ≡ ok r
      → (d : Artifact O) × (r ≡ stamp m.to_version d)
  unfolding stamped
  stamped-ok m (returns d) r h = (d, cc)
  stamped-ok m (raises message) r h = cc

  -- What a path that is not empty returns states the version at its end, if it states one.
  apply_all-get :
      (ms : List (Migration O)) (from to : SchemaVersion) (m : Migration O) (p : List (Migration O))
      (d r : Artifact O)
      → Chain ms from (m ∷ p) to
      → apply_all t (m ∷ p) d ≡ ok r
      → has "artifact_version" r ≡ true
      → get "artifact_version" r ≡ some (text (str to))
  unfolding apply_all apply_step
  apply_all-get ms from to m [] d r c runs there =
      let (d', e, rest) = >>=-eq-ok (apply_step t m d) (apply_all t []) r runs in
      let (d0, s) = stamped-ok m (m.migrate d (str m.from_version) (str m.to_version)) d' e in
      let ends : r ≡ stamp m.to_version d0 = cc in
      rw (ends, ← c.2) (stamp-get m.to_version d0 (rw (← ends) there))
  apply_all-get ms from to m (k ∷ p) d r c runs there =
      let (d', e, rest) = >>=-eq-ok (apply_step t m d) (apply_all t (k ∷ p)) r runs in
      apply_all-get ms m.to_version to k p d' r c.2 rest there

  -- Between two versions, the result states the target if it states a version; between equal ones the
  -- data is unchanged.
  pub migrate_between-get :
      (m : Manager O) (from to : SchemaVersion) (d r : Artifact O)
      → migrate_between m t from to d ≡ some (ok r)
      → has "artifact_version" r ≡ true
      → ((from ≡ to) × (r ≡ d)) ⊎ (get "artifact_version" r ≡ some (text (str to)))
  unfolding apply_all
  migrate_between-get m from to d r runs there = elim (migrate_between-cases m t from to d) [
    | inl (none_found, refused) ↦ cc
    | inr (p, chain, least, applied) ↦ along_path p chain (some-inj (sym applied ∙ runs))
  ]
    where
      some-inj : {A : Type 0} {a b : A} → some a ≡ some b → a ≡ b
      some-inj e = cc

      along_path :
          (p : List (Migration O))
          → Chain (migrations_of t m) from p to
          → apply_all t p d ≡ ok r
          → ((from ≡ to) × (r ≡ d)) ⊎ (get "artifact_version" r ≡ some (text (str to)))
      along_path [] chain applied = inl (chain, cc)
      along_path (k ∷ p) chain applied =
          inr (apply_all-get (migrations_of t m) from to k p d r chain applied there)
