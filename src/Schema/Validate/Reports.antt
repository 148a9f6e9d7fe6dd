-- ===== src/Schema/Validate/Reports.antt =====
-- What the checks of an artifact's version report.
use rice_factor.Prelude.{
  ◌≤◌, ◌≡◌, ◌≢◌, ◌↔◌, refl, sym, ap, ◌∙◌, ◌⊎◌, inl, inr, true, false, Option, none, some, List, [],
  ◌∷◌, String, length, Bool-cases, eqb, Option-cases, arith,
}
use rice_factor.Prelude.Eq.{==_refl, text_eq}
use rice_factor.Prelude.Dict.{has}
use rice_factor.Prelude.Text.{Text}
use rice_factor.Schema.Version.{
  SchemaVersion, version_eq, Chars, str, version, parse, CompatibilityLevel, full, forward,
  backward, breaking, is_compatible_with,
}
use rice_factor.Schema.Version.RoundTrip.{IsAscii, parse-str}
use rice_factor.Schema.Manager.{
  Artifact, Migration, Manager, VersionArg, ok, ◌>>=◌, resolve, get_current_version, migrations_of,
}
use rice_factor.Schema.Path.Chains.{Chain}
use rice_factor.Schema.Path.Shortest.{path_between-IsBest}
use rice_factor.Schema.Migrate.{migrate, migrate_from, migrate_to, target_version}
use rice_factor.Schema.Migrate.Outcomes.{migrate-between}
use rice_factor.Schema.Migrate.Stamped.{migrate_between-get}
use rice_factor.Schema.Validate.{
  spelling, version_text, differs, needs_migration, ValidationResult, major_mismatch,
  path_available, older, newer, path_note, report, validate_against, validate_parsed,
  validate_compatibility,
}

module _ {O : Type 0} (chars : Chars) (m : Manager O) (t : String) where
  reads :
      (d : Artifact O) (s : Text) (v : SchemaVersion)
      → version_text d ≡ ok s
      → parse chars s ≡ version v
      → needs_migration chars m d t ≡ ok (differs (version v) (get_current_version t m))
  unfolding needs_migration
  reads d s v h k = rw (h, ◌>>=◌, k) refl

  -- Once an artifact was migrated from the version that it states to the current one, it needs no
  -- migration, if the result states a version at all.
  pub needs_migration-migrate :
      (d r : Artifact O) (s : Text) (from : SchemaVersion) (from_arg : VersionArg)
      → IsAscii chars
      → version_text d ≡ ok s
      → parse chars s ≡ version from
      → resolve chars from_arg ≡ ok from
      → migrate chars m d t from_arg none ≡ some (ok r)
      → has "artifact_version" r ≡ true
      → needs_migration chars m r t ≡ ok false
  unfolding migrate migrate_from migrate_to target_version version_text spelling differs
  needs_migration-migrate d r s from from_arg ascii stated read given runs there =
      elim (Option-cases (get_current_version t m)) [
        | inl unknown ↦
            let whole : migrate chars m d t from_arg none ≡ some (ok d) =
              rw (given, migrate_from, unknown, migrate_to) refl in
            let same : r ≡ d = cc in rw (same, reads d s from stated read, unknown, differs) refl
        | inr (current, known) ↦
            let between =
              migrate-between chars m d t from current from_arg none given
                (rw (target_version, known) refl) in
            elim (migrate_between-get t m from current d r (sym between ∙ runs) there) [
              | inl (at_current, same) ↦
                  rw (same, reads d s from stated read, known, differs, at_current, ==_refl current)
                    refl
              | inr stamped ↦
                  rw
                    (
                      reads r (str current) current (rw (version_text, stamped, spelling) refl)
                          (parse-str chars ascii current),
                      known,
                      differs,
                      ==_refl current,
                    )
                    refl
            ]
      ]

module _ {O : Type 0} (m : Manager O) (t : String) (v to : SchemaVersion) where
  -- A report of an artifact at `v` against the version `to`.
  abbrev pub Reports : ValidationResult → Type 0
  Reports r =
      ((r.compatible ≡ true) ↔ (v.major ≡ to.major))
      × ((r.issues ≡ []) ↔ (v.major ≡ to.major))
      × ((v.major ≡ to.major)
          ⊎ (r.warnings ≡ []) × ((q : List (Migration O)) → ¬ Chain (migrations_of t m) v q to)
          ⊎ (p : List (Migration O)) × Chain (migrations_of t m) v p to
            × ((q : List (Migration O)) → Chain (migrations_of t m) v q to → length p ≤ length q)
            × (r.warnings ≡ path_available (length p) ∷ []))

  abbrev IsReported : Option ValidationResult → Type 0
  IsReported o = (r : ValidationResult) × (o ≡ some r) × Reports r

  compatible_report :
      (level : CompatibilityLevel)
      → level ≢ breaking
      → v.major ≡ to.major
      → IsReported (report m t v to level)
  unfolding report
  compatible_report full h same = (
    record { compatible = true; level = full; issues = []; warnings = [] },
    refl,
    ((λ e. same, λ e. refl), (λ e. same, λ e. refl), inl same),
  )
  compatible_report forward h same = (
    record { compatible = true; level = forward; issues = []; warnings = older v to ∷ [] },
    refl,
    ((λ e. same, λ e. refl), (λ e. same, λ e. refl), inl same),
  )
  compatible_report backward h same = (
    record { compatible = true; level = backward; issues = []; warnings = newer v to ∷ [] },
    refl,
    ((λ e. same, λ e. refl), (λ e. same, λ e. refl), inl same),
  )
  compatible_report breaking h same = absurd (h refl)

  path_note-cons :
      (p : List (Migration O))
      → Chain (migrations_of t m) v p to
      → v.major ≢ to.major
      → path_note p ≡ path_available (length p) ∷ []
  unfolding path_note
  path_note-cons [] c apart = absurd (apart (ap (λ (w : SchemaVersion). w.major) c))
  path_note-cons (k ∷ p) c apart = refl

  report-breaking : v.major ≢ to.major → IsReported (report m t v to breaking)
  unfolding report
  report-breaking apart =
      let (p, runs, best) = path_between-IsBest m t v to in
      let r : ValidationResult = record {
        compatible = false;
        level = breaking;
        issues = major_mismatch v to ∷ [];
        warnings = path_note p;
      } in
      (
        r,
        rw (runs, report) refl,
        (
          (λ h. cc, λ h. absurd (apart h)),
          (λ h. cc, λ h. absurd (apart h)),
          elim best [
            | inl (none_found, no_chain) ↦ inr (inl (rw (none_found, path_note) refl, no_chain))
            | inr (chain, least) ↦ inr (inr (p, chain, least, path_note-cons p chain apart))
          ],
        ),
      )

  -- The levels other than breaking are those of one major version.
  level-cases :
      ((v.major ≡ to.major) × (is_compatible_with v to ≢ breaking))
      ⊎ ((v.major ≢ to.major) × (is_compatible_with v to ≡ breaking))
  unfolding is_compatible_with
  level-cases = elim (Bool-cases (eqb v.major to.major)) [
    | inl same ↦ inl (ground (arith), ground arith)
    | inr apart ↦ inr (ground arith, ground arith)
  ]

  report-Reports : IsReported (report m t v to (is_compatible_with v to))
  report-Reports = elim level-cases [
    | inr (apart, level) ↦ rw level (report-breaking apart)
    | inl (same, level) ↦ compatible_report (is_compatible_with v to) level same
  ]

module _ {O : Type 0} (chars : Chars) (m : Manager O) (t : String) where
  -- Where the artifact's version and the target are read, the artifact is compatible, and no issue is
  -- reported, exactly if the two have one major version. Otherwise the one warning gives the length of a
  -- shortest chain of registered migrations to the target, and there is none if there is no chain.
  pub validate_compatibility-Reports :
      (d : Artifact O) (s : Text) (v to : SchemaVersion) (to_arg : Option VersionArg)
      → version_text d ≡ ok s
      → parse chars s ≡ version v
      → target_version chars m t to_arg ≡ ok (some to)
      → (r : ValidationResult) × (validate_compatibility chars m d t to_arg ≡ ok (some r))
        × Reports m t v to r
  unfolding validate_compatibility validate_parsed validate_against
  validate_compatibility-Reports d s v to to_arg stated read target =
      let (r, e, reports) = report-Reports m t v to in
      (r, rw (stated, ◌>>=◌, read, validate_parsed, target, ◌>>=◌) (ap ok e), reports)
