-- ===== src/Overrides/Saved.antt =====
-- What is on disk after each operation: a new manager reads back the state.
use rice_factor.Prelude.{ℕ, ◌≡◌, refl, String, Option, none, some, List, [], ◌∷◌, map, arith}
use rice_factor.Prelude.Eq.{==_iff, text_eq}
use rice_factor.Prelude.Dict.{Dict}
use rice_factor.Prelude.Table
use rice_factor.Prelude.Table.{IsoTime}
use rice_factor.Overrides.Records.{
  OverrideScope, file, directory, project, artifact, scope_eq, OverrideRecord, CiFlag,
}
use rice_factor.Overrides.Files.{
  scope_value, scope_of, map_option, record_to_json, flag_to_json, read_reconciled_at,
  record_from_json, flag_from_json, read_flags,
}

scope_of-scope_value : (s : OverrideScope) → scope_of (scope_value s) ≡ some s
unfolding scope_of scope_value
scope_of-scope_value file = refl
scope_of-scope_value directory = refl
scope_of-scope_value project = refl
scope_of-scope_value artifact = refl

-- Each record stands under its own id, and each id once.
abbrev pub Keyed : Dict String OverrideRecord → Type 0
Keyed d = Table.Keyed (λ r. r.override_id) d

module _ (iso : IsoTime) where
  read_reconciled_at-isoformat :
      (t : Option ℕ) → read_reconciled_at iso (map_option iso.isoformat t) ≡ some t
  unfolding read_reconciled_at
  read_reconciled_at-isoformat none = refl
  read_reconciled_at-isoformat (some t) =
      ground (arith, iso.round_trip t, iso.not_empty t, ==_iff (iso.isoformat t) "")

  pub record_from_json-record_to_json :
      (r : OverrideRecord) → record_from_json iso (record_to_json iso r) ≡ some r
  unfolding record_from_json record_to_json
  record_from_json-record_to_json r =
      rw
        (
          read_reconciled_at-isoformat r.reconciled_at,
          scope_of-scope_value r.scope,
          iso.round_trip r.created_at,
        )
        refl

  flag_from_json-flag_to_json : (f : CiFlag) → flag_from_json iso (flag_to_json iso f) ≡ some f
  unfolding flag_from_json flag_to_json
  flag_from_json-flag_to_json f = rw (iso.round_trip f.flagged_at) refl

  pub read_flags-map : (fs : List CiFlag) → read_flags iso (map (flag_to_json iso) fs) ≡ some fs
  unfolding read_flags
  read_flags-map [] = refl
  read_flags-map (f ∷ fs) = rw (flag_from_json-flag_to_json f, read_flags-map fs, read_flags) refl
