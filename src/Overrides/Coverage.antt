-- ===== src/Overrides/Coverage.antt =====
-- The overrides in force that cover a path are those that `is_path_overridden` and
-- `get_override_for_path` find.
use text.Mathlib.Text.{starts_with}
use text.Mathlib.TextEquality.{starts_with_iff}
use text.Mathlib.TextBridge.{IsPrefix}
use mathlib.Core.Path.{subst}
use rice_factor.Prelude.{
  ◌≡◌, refl, sym, ◌⊎◌, inl, inr, ◌↔◌, String, true, false, not, none, some, List, [], ◌∷◌, arith,
  keep, Option-cases, Bool-cases,
}
use rice_factor.Prelude.Eq.{◌==◌, ==_iff, ==_refl, text_eq}
use rice_factor.Prelude.Dict.{Dict, values, get, has, has_iff, IsDict, get-All}
use rice_factor.Overrides.Records.{
  OverrideScope, file, directory, project, artifact, OverrideRecord, ScopeManager,
}
use rice_factor.Overrides.Manager.{get_active_overrides}
use rice_factor.Overrides.Saved.{Keyed}
use rice_factor.Overrides.Paths.{
  normalized, scope_affects, affects, any_affects, first_affecting, is_path_overridden,
  get_override_for_path,
}

-- The paths that an override covers: the file itself; the directory itself and what is below it;
-- every path; no path.
abbrev pub ScopeCovers : OverrideScope → String → String → Type 0
ScopeCovers file path target = path ≡ target
ScopeCovers directory path target =
    (path ≡ target) ⊎ IsPrefix (Prim.Native.String.◌++◌ target "/") path
ScopeCovers project path target = Unit
ScopeCovers artifact path target = ⊥

abbrev pub Covers : String → OverrideRecord → Type 0
Covers path r = ScopeCovers r.scope (normalized path) (normalized r.target_path)

scope_affects_iff :
    (sc : OverrideScope) (path target : String)
    → (scope_affects sc path target ≡ true) ↔ ScopeCovers sc path target
unfolding scope_affects
scope_affects_iff file path target = ==_iff path target
scope_affects_iff directory path target =
    let below = starts_with_iff path (Prim.Native.String.◌++◌ target "/") in
    elim (Bool-cases (starts_with path (Prim.Native.String.◌++◌ target "/"))) [
      | inl hit ↦ (λ h. inr (below.0 hit), λ c. rw hit refl)
      | inr miss ↦ (
        λ h. inl ((==_iff path target).0 (rw miss at h)),
        λ c. rw miss (elim c [ inl e ↦ (==_iff path target).1 e | inr b ↦ cc (below.1 b) ]),
      )
    ]
scope_affects_iff project path target = (λ h. tt, λ c. refl)
scope_affects_iff artifact path target = (λ h. cc, λ c. absurd c)

-- An override in force that covers the path.
abbrev pub InForce : String → Dict String OverrideRecord → String → OverrideRecord → Type 0
InForce path d id r = (get id d ≡ some r) × (r.reconciled ≡ false) × Covers path r

abbrev active : Dict String OverrideRecord → List OverrideRecord
active d = keep (λ r. not r.reconciled) (values d)

-- What holds of a later entry of a dictionary.
InForce-tail :
    (path j id : String) (w r : OverrideRecord) (d : Dict String OverrideRecord)
    → has j d ≡ false
    → InForce path d id r
    → InForce path ((j, w) ∷ d) id r
unfolding get
InForce-tail path j id w r d fresh (there, live, covers) =
    (ground (arith, there, ==_iff j id, has_iff j d), live, covers)

first_affecting-InForce :
    (path : String) (d : Dict String OverrideRecord) (r : OverrideRecord)
    → IsDict d
    → first_affecting path (active d) ≡ some r
    → (id : String) × InForce path d id r
unfolding first_affecting IsDict get affects
first_affecting-InForce path [] r once e = cc
first_affecting-InForce path ((j, w) ∷ d) r once e = elim (Bool-cases w.reconciled) [
  | inl gone ↦
      let (id, h) = first_affecting-InForce path d r once.1 (rw gone at e) in
      (id, InForce-tail path j id w r d once.0 h)
  | inr live ↦ elim (Bool-cases (affects path w)) [
    | inr miss ↦
        let (id, h) = first_affecting-InForce path d r once.1 (rw (live, miss) at e) in
        (id, InForce-tail path j id w r d once.0 h)
    | inl hit ↦
        let same : w ≡ r = cc (rw (live, hit) at e) in
        (
          j,
          (
            ground (arith, same, ==_refl j),
            ground (arith, same),
            subst (λ x. Covers path x) same
                ((scope_affects_iff w.scope (normalized path) (normalized w.target_path)).0 hit),
          ),
        )
  ]
]

any_affects-first_affecting :
    (path : String) (rs : List OverrideRecord)
    → (any_affects path rs ≡ false) ↔ (first_affecting path rs ≡ none)
unfolding any_affects first_affecting
any_affects-first_affecting path [] = ground arith
any_affects-first_affecting path (r ∷ rs) = ground (arith, any_affects-first_affecting path rs)

any_affects_of_InForce :
    (path id : String) (d : Dict String OverrideRecord) (r : OverrideRecord)
    → InForce path d id r
    → any_affects path (active d) ≡ true
unfolding any_affects get affects
any_affects_of_InForce path id [] r (there, live, covers) = cc
any_affects_of_InForce path id ((j, w) ∷ d) r (there, live, covers) =
    let c = (scope_affects_iff r.scope (normalized path) (normalized r.target_path)).1 covers in
    elim (Bool-cases (j == id)) [
      | inl same ↦ let e : w ≡ r = cc (rw (same, get) at there) in ground (arith, e, c, live)
      | inr other ↦
          let rest = any_affects_of_InForce path id d r (rw (other, get) at there, live, covers) in
          ground (arith, rest)
    ]

-- The override that is reported for a path is in the records under its id, is not reconciled, and
-- covers the path, where every record stands under its own id.
pub get_override_for_path-InForce :
    (path : String) (m : ScopeManager) (r : OverrideRecord)
    → Keyed m.records
    → get_override_for_path path m ≡ some r
    → InForce path m.records r.override_id r
unfolding get_override_for_path get_active_overrides
get_override_for_path-InForce path m r h e =
    let (id, found) = first_affecting-InForce path m.records r h.once e in
    let own = get-All (λ k v. v.override_id ≡ k) id r m.records h.own_id found.0 in
    subst (λ k. InForce path m.records k r) (sym own) found

-- Where every record stands under its own id, a path is reported as overridden exactly when some
-- override in force covers it, and as not overridden exactly when no override is reported for it.
pub is_path_overridden_iff :
    (path : String) (m : ScopeManager)
    → Keyed m.records
    → ((is_path_overridden path m ≡ true)
        ↔ ((id : String) × (r : OverrideRecord) × InForce path m.records id r))
      × ((is_path_overridden path m ≡ false) ↔ (get_override_for_path path m ≡ none))
unfolding is_path_overridden get_override_for_path get_active_overrides
is_path_overridden_iff path m h =
    let agree = any_affects-first_affecting path (active m.records) in
    (
      (
        λ hit. elim (Option-cases (first_affecting path (active m.records))) [
          | inl nothing ↦ cc (agree.1 nothing)
          | inr (r, e) ↦
              let (id, found) = first_affecting-InForce path m.records r h.once e in (id, r, found)
        ],
        λ (id, r, found). any_affects_of_InForce path id m.records r found,
      ),
      agree,
    )
