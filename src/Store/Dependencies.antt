-- ===== src/Store/Dependencies.antt =====
-- When the dependencies of an artifact are satisfied, and the registry over its file.
use rice_factor.Prelude.{
  ◌≡◌, ◌≢◌, refl, sym, ap, ◌∙◌, ◌↔◌, String, none, some, List, [], ◌∷◌, arith, inl, inr, Bool-cases,
  Option-cases, All,
}
use rice_factor.Prelude.Eq.{◌==◌, ==_iff, text_eq}
use rice_factor.Prelude.Dict.{Dict, get, has, put, del}
use rice_factor.Prelude.Table.{
  JsonFile, IsoTime, Keyed, put-Keyed, del-Keyed, get-Keyed, load_table-Keyed, load_table-items,
}
use rice_factor.Artifacts.{ArtifactStatus, draft, status_eq}
use rice_factor.Store.Registry.{
  EnumValues, Artifact, RegistryEntry, EntryJson, ArtifactRegistry, entry_to_json, entry_from_json,
  save_index, load_index, register, unregister, update_status, lookup, check_dependencies,
  validate_dependencies,
}

-- The id is registered with an artifact that is not a draft.
pub record Satisfied (r : ArtifactRegistry) (id : String) : Type 0 where
  pub entry : RegistryEntry
  pub registered : lookup id r ≡ some entry
  pub past_draft : entry.status ≢ draft

check_dependencies_iff :
    (ids : List String) (r : ArtifactRegistry)
    → (check_dependencies ids r ≡ none) ↔ All (Satisfied r) ids
unfolding check_dependencies
check_dependencies_iff [] r = ((λ e. tt), (λ a. refl))
check_dependencies_iff (id ∷ ids) r = elim (Option-cases (lookup id r)) [
  | inl gone ↦ ((λ e. cc (rw (gone, check_dependencies) at e)), (λ a. cc (gone, a.0.registered)))
  | inr (entry, there) ↦ elim (Bool-cases (entry.status == draft)) [
    | inl hit ↦ (
      (λ e. cc (rw (there, check_dependencies, hit) at e)),
      (λ a.
          let same : entry ≡ a.0.entry = cc (there, a.0.registered) in
          absurd
            (a.0.past_draft (ap (λ x. x.status) (sym same) ∙ (==_iff entry.status draft).0 hit))),
    )
    | inr other ↦ (
      (λ e. (
        record {
          entry = entry;
          registered = there;
          past_draft = ground (arith, other, ==_iff entry.status draft);
        },
        (check_dependencies_iff ids r).0 (rw (there, check_dependencies, other) at e),
      )),
      (λ a. rw (there, check_dependencies, other) ((check_dependencies_iff ids r).1 a.1)),
    )
  ]
]

-- The dependencies of an artifact are accepted exactly when each is registered with a status other than
-- draft.
pub validate_dependencies_iff :
    (a : Artifact) (r : ArtifactRegistry)
    → (validate_dependencies a r ≡ none) ↔ All (Satisfied r) a.depends_on
unfolding validate_dependencies
validate_dependencies_iff a r = check_dependencies_iff a.depends_on r

-- A call of the registry that changes it.
pub data Change : Type 0 where
  registers : Artifact → String → Change
  unregisters : String → Change
  updates : String → ArtifactStatus → Change

module _ (values_of : EnumValues) (iso : IsoTime) where
  unfoldable pub change : Change → ArtifactRegistry → ArtifactRegistry
  unfolding register unregister update_status
  change (registers a path) r = (register values_of iso a path r).1
  change (unregisters id) r = (unregister values_of iso id r).1
  change (updates id s) r = (update_status values_of iso id s r).1

  unfoldable pub changes : List Change → ArtifactRegistry → ArtifactRegistry
  unfolding change
  changes [] r = r
  changes (c ∷ cs) r = changes cs (change c r)

  record Indexed (r : ArtifactRegistry) : Type 0 where
    keyed : Keyed (λ e. e.id) r.entries
    reloads : load_index values_of iso r.index_file ≡ r

  from-to :
      (e : RegistryEntry) → entry_from_json values_of iso (entry_to_json values_of iso e) ≡ some e
  unfolding entry_from_json entry_to_json
  from-to e =
      rw
        (
          values_of.read_type-value e.artifact_type,
          values_of.read_status-value e.status,
          iso.round_trip e.created_at,
        )
        refl

  load_index-Indexed : (file : JsonFile EntryJson) → Indexed (load_index values_of iso file)
  unfolding load_index
  load_index-Indexed file = record {
    keyed = load_table-Keyed (λ e. e.id) (entry_from_json values_of iso) file;
    reloads = refl;
  }

  save_index-Indexed :
      (d : Dict String RegistryEntry) → Keyed (λ e. e.id) d → Indexed (save_index values_of iso d)
  unfolding load_index save_index
  save_index-Indexed d h = record {
    keyed = h;
    reloads =
        rw
          (load_table-items (λ e. e.id) (entry_from_json values_of iso)
            (entry_to_json values_of iso) from-to d h)
          refl;
  }

  change-Indexed : (c : Change) (r : ArtifactRegistry) → Indexed r → Indexed (change c r)
  unfolding change register unregister update_status
  change-Indexed (registers a path) r h =
      let entry : RegistryEntry = record {
        id = a.id;
        artifact_type = a.artifact_type;
        path = path;
        status = a.status;
        created_at = a.created_at;
      } in
      save_index-Indexed (put a.id entry r.entries)
        (put-Keyed (λ e. e.id) a.id entry r.entries refl h.keyed)
  change-Indexed (unregisters id) r h = elim (Bool-cases (has id r.entries)) [
    | inr gone ↦ rw (gone, change) h
    | inl there ↦
        rw (there, change)
          (save_index-Indexed (del id r.entries) (del-Keyed (λ e. e.id) id r.entries h.keyed))
  ]
  change-Indexed (updates id s) r h = elim (Option-cases (get id r.entries)) [
    | inl gone ↦ rw (gone, change) h
    | inr (entry, there) ↦
        let own = get-Keyed (λ e. e.id) id entry r.entries h.keyed there in
        let e : RegistryEntry = record entry { status = s } in
        rw (there, change)
          (save_index-Indexed (put id e r.entries)
            (put-Keyed (λ e. e.id) id e r.entries own h.keyed))
  ]

  changes-Indexed : (cs : List Change) (r : ArtifactRegistry) → Indexed r → Indexed (changes cs r)
  unfolding changes
  changes-Indexed [] r h = h
  changes-Indexed (c ∷ cs) r h = changes-Indexed cs (change c r) (change-Indexed c r h)

  -- A registry is loaded from a file, whatever it holds. After any sequence of registrations, removals
  -- and updates, a registry that is loaded from its file is the same.
  pub load_index-changes :
      (file : JsonFile EntryJson) (cs : List Change)
      → let r = changes cs (load_index values_of iso file) in
        load_index values_of iso r.index_file ≡ r
  load_index-changes file cs =
      (changes-Indexed cs (load_index values_of iso file) (load_index-Indexed file)).reloads
