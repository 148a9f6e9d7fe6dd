-- ===== src/Store/Registry.antt =====
-- rice_factor/adapters/storage/registry.py: `ArtifactRegistry`. Of an envelope it reads five fields; the
-- modules of the envelope, of `RegistryEntry` and of the enumerations are not in the repository.
use rice_factor.Prelude.{
  ℕ, ◌≡◌, String, Bool, true, false, Option, none, some, List, [], ◌∷◌, map, if◌then◌else◌,
}
use rice_factor.Prelude.Eq.{◌==◌, text_eq}
use rice_factor.Prelude.Dict.{Dict, values, get, has, put, del}
use rice_factor.Prelude.Table.{JsonFile, items, IsoTime, ◌>>=◌, load_table}
use rice_factor.Artifacts.{ArtifactType, ArtifactStatus, draft, status_eq}
use rice_factor.Store.Paths.{type_eq}

-- `.value` of the enumerations, and looking a member up by its value (`none` is the ValueError).
pub record EnumValues : Type 0 where
  pub type_value : ArtifactType → String
  pub read_type : String → Option ArtifactType
  pub status_value : ArtifactStatus → String
  pub read_status : String → Option ArtifactStatus
  pub read_type-value : (t : ArtifactType) → read_type (type_value t) ≡ some t
  pub read_status-value : (s : ArtifactStatus) → read_status (status_value s) ≡ some s

pub record Artifact : Type 0 where
  pub id : String
  pub artifact_type : ArtifactType
  pub status : ArtifactStatus
  pub created_at : ℕ
  pub depends_on : List String

pub record RegistryEntry : Type 0 where
  pub id : String
  pub artifact_type : ArtifactType
  pub path : String
  pub status : ArtifactStatus
  pub created_at : ℕ

-- An entry of index.json: `none` for a key that is missing.
pub record EntryJson : Type 0 where
  pub id : Option String
  pub artifact_type : Option String
  pub path : Option String
  pub status : Option String
  pub created_at : Option String

pub record ArtifactRegistry : Type 0 where
  pub entries : Dict String RegistryEntry
  pub index_file : JsonFile EntryJson

module _ (values_of : EnumValues) (iso : IsoTime) where
  unfoldable pub entry_to_json : RegistryEntry → EntryJson
  entry_to_json e = record {
    id = some e.id;
    artifact_type = some (values_of.type_value e.artifact_type);
    path = some e.path;
    status = some (values_of.status_value e.status);
    created_at = some (iso.isoformat e.created_at);
  }

  -- `none` is the KeyError or the ValueError
  unfoldable pub entry_from_json : EntryJson → Option RegistryEntry
  entry_from_json j = do
    id ← j.id
    type_text ← j.artifact_type
    artifact_type ← values_of.read_type type_text
    path ← j.path
    status_text ← j.status
    status ← values_of.read_status status_text
    created_text ← j.created_at
    created_at ← iso.fromisoformat created_text
    some (record {
      id = id;
      artifact_type = artifact_type;
      path = path;
      status = status;
      created_at = created_at;
    })

  unfoldable pub save_index : Dict String RegistryEntry → ArtifactRegistry
  unfolding entry_to_json
  save_index d = record { entries = d; index_file = items (map entry_to_json (values d)) }

  -- A new registry over the file.
  unfoldable pub load_index : JsonFile EntryJson → ArtifactRegistry
  unfolding entry_from_json
  load_index file = record {
    entries = load_table (λ e. e.id) entry_from_json file;
    index_file = file;
  }

  unfoldable pub register : Artifact → String → ArtifactRegistry → RegistryEntry × ArtifactRegistry
  unfolding save_index
  register a path r =
      let entry : RegistryEntry = record {
        id = a.id;
        artifact_type = a.artifact_type;
        path = path;
        status = a.status;
        created_at = a.created_at;
      } in
      (entry, save_index (put a.id entry r.entries))

  unfoldable pub unregister : String → ArtifactRegistry → Bool × ArtifactRegistry
  unfolding save_index
  unregister id r = if has id r.entries then (true, save_index (del id r.entries)) else (false, r)

  unfoldable pub update_status :
      String → ArtifactStatus → ArtifactRegistry → Bool × ArtifactRegistry
  unfolding save_index
  update_status id s r = elim (get id r.entries) [
    | none ↦ (false, r)
    | some entry ↦ (true, save_index (put id (record entry { status = s }) r.entries))
  ]

unfoldable pub lookup : String → ArtifactRegistry → Option RegistryEntry
lookup id r = get id r.entries

unfoldable pub list_all : ArtifactRegistry → List RegistryEntry
list_all r = values r.entries

unfoldable pub list_where : (RegistryEntry → Bool) → List RegistryEntry → List RegistryEntry
list_where test [] = []
list_where test (e ∷ es) = let rest = list_where test es in if test e then e ∷ rest else rest

unfoldable pub entries_of_type : ArtifactType → ArtifactRegistry → List RegistryEntry
unfolding list_where
entries_of_type t r = list_where (λ e. e.artifact_type == t) (values r.entries)

unfoldable pub entries_of_status : ArtifactStatus → ArtifactRegistry → List RegistryEntry
unfolding list_where
entries_of_status s r = list_where (λ e. e.status == s) (values r.entries)

pub data DependencyError : Type 0 where
  not_registered still_draft : String → DependencyError

-- The loop over `depends_on`: `none` where it comes to its end.
unfoldable pub check_dependencies : List String → ArtifactRegistry → Option DependencyError
unfolding lookup
check_dependencies [] r = none
check_dependencies (id ∷ ids) r =
    let rest = check_dependencies ids r in
    elim (lookup id r) [
      | none ↦ some (not_registered id)
      | some entry ↦ if entry.status == draft then some (still_draft id) else rest
    ]

unfoldable pub validate_dependencies : Artifact → ArtifactRegistry → Option DependencyError
unfolding check_dependencies
validate_dependencies a r = check_dependencies a.depends_on r
