-- ===== src/Store/Storage.antt =====
-- rice_factor/adapters/storage/filesystem.py: `FilesystemStorageAdapter`. A path is a directory under
-- the root and a file name; a UUID is its text. Writing a file succeeds.
use rice_factor.Prelude.{
  ◌≡◌, ◌↔◌, String, Bool, true, false, ◌&&◌, Option, none, some, List, [], ◌∷◌, arith,
  if◌then◌else◌,
}
use rice_factor.Prelude.Eq.{Eq, ◌==◌, ==_iff, text_eq}
use rice_factor.Prelude.Dict.{Dict, get, has, put, del}
use rice_factor.Artifacts.{
  ArtifactType, project_plan, architecture_plan, scaffold_plan, test_plan, implementation_plan,
  refactor_plan, validation_result, reconciliation_plan,
}
use rice_factor.Store.Envelope.{Envelope}

pub data ArtifactError : Type 0 where
  not_found invalid status_error : ArtifactError

pub data Result {ℓ} (B : Type ℓ) : Type ℓ where
  ok : B → Result B
  err : ArtifactError → Result B

pub record ArtifactPath : Type 0 where
  pub dir : String
  pub name : String

abbrev pub same_path : ArtifactPath → ArtifactPath → Bool
same_path p q = p.dir == q.dir && p.name == q.name

pub same_path_iff : (p q : ArtifactPath) → (same_path p q ≡ true) ↔ (p ≡ q)
same_path_iff p q = ground (arith, ==_iff p.dir q.dir, ==_iff p.name q.name)

instance abbrev pub path_eq : Eq ArtifactPath
path_eq = record { same_iff = same_path_iff; same = same_path }

-- `TYPE_DIR_MAP`, which has every type
unfoldable pub type_dir : ArtifactType → String
type_dir project_plan = "project_plans"
type_dir architecture_plan = "architecture_plans"
type_dir scaffold_plan = "scaffold_plans"
type_dir test_plan = "test_plans"
type_dir implementation_plan = "implementation_plans"
type_dir refactor_plan = "refactor_plans"
type_dir validation_result = "validation_results"
type_dir reconciliation_plan = "reconciliation_plans"

-- `for atype in ArtifactType`
abbrev pub all_types : List ArtifactType
all_types =
    project_plan ∷ architecture_plan ∷ scaffold_plan ∷ test_plan ∷ implementation_plan
    ∷ refactor_plan ∷ validation_result ∷ reconciliation_plan ∷ []

unfoldable pub get_path_for_artifact : String → ArtifactType → ArtifactPath
unfolding type_dir
get_path_for_artifact id t = record { dir = type_dir t; name = Prim.Native.String.◌++◌ id ".json" }

module _ {T : Type 0} where
  -- The loop over all types: the first that has a file for the id.
  unfoldable pub find_type : String → List ArtifactType → Dict ArtifactPath T → Option ArtifactType
  find_type id [] files = none
  find_type id (t ∷ ts) files =
      let rest = find_type id ts files in
      if has (get_path_for_artifact id t) files then some t else rest

  -- The path that an operation works on: that of the given type, or of the first type with a file.
  unfoldable pub locate : String → Option ArtifactType → Dict ArtifactPath T → Option ArtifactPath
  locate id (some t) files =
      let path = get_path_for_artifact id t in if has path files then some path else none
  locate id none files = elim (find_type id all_types files) [
    | none ↦ none
    | some t ↦ some (get_path_for_artifact id t)
  ]

  unfoldable pub exists : String → Option ArtifactType → Dict ArtifactPath T → Bool
  unfolding locate
  exists id t files = elim (locate id t files) [ none ↦ false | some path ↦ true ]

  unfoldable pub delete :
      String → Option ArtifactType → Dict ArtifactPath T → Result (Dict ArtifactPath T)
  unfolding locate
  delete id t files = elim (locate id t files) [
    | none ↦ err not_found
    | some path ↦ ok (del path files)
  ]

module _ {A U T : Type 0} (env : Envelope A U T) where
  abbrev pub path_of : A → ArtifactPath
  path_of a = get_path_for_artifact (env.id a) (env.type_of a)

  unfoldable pub save : A → Dict ArtifactPath T → Dict ArtifactPath T
  save a files = put (path_of a) (env.write a) files

  abbrev readable : Option A → Result A
  readable none = err invalid
  readable (some a) = ok a

  unfoldable pub load : ArtifactPath → Dict ArtifactPath T → Result A
  load path files = elim (get path files) [
    | none ↦ err not_found
    | some text ↦ readable (env.read text)
  ]

  unfoldable pub load_by_id : String → Option ArtifactType → Dict ArtifactPath T → Result A
  unfolding locate load
  load_by_id id t files = elim (locate id t files) [
    | none ↦ err not_found
    | some path ↦ load path files
  ]

  -- `type_dir.glob("*.json")`, in the order of the dictionary, without the files that do not load. A path
  -- is that of an artifact, so that its suffix is .json; other files in the directory are not listed.
  unfoldable pub list_by_type : ArtifactType → Dict ArtifactPath T → List A
  list_by_type t [] = []
  list_by_type t ((path, text) ∷ files) =
      let rest = list_by_type t files in
      if path.dir == type_dir t
      then elim (env.read text) [ none ↦ rest | some a ↦ a ∷ rest ]
      else rest
