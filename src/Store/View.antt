-- ===== src/Store/View.antt =====
-- The abstract view of the files: for each type and id, no artifact, a file that does not load, or an
-- artifact in a status; and what loading by id finds in terms of it.
use rice_factor.Prelude.{
  ◌≡◌, refl, sym, ap, ◌∙◌, String, Bool, true, false, Option, none, some, List, [], ◌∷◌, arith,
  if◌then◌else◌, Option-cases, inl, inr,
}
use rice_factor.Prelude.Eq.{text_eq}
use rice_factor.Prelude.Dict.{Dict, get, has, has_iff}
use rice_factor.Artifacts.{ArtifactType, ArtifactStatus}
use rice_factor.Store.Envelope.{Envelope}
use rice_factor.Store.Storage.{
  ArtifactPath, path_eq, all_types, get_path_for_artifact, find_type, locate,
}
use rice_factor.Store.Paths.{type_eq}

pub data Stage : Type 0 where
  missing broken : Stage
  in_status : ArtifactStatus → Stage

abbrev pub is_missing : Stage → Bool
is_missing missing = true
is_missing _ = false

abbrev pub Stages : Type 0
Stages = ArtifactType → String → Stage

-- The first of the types in which there is something under the id.
unfoldable pub first_present : String → List ArtifactType → Stages → Option ArtifactType
first_present id [] m = none
first_present id (t ∷ ts) m =
    let rest = first_present id ts m in if is_missing (m t id) then rest else some t

unfoldable pub target : String → Option ArtifactType → Stages → Option ArtifactType
unfolding first_present
target id (some t) m = if is_missing (m t id) then none else some t
target id none m = first_present id all_types m

module _ {A U T : Type 0} (env : Envelope A U T) where
  abbrev stage_of_read : Option A → Stage
  stage_of_read none = broken
  stage_of_read (some a) = in_status (env.status a)

  abbrev stage_of_text : Option T → Stage
  stage_of_text none = missing
  stage_of_text (some text) = stage_of_read (env.read text)

  unfoldable pub stage : Dict ArtifactPath T → Stages
  stage files t id = stage_of_text (get (get_path_for_artifact id t) files)

  stage_missing :
      (files : Dict ArtifactPath T) (t : ArtifactType) (id : String)
      → has (get_path_for_artifact id t) files
        ≡ (if is_missing (stage files t id) then false else true)
  unfolding stage
  stage_missing files t id = elim (Option-cases (get (get_path_for_artifact id t) files)) [
    | inl gone ↦ (has_iff (get_path_for_artifact id t) files).1 gone ∙ rw gone refl
    | inr (text, there) ↦ elim (Option-cases (env.read text)) [
      | inl bad ↦ ground (arith, has_iff (get_path_for_artifact id t) files, there, bad)
      | inr (a, good) ↦ ground (arith, has_iff (get_path_for_artifact id t) files, there, good)
    ]
  ]

  find_type-first_present :
      (id : String) (ts : List ArtifactType) (files : Dict ArtifactPath T)
      → find_type id ts files ≡ first_present id ts (stage files)
  unfolding find_type first_present
  find_type-first_present id [] files = refl
  find_type-first_present id (t ∷ ts) files =
      ground (arith, stage_missing files t id, find_type-first_present id ts files)

  abbrev pub path_for : String → Option ArtifactType → Option ArtifactPath
  path_for id none = none
  path_for id (some t) = some (get_path_for_artifact id t)

  pub locate-target :
      (id : String) (t : Option ArtifactType) (files : Dict ArtifactPath T)
      → locate id t files ≡ path_for id (target id t (stage files))
  unfolding locate target
  locate-target id (some t) files = ground (arith, stage_missing files t id)
  locate-target id none files =
      let e = find_type-first_present id all_types files in
      elim (Option-cases (find_type id all_types files)) [
        | inl gone ↦ rw (gone, locate) (ap (path_for id) (sym gone ∙ e))
        | inr (t, there) ↦ rw (there, locate) (ap (path_for id) (sym there ∙ e))
      ]
