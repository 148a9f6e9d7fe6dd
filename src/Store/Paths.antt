-- ===== src/Store/Paths.antt =====
-- Different artifacts have different paths, and a file that loads stands at the path of its artifact.
use text.Mathlib.TextLemmas.{append_cancel_right}
use rice_factor.Prelude.{
  ◌≡◌, refl, sym, ap, ◌∙◌, ◌↔◌, String, Bool, true, ◌&&◌, Option, none, some, arith, eqb,
  if◌then◌else◌, Bool-cases, inl, inr, ℕ,
}
use rice_factor.Prelude.Eq.{same_of_inj, Eq, ◌==◌, ==_iff, text_eq}
use rice_factor.Prelude.Dict.{Dict, get, get-put}
use rice_factor.Artifacts.{
  ArtifactType, project_plan, architecture_plan, scaffold_plan, test_plan, implementation_plan,
  refactor_plan, validation_result, reconciliation_plan,
}
use rice_factor.Store.Envelope.{Envelope}
use rice_factor.Store.Storage.{
  ArtifactPath, path_eq, type_dir, get_path_for_artifact, path_of, save,
}

abbrev ordinal : ArtifactType → ℕ
ordinal project_plan = 0
ordinal architecture_plan = 1
ordinal scaffold_plan = 2
ordinal test_plan = 3
ordinal implementation_plan = 4
ordinal refactor_plan = 5
ordinal validation_result = 6
ordinal reconciliation_plan = 7

abbrev pub same_type : ArtifactType → ArtifactType → Bool
same_type t u = eqb (ordinal t) (ordinal u)

pub same_type_iff : (t u : ArtifactType) → (same_type t u ≡ true) ↔ (t ≡ u)
same_type_iff t u = ground arith

instance abbrev pub type_eq : Eq ArtifactType
type_eq = record { same_iff = same_type_iff; same = same_type }

-- The type that a directory is for.
pub type_of_dir : String → Option ArtifactType
type_of_dir s =
    if s == "project_plans"
    then some project_plan
    else if s == "architecture_plans"
    then some architecture_plan
    else if s == "scaffold_plans"
    then some scaffold_plan
    else if s == "test_plans"
    then some test_plan
    else if s == "implementation_plans"
    then some implementation_plan
    else if s == "refactor_plans"
    then some refactor_plan
    else if s == "validation_results"
    then some validation_result
    else if s == "reconciliation_plans"
    then some reconciliation_plan
    else none

pub type_of_dir-type_dir : (t : ArtifactType) → type_of_dir (type_dir t) ≡ some t
unfolding type_of_dir type_dir
type_of_dir-type_dir project_plan = refl
type_of_dir-type_dir architecture_plan = refl
type_of_dir-type_dir scaffold_plan = refl
type_of_dir-type_dir test_plan = refl
type_of_dir-type_dir implementation_plan = refl
type_of_dir-type_dir refactor_plan = refl
type_of_dir-type_dir validation_result = refl
type_of_dir-type_dir reconciliation_plan = refl

type_dir_inj : (t u : ArtifactType) → type_dir t ≡ type_dir u → t ≡ u
type_dir_inj t u h =
    let e : some t ≡ some u =
      sym (type_of_dir-type_dir t) ∙ ap type_of_dir h ∙ type_of_dir-type_dir u in
    cc

-- Two artifacts share a path exactly if they share type and id.
pub same_path_for_iff :
    (id j : String) (t u : ArtifactType)
    → (get_path_for_artifact id t == get_path_for_artifact j u) ≡ (t == u && id == j)
unfolding get_path_for_artifact
same_path_for_iff id j t u =
    ap (λ b. b && Prim.Native.String.◌++◌ id ".json" == Prim.Native.String.◌++◌ j ".json")
      (same_of_inj type_dir t u (type_dir_inj t u))
    ∙ ap (λ b. t == u && b)
        (same_of_inj (λ x. Prim.Native.String.◌++◌ x ".json") id j
          (append_cancel_right id j ".json"))

module _ {A U T : Type 0} (env : Envelope A U T) where
  -- Each file that loads stands at the path of its artifact.
  abbrev pub Placed : Dict ArtifactPath T → Type 0
  Placed files =
      (path : ArtifactPath) (text : T) (a : A)
      → get path files ≡ some text
      → env.read text ≡ some a
      → path_of env a ≡ path

  pub save-Placed : (b : A) (files : Dict ArtifactPath T) → Placed files → Placed (save env b files)
  unfolding save
  save-Placed b files placed path text a there reads = elim (Bool-cases (path_of env b == path)) [
    | inr other ↦
        placed path text a (ground (arith, get-put (path_of env b) path (env.write b) files)) reads
    | inl same ↦
        let written : text ≡ env.write b =
          ground (arith, get-put (path_of env b) path (env.write b) files) in
        elim (Bool-cases (env.valid b)) [
          | inl fits ↦
              let e : a ≡ b = cc (env.read-write b fits) in
              ap (path_of env) e ∙ (==_iff (path_of env b) path).0 same
          | inr broken ↦ cc (env.read_invalid b broken)
        ]
  ]
