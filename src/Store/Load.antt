-- ===== src/Store/Load.antt =====
-- What loading an artifact by its id gives, and what saving one does to the view of the files.
use mathlib.Core.Path.{fun_ext}
use rice_factor.Prelude.{
  ◌≡◌, refl, sym, ap, ◌∙◌, ◌⊎◌, String, true, ◌&&◌, Option, none, some, arith, if◌then◌else◌,
  Bool-cases, Option-cases, inl, inr,
}
use rice_factor.Prelude.Eq.{◌==◌, ==_iff, text_eq}
use rice_factor.Prelude.Dict.{Dict, get, get-put}
use rice_factor.Artifacts.{ArtifactType, ArtifactStatus}
use rice_factor.Store.Envelope.{Envelope}
use rice_factor.Store.Storage.{
  ArtifactError, Result, ok, err, not_found, invalid, ArtifactPath, path_eq, get_path_for_artifact,
  locate, path_of, save, load, load_by_id,
}
use rice_factor.Store.Paths.{type_eq, same_path_for_iff, Placed}
use rice_factor.Store.View.{
  Stage, missing, broken, in_status, Stages, target, stage, path_for, locate-target,
}

abbrev pub found_at : ArtifactType → Stage → Result (ArtifactType × ArtifactStatus)
found_at k missing = err not_found
found_at k broken = err invalid
found_at k (in_status s) = ok (k, s)

-- What is found in the abstract view: the type and the status.
unfoldable pub found :
    String → Option ArtifactType → Stages → Result (ArtifactType × ArtifactStatus)
unfolding target
found id t m = elim (target id t m) [ none ↦ err not_found | some k ↦ found_at k (m k id) ]

unfoldable pub set_stage : ArtifactType → String → Stage → Stages → Stages
set_stage k id v m t j = if k == t && id == j then v else m t j

module _ {A U T : Type 0} (env : Envelope A U T) where
  -- `a` is what the file at its own path holds.
  pub record Stored (a : A) (files : Dict ArtifactPath T) : Type 0 where
    pub text : T
    pub there : get (path_of env a) files ≡ some text
    pub reads : env.read text ≡ some a

  own_key :
      (a : A) (id : String) (k : ArtifactType)
      → path_of env a ≡ get_path_for_artifact id k
      → (env.type_of a ≡ k) × (env.id a ≡ id)
  own_key a id k own =
      let both : (env.type_of a == k && env.id a == id) ≡ true =
        sym (same_path_for_iff (env.id a) id (env.type_of a) k)
        ∙ (==_iff (path_of env a) (get_path_for_artifact id k)).1 own in
      ground (arith, ==_iff (env.type_of a) k, ==_iff (env.id a) id)

  pub record Loads (id : String) (t : Option ArtifactType) (files : Dict ArtifactPath T) (a : A)
      : Type 0 where
    pub loaded : load_by_id env id t files ≡ ok a
    pub seen : found id t (stage env files) ≡ ok (env.type_of a, env.status a)
    pub same_id : env.id a ≡ id
    pub stored : Stored a files

  pub record Fails (id : String) (t : Option ArtifactType) (files : Dict ArtifactPath T)
      (e : ArtifactError) : Type 0 where
    pub failed : load_by_id env id t files ≡ err e
    pub unseen : found id t (stage env files) ≡ err e

  pub load_by_id-cases :
      (id : String) (t : Option ArtifactType) (files : Dict ArtifactPath T)
      → Placed env files
      → ((e : ArtifactError) × Fails id t files e) ⊎ ((a : A) × Loads id t files a)
  unfolding found load_by_id load stage
  load_by_id-cases id t files placed = elim (Option-cases (target id t (stage env files))) [
    | inl gone ↦
        let nowhere : locate id t files ≡ none =
          locate-target env id t files ∙ ap (path_for env id) gone in
        inl (
          not_found,
          record { failed = rw (nowhere, load_by_id) refl; unseen = rw (gone, found) refl },
        )
    | inr (k, here) ↦
        let path = get_path_for_artifact id k in
        let place : locate id t files ≡ some path =
          locate-target env id t files ∙ ap (path_for env id) here in
        elim (Option-cases (get path files)) [
          | inl gone ↦ inl (
            not_found,
            record {
              failed = rw (place, load_by_id, load, gone) refl;
              unseen = rw (here, found, stage, gone) refl;
            },
          )
          | inr (text, there) ↦ elim (Option-cases (env.read text)) [
            | inl bad ↦ inl (
              invalid,
              record {
                failed = rw (place, load_by_id, load, there, bad) refl;
                unseen = rw (here, found, stage, there, bad) refl;
              },
            )
            | inr (a, good) ↦
                let own = placed path text a there good in
                let same = own_key a id k own in
                inr (
                  a,
                  record {
                    loaded = rw (place, load_by_id, load, there, good) refl;
                    seen =
                        rw (here, found, stage, there, good)
                          (ap (λ j. ok (j, env.status a)) (sym same.0));
                    same_id = same.1;
                    stored = record {
                      text = text;
                      there = ap (λ p. get p files) own ∙ there;
                      reads = good;
                    };
                  },
                )
          ]
        ]
  ]

  -- What the file of an artifact looks like once it is written.
  abbrev pub written : A → Stage
  written b = if env.valid b then in_status (env.status b) else broken

  stage-save_at :
      (b : A) (files : Dict ArtifactPath T) (t : ArtifactType) (j : String)
      → stage env (save env b files) t j
        ≡ set_stage (env.type_of b) (env.id b) (written b) (stage env files) t j
  unfolding stage save set_stage
  stage-save_at b files t j =
      let e = get-put (path_of env b) (get_path_for_artifact j t) (env.write b) files in
      let same = same_path_for_iff (env.id b) j (env.type_of b) t in
      elim (Bool-cases (env.type_of b == t && env.id b == j)) [
        | inr other ↦ rw (e, same, other) refl
        | inl hit ↦ elim (Bool-cases (env.valid b)) [
          | inl fits ↦ rw (e, same, hit, fits, env.read-write b fits) refl
          | inr unfit ↦ rw (e, same, hit, unfit, env.read_invalid b unfit) refl
        ]
      ]

  pub stage-save :
      (b : A) (files : Dict ArtifactPath T)
      → stage env (save env b files)
        ≡ set_stage (env.type_of b) (env.id b) (written b) (stage env files)
  stage-save b files = fun_ext (λ t. fun_ext (λ j. stage-save_at b files t j))
