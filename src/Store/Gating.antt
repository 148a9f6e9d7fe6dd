-- ===== src/Store/Gating.antt =====
-- The gate of the phases over the artifacts that the service keeps: `PhaseService` with the storage of
-- the artifact service.
use mathlib.Core.Path.{ap₂}
use rice_factor.Prelude.{
  ◌≡◌, refl, sym, ap, ◌∙◌, String, true, Option, some, List, [], ◌∷◌, map, any, arith, inl, inr,
  Bool-cases, Option-cases,
}
use rice_factor.Prelude.Eq.{◌==◌, ==_iff, text_eq}
use rice_factor.Prelude.Dict.{Dict, get, get-put_self}
use rice_factor.Prelude.Table.{IsoTime}
use rice_factor.Artifacts.{ArtifactType, test_plan, locked, status_eq}
use rice_factor.Phase.Service.{
  Project, command_phases, test_locked, is_locked, has_locked_test_plan, is_initialized,
  can_execute,
}
use rice_factor.Phase.Gate.{can_execute-test_locked_iff}
use rice_factor.Store.Envelope.{Envelope}
use rice_factor.Store.Storage.{
  ok, ArtifactPath, path_eq, type_dir, get_path_for_artifact, path_of, save, list_by_type,
}
use rice_factor.Store.Service.{Store, Call, locks, lock, step, run}
use rice_factor.Store.Load.{load_by_id-cases}
use rice_factor.Store.Paths.{type_eq}
use rice_factor.Store.Moves.{WellFormed, lock-approved}
use rice_factor.Store.Locked.{run-locked, step-WellFormed}

module _ {A U T : Type 0} (env : Envelope A U T) (iso : IsoTime) where
  -- An initialized project whose artifact service stands on these files.
  unfoldable pub project_over : Store T → Project
  project_over s = record {
    dir_exists = true;
    dir_is_dir = true;
    artifact_service = some (λ t. some (map (λ a. env.status a) (list_by_type env t s.files)));
  }

  -- A locked artifact is among those that are listed for its type.
  any-list_by_type :
      (path : ArtifactPath) (text : T) (a : A) (t : ArtifactType) (files : Dict ArtifactPath T)
      → get path files ≡ some text
      → env.read text ≡ some a
      → env.status a ≡ locked
      → path.dir ≡ type_dir t
      → any is_locked (map (λ b. env.status b) (list_by_type env t files)) ≡ true
  unfolding get list_by_type
  any-list_by_type path text a t [] there reads held place = cc
  any-list_by_type path text a t ((p, x) ∷ files) there reads held place =
      elim (Bool-cases (p == path)) [
        | inl hit ↦
            let dirs : (p.dir == type_dir t) ≡ true =
              (==_iff p.dir (type_dir t)).1 (ap (λ q. q.dir) ((==_iff p path).0 hit) ∙ place) in
            let same : x ≡ text = cc (rw hit at there) in
            let reads' : env.read x ≡ some a = ap (λ y. env.read y) same ∙ reads in
            rw (dirs, reads', list_by_type, held) refl
        | inr other ↦
            let later = any-list_by_type path text a t files (rw other at there) reads held place in
            elim (Bool-cases (p.dir == type_dir t)) [
              | inr outside ↦ rw (outside, list_by_type) later
              | inl inside ↦ elim (Option-cases (env.read x)) [
                | inl bad ↦ rw (inside, bad, list_by_type) later
                | inr (b, good) ↦ rw (inside, good, list_by_type) (ground (arith, later))
              ]
            ]
      ]

  project_over-locked :
      (s : Store T) (id : String) (text : T) (a : A)
      → get (get_path_for_artifact id test_plan) s.files ≡ some text
      → env.read text ≡ some a
      → env.status a ≡ locked
      → (command : String) → get command command_phases ≡ some test_locked
      → can_execute (project_over s) command ≡ true
  unfolding project_over get_path_for_artifact has_locked_test_plan is_initialized
  project_over-locked s id text a there reads held command need =
      (can_execute-test_locked_iff (project_over s) command need).1 (
        refl,
        any-list_by_type (get_path_for_artifact id test_plan) text a test_plan s.files there reads
            held refl,
      )

  -- What a successful lock leaves under the id.
  pub record LockedFile (id : String) (s : Store T) (b : A) : Type 0 where
    pub text : T
    pub there : get (get_path_for_artifact id test_plan) s.files ≡ some text
    pub reads : env.read text ≡ some b
    pub held : env.status b ≡ locked

  lock-LockedFile :
      (id : String) (t : Option ArtifactType) (s : Store T) (b : A)
      → WellFormed env iso s
      → (lock env iso id t s).0 ≡ ok b
      → LockedFile id (lock env iso id t s).1 b
  unfolding lock save
  lock-LockedFile id t s b wf done = elim (load_by_id-cases env id t s.files wf.placed) [
    | inl (e, fails) ↦ cc (rw (fails.failed, lock) at done)
    | inr (a, loads) ↦ elim (Option-cases (env.lock a)) [
      | inl refuses ↦ cc (rw (loads.loaded, lock, refuses) at done)
      | inr (c, accepts) ↦
          let same : c ≡ b = cc (rw (loads.loaded, lock, accepts) at done) in
          let moved = env.locks a c accepts in
          let is_plan : env.type_of a ≡ test_plan =
            ground (arith, lock-approved env iso a c accepts, ==_iff (env.type_of a) test_plan) in
          let fits : env.valid c ≡ true =
            moved.same_valid ∙ env.valid-read loads.stored.text a loads.stored.reads in
          let place : path_of env c ≡ get_path_for_artifact id test_plan =
            ap₂ get_path_for_artifact (moved.same_id ∙ loads.same_id) (moved.same_type ∙ is_plan) in
          rw (loads.loaded, lock, accepts)
            (record {
              text = env.write c;
              there =
                  ap (λ p. get p (save env c s.files)) (sym place)
                  ∙ get-put_self (path_of env c) (env.write c) s.files;
              reads = env.read-write c fits ∙ ap some same;
              held = ap env.status (sym same) ∙ moved.moved_to;
            })
    ]
  ]

  -- On well-formed files and approvals of an initialized project, once `lock` has returned an artifact,
  -- every command that needs locked tests can be executed, whatever is called of the service since.
  pub lock-can_execute :
      (id : String) (t : Option ArtifactType) (s : Store T) (b : A) (cs : List (Call U))
      (command : String)
      → WellFormed env iso s
      → (lock env iso id t s).0 ≡ ok b
      → get command command_phases ≡ some test_locked
      → can_execute (project_over (run env iso cs (lock env iso id t s).1)) command ≡ true
  unfolding step
  lock-can_execute id t s b cs command wf done need =
      let h = lock-LockedFile id t s b wf done in
      let after = step-WellFormed env iso (locks id t) s wf in
      project_over-locked (run env iso cs (lock env iso id t s).1) id h.text b
        (run-locked env iso cs (lock env iso id t s).1 (get_path_for_artifact id test_plan) h.text b
          after h.there h.reads h.held)
        h.reads h.held command need
