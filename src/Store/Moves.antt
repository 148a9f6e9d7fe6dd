-- ===== src/Store/Moves.antt =====
-- Well-formed files and approvals, and what the moves of an artifact's status do to the view of them.
use rice_factor.Prelude.{
  ◌≡◌, refl, ◌∙◌, String, Bool, true, false, none, some, arith, inl, inr, Bool-cases, ◌&&◌,
}
use rice_factor.Prelude.Eq.{◌==◌, ==_iff, text_eq}
use rice_factor.Prelude.Dict.{Dict}
use rice_factor.Prelude.Table.{IsoTime, Keyed}
use rice_factor.Artifacts.{test_plan, ArtifactStatus, draft, approved, status_eq}
use rice_factor.Store.Envelope.{Envelope, Moved}
use rice_factor.Store.Storage.{ArtifactPath, Result, save}
use rice_factor.Store.Paths.{type_eq, Placed}
use rice_factor.Store.Service.{Store, Call, step}
use rice_factor.Store.View.{in_status, Stages, stage}
use rice_factor.Store.Load.{set_stage, Stored, written, stage-save}
use rice_factor.Store.Contract.{Abstract, Reply, done, contract, reply, view}

module _ {A U T : Type 0} (env : Envelope A U T) (iso : IsoTime) where
  pub record WellFormed (s : Store T) : Type 0 where
    pub placed : Placed env s.files
    pub keyed : Keyed (λ a. a.artifact_id) s.tracker.approvals

  -- Saving an artifact that moved from a stored one changes the stage under its id.
  pub stage-save-Moved :
      (st : ArtifactStatus) (id : String) (a b : A) (files : Dict ArtifactPath T)
      → Moved env.id env.type_of env.status env.valid st a b
      → Stored env a files
      → env.id a ≡ id
      → stage env (save env b files) ≡ set_stage (env.type_of a) id (in_status st) (stage env files)
  stage-save-Moved st id a b files moved stored own =
      let fits : env.valid b ≡ true =
        moved.same_valid ∙ env.valid-read stored.text a stored.reads in
      let w : written env b ≡ in_status st = rw (fits, moved.moved_to) refl in
      let i : env.id b ≡ id = moved.same_id ∙ own in
      stage-save env b files ∙ rw (moved.same_type, i, w) refl

  abbrev pub Keeps : Bool → Call U → Store T → Type 0
  Keeps fits c s = (reply env iso c s, view env (step env iso c s)) ≡ contract fits c (view env s)

  -- An artifact that is approved was a draft, and one that is locked an approved test plan.
  pub approve-draft : (a b : A) → env.approve a ≡ some b → (env.status a == draft) ≡ true
  approve-draft a b accepts = elim (Bool-cases (env.status a == draft)) [
    | inl hit ↦ hit
    | inr other ↦
        cc ((env.approve_refuses a).1 (λ e. cc (other, (==_iff (env.status a) draft).1 e)))
  ]

  abbrev pub seen : {B : Type 0} → (Result B → Reply) → Result B × Store T → Reply × Abstract
  seen answer p = (answer p.0, view env p.1)

  abbrev pub done_with : Stages → (String → Bool) → Reply × Abstract
  done_with m r = (done, record { stages = m; recorded = r })

  pub lock-approved :
      (a b : A)
      → env.lock a ≡ some b
      → (env.type_of a == test_plan && env.status a == approved) ≡ true
  lock-approved a b accepts = elim (Bool-cases (env.type_of a == test_plan)) [
    | inr other ↦
        cc ((env.lock_refuses a).1 (inl (λ e. cc (other, (==_iff (env.type_of a) test_plan).1 e))))
    | inl same ↦ elim (Bool-cases (env.status a == approved)) [
      | inl hit ↦ rw (same, hit) refl
      | inr other ↦
          cc ((env.lock_refuses a).1 (inr (λ e. cc (other, (==_iff (env.status a) approved).1 e))))
    ]
  ]

  pub lock-other :
      (a : A) → env.lock a ≡ none → (env.type_of a == test_plan && env.status a == approved) ≡ false
  lock-other a refuses = ground (
    arith,
    (env.lock_refuses a).0 refuses,
    ==_iff (env.type_of a) test_plan,
    ==_iff (env.status a) approved,
  )
