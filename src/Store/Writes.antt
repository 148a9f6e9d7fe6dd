-- ===== src/Store/Writes.antt =====
-- A call of the service writes at most the file of one artifact, which is not locked.
use rice_factor.Prelude.{
  ℕ, ◌≡◌, ◌≢◌, refl, ◌⊎◌, String, Option, none, arith, inl, inr, Bool-cases, Option-cases,
}
use rice_factor.Prelude.Eq.{◌==◌, ==_iff, text_eq}
use rice_factor.Prelude.Dict.{Dict, has}
use rice_factor.Prelude.Table.{IsoTime}
use rice_factor.Artifacts.{ArtifactType, ArtifactStatus, draft, approved, locked, status_eq}
use rice_factor.Store.Envelope.{Envelope, Moved}
use rice_factor.Store.Storage.{ArtifactPath, path_eq, not_found, invalid, status_error, save}
use rice_factor.Store.Approvals.{revoke}
use rice_factor.Store.Service.{
  Store, Call, approves, locks, modifies, revokes, approve, lock, modify, revoke_approval, step,
}
use rice_factor.Store.Load.{Stored, load_by_id-cases}
use rice_factor.Store.Moves.{WellFormed, approve-draft, lock-approved}

module _ {A U T : Type 0} (env : Envelope A U T) (iso : IsoTime) where
  -- `new` is `old`, or `old` with one artifact `b` written over a stored one `a` that is not locked.
  pub record Write (old new : Dict ArtifactPath T) : Type 0 where
    pub from : A
    pub to : A
    pub stored : Stored env from old
    pub unlocked : env.status from ≢ locked
    pub same_id : env.id to ≡ env.id from
    pub same_type : env.type_of to ≡ env.type_of from
    pub saved : new ≡ save env to old

  abbrev AtMostOne : Store T → Store T → Type 0
  AtMostOne s u = (u.files ≡ s.files) ⊎ Write s.files u.files

  Moved-Write :
      (st : ArtifactStatus) (a b : A) (old : Dict ArtifactPath T)
      → Stored env a old
      → env.status a ≢ locked
      → Moved env.id env.type_of env.status env.valid st a b
      → Write old (save env b old)
  Moved-Write st a b old stored unlocked moved = record {
    from = a;
    to = b;
    stored = stored;
    unlocked = unlocked;
    same_id = moved.same_id;
    same_type = moved.same_type;
    saved = refl;
  }

  approve-Write :
      (now : ℕ) (id by : String) (t : Option ArtifactType) (s : Store T)
      → WellFormed env iso s
      → AtMostOne s (approve env iso now id by t s).1
  unfolding approve
  approve-Write now id by t s wf = elim (load_by_id-cases env id t s.files wf.placed) [
    | inl (e, fails) ↦ rw (fails.failed, approve) (inl refl)
    | inr (a, loads) ↦ elim (Option-cases (env.approve a)) [
      | inl refuses ↦ rw (loads.loaded, approve, refuses) (inl refl)
      | inr (b, accepts) ↦
          let unlocked : env.status a ≢ locked =
            ground (arith, approve-draft env iso a b accepts, ==_iff (env.status a) draft) in
          rw (loads.loaded, approve, accepts)
            (inr
              (Moved-Write approved a b s.files loads.stored unlocked (env.approves a b accepts)))
    ]
  ]

  lock-Write :
      (id : String) (t : Option ArtifactType) (s : Store T)
      → WellFormed env iso s
      → AtMostOne s (lock env iso id t s).1
  unfolding lock
  lock-Write id t s wf = elim (load_by_id-cases env id t s.files wf.placed) [
    | inl (e, fails) ↦ rw (fails.failed, lock) (inl refl)
    | inr (a, loads) ↦ elim (Option-cases (env.lock a)) [
      | inl refuses ↦ rw (loads.loaded, lock, refuses) (inl refl)
      | inr (b, accepts) ↦
          let unlocked : env.status a ≢ locked =
            ground (arith, lock-approved env iso a b accepts, ==_iff (env.status a) approved) in
          rw (loads.loaded, lock, accepts)
            (inr (Moved-Write locked a b s.files loads.stored unlocked (env.locks a b accepts)))
    ]
  ]

  modify-Write :
      (id : String) (u : U) (t : Option ArtifactType) (s : Store T)
      → WellFormed env iso s
      → AtMostOne s (modify env iso id u t s).1
  unfolding modify
  modify-Write id u t s wf = elim (load_by_id-cases env id t s.files wf.placed) [
    | inl (e, fails) ↦ rw (fails.failed, modify) (inl refl)
    | inr (a, loads) ↦ elim (Bool-cases (env.is_modifiable a)) [
      | inr refuses ↦ rw (loads.loaded, modify, refuses) (inl refl)
      | inl accepts ↦
          let is_draft = (env.is_modifiable_iff a).0 accepts in
          rw (loads.loaded, modify, accepts)
            (inr (record {
              from = a;
              to = env.with_payload u a;
              stored = loads.stored;
              unlocked = ground (arith, is_draft);
              same_id = env.with_payload_id u a;
              same_type = env.with_payload_type u a;
              saved = refl;
            }))
    ]
  ]

  revoke-Write :
      (id : String) (s : Store T)
      → WellFormed env iso s
      → AtMostOne s (revoke_approval env iso id s).1
  unfolding revoke revoke_approval
  revoke-Write id s wf = elim (load_by_id-cases env id none s.files wf.placed) [
    | inl (not_found, fails) ↦ rw (fails.failed, revoke_approval) (inl refl)
    | inl (invalid, fails) ↦ rw (fails.failed, revoke_approval) (inl refl)
    | inl (status_error, fails) ↦ rw (fails.failed, revoke_approval) (inl refl)
    | inr (a, loads) ↦ elim (Bool-cases (env.status a == locked)) [
      | inl hit ↦ rw (loads.loaded, revoke_approval, hit) (inl refl)
      | inr unlocked ↦ elim (Bool-cases (has id s.tracker.approvals)) [
        | inr gone ↦ rw (loads.loaded, revoke_approval, unlocked, gone) (inl refl)
        | inl there ↦
            rw (loads.loaded, revoke_approval, unlocked, there)
              (inr (
                Moved-Write draft a (env.as_draft a) s.files loads.stored
                  (ground (arith, unlocked, ==_iff (env.status a) locked)) (env.as_draft_moves a)))
      ]
    ]
  ]

  pub step-Write :
      (c : Call U) (s : Store T) → WellFormed env iso s → AtMostOne s (step env iso c s)
  unfolding step
  step-Write (approves now id by t) s wf = approve-Write now id by t s wf
  step-Write (locks id t) s wf = lock-Write id t s wf
  step-Write (modifies id u t) s wf = modify-Write id u t s wf
  step-Write (revokes id) s wf = revoke-Write id s wf
