-- ===== src/Store/Refinement.antt =====
-- The service keeps the promise of `contract`.
use mathlib.Core.Path.{fun_ext, ap₂}
use rice_factor.Prelude.{
  ℕ, ◌≡◌, refl, ap, ◌∙◌, String, Bool, true, false, Option, none, arith, inl, inr, Bool-cases,
  Option-cases, if◌then◌else◌,
}
use rice_factor.Prelude.Eq.{◌==◌, ==_iff, text_eq}
use rice_factor.Prelude.Dict.{has, put, del, has-put, has-del}
use rice_factor.Prelude.Table.{IsoTime}
use rice_factor.Artifacts.{ArtifactType, draft, approved, locked, status_eq}
use rice_factor.Store.Envelope.{Envelope}
use rice_factor.Store.Storage.{ok, err, not_found, invalid, status_error, save}
use rice_factor.Store.Approvals.{Approval, record_approval, save_approvals, revoke}
use rice_factor.Store.Paths.{type_eq}
use rice_factor.Store.Service.{
  Store, Call, approves, locks, modifies, revokes, approve, lock, modify, revoke_approval, step,
}
use rice_factor.Store.View.{in_status, broken}
use rice_factor.Store.Load.{load_by_id-cases, written, stage-save}
use rice_factor.Store.Contract.{set_recorded, contract, reply_of, reply_of_revoke, reply, view}
use rice_factor.Store.Moves.{
  WellFormed, stage-save-Moved, Keeps, seen, done_with, approve-draft, lock-approved, lock-other,
}

module _ {A U T : Type 0} (env : Envelope A U T) (iso : IsoTime) where
  approve-contract :
      (fits : Bool) (now : ℕ) (id by : String) (t : Option ArtifactType) (s : Store T)
      → WellFormed env iso s
      → Keeps env iso fits (approves now id by t) s
  unfolding reply view step record_approval save_approvals set_recorded contract
  approve-contract fits now id by t s wf = elim (load_by_id-cases env id t s.files wf.placed) [
    | inl (e, fails) ↦
        let does : approve env iso now id by t s ≡ (err e, s) = rw (fails.failed, approve) refl in
        ap (seen env iso reply_of) does ∙ rw (fails.unseen, contract) refl
    | inr (a, loads) ↦ elim (Option-cases (env.approve a)) [
      | inl refuses ↦
          let other : (env.status a == draft) ≡ false =
            ground (arith, ==_iff (env.status a) draft, (env.approve_refuses a).0 refuses) in
          let does : approve env iso now id by t s ≡ (err status_error, s) =
            rw (loads.loaded, approve, refuses) refl in
          ap (seen env iso reply_of) does ∙ rw (loads.seen, contract, other) refl
      | inr (b, accepts) ↦
          let approval : Approval = record {
            artifact_id = id;
            approved_by = by;
            approved_at = now;
          } in
          let does : approve env iso now id by t s ≡ (
            ok approval,
            record {
              files = save env b s.files;
              tracker = save_approvals iso (put id approval s.tracker.approvals);
            },
          ) =
            rw (loads.loaded, approve, accepts) refl in
          ap (seen env iso reply_of) does
          ∙ rw (loads.seen, contract, approve-draft env iso a b accepts)
              (ap₂ (done_with env iso)
                (stage-save-Moved env iso approved id a b s.files (env.approves a b accepts)
                  loads.stored loads.same_id)
                (fun_ext (λ j. has-put id j approval s.tracker.approvals)))
    ]
  ]

  lock-contract :
      (fits : Bool) (id : String) (t : Option ArtifactType) (s : Store T)
      → WellFormed env iso s
      → Keeps env iso fits (locks id t) s
  unfolding reply view step contract
  lock-contract fits id t s wf = elim (load_by_id-cases env id t s.files wf.placed) [
    | inl (e, fails) ↦
        let does : lock env iso id t s ≡ (err e, s) = rw (fails.failed, lock) refl in
        ap (seen env iso reply_of) does ∙ rw (fails.unseen, contract) refl
    | inr (a, loads) ↦ elim (Option-cases (env.lock a)) [
      | inl refuses ↦
          let does : lock env iso id t s ≡ (err status_error, s) =
            rw (loads.loaded, lock, refuses) refl in
          ap (seen env iso reply_of) does
          ∙ rw (loads.seen, contract, lock-other env iso a refuses) refl
      | inr (b, accepts) ↦
          let does : lock env iso id t s ≡ (ok b, record s { files = save env b s.files }) =
            rw (loads.loaded, lock, accepts) refl in
          ap (seen env iso reply_of) does
          ∙ rw (loads.seen, contract, lock-approved env iso a b accepts)
              (ap (λ m. done_with env iso m (λ j. has j s.tracker.approvals))
                (stage-save-Moved env iso locked id a b s.files (env.locks a b accepts) loads.stored
                  loads.same_id))
    ]
  ]

  modify-contract :
      (id : String) (u : U) (t : Option ArtifactType) (s : Store T)
      → WellFormed env iso s
      → (fits : Bool) × Keeps env iso fits (modifies id u t) s
  unfolding reply view step contract
  modify-contract id u t s wf = elim (load_by_id-cases env id t s.files wf.placed) [
    | inl (e, fails) ↦
        let does : modify env iso id u t s ≡ (err e, s) = rw (fails.failed, modify) refl in
        (true, ap (seen env iso reply_of) does ∙ rw (fails.unseen, contract) refl)
    | inr (a, loads) ↦ elim (Bool-cases (env.is_modifiable a)) [
      | inr refuses ↦
          let other : (env.status a == draft) ≡ false =
            ground (arith, ==_iff (env.status a) draft, env.is_modifiable_iff a) in
          let does : modify env iso id u t s ≡ (err status_error, s) =
            rw (loads.loaded, modify, refuses) refl in
          (true, ap (seen env iso reply_of) does ∙ rw (loads.seen, contract, other) refl)
      | inl accepts ↦
          let same : (env.status a == draft) ≡ true =
            (==_iff (env.status a) draft).1 ((env.is_modifiable_iff a).0 accepts) in
          let b = env.with_payload u a in
          let does : modify env iso id u t s ≡ (ok b, record s { files = save env b s.files }) =
            rw (loads.loaded, modify, accepts) refl in
          let w : written env b ≡ (if env.valid b then in_status draft else broken) =
            rw (env.with_payload_status u a, (env.is_modifiable_iff a).0 accepts) refl in
          let saved =
            stage-save env b s.files
            ∙ rw (env.with_payload_type u a, env.with_payload_id u a, loads.same_id, w) refl in
          (
            env.valid b,
            ap (seen env iso reply_of) does
                ∙ rw (loads.seen, contract, same)
                    (ap (λ m. done_with env iso m (λ j. has j s.tracker.approvals)) saved),
          )
    ]
  ]

  revoke-contract :
      (fits : Bool) (id : String) (s : Store T)
      → WellFormed env iso s
      → Keeps env iso fits (revokes id) s
  unfolding reply view step contract revoke save_approvals set_recorded
  revoke-contract fits id s wf = elim (load_by_id-cases env id none s.files wf.placed) [
    | inl (not_found, fails) ↦
        let does : revoke_approval env iso id s ≡ (ok false, s) =
          rw (fails.failed, revoke_approval) refl in
        ap (seen env iso reply_of_revoke) does ∙ rw (fails.unseen, contract) refl
    | inl (invalid, fails) ↦
        let does : revoke_approval env iso id s ≡ (err invalid, s) =
          rw (fails.failed, revoke_approval) refl in
        ap (seen env iso reply_of_revoke) does ∙ rw (fails.unseen, contract) refl
    | inl (status_error, fails) ↦
        let does : revoke_approval env iso id s ≡ (err status_error, s) =
          rw (fails.failed, revoke_approval) refl in
        ap (seen env iso reply_of_revoke) does ∙ rw (fails.unseen, contract) refl
    | inr (a, loads) ↦ elim (Bool-cases (env.status a == locked)) [
      | inl hit ↦
          let does : revoke_approval env iso id s ≡ (err status_error, s) =
            rw (loads.loaded, revoke_approval, hit) refl in
          ap (seen env iso reply_of_revoke) does ∙ rw (loads.seen, contract, hit) refl
      | inr unlocked ↦ elim (Bool-cases (has id s.tracker.approvals)) [
        | inr gone ↦
            let does : revoke_approval env iso id s ≡ (ok false, s) =
              rw (loads.loaded, revoke_approval, unlocked, gone) refl in
            ap (seen env iso reply_of_revoke) does ∙ rw (loads.seen, contract, unlocked, gone) refl
        | inl there ↦
            let b = env.as_draft a in
            let does : revoke_approval env iso id s ≡ (
              ok true,
              record {
                files = save env b s.files;
                tracker = save_approvals iso (del id s.tracker.approvals);
              },
            ) =
              rw (loads.loaded, revoke_approval, unlocked, there) refl in
            ap (seen env iso reply_of_revoke) does
            ∙ rw (loads.seen, contract, unlocked, there)
                (ap₂ (done_with env iso)
                  (stage-save-Moved env iso draft id a b s.files (env.as_draft_moves a) loads.stored
                    loads.same_id)
                  (fun_ext (λ j. has-del id j s.tracker.approvals wf.keyed.once)))
      ]
    ]
  ]

  -- On well-formed files and approvals, the service answers a call, and leaves the stages of all
  -- artifacts and the set of recorded approvals, as the contract says; whether a modified payload is
  -- valid is the one choice that the contract leaves.
  pub step-contract :
      (c : Call U) (s : Store T)
      → WellFormed env iso s
      → (fits : Bool) × ((reply env iso c s, view env (step env iso c s))
          ≡ contract fits c (view env s))
  step-contract (approves now id by t) s wf = (true, approve-contract true now id by t s wf)
  step-contract (locks id t) s wf = (true, lock-contract true id t s wf)
  step-contract (modifies id u t) s wf = modify-contract id u t s wf
  step-contract (revokes id) s wf = (true, revoke-contract true id s wf)
