-- ===== src/Store/Trackers.antt =====
-- The approvals over a run of the service: what recording and revoking keep, a run keeps, and a tracker
-- that is loaded again from the file is the same.
use mathlib.Core.Path.{subst}
use rice_factor.Prelude.{
  ℕ, ◌≡◌, refl, sym, ◌⊎◌, String, Option, none, some, List, [], ◌∷◌, inl, inr, Bool-cases,
  Option-cases,
}
use rice_factor.Prelude.Eq.{◌==◌, text_eq}
use rice_factor.Prelude.Dict.{Dict, has, put, del}
use rice_factor.Prelude.Table.{
  JsonFile, IsoTime, Keyed, put-Keyed, del-Keyed, load_table-Keyed, load_table-items,
}
use rice_factor.Artifacts.{ArtifactType, locked, status_eq}
use rice_factor.Store.Envelope.{Envelope}
use rice_factor.Store.Storage.{
  ArtifactError, Result, ok, err, not_found, invalid, status_error, load_by_id,
}
use rice_factor.Store.Approvals.{
  Approval, ApprovalJson, ApprovalsTracker, approval_to_json, approval_from_json, load_approvals,
  record_approval, save_approvals, revoke,
}
use rice_factor.Store.Service.{
  Store, Call, approves, locks, modifies, revokes, approve, lock, modify, revoke_approval, step,
  run,
}

pub Result-cases :
    {B : Type 0} (r : Result B) → ((e : ArtifactError) × (r ≡ err e)) ⊎ ((b : B) × (r ≡ ok b))
Result-cases (ok b) = inr (b, refl)
Result-cases (err e) = inl (e, refl)

module _ {A U T : Type 0} (env : Envelope A U T) (iso : IsoTime) (P : ApprovalsTracker → Type 0)
    (records : (now : ℕ) (id by : String) (m : ApprovalsTracker)
      → P m
      → P (record_approval iso now id by m).1)
    (revoking : (id : String) (m : ApprovalsTracker) → P m → P (revoke iso id m).1) where
  approve-tracker :
      (now : ℕ) (id by : String) (t : Option ArtifactType) (s : Store T)
      → P s.tracker
      → P ((approve env iso now id by t s).1).tracker
  unfolding approve
  approve-tracker now id by t s p = elim (Result-cases (load_by_id env id t s.files)) [
    | inl (e, fails) ↦ rw (fails, approve) p
    | inr (a, loads) ↦ elim (Option-cases (env.approve a)) [
      | inl refuses ↦ rw (loads, approve, refuses) p
      | inr (b, accepts) ↦ rw (loads, approve, accepts) (records now id by s.tracker p)
    ]
  ]

  lock-tracker :
      (id : String) (t : Option ArtifactType) (s : Store T)
      → P s.tracker
      → P ((lock env iso id t s).1).tracker
  unfolding lock
  lock-tracker id t s p = elim (Result-cases (load_by_id env id t s.files)) [
    | inl (e, fails) ↦ rw (fails, lock) p
    | inr (a, loads) ↦ elim (Option-cases (env.lock a)) [
      | inl refuses ↦ rw (loads, lock, refuses) p
      | inr (b, accepts) ↦ rw (loads, lock, accepts) p
    ]
  ]

  modify-tracker :
      (id : String) (u : U) (t : Option ArtifactType) (s : Store T)
      → P s.tracker
      → P ((modify env iso id u t s).1).tracker
  unfolding modify
  modify-tracker id u t s p = elim (Result-cases (load_by_id env id t s.files)) [
    | inl (e, fails) ↦ rw (fails, modify) p
    | inr (a, loads) ↦ elim (Bool-cases (env.is_modifiable a)) [
      | inl accepts ↦ rw (loads, modify, accepts) p
      | inr refuses ↦ rw (loads, modify, refuses) p
    ]
  ]

  revoke-tracker :
      (id : String) (s : Store T) → P s.tracker → P ((revoke_approval env iso id s).1).tracker
  unfolding revoke_approval
  revoke-tracker id s p = elim (Result-cases (load_by_id env id none s.files)) [
    | inl (not_found, fails) ↦ rw (fails, revoke_approval) p
    | inl (invalid, fails) ↦ rw (fails, revoke_approval) p
    | inl (status_error, fails) ↦ rw (fails, revoke_approval) p
    | inr (a, loads) ↦ elim (Bool-cases (env.status a == locked)) [
      | inl hit ↦ rw (loads, revoke_approval, hit) p
      | inr unlocked ↦ elim (Bool-cases ((revoke iso id s.tracker).0)) [
        | inl there ↦ rw (loads, revoke_approval, unlocked, there) (revoking id s.tracker p)
        | inr gone ↦ rw (loads, revoke_approval, unlocked, gone) p
      ]
    ]
  ]

  pub step-tracker : (c : Call U) (s : Store T) → P s.tracker → P (step env iso c s).tracker
  unfolding step
  step-tracker (approves now id by t) s p = approve-tracker now id by t s p
  step-tracker (locks id t) s p = lock-tracker id t s p
  step-tracker (modifies id u t) s p = modify-tracker id u t s p
  step-tracker (revokes id) s p = revoke-tracker id s p

module _ (iso : IsoTime) where
  -- The file holds what the tracker does, and every approval stands under its own id.
  pub record Current (m : ApprovalsTracker) : Type 0 where
    pub keyed : Keyed (λ a. a.artifact_id) m.approvals
    pub reloads : load_approvals iso m.approvals_file ≡ m

  from-to : (a : Approval) → approval_from_json iso (approval_to_json iso a) ≡ some a
  unfolding approval_from_json approval_to_json
  from-to a = rw (iso.round_trip a.approved_at) refl

  load_approvals-Current : (file : JsonFile ApprovalJson) → Current (load_approvals iso file)
  unfolding load_approvals
  load_approvals-Current file = record {
    keyed = load_table-Keyed (λ a. a.artifact_id) (approval_from_json iso) file;
    reloads = refl;
  }

  save_approvals-Current :
      (d : Dict String Approval) → Keyed (λ a. a.artifact_id) d → Current (save_approvals iso d)
  unfolding load_approvals save_approvals
  save_approvals-Current d h = record {
    keyed = h;
    reloads =
        rw
          (load_table-items (λ a. a.artifact_id) (approval_from_json iso) (approval_to_json iso)
            from-to d h)
          refl;
  }

  record_approval-Keyed :
      (now : ℕ) (id by : String) (m : ApprovalsTracker)
      → Keyed (λ a. a.artifact_id) m.approvals
      → Keyed (λ a. a.artifact_id) ((record_approval iso now id by m).1).approvals
  unfolding record_approval save_approvals
  record_approval-Keyed now id by m h =
      put-Keyed (λ a. a.artifact_id) id
        (record { artifact_id = id; approved_by = by; approved_at = now }) m.approvals refl h

  revoke-Keyed :
      (id : String) (m : ApprovalsTracker)
      → Keyed (λ a. a.artifact_id) m.approvals
      → Keyed (λ a. a.artifact_id) ((revoke iso id m).1).approvals
  unfolding revoke save_approvals
  revoke-Keyed id m h = elim (Bool-cases (has id m.approvals)) [
    | inl there ↦ rw there (del-Keyed (λ a. a.artifact_id) id m.approvals h)
    | inr gone ↦ rw gone h
  ]

  record_approval-Current :
      (now : ℕ) (id by : String) (m : ApprovalsTracker)
      → Current m
      → Current (record_approval iso now id by m).1
  unfolding record_approval save_approvals
  record_approval-Current now id by m h =
      let a : Approval = record { artifact_id = id; approved_by = by; approved_at = now } in
      save_approvals-Current (put id a m.approvals) (record_approval-Keyed now id by m h.keyed)

  revoke-Current : (id : String) (m : ApprovalsTracker) → Current m → Current (revoke iso id m).1
  unfolding revoke
  revoke-Current id m h = elim (Bool-cases (has id m.approvals)) [
    | inl there ↦ rw there (
        save_approvals-Current (del id m.approvals)
          (del-Keyed (λ a. a.artifact_id) id m.approvals h.keyed))
    | inr gone ↦ rw gone h
  ]

module _ {A U T : Type 0} (env : Envelope A U T) (iso : IsoTime) where
  pub step-Current :
      (c : Call U) (s : Store T) → Current iso s.tracker → Current iso (step env iso c s).tracker
  step-Current c s h =
      step-tracker env iso (Current iso) (record_approval-Current iso) (revoke-Current iso) c s h

  pub step-Keyed :
      (c : Call U) (s : Store T)
      → Keyed (λ a. a.artifact_id) s.tracker.approvals
      → Keyed (λ a. a.artifact_id) (step env iso c s).tracker.approvals
  step-Keyed c s h =
      step-tracker env iso (λ m. Keyed (λ a. a.artifact_id) m.approvals)
        (λ now id by m k. record_approval-Keyed iso now id by m k)
        (λ id m k. revoke-Keyed iso id m k) c s h

  run-Current :
      (cs : List (Call U)) (s : Store T)
      → Current iso s.tracker
      → Current iso (run env iso cs s).tracker
  unfolding run
  run-Current [] s h = h
  run-Current (c ∷ cs) s h = run-Current cs (step env iso c s) (step-Current c s h)

  -- Where the tracker was loaded from a file, whatever that held, a tracker that is loaded after any
  -- sequence of calls of the service is the one that the service has.
  pub load_approvals-run :
      (file : JsonFile ApprovalJson) (cs : List (Call U)) (s : Store T)
      → s.tracker ≡ load_approvals iso file
      → load_approvals iso (run env iso cs s).tracker.approvals_file ≡ (run env iso cs s).tracker
  load_approvals-run file cs s e =
      (run-Current cs s
        (subst (λ m. Current iso m) (sym e) (load_approvals-Current iso file))).reloads
