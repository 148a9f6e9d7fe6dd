-- ===== src/Store/Service.antt =====
-- rice_factor/domain/services/artifact_service.py: `ArtifactService`, over the files and the tracker.
use rice_factor.Prelude.{
  ℕ, String, Bool, true, false, Option, none, some, List, [], ◌∷◌, if◌then◌else◌,
}
use rice_factor.Prelude.Eq.{◌==◌}
use rice_factor.Prelude.Dict.{Dict}
use rice_factor.Prelude.Table.{IsoTime}
use rice_factor.Artifacts.{ArtifactType, locked, status_eq}
use rice_factor.Store.Envelope.{Envelope}
use rice_factor.Store.Storage.{
  Result, ok, err, not_found, status_error, ArtifactPath, save, load_by_id,
}
use rice_factor.Store.Approvals.{Approval, ApprovalsTracker, record_approval, revoke}

-- What the service works on: the artifact files and the tracker.
pub record Store (T : Type 0) : Type 0 where
  pub files : Dict ArtifactPath T
  pub tracker : ApprovalsTracker

module _ {A U T : Type 0} (env : Envelope A U T) (iso : IsoTime) where
  unfoldable pub approve :
      ℕ → String → String → Option ArtifactType → Store T → Result Approval × Store T
  approve now id by t s = elim (load_by_id env id t s.files) [
    | err e ↦ (err e, s)
    | ok a ↦ elim (env.approve a) [
      | none ↦ (err status_error, s)
      | some b ↦
          let (approval, tracker) = record_approval iso now id by s.tracker in
          (ok approval, record { files = save env b s.files; tracker = tracker })
    ]
  ]

  unfoldable pub lock : String → Option ArtifactType → Store T → Result A × Store T
  lock id t s = elim (load_by_id env id t s.files) [
    | err e ↦ (err e, s)
    | ok a ↦ elim (env.lock a) [
      | none ↦ (err status_error, s)
      | some b ↦ (ok b, record s { files = save env b s.files })
    ]
  ]

  unfoldable pub modify : String → U → Option ArtifactType → Store T → Result A × Store T
  modify id u t s = elim (load_by_id env id t s.files) [
    | err e ↦ (err e, s)
    | ok a ↦ elim (env.is_modifiable a) [
      | false ↦ (err status_error, s)
      | true ↦ let b = env.with_payload u a in (ok b, record s { files = save env b s.files })
    ]
  ]

  unfoldable pub revoke_approval : String → Store T → Result Bool × Store T
  revoke_approval id s = elim (load_by_id env id none s.files) [
    | err not_found ↦ (ok false, s)
    | err e ↦ (err e, s)
    | ok a ↦
        if env.status a == locked
        then (err status_error, s)
        else (let (found, tracker) = revoke iso id s.tracker in
            if found
            then (ok true, record { files = save env (env.as_draft a) s.files; tracker = tracker })
            else (ok false, s))
  ]

-- A call of the service, with its arguments.
pub data Call (U : Type 0) : Type 0 where
  approves : ℕ → String → String → Option ArtifactType → Call U
  locks : String → Option ArtifactType → Call U
  modifies : String → U → Option ArtifactType → Call U
  revokes : String → Call U

module _ {A U T : Type 0} (env : Envelope A U T) (iso : IsoTime) where
  unfoldable pub step : Call U → Store T → Store T
  unfolding approve lock modify revoke_approval
  step (approves now id by t) s = (approve env iso now id by t s).1
  step (locks id t) s = (lock env iso id t s).1
  step (modifies id u t) s = (modify env iso id u t s).1
  step (revokes id) s = (revoke_approval env iso id s).1

  unfoldable pub run : List (Call U) → Store T → Store T
  run [] s = s
  run (c ∷ cs) s = run cs (step c s)
