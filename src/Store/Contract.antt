-- ===== src/Store/Contract.antt =====
-- What the service promises, on the abstract view of the files and the ids with an approval.
use rice_factor.Prelude.{String, Bool, true, false, ◌&&◌, none, if◌then◌else◌}
use rice_factor.Prelude.Eq.{◌==◌, text_eq}
use rice_factor.Prelude.Dict.{has}
use rice_factor.Artifacts.{test_plan, draft, approved, locked, status_eq}
use rice_factor.Prelude.Table.{IsoTime}
use rice_factor.Store.Envelope.{Envelope}
use rice_factor.Store.Storage.{ArtifactError, Result, ok, err, not_found, status_error}
use rice_factor.Store.Paths.{type_eq}
use rice_factor.Store.Service.{
  Store, Call, approves, locks, modifies, revokes, approve, lock, modify, revoke_approval,
}
use rice_factor.Store.View.{in_status, broken, Stages, stage}
use rice_factor.Store.Load.{found, set_stage}

-- `unchanged` is the answer that there was nothing to revoke.
pub data Reply : Type 0 where
  done unchanged : Reply
  refused : ArtifactError → Reply

pub record Abstract : Type 0 where
  pub stages : Stages
  pub recorded : String → Bool

unfoldable pub set_recorded : String → Bool → (String → Bool) → String → Bool
set_recorded id b r j = if id == j then b else r j

-- One call; `fits` says whether a modified payload is valid.
unfoldable pub contract : {U : Type 0} → Bool → Call U → Abstract → Reply × Abstract
unfolding found
contract fits (approves now id by t) m = elim (found id t m.stages) [
  | err e ↦ (refused e, m)
  | ok (k, s) ↦
      if s == draft
      then (
        done,
        record {
          stages = set_stage k id (in_status approved) m.stages;
          recorded = set_recorded id true m.recorded;
        },
      )
      else (refused status_error, m)
]
contract fits (locks id t) m = elim (found id t m.stages) [
  | err e ↦ (refused e, m)
  | ok (k, s) ↦
      if k == test_plan && s == approved
      then (done, record m { stages = set_stage k id (in_status locked) m.stages })
      else (refused status_error, m)
]
contract fits (modifies id u t) m = elim (found id t m.stages) [
  | err e ↦ (refused e, m)
  | ok (k, s) ↦
      if s == draft
      then (
        done,
        record m { stages = set_stage k id (if fits then in_status draft else broken) m.stages },
      )
      else (refused status_error, m)
]
contract fits (revokes id) m = elim (found id none m.stages) [
  | err not_found ↦ (unchanged, m)
  | err e ↦ (refused e, m)
  | ok (k, s) ↦
      if s == locked
      then (refused status_error, m)
      else if m.recorded id
      then (
        done,
        record {
          stages = set_stage k id (in_status draft) m.stages;
          recorded = set_recorded id false m.recorded;
        },
      )
      else (unchanged, m)
]

abbrev pub reply_of : {B : Type 0} → Result B → Reply
reply_of (ok b) = done
reply_of (err e) = refused e

abbrev pub reply_of_revoke : Result Bool → Reply
reply_of_revoke (ok true) = done
reply_of_revoke (ok false) = unchanged
reply_of_revoke (err e) = refused e

module _ {A U T : Type 0} (env : Envelope A U T) (iso : IsoTime) where
  -- How the service answers a call.
  unfoldable pub reply : Call U → Store T → Reply
  unfolding approve lock modify revoke_approval
  reply (approves now id by t) s = reply_of (approve env iso now id by t s).0
  reply (locks id t) s = reply_of (lock env iso id t s).0
  reply (modifies id u t) s = reply_of (modify env iso id u t s).0
  reply (revokes id) s = reply_of_revoke (revoke_approval env iso id s).0

module _ {A U T : Type 0} (env : Envelope A U T) where
  unfoldable pub view : Store T → Abstract
  view s = record { stages = stage env s.files; recorded = λ id. has id s.tracker.approvals }
