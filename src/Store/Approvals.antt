-- ===== src/Store/Approvals.antt =====
-- rice_factor/adapters/storage/approvals.py: `ApprovalsTracker`. A UUID is its text; the module of
-- `Approval` is not in the repository, and a new approval holds the time of its creation.
use rice_factor.Prelude.{ℕ, String, Bool, true, false, Option, some, List, map, if◌then◌else◌}
use rice_factor.Prelude.Eq.{text_eq}
use rice_factor.Prelude.Dict.{Dict, values, get, has, put, del}
use rice_factor.Prelude.Table.{JsonFile, items, IsoTime, ◌>>=◌, load_table}

pub record Approval : Type 0 where
  pub artifact_id : String
  pub approved_by : String
  pub approved_at : ℕ

-- An entry of approvals.json: `none` for a key that is missing.
pub record ApprovalJson : Type 0 where
  pub artifact_id : Option String
  pub approved_by : Option String
  pub approved_at : Option String

pub record ApprovalsTracker : Type 0 where
  pub approvals : Dict String Approval
  pub approvals_file : JsonFile ApprovalJson

module _ (iso : IsoTime) where
  unfoldable pub approval_to_json : Approval → ApprovalJson
  approval_to_json a = record {
    artifact_id = some a.artifact_id;
    approved_by = some a.approved_by;
    approved_at = some (iso.isoformat a.approved_at);
  }

  -- `none` is the KeyError or the ValueError. The ids are texts that `UUID` reads, and stand for what it
  -- makes of them.
  unfoldable pub approval_from_json : ApprovalJson → Option Approval
  approval_from_json j = do
    artifact_id ← j.artifact_id
    approved_by ← j.approved_by
    approved_text ← j.approved_at
    approved_at ← iso.fromisoformat approved_text
    some
        (record { artifact_id = artifact_id; approved_by = approved_by; approved_at = approved_at })

  unfoldable pub save_approvals : Dict String Approval → ApprovalsTracker
  unfolding approval_to_json
  save_approvals d = record {
    approvals = d;
    approvals_file = items (map approval_to_json (values d));
  }

  -- A new tracker over the file.
  unfoldable pub load_approvals : JsonFile ApprovalJson → ApprovalsTracker
  unfolding approval_from_json
  load_approvals file = record {
    approvals = load_table (λ a. a.artifact_id) approval_from_json file;
    approvals_file = file;
  }

  unfoldable pub record_approval :
      ℕ → String → String → ApprovalsTracker → Approval × ApprovalsTracker
  unfolding save_approvals
  record_approval now id by s =
      let a : Approval = record { artifact_id = id; approved_by = by; approved_at = now } in
      (a, save_approvals (put id a s.approvals))

  unfoldable pub revoke : String → ApprovalsTracker → Bool × ApprovalsTracker
  unfolding save_approvals
  revoke id s =
      if has id s.approvals then (true, save_approvals (del id s.approvals)) else (false, s)

unfoldable pub is_approved : String → ApprovalsTracker → Bool
is_approved id s = has id s.approvals

unfoldable pub get_approval : String → ApprovalsTracker → Option Approval
get_approval id s = get id s.approvals

unfoldable pub list_approvals : ApprovalsTracker → List Approval
list_approvals s = values s.approvals
