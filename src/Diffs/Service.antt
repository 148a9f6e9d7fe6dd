-- ===== src/Diffs/Service.antt =====
-- rice_factor/domain/services/diff_service.py: `DiffService` over the directory audit/diffs. A UUID is its
-- text; `stamp` is `strftime("%Y%m%d_%H%M%S")`. Writing a file succeeds.
use Prim.Native.Char.{code}
use Prim.Native.String
use rice_factor.Prelude.{
  ℕ, ◌≡◌, ◌↔◌, String, Bool, true, false, ◌||◌, Option, none, some, List, [], ◌∷◌, eqb, arith,
  if◌then◌else◌,
}
use rice_factor.Prelude.Eq.{Eq, ◌==◌, text_eq}
use rice_factor.Prelude.Dict.{Dict, values, get, put}
use rice_factor.Prelude.Sort.{sort_desc}
use rice_factor.Prelude.Table.{IsoTime, ◌>>=◌}

pub data DiffStatus : Type 0 where
  pending approved rejected applied : DiffStatus

-- `status.value` and `DiffStatus(value)`
abbrev pub status_value : DiffStatus → String
status_value pending = "pending"
status_value approved = "approved"
status_value rejected = "rejected"
status_value applied = "applied"

abbrev pub status_of : String → Option DiffStatus
status_of s =
    if s == "pending"
    then some pending
    else if s == "approved"
    then some approved
    else if s == "rejected"
    then some rejected
    else if s == "applied"
    then some applied
    else none

abbrev rank : DiffStatus → ℕ
rank pending = 0
rank approved = 1
rank rejected = 2
rank applied = 3

abbrev pub same_status : DiffStatus → DiffStatus → Bool
same_status s t = eqb (rank s) (rank t)

pub same_status_iff : (s t : DiffStatus) → (same_status s t ≡ true) ↔ (s ≡ t)
same_status_iff s t = ground arith

instance abbrev pub status_eq : Eq DiffStatus
status_eq = record { same_iff = same_status_iff; same = same_status }

pub record Diff : Type 0 where
  pub id : String
  pub target_file : String
  pub content : String
  pub status : DiffStatus
  pub created_at : ℕ
  pub plan_id : Option String

-- An entry of the index: the empty object, or `none` for a key that is missing; a plan_id of null
-- counts as missing.
pub record DiffJson : Type 0 where
  pub id : Option String
  pub target_file : Option String
  pub content : Option String
  pub status : Option String
  pub created_at : Option String
  pub plan_id : Option String
  pub path : Option String

pub data Entry : Type 0 where
  blank : Entry
  fields : DiffJson → Entry

abbrev pub Index : Type 0
Index = Dict String Entry

-- The file _index.json.
pub data IndexFile : Type 0 where
  absent corrupt no_object : IndexFile
  entries : Index → IndexFile

pub record DiffDir : Type 0 where
  pub index_file : IndexFile
  pub diffs : Dict String String

-- `replace("/", "_").replace("\\", "_")`
unfoldable pub safe_filename : String → String
safe_filename String.[] = ""
safe_filename (String.◌∷◌ c s) =
    if eqb (code c) b'/' || eqb (code c) b'\\'
    then String.◌∷◌ "_" (safe_filename s)
    else String.◌∷◌ c (safe_filename s)

-- `none` is the JSONDecodeError
unfoldable pub load_index : IndexFile → Option Index
load_index absent = some []
load_index corrupt = none
load_index no_object = some []
load_index (entries index) = some index

abbrev pub read_plan : Option String → Option String
read_plan none = none
read_plan (some p) = if p == "" then none else some p

abbrev pub status_text : Entry → Option String
status_text blank = none
status_text (fields j) = j.status

abbrev pub has_status_text : String → Option String → Bool
has_status_text v none = false
has_status_text v (some s) = s == v

abbrev pub is_blank : Entry → Bool
is_blank blank = true
is_blank (fields j) = false

abbrev no_fields : DiffJson
no_fields = record {
  id = none;
  target_file = none;
  content = none;
  status = none;
  created_at = none;
  plan_id = none;
  path = none;
}

-- `index[diff_key]["status"] = status.value`
unfoldable pub set_status : DiffStatus → Entry → Entry
set_status s blank = fields (record no_fields { status = some (status_value s) })
set_status s (fields j) = fields (record j { status = some (status_value s) })

abbrev pub first : List Diff → Option Diff
first [] = none
first (d ∷ ds) = some d

abbrev pub wanted : Option DiffStatus → Diff → Bool
wanted none d = true
wanted (some s) d = d.status == s

module _ (iso : IsoTime) (stamp : ℕ → String) where
  unfoldable pub to_dict : Diff → String → Entry
  to_dict d path = fields (record {
    id = some d.id;
    target_file = some d.target_file;
    content = some d.content;
    status = some (status_value d.status);
    created_at = some (iso.isoformat d.created_at);
    plan_id = d.plan_id;
    path = some path;
  })

  -- `none` is the KeyError or the ValueError
  unfoldable pub from_fields : DiffJson → Option Diff
  from_fields j = do
    id ← j.id
    target_file ← j.target_file
    content ← j.content
    status_name ← j.status
    status ← status_of status_name
    created_text ← j.created_at
    created_at ← iso.fromisoformat created_text
    some (record {
      id = id;
      target_file = target_file;
      content = content;
      status = status;
      created_at = created_at;
      plan_id = read_plan j.plan_id;
    })

  unfoldable pub from_dict : Entry → Option Diff
  unfolding from_fields
  from_dict blank = none
  from_dict (fields j) = from_fields j

  unfoldable pub file_name : Diff → String
  file_name d =
      Prim.Native.String.◌++◌ (stamp d.created_at) (
        Prim.Native.String.◌++◌ "_" (Prim.Native.String.◌++◌ (safe_filename d.target_file) ".diff"))

  -- The file is written before the index is read.
  unfoldable pub save_diff : Diff → DiffDir → Bool × DiffDir
  unfolding to_dict load_index
  save_diff d s =
      let path = file_name d in
      let diffs = put path d.content s.diffs in
      elim (load_index s.index_file) [
        | none ↦ (false, record s { diffs = diffs })
        | some index ↦
            (true, record { diffs = diffs; index_file = entries (put d.id (to_dict d path) index) })
      ]

  -- `none` where the index does not load
  unfoldable pub update_status : String → DiffStatus → DiffDir → Option Bool × DiffDir
  unfolding load_index
  update_status id status s = elim (load_index s.index_file) [
    | none ↦ (none, s)
    | some index ↦ elim (get id index) [
      | none ↦ (some false, s)
      | some entry ↦
          (some true, record s { index_file = entries (put id (set_status status entry) index) })
    ]
  ]

  abbrev pub approve_diff : String → DiffDir → Option Bool × DiffDir
  approve_diff id s = update_status id approved s

  abbrev pub reject_diff : String → DiffDir → Option Bool × DiffDir
  reject_diff id s = update_status id rejected s

  abbrev pub mark_applied : String → DiffDir → Option Bool × DiffDir
  mark_applied id s = update_status id applied s

  -- An outer `none` is an exception.
  abbrev pub read_entry : Entry → Option (Option Diff)
  read_entry e = if is_blank e then some none else (from_dict e >>= λ d. some (some d))

  abbrev pub read_found : Option Entry → Option (Option Diff)
  read_found none = some none
  read_found (some e) = read_entry e

  unfoldable pub load_diff : String → DiffDir → Option (Option Diff)
  unfolding from_dict load_index
  load_diff id s = do index ← load_index s.index_file; read_found (get id index)

  unfoldable pub get_diff_status : String → DiffDir → Option (Option DiffStatus)
  unfolding load_diff
  get_diff_status id s = do found ← load_diff id s; some (found >>= λ d. some d.status)

  -- The loop of `load_pending_diff` and of `load_approved_diff`: the text of the status is compared.
  unfoldable pub diffs_marked : String → List Entry → Option (List Diff)
  unfolding from_dict
  diffs_marked v [] = some []
  diffs_marked v (e ∷ es) =
      let rest = diffs_marked v es in
      if has_status_text v (status_text e)
      then (do d ← from_dict e; ds ← rest; some (d ∷ ds))
      else rest

  unfoldable pub load_most_recent : DiffStatus → DiffDir → Option (Option Diff)
  unfolding diffs_marked load_index sort_desc
  load_most_recent status s = do
    index ← load_index s.index_file
    ds ← diffs_marked (status_value status) (values index)
    some (first (sort_desc (λ d. d.created_at) ds))

  abbrev pub load_pending_diff : DiffDir → Option (Option Diff)
  load_pending_diff s = load_most_recent pending s

  abbrev pub load_approved_diff : DiffDir → Option (Option Diff)
  load_approved_diff s = load_most_recent approved s

  -- The loop of `list_diffs`: every entry is read, and its status compared.
  unfoldable pub diffs_wanted : Option DiffStatus → List Entry → Option (List Diff)
  unfolding from_dict
  diffs_wanted status [] = some []
  diffs_wanted status (e ∷ es) =
      let rest = diffs_wanted status es in
      (do d ← from_dict e; ds ← rest; some (if wanted status d then d ∷ ds else ds))

  unfoldable pub list_diffs : Option DiffStatus → DiffDir → Option (List Diff)
  unfolding diffs_wanted load_index sort_desc
  list_diffs status s = do
    index ← load_index s.index_file
    ds ← diffs_wanted status (values index)
    some (sort_desc (λ d. d.created_at) ds)
