-- ===== src/Lock/Manager.antt =====
-- rice_factor/adapters/storage/lock_manager.py. The tree under the project root is a function from
-- relative paths to contents (a file that is there can be read); the lock file is absent, no JSON,
-- JSON that is no object, or an object of which the code reads three fields. `hash` stands for
-- "sha256:" with the hex digest of hashlib, `Iso` for datetime's ISO format.
use Prim.Native.Char.{code}
use Prim.Native.String.{String}
use rice_factor.Prelude.{
  ℕ, ◌≡◌, refl, ◌⊎◌, inl, inr, Bool, true, false, not, ◌&&◌, Option, none, some, List, ◌∷◌,
  is_empty, eqb, if◌then◌else◌,
}
use rice_factor.Prelude.Eq.{◌==◌, text_eq}
use rice_factor.Prelude.Dict.{Dict, put}

-- `locked_at[:-1] + "+00:00"` where the text ends with "Z"
unfoldable pub z_to_offset : String → String
z_to_offset String.[] = String.[]
z_to_offset (String.◌∷◌ c String.[]) = if eqb (code c) b'Z' then "+00:00" else String.◌∷◌ c ""
z_to_offset (String.◌∷◌ c (String.◌∷◌ d s)) = String.◌∷◌ c (z_to_offset (String.◌∷◌ d s))

-- `datetime.isoformat` and `datetime.fromisoformat` on times in UTC
pub record Iso : Type 0 where
  pub isoformat : ℕ → String
  pub fromisoformat : String → Option ℕ
  pub round_trip : (t : ℕ) → fromisoformat (isoformat t) ≡ some t
  pub numeric_offset : (t : ℕ) → z_to_offset (isoformat t) ≡ isoformat t

pub data LockError : Type 0 where
  file_not_found : String → LockError
  value_error attribute_error : LockError

pub data Result {ℓ} (A : Type ℓ) : Type ℓ where
  ok : A → Result A
  err : LockError → Result A

pub Result-cases {ℓ} :
    {A : Type ℓ} (r : Result A) → ((a : A) × (r ≡ ok a)) ⊎ ((e : LockError) × (r ≡ err e))
Result-cases (ok a) = inl (a, refl)
Result-cases (err e) = inr (e, refl)

pub record LockFile : Type 0 where
  pub test_plan_id : String
  pub locked_at : ℕ
  pub test_files : Dict String String

pub data TimeField : Type 0 where
  missing : TimeField
  text : String → TimeField
  other : TimeField

pub record LockJson : Type 0 where
  pub test_plan_id : Option String
  pub locked_at : TimeField
  pub test_files : Option (Dict String String)

pub data LockDisk : Type 0 where
  absent corrupt not_an_object : LockDisk
  object : LockJson → LockDisk

abbrev pub get_or {ℓ} : {A : Type ℓ} → A → Option A → A
get_or d none = d
get_or d (some a) = a

pub record Verification : Type 0 where
  pub is_valid : Bool
  pub modified_files : List String
  pub missing_files : List String
  pub expected_hashes : Dict String String
  pub actual_hashes : Dict String String

-- what `verify_lock` collects before it computes `is_valid`
pub record Found : Type 0 where
  pub modified : List String
  pub missing : List String
  pub actual : Dict String String

module _ (iso : Iso) where
  -- `LockFile.to_dict`, as the JSON object that is written
  unfoldable pub to_dict : LockFile → LockJson
  to_dict l = record {
    test_plan_id = some l.test_plan_id;
    locked_at = text (iso.isoformat l.locked_at);
    test_files = some l.test_files;
  }

  -- `LockFile.from_dict`; `now` is the clock of `datetime.now(UTC)`
  unfoldable pub read_time : ℕ → TimeField → Option ℕ
  unfolding z_to_offset
  read_time now missing = iso.fromisoformat (z_to_offset "")
  read_time now (text s) = iso.fromisoformat (z_to_offset s)
  read_time now other = some now

  unfoldable pub from_dict : ℕ → LockJson → Result LockFile
  unfolding read_time
  from_dict now j = elim (read_time now j.locked_at) [
    | none ↦ err value_error
    | some t ↦ ok (record {
      test_plan_id = get_or "" j.test_plan_id;
      locked_at = t;
      test_files = get_or List.[] j.test_files;
    })
  ]

  -- `get_lock`: a file that cannot be parsed is taken for no lock at all
  unfoldable pub get_lock : ℕ → LockDisk → Result (Option LockFile)
  unfolding from_dict
  get_lock now absent = ok none
  get_lock now corrupt = ok none
  get_lock now not_an_object = err attribute_error
  get_lock now (object j) = elim (from_dict now j) [ ok l ↦ ok (some l) | err e ↦ err e ]

-- `is_locked`
unfoldable pub is_locked : LockDisk → Bool
is_locked absent = false
is_locked corrupt = true
is_locked not_an_object = true
is_locked (object j) = true

-- `remove_lock`
unfoldable pub remove_lock : LockDisk → Bool × LockDisk
unfolding is_locked
remove_lock disk = if not (is_locked disk) then (false, disk) else (true, absent)

module _ {C : Type 0} (hash : C → String) where
  -- The loop of `lock_test_plan`; it raises at the first file that is not there.
  unfoldable pub hash_files :
      (String → Option C) → List String → Dict String String → Result (Dict String String)
  hash_files files List.[] hashes = ok hashes
  hash_files files (path ∷ paths) hashes = elim (files path) [
    | none ↦ err (file_not_found path)
    | some content ↦ hash_files files paths (put path (hash content) hashes)
  ]

  -- The loop of `verify_lock`. The keys of a dict are distinct, so the entry that a round adds to
  -- `actual_hashes` is a new one.
  unfoldable pub check_files : (String → Option C) → Dict String String → Found
  check_files files List.[] = record { modified = List.[]; missing = List.[]; actual = List.[] }
  check_files files ((path, expected) ∷ rest) =
      let found = check_files files rest in
      elim (files path) [
        | none ↦ record {
          modified = found.modified;
          missing = path ∷ found.missing;
          actual = (path, "<missing>") ∷ found.actual;
        }
        | some content ↦ record {
          modified = if hash content == expected then found.modified else path ∷ found.modified;
          missing = found.missing;
          actual = (path, hash content) ∷ found.actual;
        }
      ]

  unfoldable pub verify_files : (String → Option C) → Dict String String → Verification
  verify_files files expected =
      let found = check_files files expected in
      record {
        is_valid = is_empty found.modified && is_empty found.missing;
        modified_files = found.modified;
        missing_files = found.missing;
        expected_hashes = expected;
        actual_hashes = found.actual;
      }

  abbrev pub valid : Verification
  valid = record {
    is_valid = true;
    modified_files = List.[];
    missing_files = List.[];
    expected_hashes = List.[];
    actual_hashes = List.[];
  }

  module _ (iso : Iso) where
    -- `lock_test_plan`: the result and the lock file afterwards
    unfoldable pub lock_test_plan :
        ℕ → String → List String → (String → Option C) → LockDisk → Result LockFile × LockDisk
    unfolding to_dict
    lock_test_plan now plan paths files disk = elim (hash_files files paths List.[]) [
      | err e ↦ (err e, disk)
      | ok hashes ↦
          let l : LockFile = record { test_plan_id = plan; locked_at = now; test_files = hashes } in
          (ok l, object (to_dict iso l))
    ]

    unfoldable pub verify_lock : ℕ → (String → Option C) → LockDisk → Result Verification
    unfolding verify_files
    verify_lock now files disk = elim (get_lock iso now disk) [
      | err e ↦ err e
      | ok none ↦ ok valid
      | ok (some l) ↦ ok (verify_files files l.test_files)
    ]
