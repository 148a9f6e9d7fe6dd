-- ===== src/Lock/Enforcer.antt =====
-- rice_factor/domain/services/safety_enforcer.py: `check_test_lock_intact` and
-- `require_test_lock_intact`, over the same tree and lock file as `LockManager`.
use rice_factor.Prelude.{
  String, Bool, true, false, Option, none, some, List, [], ◌∷◌, is_empty, if◌then◌else◌,
}
use rice_factor.Prelude.Eq.{◌==◌, text_eq}
use rice_factor.Prelude.Dict.{Dict}
use rice_factor.Lock.Manager.{
  Result, ok, err, attribute_error, LockDisk, absent, corrupt, not_an_object, object, get_or,
}

-- `LockVerificationResult` of safety_enforcer.py
pub record Intact : Type 0 where
  pub is_valid : Bool
  pub modified_files : List String
  pub expected_hashes : Dict String String
  pub actual_hashes : Dict String String

abbrev pub intact : Intact
intact = record { is_valid = true; modified_files = []; expected_hashes = []; actual_hashes = [] }

module _ {C : Type 0} (hash : C → String) (files : String → Option C) where
  -- `_compute_file_hash`
  unfoldable pub compute_file_hash : String → String
  compute_file_hash path = elim (files path) [ none ↦ "<missing>" | some content ↦ hash content ]

  -- The loop of `check_test_lock_intact`: the modified files and the actual hashes.
  unfoldable pub scan : Dict String String → List String × Dict String String
  scan [] = ([], [])
  scan ((path, expected) ∷ rest) =
      let (modified, actual) = scan rest in
      let hashed = compute_file_hash path in
      (if hashed == expected then modified else path ∷ modified, (path, hashed) ∷ actual)

  unfoldable pub check_test_lock_intact : LockDisk → Result Intact
  check_test_lock_intact absent = ok intact
  check_test_lock_intact corrupt = ok (record {
    is_valid = false;
    modified_files = "<lock file corrupt>" ∷ [];
    expected_hashes = [];
    actual_hashes = [];
  })
  check_test_lock_intact not_an_object = err attribute_error
  check_test_lock_intact (object j) =
      let expected = get_or [] j.test_files in
      if is_empty expected
      then ok intact
      else let (modified, actual) = scan expected in
        ok (record {
          is_valid = is_empty modified;
          modified_files = modified;
          expected_hashes = expected;
          actual_hashes = actual;
        })

  -- The file that `TestsLockedError` names, if it is raised.
  unfoldable pub first_violation : Intact → Option String
  first_violation r =
      if r.is_valid then none else elim r.modified_files [ [] ↦ none | path ∷ paths ↦ some path ]

  -- `require_test_lock_intact`: `ok none` where it returns
  unfoldable pub require_test_lock_intact : LockDisk → Result (Option String)
  unfolding first_violation
  require_test_lock_intact disk = elim (check_test_lock_intact disk) [
    | err e ↦ err e
    | ok r ↦ ok (first_violation r)
  ]
