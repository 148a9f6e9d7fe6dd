-- ===== src/Lock/Examples.antt =====
-- A lock over a small tree, and the theorems at it.
use Prim.Native.Char.{code}
use rice_factor.Prelude.{
  ℕ, zero, suc, ◌≡◌, refl, ap, ◌≢◌, ◌↔◌, String, true, Option, none, some, List, [], ◌∷◌, arith,
  if◌then◌else◌,
}
use rice_factor.Prelude.Eq.{◌==◌, text_eq, contains}
use rice_factor.Prelude.Dict.{put}
use rice_factor.Lock.Manager.{
  Iso, LockFile, LockDisk, absent, corrupt, Result, ok, Verification, z_to_offset, get_lock,
  remove_lock, hash_files, check_files, verify_files, lock_test_plan, verify_lock,
}
use rice_factor.Lock.Enforcer.{
  Intact, compute_file_hash, scan, check_test_lock_intact, require_test_lock_intact,
}
use rice_factor.Lock.Locking.{hash_of}
use rice_factor.Lock.Tampering.{verify_lock-lock_test_plan}
use rice_factor.Lock.Agreement.{check_test_lock_intact-verify_lock}

-- Times written in strokes.
strokes : ℕ → String
strokes zero = ""
strokes (suc n) = String.◌∷◌ "|" (strokes n)

count_strokes : String → ℕ
count_strokes String.[] = 0
count_strokes (String.◌∷◌ c s) = suc (count_strokes s)

count_strokes_lem : (n : ℕ) → count_strokes (strokes n) ≡ n
unfolding count_strokes strokes
count_strokes_lem zero = refl
count_strokes_lem (suc n) = ap suc (count_strokes_lem n)

z_to_offset-strokes : (n : ℕ) → z_to_offset (strokes n) ≡ strokes n
unfolding z_to_offset strokes
z_to_offset-strokes zero = refl
z_to_offset-strokes (suc zero) = refl
z_to_offset-strokes (suc (suc n)) = ap (String.◌∷◌ "|") (z_to_offset-strokes (suc n))

stroke_iso : Iso
stroke_iso = record {
  isoformat = strokes;
  fromisoformat = λ s. some (count_strokes s);
  round_trip = λ t. ap some (count_strokes_lem t);
  numeric_offset = z_to_offset-strokes;
}

zulu : z_to_offset "12:00Z" ≡ "12:00+00:00"
unfolding z_to_offset
zulu = refl

abbrev digest : String → String
digest c = String.◌∷◌ "#" c

first_code : String → ℕ
first_code String.[] = 0
first_code (String.◌∷◌ c s) = code c

digest-ne-missing : (c : String) → digest c ≢ "<missing>"
unfolding first_code
digest-ne-missing c e = absurd (omega (arith, ap first_code e))

abbrev tree : String → Option String
tree p = if p == "tests/a.py" then some "a" else if p == "tests/b.py" then some "b" else none

abbrev tampered : String → Option String
tampered p = if p == "tests/a.py" then some "a" else if p == "tests/b.py" then some "x" else none

abbrev tests : List String
tests = "tests/a.py" ∷ "tests/b.py" ∷ []

abbrev locked : Result LockFile × LockDisk
locked = lock_test_plan digest stroke_iso 5 "plan" tests tree absent

locked_ok :
    locked.0
    ≡ ok (record {
      test_plan_id = "plan";
      locked_at = 5;
      test_files = ("tests/a.py", "#a") ∷ ("tests/b.py", "#b") ∷ [];
    })
unfolding lock_test_plan hash_files put
locked_ok = refl

-- The report on the tampered tree, by both readers.
tampered_found :
    (verify_files digest tampered (("tests/a.py", "#a") ∷ ("tests/b.py", "#b") ∷ [])).modified_files
    ≡ "tests/b.py" ∷ []
unfolding verify_files check_files
tampered_found = refl

tampered_required : require_test_lock_intact digest tampered locked.1 ≡ ok (some "tests/b.py")
unfolding require_test_lock_intact check_test_lock_intact scan compute_file_hash lock_test_plan
    hash_files put
tampered_required = refl

removed : remove_lock locked.1 ≡ (true, absent)
unfolding remove_lock lock_test_plan hash_files put
removed = refl

-- A lock file that is no JSON: `verify_lock` reports a valid state, the enforcer an invalid one.
corrupt_differs :
    (verify_lock digest stroke_iso 9 tampered corrupt
      ≡ ok (record {
        is_valid = true;
        modified_files = [];
        missing_files = [];
        expected_hashes = [];
        actual_hashes = [];
      }))
    × (require_test_lock_intact digest tampered corrupt ≡ ok (some "<lock file corrupt>"))
unfolding verify_lock get_lock require_test_lock_intact check_test_lock_intact
corrupt_differs = (refl, refl)

abbrev sample : LockFile
sample = record { test_plan_id = "plan"; locked_at = 7; test_files = ("t", "#t") ∷ [] }

verify_lock-lock_test_plan_example :
    (v : Verification) × (verify_lock digest stroke_iso 9 tampered locked.1 ≡ ok v)
    × ((v.is_valid ≡ true) ↔ (
        (p : String) → contains p tests ≡ true → hash_of digest tampered p ≡ hash_of digest tree p))
verify_lock-lock_test_plan_example =
    verify_lock-lock_test_plan digest stroke_iso 5 "plan" tests tree absent
      (record {
        test_plan_id = "plan";
        locked_at = 5;
        test_files = ("tests/a.py", "#a") ∷ ("tests/b.py", "#b") ∷ [];
      })
      9 tampered locked_ok

check_test_lock_intact-verify_lock_example :
    (v : Verification) × (i : Intact) × (verify_lock digest stroke_iso 9 tampered locked.1 ≡ ok v)
    × (check_test_lock_intact digest tampered locked.1 ≡ ok i)
    × (v.is_valid ≡ i.is_valid)
check_test_lock_intact-verify_lock_example =
    check_test_lock_intact-verify_lock digest digest-ne-missing stroke_iso 5 "plan" tests tree
      absent
      (record {
        test_plan_id = "plan";
        locked_at = 5;
        test_files = ("tests/a.py", "#a") ∷ ("tests/b.py", "#b") ∷ [];
      })
      9 tampered locked_ok
