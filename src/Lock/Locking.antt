-- ===== src/Lock/Locking.antt =====
-- What a successful lock records, and what a failed one leaves alone.
use mathlib.Core.Path.{subst}
use rice_factor.Prelude.{
  all, ℕ, ◌≡◌, refl, String, Bool, true, false, Option, none, some, List, [], ◌∷◌, arith,
  if◌then◌else◌, Option-cases, inl, inr,
}
use rice_factor.Prelude.Eq.{==_iff, ==_refl, text_eq, contains}
use rice_factor.Prelude.Dict.{Dict, get, put, IsDict, get-put, put-IsDict}
use rice_factor.Lock.Manager.{
  Iso, LockFile, LockDisk, object, ok, err, file_not_found, Result-cases, to_dict, get_lock,
  hash_files, lock_test_plan,
}

module _ {C : Type 0} (hash : C → String) where
  -- The file is there and has the recorded hash.
  abbrev pub Unchanged : (String → Option C) → String → String → Type 0
  Unchanged files path expected = (c : C) × (files path ≡ some c) × (hash c ≡ expected)

  abbrev pub present : (String → Option C) → String → Bool
  present files path = elim (files path) [ none ↦ false | some c ↦ true ]

  abbrev pub hash_of : (String → Option C) → String → Option String
  hash_of files path = elim (files path) [ none ↦ none | some c ↦ some (hash c) ]

  module _ (files : String → Option C) where
    -- A lookup in the hashes gives the hash of the file for a path of the list.
    pub get-hash_files :
        (q : String) (paths : List String) (acc hashes : Dict String String)
        → hash_files hash files paths acc ≡ ok hashes
        → get q hashes ≡ (if contains q paths then hash_of files q else get q acc)
    unfolding hash_files
    get-hash_files q [] acc hashes h = ground arith
    get-hash_files q (path ∷ paths) acc hashes h = elim (Option-cases (files path)) [
      | inl absent ↦ cc (rw (absent, hash_files) at h)
      | inr (c, there) ↦
          let ih = get-hash_files q paths (put path (hash c) acc) hashes (ground arith) in
          ground (arith, ih, ==_iff path q, get-put path q (hash c) acc)
    ]

    pub hash_files-IsDict :
        (paths : List String) (acc hashes : Dict String String)
        → IsDict acc
        → hash_files hash files paths acc ≡ ok hashes
        → IsDict hashes
    unfolding hash_files
    hash_files-IsDict [] acc hashes i h = let e : acc ≡ hashes = cc in subst (λ d. IsDict d) e i
    hash_files-IsDict (path ∷ paths) acc hashes i h = elim (Option-cases (files path)) [
      | inl absent ↦ cc (rw (absent, hash_files) at h)
      | inr (c, there) ↦
          hash_files-IsDict paths (put path (hash c) acc) hashes (put-IsDict path (hash c) acc i)
            (ground arith)
    ]

    pub present_of_ok :
        (q : String) (paths : List String) (acc hashes : Dict String String)
        → hash_files hash files paths acc ≡ ok hashes
        → contains q paths ≡ true
        → present files q ≡ true
    unfolding hash_files
    present_of_ok q [] acc hashes h m = cc
    present_of_ok q (path ∷ paths) acc hashes h m = elim (Option-cases (files path)) [
      | inl absent ↦ cc (rw (absent, hash_files) at h)
      | inr (c, there) ↦ ground (
        arith,
        ==_iff path q,
        present_of_ok q paths (put path (hash c) acc) hashes (ground arith),
      )
    ]

    hash_files_ok :
        (paths : List String) (acc : Dict String String)
        → all (present files) paths ≡ true
        → (hashes : Dict String String) × (hash_files hash files paths acc ≡ ok hashes)
    unfolding hash_files
    hash_files_ok [] acc h = (acc, refl)
    hash_files_ok (path ∷ paths) acc h = elim (Option-cases (files path)) [
      | inl absent ↦ absurd (ground arith)
      | inr (c, there) ↦
          let (d, e) = hash_files_ok paths (put path (hash c) acc) (ground arith) in
          (d, rw (there, hash_files) e)
    ]

    hash_files_err :
        (paths : List String) (acc : Dict String String)
        → all (present files) paths ≡ false
        → (q : String) × (hash_files hash files paths acc ≡ err (file_not_found q))
          × (contains q paths ≡ true)
          × (files q ≡ none)
    unfolding hash_files
    hash_files_err [] acc h = cc
    hash_files_err (path ∷ paths) acc h = elim (Option-cases (files path)) [
      | inl absent ↦ (path, rw (absent, hash_files), ground (arith, ==_refl path), absent)
      | inr (c, there) ↦
          let (q, e, m, n) = hash_files_err paths (put path (hash c) acc) (ground arith) in
          (q, rw (there, hash_files) e, ground arith, n)
    ]

  module _ (iso : Iso) (now : ℕ) (plan : String) (paths : List String) (files : String → Option C)
      (disk : LockDisk) where
    -- Locking succeeds when all the listed files are there. When one is missing, it raises
    -- `FileNotFoundError` for a listed file that is missing, and leaves the lock file as it was.
    pub lock_test_plan_total :
        (all (present files) paths ≡ true
          → (l : LockFile) × ((lock_test_plan hash iso now plan paths files disk).0 ≡ ok l))
        × (all (present files) paths ≡ false
            → (q : String) × (lock_test_plan hash iso now plan paths files disk
                ≡ (err (file_not_found q), disk))
              × (contains q paths ≡ true)
              × (files q ≡ none))
    unfolding lock_test_plan
    lock_test_plan_total = (
      (λ h.
          let (d, e) = hash_files_ok files paths [] h in
          (
            record { test_plan_id = plan; locked_at = now; test_files = d },
            rw (e, lock_test_plan),
          )),
      (λ h.
          let (q, e, m, n) = hash_files_err files paths [] h in (q, rw (e, lock_test_plan), m, n)),
    )

    -- What a successful lock writes.
    pub lock_test_plan_written :
        (l : LockFile)
        → (lock_test_plan hash iso now plan paths files disk).0 ≡ ok l
        → (hash_files hash files paths [] ≡ ok l.test_files)
          × ((lock_test_plan hash iso now plan paths files disk).1 ≡ object (to_dict iso l))
    unfolding lock_test_plan
    lock_test_plan_written l h = elim (Result-cases (hash_files hash files paths [])) [
      | inl (d, e) ↦
          let same = rw (e, lock_test_plan) at h in
          (ground arith, rw (e, lock_test_plan) (ground arith))
      | inr (x, e) ↦ cc (rw (e, lock_test_plan) at h)
    ]

-- A lock file that was written is read back as it was, at any later time.
pub get_lock-to_dict :
    (iso : Iso) (now : ℕ) (l : LockFile) → get_lock iso now (object (to_dict iso l)) ≡ ok (some l)
unfolding get_lock to_dict
get_lock-to_dict iso now l = rw (iso.numeric_offset l.locked_at, iso.round_trip l.locked_at)
