-- ===== src/Lock/Agreement.antt =====
-- `SafetyEnforcer` and `LockManager` read one lock file: where they agree, and where not.
use rice_factor.Prelude.{
  ℕ, ◌≡◌, refl, sym, ◌≢◌, String, ◌&&◌, Option, some, List, [], ◌∷◌, arith, All, Option-cases, inl,
  inr, is_empty,
}
use rice_factor.Prelude.Eq.{==_iff, text_eq}
use rice_factor.Prelude.Dict.{Dict, get, IsDict, All-get}
use rice_factor.Lock.Manager.{
  Iso, LockFile, LockJson, LockDisk, object, ok, Verification, to_dict, hash_files, check_files,
  verify_files, lock_test_plan, verify_lock,
}
use rice_factor.Lock.Enforcer.{Intact, intact, compute_file_hash, scan, check_test_lock_intact}
use rice_factor.Lock.Locking.{
  get-hash_files, hash_files-IsDict, lock_test_plan_written, get_lock-to_dict,
}

module _ {C : Type 0} (hash : C → String) where
  -- No hash is the marker of a missing file.
  abbrev pub NoMarker : Dict String String → Type 0
  NoMarker d = All (λ e. e.1 ≢ "<missing>") d

  scan-check_files :
      (files : String → Option C) (d : Dict String String)
      → NoMarker d
      → is_empty (scan hash files d).0 ≡ (
          is_empty (check_files hash files d).modified
          && is_empty (check_files hash files d).missing)
  unfolding scan compute_file_hash check_files
  scan-check_files files [] m = refl
  scan-check_files files ((path, expected) ∷ rest) m =
      ground (arith, scan-check_files files rest m.1, ==_iff "<missing>" expected, m.0)

  hash_files-NoMarker :
      ((c : C) → hash c ≢ "<missing>")
      → (paths : List String) (files : String → Option C) (d : Dict String String)
      → hash_files hash files paths [] ≡ ok d
      → NoMarker d
  unfolding IsDict get
  hash_files-NoMarker real paths files d made =
      All-get (λ k v. v ≢ "<missing>") d (hash_files-IsDict hash files paths [] d tt made)
        (λ k v g. elim (Option-cases (files k)) [
          | inl absent ↦ λ e. ground (arith, get-hash_files hash files k paths [] d made)
          | inr (c, there) ↦
              λ e. ground (arith, get-hash_files hash files k paths [] d made, real c)
        ])

  check-written :
      (files : String → Option C) (d : Dict String String) (j : LockJson)
      → j.test_files ≡ some d
      → NoMarker d
      → (i : Intact) × (check_test_lock_intact hash files (object j) ≡ ok i)
        × ((verify_files hash files d).is_valid ≡ i.is_valid)
  unfolding check_test_lock_intact verify_files check_files
  check-written files [] j e m = (intact, rw (e, check_test_lock_intact), refl)
  check-written files (entry ∷ rest) j e m = (
    record {
      is_valid = is_empty (scan hash files (entry ∷ rest)).0;
      modified_files = (scan hash files (entry ∷ rest)).0;
      expected_hashes = entry ∷ rest;
      actual_hashes = (scan hash files (entry ∷ rest)).1;
    },
    rw (e, check_test_lock_intact),
    sym (scan-check_files files (entry ∷ rest) m),
  )

  -- After a successful lock, with a hash that is never "<missing>", `check_test_lock_intact` and
  -- `verify_lock` on any later tree both return, and one finds the lock valid exactly when the other
  -- does.
  pub check_test_lock_intact-verify_lock :
      ((c : C) → hash c ≢ "<missing>")
      → (iso : Iso) (now : ℕ) (plan : String) (paths : List String) (files : String → Option C)
        (disk : LockDisk) (l : LockFile) (then_now : ℕ) (later : String → Option C)
      → (lock_test_plan hash iso now plan paths files disk).0 ≡ ok l
      → let lock = (lock_test_plan hash iso now plan paths files disk).1 in
        (v : Verification) × (i : Intact) × (verify_lock hash iso then_now later lock ≡ ok v)
        × (check_test_lock_intact hash later lock ≡ ok i)
        × (v.is_valid ≡ i.is_valid)
  unfolding verify_lock to_dict
  check_test_lock_intact-verify_lock real iso now plan paths files disk l then_now later locked =
      let (made, written) = lock_test_plan_written hash iso now plan paths files disk l locked in
      let marks = hash_files-NoMarker real paths files l.test_files made in
      let (i, checked, same) = check-written later l.test_files (to_dict iso l) refl marks in
      (
        verify_files hash later l.test_files,
        i,
        rw written (rw (get_lock-to_dict iso then_now l, verify_lock)),
        rw written checked,
        same,
      )
