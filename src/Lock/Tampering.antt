-- ===== src/Lock/Tampering.antt =====
-- What `verify_lock` finds out about a tree after a successful lock.
use rice_factor.Prelude.{
  ℕ, ◌≡◌, ◌↔◌, String, true, Option, some, List, [], ◌∷◌, arith, All, Option-cases, inl, inr,
}
use rice_factor.Prelude.Eq.{==_iff, text_eq, contains}
use rice_factor.Prelude.Dict.{Dict, get, IsDict, get-All, All-get}
use rice_factor.Lock.Manager.{
  Iso, LockFile, LockDisk, ok, Verification, hash_files, check_files, verify_files, lock_test_plan,
  verify_lock,
}
use rice_factor.Lock.Locking.{
  hash_of, present, get-hash_files, hash_files-IsDict, present_of_ok, lock_test_plan_written,
  get_lock-to_dict,
}

module _ {C : Type 0} (hash : C → String) where
  abbrev pub Matches : (String → Option C) → Dict String String → Type 0
  Matches files d = All (λ e. hash_of hash files e.0 ≡ some e.1) d

  pub verify_files_iff :
      (files : String → Option C) (d : Dict String String)
      → ((verify_files hash files d).is_valid ≡ true) ↔ Matches files d
  unfolding verify_files check_files
  verify_files_iff files [] = ground arith
  verify_files_iff files ((path, expected) ∷ rest) = elim (Option-cases (files path)) [
    | inl absent ↦ ((λ h. absurd (ground arith)), (λ m. absurd (ground arith)))
    | inr (c, there) ↦ (
      (λ h. (
        ground (arith, ==_iff (hash c) expected),
        (verify_files_iff files rest).0 (ground arith),
      )),
      (λ m. ground (arith, ==_iff (hash c) expected, (verify_files_iff files rest).1 m.1)),
    )
  ]

  hash_of-present :
      (files : String → Option C) (p : String)
      → present hash files p ≡ true
      → (h : String) × (hash_of hash files p ≡ some h)
  hash_of-present files p e = elim (Option-cases (files p)) [
    | inl absent ↦ absurd (ground arith)
    | inr (c, there) ↦ (hash c, rw (there, hash_of))
  ]

  -- The recorded hashes match a tree exactly when each listed file has there the hash that it had.
  Matches-hash_files_iff :
      (paths : List String) (files later : String → Option C) (d : Dict String String)
      → hash_files hash files paths [] ≡ ok d
      → Matches later d
        ↔ ((p : String) → contains p paths ≡ true → hash_of hash later p ≡ hash_of hash files p)
  unfolding IsDict get
  Matches-hash_files_iff paths files later d made = (
    (λ m p listed.
        let (h, e) = hash_of-present files p (present_of_ok hash files p paths [] d made listed) in
        let found : get p d ≡ some h =
          ground (arith, get-hash_files hash files p paths [] d made) in
        cc (e, get-All (λ k v. hash_of hash later k ≡ some v) p h d m found)),
    (λ same.
        All-get (λ k v. hash_of hash later k ≡ some v) d
          (hash_files-IsDict hash files paths [] d tt made)
          (λ k v g. ground (arith, get-hash_files hash files k paths [] d made, same k))),
  )

  -- After a successful lock, `verify_lock` on any later tree returns, and what it returns is valid
  -- exactly when every listed file is still there with the hash that it had at the lock.
  pub verify_lock-lock_test_plan :
      (iso : Iso) (now : ℕ) (plan : String) (paths : List String) (files : String → Option C)
      (disk : LockDisk) (l : LockFile) (then_now : ℕ) (later : String → Option C)
      → (lock_test_plan hash iso now plan paths files disk).0 ≡ ok l
      → (v : Verification) × (verify_lock hash iso then_now later
            (lock_test_plan hash iso now plan paths files disk).1
          ≡ ok v)
        × ((v.is_valid ≡ true) ↔ (
            (p : String) → contains p paths ≡ true → hash_of hash later p ≡ hash_of hash files p))
  unfolding verify_lock
  verify_lock-lock_test_plan iso now plan paths files disk l then_now later locked =
      let (made, written) = lock_test_plan_written hash iso now plan paths files disk l locked in
      let valid_iff = verify_files_iff later l.test_files in
      let match_iff = Matches-hash_files_iff paths files later l.test_files made in
      (
        verify_files hash later l.test_files,
        rw written (rw (get_lock-to_dict iso then_now l, verify_lock)),
        ((λ h. match_iff.0 (valid_iff.0 h)), (λ same. valid_iff.1 (match_iff.1 same))),
      )
