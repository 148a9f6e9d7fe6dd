-- ===== src/Cache/Order.antt =====
-- The entries stand in the order of their last use, if the clock never goes back.
use rice_factor.Prelude.{
  ℕ, ◌+◌, ◌≤◌, ◌<◌, ◌≡◌, refl, inl, inr, false, Option, List, [], ◌∷◌, ◌++◌, String, All,
  All-append, length, leb, Bool-cases, Option-cases, arith,
}
use rice_factor.Prelude.Eq.{◌==◌, ==_refl, text_eq}
use rice_factor.Prelude.Dict.{
  Dict, put, del, get as lookup, has as holds, IsDict, del-IsDict, has-del,
}
use rice_factor.Prelude.Table.{or_default, put-fresh_lem}
use rice_factor.Cache.{
  CacheEntry, MemoryCache, is_expired, resized, missed, used, hit, move_to_end, get, room, evict,
  store, new_entry, set, delete, clear, keys_where, del_all, remove_where, invalidate_by_hash,
  cleanup_expired, has, Call, get_call, set_call, delete_call, clear_call, invalidate_call,
  cleanup_call, has_call, call, run,
}
use rice_factor.Cache.Lookups.{All-del, evict-room}
use rice_factor.Cache.Valid.{IsValid, call-IsValid}

module _ {V : Type 0} where
  -- When an entry was last used.
  abbrev pub last_use : CacheEntry V → ℕ
  last_use e = or_default 0 e.last_accessed

  -- The entries in the order of their last use, none later than `now`.
  abbrev pub ByUse : ℕ → Dict String (CacheEntry V) → Type 0
  ByUse now [] = Unit
  ByUse now ((k, e) ∷ d) = (last_use e ≤ now) × All (λ x. last_use e ≤ last_use x.1) d × ByUse now d

  -- The clock at a call, where it is read.
  abbrev pub clock : ℕ → Call V → ℕ
  clock before (get_call k now) = now
  clock before (set_call k value t now) = now
  clock before (cleanup_call now) = now
  clock before (has_call k now) = now
  clock before (delete_call k) = before
  clock before clear_call = before
  clock before (invalidate_call h) = before

  -- The clock does not go back from call to call.
  abbrev pub Forward : ℕ → List (Call V) → Type 0
  Forward before [] = Unit
  Forward before (x ∷ xs) = (before ≤ clock before x) × Forward (clock before x) xs

  abbrev pub end_of : ℕ → List (Call V) → ℕ
  end_of before [] = before
  end_of before (x ∷ xs) = end_of (clock before x) xs

  ByUse-del :
      (k : String) (now : ℕ) (d : Dict String (CacheEntry V)) → ByUse now d → ByUse now (del k d)
  unfolding del
  ByUse-del k now [] h = tt
  ByUse-del k now ((j, e) ∷ d) h = elim (Bool-cases (j == k)) [
    | inl same ↦ rw same h.2
    | inr other ↦
        rw other (h.0, All-del (λ x. last_use e ≤ last_use x.1) k d h.1, ByUse-del k now d h.2)
  ]

  ByUse-later :
      (now later : ℕ) (d : Dict String (CacheEntry V)) → now ≤ later → ByUse now d → ByUse later d
  ByUse-later now later [] le h = tt
  ByUse-later now later ((j, e) ∷ d) le h =
      (omega (arith, h.0), h.1, ByUse-later now later d le h.2)

  All-ByUse :
      (now : ℕ) (d : Dict String (CacheEntry V)) → ByUse now d → All (λ x. last_use x.1 ≤ now) d
  All-ByUse now [] h = tt
  All-ByUse now ((j, e) ∷ d) h = (h.0, All-ByUse now d h.2)

  -- An entry that is used now goes to the end.
  ByUse-snoc :
      (k : String) (e : CacheEntry V) (now : ℕ) (d : Dict String (CacheEntry V))
      → last_use e ≡ now
      → ByUse now d
      → ByUse now (d ++ ((k, e) ∷ []))
  ByUse-snoc k e now [] at h = (omega (arith, at), tt, tt)
  ByUse-snoc k e now ((j, w) ∷ d) at h = (
    h.0,
    All-append (λ x. last_use w ≤ last_use x.1) d ((k, e) ∷ []) h.1 (omega (arith, at, h.0), tt),
    ByUse-snoc k e now d at h.2,
  )

  ByUse-put :
      (k : String) (e : CacheEntry V) (now : ℕ) (d : Dict String (CacheEntry V))
      → holds k d ≡ false
      → last_use e ≡ now
      → ByUse now d
      → ByUse now (put k e d)
  ByUse-put k e now d fresh at h = rw (put-fresh_lem k e d fresh) (ByUse-snoc k e now d at h)

  ByUse-del_all :
      (ks : List String) (now : ℕ) (d : Dict String (CacheEntry V))
      → ByUse now d
      → ByUse now (del_all ks d)
  unfolding del_all
  ByUse-del_all [] now d h = h
  ByUse-del_all (k ∷ ks) now d h = ByUse-del_all ks now (del k d) (ByUse-del k now d h)

  -- What is left when room is made is in order, and holds no other key.
  ByUse-evict :
      (k : String) (max n now : ℕ) (d r : Dict String (CacheEntry V)) (m : ℕ)
      → ByUse now d
      → holds k d ≡ false
      → evict max d n ≡ room r m
      → ByUse now r × (holds k r ≡ false)
  unfolding evict holds
  ByUse-evict k max n now [] r m h fresh e =
      let same : [] ≡ r = ground arith in rw (← same) (tt, refl)
  ByUse-evict k max n now (x ∷ d) r m h fresh e = elim (Bool-cases (leb max (length (x ∷ d)))) [
    | inl over ↦ ByUse-evict k max (n + 1) now d r m h.2 (ground arith) (rw (over, evict) at e)
    | inr fits ↦ let same : (x ∷ d) ≡ r = ground arith in rw (← same) (h, fresh)
  ]

  get-ByUse :
      (k : String) (now : ℕ) (c : MemoryCache V)
      → IsDict c.cache
      → ByUse now c.cache
      → ByUse now (get k now c).0.cache
  unfolding get missed resized hit move_to_end used
  get-ByUse k now c once h = elim (Option-cases (lookup k c.cache)) [
    | inl absent ↦ rw (absent, get) h
    | inr (e, there) ↦ elim (Bool-cases (is_expired e now)) [
      | inl over ↦ rw (there, get, over) (ByUse-del k now c.cache h)
      | inr live ↦
          rw (there, get, live)
            (ByUse-put k (used e now) now (del k c.cache)
              (ground (arith, has-del k k c.cache once, ==_refl k)) refl
              (ByUse-del k now c.cache h))
    ]
  ]

  has-ByUse :
      (k : String) (now : ℕ) (c : MemoryCache V)
      → ByUse now c.cache
      → ByUse now (has k now c).0.cache
  unfolding has resized
  has-ByUse k now c h = elim (Option-cases (lookup k c.cache)) [
    | inl absent ↦ rw (absent, has) h
    | inr (e, there) ↦ elim (Bool-cases (is_expired e now)) [
      | inl over ↦ rw (there, has, over) (ByUse-del k now c.cache h)
      | inr live ↦ rw (there, has, live) h
    ]
  ]

  delete-ByUse :
      (k : String) (now : ℕ) (c : MemoryCache V)
      → ByUse now c.cache
      → ByUse now (delete k c).0.cache
  unfolding delete resized
  delete-ByUse k now c h = elim (Bool-cases (holds k c.cache)) [
    | inl there ↦ rw (there, delete) (ByUse-del k now c.cache h)
    | inr absent ↦ rw (absent, delete) h
  ]

module _ {V : Type 0} (compute_hash : V → String) (max : ℕ) (pos : 0 < max) where
  set-ByUse :
      (k : String) (value : V) (t : Option ℕ) (now : ℕ) (c : MemoryCache V)
      → IsValid max c
      → ByUse now c.cache
      → ByUse now (set compute_hash k value t now c).0.cache
  unfolding set store resized new_entry
  set-ByUse k value t now c v h =
      let e = new_entry compute_hash k value t now c in
      let d = del k c.cache in
      let (r, m, runs, small, once, kept) =
        evict-room c.max_size 0 d (rw v.capacity pos) (del-IsDict k c.cache v.once) in
      let fresh : holds k d ≡ false = ground (arith, has-del k k c.cache v.once, ==_refl k) in
      let (order, fresh_r) =
        ByUse-evict k c.max_size 0 now d r m (ByUse-del k now c.cache h) fresh runs in
      rw (runs, store) (ByUse-put k e now r fresh_r refl order)

  call-ByUse :
      (before : ℕ) (x : Call V) (c : MemoryCache V)
      → IsValid max c
      → before ≤ clock before x
      → ByUse before c.cache
      → ByUse (clock before x) (call compute_hash x c).cache
  unfolding call clear resized invalidate_by_hash cleanup_expired remove_where
  call-ByUse before (get_call k now) c v le h =
      get-ByUse k now c v.once (ByUse-later before now c.cache le h)
  call-ByUse before (set_call k value t now) c v le h =
      set-ByUse k value t now c v (ByUse-later before now c.cache le h)
  call-ByUse before (delete_call k) c v le h = delete-ByUse k before c h
  call-ByUse before clear_call c v le h = tt
  call-ByUse before (invalidate_call hash) c v le h =
      ByUse-del_all (keys_where (λ e. e.hash == hash) c.cache) before c.cache h
  call-ByUse before (cleanup_call now) c v le h =
      ByUse-del_all (keys_where (λ e. is_expired e now) c.cache) now c.cache
        (ByUse-later before now c.cache le h)
  call-ByUse before (has_call k now) c v le h =
      has-ByUse k now c (ByUse-later before now c.cache le h)

  pub run-ByUse :
      (before : ℕ) (xs : List (Call V)) (c : MemoryCache V)
      → IsValid max c
      → Forward before xs
      → ByUse before c.cache
      → ByUse (end_of before xs) (run compute_hash xs c).cache
  unfolding run
  run-ByUse before [] c v forward h = h
  run-ByUse before (x ∷ xs) c v forward h =
      run-ByUse (clock before x) xs (call compute_hash x c)
        (call-IsValid max compute_hash pos x c v) forward.1 (call-ByUse before x c v forward.0 h)
