-- ===== src/Cache/Fresh.antt =====
-- The cache against a record of what was stored last under each key, which forgets nothing by itself.
use rice_factor.Prelude.{
  ℕ, ◌<◌, ◌≡◌, refl, ◌∙◌, inl, inr, Bool, false, Option, none, some, List, [], ◌∷◌, String, All,
  if◌then◌else◌, Bool-cases, Option-cases, arith,
}
use rice_factor.Prelude.Eq.{◌==◌, ==_iff, ==_refl, text_eq}
use rice_factor.Prelude.Dict.{
  Dict, put, del, get as lookup, has_iff, IsDict, del-IsDict, get-put, get-del, get-All, All-get,
}
use rice_factor.Cache.{
  CacheEntry, MemoryCache, new, past, is_expired, resized, missed, used, hit, move_to_end, get,
  evicted, store, new_entry, set, delete, clear, keys_where, del_all, remove_where,
  invalidate_by_hash, cleanup_expired, has, Call, get_call, set_call, delete_call, clear_call,
  invalidate_call, cleanup_call, has_call, call, run,
}
use rice_factor.Cache.Lifetimes.{good_until, IsGood, expiry-good_until, past_iff}
use rice_factor.Cache.Lookups.{get-remove, evict-room}
use rice_factor.Cache.Valid.{IsValid, new-IsValid, call-IsValid}

-- What was stored under a key, and until when it is good.
abbrev pub Stored : Type 0 → Type 0
Stored V = String → Option (V × Option ℕ)

module _ {V : Type 0} (compute_hash : V → String) (ttl : Option ℕ) where
  unfoldable pub without : String → Option (V × Option ℕ) → Option (V × Option ℕ)
  without h none = none
  without h (some (v, until)) = if compute_hash v == h then none else some (v, until)

  -- A value is stored by `set`, and gone by `delete`, `clear` and the invalidation of its hash.
  unfoldable pub note : Call V → Stored V → Stored V
  unfolding without
  note (set_call k v t now) f j = if k == j then some (v, good_until t ttl now) else f j
  note (delete_call k) f j = if k == j then none else f j
  note clear_call f j = none
  note (invalidate_call h) f j = without h (f j)
  note (get_call k now) f j = f j
  note (cleanup_call now) f j = f j
  note (has_call k now) f j = f j

  unfoldable pub latest : List (Call V) → Stored V → Stored V
  unfolding note
  latest [] f = f
  latest (x ∷ xs) f = latest xs (note x f)

  abbrev Agrees : Stored V → String → CacheEntry V → Type 0
  Agrees f j e = (f j ≡ some (e.value, e.expires_at)) × (e.hash ≡ compute_hash e.value)

  -- Every entry of the dictionary is what was stored last.
  abbrev Tracks : Stored V → Dict String (CacheEntry V) → Type 0
  Tracks f d = (j : String) (e : CacheEntry V) → lookup j d ≡ some e → Agrees f j e

  module _ (f : Stored V) where
    del-Tracks :
        (k : String) (d : Dict String (CacheEntry V)) → IsDict d → Tracks f d → Tracks f (del k d)
    del-Tracks k d once h j e there = h j e (ground (arith, get-del k j d once))

    put-Tracks :
        (k : String) (e : CacheEntry V) (d : Dict String (CacheEntry V))
        → Agrees f k e
        → Tracks f d
        → Tracks f (put k e d)
    put-Tracks k e d own h j e' there = elim (Bool-cases (k == j)) [
      | inl same ↦
          let at : k ≡ j = (==_iff k j).0 same in
          let e-same : e ≡ e' = ground (arith, get-put k j e d) in rw (← at, ← e-same) own
      | inr other ↦ h j e' (ground (arith, get-put k j e d))
    ]

    remove-Tracks :
        (p : CacheEntry V → Bool) (d : Dict String (CacheEntry V))
        → IsDict d
        → Tracks f d
        → Tracks f (del_all (keys_where p d) d)
    remove-Tracks p d once h j e there = h j e (get-remove p j e d once there).0

    get-Tracks :
        (k : String) (now : ℕ) (c : MemoryCache V)
        → IsDict c.cache
        → Tracks f c.cache
        → Tracks f (get k now c).0.cache
    unfolding get missed resized hit move_to_end
    get-Tracks k now c once h = elim (Option-cases (lookup k c.cache)) [
      | inl absent ↦ rw (absent, get) h
      | inr (e, there) ↦ elim (Bool-cases (is_expired e now)) [
        | inl over ↦ rw (there, get, over) (del-Tracks k c.cache once h)
        | inr live ↦
            rw (there, get, live)
              (put-Tracks k (used e now) (del k c.cache) (h k e there)
                (del-Tracks k c.cache once h))
      ]
    ]

    has-Tracks :
        (k : String) (now : ℕ) (c : MemoryCache V)
        → IsDict c.cache
        → Tracks f c.cache
        → Tracks f (has k now c).0.cache
    unfolding has resized
    has-Tracks k now c once h = elim (Option-cases (lookup k c.cache)) [
      | inl absent ↦ rw (absent, has) h
      | inr (e, there) ↦ elim (Bool-cases (is_expired e now)) [
        | inl over ↦ rw (there, has, over) (del-Tracks k c.cache once h)
        | inr live ↦ rw (there, has, live) h
      ]
    ]

    -- The tail that is left when room is made is of entries that were there.
    set-Tracks :
        (k : String) (value : V) (t : Option ℕ) (now : ℕ) (c : MemoryCache V)
        → 0 < c.max_size
        → c.default_ttl ≡ ttl
        → IsDict c.cache
        → Tracks f c.cache
        → Tracks (note (set_call k value t now) f) (set compute_hash k value t now c).0.cache
    unfolding set store resized new_entry note
    set-Tracks k value t now c pos e once h =
        let d = del k c.cache in
        let once_d = del-IsDict k c.cache once in
        let (r, m, runs, small, once_r, kept) = evict-room c.max_size 0 d pos once_d in
        let still =
          kept (λ x. lookup x.0 d ≡ some x.1)
            (All-get (λ j w. lookup j d ≡ some w) d once_d (λ j w g. g)) in
        rw (runs, store)
          (stored r still (new_entry compute_hash k value t now c)
            (rw (==_refl k, e, expiry-good_until t ttl now) refl, refl))
      where
        stored :
            (r : Dict String (CacheEntry V))
            → All (λ x. lookup x.0 (del k c.cache) ≡ some x.1) r
            → (w : CacheEntry V) → Agrees (note (set_call k value t now) f) k w
            → Tracks (note (set_call k value t now) f) (put k w r)
        stored r still w own j e' there = elim (Bool-cases (k == j)) [
          | inl same ↦
              let at : k ≡ j = (==_iff k j).0 same in
              let e-same : w ≡ e' = ground (arith, get-put k j w r) in rw (← at, ← e-same) own
          | inr other ↦
              let in_r : lookup j r ≡ some e' = ground (arith, get-put k j w r) in
              let in_d = get-All (λ i v. lookup i (del k c.cache) ≡ some v) j e' r still in_r in
              let (agrees, hashed) = h j e' (ground (arith, get-del k j c.cache once, in_d)) in
              (rw other agrees, hashed)
        ]

  call-default_ttl :
      (x : Call V) (c : MemoryCache V) → (call compute_hash x c).default_ttl ≡ c.default_ttl
  unfolding call get set delete clear invalidate_by_hash cleanup_expired has resized missed hit
      evicted store remove_where
  call-default_ttl clear_call c = refl
  call-default_ttl x c = ground arith

  delete-Tracks :
      (f : Stored V) (k : String) (c : MemoryCache V)
      → IsDict c.cache
      → Tracks f c.cache
      → Tracks (note (delete_call k) f) (delete k c).0.cache
  unfolding delete resized note
  delete-Tracks f k c once h j e there =
      ground (arith, get-del k j c.cache once, has_iff k c.cache, ==_iff k j, h j e)

  invalidate-Tracks :
      (f : Stored V) (hash : String) (c : MemoryCache V)
      → IsDict c.cache
      → Tracks f c.cache
      → Tracks (note (invalidate_call hash) f) (invalidate_by_hash hash c).0.cache
  unfolding invalidate_by_hash remove_where resized note without
  invalidate-Tracks f hash c once h j e there =
      let (was, other) = get-remove (λ (w : CacheEntry V). w.hash == hash) j e c.cache once there in
      let (agrees, hashed) = h j e was in (rw (agrees, without, ← hashed, other) refl, hashed)

  module _ (max : ℕ) (pos : 0 < max) where
    call-Tracks :
        (f : Stored V) (x : Call V) (c : MemoryCache V)
        → IsValid max c
        → c.default_ttl ≡ ttl
        → Tracks f c.cache
        → Tracks (note x f) (call compute_hash x c).cache
    unfolding call note clear resized cleanup_expired remove_where lookup
    call-Tracks f (get_call k now) c v e h = get-Tracks f k now c v.once h
    call-Tracks f (set_call k value t now) c v e h =
        set-Tracks f k value t now c (rw v.capacity pos) e v.once h
    call-Tracks f (delete_call k) c v e h = delete-Tracks f k c v.once h
    call-Tracks f clear_call c v e h = λ j w there. cc
    call-Tracks f (invalidate_call hash) c v e h = invalidate-Tracks f hash c v.once h
    call-Tracks f (cleanup_call now) c v e h = remove-Tracks f _ c.cache v.once h
    call-Tracks f (has_call k now) c v e h = has-Tracks f k now c v.once h

    run-Tracks :
        (xs : List (Call V)) (f : Stored V) (c : MemoryCache V)
        → IsValid max c
        → c.default_ttl ≡ ttl
        → Tracks f c.cache
        → Tracks (latest xs f) (run compute_hash xs c).cache
    unfolding run latest
    run-Tracks [] f c v e h = h
    run-Tracks (x ∷ xs) f c v e h =
        run-Tracks xs (note x f) (call compute_hash x c) (call-IsValid max compute_hash pos x c v)
          (call-default_ttl x c ∙ e) (call-Tracks f x c v e h)

    get-some :
        (k : String) (now : ℕ) (c : MemoryCache V) (e : CacheEntry V)
        → (get k now c).1 ≡ some e
        → (w : CacheEntry V) × (lookup k c.cache ≡ some w)
          × (e ≡ used w now)
          × (past w.expires_at now ≡ false)
    unfolding get is_expired
    get-some k now c e h = elim (Option-cases (lookup k c.cache)) [
      | inl absent ↦ cc (rw (absent, get) at h)
      | inr (w, there) ↦ elim (Bool-cases (is_expired w now)) [
        | inl over ↦ cc (rw (there, get, over) at h)
        | inr live ↦
            let found : some (used w now) ≡ some e = rw (there, get, live) at h in
            (w, there, cc, live)
      ]
    ]

    -- Whatever was called on a new cache with room, an entry that `get` returns has the value that was
    -- stored last under its key, with no deletion, clearing or invalidation of its hash since, and the
    -- time to which it is good is that of the storing and is not past.
    pub get-latest :
        (xs : List (Call V)) (k : String) (now : ℕ) (e : CacheEntry V)
        → (get k now (run compute_hash xs (new max ttl))).1 ≡ some e
        → (latest xs (λ j. none) k ≡ some (e.value, e.expires_at)) × IsGood e.expires_at now
    unfolding used new lookup
    get-latest xs k now e h =
        let c = run compute_hash xs (new max ttl) in
        let (w, there, e-used, live) = get-some k now c e h in
        let tracked =
          run-Tracks xs (λ j. none) (new max ttl) (new-IsValid max ttl) refl (λ j v g. cc) in
        rw e-used ((tracked k w there).0, (past_iff w.expires_at now).0 live)
