-- ===== src/Cache/Valid.antt =====
-- The size and the counts of the cache after any calls.
use rice_factor.Prelude.{
  ℕ, ◌≤◌, ◌<◌, ◌≡◌, refl, inl, inr, Bool, Option, some, List, [], ◌∷◌, String, length, Bool-cases,
  Option-cases, arith,
}
use rice_factor.Prelude.Eq.{text_eq}
use rice_factor.Prelude.Dict.{
  Dict, put, del, get as lookup, has as holds, IsDict, put-IsDict, del-IsDict,
}
use rice_factor.Cache.{
  CacheEntry, MemoryCache, new, is_expired, resized, missed, used, hit, move_to_end, get, evicted,
  store, new_entry, set, delete, clear, keys_where, del_all, remove_where, invalidate_by_hash,
  cleanup_expired, has, Call, get_call, set_call, delete_call, clear_call, invalidate_call,
  cleanup_call, has_call, call, run,
}
use rice_factor.Cache.Lookups.{
  length-del-le, length-put-le, length-move_to_end, del_all-IsDict, length-del_all-le, evict-room,
}

-- Each key once, at most `max` entries, and a size that is counted.
pub record IsValid {V : Type 0} (max : ℕ) (c : MemoryCache V) : Type 0 where
  pub once : IsDict c.cache
  pub capacity : c.max_size ≡ max
  pub bounded : length c.cache ≤ max
  pub sized : c.stats.size ≡ length c.cache

module _ {V : Type 0} (max : ℕ) where
  pub new-IsValid : (ttl : Option ℕ) → IsValid max (new {V = V} max ttl)
  unfolding new IsDict
  new-IsValid ttl = record { once = tt; capacity = refl; bounded = omega arith; sized = refl }

  resized-IsValid :
      (d : Dict String (CacheEntry V)) (c : MemoryCache V)
      → IsDict d
      → length d ≤ max
      → IsValid max c
      → IsValid max (resized d c)
  unfolding resized
  resized-IsValid d c once small h = record {
    once = once;
    capacity = h.capacity;
    bounded = small;
    sized = refl;
  }

  dropped-IsValid :
      (k : String) (c : MemoryCache V) → IsValid max c → IsValid max (resized (del k c.cache) c)
  dropped-IsValid k c h =
      resized-IsValid (del k c.cache) c (del-IsDict k c.cache h.once)
        (omega (arith, length-del-le k c.cache, h.bounded)) h

  missed-IsValid : (c : MemoryCache V) → IsValid max c → IsValid max (missed c)
  unfolding missed
  missed-IsValid c h = record {
    once = h.once;
    capacity = h.capacity;
    bounded = h.bounded;
    sized = h.sized;
  }

  hit-IsValid :
      (k : String) (e : CacheEntry V) (now : ℕ) (c : MemoryCache V)
      → lookup k c.cache ≡ some e
      → IsValid max c
      → IsValid max (hit k e now c)
  unfolding hit move_to_end
  hit-IsValid k e now c there h =
      let same = length-move_to_end k (used e now) e c.cache h.once there in
      record {
        once = put-IsDict k (used e now) (del k c.cache) (del-IsDict k c.cache h.once);
        capacity = h.capacity;
        bounded = omega (arith, same, h.bounded);
        sized = omega (arith, same, h.sized);
      }

  get-IsValid :
      (k : String) (now : ℕ) (c : MemoryCache V) → IsValid max c → IsValid max (get k now c).0
  unfolding get
  get-IsValid k now c h = elim (Option-cases (lookup k c.cache)) [
    | inl absent ↦ rw (absent, get) (missed-IsValid c h)
    | inr (e, there) ↦ elim (Bool-cases (is_expired e now)) [
      | inl over ↦
          rw (there, get, over) (missed-IsValid (resized (del k c.cache) c) (dropped-IsValid k c h))
      | inr live ↦ rw (there, get, live) (hit-IsValid k e now c there h)
    ]
  ]

  evicted-IsValid : (n : ℕ) (c : MemoryCache V) → IsValid max c → IsValid max (evicted n c)
  unfolding evicted
  evicted-IsValid n c h = record {
    once = h.once;
    capacity = h.capacity;
    bounded = h.bounded;
    sized = h.sized;
  }

  set-IsValid :
      (compute_hash : V → String) (k : String) (value : V) (ttl : Option ℕ) (now : ℕ)
      (c : MemoryCache V)
      → 0 < max
      → IsValid max c
      → IsValid max (set compute_hash k value ttl now c).0
  unfolding set store
  set-IsValid compute_hash k value ttl now c pos h =
      let e = new_entry compute_hash k value ttl now c in
      let (r, m, runs, small, once, kept) =
        evict-room c.max_size 0 (del k c.cache) (omega (arith, h.capacity, pos))
          (del-IsDict k c.cache h.once) in
      rw (runs, store)
        (resized-IsValid (put k e r) (evicted m c) (put-IsDict k e r once)
          (omega (arith, length-put-le k e r, small, h.capacity)) (evicted-IsValid m c h))

  remove_where-IsValid :
      (p : CacheEntry V → Bool) (c : MemoryCache V)
      → IsValid max c
      → IsValid max (remove_where p c).0
  unfolding remove_where
  remove_where-IsValid p c h =
      let ks = keys_where p c.cache in
      resized-IsValid (del_all ks c.cache) c (del_all-IsDict ks c.cache h.once)
        (omega (arith, length-del_all-le ks c.cache, h.bounded)) h

  delete-IsValid : (k : String) (c : MemoryCache V) → IsValid max c → IsValid max (delete k c).0
  unfolding delete
  delete-IsValid k c h = elim (Bool-cases (holds k c.cache)) [
    | inl there ↦ rw (there, delete) (dropped-IsValid k c h)
    | inr absent ↦ rw (absent, delete) h
  ]

  has-IsValid :
      (k : String) (now : ℕ) (c : MemoryCache V) → IsValid max c → IsValid max (has k now c).0
  unfolding has
  has-IsValid k now c h = elim (Option-cases (lookup k c.cache)) [
    | inl absent ↦ rw (absent, has) h
    | inr (e, there) ↦ elim (Bool-cases (is_expired e now)) [
      | inl over ↦ rw (there, has, over) (dropped-IsValid k c h)
      | inr live ↦ rw (there, has, live) h
    ]
  ]

  clear-IsValid : (c : MemoryCache V) → IsValid max c → IsValid max (clear c).0
  unfolding clear IsDict
  clear-IsValid c h = resized-IsValid [] c tt (omega arith) h

  module _ (compute_hash : V → String) (pos : 0 < max) where
    pub call-IsValid :
        (x : Call V) (c : MemoryCache V) → IsValid max c → IsValid max (call compute_hash x c)
    unfolding call invalidate_by_hash cleanup_expired
    call-IsValid (get_call k now) c h = get-IsValid k now c h
    call-IsValid (set_call k value ttl now) c h = set-IsValid compute_hash k value ttl now c pos h
    call-IsValid (delete_call k) c h = delete-IsValid k c h
    call-IsValid clear_call c h = clear-IsValid c h
    call-IsValid (invalidate_call hash) c h = remove_where-IsValid _ c h
    call-IsValid (cleanup_call now) c h = remove_where-IsValid _ c h
    call-IsValid (has_call k now) c h = has-IsValid k now c h

    from-IsValid :
        (xs : List (Call V)) (c : MemoryCache V)
        → IsValid max c
        → IsValid max (run compute_hash xs c)
    unfolding run
    from-IsValid [] c h = h
    from-IsValid (x ∷ xs) c h = from-IsValid xs (call compute_hash x c) (call-IsValid x c h)

    -- A cache with room for at least one entry holds, after any calls, each key once, no more entries
    -- than its size allows, and as many as its statistics say.
    pub run-IsValid :
        (ttl : Option ℕ) (xs : List (Call V)) → IsValid max (run compute_hash xs (new max ttl))
    run-IsValid ttl xs = from-IsValid xs (new max ttl) (new-IsValid ttl)
