-- ===== src/Cache/Reads.antt =====
-- Reading what was just stored.
use rice_factor.Prelude.{
  ℕ, ◌<◌, ◌≡◌, refl, ◌∙◌, ◌⊎◌, inl, inr, Option, none, some, String, if◌then◌else◌, Bool-cases,
}
use rice_factor.Prelude.Eq.{text_eq}
use rice_factor.Prelude.Dict.{put, del, get as lookup, del-IsDict, get-put_self}
use rice_factor.Cache.{
  CacheEntry, MemoryCache, past, is_expired, resized, used, get, evicted, store, new_entry, set,
}
use rice_factor.Cache.Lifetimes.{good_until, IsGood, expiry-good_until, past_iff}
use rice_factor.Cache.Lookups.{evict-room}
use rice_factor.Cache.Valid.{IsValid}

module _ {V : Type 0} where
  get-there :
      (k : String) (now : ℕ) (c : MemoryCache V) (w : CacheEntry V)
      → lookup k c.cache ≡ some w
      → (get k now c).1 ≡ (if past w.expires_at now then none else some (used w now))
  unfolding get is_expired
  get-there k now c w there = elim (Bool-cases (is_expired w now)) [
    | inl over ↦ rw (there, get, over) refl
    | inr live ↦ rw (there, get, live) refl
  ]

module _ {V : Type 0} (compute_hash : V → String) (max : ℕ) where
  -- On a cache with room, `get` after `set` of the same key returns an entry with the value that was
  -- stored, used once, up to the time to which it is good, and nothing after that time.
  pub get-set :
      (k : String) (value : V) (t : Option ℕ) (now later : ℕ) (c : MemoryCache V)
      → 0 < max
      → IsValid max c
      → let found = (get k later (set compute_hash k value t now c).0).1 in
        let until = good_until t c.default_ttl now in
        IsGood until later
          × ((w : CacheEntry V) × (found ≡ some w)
              × (w.value ≡ value)
              × (w.key ≡ k)
              × (w.hit_count ≡ 1))
        ⊎ (¬ IsGood until later) × (found ≡ none)
  unfolding set resized new_entry used
  get-set k value t now later c pos v =
      let e = new_entry compute_hash k value t now c in
      let until = good_until t c.default_ttl now in
      let (r, m, runs, small, once, kept) =
        evict-room c.max_size 0 (del k c.cache) (rw v.capacity pos) (del-IsDict k c.cache v.once) in
      let reads : (get k later (set compute_hash k value t now c).0).1
          ≡ (if past until later then none else some (used e later)) =
        rw (runs, store, ← expiry-good_until t c.default_ttl now)
          (get-there k later (resized (put k e r) (evicted m c)) e (get-put_self k e r)) in
      elim (Bool-cases (past until later)) [
        | inr good ↦
            inl (
              (past_iff until later).0 good,
              (used e later, reads ∙ rw good refl, refl, refl, refl),
            )
        | inl over ↦ inr (λ h. cc ((past_iff until later).1 h), reads ∙ rw over refl)
      ]
