-- ===== src/Cache/Eviction.antt =====
-- Which entry goes when a full cache takes a new one.
use rice_factor.Prelude.{
  ℕ, ◌+◌, ◌≤◌, ◌<◌, ◌≡◌, refl, false, Option, List, [], ◌∷◌, ◌++◌, String, All, length, arith,
}
use mathlib.Core.Path.{subst}
use rice_factor.Prelude.Eq.{text_eq}
use rice_factor.Prelude.Dict.{Dict, del, has as holds}
use rice_factor.Prelude.Table.{put-fresh_lem}
use rice_factor.Cache.{
  CacheEntry, MemoryCache, new, resized, room, evict, store, new_entry, set, Call, run,
}
use rice_factor.Cache.Valid.{IsValid, new-IsValid, run-IsValid}
use rice_factor.Cache.Order.{last_use, ByUse, Forward, end_of, run-ByUse}

module _ {V : Type 0} (compute_hash : V → String) (max : ℕ) (pos : 0 < max) where
  del_absent : (k : String) (d : Dict String (CacheEntry V)) → holds k d ≡ false → del k d ≡ d
  unfolding del holds
  del_absent k [] h = refl
  del_absent k ((j, e) ∷ d) h = ground (arith, del_absent k d)

  evict_fits : (n : ℕ) (d : Dict String (CacheEntry V)) → length d < max → evict max d n ≡ room d n
  unfolding evict
  evict_fits n [] h = ground arith
  evict_fits n (x ∷ d) h = ground arith

  evict_first :
      (n : ℕ) (x : String × CacheEntry V) (d : Dict String (CacheEntry V))
      → length (x ∷ d) ≡ max
      → evict max (x ∷ d) n ≡ room d (n + 1)
  unfolding evict
  evict_first n x d h = ground (arith, evict_fits (n + 1) d)

  making_room :
      (k : String) (c : MemoryCache V) (j : String) (w : CacheEntry V)
      (rest : Dict String (CacheEntry V))
      → IsValid max c
      → c.cache ≡ (j, w) ∷ rest
      → length ((j, w) ∷ rest) ≡ max
      → holds k ((j, w) ∷ rest) ≡ false
      → evict c.max_size (del k c.cache) 0 ≡ room rest 1
  making_room k c j w rest v cache full fresh =
      rw (v.capacity, cache, del_absent k ((j, w) ∷ rest) fresh) (evict_first 0 (j, w) rest full)

  -- If the clock never goes back, a new key that is stored in a full cache takes the place of one entry:
  -- the first, and no other was last used before it. The new entry goes to the end.
  pub set-run_full :
      (ttl : Option ℕ) (xs : List (Call V)) (k : String) (value : V) (t : Option ℕ) (now : ℕ)
      (j : String) (w : CacheEntry V) (rest : Dict String (CacheEntry V))
      → Forward 0 xs
      → (run compute_hash xs (new max ttl)).cache ≡ (j, w) ∷ rest
      → length ((j, w) ∷ rest) ≡ max
      → holds k ((j, w) ∷ rest) ≡ false
      → let c = run compute_hash xs (new max ttl) in
        ((set compute_hash k value t now c).0.cache
          ≡ rest ++ ((k, new_entry compute_hash k value t now c) ∷ []))
        × All (λ x. last_use w ≤ last_use x.1) rest
  unfolding set store resized new holds
  set-run_full ttl xs k value t now j w rest forward cache full fresh =
      let c = run compute_hash xs (new max ttl) in
      let v = run-IsValid max compute_hash pos ttl xs in
      let order =
        run-ByUse compute_hash max pos 0 xs (new max ttl) (new-IsValid max ttl) forward tt in
      let oldest : ByUse (end_of 0 xs) ((j, w) ∷ rest) =
        subst (λ d. ByUse (end_of 0 xs) d) cache order in
      let runs = making_room k c j w rest v cache full fresh in
      (
        rw (runs, store)
            (put-fresh_lem k (new_entry compute_hash k value t now c) rest (ground arith)),
        oldest.1,
      )
