-- ===== src/Cache/Lookups.antt =====
-- What the dictionary operations of the cache do to its size and to a lookup.
use rice_factor.Prelude.{
  ℕ, suc, ◌+◌, ◌≤◌, ◌<◌, ◌≡◌, refl, ap, inl, inr, Bool, false, none, some, List, [], ◌∷◌, String,
  length, leb, All, if◌then◌else◌, Bool-cases, arith,
}
use rice_factor.Prelude.Eq.{◌==◌, ==_iff, ==_refl, text_eq, contains}
use rice_factor.Prelude.Dict.{
  Dict, put, del, get as lookup, has as holds, IsDict, get-del, del-IsDict, has-del,
}
use rice_factor.Cache.{CacheEntry, room, evict, keys_where, del_all, move_to_end}

module _ {V : Type 0} where
  pub length-del-le : (k : String) (d : Dict String V) → length (del k d) ≤ length d
  unfolding del
  length-del-le k [] = omega arith
  length-del-le k ((j, v) ∷ d) = ground (arith, length-del-le k d)

  pub length-del :
      (k : String) (d : Dict String V) (v : V)
      → lookup k d ≡ some v
      → suc (length (del k d)) ≡ length d
  unfolding del lookup
  length-del k [] v h = cc
  length-del k ((j, w) ∷ d) v h = ground (arith, length-del k d v)

  pub length-put-le : (k : String) (v : V) (d : Dict String V) → length (put k v d) ≤ suc (length d)
  unfolding put
  length-put-le k v [] = omega arith
  length-put-le k v ((j, w) ∷ d) = ground (arith, length-put-le k v d)

  length-put :
      (k : String) (v : V) (d : Dict String V)
      → holds k d ≡ false
      → length (put k v d) ≡ suc (length d)
  unfolding put holds
  length-put k v [] h = refl
  length-put k v ((j, w) ∷ d) h = ground (arith, length-put k v d)

  -- Deletion of a key leaves the other entries.
  pub All-del :
      (P : String × V → Type 0) (k : String) (d : Dict String V) → All P d → All P (del k d)
  unfolding del
  All-del P k [] h = tt
  All-del P k ((j, w) ∷ d) h = elim (Bool-cases (j == k)) [
    | inl same ↦ rw same h.1
    | inr other ↦ rw other (h.0, All-del P k d h.1)
  ]

module _ {V : Type 0} where
  pub length-move_to_end :
      (k : String) (e f : CacheEntry V) (d : Dict String (CacheEntry V))
      → IsDict d
      → lookup k d ≡ some f
      → length (move_to_end k e d) ≡ length d
  unfolding move_to_end
  length-move_to_end k e f d h there =
      ground (arith, length-put k e (del k d), length-del k d f, has-del k k d h, ==_refl k)

  pub del_all-IsDict :
      (ks : List String) (d : Dict String (CacheEntry V)) → IsDict d → IsDict (del_all ks d)
  unfolding del_all
  del_all-IsDict [] d h = h
  del_all-IsDict (k ∷ ks) d h = del_all-IsDict ks (del k d) (del-IsDict k d h)

  pub length-del_all-le :
      (ks : List String) (d : Dict String (CacheEntry V)) → length (del_all ks d) ≤ length d
  unfolding del_all
  length-del_all-le [] d = omega arith
  length-del_all-le (k ∷ ks) d = omega (arith, length-del_all-le ks (del k d), length-del-le k d)

  pub get-del_all :
      (j : String) (ks : List String) (d : Dict String (CacheEntry V))
      → IsDict d
      → lookup j (del_all ks d) ≡ (if contains j ks then none else lookup j d)
  unfolding del_all
  get-del_all j [] d h = refl
  get-del_all j (k ∷ ks) d h =
      ground (arith, get-del_all j ks (del k d) (del-IsDict k d h), get-del k j d h, ==_iff k j)

  contains-keys_where_absent :
      (p : CacheEntry V → Bool) (j : String) (d : Dict String (CacheEntry V))
      → holds j d ≡ false
      → contains j (keys_where p d) ≡ false
  unfolding keys_where holds
  contains-keys_where_absent p j [] h = refl
  contains-keys_where_absent p j ((k, f) ∷ d) h = ground (arith, contains-keys_where_absent p j d)

  -- The keys that are listed are those whose entry fits.
  pub contains-keys_where :
      (p : CacheEntry V → Bool) (j : String) (e : CacheEntry V) (d : Dict String (CacheEntry V))
      → IsDict d
      → lookup j d ≡ some e
      → contains j (keys_where p d) ≡ p e
  unfolding keys_where lookup IsDict
  contains-keys_where p j e [] h there = cc
  contains-keys_where p j e ((k, f) ∷ d) h there = elim (Bool-cases (k == j)) [
    | inl here ↦
        let same : f ≡ e = ground arith in
        ground (arith, ap p same, contains-keys_where_absent p j d, ==_iff k j, h.0)
    | inr later ↦ ground (arith, contains-keys_where p j e d h.1)
  ]

  -- What is removed by a condition, and what stays.
  pub get-remove :
      (p : CacheEntry V → Bool) (j : String) (e : CacheEntry V) (d : Dict String (CacheEntry V))
      → IsDict d
      → lookup j (del_all (keys_where p d) d) ≡ some e
      → (lookup j d ≡ some e) × (p e ≡ false)
  get-remove p j e d h there =
      ground (arith, get-del_all j (keys_where p d) d h, contains-keys_where p j e d h)

  pub All-del_all :
      (P : String × CacheEntry V → Type 0) (ks : List String) (d : Dict String (CacheEntry V))
      → All P d
      → All P (del_all ks d)
  unfolding del_all
  All-del_all P [] d h = h
  All-del_all P (k ∷ ks) d h = All-del_all P ks (del k d) (All-del P k d h)

  -- The loop leaves a tail of the entries, with room for one more.
  pub evict-room :
      (max n : ℕ) (d : Dict String (CacheEntry V))
      → 0 < max
      → IsDict d
      → (r : Dict String (CacheEntry V)) × (m : ℕ) × (evict max d n ≡ room r m)
        × (length r < max)
        × IsDict r
        × ((P : String × CacheEntry V → Type 0) → All P d → All P r)
  unfolding evict IsDict
  evict-room max n [] pos h = ([], n, ground arith, ground arith, tt, λ P all. tt)
  evict-room max n (e ∷ d) pos h = elim (Bool-cases (leb max (length (e ∷ d)))) [
    | inr fits ↦ (e ∷ d, n, rw fits refl, ground arith, h, λ P all. all)
    | inl over ↦
        let (r, m, runs, small, once, kept) = evict-room max (n + 1) d pos h.1 in
        (r, m, rw over runs, small, once, λ P all. kept P all.1)
  ]
