-- ===== src/Cache.antt =====
-- `MemoryCache`: a bounded cache of artifacts in order of use, with times to live
-- (rice_factor/adapters/cache/artifact_cache.py). Each method reads the clock once.
use rice_factor.Prelude.{
  ℕ, zero, suc, ◌+◌, ◌≡◌, Bool, true, false, Option, none, some, List, [], ◌∷◌, String, length, ltb,
  leb, if◌then◌else◌,
}
use rice_factor.Prelude.Eq.{◌==◌, text_eq}
use rice_factor.Prelude.Dict.{Dict, put, del, get as lookup, has as holds, keys as names}
mod Lookups
pub mod Lifetimes
pub mod Valid
pub mod Fresh
pub mod Reads
pub mod Order
pub mod Eviction
mod Examples

pub record CacheEntry (V : Type 0) : Type 0 where
  pub key : String
  pub value : V
  pub hash : String
  pub created_at : ℕ
  pub expires_at : Option ℕ
  pub hit_count : ℕ
  pub last_accessed : Option ℕ

pub record CacheStats : Type 0 where
  pub hits : ℕ
  pub misses : ℕ
  pub evictions : ℕ
  pub size : ℕ
  pub max_size : ℕ

-- The ordered dictionary holds the entry that was used last at its end.
pub record MemoryCache (V : Type 0) : Type 0 where
  pub max_size : ℕ
  pub default_ttl : Option ℕ
  pub cache : Dict String (CacheEntry V)
  pub stats : CacheStats

-- `datetime.now(UTC) > expires_at`, where it is not `None`
unfoldable pub past : Option ℕ → ℕ → Bool
past none now = false
past (some at) now = ltb at now

module _ {V : Type 0} where
  -- `__post_init__`
  unfoldable pub new : ℕ → Option ℕ → MemoryCache V
  new max_size default_ttl = record {
    max_size = max_size;
    default_ttl = default_ttl;
    cache = [];
    stats = record { hits = 0; misses = 0; evictions = 0; size = 0; max_size = max_size };
  }

  unfoldable pub is_expired : CacheEntry V → ℕ → Bool
  unfolding past
  is_expired e now = past e.expires_at now

  -- `move_to_end`, of an entry that changes with it
  unfoldable pub move_to_end :
      String → CacheEntry V → Dict String (CacheEntry V) → Dict String (CacheEntry V)
  move_to_end k e d = put k e (del k d)

  -- `self._stats.size = len(self._cache)`
  unfoldable pub resized : Dict String (CacheEntry V) → MemoryCache V → MemoryCache V
  resized d c = record c { cache = d; stats = record c.stats { size = length d } }

  unfoldable pub missed : MemoryCache V → MemoryCache V
  missed c = record c { stats = record c.stats { misses = c.stats.misses + 1 } }

  unfoldable pub used : CacheEntry V → ℕ → CacheEntry V
  used e now = record e { hit_count = e.hit_count + 1; last_accessed = some now }

  unfoldable pub hit : String → CacheEntry V → ℕ → MemoryCache V → MemoryCache V
  unfolding used move_to_end
  hit k e now c = record c {
    cache = move_to_end k (used e now) c.cache;
    stats = record c.stats { hits = c.stats.hits + 1 };
  }

  -- `get`, at the reading `now` of the clock
  unfoldable pub get : String → ℕ → MemoryCache V → MemoryCache V × Option (CacheEntry V)
  unfolding missed hit resized is_expired
  get k now c = elim (lookup k c.cache) [
    | none ↦ (missed c, none)
    | some e ↦
        if is_expired e now
        then (missed (resized (del k c.cache) c), none)
        else (hit k e now c, some (used e now))
  ]

-- The room that `while len(self._cache) >= self.max_size` makes, with the number of entries that went;
-- `popitem` of an empty dictionary raises.
pub data Room (V : Type 0) : Type 0 where
  room : Dict String (CacheEntry V) → ℕ → Room V
  key_error : ℕ → Room V

-- `now + timedelta(seconds=ttl)`, with the default time to live if none is given
unfoldable pub expiry : Option ℕ → Option ℕ → ℕ → Option ℕ
expiry (some ttl) default now = some (now + ttl)
expiry none (some ttl) now = some (now + ttl)
expiry none none now = none

module _ {V : Type 0} where
  unfoldable pub evict : ℕ → Dict String (CacheEntry V) → ℕ → Room V
  evict max [] n = if leb max 0 then key_error n else room [] n
  evict max (e ∷ d) n = if leb max (length (e ∷ d)) then evict max d (n + 1) else room (e ∷ d) n

  unfoldable pub evicted : ℕ → MemoryCache V → MemoryCache V
  evicted n c = record c { stats = record c.stats { evictions = c.stats.evictions + n } }

  -- The entry goes to the end of what is left. Where `popitem` raised, all entries are gone.
  unfoldable pub store :
      String → CacheEntry V → MemoryCache V → Room V → MemoryCache V × Option (CacheEntry V)
  unfolding evicted resized
  store k e c (room d n) = (resized (put k e d) (evicted n c), some e)
  store k e c (key_error n) = (record (evicted n c) { cache = [] }, none)

  module _ (compute_hash : V → String) where
    unfoldable pub new_entry : String → V → Option ℕ → ℕ → MemoryCache V → CacheEntry V
    unfolding expiry
    new_entry k value ttl now c = record {
      key = k;
      value = value;
      hash = compute_hash value;
      created_at = now;
      expires_at = expiry ttl c.default_ttl now;
      hit_count = 0;
      last_accessed = some now;
    }

    -- `set`; no entry is returned where it raises
    unfoldable pub set :
        String → V → Option ℕ → ℕ → MemoryCache V → MemoryCache V × Option (CacheEntry V)
    unfolding store evict new_entry
    set k value ttl now c =
        store k (new_entry k value ttl now c) c (evict c.max_size (del k c.cache) 0)

  unfoldable pub delete : String → MemoryCache V → MemoryCache V × Bool
  unfolding resized
  delete k c = if holds k c.cache then (resized (del k c.cache) c, true) else (c, false)

  unfoldable pub clear : MemoryCache V → MemoryCache V × ℕ
  unfolding resized
  clear c = (resized [] c, length c.cache)

  -- `[key for key, entry in self._cache.items() if ...]`
  unfoldable pub keys_where : (CacheEntry V → Bool) → Dict String (CacheEntry V) → List String
  keys_where p [] = []
  keys_where p ((k, e) ∷ d) = if p e then k ∷ keys_where p d else keys_where p d

  -- `for key in ...: del self._cache[key]`
  unfoldable pub del_all : List String → Dict String (CacheEntry V) → Dict String (CacheEntry V)
  del_all [] d = d
  del_all (k ∷ ks) d = del_all ks (del k d)

  unfoldable pub remove_where : (CacheEntry V → Bool) → MemoryCache V → MemoryCache V × ℕ
  unfolding keys_where del_all resized
  remove_where p c = let ks = keys_where p c.cache in (resized (del_all ks c.cache) c, length ks)

  unfoldable pub invalidate_by_hash : String → MemoryCache V → MemoryCache V × ℕ
  unfolding remove_where
  invalidate_by_hash h c = remove_where (λ e. e.hash == h) c

  unfoldable pub cleanup_expired : ℕ → MemoryCache V → MemoryCache V × ℕ
  unfolding remove_where is_expired
  cleanup_expired now c = remove_where (λ e. is_expired e now) c

  unfoldable pub get_stats : MemoryCache V → CacheStats
  get_stats c = record c.stats { size = length c.cache; max_size = c.max_size }

  unfoldable pub keys : MemoryCache V → List String
  keys c = names c.cache

  -- Where the entry is expired, it goes, and nothing is counted.
  unfoldable pub has : String → ℕ → MemoryCache V → MemoryCache V × Bool
  unfolding resized is_expired
  has k now c = elim (lookup k c.cache) [
    | none ↦ (c, false)
    | some e ↦ if is_expired e now then (resized (del k c.cache) c, false) else (c, true)
  ]

-- The calls of the methods, with the reading of the clock where they take one.
pub data Call (V : Type 0) : Type 0 where
  get_call : String → ℕ → Call V
  set_call : String → V → Option ℕ → ℕ → Call V
  delete_call : String → Call V
  clear_call : Call V
  invalidate_call : String → Call V
  cleanup_call : ℕ → Call V
  has_call : String → ℕ → Call V

module _ {V : Type 0} (compute_hash : V → String) where
  unfoldable pub call : Call V → MemoryCache V → MemoryCache V
  unfolding get set delete clear invalidate_by_hash cleanup_expired has
  call (get_call k now) c = (get k now c).0
  call (set_call k value ttl now) c = (set compute_hash k value ttl now c).0
  call (delete_call k) c = (delete k c).0
  call clear_call c = (clear c).0
  call (invalidate_call h) c = (invalidate_by_hash h c).0
  call (cleanup_call now) c = (cleanup_expired now c).0
  call (has_call k now) c = (has k now c).0

  unfoldable pub run : List (Call V) → MemoryCache V → MemoryCache V
  unfolding call
  run [] c = c
  run (x ∷ xs) c = run xs (call x c)
