-- ===== src/Cache/Examples.antt =====
-- Runs and instances.
use rice_factor.Prelude.{
  ℕ, ◌≡◌, refl, ◌⊎◌, none, some, List, [], ◌∷◌, ◌++◌, String, All, ◌≤◌, eqb, if◌then◌else◌, arith,
}
use rice_factor.Prelude.Eq.{text_eq}
use rice_factor.Prelude.Dict.{put, del, get as lookup, has as holds}
use rice_factor.Cache.{
  CacheEntry, MemoryCache, new, past, get, new_entry, set, invalidate_by_hash, get_stats, keys,
  Call, get_call, set_call, run,
}
use rice_factor.Cache.Valid.{IsValid, run-IsValid}
use rice_factor.Cache.Lifetimes.{good_until, IsGood}
use rice_factor.Cache.Fresh.{latest, get-latest}
use rice_factor.Cache.Reads.{get-set}
use rice_factor.Cache.Order.{last_use}
use rice_factor.Cache.Eviction.{set-run_full}

-- A hash of numbers.
abbrev hash : ℕ → String
hash n = if eqb n 0 then "zero" else "other"

-- `a` is used after `b` is stored, so `b` goes when `c` comes.
abbrev calls : List (Call ℕ)
calls = set_call "a" 1 (some 10) 1 ∷ set_call "b" 2 none 2 ∷ get_call "a" 3 ∷ get_call "x" 4 ∷ []

abbrev cache : MemoryCache ℕ
cache = run hash calls (new 2 none)

program : Unit {0}
unfolding run set get new get_stats keys latest past put del lookup holds invalidate_by_hash
program = tt

run_test : (keys cache ≡ "b" ∷ "a" ∷ []) × (keys (set hash "c" 3 none 5 cache).0 ≡ "a" ∷ "c" ∷ [])
unfolding program
run_test = (refl, refl)

expired_test : (get "a" 12 cache).1 ≡ none
unfolding program
expired_test = refl

-- A cache for no entry raises at every `set`.
no_room_test : (set hash "a" 1 none 1 (new 0 none)).1 ≡ none
unfolding program
no_room_test = refl

run-IsValid_example : IsValid 2 cache
run-IsValid_example = run-IsValid 2 hash (omega arith) none calls

abbrev read : CacheEntry ℕ
read = record {
  key = "a";
  value = 1;
  hash = "other";
  created_at = 1;
  expires_at = some 11;
  hit_count = 2;
  last_accessed = some 5;
}

get-latest_example :
    (latest hash none calls (λ j. none) "a" ≡ some (1, some 11)) × IsGood (some 11) 5
unfolding program
get-latest_example = get-latest hash none 2 (omega arith) calls "a" 5 read refl

get-set_example :
    let found = (get "c" 9 (set hash "c" 3 (some 4) 5 cache).0).1 in
    let until = good_until (some 4) cache.default_ttl 5 in
    IsGood until 9
      × ((w : CacheEntry ℕ) × (found ≡ some w) × (w.value ≡ 3) × (w.key ≡ "c") × (w.hit_count ≡ 1))
    ⊎ (¬ IsGood until 9) × (found ≡ none)
get-set_example = get-set hash 2 "c" 3 (some 4) 5 9 cache (omega arith) run-IsValid_example

abbrev first : CacheEntry ℕ
first = record {
  key = "b";
  value = 2;
  hash = "other";
  created_at = 2;
  expires_at = none;
  hit_count = 0;
  last_accessed = some 2;
}

abbrev second : CacheEntry ℕ
second = record read { hit_count = 1; last_accessed = some 3 }

set-run_full_example :
    ((set hash "c" 3 none 5 cache).0.cache
      ≡ (("a", second) ∷ []) ++ (("c", new_entry hash "c" 3 none 5 cache) ∷ []))
    × All {A = String × CacheEntry ℕ} (λ x. last_use first ≤ last_use x.1) (("a", second) ∷ [])
unfolding program
set-run_full_example =
    set-run_full hash 2 (omega arith) none calls "c" 3 none 5 "b" first (("a", second) ∷ [])
      (omega arith) refl refl refl
