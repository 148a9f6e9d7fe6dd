-- ===== src/Rate/Examples.antt =====
-- A limiter with one provider, and the theorems at it.
use rice_factor.Prelude.{
  ◌+◌, ◌-◌, ◌*◌, ◌≤◌, ◌≡◌, refl, sym, ◌∙◌, ◌≢◌, true, false, none, some, List, [], ◌∷◌, arith,
}
use rice_factor.Prelude.Eq.{text_eq}
use rice_factor.Prelude.Dict.{get, put, has}
use rice_factor.Rate.Bucket.{TokenBucket, unit, new_bucket, wait_time}
use rice_factor.Rate.Limiter.{
  RateLimitStrategy, block, reject, degrade, ProviderLimits, Limiter, Settings, tokens_per_minute,
  denied, new_limiter, set_strategy, configure, check,
}
use rice_factor.Rate.Acquire.{Reply, acquire, acquire_ends}
use rice_factor.Rate.Steps.{Limited, slots, Event, try_acquire, finish, step, running}
use rice_factor.Rate.Concurrency.{degraded_frees_slot}
use rice_factor.Rate.Sections.{
  CriticalSection, event, configures, resets, in_flight_after, reset_count, grants, renewals,
  end_time,
}
use rice_factor.Rate.InFlight.{Bounded, in_flight-le-concurrent_requests}
use rice_factor.Rate.Metered.{Rated, Metered}
use rice_factor.Rate.Throughput.{grants-le}
use rice_factor.Rate.TokenBudget.{FullBudget, run, tokens_per_minute_unspent}

-- One nanosecond before the bucket holds a second token.
abbrev half_used : TokenBucket
half_used = record { capacity = 2 * unit; tokens = unit; refill_rate = 2; last_refill = 0 }

waited : (wait_time 0 (2 * unit) half_used).0 ≡ some (record { parts = unit; rate = 2 })
unfolding wait_time
waited = refl

abbrev tight : Settings
tight = record {
  requests_per_minute = some 2;
  tokens_per_minute = some 100;
  tokens_per_day = none;
  concurrent_requests = some 1;
  enabled = true;
}

abbrev tight_limits : ProviderLimits
tight_limits = record {
  requests_per_minute = 2;
  tokens_per_minute = 100;
  tokens_per_day = 10_000_000;
  concurrent_requests = 1;
  enabled = true;
}

abbrev limiter : RateLimitStrategy → Limiter
unfolding new_limiter configure set_strategy
limiter st = set_strategy st (configure 0 "claude" tight new_limiter)

limiter-Limited : (st : RateLimitStrategy) → Limited "claude" tight_limits (limiter st)
unfolding new_limiter configure set_strategy get put
limiter-Limited st = record { known = refl; enabled = refl }

acquire_ends_example :
    (r : Reply) × ((acquire 0 (5 ∷ 10 ∷ []) "claude" 7 (some true) (some 10) (limiter block)).0
      ≡ some r)
acquire_ends_example = acquire_ends 0 (5 ∷ 10 ∷ []) "claude" 7 (some true) 10 (limiter block) refl

-- Two threads ask, the first ends, a third asks.
abbrev threads : List Event
threads =
    try_acquire false none 1 1 "claude" 60
    ∷ try_acquire false none 2 2 "claude" 60
    ∷ finish 3 "claude" 60
    ∷ try_acquire true none 4 4 "claude" 60
    ∷ []

limiter-slots : (st : RateLimitStrategy) → slots "claude" (limiter st) ≡ 0
unfolding new_limiter configure set_strategy get put has
limiter-slots st = refl

limiter-strategy : (st : RateLimitStrategy) → (limiter st).strategy ≡ st
unfolding limiter set_strategy
limiter-strategy st = refl

reject-ne-degrade : reject ≢ degrade
reject-ne-degrade e = cc

-- The same with a reset while a request is in flight, and a provider that is configured anew.
abbrev with_reset : List CriticalSection
with_reset =
    event (try_acquire false none 1 1 "claude" 60)
    ∷ resets 2 (some "claude")
    ∷ event (try_acquire false none 3 3 "claude" 60)
    ∷ configures 4 "claude" tight
    ∷ event (finish 5 "claude" 60)
    ∷ []

limiter-Bounded : Bounded "claude" 1 (limiter reject)
limiter-Bounded = record {
  limits = tight_limits;
  limited = limiter-Limited reject;
  small = omega arith;
  full_service = λ e. reject-ne-degrade (sym (limiter-strategy reject) ∙ e);
  counted = omega (arith, limiter-slots reject);
}

in_flight-le-concurrent_requests_example :
    in_flight_after "claude" with_reset (limiter reject) (slots "claude" (limiter reject))
    ≤ (reset_count "claude" with_reset + 1) * 1
in_flight-le-concurrent_requests_example =
    in_flight-le-concurrent_requests "claude" 1 with_reset (limiter reject)
      (tt, (tt, (tt, ((λ e. (refl, omega arith)), (tt, tt))))) limiter-Bounded

-- All the slots of the provider are taken.
abbrev busy : Limiter
busy = record (limiter degrade) { concurrent = ("claude", 1) ∷ [] }

busy-Limited : Limited "claude" tight_limits busy
unfolding limiter new_limiter configure set_strategy get put
busy-Limited = record { known = refl; enabled = refl }

busy-slots : slots "claude" busy ≡ 1
unfolding get
busy-slots = refl

degraded_frees_slot_example :
    let e = try_acquire false none 1 1 "claude" 60 in
    let s' = step e busy in
    (running "claude" e busy 1 ≡ 2)
    × (slots "claude" s' ≡ 1)
    × (slots "claude" (step (finish 2 "claude" 60) s') ≡ 0)
degraded_frees_slot_example =
    degraded_frees_slot "claude" tight_limits 0 1 1 2 60 60 busy busy-Limited
      (limiter-strategy degrade) refl busy-slots

abbrev request_bucket : TokenBucket
request_bucket = record { capacity = 2 * unit; tokens = 2 * unit; refill_rate = 2; last_refill = 0 }

limiter-request_bucket :
    (st : RateLimitStrategy) → get "claude" (limiter st).request_buckets ≡ some request_bucket
unfolding new_limiter configure set_strategy new_bucket get put
limiter-request_bucket st = refl

limiter-Rated : Rated "claude" 2 (limiter reject)
limiter-Rated = record {
  limits = tight_limits;
  limited = limiter-Limited reject;
  slow = omega arith;
}

limiter-Metered : Metered "claude" 2 0 request_bucket (limiter reject)
limiter-Metered = record {
  there = limiter-request_bucket reject;
  slow = omega arith;
  before = omega arith;
}

grants-le_example :
    grants "claude" with_reset (limiter reject) * unit
    ≤ request_bucket.tokens
      + (end_time 0 with_reset - request_bucket.last_refill) * 2
      + renewals "claude" with_reset * (2 * unit)
grants-le_example =
    grants-le "claude" 2 with_reset 0 request_bucket (limiter reject)
      (tt, (tt, (tt, ((λ e. (refl, omega arith)), (tt, tt))))) limiter-Rated limiter-Metered
      (omega arith, (omega arith, (omega arith, (omega arith, (omega arith, tt)))))

limiter-FullBudget : (st : RateLimitStrategy) → FullBudget "claude" tight_limits (limiter st)
unfolding new_limiter configure set_strategy new_bucket get put
limiter-FullBudget st = record {
  bucket = new_bucket 100 0;
  there = refl;
  full = refl;
  capacity = refl;
}

tokens_per_minute_unspent_example :
    (check 5 "claude" 60 (run threads (limiter reject))).0
    ≢ denied tokens_per_minute (record { parts = 20 * unit; rate = 100 })
tokens_per_minute_unspent_example =
    tokens_per_minute_unspent "claude" tight_limits threads 5 60 (limiter reject)
      (record { parts = 20 * unit; rate = 100 }) (limiter-FullBudget reject) (omega arith)
