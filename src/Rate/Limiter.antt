-- ===== src/Rate/Limiter.antt =====
-- rice_factor/domain/services/rate_limiter.py: the state of `RateLimiter`, `configure`, `check`,
-- `release` and `reset`. Limits and token counts are whole numbers. One reading of the clock, `now`,
-- serves a whole critical section. The `remaining` field of a result is left out.
use rice_factor.Prelude.{
  ℕ, ◌+◌, ◌-◌, ◌*◌, String, Bool, not, Option, none, some, List, [], ◌∷◌, ltb, leb, if◌then◌else◌,
}
use rice_factor.Prelude.Eq.{text_eq}
use rice_factor.Prelude.Dict.{Dict, keys, get, has, put}
use rice_factor.Rate.Bucket.{TokenBucket, Wait, unit, new_bucket, refill, wait_time}

pub data RateLimitStrategy : Type 0 where
  block reject degrade : RateLimitStrategy

pub record ProviderLimits : Type 0 where
  pub requests_per_minute : ℕ
  pub tokens_per_minute : ℕ
  pub tokens_per_day : ℕ
  pub concurrent_requests : ℕ
  pub enabled : Bool

pub record Limiter : Type 0 where
  pub limits : Dict String ProviderLimits
  pub request_buckets : Dict String TokenBucket
  pub token_buckets : Dict String TokenBucket
  pub daily_tokens : Dict String ℕ
  pub daily_reset : Dict String ℕ
  pub concurrent : Dict String ℕ
  pub strategy : RateLimitStrategy

pub data LimitType : Type 0 where
  requests_per_minute tokens_per_minute tokens_per_day concurrent_requests timeout : LimitType

-- `RateLimitResult` of `check`, or the ZeroDivisionError of `wait_time`
pub data Verdict : Type 0 where
  allowed : Verdict
  denied : LimitType → Wait → Verdict
  zero_division : Verdict

abbrev pub or_else {ℓ} : {A : Type ℓ} → Option A → A → A
or_else none d = d
or_else (some a) d = a

-- 86400 seconds
abbrev pub day : ℕ
day = 86_400_000_000_000

abbrev pub no_wait : Wait
no_wait = record { parts = 0; rate = 1 }

unfoldable pub new_limiter : Limiter
new_limiter = record {
  limits = [];
  request_buckets = [];
  token_buckets = [];
  daily_tokens = [];
  daily_reset = [];
  concurrent = [];
  strategy = block;
}

unfoldable pub set_strategy : RateLimitStrategy → Limiter → Limiter
set_strategy st s = record s { strategy = st }

-- The arguments of `configure`, `none` for those that are not given.
pub record Settings : Type 0 where
  pub requests_per_minute : Option ℕ
  pub tokens_per_minute : Option ℕ
  pub tokens_per_day : Option ℕ
  pub concurrent_requests : Option ℕ
  pub enabled : Bool

-- A limit that is not given is the existing one, or the default.
abbrev pub existing_or : (ProviderLimits → ℕ) → ℕ → Option ProviderLimits → ℕ
existing_or field default none = default
existing_or field default (some l) = field l

unfoldable pub new_limits : Option ProviderLimits → Settings → ProviderLimits
new_limits old c = record {
  requests_per_minute =
      or_else c.requests_per_minute (existing_or (λ l. l.requests_per_minute) 60 old);
  tokens_per_minute =
      or_else c.tokens_per_minute (existing_or (λ l. l.tokens_per_minute) 100_000 old);
  tokens_per_day = or_else c.tokens_per_day (existing_or (λ l. l.tokens_per_day) 10_000_000 old);
  concurrent_requests =
      or_else c.concurrent_requests (existing_or (λ l. l.concurrent_requests) 10 old);
  enabled = c.enabled;
}

unfoldable pub configure : ℕ → String → Settings → Limiter → Limiter
unfolding new_limits new_bucket
configure now p c s =
    let l = new_limits (get p s.limits) c in
    let known = has p s.daily_tokens in
    record s {
      limits = put p l s.limits;
      request_buckets = put p (new_bucket l.requests_per_minute now) s.request_buckets;
      token_buckets = put p (new_bucket l.tokens_per_minute now) s.token_buckets;
      daily_tokens = if known then s.daily_tokens else put p 0 s.daily_tokens;
      daily_reset = if known then s.daily_reset else put p (now + day) s.daily_reset;
      concurrent = if has p s.concurrent then s.concurrent else put p 0 s.concurrent;
    }

unfoldable pub check_daily_reset : ℕ → String → Limiter → Limiter
check_daily_reset now p s =
    if leb (or_else (get p s.daily_reset) 0) now
    then record s {
      daily_tokens = put p 0 s.daily_tokens;
      daily_reset = put p (now + day) s.daily_reset;
    }
    else s

abbrev pub deny : LimitType → Option Wait → Verdict
deny t none = zero_division
deny t (some w) = denied t w

-- A stage of `check` that returns early gives the verdict.
abbrev pub and_then : Option Verdict × Limiter → (Limiter → Verdict × Limiter) → Verdict × Limiter
and_then r f = elim r.0 [ none ↦ f r.1 | some v ↦ (v, r.1) ]

-- The bucket is refilled and must hold `amount` parts.
unfoldable pub check_bucket : ℕ → ℕ → LimitType → TokenBucket → Option Verdict × TokenBucket
unfolding refill wait_time
check_bucket now amount t b =
    let b' = refill now b in
    if ltb b'.tokens amount
    then (let (w, b'') = wait_time now amount b' in (some (deny t w), b''))
    else (none, b')

unfoldable pub check_requests : ℕ → String → Limiter → Option Verdict × Limiter
check_requests now p s = elim (get p s.request_buckets) [
  | none ↦ (none, s)
  | some b ↦
      let (v, b') = check_bucket now unit requests_per_minute b in
      (v, record s { request_buckets = put p b' s.request_buckets })
]

unfoldable pub check_tokens : ℕ → String → ℕ → Limiter → Option Verdict × Limiter
check_tokens now p tokens s =
    if not (ltb 0 tokens) then (none, s) else elim (get p s.token_buckets) [
      | none ↦ (none, s)
      | some b ↦
          let (v, b') = check_bucket now (tokens * unit) tokens_per_minute b in
          (v, record s { token_buckets = put p b' s.token_buckets })
    ]

unfoldable pub check_daily : ℕ → String → ℕ → ProviderLimits → Limiter → Verdict × Limiter
unfolding check_daily_reset
check_daily now p tokens l s =
    let s' = check_daily_reset now p s in
    (
      if ltb l.tokens_per_day (or_else (get p s'.daily_tokens) 0 + tokens)
          then denied tokens_per_day no_wait
          else allowed,
      s',
    )

unfoldable pub check_limits : ℕ → String → ℕ → ProviderLimits → Limiter → Verdict × Limiter
check_limits now p tokens l s =
    if not l.enabled
    then (allowed, s)
    else if leb l.concurrent_requests (or_else (get p s.concurrent) 0)
    then (denied concurrent_requests no_wait, s)
    else and_then (check_requests now p s)
        (λ s'. and_then (check_tokens now p tokens s') (check_daily now p tokens l))

unfoldable pub check : ℕ → String → ℕ → Limiter → Verdict × Limiter
check now p tokens s = elim (get p s.limits) [
  | none ↦ (allowed, s)
  | some l ↦ check_limits now p tokens l s
]

-- `self._concurrent[provider] = max(0, self._concurrent[provider] - 1)`
unfoldable pub free_slot : String → Limiter → Limiter
free_slot p s = elim (get p s.concurrent) [
  | none ↦ s
  | some n ↦ record s { concurrent = put p (n - 1) s.concurrent }
]

unfoldable pub release : ℕ → String → ℕ → Limiter → Limiter
unfolding free_slot check_daily_reset
release now p tokens_used s =
    let s' = free_slot p s in
    if ltb 0 tokens_used
    then (let s'' = check_daily_reset now p s' in
        record s'' {
          daily_tokens = put p (or_else (get p s''.daily_tokens) 0 + tokens_used) s''.daily_tokens;
        })
    else s'

-- `_reset_provider`
unfoldable pub reset_buckets : ℕ → String → Limiter → Limiter
unfolding new_bucket
reset_buckets now p s = elim (get p s.limits) [
  | none ↦ s
  | some l ↦ record s {
    request_buckets = put p (new_bucket l.requests_per_minute now) s.request_buckets;
    token_buckets = put p (new_bucket l.tokens_per_minute now) s.token_buckets;
  }
]

unfoldable pub reset_provider : ℕ → String → Limiter → Limiter
unfolding reset_buckets
reset_provider now p s =
    let s' = reset_buckets now p s in
    record s' {
      daily_tokens = put p 0 s'.daily_tokens;
      daily_reset = put p (now + day) s'.daily_reset;
      concurrent = put p 0 s'.concurrent;
    }

unfoldable pub reset_each : ℕ → List String → Limiter → Limiter
unfolding reset_provider
reset_each now [] s = s
reset_each now (p ∷ ps) s = reset_each now ps (reset_provider now p s)

unfoldable pub reset : ℕ → Option String → Limiter → Limiter
unfolding reset_each
reset now none s = reset_each now (keys s.limits) s
reset now (some p) s = if has p s.limits then reset_provider now p s else s
