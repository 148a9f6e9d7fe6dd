-- ===== src/Rate/Checked.antt =====
-- What `check` does to the request bucket of a provider.
use rice_factor.Prelude.{
  ℕ, ◌+◌, ◌-◌, ◌*◌, ◌≤◌, ◌≡◌, refl, String, ◌⊎◌, ◌≢◌, none, some, arith, Bool-cases, Option-cases,
  inl, inr,
}
use rice_factor.Prelude.Eq.{◌==◌, ==_iff, ==_refl, text_eq}
use rice_factor.Prelude.Dict.{get, get-put}
use rice_factor.Rate.Bucket.{TokenBucket, unit, refill, wait_time}
use rice_factor.Rate.Limiter.{
  ProviderLimits, Limiter, LimitType, requests_per_minute, allowed, check_bucket, check_requests,
  check_tokens, check_daily_reset, check_daily, check_limits, check, free_slot, release,
}
use rice_factor.Rate.Steps.{Limited}

-- The bucket at a later time: it has gained no more than its rate allows for the time that its own
-- clock has advanced. (The product with `last_refill` stands on both sides, so that stretches of time
-- add up.)
pub record Later (now : ℕ) (b b' : TokenBucket) : Type 0 where
  pub same_rate : b'.refill_rate ≡ b.refill_rate
  pub forward : b.last_refill ≤ b'.last_refill
  pub not_ahead : b'.last_refill ≤ now
  pub gained : b'.tokens + b.last_refill * b.refill_rate ≤ b.tokens + b'.last_refill * b.refill_rate

pub Later-refl : (now : ℕ) (b : TokenBucket) → b.last_refill ≤ now → Later now b b
Later-refl now b h = record {
  same_rate = refl;
  forward = omega arith;
  not_ahead = h;
  gained = omega arith;
}

pub elapsed_lem : (a b r : ℕ) → a ≤ b → (b - a) * r + a * r ≡ b * r
elapsed_lem a b r h = grind arith

pub refill-Later : (now : ℕ) (b : TokenBucket) → b.last_refill ≤ now → Later now b (refill now b)
unfolding refill
refill-Later now b h = record {
  same_rate = refl;
  forward = h;
  not_ahead = omega arith;
  gained = omega (arith, elapsed_lem b.last_refill now b.refill_rate h);
}

-- Refilled again at the same time, a bucket does not change.
pub refill_again : (now : ℕ) (b : TokenBucket) → refill now (refill now b) ≡ refill now b
unfolding refill
refill_again now b = ground arith

check_bucket-refill :
    (now amount : ℕ) (t : LimitType) (b : TokenBucket)
    → (check_bucket now amount t b).1 ≡ refill now b
unfolding check_bucket wait_time
check_bucket-refill now amount t b = ground (arith, refill_again now b)

check_bucket-passed :
    (now amount : ℕ) (t : LimitType) (b : TokenBucket)
    → (check_bucket now amount t b).0 ≡ none
    → amount ≤ (refill now b).tokens
unfolding check_bucket
check_bucket-passed now amount t b h = ground arith

check_tokens-requests :
    (now : ℕ) (q : String) (tokens : ℕ) (s : Limiter)
    → (check_tokens now q tokens s).1.request_buckets ≡ s.request_buckets
unfolding check_tokens
check_tokens-requests now q tokens s = ground arith

check_daily_reset-requests :
    (now : ℕ) (q : String) (s : Limiter)
    → (check_daily_reset now q s).request_buckets ≡ s.request_buckets
unfolding check_daily_reset
check_daily_reset-requests now q s = ground arith

check_daily-requests :
    (now : ℕ) (q : String) (tokens : ℕ) (l : ProviderLimits) (s : Limiter)
    → (check_daily now q tokens l s).1.request_buckets ≡ s.request_buckets
unfolding check_daily
check_daily-requests now q tokens l s = check_daily_reset-requests now q s

pub release-requests :
    (now : ℕ) (q : String) (used : ℕ) (s : Limiter)
    → (release now q used s).request_buckets ≡ s.request_buckets
unfolding release free_slot
release-requests now q used s = ground (arith, check_daily_reset-requests now q (free_slot q s))

-- What `check` leaves of a bucket: the bucket, or the bucket refilled.
abbrev pub Checked : ℕ → String → TokenBucket → Limiter → Type 0
Checked now p b s =
    (get p s.request_buckets ≡ some b) ⊎ (get p s.request_buckets ≡ some (refill now b))

check_requests-Checked :
    (now : ℕ) (p q : String) (b : TokenBucket) (s : Limiter)
    → get p s.request_buckets ≡ some b
    → Checked now p b (check_requests now q s).1
unfolding check_requests
check_requests-Checked now p q b s at = elim (Bool-cases (q == p)) [
  | inl same ↦
      let e = (==_iff q p).0 same in
      ground (
        arith,
        check_bucket-refill now unit requests_per_minute b,
        get-put q p (check_bucket now unit requests_per_minute b).1 s.request_buckets,
      )
  | inr other ↦ elim (Option-cases (get q s.request_buckets)) [
    | inl absent ↦ ground arith
    | inr (c, there) ↦
        ground
          (arith, get-put q p (check_bucket now unit requests_per_minute c).1 s.request_buckets)
  ]
]

check_limits-Checked :
    (now : ℕ) (p q : String) (tokens : ℕ) (l : ProviderLimits) (b : TokenBucket) (s : Limiter)
    → get p s.request_buckets ≡ some b
    → Checked now p b (check_limits now q tokens l s).1
unfolding check_limits
check_limits-Checked now p q tokens l b s at =
    let s1 = (check_requests now q s).1 in
    let s2 = (check_tokens now q tokens s1).1 in
    ground (
      arith,
      check_requests-Checked now p q b s at,
      check_tokens-requests now q tokens s1,
      check_daily-requests now q tokens l s2,
    )

pub check-Checked :
    (now : ℕ) (p q : String) (tokens : ℕ) (b : TokenBucket) (s : Limiter)
    → get p s.request_buckets ≡ some b
    → Checked now p b (check now q tokens s).1
unfolding check
check-Checked now p q tokens b s at = elim (Option-cases (get q s.limits)) [
  | inl absent ↦ rw (absent, check) (inl at)
  | inr (l, there) ↦ rw (there, check) (check_limits-Checked now p q tokens l b s at)
]

-- An allowed request has found a whole token in the refilled bucket.
check_requests-passed :
    (now : ℕ) (p : String) (b : TokenBucket) (s : Limiter)
    → get p s.request_buckets ≡ some b
    → (check_requests now p s).0 ≡ none
    → (unit ≤ (refill now b).tokens)
      × (get p (check_requests now p s).1.request_buckets ≡ some (refill now b))
unfolding check_requests
check_requests-passed now p b s at h =
    let e = check_bucket-refill now unit requests_per_minute b in
    (
      ground (arith, check_bucket-passed now unit requests_per_minute b),
      ground (
        arith,
        e,
        get-put p p (check_bucket now unit requests_per_minute b).1 s.request_buckets,
        ==_refl p,
      ),
    )

check_requests-ne-allowed :
    (now : ℕ) (p : String) (s : Limiter) → (check_requests now p s).0 ≢ some allowed
unfolding check_requests check_bucket
check_requests-ne-allowed now p s h = ground arith

check_tokens-ne-allowed :
    (now : ℕ) (p : String) (tokens : ℕ) (s : Limiter)
    → (check_tokens now p tokens s).0 ≢ some allowed
unfolding check_tokens check_bucket
check_tokens-ne-allowed now p tokens s h = ground arith

pub check-passed :
    (now : ℕ) (p : String) (tokens : ℕ) (l : ProviderLimits) (b : TokenBucket) (s : Limiter)
    → Limited p l s
    → get p s.request_buckets ≡ some b
    → (check now p tokens s).0 ≡ allowed
    → (unit ≤ (refill now b).tokens)
      × (get p (check now p tokens s).1.request_buckets ≡ some (refill now b))
unfolding check check_limits
check-passed now p tokens l b s lim at ok =
    let s1 = (check_requests now p s).1 in
    let s2 = (check_tokens now p tokens s1).1 in
    ground (
      arith,
      lim.known,
      lim.enabled,
      check_requests-passed now p b s at,
      check_tokens-requests now p tokens s1,
      check_daily-requests now p tokens l s2,
      check_requests-ne-allowed now p s,
      check_tokens-ne-allowed now p tokens s1,
    )
