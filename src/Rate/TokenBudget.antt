-- ===== src/Rate/TokenBudget.antt =====
-- The limit on tokens per minute: what becomes of its bucket, which `check` reads and refills and
-- which neither `acquire` nor `release` consumes from.
use rice_factor.Prelude.{
  ℕ, ◌*◌, ◌≤◌, ◌≡◌, refl, ap, ◌∙◌, String, Bool, true, false, ◌≢◌, Option, none, some, List, [],
  ◌∷◌, arith, ltb, Bool-cases, Option-cases, inl, inr,
}
use rice_factor.Prelude.Eq.{◌==◌, ==_iff, text_eq}
use rice_factor.Prelude.Dict.{get, get-put}
use rice_factor.Rate.Bucket.{TokenBucket, Wait, unit, refill, wait_time}
use rice_factor.Rate.Limiter.{
  ProviderLimits, Limiter, LimitType, tokens_per_minute, Verdict, allowed, denied, zero_division,
  check_bucket, check_requests, check_tokens, check_daily_reset, check_daily, check_limits, check,
  free_slot, release,
}
use rice_factor.Rate.Acquire.{after_check, acquire_round, take_slot}
use rice_factor.Rate.Steps.{Event, try_acquire, finish, peek, step}

-- The bucket of `p` for tokens per minute is full.
pub record FullBudget (p : String) (l : ProviderLimits) (s : Limiter) : Type 0 where
  pub bucket : TokenBucket
  pub there : get p s.token_buckets ≡ some bucket
  pub full : bucket.tokens ≡ l.tokens_per_minute * unit
  pub capacity : bucket.capacity ≡ l.tokens_per_minute * unit

move-FullBudget :
    (p : String) (l : ProviderLimits) (s t : Limiter)
    → get p t.token_buckets ≡ get p s.token_buckets
    → FullBudget p l s
    → FullBudget p l t
move-FullBudget p l s t same h = record {
  bucket = h.bucket;
  there = same ∙ h.there;
  full = h.full;
  capacity = h.capacity;
}

check_bucket-full :
    (now amount m : ℕ) (t : LimitType) (b : TokenBucket)
    → b.tokens ≡ m
    → b.capacity ≡ m
    → ((check_bucket now amount t b).1.tokens ≡ m)
      × ((check_bucket now amount t b).1.capacity ≡ m)
      × (amount ≤ m → (check_bucket now amount t b).0 ≡ none)
unfolding check_bucket wait_time refill
check_bucket-full now amount m t b full capacity = ground arith

check_requests-tokens :
    (now : ℕ) (q : String) (s : Limiter)
    → (check_requests now q s).1.token_buckets ≡ s.token_buckets
unfolding check_requests
check_requests-tokens now q s = ground arith

check_daily_reset-tokens :
    (now : ℕ) (q : String) (s : Limiter)
    → (check_daily_reset now q s).token_buckets ≡ s.token_buckets
unfolding check_daily_reset
check_daily_reset-tokens now q s = ground arith

check_daily-tokens :
    (now : ℕ) (q : String) (tokens : ℕ) (l : ProviderLimits) (s : Limiter)
    → (check_daily now q tokens l s).1.token_buckets ≡ s.token_buckets
unfolding check_daily
check_daily-tokens now q tokens l s = check_daily_reset-tokens now q s

release-tokens :
    (now : ℕ) (q : String) (used : ℕ) (s : Limiter)
    → (release now q used s).token_buckets ≡ s.token_buckets
unfolding release free_slot
release-tokens now q used s = ground (arith, check_daily_reset-tokens now q (free_slot q s))

after_check-tokens :
    (c : Bool) (limit : Option ℕ) (start now : ℕ) (q : String) (v : Verdict) (s : Limiter)
    → (after_check c limit start now q v s).1.token_buckets ≡ s.token_buckets
unfolding after_check take_slot
after_check-tokens c limit start now q allowed s = refl
after_check-tokens c limit start now q zero_division s = refl
after_check-tokens false limit start now q (denied t w) s = refl
after_check-tokens true limit start now q (denied t w) s = refl

check_tokens-FullBudget :
    (now : ℕ) (p q : String) (tokens : ℕ) (l : ProviderLimits) (s : Limiter)
    → FullBudget p l s
    → FullBudget p l (check_tokens now q tokens s).1
unfolding check_tokens
check_tokens-FullBudget now p q tokens l s h = elim (Bool-cases (ltb 0 tokens)) [
  | inr none_asked ↦ move-FullBudget p l s (check_tokens now q tokens s).1 (ground arith) h
  | inl asked ↦ elim (Bool-cases (q == p)) [
    | inl same ↦
        let here = (==_iff q p).0 same in
        let c = check_bucket now (tokens * unit) tokens_per_minute h.bucket in
        let stays =
          check_bucket-full now (tokens * unit) (l.tokens_per_minute * unit) tokens_per_minute
            h.bucket h.full h.capacity in
        record {
          bucket = c.1;
          there = ground (arith, h.there, here, get-put q p c.1 s.token_buckets);
          full = stays.0;
          capacity = stays.1;
        }
    | inr other ↦
        move-FullBudget p l s (check_tokens now q tokens s).1
          (elim (Option-cases (get q s.token_buckets)) [
            | inl absent ↦ ground arith
            | inr (c, found) ↦ ground (
              arith,
              get-put q p (check_bucket now (tokens * unit) tokens_per_minute c).1 s.token_buckets,
            )
          ])
          h
  ]
]

check_limits-FullBudget :
    (now : ℕ) (p q : String) (tokens : ℕ) (k l : ProviderLimits) (s : Limiter)
    → FullBudget p l s
    → FullBudget p l (check_limits now q tokens k s).1
unfolding check_limits
check_limits-FullBudget now p q tokens k l s h =
    let s1 = (check_requests now q s).1 in
    let s2 = (check_tokens now q tokens s1).1 in
    let s3 = (check_daily now q tokens k s2).1 in
    let h1 = move-FullBudget p l s s1 (ap (get p) (check_requests-tokens now q s)) h in
    let h2 = check_tokens-FullBudget now p q tokens l s1 h1 in
    let h3 = move-FullBudget p l s2 s3 (ap (get p) (check_daily-tokens now q tokens k s2)) h2 in
    ground (arith, h, h1, h2, h3)

check-FullBudget :
    (now : ℕ) (p q : String) (tokens : ℕ) (l : ProviderLimits) (s : Limiter)
    → FullBudget p l s
    → FullBudget p l (check now q tokens s).1
unfolding check
check-FullBudget now p q tokens l s h = elim (Option-cases (get q s.limits)) [
  | inl absent ↦ rw (absent, check) h
  | inr (k, there) ↦ rw (there, check) (check_limits-FullBudget now p q tokens k l s h)
]

step-FullBudget :
    (p : String) (l : ProviderLimits) (e : Event) (s : Limiter)
    → FullBudget p l s
    → FullBudget p l (step e s)
unfolding step acquire_round
step-FullBudget p l (try_acquire b limit start now q tokens) s h =
    let c = check now q tokens s in
    move-FullBudget p l c.1 (after_check b limit start now q c.0 c.1).1
      (ap (get p) (after_check-tokens b limit start now q c.0 c.1))
      (check-FullBudget now p q tokens l s h)
step-FullBudget p l (finish now q used) s h =
    move-FullBudget p l s (release now q used s) (ap (get p) (release-tokens now q used s)) h
step-FullBudget p l (peek now q tokens) s h = check-FullBudget now p q tokens l s h

unfoldable pub run : List Event → Limiter → Limiter
run [] s = s
run (e ∷ es) s = run es (step e s)

check_tokens-passes :
    (now : ℕ) (p : String) (tokens : ℕ) (l : ProviderLimits) (s : Limiter)
    → FullBudget p l s
    → tokens ≤ l.tokens_per_minute
    → (check_tokens now p tokens s).0 ≡ none
unfolding check_tokens
check_tokens-passes now p tokens l s h le =
    let stays =
      check_bucket-full now (tokens * unit) (l.tokens_per_minute * unit) tokens_per_minute h.bucket
        h.full h.capacity in
    ground (arith, h.there, stays, le)

check_requests-ne-tokens :
    (now : ℕ) (p : String) (s : Limiter) (w : Wait)
    → (check_requests now p s).0 ≢ some (denied tokens_per_minute w)
unfolding check_requests check_bucket
check_requests-ne-tokens now p s w h = ground arith

check_passes :
    (now : ℕ) (p : String) (tokens : ℕ) (l : ProviderLimits) (s : Limiter) (w : Wait)
    → FullBudget p l s
    → tokens ≤ l.tokens_per_minute
    → (check now p tokens s).0 ≢ denied tokens_per_minute w
unfolding check check_limits check_daily
check_passes now p tokens l s w h le denies =
    let s1 = (check_requests now p s).1 in
    let h1 = move-FullBudget p l s s1 (ap (get p) (check_requests-tokens now p s)) h in
    ground (arith, check_tokens-passes now p tokens l s1 h1 le, check_requests-ne-tokens now p s w)

-- The limit on tokens per minute bounds each request and not their sum: from a state where the
-- provider's bucket for tokens is full, as `configure` makes it, after any interleaving of the
-- critical sections of `acquire`, `release` and `check` a request for at most `tokens_per_minute` tokens
-- is not denied for that limit.
pub tokens_per_minute_unspent :
    (p : String) (l : ProviderLimits) (es : List Event) (now tokens : ℕ) (s : Limiter) (w : Wait)
    → FullBudget p l s
    → tokens ≤ l.tokens_per_minute
    → (check now p tokens (run es s)).0 ≢ denied tokens_per_minute w
unfolding run
tokens_per_minute_unspent p l [] now tokens s w h le = check_passes now p tokens l s w h le
tokens_per_minute_unspent p l (e ∷ es) now tokens s w h le =
    tokens_per_minute_unspent p l es now tokens (step e s) w (step-FullBudget p l e s h) le
