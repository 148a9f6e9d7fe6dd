-- ===== src/Rate/Bucket.antt =====
-- rice_factor/domain/services/rate_limiter.py: `TokenBucket`. The clock is read in nanoseconds.
-- Amounts are counted in parts of a token, `unit` parts to a token, so that a bucket with a whole
-- number of tokens per minute gains a whole number of parts in each nanosecond: the sums are exact
-- where the code's floats are rounded.
use rice_factor.Prelude.{
  ℕ, ◌+◌, ◌-◌, ◌*◌, ◌≤◌, min, ◌≡◌, ◌↔◌, Bool, true, false, Option, none, some, arith, leb, eqb,
  if◌then◌else◌,
}

-- 60 seconds of 10^9 nanoseconds
abbrev pub unit : ℕ
unit = 60_000_000_000

pub record TokenBucket : Type 0 where
  pub capacity : ℕ  -- parts
  pub tokens : ℕ  -- parts
  pub refill_rate : ℕ  -- tokens per minute, which is parts per nanosecond
  pub last_refill : ℕ

-- `TokenBucket(capacity=..., refill_rate=...)`: `__post_init__` fills the new bucket
unfoldable pub new_bucket : ℕ → ℕ → TokenBucket
new_bucket per_minute now = record {
  capacity = per_minute * unit;
  tokens = per_minute * unit;
  refill_rate = per_minute;
  last_refill = now;
}

unfoldable pub refill : ℕ → TokenBucket → TokenBucket
refill now b = record b {
  tokens = min b.capacity (b.tokens + (now - b.last_refill) * b.refill_rate);
  last_refill = now;
}

unfoldable pub consume : ℕ → ℕ → TokenBucket → Bool × TokenBucket
unfolding refill
consume now amount b =
    let b' = refill now b in
    if leb amount b'.tokens then (true, record b' { tokens = b'.tokens - amount }) else (false, b')

-- A time to wait of `parts / rate` nanoseconds.
pub record Wait : Type 0 where
  pub parts : ℕ
  pub rate : ℕ

-- `wait_time`; `none` is the division by a refill rate of zero
unfoldable pub wait_time : ℕ → ℕ → TokenBucket → Option Wait × TokenBucket
unfolding refill
wait_time now amount b =
    let b' = refill now b in
    if leb amount b'.tokens
    then (some (record { parts = 0; rate = 1 }), b')
    else if eqb b'.refill_rate 0
    then (none, b')
    else (some (record { parts = amount - b'.tokens; rate = b'.refill_rate }), b')

unfoldable pub available : ℕ → TokenBucket → ℕ × TokenBucket
unfolding refill
available now b = let b' = refill now b in (b'.tokens, b')

abbrev pub WithinCapacity : TokenBucket → Type 0
WithinCapacity b = b.tokens ≤ b.capacity

-- Tokens are never made up and never go above the capacity: what a call of `consume` leaves,
-- with what it took, is at most what was there and what the elapsed time adds.
pub consume_conserves :
    (now amount : ℕ) (b : TokenBucket)
    → let (taken, b') = consume now amount b in
      WithinCapacity b'
      × (b'.tokens + (if taken then amount else 0)
          ≤ b.tokens + (now - b.last_refill) * b.refill_rate)
unfolding consume
consume_conserves now amount b = ground arith

-- `wait_time` is exact: if it asks to wait for `parts / rate` nanoseconds, then `consume` of the
-- same amount, at most the capacity, after any further time succeeds exactly when that much time
-- has passed.
pub consume-wait_time_iff :
    (now amount later : ℕ) (b : TokenBucket) (w : Wait)
    → amount ≤ b.capacity
    → now ≤ later
    → (wait_time now amount b).0 ≡ some w
    → ((consume later amount (wait_time now amount b).1).0 ≡ true)
      ↔ (w.parts ≤ (later - now) * w.rate)
unfolding consume wait_time
consume-wait_time_iff now amount later b w fits after asked = ground arith
