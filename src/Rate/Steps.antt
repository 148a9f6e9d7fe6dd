-- ===== src/Rate/Steps.antt =====
-- Critical sections of the limiter as steps, and what each does to the slots of a provider: each
-- section of `acquire`, `release` and `check` is one step, so that a list of steps is an interleaving
-- of any number of threads.
use rice_factor.Prelude.{
  ℕ, ◌+◌, ◌-◌, ◌<◌, ◌≡◌, refl, ◌≢◌, String, Bool, true, false, ◌&&◌, Option, none, some, arith,
  if◌then◌else◌, Option-cases, inl, inr,
}
use rice_factor.Prelude.Eq.{◌==◌, ==_iff, text_eq}
use rice_factor.Prelude.Dict.{get, get-put}
use rice_factor.Rate.Limiter.{
  degrade, ProviderLimits, Limiter, Verdict, allowed, denied, zero_division, or_else,
  check_requests, check_tokens, check_daily_reset, check_daily, check_limits, check, free_slot,
  release,
}
use rice_factor.Rate.Acquire.{
  Reply, granted, degraded, take_slot, reply_denied, after_check, acquire_round,
}

-- The parts of the state that `check` leaves alone.
pub record SameSlots (s t : Limiter) : Type 0 where
  pub limits : t.limits ≡ s.limits
  pub concurrent : t.concurrent ≡ s.concurrent
  pub strategy : t.strategy ≡ s.strategy

check_requests-SameSlots :
    (now : ℕ) (p : String) (s : Limiter) → SameSlots s (check_requests now p s).1
unfolding check_requests
check_requests-SameSlots now p s = ground arith

check_tokens-SameSlots :
    (now : ℕ) (p : String) (tokens : ℕ) (s : Limiter) → SameSlots s (check_tokens now p tokens s).1
unfolding check_tokens
check_tokens-SameSlots now p tokens s = ground arith

pub check_daily_reset-SameSlots :
    (now : ℕ) (p : String) (s : Limiter) → SameSlots s (check_daily_reset now p s)
unfolding check_daily_reset
check_daily_reset-SameSlots now p s = ground arith

check_daily-SameSlots :
    (now : ℕ) (p : String) (tokens : ℕ) (l : ProviderLimits) (s : Limiter)
    → SameSlots s (check_daily now p tokens l s).1
unfolding check_daily
check_daily-SameSlots now p tokens l s = check_daily_reset-SameSlots now p s

check_limits-SameSlots :
    (now : ℕ) (p : String) (tokens : ℕ) (l : ProviderLimits) (s : Limiter)
    → SameSlots s (check_limits now p tokens l s).1
unfolding check_limits
check_limits-SameSlots now p tokens l s =
    let s1 = (check_requests now p s).1 in
    let s2 = (check_tokens now p tokens s1).1 in
    ground (
      arith,
      check_requests-SameSlots now p s,
      check_tokens-SameSlots now p tokens s1,
      check_daily-SameSlots now p tokens l s2,
    )

pub check-SameSlots :
    (now : ℕ) (p : String) (tokens : ℕ) (s : Limiter) → SameSlots s (check now p tokens s).1
unfolding check
check-SameSlots now p tokens s = elim (Option-cases (get p s.limits)) [
  | inl absent ↦ rw (absent, check) (record { limits = refl; concurrent = refl; strategy = refl })
  | inr (l, there) ↦ rw (there, check) (check_limits-SameSlots now p tokens l s)
]

abbrev pub slots : String → Limiter → ℕ
slots p s = or_else (get p s.concurrent) 0

-- The limits of a provider that is configured and enabled.
pub record Limited (p : String) (l : ProviderLimits) (s : Limiter) : Type 0 where
  pub known : get p s.limits ≡ some l
  pub enabled : l.enabled ≡ true

pub check-allowed_slots :
    (now : ℕ) (p : String) (tokens : ℕ) (l : ProviderLimits) (s : Limiter)
    → Limited p l s
    → (check now p tokens s).0 ≡ allowed
    → slots p s < l.concurrent_requests
unfolding check check_limits
check-allowed_slots now p tokens l s lim ok = ground (arith, lim.known, lim.enabled)

-- One critical section of a thread, in `acquire`, `release` or `check`.
pub data Event : Type 0 where
  try_acquire : Bool → Option ℕ → ℕ → ℕ → String → ℕ → Event
  finish : ℕ → String → ℕ → Event
  peek : ℕ → String → ℕ → Event

unfoldable pub reply_of : Event → Limiter → Option Reply
reply_of (try_acquire b limit start now p tokens) s = (acquire_round b limit start now p tokens s).0
reply_of (finish now p used) s = none
reply_of (peek now p tokens) s = none

unfoldable pub step : Event → Limiter → Limiter
step (try_acquire b limit start now p tokens) s = (acquire_round b limit start now p tokens s).1
step (finish now p used) s = release now p used s
step (peek now p tokens) s = (check now p tokens s).1

abbrev pub lets_through : Option Reply → Bool
lets_through (some granted) = true
lets_through (some (degraded t)) = true
lets_through _ = false

-- How many requests to `p` are running after the event, if `n` were before: one more for each that
-- was let through, one less for each that has finished.
unfoldable pub running : String → Event → Limiter → ℕ → ℕ
unfolding reply_of
running p (try_acquire b limit start now q tokens) s n =
    if q == p && lets_through (reply_of (try_acquire b limit start now q tokens) s)
    then n + 1
    else n
running p (finish now q used) s n = if q == p then n - 1 else n
running p (peek now q tokens) s n = n

-- What a critical section leaves alone, whatever it does.
pub record SameLimits (s t : Limiter) : Type 0 where
  pub limits : t.limits ≡ s.limits
  pub strategy : t.strategy ≡ s.strategy

after_check-SameLimits :
    (b : Bool) (limit : Option ℕ) (start now : ℕ) (p : String) (v : Verdict) (s : Limiter)
    → SameLimits s (after_check b limit start now p v s).1
unfolding after_check take_slot
after_check-SameLimits b limit start now p allowed s = record { limits = refl; strategy = refl }
after_check-SameLimits false limit start now p (denied t w) s = record {
  limits = refl;
  strategy = refl;
}
after_check-SameLimits true limit start now p (denied t w) s = record {
  limits = refl;
  strategy = refl;
}
after_check-SameLimits b limit start now p zero_division s = record {
  limits = refl;
  strategy = refl;
}

release-SameLimits :
    (now : ℕ) (p : String) (used : ℕ) (s : Limiter) → SameLimits s (release now p used s)
unfolding release free_slot
release-SameLimits now p used s = ground (arith, check_daily_reset-SameSlots now p (free_slot p s))

pub step-SameLimits : (e : Event) (s : Limiter) → SameLimits s (step e s)
unfolding step acquire_round
step-SameLimits (try_acquire b limit start now p tokens) s =
    let c = check now p tokens s in
    ground
      (arith, check-SameSlots now p tokens s, after_check-SameLimits b limit start now p c.0 c.1)
step-SameLimits (finish now p used) s = release-SameLimits now p used s
step-SameLimits (peek now p tokens) s = ground (arith, check-SameSlots now p tokens s)

pub slots-after_check :
    (b : Bool) (limit : Option ℕ) (start now : ℕ) (p q : String) (v : Verdict) (s : Limiter)
    → s.strategy ≢ degrade
    → slots p (after_check b limit start now q v s).1 ≡ (
        if q == p && lets_through (after_check b limit start now q v s).0
        then slots p s + 1
        else slots p s)
unfolding after_check take_slot reply_denied
slots-after_check b limit start now p q allowed s h =
    ground (arith, get-put q p (or_else (get q s.concurrent) 0 + 1) s.concurrent, ==_iff q p)
slots-after_check false limit start now p q (denied t w) s h = ground arith
slots-after_check true limit start now p q (denied t w) s h = ground arith
slots-after_check b limit start now p q zero_division s h = ground arith

slots-free_slot :
    (p q : String) (s : Limiter)
    → slots p (free_slot q s) ≡ (if q == p then slots p s - 1 else slots p s)
unfolding free_slot
slots-free_slot p q s = elim (Option-cases (get q s.concurrent)) [
  | inl absent ↦ ground (arith, ==_iff q p)
  | inr (n, there) ↦ ground (arith, get-put q p (n - 1) s.concurrent, ==_iff q p)
]

pub slots-release :
    (now : ℕ) (p q : String) (used : ℕ) (s : Limiter)
    → slots p (release now q used s) ≡ (if q == p then slots p s - 1 else slots p s)
unfolding release
slots-release now p q used s =
    ground (arith, slots-free_slot p q s, check_daily_reset-SameSlots now q (free_slot q s))

-- Unless the strategy is to degrade, the counter of a provider follows its requests in flight.
pub slots-step :
    (p : String) (e : Event) (s : Limiter)
    → s.strategy ≢ degrade
    → slots p (step e s) ≡ running p e s (slots p s)
unfolding step running acquire_round
slots-step p (try_acquire b limit start now q tokens) s h =
    let c = check now q tokens s in
    ground (arith, check-SameSlots now q tokens s, slots-after_check b limit start now p q c.0 c.1)
slots-step p (finish now q used) s h = slots-release now p q used s
slots-step p (peek now q tokens) s h = ground (arith, check-SameSlots now q tokens s)
