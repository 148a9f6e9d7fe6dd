-- ===== src/Rate/Concurrency.antt =====
-- One critical section and the slots of a provider: where its counter stays, and what becomes of it when
-- the strategy is to degrade.
use mathlib.Core.Path.{subst}
use rice_factor.Prelude.{
  sym, ℕ, suc, ◌≤◌, ◌<◌, ◌≡◌, refl, ◌≢◌, String, Bool, false, Option, none, some, arith,
}
use rice_factor.Prelude.Eq.{==_iff, ==_refl, text_eq}
use rice_factor.Prelude.Dict.{get}
use rice_factor.Rate.Limiter.{
  degrade, ProviderLimits, Limiter, concurrent_requests, Verdict, allowed, denied, check,
  check_limits, no_wait,
}
use rice_factor.Rate.Acquire.{degraded, after_check, acquire_round, reply_denied}
use rice_factor.Rate.Steps.{
  Limited, slots, Event, try_acquire, finish, peek, step, running, check-SameSlots,
  check-allowed_slots, step-SameLimits, slots-after_check, slots-release,
}

after_check-slots_le :
    (b : Bool) (limit : Option ℕ) (start now : ℕ) (p q : String) (v : Verdict) (s : Limiter) (m : ℕ)
    → s.strategy ≢ degrade
    → slots p s ≤ m
    → (v ≡ allowed → q ≡ p → slots p s < m)
    → slots p (after_check b limit start now q v s).1 ≤ m
unfolding after_check reply_denied
after_check-slots_le b limit start now p q allowed s m h le room =
    ground (arith, slots-after_check b limit start now p q allowed s h, room refl, ==_iff q p)
after_check-slots_le b limit start now p q v s m h le room =
    ground (arith, slots-after_check b limit start now p q v s h)

pub slots-step_le :
    (p : String) (l : ProviderLimits) (m : ℕ) (e : Event) (s : Limiter)
    → Limited p l s
    → l.concurrent_requests ≤ m
    → s.strategy ≢ degrade
    → slots p s ≤ m
    → slots p (step e s) ≤ m
unfolding step acquire_round
slots-step_le p l m (try_acquire b limit start now q tokens) s lim small h le =
    let c = check now q tokens s in
    let same = check-SameSlots now q tokens s in
    after_check-slots_le b limit start now p q c.0 c.1 m (λ e. h (ground arith)) (ground arith)
      (λ ok here.
        let known = subst (λ x. get x s.limits ≡ some l) (sym here) lim.known in
        let room =
          check-allowed_slots now q tokens l s (record { known = known; enabled = lim.enabled })
            ok in
        ground (arith, room))
slots-step_le p l m (finish now q used) s lim small h le =
    ground (arith, slots-release now p q used s)
slots-step_le p l m (peek now q tokens) s lim small h le =
    ground (arith, check-SameSlots now q tokens s)

pub step-Limited :
    (p : String) (l : ProviderLimits) (e : Event) (s : Limiter)
    → Limited p l s
    → Limited p l (step e s)
step-Limited p l e s lim = record {
  known = ground (arith, step-SameLimits e s, lim.known);
  enabled = lim.enabled;
}

-- With all slots taken `check` denies the request and changes nothing.
check_full :
    (now : ℕ) (p : String) (tokens : ℕ) (l : ProviderLimits) (s : Limiter)
    → Limited p l s
    → l.concurrent_requests ≤ slots p s
    → check now p tokens s ≡ (denied concurrent_requests no_wait, s)
unfolding check check_limits
check_full now p tokens l s lim full = ground (arith, lim.known, lim.enabled)

acquire_round_full :
    (start now : ℕ) (p : String) (tokens : ℕ) (l : ProviderLimits) (s : Limiter)
    → Limited p l s
    → l.concurrent_requests ≤ slots p s
    → s.strategy ≡ degrade
    → acquire_round false none start now p tokens s ≡ (some (degraded concurrent_requests), s)
unfolding acquire_round after_check reply_denied
acquire_round_full start now p tokens l s lim full h =
    rw (check_full now p tokens l s lim full) (rw (h, reply_denied))

-- With the strategy to degrade the counter is no count of the requests in flight: with all slots
-- taken a request is let through without one, and when it finishes it frees a slot that another
-- request still holds.
pub degraded_frees_slot :
    (p : String) (l : ProviderLimits) (n start now later tokens used : ℕ) (s : Limiter)
    → Limited p l s
    → s.strategy ≡ degrade
    → l.concurrent_requests ≡ suc n
    → slots p s ≡ suc n
    → let e = try_acquire false none start now p tokens in
      let s' = step e s in
      (running p e s (suc n) ≡ suc (suc n))
      × (slots p s' ≡ suc n)
      × (slots p (step (finish later p used) s') ≡ n)
unfolding step running
degraded_frees_slot p l n start now later tokens used s lim h most full =
    let round = acquire_round_full start now p tokens l s lim (omega arith) h in
    (
      ground (arith, round, ==_refl p),
      ground (arith, round),
      ground (arith, round, slots-release later p p used s, ==_refl p),
    )
