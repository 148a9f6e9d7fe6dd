-- ===== src/Rate/InFlight.antt =====
-- The limit on concurrent requests, over all critical sections.
use mathlib.Core.Path.{subst}
use rice_factor.Prelude.{
  ℕ, ◌+◌, ◌*◌, ◌≤◌, ◌≡◌, refl, sym, ap, ◌∙◌, ◌≢◌, inl, inr, String, Option, none, some, List, [],
  ◌∷◌, arith, Bool-cases,
}
use rice_factor.Prelude.Eq.{◌==◌, ==_iff, text_eq}
use rice_factor.Prelude.Dict.{get}
use rice_factor.Rate.Limiter.{
  degrade, ProviderLimits, Limiter, Settings, new_limits, configure, reset,
}
use rice_factor.Rate.Steps.{
  Limited, slots, Event, try_acquire, finish, peek, step, running, step-SameLimits, slots-step,
}
use rice_factor.Rate.Concurrency.{step-Limited, slots-step_le}
use rice_factor.Rate.Sections.{
  CriticalSection, event, configures, resets, enter, running_after, in_flight_after, reset_count,
  Keeps, KeepsAll,
}
use rice_factor.Rate.Renewal.{
  reset-Resetted, slots-configure, new_limits-concurrent_le, configure-limits, configure-strategy,
  new_limits-enabled, reset-slots,
}

abbrev pub slot_limit : Settings → Option ℕ
slot_limit c = c.concurrent_requests

-- `p` is enabled with a limit of at most `m`, as is its counter, and the strategy is not to degrade.
pub record Bounded (p : String) (m : ℕ) (s : Limiter) : Type 0 where
  pub limits : ProviderLimits
  pub limited : Limited p limits s
  pub small : limits.concurrent_requests ≤ m
  pub full_service : s.strategy ≢ degrade
  pub counted : slots p s ≤ m

event-Bounded :
    (p : String) (m : ℕ) (e : Event) (s : Limiter) → Bounded p m s → Bounded p m (step e s)
event-Bounded p m e s h = record {
  limits = h.limits;
  limited = step-Limited p h.limits e s h.limited;
  small = h.small;
  full_service = λ d. h.full_service (ground (arith, step-SameLimits e s));
  counted = slots-step_le p h.limits m e s h.limited h.small h.full_service h.counted;
}

reset-Bounded :
    (p : String) (m now : ℕ) (q : Option String) (s : Limiter)
    → Bounded p m s
    → Bounded p m (reset now q s)
reset-Bounded p m now q s h =
    let r = reset-Resetted p now q s in
    record {
      limits = h.limits;
      limited = record {
        known = ground (arith, r.limits, h.limited.known);
        enabled = h.limited.enabled;
      };
      small = h.small;
      full_service = λ d. h.full_service (ground (arith, r.strategy));
      counted = omega (arith, r.counted, h.counted);
    }

configure-Bounded :
    (p : String) (m now : ℕ) (q : String) (c : Settings) (s : Limiter)
    → Keeps p slot_limit m (configures now q c)
    → Bounded p m s
    → Bounded p m (configure now q c s)
configure-Bounded p m now q c s keeps h = elim (Bool-cases (q == p)) [
  | inr other ↦ record {
    limits = h.limits;
    limited = record {
      known = configure-limits p now q c s ∙ rw other h.limited.known;
      enabled = h.limited.enabled;
    };
    small = h.small;
    full_service = λ d. h.full_service (sym (configure-strategy now q c s) ∙ d);
    counted = omega (arith, slots-configure p now q c s, h.counted);
  }
  | inl same ↦
      let here = (==_iff q p).0 same in
      let (enabled, given) = keeps here in
      let old : get q s.limits ≡ some h.limits =
        subst (λ x. get x s.limits ≡ some h.limits) (sym here) h.limited.known in
      record {
        limits = new_limits (some h.limits) c;
        limited = record {
          known = configure-limits p now q c s ∙ rw same refl ∙ ap (λ o. some (new_limits o c)) old;
          enabled = new_limits-enabled (some h.limits) c ∙ enabled;
        };
        small = new_limits-concurrent_le m h.limits c given h.small;
        full_service = λ d. h.full_service (sym (configure-strategy now q c s) ∙ d);
        counted = omega (arith, slots-configure p now q c s, h.counted);
      }
]

enter-Bounded :
    (p : String) (m : ℕ) (x : CriticalSection) (s : Limiter)
    → Keeps p slot_limit m x
    → Bounded p m s
    → Bounded p m (enter x s)
unfolding enter
enter-Bounded p m (event e) s keeps h = event-Bounded p m e s h
enter-Bounded p m (configures now q c) s keeps h = configure-Bounded p m now q c s keeps h
enter-Bounded p m (resets now q) s keeps h = reset-Bounded p m now q s h

-- Requests that are not counted stay as they are, or end.
running-le :
    (p : String) (e : Event) (s : Limiter) (n k : ℕ)
    → n ≤ slots p s + k
    → running p e s n ≤ running p e s (slots p s) + k
unfolding running
running-le p (try_acquire b limit start now q tokens) s n k h = ground (arith, h)
running-le p (finish now q used) s n k h = ground (arith, h)
running-le p (peek now q tokens) s n k h = ground (arith, h)

-- At most `m` requests for the time since the last reset, and `m` for each reset before it.
in_flight_after-le :
    (p : String) (m k n : ℕ) (xs : List CriticalSection) (s : Limiter)
    → KeepsAll p slot_limit m xs
    → Bounded p m s
    → n ≤ slots p s + k * m
    → in_flight_after p xs s n ≤ (reset_count p xs + k + 1) * m
unfolding in_flight_after reset_count running_after enter
in_flight_after-le p m k n [] s keeps h le = omega (arith, le, h.counted)
in_flight_after-le p m k n (event e ∷ xs) s (now_ok, keeps) h le =
    in_flight_after-le p m k (running p e s n) xs (step e s) keeps (event-Bounded p m e s h)
      (ground (arith, running-le p e s n (k * m) le, slots-step p e s h.full_service))
in_flight_after-le p m k n (configures now q c ∷ xs) s (now_ok, keeps) h le =
    in_flight_after-le p m k n xs (configure now q c s) keeps
      (configure-Bounded p m now q c s now_ok h) (omega (arith, le, slots-configure p now q c s))
in_flight_after-le p m k n (resets now none ∷ xs) s (now_ok, keeps) h le =
    let rest =
      in_flight_after-le p m (k + 1) n xs (reset now none s) keeps (reset-Bounded p m now none s h)
        (omega (arith, le, h.counted)) in
    omega (arith, rest)
in_flight_after-le p m k n (resets now (some q) ∷ xs) s (now_ok, keeps) h le =
    elim (Bool-cases (q == p)) [
      | inl same ↦
          let rest =
            in_flight_after-le p m (k + 1) n xs (reset now (some q) s) keeps
              (reset-Bounded p m now (some q) s h) (omega (arith, le, h.counted)) in
          rw same (omega (arith, rest))
      | inr other ↦ rw other (
          in_flight_after-le p m k n xs (reset now (some q) s) keeps
            (reset-Bounded p m now (some q) s h) (omega (arith, le, reset-slots p now q s other)))
    ]

-- In every interleaving of critical sections, those of `configure` and `reset` included: where a
-- provider is enabled with a limit of at most `m`, and stays so when it is configured, its counter is
-- right and at most `m` at the start, and the strategy does not degrade, the requests that were let
-- through and have not finished are never more than `m`, and `m` more for each time the provider was
-- reset.
pub in_flight-le-concurrent_requests :
    (p : String) (m : ℕ) (xs : List CriticalSection) (s : Limiter)
    → KeepsAll p slot_limit m xs
    → Bounded p m s
    → in_flight_after p xs s (slots p s) ≤ (reset_count p xs + 1) * m
in_flight-le-concurrent_requests p m xs s keeps h =
    let le = in_flight_after-le p m 0 (slots p s) xs s keeps h (omega arith) in omega (arith, le)
