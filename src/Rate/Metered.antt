-- ===== src/Rate/Metered.antt =====
-- The limit on requests per minute and the request bucket of a provider, through every critical section.
use mathlib.Core.Path.{subst}
use rice_factor.Prelude.{
  ℕ, ◌≤◌, ◌≡◌, refl, sym, ap, ◌∙◌, inl, inr, String, true, false, Option, some, arith, Bool-cases,
}
use rice_factor.Prelude.Eq.{◌==◌, ==_iff, text_eq}
use rice_factor.Prelude.Dict.{get}
use rice_factor.Rate.Bucket.{TokenBucket, new_bucket}
use rice_factor.Rate.Limiter.{ProviderLimits, Limiter, Settings, new_limits, configure, reset}
use rice_factor.Rate.Steps.{Limited, Event, step}
use rice_factor.Rate.Concurrency.{step-Limited}
use rice_factor.Rate.Sections.{configures, Keeps}
use rice_factor.Rate.Renewal.{
  reset-Resetted, configure-limits, new_limits-enabled, new_limits-requests_le,
}

abbrev pub rate_limit : Settings → Option ℕ
rate_limit c = c.requests_per_minute

-- `p` is enabled with at most `r` requests per minute.
pub record Rated (p : String) (r : ℕ) (s : Limiter) : Type 0 where
  pub limits : ProviderLimits
  pub limited : Limited p limits s
  pub slow : limits.requests_per_minute ≤ r

-- It has this bucket, which was last refilled by the time `t` and fills at most at the rate `r`.
pub record Metered (p : String) (r t : ℕ) (b : TokenBucket) (s : Limiter) : Type 0 where
  pub there : get p s.request_buckets ≡ some b
  pub slow : b.refill_rate ≤ r
  pub before : b.last_refill ≤ t

pub reset-Rated :
    (p : String) (r now : ℕ) (q : Option String) (s : Limiter)
    → Rated p r s
    → Rated p r (reset now q s)
reset-Rated p r now q s h = record {
  limits = h.limits;
  limited = record {
    known = ground (arith, (reset-Resetted p now q s).limits, h.limited.known);
    enabled = h.limited.enabled;
  };
  slow = h.slow;
}

-- Configured anew, the provider has a limit that is at most `r`.
pub configure_same-Rated :
    (p : String) (r now : ℕ) (q : String) (c : Settings) (s : Limiter)
    → (q == p) ≡ true
    → Keeps p rate_limit r (configures now q c)
    → (h : Rated p r s)
    → (get q s.limits ≡ some h.limits)
      × Limited p (new_limits (some h.limits) c) (configure now q c s)
      × ((new_limits (some h.limits) c).requests_per_minute ≤ r)
configure_same-Rated p r now q c s same keeps h =
    let here = (==_iff q p).0 same in
    let (enabled, given) = keeps here in
    let old : get q s.limits ≡ some h.limits =
      subst (λ x. get x s.limits ≡ some h.limits) (sym here) h.limited.known in
    (
      old,
      record {
        known = configure-limits p now q c s ∙ rw same refl ∙ ap (λ o. some (new_limits o c)) old;
        enabled = new_limits-enabled (some h.limits) c ∙ enabled;
      },
      new_limits-requests_le r h.limits c given h.slow,
    )

configure_other-Rated :
    (p : String) (r now : ℕ) (q : String) (c : Settings) (s : Limiter)
    → (q == p) ≡ false
    → Rated p r s
    → Rated p r (configure now q c s)
configure_other-Rated p r now q c s other h = record {
  limits = h.limits;
  limited = record {
    known = configure-limits p now q c s ∙ rw other h.limited.known;
    enabled = h.limited.enabled;
  };
  slow = h.slow;
}

pub new_bucket-Metered :
    (p : String) (r now n : ℕ) (s : Limiter)
    → n ≤ r
    → get p s.request_buckets ≡ some (new_bucket n now)
    → Metered p r now (new_bucket n now) s
unfolding new_bucket
new_bucket-Metered p r now n s slow there = record {
  there = there;
  slow = slow;
  before = omega arith;
}

pub later-Metered :
    (p : String) (r t now : ℕ) (b : TokenBucket) (s s' : Limiter)
    → t ≤ now
    → get p s'.request_buckets ≡ get p s.request_buckets
    → Metered p r t b s
    → Metered p r now b s'
later-Metered p r t now b s s' le same h = record {
  there = same ∙ h.there;
  slow = h.slow;
  before = omega (arith, h.before);
}

pub configure-Rated :
    (p : String) (r now : ℕ) (q : String) (c : Settings) (s : Limiter)
    → Keeps p rate_limit r (configures now q c)
    → Rated p r s
    → Rated p r (configure now q c s)
configure-Rated p r now q c s keeps h = elim (Bool-cases (q == p)) [
  | inl same ↦
      let (old, limited, slow) = configure_same-Rated p r now q c s same keeps h in
      record { limits = new_limits (some h.limits) c; limited = limited; slow = slow }
  | inr other ↦ configure_other-Rated p r now q c s other h
]

pub step-Rated : (p : String) (r : ℕ) (e : Event) (s : Limiter) → Rated p r s → Rated p r (step e s)
step-Rated p r e s h = record {
  limits = h.limits;
  limited = step-Limited p h.limits e s h.limited;
  slow = h.slow;
}
