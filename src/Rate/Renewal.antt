-- ===== src/Rate/Renewal.antt =====
-- What `configure` and `reset` do to the limits, the counters and the request buckets.
use rice_factor.Prelude.{
  ℕ, ◌≤◌, ◌≡◌, refl, ◌⊎◌, inl, inr, ◌∙◌, String, false, Option, none, some, List, [], ◌∷◌, arith,
  if◌then◌else◌, Option-cases, Bool-cases,
}
use rice_factor.Prelude.Eq.{◌==◌, ==_iff, text_eq}
use rice_factor.Prelude.Dict.{get, get-put, has, has_iff, keys}
use rice_factor.Rate.Bucket.{new_bucket}
use rice_factor.Rate.Limiter.{
  ProviderLimits, Limiter, Settings, or_else, new_limits, configure, reset_buckets, reset_provider,
  reset_each, reset,
}
use rice_factor.Rate.Steps.{slots}
use rice_factor.Rate.Sections.{AtMost}

-- What a reset leaves alone, and that it adds to no counter.
pub record Resetted (p : String) (s t : Limiter) : Type 0 where
  pub limits : t.limits ≡ s.limits
  pub strategy : t.strategy ≡ s.strategy
  pub counted : slots p t ≤ slots p s

reset_provider-Resetted :
    (p : String) (now : ℕ) (q : String) (s : Limiter) → Resetted p s (reset_provider now q s)
unfolding reset_provider reset_buckets
reset_provider-Resetted p now q s = elim (Option-cases (get q s.limits)) [
  | inl unknown ↦ record {
    limits = ground (arith, unknown);
    strategy = ground (arith, unknown);
    counted = ground (arith, unknown, get-put q p 0 s.concurrent);
  }
  | inr (l, known) ↦ record {
    limits = ground (arith, known);
    strategy = ground (arith, known);
    counted = ground (arith, known, get-put q p 0 s.concurrent);
  }
]

reset_each-Resetted :
    (p : String) (now : ℕ) (qs : List String) (s : Limiter) → Resetted p s (reset_each now qs s)
unfolding reset_each
reset_each-Resetted p now [] s = record { limits = refl; strategy = refl; counted = omega arith }
reset_each-Resetted p now (q ∷ qs) s =
    let one = reset_provider-Resetted p now q s in
    let rest = reset_each-Resetted p now qs (reset_provider now q s) in
    record {
      limits = ground (arith, one.limits, rest.limits);
      strategy = ground (arith, one.strategy, rest.strategy);
      counted = omega (arith, one.counted, rest.counted);
    }

pub reset-Resetted :
    (p : String) (now : ℕ) (q : Option String) (s : Limiter) → Resetted p s (reset now q s)
unfolding reset
reset-Resetted p now none s = reset_each-Resetted p now (keys s.limits) s
reset-Resetted p now (some q) s = elim (Bool-cases (has q s.limits)) [
  | inl known ↦ rw (known, reset) (reset_provider-Resetted p now q s)
  | inr unknown ↦
      rw (unknown, reset) (record { limits = refl; strategy = refl; counted = omega arith })
]

pub slots-configure :
    (p : String) (now : ℕ) (q : String) (c : Settings) (s : Limiter)
    → slots p (configure now q c s) ≡ slots p s
unfolding configure
slots-configure p now q c s =
    ground (arith, get-put q p 0 s.concurrent, has_iff q s.concurrent, ==_iff q p)

or_else-le : (m n : ℕ) (given : Option ℕ) → AtMost m given → n ≤ m → or_else given n ≤ m
or_else-le m n none h le = le
or_else-le m n (some k) h le = h

-- A limit of a provider that is configured anew: the one that is given, or the existing one.
pub new_limits-concurrent_le :
    (m : ℕ) (l : ProviderLimits) (c : Settings)
    → AtMost m c.concurrent_requests
    → l.concurrent_requests ≤ m
    → (new_limits (some l) c).concurrent_requests ≤ m
unfolding new_limits
new_limits-concurrent_le m l c given small =
    or_else-le m l.concurrent_requests c.concurrent_requests given small

pub new_limits-requests_le :
    (m : ℕ) (l : ProviderLimits) (c : Settings)
    → AtMost m c.requests_per_minute
    → l.requests_per_minute ≤ m
    → (new_limits (some l) c).requests_per_minute ≤ m
unfolding new_limits
new_limits-requests_le m l c given small =
    or_else-le m l.requests_per_minute c.requests_per_minute given small

pub configure-limits :
    (p : String) (now : ℕ) (q : String) (c : Settings) (s : Limiter)
    → get p (configure now q c s).limits
      ≡ (if q == p then some (new_limits (get q s.limits) c) else get p s.limits)
unfolding configure
configure-limits p now q c s = get-put q p (new_limits (get q s.limits) c) s.limits

pub configure-strategy :
    (now : ℕ) (q : String) (c : Settings) (s : Limiter)
    → (configure now q c s).strategy ≡ s.strategy
unfolding configure
configure-strategy now q c s = refl

pub new_limits-enabled :
    (o : Option ProviderLimits) (c : Settings) → (new_limits o c).enabled ≡ c.enabled
unfolding new_limits
new_limits-enabled o c = refl

pub reset-slots :
    (p : String) (now : ℕ) (q : String) (s : Limiter)
    → (q == p) ≡ false
    → slots p (reset now (some q) s) ≡ slots p s
unfolding reset reset_provider reset_buckets
reset-slots p now q s other = ground (arith, get-put q p 0 s.concurrent)

-- A provider that is configured has a new bucket, and the others keep theirs.
pub configure-requests :
    (p : String) (now : ℕ) (q : String) (c : Settings) (s : Limiter)
    → get p (configure now q c s).request_buckets ≡ (
        if q == p
        then some (new_bucket (new_limits (get q s.limits) c).requests_per_minute now)
        else get p s.request_buckets)
unfolding configure
configure-requests p now q c s =
    get-put q p (new_bucket (new_limits (get q s.limits) c).requests_per_minute now)
      s.request_buckets

reset_provider-requests :
    (p : String) (now : ℕ) (q : String) (l : ProviderLimits) (s : Limiter)
    → get p s.limits ≡ some l
    → get p (reset_provider now q s).request_buckets
      ≡ (if q == p then some (new_bucket l.requests_per_minute now) else get p s.request_buckets)
unfolding reset_provider reset_buckets
reset_provider-requests p now q l s known = elim (Option-cases (get q s.limits)) [
  | inl unknown ↦ ground (arith, unknown, known, ==_iff q p)
  | inr (k, there) ↦ ground (
    arith,
    there,
    known,
    ==_iff q p,
    get-put q p (new_bucket k.requests_per_minute now) s.request_buckets,
  )
]

-- A reset gives a provider a new bucket, or leaves it the bucket that it has.
abbrev pub Renewed : String → ℕ → ProviderLimits → Limiter → Limiter → Type 0
Renewed p now l s t =
    (get p t.request_buckets ≡ get p s.request_buckets)
    ⊎ (get p t.request_buckets ≡ some (new_bucket l.requests_per_minute now))

reset_provider-Renewed :
    (p : String) (now : ℕ) (q : String) (l : ProviderLimits) (s : Limiter)
    → get p s.limits ≡ some l
    → Renewed p now l s (reset_provider now q s)
reset_provider-Renewed p now q l s known =
    let e = reset_provider-requests p now q l s known in
    elim (Bool-cases (q == p)) [
      | inl same ↦ inr (e ∙ rw same refl)
      | inr other ↦ inl (e ∙ rw other refl)
    ]

Renewed-then :
    (p : String) (now : ℕ) (l : ProviderLimits) (s t u : Limiter)
    → Renewed p now l s t
    → Renewed p now l t u
    → Renewed p now l s u
Renewed-then p now l s t u (inl one) (inl two) = inl (two ∙ one)
Renewed-then p now l s t u (inr one) (inl two) = inr (two ∙ one)
Renewed-then p now l s t u one (inr two) = inr two

reset_each-Renewed :
    (p : String) (now : ℕ) (qs : List String) (l : ProviderLimits) (s : Limiter)
    → get p s.limits ≡ some l
    → Renewed p now l s (reset_each now qs s)
unfolding reset_each
reset_each-Renewed p now [] l s known = inl refl
reset_each-Renewed p now (q ∷ qs) l s known =
    let s' = reset_provider now q s in
    Renewed-then p now l s s' (reset_each now qs s') (reset_provider-Renewed p now q l s known) (
      reset_each-Renewed p now qs l s'
        (ground (arith, (reset_provider-Resetted p now q s).limits, known)))

pub reset-Renewed :
    (p : String) (now : ℕ) (q : Option String) (l : ProviderLimits) (s : Limiter)
    → get p s.limits ≡ some l
    → Renewed p now l s (reset now q s)
unfolding reset
reset-Renewed p now none l s known = reset_each-Renewed p now (keys s.limits) l s known
reset-Renewed p now (some q) l s known = elim (Bool-cases (has q s.limits)) [
  | inl there ↦ rw (there, reset) (reset_provider-Renewed p now q l s known)
  | inr unknown ↦ rw (unknown, reset) (inl refl)
]

pub reset-requests :
    (p : String) (now : ℕ) (q : String) (l : ProviderLimits) (s : Limiter)
    → get p s.limits ≡ some l
    → (q == p) ≡ false
    → get p (reset now (some q) s).request_buckets ≡ get p s.request_buckets
unfolding reset
reset-requests p now q l s known other = elim (Bool-cases (has q s.limits)) [
  | inl there ↦ rw (there, reset) (reset_provider-requests p now q l s known ∙ rw other refl)
  | inr unknown ↦ rw (unknown, reset) refl
]
