-- ===== src/Rate/Throughput.antt =====
-- The limit on requests per minute: what the bucket of a provider lets through in a stretch of time,
-- over all critical sections.
use mathlib.Core.Path.{subst}
use rice_factor.Prelude.{
  ℕ, ◌+◌, ◌-◌, ◌*◌, ◌≤◌, ◌≡◌, refl, sym, ap, ◌∙◌, inl, inr, String, Option, none, some, List, [],
  ◌∷◌, arith, Bool-cases,
}
use rice_factor.Prelude.Eq.{◌==◌, text_eq}
use rice_factor.Prelude.Dict.{get}
use rice_factor.Rate.Bucket.{TokenBucket, unit, new_bucket}
use rice_factor.Rate.Limiter.{Limiter, Settings, new_limits, configure, reset}
use rice_factor.Rate.Steps.{Event, step}
use rice_factor.Rate.Checked.{elapsed_lem}
use rice_factor.Rate.Spending.{time_of, step-SpentAt}
use rice_factor.Rate.Sections.{
  CriticalSection, event, configures, resets, enter, clock, granted_in, grants, renewals, InOrder,
  end_time, Keeps, KeepsAll,
}
use rice_factor.Rate.Renewal.{configure-requests, reset-Renewed, reset-requests}
use rice_factor.Rate.Metered.{
  rate_limit, Rated, Metered, reset-Rated, configure_same-Rated, configure-Rated, step-Rated,
  new_bucket-Metered, later-Metered,
}

pub le_end_time : (t : ℕ) (xs : List CriticalSection) → InOrder t xs → t ≤ end_time t xs
le_end_time t [] h = omega arith
le_end_time t (x ∷ xs) (h, hs) = omega (arith, h, le_end_time (clock x) xs hs)

mul_mono : (a b r : ℕ) → a ≤ b → a * r ≤ b * r
mul_mono a b r h = omega (arith, elapsed_lem a b r h)

-- What `r` gives for the time from `a` to `b`, of which `c` is between.
mul-apart : (a b c r : ℕ) → a ≤ b → b ≤ c → (c - a) * r ≡ (c - b) * r + (b - a) * r
mul-apart a b c r ab bc =
    omega (arith, elapsed_lem a c r (omega arith), elapsed_lem b c r bc, elapsed_lem a b r ab)

-- At the rate of a bucket, which is at most `r`, the time brings at most what `r` brings.
at_rate-le : (a b rate r : ℕ) → a ≤ b → rate ≤ r → b * rate ≤ a * rate + (b - a) * r
at_rate-le a b rate r ab slow = omega (arith, elapsed_lem a b rate ab, mul_mono rate r (b - a) slow)

-- The bill for a section that gives `p` a new bucket.
renewed-le :
    (n r now end paid k last tokens : ℕ)
    → n ≤ r
    → last ≤ now
    → now ≤ end
    → paid * unit
      ≤ (new_bucket n now).tokens + (end - (new_bucket n now).last_refill) * r + k * (r * unit)
    → paid * unit ≤ tokens + (end - last) * r + (k + 1) * (r * unit)
unfolding new_bucket
renewed-le n r now end paid k last tokens slow before after h =
    omega (arith, h, mul_mono (end - now) (end - last) r (omega arith))

-- The grants of a run are paid for, whatever the bucket at its start.
abbrev pub Paid : String → ℕ → List CriticalSection → Limiter → Type 0
Paid p r xs s =
    (t : ℕ) (b : TokenBucket)
    → Metered p r t b s
    → InOrder t xs
    → grants p xs s * unit
      ≤ b.tokens + (end_time t xs - b.last_refill) * r + renewals p xs * (r * unit)

event-Paid :
    (p : String) (r : ℕ) (e : Event) (xs : List CriticalSection) (s : Limiter)
    → Rated p r s
    → Paid p r xs (step e s)
    → Paid p r (event e ∷ xs) s
unfolding grants granted_in enter renewals
event-Paid p r e xs s h rest t b m (le, order) =
    let (b', at, sp) =
      step-SpentAt p h.limits b s h.limited m.there e (omega (arith, m.before, le)) in
    let m' : Metered p r (time_of e) b' (step e s) = record {
      there = at;
      slow = subst (λ x. x ≤ r) (sym sp.same_rate) m.slow;
      before = sp.not_ahead;
    } in
    let last = le_end_time (time_of e) xs order in
    omega (
      arith,
      rest (time_of e) b' m' order,
      sp.paid,
      at_rate-le b.last_refill b'.last_refill b.refill_rate r sp.forward m.slow,
      mul-apart b.last_refill b'.last_refill (end_time (time_of e) xs) r sp.forward
          (omega (arith, sp.not_ahead, last)),
    )

-- The bill after a section that gives `p` a new bucket.
renewed-Paid :
    (p : String) (r t now n : ℕ) (b : TokenBucket) (xs : List CriticalSection) (s s' : Limiter)
    → n ≤ r
    → Metered p r t b s
    → t ≤ now
    → InOrder now xs
    → get p s'.request_buckets ≡ some (new_bucket n now)
    → Paid p r xs s'
    → grants p xs s' * unit
      ≤ b.tokens + (end_time now xs - b.last_refill) * r + (renewals p xs + 1) * (r * unit)
renewed-Paid p r t now n b xs s s' slow m le order new rest =
    renewed-le n r now (end_time now xs) (grants p xs s') (renewals p xs) b.last_refill b.tokens
      slow (omega (arith, m.before, le)) (le_end_time now xs order)
      (rest now (new_bucket n now) (new_bucket-Metered p r now n s' slow new) order)

configures-Paid :
    (p : String) (r now : ℕ) (q : String) (c : Settings) (xs : List CriticalSection) (s : Limiter)
    → Keeps p rate_limit r (configures now q c)
    → Rated p r s
    → Paid p r xs (configure now q c s)
    → Paid p r (configures now q c ∷ xs) s
unfolding grants granted_in enter renewals
configures-Paid p r now q c xs s keeps h rest t b m (le, order) =
    let s' = configure now q c s in
    elim (Bool-cases (q == p)) [
      | inl same ↦
          let (old, limited, slow) = configure_same-Rated p r now q c s same keeps h in
          let new =
            configure-requests p now q c s
            ∙ rw same refl
            ∙ ap (λ o. some (new_bucket (new_limits o c).requests_per_minute now)) old in
          let l = new_limits (some h.limits) c in
          rw same (
            omega (
              arith,
              renewed-Paid p r t now l.requests_per_minute b xs s s' slow m le order new rest,
            ))
      | inr other ↦
          let kept : get p s'.request_buckets ≡ get p s.request_buckets =
            configure-requests p now q c s ∙ rw other refl in
          rw other (omega (arith, rest now b (later-Metered p r t now b s s' le kept m) order))
    ]

-- The bill after a reset that may reach `p`.
reset-Paid :
    (p : String) (r t now : ℕ) (q : Option String) (b : TokenBucket) (xs : List CriticalSection)
    (s : Limiter)
    → Rated p r s
    → Metered p r t b s
    → t ≤ now
    → InOrder now xs
    → Paid p r xs (reset now q s)
    → grants p xs (reset now q s) * unit
      ≤ b.tokens + (end_time now xs - b.last_refill) * r + (renewals p xs + 1) * (r * unit)
reset-Paid p r t now q b xs s h m le order rest =
    let s' = reset now q s in
    elim (reset-Renewed p now q h.limits s h.limited.known) [
      | inl kept ↦ omega (arith, rest now b (later-Metered p r t now b s s' le kept m) order)
      | inr new ↦
          renewed-Paid p r t now h.limits.requests_per_minute b xs s s' h.slow m le order new rest
    ]

resets-Paid :
    (p : String) (r now : ℕ) (q : Option String) (xs : List CriticalSection) (s : Limiter)
    → Rated p r s
    → Paid p r xs (reset now q s)
    → Paid p r (resets now q ∷ xs) s
unfolding grants granted_in enter renewals
resets-Paid p r now none xs s h rest t b m (le, order) =
    omega (arith, reset-Paid p r t now none b xs s h m le order rest)
resets-Paid p r now (some q) xs s h rest t b m (le, order) = elim (Bool-cases (q == p)) [
  | inl same ↦ rw same (omega (arith, reset-Paid p r t now (some q) b xs s h m le order rest))
  | inr other ↦
      let kept = reset-requests p now q h.limits s h.limited.known other in
      rw other (
        omega
          (arith, rest now b (later-Metered p r t now b s (reset now (some q) s) le kept m) order))
]

-- In every interleaving of critical sections in the order of the clock, those of `configure` and
-- `reset` included: where a provider is enabled with a limit of at most `r` requests per minute, and
-- stays so when it is configured, the whole tokens of the requests granted in full are at most what its
-- request bucket held at the start, what the rate `r` gives for the time from its last refill to the
-- last section, and a full bucket of `r` requests for each time the provider was configured or reset.
pub grants-le :
    (p : String) (r : ℕ) (xs : List CriticalSection) (t : ℕ) (b : TokenBucket) (s : Limiter)
    → KeepsAll p rate_limit r xs
    → Rated p r s
    → Metered p r t b s
    → InOrder t xs
    → grants p xs s * unit
      ≤ b.tokens + (end_time t xs - b.last_refill) * r + renewals p xs * (r * unit)
unfolding grants enter renewals
grants-le p r [] t b s keeps h m order = omega arith
grants-le p r (event e ∷ xs) t b s (here, keeps) h m order =
    event-Paid p r e xs s h (λ u c. grants-le p r xs u c (step e s) keeps (step-Rated p r e s h)) t
      b m order
grants-le p r (configures now q c ∷ xs) t b s (here, keeps) h m order =
    configures-Paid p r now q c xs s here h
      (λ u d.
        grants-le p r xs u d (configure now q c s) keeps (configure-Rated p r now q c s here h))
      t b m order
grants-le p r (resets now q ∷ xs) t b s (here, keeps) h m order =
    resets-Paid p r now q xs s h
      (λ u c. grants-le p r xs u c (reset now q s) keeps (reset-Rated p r now q s h)) t b m order
