-- ===== src/Rate/Spending.antt =====
-- What a critical section takes from the request bucket of a provider.
use rice_factor.Prelude.{
  ℕ, ◌+◌, ◌-◌, ◌*◌, ◌≤◌, ◌≡◌, refl, sym, ap, ◌∙◌, String, Bool, true, false, ◌&&◌, ◌⊎◌, ◌≢◌, Option,
  some, arith, if◌then◌else◌, Bool-cases, Option-cases, inl, inr,
}
use mathlib.Core.Path.{subst}
use rice_factor.Prelude.Eq.{◌==◌, ==_iff, ==_refl, text_eq}
use rice_factor.Prelude.Dict.{get, get-put}
use rice_factor.Rate.Bucket.{TokenBucket, unit, refill, consume}
use rice_factor.Rate.Limiter.{
  ProviderLimits, Limiter, Verdict, allowed, denied, zero_division, check, release,
}
use rice_factor.Rate.Acquire.{Reply, granted, after_check, acquire_round, take_slot, reply_denied}
use rice_factor.Rate.Steps.{Limited, Event, try_acquire, finish, peek, step, reply_of}
use rice_factor.Rate.Checked.{
  Later, Later-refl, refill-Later, Checked, check-Checked, check-passed, release-requests,
}

abbrev pub time_of : Event → ℕ
time_of (try_acquire b limit start now p tokens) = now
time_of (finish now p used) = now
time_of (peek now p tokens) = now

abbrev pub is_granted : Option Reply → Bool
is_granted (some granted) = true
is_granted _ = false

abbrev pub provider_of : Event → String
provider_of (try_acquire b limit start now p tokens) = p
provider_of (finish now p used) = p
provider_of (peek now p tokens) = p

-- One if the event is an `acquire` of `p` that is granted in full, not degraded.
abbrev pub grant : String → Event → Limiter → ℕ
grant p e s = if provider_of e == p && is_granted (reply_of e s) then 1 else 0

-- A bucket after some grants: they were paid for in whole tokens.
pub record Spent (now n : ℕ) (b b' : TokenBucket) : Type 0 where
  pub same_rate : b'.refill_rate ≡ b.refill_rate
  pub forward : b.last_refill ≤ b'.last_refill
  pub not_ahead : b'.last_refill ≤ now
  pub paid :
      n * unit + b'.tokens + b.last_refill * b.refill_rate
      ≤ b.tokens + b'.last_refill * b.refill_rate

Later-Spent : (now : ℕ) (b b' : TokenBucket) → Later now b b' → Spent now 0 b b'
Later-Spent now b b' h = record {
  same_rate = h.same_rate;
  forward = h.forward;
  not_ahead = h.not_ahead;
  paid = omega (arith, h.gained);
}

-- The bucket of `p` in the state after an event with `n` grants.
abbrev pub SpentAt : String → ℕ → ℕ → TokenBucket → Limiter → Type 0
SpentAt p now n b s = (b' : TokenBucket) × (get p s.request_buckets ≡ some b') × Spent now n b b'

Checked-SpentAt :
    (now : ℕ) (p : String) (b : TokenBucket) (s : Limiter)
    → b.last_refill ≤ now
    → Checked now p b s
    → SpentAt p now 0 b s
Checked-SpentAt now p b s h (inl same) = (b, same, Later-Spent now b b (Later-refl now b h))
Checked-SpentAt now p b s h (inr filled) =
    (refill now b, filled, Later-Spent now b (refill now b) (refill-Later now b h))

-- A whole token is taken from a bucket that was just refilled.
consume-refill :
    (now : ℕ) (b : TokenBucket)
    → unit ≤ (refill now b).tokens
    → (consume now unit (refill now b)).1
      ≡ record (refill now b) { tokens = (refill now b).tokens - unit }
unfolding consume
consume-refill now b h = ground (arith, h)

take_slot_self :
    (now : ℕ) (p : String) (b : TokenBucket) (s : Limiter)
    → b.last_refill ≤ now
    → unit ≤ (refill now b).tokens
    → get p s.request_buckets ≡ some (refill now b)
    → SpentAt p now 1 b (take_slot now p s)
unfolding take_slot
take_slot_self now p b s before enough at =
    let h = refill-Later now b before in
    (
      record (refill now b) { tokens = (refill now b).tokens - unit },
      ground (
        arith,
        consume-refill now b enough,
        get-put p p (consume now unit (refill now b)).1 s.request_buckets,
        ==_refl p,
      ),
      record {
        same_rate = h.same_rate;
        forward = h.forward;
        not_ahead = h.not_ahead;
        paid = omega (arith, h.gained, enough);
      },
    )

take_slot_other :
    (now : ℕ) (p q : String) (s : Limiter)
    → (q == p) ≡ false
    → get p (take_slot now q s).request_buckets ≡ get p s.request_buckets
unfolding take_slot
take_slot_other now p q s other = elim (Option-cases (get q s.request_buckets)) [
  | inl absent ↦ ground arith
  | inr (b, there) ↦ ground (arith, get-put q p (consume now unit b).1 s.request_buckets)
]

-- Replies that are no full grant leave the bucket as `check` left it.
after_check-denied :
    (c : Bool) (limit : Option ℕ) (start now : ℕ) (q : String) (v : Verdict) (s : Limiter)
    → v ≢ allowed
    → (is_granted (after_check c limit start now q v s).0 ≡ false)
      × ((after_check c limit start now q v s).1 ≡ s)
unfolding after_check reply_denied
after_check-denied c limit start now q allowed s h = absurd (h refl)
after_check-denied c limit start now q zero_division s h = (refl, refl)
after_check-denied false limit start now q (denied t w) s h = (ground arith, refl)
after_check-denied true limit start now q (denied t w) s h = (ground arith, refl)

after_check-allowed :
    (c : Bool) (limit : Option ℕ) (start now : ℕ) (q : String) (s : Limiter)
    → after_check c limit start now q allowed s ≡ (some granted, take_slot now q s)
unfolding after_check
after_check-allowed c limit start now q s = refl

Verdict-cases : (v : Verdict) → (v ≡ allowed) ⊎ (v ≢ allowed)
Verdict-cases allowed = inl refl
Verdict-cases (denied t w) = inr (λ e. cc)
Verdict-cases zero_division = inr (λ e. cc)

move-SpentAt :
    (p : String) (now n m : ℕ) (b : TokenBucket) (s t : Limiter)
    → n ≡ m
    → get p s.request_buckets ≡ get p t.request_buckets
    → SpentAt p now n b s
    → SpentAt p now m b t
move-SpentAt p now n m b s t count bucket (b', at, h) =
    (b', sym bucket ∙ at, subst (λ k. Spent now k b b') count h)

module _ (p : String) (l : ProviderLimits) (b : TokenBucket) (s : Limiter) (lim : Limited p l s)
    (at : get p s.request_buckets ≡ some b) where
  acquire_round-SpentAt :
      (c : Bool) (limit : Option ℕ) (start now : ℕ) (q : String) (tokens : ℕ)
      → b.last_refill ≤ now
      → SpentAt p now
          (if q == p && is_granted (acquire_round c limit start now q tokens s).0 then 1 else 0)
          b
          (acquire_round c limit start now q tokens s).1
  unfolding acquire_round
  acquire_round-SpentAt c limit start now q tokens before =
      let k = check now q tokens s in
      let r = acquire_round c limit start now q tokens s in
      let checked = Checked-SpentAt now p b k.1 before (check-Checked now p q tokens b s at) in
      elim (Verdict-cases k.0) [
        | inr denies ↦
            let (no_grant, stays) = after_check-denied c limit start now q k.0 k.1 denies in
            move-SpentAt p now 0 (if q == p && is_granted r.0 then 1 else 0) b k.1 r.1
              (ground (arith, no_grant)) (ground (arith, stays)) checked
        | inl allows ↦
            let e : r ≡ (some granted, take_slot now q k.1) =
              ap (λ v. after_check c limit start now q v k.1) allows
              ∙ after_check-allowed c limit start now q k.1 in
            elim (Bool-cases (q == p)) [
              | inl same ↦
                  let here = (==_iff q p).0 same in
                  let (enough, filled) =
                    check-passed now q tokens l b s (subst (λ x. Limited x l s) (sym here) lim)
                      (subst (λ x. get x s.request_buckets ≡ some b) (sym here) at) allows in
                  move-SpentAt p now 1 (if q == p && is_granted r.0 then 1 else 0) b
                    (take_slot now q k.1) r.1 (ground (arith, e, same)) (ground (arith, e))
                    (subst (λ x. SpentAt x now 1 b (take_slot now q k.1)) here
                      (take_slot_self now q b k.1 before enough filled))
              | inr other ↦
                  move-SpentAt p now 0 (if q == p && is_granted r.0 then 1 else 0) b k.1 r.1
                    (ground (arith, other)) (ground (arith, e, take_slot_other now p q k.1 other))
                    checked
            ]
      ]

  pub step-SpentAt :
      (e : Event) → b.last_refill ≤ time_of e → SpentAt p (time_of e) (grant p e s) b (step e s)
  unfolding step reply_of
  step-SpentAt (try_acquire c limit start now q tokens) before =
      acquire_round-SpentAt c limit start now q tokens before
  step-SpentAt (finish now q used) before =
      move-SpentAt p now 0 (grant p (finish now q used) s) b s (release now q used s) (ground arith)
        (ground (arith, release-requests now q used s))
        (b, at, Later-Spent now b b (Later-refl now b before))
  step-SpentAt (peek now q tokens) before =
      move-SpentAt p now 0 (grant p (peek now q tokens) s) b (check now q tokens s).1
        (check now q tokens s).1 (ground arith) refl
        (Checked-SpentAt now p b (check now q tokens s).1 before
          (check-Checked now p q tokens b s at))
