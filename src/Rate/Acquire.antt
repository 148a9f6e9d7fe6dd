-- ===== src/Rate/Acquire.antt =====
-- rice_factor/domain/services/rate_limiter.py: `acquire`. Each round of its loop runs at a reading of
-- the clock; the sleep between two rounds is the difference of their readings, which the caller of
-- the model chooses. `none` means that the readings have run out while the loop still waits.
use rice_factor.Prelude.{
  ℕ, ◌+◌, ◌-◌, ◌≤◌, ◌≡◌, refl, String, Bool, true, false, Option, none, some, List, [], ◌∷◌, arith,
  leb, if◌then◌else◌, any, Bool-cases, leb→le, Option-cases, inl, inr,
}
use rice_factor.Prelude.Eq.{text_eq}
use rice_factor.Prelude.Dict.{get, put}
use rice_factor.Rate.Bucket.{Wait, unit, consume}
use rice_factor.Rate.Limiter.{
  RateLimitStrategy, block, reject, degrade, ProviderLimits, Limiter, LimitType,
  requests_per_minute, tokens_per_minute, tokens_per_day, concurrent_requests, timeout, Verdict,
  allowed, denied, zero_division, or_else, check,
}

-- What `acquire` returns or raises.
pub data Reply : Type 0 where
  granted : Reply
  degraded : LimitType → Reply
  refused : LimitType → Wait → Reply
  exceeded : LimitType → ℕ → Wait → Reply
  division_error : Reply

unfoldable pub limit_value : LimitType → Option ProviderLimits → ℕ
limit_value t none = 0
limit_value requests_per_minute (some l) = l.requests_per_minute
limit_value tokens_per_minute (some l) = l.tokens_per_minute
limit_value tokens_per_day (some l) = l.tokens_per_day
limit_value concurrent_requests (some l) = l.concurrent_requests
limit_value timeout (some l) = 0

-- The branch of an allowed request.
unfoldable pub take_slot : ℕ → String → Limiter → Limiter
take_slot now p s = record s {
  request_buckets = elim (get p s.request_buckets) [
    | none ↦ s.request_buckets
    | some b ↦ put p (consume now unit b).1 s.request_buckets
  ];
  concurrent = put p (or_else (get p s.concurrent) 0 + 1) s.concurrent;
}

-- The branch "not block".
unfoldable pub reply_denied : RateLimitStrategy → String → LimitType → Wait → Limiter → Reply
unfolding limit_value
reply_denied reject p t w s = exceeded t (limit_value t (get p s.limits)) w
reply_denied degrade p t w s = degraded t
reply_denied block p t w s = refused t w

-- `if timeout is not None: ... if elapsed >= timeout`
abbrev pub timed_out : Option ℕ → ℕ → ℕ → Bool
timed_out none start now = false
timed_out (some limit) start now = leb limit (now - start)

unfoldable pub after_check :
    Bool → Option ℕ → ℕ → ℕ → String → Verdict → Limiter → Option Reply × Limiter
unfolding take_slot reply_denied
after_check blocking limit start now p allowed s = (some granted, take_slot now p s)
after_check blocking limit start now p zero_division s = (some division_error, s)
after_check false limit start now p (denied t w) s = (some (reply_denied s.strategy p t w s), s)
after_check true limit start now p (denied t w) s =
    (if timed_out limit start now then some (refused timeout w) else none, s)

-- One round of the loop; `none` is to wait and try again.
unfoldable pub acquire_round :
    Bool → Option ℕ → ℕ → ℕ → String → ℕ → Limiter → Option Reply × Limiter
acquire_round blocking limit start now p tokens s =
    let (v, s') = check now p tokens s in after_check blocking limit start now p v s'

unfoldable pub acquire_rounds :
    Bool → Option ℕ → ℕ → List ℕ → String → ℕ → Limiter → Option Reply × Limiter
acquire_rounds blocking limit start [] p tokens s = (none, s)
acquire_rounds blocking limit start (now ∷ nows) p tokens s =
    let (r, s') = acquire_round blocking limit start now p tokens s in
    elim r [
      | some reply ↦ (some reply, s')
      | none ↦ acquire_rounds blocking limit start nows p tokens s'
    ]

-- `acquire(provider, tokens, block, timeout)`
unfoldable pub acquire :
    ℕ → List ℕ → String → ℕ → Option Bool → Option ℕ → Limiter → Option Reply × Limiter
unfolding acquire_rounds
acquire start nows p tokens blocking limit s =
    let waits = or_else blocking (elim s.strategy [ block ↦ true | _ ↦ false ]) in
    acquire_rounds waits limit start nows p tokens s

acquire_round_timeout :
    (blocking : Bool) (limit start now : ℕ) (p : String) (tokens : ℕ) (s : Limiter)
    → start + limit ≤ now
    → (r : Reply) × ((acquire_round blocking (some limit) start now p tokens s).0 ≡ some r)
unfolding acquire_round after_check
acquire_round_timeout blocking limit start now p tokens s late =
    go blocking (check now p tokens s).0 (check now p tokens s).1
  where
    go :
        (b : Bool) (v : Verdict) (s' : Limiter)
        → (r : Reply) × ((after_check b (some limit) start now p v s').0 ≡ some r)
    go b allowed s' = (granted, refl)
    go b zero_division s' = (division_error, refl)
    go false (denied t w) s' = (reply_denied s'.strategy p t w s', refl)
    go true (denied t w) s' = (refused timeout w, ground arith)

acquire_rounds_end :
    (blocking : Bool) (limit start : ℕ) (nows : List ℕ) (p : String) (tokens : ℕ) (s : Limiter)
    → any (λ now. leb (start + limit) now) nows ≡ true
    → (r : Reply) × ((acquire_rounds blocking (some limit) start nows p tokens s).0 ≡ some r)
unfolding acquire_rounds
acquire_rounds_end blocking limit start [] p tokens s late = cc
acquire_rounds_end blocking limit start (now ∷ nows) p tokens s late =
    elim (Option-cases (acquire_round blocking (some limit) start now p tokens s).0) [
      | inr (r, e) ↦ (r, rw (e, acquire_rounds))
      | inl waits ↦ elim (Bool-cases (leb (start + limit) now)) [
        | inl due ↦
            let (r, e) =
              acquire_round_timeout blocking limit start now p tokens s (leb→le _ _ due) in
            cc
        | inr early ↦
            rw (waits, acquire_rounds)
              (acquire_rounds_end blocking limit start nows p tokens
                (acquire_round blocking (some limit) start now p tokens s).1 (ground arith))
      ]
    ]

-- A call with a timeout ends: whatever the strategy and whatever was asked, if the clock reaches the
-- timeout in some round, then `acquire` has returned or raised by then.
pub acquire_ends :
    (start : ℕ) (nows : List ℕ) (p : String) (tokens : ℕ) (blocking : Option Bool) (limit : ℕ)
    (s : Limiter)
    → any (λ now. leb (start + limit) now) nows ≡ true
    → (r : Reply) × ((acquire start nows p tokens blocking (some limit) s).0 ≡ some r)
unfolding acquire
acquire_ends start nows p tokens blocking limit s late =
    acquire_rounds_end (or_else blocking (elim s.strategy [ block ↦ true | _ ↦ false ])) limit start
      nows p tokens s late
