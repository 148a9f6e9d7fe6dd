-- ===== src/Cache/Lifetimes.antt =====
-- How long a stored value is good.
use rice_factor.Prelude.{ℕ, ◌+◌, ◌≤◌, ◌≡◌, ◌↔◌, refl, Option, none, some, false, arith}
use rice_factor.Cache.{past, expiry}
use mathlib.Core.Option

-- The time to live that is given, else the default of the cache.
abbrev pub lifetime : Option ℕ → Option ℕ → Option ℕ
lifetime none default = default
lifetime (some ttl) default = some ttl

abbrev pub good_until : Option ℕ → Option ℕ → ℕ → Option ℕ
good_until ttl default now = Option.map (λ t. now + t) (lifetime ttl default)

-- Up to the time itself, and for ever where there is none.
abbrev pub IsGood : Option ℕ → ℕ → Type 0
IsGood none now = Unit
IsGood (some at) now = now ≤ at

pub expiry-good_until :
    (ttl default : Option ℕ) (now : ℕ) → expiry ttl default now ≡ good_until ttl default now
unfolding expiry
expiry-good_until (some t) default now = refl
expiry-good_until none (some t) now = refl
expiry-good_until none none now = refl

pub past_iff : (until : Option ℕ) (now : ℕ) → (past until now ≡ false) ↔ IsGood until now
unfolding past
past_iff none now = (λ h. tt, λ h. refl)
past_iff (some at) now = ground arith
