-- ===== src/Rate/Sections.antt =====
-- All critical sections of the limiter, those of `configure` and `reset` included, as steps.
use rice_factor.Prelude.{
  ℕ, ◌+◌, ◌≤◌, ◌≡◌, true, String, Option, none, some, List, [], ◌∷◌, if◌then◌else◌,
}
use rice_factor.Prelude.Eq.{◌==◌, text_eq}
use rice_factor.Rate.Limiter.{Limiter, Settings, configure, reset}
use rice_factor.Rate.Steps.{Event, step, running}
use rice_factor.Rate.Spending.{time_of, grant}

-- A critical section of a thread, in any method that takes the lock and changes what is counted.
pub data CriticalSection : Type 0 where
  event : Event → CriticalSection
  configures : ℕ → String → Settings → CriticalSection
  resets : ℕ → Option String → CriticalSection

unfoldable pub enter : CriticalSection → Limiter → Limiter
enter (event e) s = step e s
enter (configures now p c) s = configure now p c s
enter (resets now q) s = reset now q s

-- Requests to `p` that run after the section, if `n` ran before: `configure` and `reset` end none.
unfoldable pub running_after : String → CriticalSection → Limiter → ℕ → ℕ
running_after p (event e) s n = running p e s n
running_after p (configures now q c) s n = n
running_after p (resets now q) s n = n

unfoldable pub in_flight_after : String → List CriticalSection → Limiter → ℕ → ℕ
unfolding running_after enter
in_flight_after p [] s n = n
in_flight_after p (x ∷ xs) s n = in_flight_after p xs (enter x s) (running_after p x s n)

-- How often `p` is reset.
unfoldable pub reset_count : String → List CriticalSection → ℕ
reset_count p [] = 0
reset_count p (resets now none ∷ xs) = reset_count p xs + 1
reset_count p (resets now (some q) ∷ xs) = let n = reset_count p xs in if q == p then n + 1 else n
reset_count p (x ∷ xs) = reset_count p xs

-- The reading of the clock in a section, and the requests to `p` that are granted in full in it.
abbrev pub clock : CriticalSection → ℕ
clock (event e) = time_of e
clock (configures now q c) = now
clock (resets now q) = now

unfoldable pub granted_in : String → CriticalSection → Limiter → ℕ
granted_in p (event e) s = grant p e s
granted_in p (configures now q c) s = 0
granted_in p (resets now q) s = 0

unfoldable pub grants : String → List CriticalSection → Limiter → ℕ
unfolding granted_in enter
grants p [] s = 0
grants p (x ∷ xs) s = granted_in p x s + grants p xs (enter x s)

-- How often `p` may get a new bucket.
unfoldable pub renewals : String → List CriticalSection → ℕ
renewals p [] = 0
renewals p (event e ∷ xs) = renewals p xs
renewals p (configures now q c ∷ xs) = let n = renewals p xs in if q == p then n + 1 else n
renewals p (resets now none ∷ xs) = renewals p xs + 1
renewals p (resets now (some q) ∷ xs) = let n = renewals p xs in if q == p then n + 1 else n

-- The clock does not run backwards.
abbrev pub InOrder : ℕ → List CriticalSection → Type 0
InOrder t [] = Unit
InOrder t (x ∷ xs) = (t ≤ clock x) × InOrder (clock x) xs

abbrev pub end_time : ℕ → List CriticalSection → ℕ
end_time t [] = t
end_time t (x ∷ xs) = end_time (clock x) xs

-- Where `p` is configured, it stays enabled, and a limit that is given is at most the one here.
abbrev pub AtMost : ℕ → Option ℕ → Type 0
AtMost m none = Unit
AtMost m (some n) = n ≤ m

abbrev pub Keeps : String → (Settings → Option ℕ) → ℕ → CriticalSection → Type 0
Keeps p limit m (configures now q c) = q ≡ p → (c.enabled ≡ true) × AtMost m (limit c)
Keeps p limit m x = Unit

abbrev pub KeepsAll : String → (Settings → Option ℕ) → ℕ → List CriticalSection → Type 0
KeepsAll p limit m [] = Unit
KeepsAll p limit m (x ∷ xs) = Keeps p limit m x × KeepsAll p limit m xs
