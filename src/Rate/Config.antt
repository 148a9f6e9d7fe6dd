-- ===== src/Rate/Config.antt =====
-- rice_factor/domain/services/rate_limiter.py: `get_limits`, `get_usage`, `load_from_dict` and `to_dict`.
use rice_factor.Prelude.{
  ℕ, suc, ◌≡◌, refl, sym, ap, ◌∙◌, String, Option, none, some, List, [], ◌∷◌, ◌++◌, length,
  append-nil_lem,
}
use rice_factor.Prelude.Eq.{text_eq}
use rice_factor.Prelude.Dict.{Dict, get, put, IsDict}
use rice_factor.Prelude.Table.{put-fresh_lem, append_snoc, IsDict-append_fresh}
use rice_factor.Rate.Bucket.{TokenBucket, available}
use rice_factor.Rate.Limiter.{
  ProviderLimits, Limiter, Settings, or_else, new_limiter, new_limits, configure,
}
use mathlib.Core.Path.{subst}

unfoldable pub get_limits : String → Limiter → Option ProviderLimits
get_limits p s = get p s.limits

-- A bucket that is asked for what is available is refilled.
unfoldable pub asked : ℕ → String → Dict String TokenBucket → ℕ × Dict String TokenBucket
unfolding available
asked now p d = elim (get p d) [
  | none ↦ (0, d)
  | some b ↦ ((available now b).0, put p (available now b).1 d)
]

pub record Usage : Type 0 where
  pub limits : ProviderLimits
  pub concurrent_requests : ℕ
  pub requests_available : ℕ
  pub tokens_available : ℕ
  pub daily_tokens_used : ℕ

-- `none` for a provider that is not configured
unfoldable pub get_usage : ℕ → String → Limiter → Option Usage × Limiter
unfolding asked
get_usage now p s = elim (get p s.limits) [
  | none ↦ (none, s)
  | some l ↦
      let (requests, request_buckets) = asked now p s.request_buckets in
      let (tokens, token_buckets) = asked now p s.token_buckets in
      (
        some (record {
          limits = l;
          concurrent_requests = or_else (get p s.concurrent) 0;
          requests_available = requests;
          tokens_available = tokens;
          daily_tokens_used = or_else (get p s.daily_tokens) 0;
        }),
        record s { request_buckets = request_buckets; token_buckets = token_buckets },
      )
]

-- What stands under a provider: a dictionary with its settings (enabled where it does not say), or
-- anything else.
pub data Section : Type 0 where
  section : Settings → Section
  no_section : Section

unfoldable pub load_from_dict : ℕ → List (String × Section) → Limiter → ℕ × Limiter
unfolding configure
load_from_dict now [] s = (0, s)
load_from_dict now ((p, no_section) ∷ es) s = load_from_dict now es s
load_from_dict now ((p, section c) ∷ es) s =
    let (count, s') = load_from_dict now es (configure now p c s) in (suc count, s')

unfoldable pub exported : ProviderLimits → Settings
exported l = record {
  requests_per_minute = some l.requests_per_minute;
  tokens_per_minute = some l.tokens_per_minute;
  tokens_per_day = some l.tokens_per_day;
  concurrent_requests = some l.concurrent_requests;
  enabled = l.enabled;
}

unfoldable pub sections : Dict String ProviderLimits → List (String × Section)
unfolding exported
sections [] = []
sections ((p, l) ∷ d) = (p, section (exported l)) ∷ sections d

unfoldable pub to_dict : Limiter → List (String × Section)
unfolding sections
to_dict s = sections s.limits

load-sections :
    (now : ℕ) (d : Dict String ProviderLimits) (s : Limiter)
    → IsDict (s.limits ++ d)
    → ((load_from_dict now (sections d) s).0 ≡ length d)
      × ((load_from_dict now (sections d) s).1.limits ≡ s.limits ++ d)
unfolding load_from_dict sections configure new_limits
load-sections now [] s once = (refl, sym (append-nil_lem s.limits))
load-sections now ((p, l) ∷ d) s once =
    let s' = configure now p (exported l) s in
    let grown : s'.limits ≡ s.limits ++ ((p, l) ∷ []) =
      put-fresh_lem p l s.limits (IsDict-append_fresh p l s.limits d once) in
    let joined : s'.limits ++ d ≡ s.limits ++ ((p, l) ∷ d) =
      ap (λ x. x ++ d) grown ∙ append_snoc s.limits d (p, l) in
    let (count, rest) = load-sections now d s' (subst (λ x. IsDict x) (sym joined) once) in
    (ap suc count, rest ∙ joined)

-- A new limiter that loads what another exports has its limits, and counts its providers.
pub load_from_dict-to_dict :
    (now : ℕ) (s : Limiter)
    → IsDict s.limits
    → ((load_from_dict now (to_dict s) new_limiter).0 ≡ length s.limits)
      × ((load_from_dict now (to_dict s) new_limiter).1.limits ≡ s.limits)
unfolding to_dict new_limiter
load_from_dict-to_dict now s once = load-sections now s.limits new_limiter once
