-- ===== src/Review/Config.antt =====
-- `LifecycleConfig` of rice_factor/domain/models/lifecycle.py: the default policies, and those of a YAML
-- file on top of them. Values of the file have the types that the policies want.
use rice_factor.Prelude.{
  ℕ, ◌≡◌, refl, sym, ◌∙◌, ◌⊎◌, inl, inr, String, Bool, true, false, Option, none, some, List, [],
  ◌∷◌, if◌then◌else◌, Bool-cases, Option-cases, arith,
}
use rice_factor.Prelude.Eq.{◌==◌, ==_iff, ==_refl, text_eq}
use rice_factor.Prelude.Dict.{Dict, get, has, put, get-put, has_iff, IsDict}
use rice_factor.Prelude.Table.{or_default}
use mathlib.Core.Option
use rice_factor.Review.Policy.{LifecyclePolicy, default_policies}

-- The keys of a policy in the file, each given or not (a warning and a threshold may be null), and
-- whether there is any other key.
pub record Settings : Type 0 where
  pub review_after_months : Option ℕ
  pub warning_at_months : Option (Option ℕ)
  pub mandatory_on_violation : Option Bool
  pub coverage_drift_threshold : Option (Option ℕ)
  pub other_keys : Bool

pub data Entry : Type 0 where
  settings : Settings → Entry
  no_mapping : Entry

-- A file that is missing, that cannot be read or is no mapping, or the mapping `policies` under
-- `lifecycle` (empty where there is none).
pub data ConfigFile : Type 0 where
  absent unreadable : ConfigFile
  policies : List (String × Entry) → ConfigFile

unfoldable pub merged : String → LifecyclePolicy → Settings → LifecyclePolicy
merged t default s = record {
  artifact_type = t;
  review_after_months = or_default default.review_after_months s.review_after_months;
  warning_at_months = or_default default.warning_at_months s.warning_at_months;
  mandatory_on_violation = or_default default.mandatory_on_violation s.mandatory_on_violation;
  coverage_drift_threshold = or_default default.coverage_drift_threshold s.coverage_drift_threshold;
}

-- The defaults of the dataclass.
abbrev pub plain_policy : String → LifecyclePolicy
plain_policy t = record {
  artifact_type = t;
  review_after_months = 3;
  warning_at_months = none;
  mandatory_on_violation = false;
  coverage_drift_threshold = none;
}

-- `LifecyclePolicy(artifact_type=..., **policy_data)` raises on another key.
unfoldable pub added : String → Settings → Option LifecyclePolicy
unfolding merged
added t s = if s.other_keys then none else some (merged t (plain_policy t) s)

-- The policy of a type, from the one that it has so far.
unfoldable pub configured : String → Option LifecyclePolicy → Settings → Option LifecyclePolicy
unfolding added
configured t none s = added t s
configured t (some default) s = some (merged t default s)

-- The loop over the entries; `none` where it raises.
unfoldable pub merge :
    List (String × Entry) → Dict String LifecyclePolicy → Option (Dict String LifecyclePolicy)
merge [] d = some d
merge ((t, no_mapping) ∷ es) d = merge es d
merge ((t, settings s) ∷ es) d = elim (configured t (get t d) s) [
  | none ↦ none
  | some p ↦ merge es (put t p d)
]

unfoldable pub from_file : ℕ → ConfigFile → Option (Dict String LifecyclePolicy)
unfolding merge
from_file parts absent = some (default_policies parts)
from_file parts unreadable = some (default_policies parts)
from_file parts (policies es) = merge es (default_policies parts)

unfoldable pub get_policy : String → Dict String LifecyclePolicy → Option LifecyclePolicy
get_policy t d = get t d

-- Of a field: what the file gives, else what the type's default policy has, else the default of the
-- class.
abbrev pub first_given : {A : Type 0} → Option A → Option A → A → A
first_given (some a) default a' = a
first_given none (some a) a' = a
first_given none none a' = a'

-- What the file says of one type.
abbrev pub policy_of : Option Entry → String → Option LifecyclePolicy → Option LifecyclePolicy
policy_of none t default = default
policy_of (some no_mapping) t default = default
policy_of (some (settings s)) t default = some (record {
  artifact_type = t;
  review_after_months =
      first_given s.review_after_months (Option.map (λ p. p.review_after_months) default) 3;
  warning_at_months =
      first_given s.warning_at_months (Option.map (λ p. p.warning_at_months) default) none;
  mandatory_on_violation =
      first_given s.mandatory_on_violation (Option.map (λ p. p.mandatory_on_violation) default)
        false;
  coverage_drift_threshold =
      first_given s.coverage_drift_threshold (Option.map (λ p. p.coverage_drift_threshold) default)
        none;
})

configured-policy_of :
    (t : String) (default : Option LifecyclePolicy) (s : Settings) (p : LifecyclePolicy)
    → configured t default s ≡ some p
    → policy_of (some (settings s)) t default ≡ some p
unfolding configured added merged
configured-policy_of t none s p h = ground arith
configured-policy_of t (some d) s p h = ground arith

-- The policies after the entries are read.
abbrev Configures :
    List (String × Entry) → Dict String LifecyclePolicy → Dict String LifecyclePolicy → Type 0
Configures es d d' = (t : String) → get t d' ≡ policy_of (get t es) t (get t d)

-- An entry for a type with no policy so far that has a key of no policy.
abbrev pub Rejected : List (String × Entry) → Dict String LifecyclePolicy → Type 0
Rejected es d =
    (t : String) × (s : Settings) × (get t es ≡ some (settings s))
    × (get t d ≡ none)
    × (s.other_keys ≡ true)

configured-none :
    (t : String) (default : Option LifecyclePolicy) (s : Settings)
    → configured t default s ≡ none
    → (default ≡ none) × (s.other_keys ≡ true)
unfolding configured added
configured-none t none s h = ground arith
configured-none t (some p) s h = cc

Configures-skip :
    (u : String) (es : List (String × Entry)) (d d' : Dict String LifecyclePolicy)
    → has u es ≡ false
    → Configures es d d'
    → Configures ((u, no_mapping) ∷ es) d d'
unfolding get
Configures-skip u es d d' fresh h t = ground (arith, h t, has_iff u es, ==_iff u t)

Configures-put :
    (u : String) (s : Settings) (p : LifecyclePolicy) (es : List (String × Entry))
    (d d' : Dict String LifecyclePolicy)
    → has u es ≡ false
    → configured u (get u d) s ≡ some p
    → Configures es (put u p d) d'
    → Configures ((u, settings s) ∷ es) d d'
unfolding get
Configures-put u s p es d d' fresh new h t = elim (Bool-cases (u == t)) [
  | inl same ↦
      let at : u ≡ t = (==_iff u t).0 same in
      let rest : get t es ≡ none = rw (← at) ((has_iff u es).0 fresh) in
      let later : get t (put u p d) ≡ some p = ground (arith, get-put u t p d) in
      rw (same) (
        h t
        ∙ (rw (rest, later, policy_of)
            (sym (rw (← at) (configured-policy_of u (get u d) s p new)))))
  | inr other ↦
      let later : get t (put u p d) ≡ get t d = ground (arith, get-put u t p d) in
      rw (other, ← later) (h t)
]

Rejected-later :
    (u : String) (s : Settings) (p : LifecyclePolicy) (es : List (String × Entry))
    (d : Dict String LifecyclePolicy)
    → Rejected es (put u p d)
    → Rejected ((u, settings s) ∷ es) d
unfolding get
Rejected-later u s p es d (t, s', listed, new, key) = elim (Bool-cases (u == t)) [
  | inl same ↦ absurd (ground (arith, get-put u t p d, new))
  | inr other ↦ (t, s', rw other listed, ground (arith, get-put u t p d), key)
]

Configures-nil : (d : Dict String LifecyclePolicy) → Configures [] d d
unfolding get
Configures-nil d t = refl

listed_first :
    (u : String) (s : Settings) (es : List (String × Entry))
    → get u ((u, settings s) ∷ es) ≡ some (settings s)
unfolding get
listed_first u s es = rw (==_refl u) refl

listed_later :
    (u : String) (e : Entry) (es : List (String × Entry))
    → has u es ≡ false
    → (t : String) (s : Settings) → get t es ≡ some (settings s)
    → get t ((u, e) ∷ es) ≡ some (settings s)
unfolding get
listed_later u e es fresh t s h = ground (arith, has_iff u es, ==_iff u t)

merge-cases :
    (es : List (String × Entry)) (d : Dict String LifecyclePolicy)
    → IsDict es
    → ((d' : Dict String LifecyclePolicy) × (merge es d ≡ some d') × Configures es d d')
      ⊎ (merge es d ≡ none) × Rejected es d
unfolding merge IsDict
merge-cases [] d once = inl (d, refl, Configures-nil d)
merge-cases ((u, no_mapping) ∷ es) d once = elim (merge-cases es d once.1) [
  | inl (d', runs, set_up) ↦ inl (d', runs, Configures-skip u es d d' once.0 set_up)
  | inr (fails, (t, s, listed, new, key)) ↦
      inr (fails, (t, s, listed_later u no_mapping es once.0 t s listed, new, key))
]
merge-cases ((u, settings s) ∷ es) d once = elim (Option-cases (configured u (get u d) s)) [
  | inl none_added ↦
      let (new, key) = configured-none u (get u d) s none_added in
      inr (rw (none_added, merge) refl, (u, s, listed_first u s es, new, key))
  | inr (p, added_to) ↦ elim (merge-cases es (put u p d) once.1) [
    | inl (d', runs, set_up) ↦
        inl (d', rw (added_to, merge) runs, Configures-put u s p es d d' once.0 added_to set_up)
    | inr (fails, rejected) ↦ inr (rw (added_to, merge) fails, Rejected-later u s p es d rejected)
  ]
]

-- From a file with each type once, every type has the policy that its entry gives on top of its default
-- (a value that is not given is that of the default, or of the class for a type with none), and the
-- default policy if it has no entry. Otherwise a type with no default has an entry with a key of no
-- policy, and reading the file raises.
pub get_policy-from_file :
    (parts : ℕ) (es : List (String × Entry))
    → IsDict es
    → ((ds : Dict String LifecyclePolicy) × (from_file parts (policies es) ≡ some ds)
        × ((t : String)
            → get_policy t ds ≡ policy_of (get t es) t (get_policy t (default_policies parts))))
      ⊎ (from_file parts (policies es) ≡ none) × Rejected es (default_policies parts)
unfolding from_file get_policy
get_policy-from_file parts es once = merge-cases es (default_policies parts) once
