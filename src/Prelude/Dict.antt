-- ===== src/Prelude/Dict.antt =====
-- Python's `dict`: an association list in insertion order. Assigning to a key that is there keeps
-- its place; a new key goes to the end; `del` drops the entry.
use rice_factor.Prelude.Tests.{if◌then◌else◌, Bool-cases}
use rice_factor.Prelude.Lists.{All}
use rice_factor.Prelude.Eq.{Eq, ◌==◌, ==_iff, ==_refl}
use mathlib.Core.Path.{◌≡◌, refl, subst₂}
use mathlib.Core.Logic.{◌↔◌, inl, inr}
use mathlib.Core.Bool.{Bool, true, false}
use mathlib.Core.Option.{Option, none, some}
use mathlib.Core.List.{List, [], ◌∷◌}
use native.Mathlib.Omega.{arith}

abbrev pub Dict {ℓ κ} : Type ℓ → Type κ → Type (ℓ ⊔ κ)
Dict K V = List (K × V)

module _ {ℓ κ} {K : Type ℓ} {V : Type κ} where
  -- `d.keys()` and `d.values()`
  abbrev pub keys : Dict K V → List K
  keys [] = []
  keys ((j, v) ∷ d) = j ∷ keys d

  abbrev pub values : Dict K V → List V
  values [] = []
  values ((j, v) ∷ d) = v ∷ values d

module _ {ℓ κ} {K : Type ℓ} {V : Type κ} ⦃e : Eq K⦄ where
  -- `d.get(k)`
  unfoldable pub get : K → Dict K V → Option V
  get k [] = none
  get k ((j, v) ∷ d) = if j == k then some v else get k d

  -- `k in d`
  unfoldable pub has : K → Dict K V → Bool
  has k [] = false
  has k ((j, v) ∷ d) = if j == k then true else has k d

  -- `d[k] = v`
  unfoldable pub put : K → V → Dict K V → Dict K V
  put k v [] = (k, v) ∷ []
  put k v ((j, w) ∷ d) = if j == k then (j, v) ∷ d else (j, w) ∷ put k v d

  -- `del d[k]`
  unfoldable pub del : K → Dict K V → Dict K V
  del k [] = []
  del k ((j, w) ∷ d) = if j == k then d else (j, w) ∷ del k d

  pub get-put :
      (k j : K) (v : V) (d : Dict K V) → get j (put k v d) ≡ (if k == j then some v else get j d)
  unfolding get put
  get-put k j v [] = refl
  get-put k j v ((i, w) ∷ d) = ground (arith, ==_iff k j, ==_iff i k, ==_iff i j, get-put k j v d)

  pub get-put_self : (k : K) (v : V) (d : Dict K V) → get k (put k v d) ≡ some v
  get-put_self k v d = rw (get-put, ==_refl)

  pub has_iff : (k : K) (d : Dict K V) → (has k d ≡ false) ↔ (get k d ≡ none)
  unfolding get has
  has_iff k [] = ground arith
  has_iff k ((j, v) ∷ d) = ground (arith, has_iff k d)

  pub has-put_self : (k : K) (v : V) (d : Dict K V) → has k (put k v d) ≡ true
  unfolding has put
  has-put_self k v [] = ground (arith, ==_refl k)
  has-put_self k v ((j, w) ∷ d) = ground (arith, has-put_self k v d)

  -- A dictionary holds each key once.
  unfoldable pub IsDict : Dict K V → Type 0
  IsDict [] = Unit
  IsDict ((j, v) ∷ d) = (has j d ≡ false) × IsDict d

  pub has-put :
      (k j : K) (v : V) (d : Dict K V) → has j (put k v d) ≡ (if k == j then true else has j d)
  unfolding has put
  has-put k j v [] = refl
  has-put k j v ((i, w) ∷ d) = ground (arith, ==_iff k j, ==_iff i k, ==_iff i j, has-put k j v d)

  pub put-IsDict : (k : K) (v : V) (d : Dict K V) → IsDict d → IsDict (put k v d)
  unfolding IsDict has put
  put-IsDict k v [] h = ground arith
  put-IsDict k v ((j, w) ∷ d) h = elim (Bool-cases (j == k)) [
    | inl same ↦ rw same h
    | inr other ↦
        rw other (ground (arith, has-put k j v d, ==_iff k j, ==_iff j k), put-IsDict k v d h.1)
  ]

  pub has-del-le : (k j : K) (d : Dict K V) → has j d ≡ false → has j (del k d) ≡ false
  unfolding has del
  has-del-le k j [] h = refl
  has-del-le k j ((i, w) ∷ d) h = ground (arith, has-del-le k j d)

  pub del-IsDict : (k : K) (d : Dict K V) → IsDict d → IsDict (del k d)
  unfolding IsDict has del
  del-IsDict k [] h = h
  del-IsDict k ((j, w) ∷ d) h = elim (Bool-cases (j == k)) [
    | inl same ↦ rw same h.1
    | inr other ↦ rw other (has-del-le k j d h.0, del-IsDict k d h.1)
  ]

  pub get-del :
      (k j : K) (d : Dict K V) → IsDict d → get j (del k d) ≡ (if k == j then none else get j d)
  unfolding IsDict get del
  get-del k j [] h = ground arith
  get-del k j ((i, w) ∷ d) h =
      ground (arith, ==_iff k j, ==_iff i k, ==_iff i j, get-del k j d h.1, has_iff i d)

  pub has-del :
      (k j : K) (d : Dict K V) → IsDict d → has j (del k d) ≡ (if k == j then false else has j d)
  unfolding IsDict has del
  has-del k j [] h = ground arith
  has-del k j ((i, w) ∷ d) h = ground (arith, ==_iff k j, ==_iff i k, ==_iff i j, has-del k j d h.1)

module _ {ℓ κ μ} {K : Type ℓ} {V : Type κ} ⦃e : Eq K⦄ (P : K → V → Type μ) where
  -- What holds of every entry holds of what a lookup finds, and the other way round in a dictionary.
  pub get-All : (k : K) (v : V) (d : Dict K V) → All (λ e. P e.0 e.1) d → get k d ≡ some v → P k v
  unfolding get
  get-All k v [] h g = cc
  get-All k v ((j, w) ∷ d) h g = elim (Bool-cases (j == k)) [
    | inl same ↦ subst₂ P ((==_iff j k).0 same) (ground arith) h.0
    | inr other ↦ get-All k v d h.1 (ground arith)
  ]

  pub All-get :
      (d : Dict K V)
      → IsDict d
      → ((k : K) (v : V) → get k d ≡ some v → P k v)
      → All (λ e. P e.0 e.1) d
  unfolding get IsDict
  All-get [] i h = tt
  All-get ((j, w) ∷ d) i h = (
    h j w (ground (arith, ==_refl j)),
    All-get d i.1 (λ k v g. h k v (ground (arith, ==_iff j k, has_iff j d))),
  )
