-- ===== src/Prelude/Sort.antt =====
-- `list.sort(key=..., reverse=True)`: stable, greatest key first.
use Prim.Native.Nat.{ℕ, ◌≤◌}
use mathlib.Core.List.{List, [], ◌∷◌, Perm}
use mathlib.Core.List.Perm
use mathlib.Core.Logic.{inl, inr}
use native.Mathlib.Omega.{arith}
use rice_factor.Prelude.Tests.{leb, if◌then◌else◌, Bool-cases, leb→le, leb→lt}
use rice_factor.Prelude.Lists.{All}

module _ {ℓ} {A : Type ℓ} (key : A → ℕ) where
  -- Before the first element whose key is not greater: elements with equal keys keep their order.
  unfoldable pub insert_desc : A → List A → List A
  insert_desc x [] = x ∷ []
  insert_desc x (y ∷ ys) = if leb (key y) (key x) then x ∷ y ∷ ys else y ∷ insert_desc x ys

  unfoldable pub sort_desc : List A → List A
  unfolding insert_desc
  sort_desc [] = []
  sort_desc (x ∷ xs) = insert_desc x (sort_desc xs)

  abbrev pub IsDescending : List A → Type 0
  IsDescending [] = Unit
  IsDescending (x ∷ xs) = All (λ y. key y ≤ key x) xs × IsDescending xs

  All-insert_desc :
      (n : ℕ) (x : A) (ys : List A)
      → key x ≤ n
      → All (λ y. key y ≤ n) ys
      → All (λ y. key y ≤ n) (insert_desc x ys)
  unfolding insert_desc
  All-insert_desc n x [] hx h = (hx, tt)
  All-insert_desc n x (y ∷ ys) hx h = elim (Bool-cases (leb (key y) (key x))) [
    | inl le ↦ rw le (hx, h)
    | inr gt ↦ rw gt (h.0, All-insert_desc n x ys hx h.1)
  ]

  All-mono : (m n : ℕ) (ys : List A) → m ≤ n → All (λ y. key y ≤ m) ys → All (λ y. key y ≤ n) ys
  All-mono m n [] le h = tt
  All-mono m n (y ∷ ys) le h = (omega arith, All-mono m n ys le h.1)

  insert_desc-IsDescending :
      (x : A) (ys : List A) → IsDescending ys → IsDescending (insert_desc x ys)
  unfolding insert_desc
  insert_desc-IsDescending x [] h = (tt, tt)
  insert_desc-IsDescending x (y ∷ ys) h = elim (Bool-cases (leb (key y) (key x))) [
    | inl le ↦ rw le ((leb→le _ _ le, All-mono (key y) (key x) ys (leb→le _ _ le) h.0), h)
    | inr gt ↦ rw gt (
      All-insert_desc (key y) x ys (omega (arith, leb→lt _ _ gt)) h.0,
      insert_desc-IsDescending x ys h.1,
    )
  ]

  pub sort_desc-IsDescending : (xs : List A) → IsDescending (sort_desc xs)
  unfolding sort_desc
  sort_desc-IsDescending [] = tt
  sort_desc-IsDescending (x ∷ xs) =
      insert_desc-IsDescending x (sort_desc xs) (sort_desc-IsDescending xs)

  insert_desc-perm : (x : A) (ys : List A) → Perm (insert_desc x ys) (x ∷ ys)
  unfolding insert_desc
  insert_desc-perm x [] = Perm.refl (x ∷ [])
  insert_desc-perm x (y ∷ ys) = elim (Bool-cases (leb (key y) (key x))) [
    | inl le ↦ rw le (Perm.refl (x ∷ y ∷ ys))
    | inr gt ↦ rw gt (Perm.trans (Perm.cons y (insert_desc-perm x ys)) (Perm.swap x y ys))
  ]

  pub sort_desc-perm : (xs : List A) → Perm (sort_desc xs) xs
  unfolding sort_desc
  sort_desc-perm [] = Perm.refl []
  sort_desc-perm (x ∷ xs) =
      Perm.trans (insert_desc-perm x (sort_desc xs)) (Perm.cons x (sort_desc-perm xs))
