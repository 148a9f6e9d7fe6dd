-- ===== src/Prelude/Eq.antt =====
-- Python's `==` on the types whose equality the source tests.
use Prim.Native.Nat.{ℕ}
use Prim.Native.String.{String}
use mathlib.Core.Path.{◌≡◌, refl, sym, ap, ◌∙◌}
use mathlib.Core.Logic.{◌↔◌, inl, inr}
use mathlib.Core.Bool.{Bool, true, false, ◌||◌}
use mathlib.Core.List.{List, [], ◌∷◌}
use text.Mathlib.Text.{◌==◌ as str_eq}
use text.Mathlib.TextEquality.{eq_iff}
use rice_factor.Prelude.Tests.{eqb, eqb_iff, Bool-cases}

pub record Eq {ℓ} (A : Type ℓ) : Type ℓ where
  pub same : A → A → Bool
  pub same_iff : (x y : A) → (same x y ≡ true) ↔ (x ≡ y)

instance abbrev pub text_eq : Eq String
text_eq = record { same_iff = eq_iff; same = str_eq }

instance abbrev pub number_eq : Eq ℕ
number_eq = record { same_iff = eqb_iff; same = eqb }

infix 50 ◌==◌
abbrev pub ◌==◌ {ℓ} : {A : Type ℓ} ⦃key : Eq A⦄ → A → A → Bool
◌==◌ ⦃key⦄ = key.same

module _ {ℓ} {A : Type ℓ} ⦃e : Eq A⦄ where
  pub ==_iff : (a b : A) → ((a == b) ≡ true) ↔ (a ≡ b)
  ==_iff a b = e.same_iff a b

  pub ==_refl : (a : A) → (a == a) ≡ true
  ==_refl a = (e.same_iff a a).1 refl

  -- `x in xs`
  abbrev pub contains : A → List A → Bool
  contains a [] = false
  contains a (x ∷ xs) = x == a || contains a xs

-- An injection keeps the test for equality.
pub same_of_inj :
    {A : Type 0} ⦃e : Eq A⦄ (f : A → String) (x y : A)
    → (f x ≡ f y → x ≡ y)
    → (f x == f y) ≡ (x == y)
same_of_inj f x y inj = elim (Bool-cases (x == y)) [
  | inl same ↦ (==_iff (f x) (f y)).1 (ap f ((==_iff x y).0 same)) ∙ sym same
  | inr other ↦ elim (Bool-cases (f x == f y)) [
    | inr apart ↦ apart ∙ sym other
    | inl hit ↦ cc ((==_iff x y).1 (inj ((==_iff (f x) (f y)).0 hit)))
  ]
]
