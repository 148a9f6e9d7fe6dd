-- ===== src/Prelude/Text.antt =====
-- Text as the list of its code points, for code that walks over characters.
use Prim.Native.Nat.{ℕ}
use Prim.Native.Char.{code}
use Prim.Native.String.{String}
use mathlib.Core.Path.{◌≡◌, refl}
use mathlib.Core.Logic.{◌↔◌}
use mathlib.Core.Bool.{Bool, true, false, ◌&&◌}
use mathlib.Core.List.{List, [], ◌∷◌, ◌++◌}
use native.Mathlib.Omega.{arith}
use rice_factor.Prelude.Tests.{eqb, eqb_iff, if◌then◌else◌}
use rice_factor.Prelude.Lists.{is_empty}
use rice_factor.Prelude.Eq.{Eq}

abbrev pub Text : Type 0
Text = List ℕ

abbrev pub codes : String → Text
codes String.[] = []
codes (String.◌∷◌ c s) = code c ∷ codes s

abbrev pub same_text : Text → Text → Bool
same_text [] [] = true
same_text [] (d ∷ u) = false
same_text (c ∷ t) [] = false
same_text (c ∷ t) (d ∷ u) = eqb c d && same_text t u

pub same_text_iff : (t u : Text) → (same_text t u ≡ true) ↔ (t ≡ u)
same_text_iff [] [] = ground arith
same_text_iff [] (d ∷ u) = ground arith
same_text_iff (c ∷ t) [] = ground arith
same_text_iff (c ∷ t) (d ∷ u) = ground (arith, eqb_iff c d, same_text_iff t u)

instance abbrev pub list_eq : Eq Text
list_eq = record { same_iff = same_text_iff; same = same_text }

-- `text.startswith(prefix)`
unfoldable pub starts_with : Text → Text → Bool
starts_with [] t = true
starts_with (p ∷ ps) [] = false
starts_with (p ∷ ps) (c ∷ cs) = eqb p c && starts_with ps cs

pub starts_with-append : (p q t : Text) → starts_with (p ++ q) t ≡ true → starts_with p t ≡ true
unfolding starts_with
starts_with-append [] q t h = refl
starts_with-append (c ∷ p) q [] h = h
starts_with-append (c ∷ p) q (d ∷ t) h = ground (arith, starts_with-append p q t)

pub starts_with_own : (p t : Text) → starts_with p (p ++ t) ≡ true
unfolding starts_with
starts_with_own [] t = refl
starts_with_own (c ∷ p) t = ground (arith, starts_with_own p t)

-- `str.strip`, for Python's white space.
module _ (is_space : ℕ → Bool) where
  unfoldable pub strip_left : Text → Text
  strip_left [] = []
  strip_left (c ∷ cs) = let rest = strip_left cs in if is_space c then rest else c ∷ cs

  unfoldable pub strip_right : Text → Text
  strip_right [] = []
  strip_right (c ∷ cs) =
      let rest = strip_right cs in if is_space c && is_empty rest then [] else c ∷ rest

  unfoldable pub strip : Text → Text
  unfolding strip_left strip_right
  strip t = strip_right (strip_left t)
