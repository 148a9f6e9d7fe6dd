-- ===== src/Extract/Single.antt =====
-- `_has_multiple_json_objects` over a single object.
use mathlib.Core.List.{append_assoc}
use rice_factor.Prelude.{ℕ, suc, ◌≡◌, refl, ap, ◌∙◌, Bool, true, false, [], ◌∷◌, ◌++◌, arith}
use rice_factor.Extract.Scanner.{
  Text, start, step, second_object, adjacent, has_multiple_json_objects, pos,
}
use rice_factor.Extract.Grammar.{
  quoted, plain, Literal, closed, char, escaped, Body, nil, other, skipped, literal, nested,
  IsObject, braces,
}

module _ (is_space : ℕ → Bool) where
  abbrev second : ℕ → Bool → ℕ → Text → Bool
  second d q n x =
      second_object is_space (record { depth = pos (suc d); in_string = q; escape_next = false }) n
        x

  second-quoted :
      (d n c : ℕ) (x : Text) → quoted c ≡ true → second d true n (c ∷ x) ≡ second d true n x
  unfolding second_object step
  second-quoted d n c x h = ground arith

  second-plain :
      (d n c : ℕ) (x : Text) → plain c ≡ true → second d false n (c ∷ x) ≡ second d false n x
  unfolding second_object step
  second-plain d n c x h = ground arith

  second_escaped :
      (d : ℕ) (q : Bool) (n c : ℕ) (x : Text) → second d q n (b'\\' ∷ c ∷ x) ≡ second d q n x
  unfolding second_object step
  second_escaped d q n c x = ground arith

  second-Literal :
      (s : Text) (d n : ℕ) (x : Text)
      → Literal s
      → second d true n (s ++ (b'"' ∷ x)) ≡ second d false n x
  unfolding second_object step
  second-Literal s d n x closed = refl
  second-Literal s d n x (char c t h l) =
      second-quoted d n c (t ++ (b'"' ∷ x)) h ∙ second-Literal t d n x l
  second-Literal s d n x (escaped c t l) =
      second_escaped d true n c (t ++ (b'"' ∷ x)) ∙ second-Literal t d n x l

  second-Body :
      (b : Text) (d n : ℕ) (x : Text) → Body b → second d false n (b ++ x) ≡ second d false n x
  unfolding second_object step
  second-Body b d n x nil = refl
  second-Body b d n x (other c t h l) = second-plain d n c (t ++ x) h ∙ second-Body t d n x l
  second-Body b d n x (skipped c t l) = second_escaped d false n c (t ++ x) ∙ second-Body t d n x l
  second-Body b d n x (literal s t l h) =
      ap (λ y. second d true n y) (append_assoc s (b'"' ∷ t) x)
      ∙ second-Literal s d n (t ++ x) l
      ∙ second-Body t d n x h
  second-Body b d n x (nested o t h l) =
      ap (λ y. second (suc d) false n y) (append_assoc o (b'}' ∷ t) x)
      ∙ second-Body o (suc d) n (b'}' ∷ (t ++ x)) h
      ∙ second-Body t d n x l

  second-IsObject : (o : Text) → IsObject o → second_object is_space start 0 o ≡ false
  unfolding second_object step
  second-IsObject o (braces b h) = second-Body b 0 1 (b'}' ∷ []) h

  -- In a single object, only the pattern of adjacent braces speaks for several.
  pub has_multiple_json_objects-IsObject :
      (o : Text) → IsObject o → has_multiple_json_objects is_space o ≡ adjacent is_space o
  unfolding has_multiple_json_objects
  has_multiple_json_objects-IsObject o h = rw (second-IsObject o h) (ground arith)
