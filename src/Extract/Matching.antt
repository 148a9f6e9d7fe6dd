-- ===== src/Extract/Matching.antt =====
-- The loop over an object returns at its last brace, and where it returns an object ends.
use mathlib.Core.List.{append_assoc}
use rice_factor.Prelude.{
  ℕ, suc, ◌+◌, ◌≡◌, ap, ◌∙◌, Bool, true, false, ◌∷◌, ◌++◌, arith, length, length-append,
}
use rice_factor.Extract.Scanner.{Text, pos, Scan, step, scan}
use rice_factor.Extract.Grammar.{
  quoted, plain, Literal, closed, char, escaped, Body, nil, other, skipped, literal, nested,
}

-- `d` objects around the current one are open; between characters of text, and inside a literal.
abbrev pub open_at : ℕ → Scan
open_at d = record { depth = pos (suc d); in_string = false; escape_next = false }

abbrev pub quoting : ℕ → Scan
quoting d = record { depth = pos (suc d); in_string = true; escape_next = false }

abbrev pub escaping : Bool → ℕ → Scan
escaping q d = record { depth = pos (suc d); in_string = q; escape_next = true }

pub scan-quoted :
    (d i c : ℕ) (x : Text)
    → quoted c ≡ true
    → scan (quoting d) i (c ∷ x) ≡ scan (quoting d) (suc i) x
unfolding scan step
scan-quoted d i c x h = ground arith

pub scan-plain :
    (d i c : ℕ) (x : Text)
    → plain c ≡ true
    → scan (open_at d) i (c ∷ x) ≡ scan (open_at d) (suc i) x
unfolding scan step
scan-plain d i c x h = ground arith

scan_escaped :
    (q : Bool) (d i c : ℕ) (x : Text)
    → scan (record { depth = pos (suc d); in_string = q; escape_next = false }) i (b'\\' ∷ c ∷ x)
      ≡ scan (record { depth = pos (suc d); in_string = q; escape_next = false }) (suc (suc i)) x
unfolding scan step
scan_escaped q d i c x = ground arith

-- The loop passes over the rest of a literal, and over what stands between two braces.
scan-Literal :
    (s : Text) (d i : ℕ) (x : Text)
    → Literal s
    → scan (quoting d) i (s ++ (b'"' ∷ x)) ≡ scan (open_at d) (suc (i + length s)) x
unfolding scan step
scan-Literal s d i x closed = ap (λ k. scan (open_at d) k x) (omega arith)
scan-Literal s d i x (char c t h l) =
    scan-quoted d i c (t ++ (b'"' ∷ x)) h
    ∙ scan-Literal t d (suc i) x l
    ∙ ap (λ k. scan (open_at d) k x) (omega arith)
scan-Literal s d i x (escaped c t l) =
    scan_escaped true d i c (t ++ (b'"' ∷ x))
    ∙ scan-Literal t d (suc (suc i)) x l
    ∙ ap (λ k. scan (open_at d) k x) (omega arith)

pub scan-Body :
    (b : Text) (d i : ℕ) (x : Text)
    → Body b
    → scan (open_at d) i (b ++ x) ≡ scan (open_at d) (i + length b) x
unfolding scan step
scan-Body b d i x nil = ap (λ k. scan (open_at d) k x) (omega arith)
scan-Body b d i x (other c t h l) =
    scan-plain d i c (t ++ x) h
    ∙ scan-Body t d (suc i) x l
    ∙ ap (λ k. scan (open_at d) k x) (omega arith)
scan-Body b d i x (skipped c t l) =
    scan_escaped false d i c (t ++ x)
    ∙ scan-Body t d (suc (suc i)) x l
    ∙ ap (λ k. scan (open_at d) k x) (omega arith)
scan-Body b d i x (literal s t l h) =
    ap (λ y. scan (quoting d) (suc i) y) (append_assoc s (b'"' ∷ t) x)
    ∙ scan-Literal s d (suc i) (t ++ x) l
    ∙ scan-Body t d (suc (suc i + length s)) x h
    ∙ ap (λ k. scan (open_at d) k x) (omega (arith, length-append s (b'"' ∷ t)))
scan-Body b d i x (nested o t h l) =
    ap (λ y. scan (open_at (suc d)) (suc i) y) (append_assoc o (b'}' ∷ t) x)
    ∙ scan-Body o (suc d) (suc i) (b'}' ∷ (t ++ x)) h
    ∙ scan-Body t d (suc (suc i + length o)) x l
    ∙ ap (λ k. scan (open_at d) k x) (omega (arith, length-append o (b'}' ∷ t)))
