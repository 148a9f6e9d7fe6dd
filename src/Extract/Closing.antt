-- ===== src/Extract/Closing.antt =====
-- Where the loop returns, the object that it was started in ends.
use mathlib.Core.Path.{subst}
use mathlib.Core.List.{append_assoc}
use rice_factor.Prelude.{
  ℕ, zero, suc, ◌+◌, ◌≡◌, refl, sym, ap, ◌∙◌, Bool, true, false, some, [], ◌∷◌, ◌++◌, arith, length,
  eqb, eqb_iff, Bool-cases, inl, inr,
}
use rice_factor.Extract.Scanner.{Text, pos, Scan, step, scan}
use rice_factor.Extract.Matching.{scan-quoted, scan-plain}
use rice_factor.Extract.Grammar.{
  quoted, plain, Literal, closed, char, escaped, Body, nil, other, skipped, literal, nested,
}

-- A text that closes the current object and the `d` around it, and no more.
abbrev pub Closes : ℕ → Text → Type 0
Closes zero t = (b : Text) × Body b × (t ≡ b ++ (b'}' ∷ []))
Closes (suc d) t = (b : Text) × (u : Text) × Body b × Closes d u × (t ≡ b ++ (b'}' ∷ u))

-- What may stand before a body may stand before the text.
append-Closes :
    (d : ℕ) (p t : Text) → ((b : Text) → Body b → Body (p ++ b)) → Closes d t → Closes d (p ++ t)
append-Closes zero p t f (b, h, e) =
    (p ++ b, f b h, ap (λ x. p ++ x) e ∙ sym (append_assoc p b (b'}' ∷ [])))
append-Closes (suc d) p t f (b, u, h, more, e) =
    (p ++ b, u, f b h, more, ap (λ x. p ++ x) e ∙ sym (append_assoc p b (b'}' ∷ u)))

close-Closes : (d : ℕ) (t : Text) → Closes d t → Closes (suc d) (b'}' ∷ t)
close-Closes d t h = ([], t, nil, h, refl)

quote-Closes : (d : ℕ) (s t : Text) → Literal s → Closes d t → Closes d (b'"' ∷ (s ++ (b'"' ∷ t)))
quote-Closes d s t l h = subst (Closes d) (ap (λ x. b'"' ∷ x) (append_assoc s (b'"' ∷ []) t)) (
    append-Closes d (b'"' ∷ (s ++ (b'"' ∷ []))) t
      (λ b g.
        subst Body (ap (λ x. b'"' ∷ x) (sym (append_assoc s (b'"' ∷ []) b))) (literal s b l g))
      h)

open-Closes : (d : ℕ) (t : Text) → Closes (suc d) t → Closes d (b'{' ∷ t)
open-Closes d t (o, u, h, more, e) =
    subst (Closes d) (ap (λ x. b'{' ∷ x) (append_assoc o (b'}' ∷ []) u ∙ sym e)) (
      append-Closes d (b'{' ∷ (o ++ (b'}' ∷ []))) u
        (λ b g.
          subst Body (ap (λ x. b'{' ∷ x) (sym (append_assoc o (b'}' ∷ []) b))) (nested o b h g))
        more)

-- The same from inside a literal, and after a backslash.
abbrev pub Quotes : ℕ → Bool → Text → Type 0
Quotes d false t = Closes d t
Quotes d true t = (s : Text) × (u : Text) × Literal s × Closes d u × (t ≡ s ++ (b'"' ∷ u))

abbrev pub Remains : ℕ → Bool → Bool → Text → Type 0
Remains d q false t = Quotes d q t
Remains d q true t = (c : ℕ) × (u : Text) × Quotes d q u × (t ≡ c ∷ u)

skip-Quotes : (d c : ℕ) (q : Bool) (t : Text) → Quotes d q t → Quotes d q (b'\\' ∷ c ∷ t)
skip-Quotes d c false t h = append-Closes d (b'\\' ∷ c ∷ []) t (λ b g. skipped c b g) h
skip-Quotes d c true t (s, u, l, h, e) =
    (b'\\' ∷ c ∷ s, u, escaped c s l, h, ap (λ x. b'\\' ∷ c ∷ x) e)

abbrev pub state_at : ℕ → Bool → Bool → Scan
state_at d q e = record { depth = pos (suc d); in_string = q; escape_next = e }

-- `text` begins with something in `P` whose last character is at `j`, where it begins at `i`.
pub record Ends (P : Text → Type 0) (i : ℕ) (text : Text) (j : ℕ) : Type 0 where
  pub taken : Text
  pub rest : Text
  pub shape : P taken
  pub split : text ≡ taken ++ rest
  pub place : suc j ≡ i + length taken

longer :
    {P Q : Text → Type 0}
    → (i j c : ℕ) (x : Text) → ((t : Text) → P t → Q (c ∷ t))
    → Ends P (suc i) x j
    → Ends Q i (c ∷ x) j
longer i j c x f h = record {
  taken = c ∷ h.taken;
  rest = h.rest;
  shape = f h.taken h.shape;
  split = ap (λ y. c ∷ y) h.split;
  place = omega (arith, h.place);
}

escape-Quotes : (d : ℕ) (q : Bool) (t : Text) → Remains d q true t → Quotes d q (b'\\' ∷ t)
escape-Quotes d q t (c, u, h, e) =
    subst (λ y. Quotes d q (b'\\' ∷ y)) (sym e) (skip-Quotes d c q u h)

by_char :
    (P : ℕ → Type 0)
    → P b'\\'
    → P b'"'
    → P b'{'
    → P b'}'
    → ((c : ℕ) → plain c ≡ true → P c)
    → (c : ℕ) → P c
by_char P backslash quote opens closes others c = elim (Bool-cases (eqb c b'\\')) [
  | inl hit ↦ subst P (sym ((eqb_iff c b'\\').0 hit)) backslash
  | inr not_backslash ↦ elim (Bool-cases (eqb c b'"')) [
    | inl hit ↦ subst P (sym ((eqb_iff c b'"').0 hit)) quote
    | inr not_quote ↦ elim (Bool-cases (eqb c b'{')) [
      | inl hit ↦ subst P (sym ((eqb_iff c b'{').0 hit)) opens
      | inr not_open ↦ elim (Bool-cases (eqb c b'}')) [
        | inl hit ↦ subst P (sym ((eqb_iff c b'}').0 hit)) closes
        | inr not_close ↦ others c (rw (not_backslash, not_quote, not_open, not_close) refl)
      ]
    ]
  ]
]

-- One turn of the loop, inside a literal and between characters of text, where the rest is settled.
module _ (cs : Text)
    (rest : (d i j : ℕ) (q e : Bool)
      → scan (state_at d q e) i cs ≡ some j
      → Ends (Remains d q e) i cs j) where
  quoting-Ends :
      (d i j c : ℕ)
      → scan (state_at d true false) i (c ∷ cs) ≡ some j
      → Ends (Quotes d true) i (c ∷ cs) j
  unfolding scan step
  quoting-Ends d i j =
      let char_Ends : (c : ℕ)
          → quoted c ≡ true
          → scan (state_at d true false) i (c ∷ cs) ≡ some j
          → Ends (Quotes d true) i (c ∷ cs) j =
        λ c h r.
          longer i j c cs (λ t (s, u, l, k, e). (c ∷ s, u, char c s h l, k, ap (λ x. c ∷ x) e))
            (rest d (suc i) j true false (sym (scan-quoted d i c cs h) ∙ r)) in
      by_char
        (λ c. scan (state_at d true false) i (c ∷ cs) ≡ some j → Ends (Quotes d true) i (c ∷ cs) j)
        (λ r. longer i j b'\\' cs (escape-Quotes d true) (rest d (suc i) j true true r))
        (λ r. longer i j b'"' cs (λ t h. ([], t, closed, h, refl)) (rest d (suc i) j false false r))
        (char_Ends b'{' refl) (char_Ends b'}' refl) (λ c h. char_Ends c (ground (arith, h)))

  brace-Ends :
      (d i j : ℕ)
      → scan (state_at d false false) i (b'}' ∷ cs) ≡ some j
      → Ends (Closes d) i (b'}' ∷ cs) j
  unfolding scan step
  brace-Ends zero i j r = record {
    taken = b'}' ∷ [];
    rest = cs;
    shape = ([], nil, refl);
    split = refl;
    place = ground (arith, r);
  }
  brace-Ends (suc d) i j r = longer i j b'}' cs (close-Closes d) (rest d (suc i) j false false r)

  open-Ends :
      (d i j c : ℕ)
      → scan (state_at d false false) i (c ∷ cs) ≡ some j
      → Ends (Closes d) i (c ∷ cs) j
  unfolding scan step
  open-Ends d i j =
      by_char
        (λ c. scan (state_at d false false) i (c ∷ cs) ≡ some j → Ends (Closes d) i (c ∷ cs) j)
        (λ r. longer i j b'\\' cs (escape-Quotes d false) (rest d (suc i) j false true r))
        (λ r.
          longer i j b'"' cs
            (λ t (s, u, l, h, e). subst (λ y. Closes d (b'"' ∷ y)) (sym e) (quote-Closes d s u l h))
            (rest d (suc i) j true false r))
        (λ r. longer i j b'{' cs (open-Closes d) (rest (suc d) (suc i) j false false r))
        (brace-Ends d i j)
        (λ c h r.
          longer i j c cs (λ t. append-Closes d (c ∷ []) t (λ b g. other c b h g))
            (rest d (suc i) j false false (sym (scan-plain d i c cs h) ∙ r)))

pub scan-Ends :
    (x : Text) (d i j : ℕ) (q e : Bool)
    → scan (state_at d q e) i x ≡ some j
    → Ends (Remains d q e) i x j
unfolding scan step
scan-Ends [] d i j q e r = cc
scan-Ends (c ∷ cs) d i j q true r =
    longer i j c cs (λ t h. (c, t, h, refl)) (scan-Ends cs d (suc i) j q false (ground (arith, r)))
scan-Ends (c ∷ cs) d i j true false r = quoting-Ends cs (scan-Ends cs) d i j c r
scan-Ends (c ∷ cs) d i j false false r = open-Ends cs (scan-Ends cs) d i j c r
