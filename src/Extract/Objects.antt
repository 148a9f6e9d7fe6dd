-- ===== src/Extract/Objects.antt =====
-- What `_find_json_object` finds: the object that begins at the first brace.
use mathlib.Core.Path.{subst, ap₂}
use mathlib.Core.List.{append_assoc}
use rice_factor.Prelude.{
  ℕ, suc, ◌≡◌, ◌↔◌, ◌⊎◌, refl, sym, ap, ◌∙◌, Bool, true, false, some, [], ◌∷◌, ◌++◌, arith, length,
  length-append, eqb, eqb_iff, take, drop, if◌then◌else◌, Bool-cases, Option-cases, inl, inr, All,
}
use rice_factor.Extract.Scanner.{
  Text, start, step, scan, from_brace, starts_with_brace, strip, Found, nothing, multiple, object,
  find_json_object,
}
use rice_factor.Extract.Grammar.{IsObject, braces}
use rice_factor.Extract.Matching.{open_at, scan-Body}
use rice_factor.Extract.Closing.{scan-Ends}

take-append : (o x : Text) → take (length o) (o ++ x) ≡ o
take-append [] x = refl
take-append (c ∷ o) x = ap (λ y. c ∷ y) (take-append o x)

drop-append : (o x : Text) → drop (length o) (o ++ x) ≡ x
drop-append [] x = refl
drop-append (c ∷ o) x = drop-append o x

-- `o` is an object of braces that begins at the first brace of `t`, and `after` what follows it.
pub record First (t o after : Text) : Type 0 where
  pub before : Text
  pub no_brace : All (λ c. eqb c b'{' ≡ false) before
  pub split : t ≡ before ++ (o ++ after)
  pub is_object : IsObject o

from_brace-append :
    (before x : Text)
    → All (λ c. eqb c b'{' ≡ false) before
    → from_brace (before ++ (b'{' ∷ x)) ≡ some (b'{' ∷ x)
unfolding from_brace
from_brace-append [] x a = refl
from_brace-append (c ∷ before) x a = rw a.0 (from_brace-append before x a.1)

-- What stands before the first brace, where there is one.
record Before (t u : Text) : Type 0 where
  before : Text
  no_brace : All (λ c. eqb c b'{' ≡ false) before
  tail : Text
  begins : u ≡ b'{' ∷ tail
  split : t ≡ before ++ u

from_brace-Before : (t u : Text) → from_brace t ≡ some u → Before t u
unfolding from_brace
from_brace-Before [] u e = cc
from_brace-Before (c ∷ cs) u e = elim (Bool-cases (eqb c b'{')) [
  | inl hit ↦
      let all : c ∷ cs ≡ u = cc (rw (hit, from_brace) at e) in
      record {
        before = [];
        no_brace = tt;
        tail = cs;
        begins = sym all ∙ ap (λ x. x ∷ cs) ((eqb_iff c b'{').0 hit);
        split = all;
      }
  | inr miss ↦
      let h = from_brace-Before cs u (rw (miss, from_brace) at e) in
      record {
        before = c ∷ h.before;
        no_brace = (miss, h.no_brace);
        tail = h.tail;
        begins = h.begins;
        split = ap (λ x. c ∷ x) h.split;
      }
]

-- The loop over an object returns at its last character.
scan-IsObject :
    (o after : Text)
    → IsObject o
    → (j : ℕ) × (scan start 0 (o ++ after) ≡ some j) × (suc j ≡ length o)
unfolding scan step
scan-IsObject o after (braces b h) = (
  suc (length b),
  ap (λ y. scan (open_at 0) 1 y) (append_assoc b (b'}' ∷ []) after)
      ∙ scan-Body b 0 1 (b'}' ∷ after) h
      ∙ ap some (omega arith),
  omega (arith, length-append b (b'}' ∷ [])),
)

from_brace_object :
    (before o after : Text)
    → All (λ c. eqb c b'{' ≡ false) before
    → IsObject o
    → from_brace (before ++ (o ++ after)) ≡ some (o ++ after)
from_brace_object before o after a (braces b h) =
    from_brace-append before ((b ++ (b'}' ∷ [])) ++ after) a

from_brace-First : (t o after : Text) → First t o after → from_brace t ≡ some (o ++ after)
from_brace-First t o after f =
    ap from_brace f.split ∙ from_brace_object f.before o after f.no_brace f.is_object

scan-start :
    (u tail : Text) (j : ℕ)
    → u ≡ b'{' ∷ tail
    → scan start 0 u ≡ some j
    → (o : Text) × (after : Text) × IsObject o × (u ≡ o ++ after)
unfolding scan step
scan-start u tail j e r =
    let h = scan-Ends tail 0 1 j false false (ap (scan start 0) (sym e) ∙ r) in
    let (b, body, closing) = h.shape in
    (
      b'{' ∷ h.taken,
      h.rest,
      subst IsObject (ap (λ x. b'{' ∷ x) (sym closing)) (braces b body),
      e ∙ ap (λ x. b'{' ∷ x) h.split,
    )

module _ (is_space : ℕ → Bool) where
  abbrev cut : ℕ → Text → Found
  cut k u = if starts_with_brace (strip is_space (drop k u)) then multiple else object (take k u)

  abbrev outcome : Text → Text → Found
  outcome o after = if starts_with_brace (strip is_space after) then multiple else object o

  find-First : (t o after : Text) → First t o after → find_json_object is_space t ≡ outcome o after
  unfolding find_json_object
  find-First t o after f =
      let (j, ends, last) = scan-IsObject o after f.is_object in
      rw (from_brace-First t o after f, find_json_object, ends)
        (ap (λ k. cut k (o ++ after)) last
          ∙ ap₂ (λ x y. if starts_with_brace (strip is_space x) then multiple else object y)
              (drop-append o after) (take-append o after))

  find-multiple :
      (t o after : Text)
      → First t o after
      → starts_with_brace (strip is_space after) ≡ true
      → find_json_object is_space t ≡ multiple
  find-multiple t o after f more = find-First t o after f ∙ rw more refl

  find-object :
      (t o after : Text)
      → First t o after
      → starts_with_brace (strip is_space after) ≡ false
      → find_json_object is_space t ≡ object o
  find-object t o after f no_more = find-First t o after f ∙ rw no_more refl

  find-cases :
      (t : Text)
      → (find_json_object is_space t ≡ nothing) ⊎ ((o : Text) × (after : Text) × First t o after)
  unfolding find_json_object
  find-cases t = elim (Option-cases (from_brace t)) [
    | inl gone ↦ inl (rw (gone, find_json_object) refl)
    | inr (u, there) ↦ elim (Option-cases (scan start 0 u)) [
      | inl unclosed ↦ inl (rw (there, find_json_object, unclosed) refl)
      | inr (j, ends) ↦
          let h = from_brace-Before t u there in
          let (o, after, is_object, split) = scan-start u h.tail j h.begins ends in
          inr (
            o,
            after,
            record {
              before = h.before;
              no_brace = h.no_brace;
              split = h.split ∙ ap (λ x. h.before ++ x) split;
              is_object = is_object;
            },
          )
    ]
  ]

  -- An object is found exactly if it begins at the first brace and the text after it, without white
  -- space, does not begin with a brace; that there are several is reported exactly if an object begins
  -- at the first brace and the text after it does.
  pub find_json_object_iff :
      (t o : Text)
      → ((find_json_object is_space t ≡ object o)
          ↔ ((after : Text) × First t o after × (starts_with_brace (strip is_space after) ≡ false)))
        × ((find_json_object is_space t ≡ multiple) ↔ (
            (p : Text) × (after : Text) × First t p after
            × (starts_with_brace (strip is_space after) ≡ true)))
  find_json_object_iff t o = (
    (
      (λ e. elim (find-cases t) [
        | inl gone ↦ cc
        | inr (p, after, f) ↦ elim (Bool-cases (starts_with_brace (strip is_space after))) [
          | inl more ↦ cc (find-multiple t p after f more)
          | inr no_more ↦
              let same : p ≡ o = cc (find-object t p after f no_more) in
              (after, subst (λ x. First t x after) same f, no_more)
        ]
      ]),
      (λ (after, f, no_more). find-object t o after f no_more),
    ),
    (
      (λ e. elim (find-cases t) [
        | inl gone ↦ cc
        | inr (p, after, f) ↦ elim (Bool-cases (starts_with_brace (strip is_space after))) [
          | inl more ↦ (p, after, f, more)
          | inr no_more ↦ cc (find-object t p after f no_more)
        ]
      ]),
      (λ (p, after, f, more). find-multiple t p after f more),
    ),
  )
