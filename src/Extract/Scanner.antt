-- ===== src/Extract/Scanner.antt =====
-- rice_factor/domain/services/json_extractor.py: the loops over characters of `JSONExtractor`. A text is
-- the list of its code points; which of them are white space is a parameter.
use rice_factor.Prelude.{
  ℕ, zero, suc, Bool, true, false, not, ◌&&◌, ◌||◌, Option, none, some, [], ◌∷◌, eqb, take, drop,
  if◌then◌else◌,
}
unfoldable pub use rice_factor.Prelude.Text.{Text, strip_left, strip_right, strip}

pub data ℤ : Type 0 where
  pos negsuc : ℕ → ℤ

abbrev pub increment : ℤ → ℤ
increment (pos n) = pos (suc n)
increment (negsuc zero) = pos zero
increment (negsuc (suc n)) = negsuc n

abbrev pub decrement : ℤ → ℤ
decrement (pos zero) = negsuc zero
decrement (pos (suc n)) = pos n
decrement (negsuc n) = negsuc (suc n)

abbrev pub is_zero : ℤ → Bool
is_zero (pos zero) = true
is_zero _ = false

-- The variables of the loop.
pub record Scan : Type 0 where
  pub depth : ℤ
  pub in_string : Bool
  pub escape_next : Bool

-- One character.
unfoldable pub step : Scan → ℕ → Scan
step s c =
    if s.escape_next
    then record s { escape_next = false }
    else if eqb c b'\\'
    then record s { escape_next = true }
    else if eqb c b'"'
    then record s { in_string = not s.in_string }
    else if s.in_string
    then s
    else if eqb c b'{'
    then record s { depth = increment s.depth }
    else if eqb c b'}'
    then record s { depth = decrement s.depth }
    else s

abbrev pub start : Scan
start = record { depth = pos 0; in_string = false; escape_next = false }

-- Whether the loop comes to the tests for a brace.
abbrev pub outside : Scan → Bool
outside s = not s.escape_next && not s.in_string

-- The loop of `_find_json_object` from the index `i`: the index at which it returns.
unfoldable pub scan : Scan → ℕ → Text → Option ℕ
unfolding step
scan s i [] = none
scan s i (c ∷ cs) =
    let rest = scan (step s c) (suc i) cs in
    if outside s && eqb c b'}' && is_zero (step s c).depth then some i else rest

-- `response[response.find("{"):]`, `none` where there is no brace
unfoldable pub from_brace : Text → Option Text
from_brace [] = none
from_brace (c ∷ cs) = let rest = from_brace cs in if eqb c b'{' then some (c ∷ cs) else rest

abbrev pub starts_with_brace : Text → Bool
starts_with_brace [] = false
starts_with_brace (c ∷ cs) = eqb c b'{'

pub data Found : Type 0 where
  nothing multiple : Found
  object : Text → Found

module _ (is_space : ℕ → Bool) where
  unfoldable pub find_json_object : Text → Found
  unfolding from_brace scan strip
  find_json_object response = elim (from_brace response) [
    | none ↦ nothing
    | some text ↦ elim (scan start 0 text) [
      | none ↦ nothing
      | some i ↦
          if starts_with_brace (strip is_space (drop (suc i) text))
          then multiple
          else object (take (suc i) text)
    ]
  ]

  -- `\}\s*\{` at the beginning of a text, after the closing brace, and anywhere in it.
  unfoldable pub opens_next : Text → Bool
  unfolding strip_left
  opens_next t = starts_with_brace (strip_left is_space t)

  unfoldable pub adjacent : Text → Bool
  unfolding opens_next
  adjacent [] = false
  adjacent (c ∷ cs) = (eqb c b'}' && opens_next cs) || adjacent cs

  -- The loop of `_has_multiple_json_objects`.
  unfoldable pub second_object : Scan → ℕ → Text → Bool
  unfolding step
  second_object s objects [] = false
  second_object s objects (c ∷ cs) =
      let opens = outside s && eqb c b'{' && is_zero s.depth in
      let rest = second_object (step s c) (if opens then suc objects else objects) cs in
      if opens && not (eqb objects 0) then true else rest

  unfoldable pub has_multiple_json_objects : Text → Bool
  unfolding adjacent second_object
  has_multiple_json_objects response = adjacent response || second_object start 0 response
