-- ===== src/Extract/Examples.antt =====
-- Responses of a model, with blanks and line ends as white space and no code fence.
use Prim.Native.Char.{code}
use rice_factor.Prelude.{
  ℕ, ◌≡◌, ◌↔◌, ◌⊎◌, refl, String, Bool, true, false, ◌&&◌, ◌||◌, List, [], ◌∷◌, eqb, leb,
}
use rice_factor.Extract.Scanner.{
  Text, starts_with_brace, strip, multiple, object, adjacent, has_multiple_json_objects,
  find_json_object,
}
use rice_factor.Extract.Grammar.{IsObject, braces, nil, other, literal, nested, char, closed}
use rice_factor.Extract.Objects.{First, find_json_object_iff}
use rice_factor.Extract.Extractor.{
  json, multiple_artifacts, extract, extract_from, find_json_in_fences,
}
use rice_factor.Extract.Whole.{extract-IsObject, extract_json}

abbrev codes : String → Text
codes String.[] = []
codes (String.◌∷◌ c s) = code c ∷ codes s

abbrev blank : ℕ → Bool
blank c = eqb c b' ' || eqb c b'\n'

abbrev letter : ℕ → Bool
letter c = leb b'a' c && leb c b'z'

abbrev no_fences : Text → List Text
no_fences t = []

abbrev answer : Text
answer = codes "{\"a\": {}}"

abbrev raw_answer : Text
raw_answer = codes " {\"a\": {}}\n"

answer-IsObject : IsObject (strip blank raw_answer)
unfolding strip
answer-IsObject = braces (codes "\"a\": {}") (
    literal (codes "a") (codes ": {}") (char b'a' [] refl closed)
      (other b':' (codes " {}") refl (other b' ' (codes "{}") refl (nested [] [] nil nil))))

answer_apart : adjacent blank (strip blank raw_answer) ≡ false
unfolding strip adjacent
answer_apart = refl

extract-IsObject_example : extract blank letter no_fences raw_answer ≡ json (strip blank raw_answer)
extract-IsObject_example =
    extract-IsObject blank letter no_fences raw_answer answer-IsObject refl answer_apart

extract_json_example :
    ((after : Text) × First (strip blank raw_answer) (strip blank raw_answer) after)
    ⊎ ((strip blank raw_answer ≡ strip blank raw_answer)
        × (starts_with_brace (strip blank raw_answer) ≡ true)
        × (¬ ((o : Text) × (after : Text) × First (strip blank raw_answer) o after)))
extract_json_example =
    extract_json blank letter no_fences raw_answer (strip blank raw_answer) refl
      (extract-IsObject blank letter no_fences raw_answer answer-IsObject refl answer_apart)

find_json_object_iff_example :
    ((find_json_object blank raw_answer ≡ object answer) ↔ (
      (after : Text) × First raw_answer answer after
      × (starts_with_brace (strip blank after) ≡ false)))
    × ((find_json_object blank raw_answer ≡ multiple) ↔ (
        (p : Text) × (after : Text) × First raw_answer p after
        × (starts_with_brace (strip blank after) ≡ true)))
find_json_object_iff_example = find_json_object_iff blank raw_answer answer

-- Braces in a literal count for the pattern of adjacent braces.
braces_in_literal : extract blank letter no_fences (codes "{\"a\": \"}{\"}") ≡ multiple_artifacts
unfolding extract extract_from strip find_json_in_fences has_multiple_json_objects
braces_in_literal = refl

-- A response whose braces do not match is returned.
unmatched : extract blank letter no_fences (codes "{\"a\": 1") ≡ json (codes "{\"a\": 1")
unfolding extract extract_from strip find_json_in_fences has_multiple_json_objects find_json_object
unmatched = refl
