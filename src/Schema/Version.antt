-- ===== src/Schema/Version.antt =====
-- `SchemaVersion`: parsing, printing and comparing "major.minor".
use rice_factor.Prelude.{
  ℕ, zero, suc, ◌+◌, ◌*◌, ◌/◌, ◌≡◌, ◌↔◌, Bool, true, false, ◌&&◌, Option, none, some, List, [], ◌∷◌,
  ◌++◌, map, String, length, is_empty, ltb, leb, eqb, eqb_iff, if◌then◌else◌, arith,
}
use rice_factor.Prelude.Eq.{Eq}
use rice_factor.Prelude.Text.{Text, strip, strip_left, strip_right}
use Prim.Native.Nat.{◌%◌}
pub mod RoundTrip

-- The components are whole numbers from 0, as `parse` gives them; the class would also take others.
pub record SchemaVersion : Type 0 where
  pub major : ℕ
  pub minor : ℕ

abbrev pub same_version : SchemaVersion → SchemaVersion → Bool
same_version v w = eqb v.major w.major && eqb v.minor w.minor

pub same_version_iff : (v w : SchemaVersion) → (same_version v w ≡ true) ↔ (v ≡ w)
same_version_iff v w = ground (arith, eqb_iff v.major w.major, eqb_iff v.minor w.minor)

instance abbrev pub version_eq : Eq SchemaVersion
version_eq = record { same_iff = same_version_iff; same = same_version }

-- The order of the dataclass: as pairs.
unfoldable pub le_version : SchemaVersion → SchemaVersion → Bool
le_version v w = if ltb v.major w.major then true else eqb v.major w.major && leb v.minor w.minor

-- What `str.strip` takes for white space, and the digit that a character stands for: `\d` of a
-- regular expression and `int` read the same characters.
pub record Chars : Type 0 where
  pub is_space : ℕ → Bool
  pub digit : ℕ → Option ℕ

-- `str` of a number
unfoldable pub digits : ℕ → ℕ → List ℕ
digits zero n = []
digits (suc fuel) n =
    let rest = digits fuel (n / 10) in if ltb n 10 then n ∷ [] else rest ++ (n % 10) ∷ []

unfoldable pub decimal : ℕ → Text
unfolding digits
decimal n = map (λ d. b'0' + d) (digits (suc n) n)

-- `SchemaVersion.__str__`
unfoldable pub str : SchemaVersion → Text
unfolding decimal
str v = decimal v.major ++ (b'.' ∷ decimal v.minor)

-- `int` of a run of digits
unfoldable pub number : ℕ → List ℕ → ℕ
number acc [] = acc
number acc (d ∷ ds) = number (10 * acc + d) ds

pub data Parsed : Type 0 where
  version : SchemaVersion → Parsed
  parse_error : Parsed

module _ (chars : Chars) where
  -- `\d+` with what follows the run
  unfoldable pub digit_run : Text → List ℕ × Text
  digit_run [] = ([], [])
  digit_run (c ∷ cs) = elim (chars.digit c) [
    | none ↦ ([], c ∷ cs)
    | some d ↦ (d ∷ (digit_run cs).0, (digit_run cs).1)
  ]

  -- The second number ends the text: a stripped text ends in no newline, before which `$` matches.
  unfoldable pub parse_minor : List ℕ → Text → Parsed
  unfolding digit_run number
  parse_minor ds t =
      if is_empty (digit_run t).0
      then parse_error
      else if is_empty (digit_run t).1
      then version (record { major = number 0 ds; minor = number 0 (digit_run t).0 })
      else parse_error

  unfoldable pub parse_dot : List ℕ → Text → Parsed
  unfolding parse_minor
  parse_dot ds [] = parse_error
  parse_dot ds (c ∷ cs) = if eqb c b'.' then parse_minor ds cs else parse_error

  -- `SchemaVersion.parse`
  unfoldable pub parse : Text → Parsed
  unfolding digit_run parse_dot strip
  parse t =
      let found = digit_run (strip chars.is_space t) in
      if is_empty found.0 then parse_error else parse_dot found.0 found.1

-- `CompatibilityLevel`
pub data CompatibilityLevel : Type 0 where
  full forward backward breaking : CompatibilityLevel

-- `is_compatible_with`
unfoldable pub is_compatible_with : SchemaVersion → SchemaVersion → CompatibilityLevel
is_compatible_with v other =
    if same_version v other
    then full
    else if eqb v.major other.major
    then if leb other.minor v.minor then backward else forward
    else breaking
