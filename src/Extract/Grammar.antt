-- ===== src/Extract/Grammar.antt =====
-- A JSON object as far as its braces: text between braces in which braces balance, string literals are
-- closed, and a backslash takes the next character with it, in a literal and outside.
use rice_factor.Prelude.{ℕ, ◌≡◌, Bool, true, not, ◌&&◌, [], ◌∷◌, ◌++◌, eqb}
use rice_factor.Extract.Scanner.{Text}

abbrev pub quoted : ℕ → Bool
quoted c = not (eqb c b'\\') && not (eqb c b'"')

abbrev pub plain : ℕ → Bool
plain c = quoted c && not (eqb c b'{') && not (eqb c b'}')

-- What stands between the quotes of a literal.
pub data Literal : Text → Type 0 where
  closed : Literal []
  char : (c : ℕ) (s : Text) → quoted c ≡ true → Literal s → Literal (c ∷ s)
  escaped : (c : ℕ) (s : Text) → Literal s → Literal (b'\\' ∷ c ∷ s)

-- What stands between the braces of an object.
pub data Body : Text → Type 0 where
  nil : Body []
  other : (c : ℕ) (b : Text) → plain c ≡ true → Body b → Body (c ∷ b)
  skipped : (c : ℕ) (b : Text) → Body b → Body (b'\\' ∷ c ∷ b)
  literal : (s b : Text) → Literal s → Body b → Body (b'"' ∷ (s ++ (b'"' ∷ b)))
  nested : (o b : Text) → Body o → Body b → Body (b'{' ∷ (o ++ (b'}' ∷ b)))

pub data IsObject : Text → Type 0 where
  braces : (b : Text) → Body b → IsObject (b'{' ∷ (b ++ (b'}' ∷ [])))
