-- ===== src/Schema/Version/RoundTrip.antt =====
-- Printing and parsing a version.
use rice_factor.Prelude.{
  ℕ, zero, suc, ◌+◌, ◌*◌, ◌/◌, ◌<◌, ◌≡◌, refl, inl, inr, Bool, false, none, some, List, [], ◌∷◌,
  ◌++◌, map, All, All-append, ltb, is_empty, Bool-cases, arith,
}
use rice_factor.Prelude.Text.{Text, strip, strip_left, strip_right}
use rice_factor.Schema.Version.{
  SchemaVersion, Chars, digits, decimal, str, number, version, digit_run, parse_minor, parse_dot,
  parse,
}

number-append : (acc : ℕ) (xs ys : List ℕ) → number acc (xs ++ ys) ≡ number (number acc xs) ys
unfolding number
number-append acc [] ys = refl
number-append acc (x ∷ xs) ys = number-append (10 * acc + x) xs ys

number-digits : (fuel n : ℕ) → n < fuel → number 0 (digits fuel n) ≡ n
unfolding number digits
number-digits zero n h = absurd (omega arith)
number-digits (suc fuel) n h = elim (Bool-cases (ltb n 10)) [
  | inl small ↦ rw small (omega arith)
  | inr large ↦
      rw (large, number-append) (omega (arith, number-digits fuel (n / 10) (ground arith)))
]

digits_bound : (fuel n : ℕ) → All (λ d. d < 10) (digits fuel n)
unfolding digits
digits_bound zero n = tt
digits_bound (suc fuel) n = elim (Bool-cases (ltb n 10)) [
  | inl small ↦ rw small (ground arith, tt)
  | inr large ↦ rw large (
      All-append (λ d. d < 10) (digits fuel (n / 10)) _ (digits_bound fuel (n / 10))
        (omega arith, tt))
]

is_empty-append : (xs ys : List ℕ) → is_empty ys ≡ false → is_empty (xs ++ ys) ≡ false
is_empty-append [] ys h = h
is_empty-append (x ∷ xs) ys h = refl

is_empty-digits : (fuel n : ℕ) → is_empty (digits (suc fuel) n) ≡ false
unfolding digits
is_empty-digits fuel n = elim (Bool-cases (ltb n 10)) [
  | inl small ↦ rw small refl
  | inr large ↦ rw large (is_empty-append (digits fuel (n / 10)) _ refl)
]

-- The ASCII digits and the dot are what they are.
pub record IsAscii (chars : Chars) : Type 0 where
  pub digit_own : (d : ℕ) → d < 10 → chars.digit (b'0' + d) ≡ some d
  pub dot_no_digit : chars.digit b'.' ≡ none
  pub digit_no_space : (d : ℕ) → d < 10 → chars.is_space (b'0' + d) ≡ false
  pub dot_no_space : chars.is_space b'.' ≡ false

abbrev shown : List ℕ → Text
shown = map (λ d. b'0' + d)

module _ (is_space : ℕ → Bool) where
  strip_left-All : (t : Text) → All (λ c. is_space c ≡ false) t → strip_left is_space t ≡ t
  unfolding strip_left
  strip_left-All [] h = refl
  strip_left-All (c ∷ t) h = rw (h.0) refl

  strip_right-All : (t : Text) → All (λ c. is_space c ≡ false) t → strip_right is_space t ≡ t
  unfolding strip_right
  strip_right-All [] h = refl
  strip_right-All (c ∷ t) h = rw (h.0, strip_right-All t h.1) refl

  strip-All : (t : Text) → All (λ c. is_space c ≡ false) t → strip is_space t ≡ t
  unfolding strip
  strip-All t h = rw (strip_left-All t h) (strip_right-All t h)

module _ (chars : Chars) (ascii : IsAscii chars) where
  All-shown : (ds : List ℕ) → All (λ d. d < 10) ds → All (λ c. chars.is_space c ≡ false) (shown ds)
  All-shown [] h = tt
  All-shown (d ∷ ds) h = (ascii.digit_no_space d h.0, All-shown ds h.1)

  digit_run-shown_end : (ds : List ℕ) → All (λ d. d < 10) ds → digit_run chars (shown ds) ≡ (ds, [])
  unfolding digit_run
  digit_run-shown_end [] h = refl
  digit_run-shown_end (d ∷ ds) h = rw (ascii.digit_own d h.0, digit_run-shown_end ds h.1) refl

  digit_run-shown_dot :
      (ds : List ℕ) (t : Text)
      → All (λ d. d < 10) ds
      → digit_run chars (shown ds ++ (b'.' ∷ t)) ≡ (ds, b'.' ∷ t)
  unfolding digit_run
  digit_run-shown_dot [] t h = rw (ascii.dot_no_digit) refl
  digit_run-shown_dot (d ∷ ds) t h = rw (ascii.digit_own d h.0, digit_run-shown_dot ds t h.1) refl

  -- A version that is printed and parsed again is the version.
  pub parse-str : (v : SchemaVersion) → parse chars (str v) ≡ version v
  unfolding parse parse_dot parse_minor str decimal
  parse-str v =
      let a = digits (suc v.major) v.major in
      let b = digits (suc v.minor) v.minor in
      let ha = digits_bound (suc v.major) v.major in
      let hb = digits_bound (suc v.minor) v.minor in
      let plain =
        All-append (λ c. chars.is_space c ≡ false) (shown a) (b'.' ∷ shown b) (All-shown a ha)
          (ascii.dot_no_space, All-shown b hb) in
      rw
        (
          strip-All chars.is_space (shown a ++ (b'.' ∷ shown b)) plain,
          digit_run-shown_dot a (shown b) ha,
          is_empty-digits v.major v.major,
          digit_run-shown_end b hb,
          is_empty-digits v.minor v.minor,
          number-digits (suc v.major) v.major (omega arith),
          number-digits (suc v.minor) v.minor (omega arith),
        )
        refl
