-- ===== src/Prelude/Marked.antt =====
-- A date format that counts in strokes, for the examples.
use Prim.Native.Nat.{ℕ, zero, suc}
use Prim.Native.String.{String}
use mathlib.Core.Path.{◌≡◌, refl, ap}
use mathlib.Core.Option.{Option, none, some}
use rice_factor.Prelude.Table.{IsoTime}

-- Times written as a mark and one stroke for each microsecond.
strokes : ℕ → String
strokes zero = ""
strokes (suc n) = String.◌∷◌ "|" (strokes n)

tally : String → ℕ
tally String.[] = 0
tally (String.◌∷◌ c s) = suc (tally s)

tally-strokes : (n : ℕ) → tally (strokes n) ≡ n
unfolding tally strokes
tally-strokes zero = refl
tally-strokes (suc n) = ap suc (tally-strokes n)

read_mark : String → Option ℕ
read_mark String.[] = none
read_mark (String.◌∷◌ c s) = some (tally s)

pub marked_time : IsoTime
unfolding read_mark
marked_time = record {
  isoformat = λ t. String.◌∷◌ "T" (strokes t);
  fromisoformat = read_mark;
  round_trip = λ t. ap some (tally-strokes t);
  not_empty = λ t e. cc;
}
