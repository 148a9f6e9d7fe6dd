-- ===== src/Lock/DiffExamples.antt =====
-- Diffs of one file, with blanks as white space.
use rice_factor.Prelude.{ℕ, ◌≡◌, ◌↔◌, refl, Bool, true, false, some, [], ◌∷◌, ◌++◌, eqb, All}
use rice_factor.Prelude.Eq.{contains}
use rice_factor.Prelude.Text.{Text, codes, list_eq, starts_with, strip}
use rice_factor.Lock.Authorization.{split_lines, before_bar, check_diff_authorized}
use rice_factor.Lock.Sections.{
  Section, all_lines, WellFormed, check_diff_authorized_iff, check_diff_authorized_bar,
}

abbrev blank : ℕ → Bool
blank c = eqb c b' '

abbrev clock_section : Section
clock_section = record {
  path = codes "clock.py";
  is_new = true;
  hunk = codes "@@ -0,0 +1 @@" ∷ codes "+tick = 1" ∷ [];
}

abbrev clock_diff : Text
clock_diff = codes "--- /dev/null\n+++ b/clock.py\n@@ -0,0 +1 @@\n+tick = 1"

clock_lines : split_lines clock_diff ≡ all_lines (clock_section ∷ [])
unfolding split_lines
clock_lines = refl

clock_section-WellFormed : WellFormed blank clock_section
unfolding strip starts_with before_bar
clock_section-WellFormed = record {
  is_name = record { filled = refl; no_device = λ e. cc; stripped = refl };
  quiet = (
    record { no_new_name = refl; no_old_name = refl; no_bar = refl },
    (record { no_new_name = refl; no_old_name = refl; no_bar = refl }, tt),
  );
}

device_stripped : strip blank (codes "/dev/null") ≡ codes "/dev/null"
unfolding strip
device_stripped = refl

check_diff_authorized_iff_example :
    ((check_diff_authorized blank clock_diff (codes "clock.py" ∷ [])).0 ≡ true)
    ↔ All (λ s. contains s.path (codes "clock.py" ∷ []) ≡ true) (clock_section ∷ [])
check_diff_authorized_iff_example =
    check_diff_authorized_iff blank (codes "clock.py" ∷ []) clock_diff (clock_section ∷ [])
      device_stripped clock_lines (clock_section-WellFormed, tt)

-- A type that is a union.
abbrev union_line : Text
union_line = codes "+def tick(n: int | None):"

abbrev union_diff : Text
union_diff = codes "--- a/clock.py\n+++ b/clock.py\n+def tick(n: int | None):"

union_lines :
    split_lines union_diff
    ≡ (codes "--- a/clock.py" ∷ codes "+++ b/clock.py" ∷ []) ++ (union_line ∷ [])
unfolding split_lines
union_lines = refl

union_new : starts_with (codes "+++ ") union_line ≡ false
unfolding starts_with
union_new = refl

union_old : starts_with (codes "--- ") union_line ≡ false
unfolding starts_with
union_old = refl

union_command : starts_with (codes "diff ") union_line ≡ false
unfolding starts_with
union_command = refl

union_bar : before_bar union_line ≡ some (codes "+def tick(n: int")
unfolding before_bar
union_bar = refl

abbrev union_path : Text
union_path = codes "+def tick(n: int"

check_diff_authorized_bar_example :
    (check_diff_authorized blank union_diff (codes "clock.py" ∷ [])).0 ≡ false
unfolding strip
check_diff_authorized_bar_example =
    check_diff_authorized_bar blank (codes "clock.py" ∷ []) union_diff
      (codes "--- a/clock.py" ∷ codes "+++ b/clock.py" ∷ []) [] union_line union_path union_lines
      union_new union_old union_command union_bar refl refl
