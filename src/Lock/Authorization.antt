-- ===== src/Lock/Authorization.antt =====
-- rice_factor/domain/services/safety_enforcer.py: the files of a diff, and the check that a diff touches
-- authorized files only. A set is a list of which only membership counts.
use rice_factor.Prelude.{
  ℕ, Bool, true, false, not, ◌||◌, Option, none, some, List, [], ◌∷◌, drop, keep, is_empty, eqb,
  if◌then◌else◌,
}
use rice_factor.Prelude.Eq.{◌==◌, contains}
use rice_factor.Prelude.Text.{Text, codes, list_eq, starts_with, strip}

-- The pieces before and after the first line break.
abbrev pub extend : ℕ → List Text → List Text
extend c [] = (c ∷ []) ∷ []
extend c (l ∷ ls) = (c ∷ l) ∷ ls

-- `diff_content.split("\n")`
unfoldable pub split_lines : Text → List Text
split_lines [] = [] ∷ []
split_lines (c ∷ cs) = let rest = split_lines cs in if eqb c b'\n' then [] ∷ rest else extend c rest

abbrev prepend : ℕ → Option Text → Option Text
prepend c none = none
prepend c (some t) = some (c ∷ t)

-- `line.split(" | ")[0]`, `none` where `" | " in line` does not hold
unfoldable pub before_bar : Text → Option Text
unfolding starts_with
before_bar [] = none
before_bar (c ∷ cs) =
    let rest = before_bar cs in
    if starts_with (codes " | ") (c ∷ cs) then some [] else prepend c rest

-- `if path and path != "/dev/null"`
abbrev pub real_path : Text → Option Text
real_path path = if is_empty path || path == codes "/dev/null" then none else some path

abbrev pub named : Text → Option Text
named path = if is_empty path then none else some path

abbrev pub add : Option Text → List Text → List Text
add none files = files
add (some path) files = path ∷ files

module _ (is_space : ℕ → Bool) where
  abbrev pub stat_path : Bool → Option Text → Option Text
  stat_path true p = none
  stat_path false none = none
  stat_path false (some p) = named (strip is_space p)

  -- What one line adds to the set.
  unfoldable pub line_file : Text → Option Text
  unfolding starts_with before_bar strip
  line_file line =
      if starts_with (codes "+++ b/") line || starts_with (codes "--- a/") line
      then real_path (strip is_space (drop 6 line))
      else if starts_with (codes "+++ ") line || starts_with (codes "--- ") line
      then real_path (strip is_space (drop 4 line))
      else stat_path (starts_with (codes "diff ") line) (before_bar line)

  unfoldable pub files_of_lines : List Text → List Text
  unfolding line_file
  files_of_lines [] = []
  files_of_lines (l ∷ ls) = add (line_file l) (files_of_lines ls)

  unfoldable pub parse_diff_files : Text → List Text
  unfolding split_lines files_of_lines
  parse_diff_files diff_content = files_of_lines (split_lines diff_content)

  unfoldable pub check_diff_authorized : Text → List Text → Bool × List Text
  unfolding parse_diff_files
  check_diff_authorized diff_content authorized_files =
      let unauthorized =
        keep (λ f. not (contains f authorized_files)) (parse_diff_files diff_content) in
      (is_empty unauthorized, unauthorized)

  -- `none` where it returns, the files of UnauthorizedFileModificationError where it raises
  unfoldable pub require_diff_authorized : Text → List Text → Option (List Text)
  unfolding check_diff_authorized
  require_diff_authorized diff_content authorized_files =
      let (is_authorized, unauthorized) = check_diff_authorized diff_content authorized_files in
      if is_authorized then none else some unauthorized
