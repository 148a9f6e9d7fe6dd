-- ===== src/Lock/Sections.antt =====
-- Diffs that are made of sections, one for each file, and what the check says of them.
use rice_factor.Prelude.{
  ℕ, ◌≡◌, ◌≢◌, ◌↔◌, refl, ap, ◌∙◌, Bool, true, false, not, none, some, List, [], ◌∷◌, ◌++◌, keep,
  is_empty, All, arith, inl, inr, Bool-cases, Option-cases, if◌then◌else◌,
}
use rice_factor.Prelude.Eq.{◌==◌, ==_iff, contains}
use rice_factor.Prelude.Text.{Text, codes, list_eq, starts_with, starts_with-append, strip}
use rice_factor.Lock.Authorization.{
  split_lines, before_bar, real_path, named, stat_path, line_file, add, files_of_lines,
  parse_diff_files, check_diff_authorized,
}

-- The part of a unified diff that is about one file: its old name is /dev/null where the file is new.
pub record Section : Type 0 where
  pub path : Text
  pub is_new : Bool
  pub hunk : List Text

abbrev pub old_name : Section → Text
old_name s = if s.is_new then codes "--- /dev/null" else codes "--- a/" ++ s.path

abbrev pub section_lines : Section → List Text
section_lines s = old_name s ∷ (codes "+++ b/" ++ s.path) ∷ s.hunk

abbrev pub all_lines : List Section → List Text
all_lines [] = []
all_lines (s ∷ ss) = section_lines s ++ all_lines ss

-- A line of a hunk that cannot be taken for a name.
pub record Quiet (line : Text) : Type 0 where
  pub no_new_name : starts_with (codes "+++ ") line ≡ false
  pub no_old_name : starts_with (codes "--- ") line ≡ false
  pub no_bar : before_bar line ≡ none

module _ (is_space : ℕ → Bool) where
  -- The name of a file that is not touched by `strip`.
  pub record IsName (path : Text) : Type 0 where
    pub filled : is_empty path ≡ false
    pub no_device : path ≢ codes "/dev/null"
    pub stripped : strip is_space path ≡ path

  pub record WellFormed (s : Section) : Type 0 where
    pub is_name : IsName s.path
    pub quiet : All Quiet s.hunk

  longer_mark : (p q t : Text) → starts_with p t ≡ false → starts_with (p ++ q) t ≡ false
  longer_mark p q t h = elim (Bool-cases (starts_with (p ++ q) t)) [
    | inl hit ↦ cc (h, starts_with-append p q t hit)
    | inr miss ↦ miss
  ]

  stat_path-none : (b : Bool) → stat_path is_space b none ≡ none
  stat_path-none true = refl
  stat_path-none false = refl

  line_file-Quiet : (line : Text) → Quiet line → line_file is_space line ≡ none
  unfolding line_file
  line_file-Quiet line q =
      let new : starts_with (codes "+++ b/") line ≡ false =
        longer_mark (codes "+++ ") (codes "b/") line q.no_new_name in
      let old : starts_with (codes "--- a/") line ≡ false =
        longer_mark (codes "--- ") (codes "a/") line q.no_old_name in
      rw (new, old, q.no_new_name, q.no_old_name, q.no_bar, line_file)
        (stat_path-none (starts_with (codes "diff ") line))

  real_path_of : (path : Text) → IsName path → real_path (strip is_space path) ≡ some path
  real_path_of path n = elim (Bool-cases (path == codes "/dev/null")) [
    | inl hit ↦ absurd (n.no_device ((==_iff path (codes "/dev/null")).0 hit))
    | inr other ↦ rw (n.stripped, n.filled, other) refl
  ]

  new_name_file :
      (path : Text) → IsName path → line_file is_space (codes "+++ b/" ++ path) ≡ some path
  unfolding line_file starts_with
  new_name_file path n = real_path_of path n

  -- What the first line of a section adds: its name, where the file is not new.
  abbrev old_names : Section → List Text
  old_names s = if s.is_new then [] else s.path ∷ []

  old_name_file :
      (s : Section) (files : List Text)
      → strip is_space (codes "/dev/null") ≡ codes "/dev/null"
      → IsName s.path
      → add (line_file is_space (old_name s)) files ≡ old_names s ++ files
  unfolding line_file starts_with
  old_name_file s files device n = elim (Bool-cases s.is_new) [
    | inl fresh ↦ rw (fresh, device) refl
    | inr old ↦ rw (old, real_path_of s.path n) refl
  ]

  files_of_lines-append :
      (hunk rest : List Text)
      → All Quiet hunk
      → files_of_lines is_space (hunk ++ rest) ≡ files_of_lines is_space rest
  unfolding files_of_lines
  files_of_lines-append [] rest q = refl
  files_of_lines-append (l ∷ ls) rest q =
      rw (line_file-Quiet l q.0) (files_of_lines-append ls rest q.1)

  -- The names of a diff of sections, in order and with repetitions.
  abbrev names : List Section → List Text
  names [] = []
  names (s ∷ ss) = old_names s ++ (s.path ∷ names ss)

  files_of_lines-all_lines :
      (ss : List Section)
      → strip is_space (codes "/dev/null") ≡ codes "/dev/null"
      → All WellFormed ss
      → files_of_lines is_space (all_lines ss) ≡ names ss
  unfolding files_of_lines
  files_of_lines-all_lines [] device w = refl
  files_of_lines-all_lines (s ∷ ss) device w =
      old_name_file s
        (files_of_lines is_space ((codes "+++ b/" ++ s.path) ∷ (s.hunk ++ all_lines ss))) device
        w.0.is_name
      ∙ ap (λ x. old_names s ++ x)
          (ap (λ x. add x (files_of_lines is_space (s.hunk ++ all_lines ss)))
              (new_name_file s.path w.0.is_name)
            ∙ ap (λ x. s.path ∷ x)
                (files_of_lines-append s.hunk (all_lines ss) w.0.quiet
                  ∙ files_of_lines-all_lines ss device w.1))

  module _ (authorized_files : List Text) where
    abbrev Permitted : Text → Type 0
    Permitted f = contains f authorized_files ≡ true

    none_left :
        (fs : List Text)
        → (is_empty (keep (λ f. not (contains f authorized_files)) fs) ≡ true) ↔ All Permitted fs
    none_left [] = ground arith
    none_left (f ∷ fs) = elim (Bool-cases (contains f authorized_files)) [
      | inl hit ↦ rw hit ((λ e. (refl, (none_left fs).0 e)), (λ a. (none_left fs).1 a.1))
      | inr miss ↦ rw miss ((λ e. cc), (λ a. cc (a.0)))
    ]

    names_iff : (ss : List Section) → All Permitted (names ss) ↔ All (λ s. Permitted s.path) ss
    names_iff [] = ((λ a. tt), (λ a. tt))
    names_iff (s ∷ ss) = elim (Bool-cases s.is_new) [
      | inl fresh ↦
          rw fresh ((λ a. (a.0, (names_iff ss).0 a.1)), (λ a. (a.0, (names_iff ss).1 a.1)))
      | inr old ↦
          rw old ((λ a. (a.0, (names_iff ss).0 a.1.1)), (λ a. (a.0, (a.0, (names_iff ss).1 a.1))))
    ]

    -- Where strip leaves /dev/null and the names of the files as they are: a diff whose lines are those
    -- of sections, of which no hunk has a line that looks like a name, is authorized exactly if the file
    -- of each section is.
    pub check_diff_authorized_iff :
        (diff : Text) (ss : List Section)
        → strip is_space (codes "/dev/null") ≡ codes "/dev/null"
        → split_lines diff ≡ all_lines ss
        → All WellFormed ss
        → ((check_diff_authorized is_space diff authorized_files).0 ≡ true)
          ↔ All (λ s. contains s.path authorized_files ≡ true) ss
    unfolding check_diff_authorized parse_diff_files
    check_diff_authorized_iff diff ss device lines w =
        let named : parse_diff_files is_space diff ≡ names ss =
          ap (files_of_lines is_space) lines ∙ files_of_lines-all_lines ss device w in
        rw named (
          (λ e. (names_iff ss).0 ((none_left (names ss)).0 e)),
          (λ a. (none_left (names ss)).1 ((names_iff ss).1 a)),
        )

    left_over :
        (before after : List Text) (line f : Text)
        → line_file is_space line ≡ some f
        → contains f authorized_files ≡ false
        → is_empty (
            keep
              (λ x. not (contains x authorized_files))
              (files_of_lines is_space (before ++ (line ∷ after))))
          ≡ false
    unfolding files_of_lines
    left_over [] after line f named missing = rw (named, missing) refl
    left_over (l ∷ ls) after line f named missing = elim (Option-cases (line_file is_space l)) [
      | inl gone ↦ rw gone (left_over ls after line f named missing)
      | inr (g, there) ↦ elim (Bool-cases (contains g authorized_files)) [
        | inl hit ↦ rw (there, hit) (left_over ls after line f named missing)
        | inr miss ↦ rw (there, miss) refl
      ]
    ]

    -- A diff with a line that has a bar between blanks, is no header, and whose text before the bar is
    -- not an authorized file, is not authorized: the line may be code, which is then read as the summary
    -- of a file.
    pub check_diff_authorized_bar :
        (diff : Text) (before after : List Text) (line p : Text)
        → split_lines diff ≡ before ++ (line ∷ after)
        → starts_with (codes "+++ ") line ≡ false
        → starts_with (codes "--- ") line ≡ false
        → starts_with (codes "diff ") line ≡ false
        → before_bar line ≡ some p
        → is_empty (strip is_space p) ≡ false
        → contains (strip is_space p) authorized_files ≡ false
        → (check_diff_authorized is_space diff authorized_files).0 ≡ false
    unfolding check_diff_authorized parse_diff_files line_file
    check_diff_authorized_bar diff before after line p lines no_new no_old no_diff bar filled
          missing =
        let new : starts_with (codes "+++ b/") line ≡ false =
          longer_mark (codes "+++ ") (codes "b/") line no_new in
        let old : starts_with (codes "--- a/") line ≡ false =
          longer_mark (codes "--- ") (codes "a/") line no_old in
        let named : line_file is_space line ≡ some (strip is_space p) =
          rw (new, old, no_new, no_old, no_diff, bar, filled, line_file) refl in
        rw lines (left_over before after line (strip is_space p) named missing)
