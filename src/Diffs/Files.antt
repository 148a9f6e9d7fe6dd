-- ===== src/Diffs/Files.antt =====
-- The files of the diffs: two diffs of one second for names that differ in their slashes share one.
use Prim.Native.Char.{Char}
use rice_factor.Prelude.{◌≡◌, refl, ap, ◌∙◌, ◌⊎◌, String, ℕ, some, sym, inl, inr, Option-cases}
use rice_factor.Prelude.Eq.{text_eq}
use rice_factor.Prelude.Dict.{get, get-put_self}
use rice_factor.Prelude.Table.{IsoTime}
use rice_factor.Diffs.Service.{Diff, DiffDir, safe_filename, file_name, load_index, save_diff}

-- The characters that a file name writes as an underscore.
abbrev pub IsSlash : Char → Type 0
IsSlash c = (c ≡ "/") ⊎ ((c ≡ "\\") ⊎ (c ≡ "_"))

-- Texts that differ at most in which of these characters stand where.
abbrev pub SlashAlike : String → String → Type 0
SlashAlike String.[] String.[] = Unit
SlashAlike (String.◌∷◌ c s) (String.◌∷◌ d t) = ((c ≡ d) ⊎ (IsSlash c × IsSlash d)) × SlashAlike s t
SlashAlike s t = ⊥

safe_filename-slash :
    (c : Char) (s : String)
    → IsSlash c
    → safe_filename (String.◌∷◌ c s) ≡ String.◌∷◌ "_" (safe_filename s)
unfolding safe_filename
safe_filename-slash c s (inl e) = rw e refl
safe_filename-slash c s (inr (inl e)) = rw e refl
safe_filename-slash c s (inr (inr e)) = rw e refl

safe_filename-same : (s t : String) → SlashAlike s t → safe_filename s ≡ safe_filename t
unfolding safe_filename
safe_filename-same String.[] String.[] h = refl
safe_filename-same String.[] (String.◌∷◌ d t) h = elim h [ ]
safe_filename-same (String.◌∷◌ c s) String.[] h = elim h [ ]
safe_filename-same (String.◌∷◌ c s) (String.◌∷◌ d t) (inl same, h) =
    rw (same, safe_filename-same s t h) refl
safe_filename-same (String.◌∷◌ c s) (String.◌∷◌ d t) (inr (one, other), h) =
    safe_filename-slash c s one
    ∙ ap (String.◌∷◌ "_") (safe_filename-same s t h)
    ∙ sym (safe_filename-slash d t other)

module _ (iso : IsoTime) (stamp : ℕ → String) where
  file_name-same :
      (d e : Diff)
      → stamp d.created_at ≡ stamp e.created_at
      → safe_filename d.target_file ≡ safe_filename e.target_file
      → file_name iso stamp e ≡ file_name iso stamp d
  unfolding file_name
  file_name-same d e when name = rw (when, name) refl

  save_diff-get :
      (d : Diff) (s : DiffDir)
      → get (file_name iso stamp d) ((save_diff iso stamp d s).1).diffs ≡ some d.content
  unfolding save_diff
  save_diff-get d s = elim (Option-cases (load_index s.index_file)) [
    | inl bad ↦ rw (bad, save_diff) (get-put_self (file_name iso stamp d) d.content s.diffs)
    | inr (index, loads) ↦
        rw (loads, save_diff) (get-put_self (file_name iso stamp d) d.content s.diffs)
  ]

  -- Where two diffs are of one second and their targets differ at most in slashes, backslashes and
  -- underscores, saving the second puts its content into the file of the first.
  pub save_diff_overwrites :
      (d e : Diff) (s : DiffDir)
      → stamp d.created_at ≡ stamp e.created_at
      → SlashAlike d.target_file e.target_file
      → get (file_name iso stamp d) ((save_diff iso stamp e (save_diff iso stamp d s).1).1).diffs
        ≡ some e.content
  save_diff_overwrites d e s when alike =
      let name = safe_filename-same d.target_file e.target_file alike in
      ap (λ f. get f ((save_diff iso stamp e (save_diff iso stamp d s).1).1).diffs)
        (sym (file_name-same d e when name))
      ∙ save_diff-get e (save_diff iso stamp d s).1
