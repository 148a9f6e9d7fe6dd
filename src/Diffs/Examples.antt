-- ===== src/Diffs/Examples.antt =====
-- Two diffs of one second, for files whose names differ in a slash.
use rice_factor.Prelude.{ℕ, ◌≡◌, refl, inl, inr, String, none, some, List, [], ◌∷◌, map}
use rice_factor.Prelude.Eq.{text_eq}
use rice_factor.Prelude.Dict.{get, values}
use rice_factor.Prelude.Marked.{marked_time}
use rice_factor.Diffs.Service.{
  pending, approved, applied, status_eq, Diff, Index, DiffDir, absent, entries, load_index, to_dict,
  from_dict, file_name, save_diff, load_diff,
}
use rice_factor.Diffs.Index.{
  Call, saves, moves, spec_all, run, Holds, load_diff-run, from_dict-to_dict,
}
use rice_factor.Diffs.Files.{SlashAlike, save_diff_overwrites}

abbrev noon : ℕ → String
noon t = "20250101_120000"

abbrev clock : Diff
clock = record {
  id = "d1";
  target_file = "src/clock.py";
  content = "+tick";
  status = pending;
  created_at = 4;
  plan_id = some "p1";
}

abbrev other_clock : Diff
other_clock = record {
  id = "d2";
  target_file = "src_clock.py";
  content = "+tock";
  status = pending;
  created_at = 5;
  plan_id = none;
}

abbrev nothing_saved : DiffDir
nothing_saved = record { index_file = absent; diffs = [] }

abbrev review : List Call
review = saves clock ∷ saves other_clock ∷ moves "d1" approved ∷ moves "d1" applied ∷ []

nothing_saved-Holds : Holds marked_time noon (λ j. none) nothing_saved
unfolding load_index get
nothing_saved-Holds = record {
  index = [];
  loads = refl;
  reads = λ k e there. cc;
  holds = λ j. refl;
}

load_diff-run_example :
    load_diff marked_time noon "d1" (run marked_time noon review nothing_saved)
    ≡ some (spec_all review (λ j. none) "d1")
load_diff-run_example =
    load_diff-run marked_time noon review nothing_saved (λ j. none) "d1"
      ((λ e. cc), ((λ e. cc), (tt, (tt, tt)))) nothing_saved-Holds

abbrev both : Index
both =
    ("d1", to_dict marked_time noon clock "a.diff")
    ∷ ("d2", to_dict marked_time noon other_clock "b.diff")
    ∷ []

abbrev both_saved : DiffDir
both_saved = record { index_file = entries both; diffs = [] }

both_loads : load_index both_saved.index_file ≡ some both
unfolding load_index
both_loads = refl

both_read : map (from_dict marked_time noon) (values both) ≡ map some (clock ∷ other_clock ∷ [])
both_read =
    rw
      (
        from_dict-to_dict marked_time noon clock "a.diff" (λ e. cc),
        from_dict-to_dict marked_time noon other_clock "b.diff" (λ e. cc),
      )
      refl

alike_names : SlashAlike clock.target_file other_clock.target_file
alike_names = (
  inl refl,
  (
    inl refl,
    (
      inl refl,
      (
        inr (inl refl, inr (inr refl)),
        (
          inl refl,
          (inl refl, (inl refl, (inl refl, (inl refl, (inl refl, (inl refl, (inl refl, tt))))))),
        ),
      ),
    ),
  ),
)

save_diff_overwrites_example :
    get
      (file_name marked_time noon clock)
      ((save_diff marked_time noon other_clock (save_diff marked_time noon clock nothing_saved).1).1
        ).diffs
    ≡ some "+tock"
save_diff_overwrites_example =
    save_diff_overwrites marked_time noon clock other_clock nothing_saved refl alike_names
