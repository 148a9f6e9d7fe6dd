-- ===== src/Diffs/Recent.antt =====
-- The diffs that are listed, newest first, and the newest with a status.
use mathlib.Core.List.{Perm}
use rice_factor.Prelude.{
  ℕ, ◌≡◌, refl, sym, ap, ◌∙◌, String, Option, some, List, [], ◌∷◌, map, keep, arith, inl, inr,
  Bool-cases, Option-cases,
}
use rice_factor.Prelude.Eq.{◌==◌, ==_iff, same_of_inj, text_eq}
use rice_factor.Prelude.Dict.{values}
use rice_factor.Prelude.Sort.{sort_desc, IsDescending, sort_desc-IsDescending, sort_desc-perm}
use rice_factor.Prelude.Table.{IsoTime}
use rice_factor.Diffs.Index.{status_of-status_value}
use rice_factor.Diffs.Service.{
  DiffStatus, status_value, status_of, status_eq, Diff, Entry, blank, fields, Index, DiffDir,
  load_index, status_text, has_status_text, from_fields, from_dict, first, wanted, diffs_marked,
  diffs_wanted, load_most_recent, list_diffs,
}

-- The text of a status is its value, and values are equal exactly if statuses are.
status_of_value : (t : String) (u : DiffStatus) → status_of t ≡ some u → t ≡ status_value u
status_of_value t u h =
    ground (arith, ==_iff t "pending", ==_iff t "approved", ==_iff t "rejected", ==_iff t "applied")

status_value_eq : (u s : DiffStatus) → (status_value u == status_value s) ≡ (u == s)
status_value_eq u s = same_of_inj status_value u s (λ e.
    let same : some u ≡ some s =
      sym (status_of-status_value u) ∙ ap status_of e ∙ status_of-status_value s in
    cc)

module _ (iso : IsoTime) (stamp : ℕ → String) where
  status_text-from_dict :
      (e : Entry) (d : Diff)
      → from_dict iso stamp e ≡ some d
      → (t : String) × (status_text e ≡ some t) × (status_of t ≡ some d.status)
  unfolding from_dict from_fields
  status_text-from_dict blank d h = cc
  status_text-from_dict (fields j) d h = elim (Option-cases j.status) [
    | inl gone ↦ absurd (ground (arith, h, gone))
    | inr (t, there) ↦ (t, there, ground (arith, h, there))
  ]

  -- An entry is taken for its status exactly if the diff in it has that status.
  has_status_text-from_dict :
      (s : DiffStatus) (e : Entry) (d : Diff)
      → from_dict iso stamp e ≡ some d
      → has_status_text (status_value s) (status_text e) ≡ wanted (some s) d
  has_status_text-from_dict s e d h =
      let (t, there, reads) = status_text-from_dict e d h in
      rw (there, status_of_value t d.status reads) (status_value_eq d.status s)

  diffs_wanted-keep :
      (status : Option DiffStatus) (es : List Entry) (all : List Diff)
      → map (from_dict iso stamp) es ≡ map some all
      → diffs_wanted iso stamp status es ≡ some (keep (wanted status) all)
  unfolding diffs_wanted
  diffs_wanted-keep status [] [] h = refl
  diffs_wanted-keep status [] (d ∷ ds) h = cc
  diffs_wanted-keep status (e ∷ es) [] h = cc
  diffs_wanted-keep status (e ∷ es) (d ∷ ds) h =
      let reads : from_dict iso stamp e ≡ some d = cc h in
      let later : map (from_dict iso stamp) es ≡ map some ds = cc h in
      rw (reads, diffs_wanted, diffs_wanted-keep status es ds later) refl

  diffs_marked-keep :
      (s : DiffStatus) (es : List Entry) (all : List Diff)
      → map (from_dict iso stamp) es ≡ map some all
      → diffs_marked iso stamp (status_value s) es ≡ some (keep (wanted (some s)) all)
  unfolding diffs_marked
  diffs_marked-keep s [] [] h = refl
  diffs_marked-keep s [] (d ∷ ds) h = cc
  diffs_marked-keep s (e ∷ es) [] h = cc
  diffs_marked-keep s (e ∷ es) (d ∷ ds) h =
      let reads : from_dict iso stamp e ≡ some d = cc h in
      let later : map (from_dict iso stamp) es ≡ map some ds = cc h in
      let rest = diffs_marked-keep s es ds later in
      elim (Bool-cases (wanted (some s) d)) [
        | inl hit ↦ rw (has_status_text-from_dict s e d reads, hit, reads, diffs_marked, rest) refl
        | inr other ↦ rw (has_status_text-from_dict s e d reads, other, rest) refl
      ]

  -- Where the index loads and each of its entries is a diff: the diffs with a status are listed newest
  -- first and each once, and the first of the list is the one that is loaded to be reviewed or applied.
  pub load_most_recent-list_diffs :
      (status : DiffStatus) (s : DiffDir) (index : Index) (all : List Diff)
      → load_index s.index_file ≡ some index
      → map (from_dict iso stamp) (values index) ≡ map some all
      → (ds : List Diff) × (list_diffs iso stamp (some status) s ≡ some ds)
        × (load_most_recent iso stamp status s ≡ some (first ds))
        × IsDescending (λ d. d.created_at) ds
        × Perm ds (keep (λ d. d.status == status) all)
  unfolding load_most_recent list_diffs
  load_most_recent-list_diffs status s index all loads reads =
      let chosen = keep (λ d. d.status == status) all in
      (
        sort_desc (λ d. d.created_at) chosen,
        rw (loads, list_diffs, diffs_wanted-keep (some status) (values index) all reads) refl,
        rw (loads, load_most_recent, diffs_marked-keep status (values index) all reads) refl,
        sort_desc-IsDescending (λ d. d.created_at) chosen,
        sort_desc-perm (λ d. d.created_at) chosen,
      )
