-- ===== src/Diffs/Index.antt =====
-- The index as a map from ids to diffs: what saving a diff and moving its status do to it.
use rice_factor.Prelude.{
  ℕ, ◌≡◌, ◌≢◌, refl, sym, ap, ◌∙◌, String, Option, none, some, List, [], ◌∷◌, arith, inl, inr,
  Bool-cases, Option-cases, All, if◌then◌else◌,
}
use rice_factor.Prelude.Eq.{◌==◌, ==_iff, text_eq}
use rice_factor.Prelude.Dict.{Dict, get, put, get-put}
use rice_factor.Prelude.Table.{IsoTime}
use rice_factor.Diffs.Service.{
  DiffStatus, pending, approved, rejected, applied, status_value, status_of, Diff, Entry, blank,
  fields, Index, entries, DiffDir, load_index, set_status, to_dict, from_fields, from_dict,
  read_plan, read_entry, read_found, file_name, save_diff, update_status, load_diff,
}

pub data Call : Type 0 where
  saves : Diff → Call
  moves : String → DiffStatus → Call

-- A UUID's text is not empty.
abbrev pub IsProper : Call → Type 0
IsProper (saves d) = d.plan_id ≢ some ""
IsProper (moves id status) = Unit

-- What the index promises: a map from ids to diffs.
abbrev with_status : DiffStatus → Option Diff → Option Diff
with_status s none = none
with_status s (some d) = some (record d { status = s })

unfoldable pub spec : Call → (String → Option Diff) → String → Option Diff
spec (saves d) m j = if d.id == j then some d else m j
spec (moves id status) m j = if id == j then with_status status (m j) else m j

unfoldable pub spec_all : List Call → (String → Option Diff) → String → Option Diff
unfolding spec
spec_all [] m = m
spec_all (c ∷ cs) m = spec_all cs (spec c m)

pub status_of-status_value : (s : DiffStatus) → status_of (status_value s) ≡ some s
status_of-status_value pending = refl
status_of-status_value approved = refl
status_of-status_value rejected = refl
status_of-status_value applied = refl

read_plan_proper : (p : Option String) → p ≢ some "" → read_plan p ≡ p
read_plan_proper none h = refl
read_plan_proper (some p) h = elim (Bool-cases (p == "")) [
  | inl hit ↦ absurd (h (ap some ((==_iff p "").0 hit)))
  | inr other ↦ rw other refl
]

-- A move of a status on the map, where there is no diff under the id, and where there is one.
unmoved :
    (id j : String) (status : DiffStatus) (m : String → Option Diff)
    → m id ≡ none
    → m j ≡ spec (moves id status) m j
unfolding spec
unmoved id j status m gone = elim (Bool-cases (id == j)) [
  | inl hit ↦ let here : m j ≡ none = ap m (sym ((==_iff id j).0 hit)) ∙ gone in rw (hit, here) refl
  | inr other ↦ rw other refl
]

moved :
    (id : String) (d : Diff) (status : DiffStatus) (m : String → Option Diff)
    → m id ≡ some d
    → (j : String)
    → spec (moves id status) m j ≡ (if id == j then some (record d { status = status }) else m j)
unfolding spec
moved id d status m old j = elim (Bool-cases (id == j)) [
  | inl hit ↦
      let here : m j ≡ some d = ap m (sym ((==_iff id j).0 hit)) ∙ old in rw (hit, here) refl
  | inr other ↦ rw other refl
]

module _ (iso : IsoTime) (stamp : ℕ → String) where
  unfoldable pub step : Call → DiffDir → DiffDir
  unfolding save_diff update_status
  step (saves d) s = (save_diff iso stamp d s).1
  step (moves id status) s = (update_status iso stamp id status s).1

  unfoldable pub run : List Call → DiffDir → DiffDir
  unfolding step
  run [] s = s
  run (c ∷ cs) s = run cs (step c s)

  pub from_dict-to_dict :
      (d : Diff) (path : String)
      → d.plan_id ≢ some ""
      → from_dict iso stamp (to_dict iso stamp d path) ≡ some d
  unfolding from_dict from_fields to_dict
  from_dict-to_dict d path h =
      rw
        (status_of-status_value d.status, iso.round_trip d.created_at, read_plan_proper d.plan_id h)
        refl

  from_dict-set_status :
      (s : DiffStatus) (e : Entry) (d : Diff)
      → from_dict iso stamp e ≡ some d
      → from_dict iso stamp (set_status s e) ≡ some (record d { status = s })
  unfolding from_dict from_fields set_status
  from_dict-set_status s blank d h = cc
  from_dict-set_status s (fields j) d h = ground (arith, h, status_of-status_value s)

  abbrev lookup : Option Entry → Option Diff
  lookup none = none
  lookup (some e) = from_dict iso stamp e

  -- Each entry of the index is a diff.
  abbrev pub AllRead : Index → Type 0
  AllRead index =
      (k : String) (e : Entry)
      → get k index ≡ some e
      → (d : Diff) × (from_dict iso stamp e ≡ some d)

  read_entry-from_dict :
      (e : Entry) (d : Diff)
      → from_dict iso stamp e ≡ some d
      → read_entry iso stamp e ≡ some (some d)
  unfolding from_dict
  read_entry-from_dict blank d h = cc
  read_entry-from_dict (fields j) d h = rw h refl

  read_found-lookup :
      (k : String) (index : Index)
      → AllRead index
      → read_found iso stamp (get k index) ≡ some (lookup (get k index))
  read_found-lookup k index reads = elim (Option-cases (get k index)) [
    | inl gone ↦ rw gone refl
    | inr (e, there) ↦
        let (d, good) = reads k e there in
        rw there (read_entry-from_dict e d good ∙ ap some (sym good))
  ]

  put-AllRead :
      (index : Index) (k : String) (e : Entry) (d : Diff)
      → AllRead index
      → from_dict iso stamp e ≡ some d
      → AllRead (put k e index)
  put-AllRead index k e d reads good j x there = elim (Bool-cases (k == j)) [
    | inl hit ↦ (d, ground (arith, get-put k j e index, good))
    | inr other ↦ reads j x (ground (arith, get-put k j e index))
  ]

  -- The index loads and holds the map.
  pub record Holds (m : String → Option Diff) (s : DiffDir) : Type 0 where
    pub index : Index
    pub loads : load_index s.index_file ≡ some index
    pub reads : AllRead index
    pub holds : (j : String) → lookup (get j index) ≡ m j

  put-Holds :
      (index : Index) (k : String) (e : Entry) (d : Diff) (diffs : Dict String String)
      (m m' : String → Option Diff)
      → AllRead index
      → ((j : String) → lookup (get j index) ≡ m j)
      → from_dict iso stamp e ≡ some d
      → ((j : String) → m' j ≡ (if k == j then some d else m j))
      → Holds m' (record { index_file = entries (put k e index); diffs = diffs })
  unfolding load_index
  put-Holds index k e d diffs m m' reads holds good new = record {
    index = put k e index;
    loads = refl;
    reads = put-AllRead index k e d reads good;
    holds = λ j. elim (Bool-cases (k == j)) [
      | inl hit ↦ rw (get-put k j e index, hit, new j, hit) good
      | inr other ↦ rw (get-put k j e index, other, new j, other) (holds j)
    ];
  }

  save_diff-Holds :
      (d : Diff) (s : DiffDir) (m : String → Option Diff)
      → d.plan_id ≢ some ""
      → Holds m s
      → Holds (spec (saves d) m) (save_diff iso stamp d s).1
  unfolding save_diff spec
  save_diff-Holds d s m proper h =
      let path = file_name iso stamp d in
      rw (h.loads, save_diff)
        (put-Holds h.index d.id (to_dict iso stamp d path) d (put path d.content s.diffs) m
          (spec (saves d) m) h.reads h.holds (from_dict-to_dict d path proper) (λ j. refl))

  update_status-Holds :
      (id : String) (status : DiffStatus) (s : DiffDir) (m : String → Option Diff)
      → Holds m s
      → Holds (spec (moves id status) m) (update_status iso stamp id status s).1
  unfolding update_status spec
  update_status-Holds id status s m h = elim (Option-cases (get id h.index)) [
    | inl gone ↦
        let nothing : m id ≡ none = sym (h.holds id) ∙ ap lookup gone in
        rw (h.loads, update_status, gone)
          (record {
            index = h.index;
            loads = h.loads;
            reads = h.reads;
            holds = λ j. h.holds j ∙ unmoved id j status m nothing;
          })
    | inr (e, there) ↦
        let (d, good) = h.reads id e there in
        let old : m id ≡ some d = sym (h.holds id) ∙ ap lookup there ∙ good in
        rw (h.loads, update_status, there)
          (put-Holds h.index id (set_status status e) (record d { status = status }) s.diffs m
            (spec (moves id status) m) h.reads h.holds (from_dict-set_status status e d good)
            (moved id d status m old))
  ]

  step-Holds :
      (c : Call) (s : DiffDir) (m : String → Option Diff)
      → IsProper c
      → Holds m s
      → Holds (spec c m) (step c s)
  unfolding step
  step-Holds (saves d) s m proper h = save_diff-Holds d s m proper h
  step-Holds (moves id status) s m proper h = update_status-Holds id status s m h

  run-Holds :
      (cs : List Call) (s : DiffDir) (m : String → Option Diff)
      → All IsProper cs
      → Holds m s
      → Holds (spec_all cs m) (run cs s)
  unfolding run spec_all
  run-Holds [] s m proper h = h
  run-Holds (c ∷ cs) s m proper h =
      run-Holds cs (step c s) (spec c m) proper.1 (step-Holds c s m proper.0 h)

  -- Where the index loads and holds a map from ids to diffs, then after any sequence of saved diffs and
  -- moved statuses, loading a diff gives what the map has for its id once each call has been made on the
  -- map.
  pub load_diff-run :
      (cs : List Call) (s : DiffDir) (m : String → Option Diff) (j : String)
      → All IsProper cs
      → Holds m s
      → load_diff iso stamp j (run cs s) ≡ some (spec_all cs m j)
  unfolding load_diff
  load_diff-run cs s m j proper h =
      let after = run-Holds cs s m proper h in
      rw (after.loads, load_diff)
        (read_found-lookup j after.index after.reads ∙ ap some (after.holds j))
