-- ===== src/Overrides/Limits.antt =====
-- The limits on the number of active overrides, in every sequence of operations.
use Prim.Native.String.{count}
use rice_factor.Prelude.{
  ℕ, ◌+◌, ◌≤◌, ◌<◌, ◌≡◌, refl, String, true, not, none, some, List, [], ◌∷◌, arith, ltb, keep,
  if◌then◌else◌, Option-cases, Bool-cases, inl, inr,
}
use rice_factor.Prelude.Eq.{◌==◌, ==_iff, text_eq}
use rice_factor.Prelude.Dict.{Dict, values, get, put}
use rice_factor.Prelude.Table.{IsoTime}
use rice_factor.Overrides.Records.{
  OverrideScope, file, directory, project, artifact, scope_eq, OverrideRecord, ScopeManager,
}
use rice_factor.Overrides.Files.{save_records, save_ci_flags}
use rice_factor.Overrides.Manager.{
  get_active_overrides, count_scope, check_scope_limits, Request, new_record, register_override,
  first_flag, reconcile_override, flag_for_ci, Operation, register, reconcile, flag, apply, run,
}

-- The number of active overrides of a scope.
abbrev pub active_of : OverrideScope → ScopeManager → ℕ
active_of sc m = count_scope sc (get_active_overrides m)

abbrev counts_as : OverrideScope → OverrideRecord → ℕ
counts_as sc r = if r.reconciled then 0 else if r.scope == sc then 1 else 0

abbrev count_active : OverrideScope → List OverrideRecord → ℕ
count_active sc rs = count_scope sc (keep (λ r. not r.reconciled) rs)

count_active-cons :
    (sc : OverrideScope) (r : OverrideRecord) (rs : List OverrideRecord)
    → count_active sc (r ∷ rs) ≡ counts_as sc r + count_active sc rs
unfolding count_scope
count_active-cons sc r rs = ground arith

count_active-put-le :
    (sc : OverrideScope) (id : String) (r : OverrideRecord) (d : Dict String OverrideRecord)
    → count_active sc (values (put id r d)) ≤ counts_as sc r + count_active sc (values d)
unfolding put
count_active-put-le sc id r [] = omega (arith, count_active-cons sc r [])
count_active-put-le sc id r ((j, w) ∷ d) = elim (Bool-cases (j == id)) [
  | inl same ↦
      rw same (omega (arith, count_active-cons sc r (values d), count_active-cons sc w (values d)))
  | inr other ↦ rw other (
      omega (
        arith,
        count_active-cons sc w (values (put id r d)),
        count_active-cons sc w (values d),
        count_active-put-le sc id r d,
      ))
]

-- Putting back a record that counts no more than the one found there.
count_active-put_changed :
    (sc : OverrideScope) (id : String) (r old : OverrideRecord) (d : Dict String OverrideRecord)
    → get id d ≡ some old
    → counts_as sc r ≤ counts_as sc old
    → count_active sc (values (put id r d)) ≤ count_active sc (values d)
unfolding put get
count_active-put_changed sc id r old [] found le = cc
count_active-put_changed sc id r old ((j, w) ∷ d) found le = elim (Bool-cases (j == id)) [
  | inl same ↦
      let e : w ≡ old = cc (rw (same, get) at found) in
      rw same
        (ground (arith, count_active-cons sc r (values d), count_active-cons sc w (values d), e))
  | inr other ↦ rw other (
      omega (
        arith,
        count_active-cons sc w (values (put id r d)),
        count_active-cons sc w (values d),
        count_active-put_changed sc id r old d (rw (other, get) at found) le,
      ))
]

pub record WithinLimits (m : ScopeManager) : Type 0 where
  pub files : active_of file m ≤ m.limits.max_file_overrides
  pub directories : active_of directory m ≤ m.limits.max_directory_overrides
  pub projects : active_of project m ≤ m.limits.max_project_overrides

-- No scope has more active overrides than before.
record NoMore (m m' : ScopeManager) : Type 0 where
  same_limits : m'.limits ≡ m.limits
  fewer : (sc : OverrideScope) → active_of sc m' ≤ active_of sc m

NoMore-WithinLimits : (m m' : ScopeManager) → NoMore m m' → WithinLimits m → WithinLimits m'
NoMore-WithinLimits m m' n h = record {
  files = ground (arith, n.same_limits, n.fewer file, h.files);
  directories = ground (arith, n.same_limits, n.fewer directory, h.directories);
  projects = ground (arith, n.same_limits, n.fewer project, h.projects);
}

module _ (iso : IsoTime) where
  save_records-limits : (m : ScopeManager) → (save_records iso m).limits ≡ m.limits
  unfolding save_records
  save_records-limits m = refl

  save_records-active :
      (sc : OverrideScope) (m : ScopeManager) → active_of sc (save_records iso m) ≡ active_of sc m
  unfolding save_records get_active_overrides
  save_records-active sc m = refl

  save_ci_flags-active :
      (sc : OverrideScope) (m : ScopeManager) → active_of sc (save_ci_flags iso m) ≡ active_of sc m
  unfolding save_ci_flags get_active_overrides
  save_ci_flags-active sc m = refl

  reconcile-NoMore :
      (now : ℕ) (id : String) (m : ScopeManager) → NoMore m (reconcile_override iso now id m).1
  unfolding reconcile_override save_records save_ci_flags get_active_overrides
  reconcile-NoMore now id m = elim (Option-cases (get id m.records)) [
    | inl absent ↦
        rw (absent, reconcile_override) (record { same_limits = refl; fewer = λ sc. omega arith })
    | inr (r, there) ↦
        rw (there, reconcile_override)
          (record {
            same_limits = refl;
            fewer = λ sc.
                count_active-put_changed sc id
                  (record r { reconciled = true; reconciled_at = some now }) r m.records there
                  (ground arith);
          })
  ]

  flag-NoMore :
      (now : ℕ) (id commit severity : String) (m : ScopeManager)
      → NoMore m (flag_for_ci iso now id commit severity m).1
  unfolding flag_for_ci save_records save_ci_flags get_active_overrides
  flag-NoMore now id commit severity m = elim (Option-cases (get id m.records)) [
    | inl absent ↦
        rw (absent, flag_for_ci) (record { same_limits = refl; fewer = λ sc. omega arith })
    | inr (r, there) ↦ elim (Option-cases (first_flag id m.ci_flags)) [
      | inr (f, flagged) ↦
          rw (there, flagged, flag_for_ci)
            (record { same_limits = refl; fewer = λ sc. omega arith })
      | inl unflagged ↦
          rw (there, unflagged, flag_for_ci)
            (record {
              same_limits = refl;
              fewer = λ sc.
                  count_active-put_changed sc id
                    (record r { ci_flagged = true; ci_flag_commit = some commit }) r m.records there
                    (ground arith);
            })
    ]
  ]

  -- What a registration adds.
  registered-active :
      (now : ℕ) (q : Request) (sc : OverrideScope) (m : ScopeManager)
      → active_of sc
          (save_records iso (record m { records = put q.override_id (new_record now q) m.records }))
        ≤ (if q.scope == sc then 1 else 0) + active_of sc m
  unfolding save_records get_active_overrides new_record
  registered-active now q sc m = count_active-put-le sc q.override_id (new_record now q) m.records

-- A registration that is not refused has found room.
check_scope_limits-room :
    (sc : OverrideScope) (m : ScopeManager)
    → check_scope_limits sc m ≡ none
    → (sc ≡ file → active_of file m < m.limits.max_file_overrides)
      × (sc ≡ directory → active_of directory m < m.limits.max_directory_overrides)
      × (sc ≡ project → active_of project m < m.limits.max_project_overrides)
unfolding check_scope_limits
check_scope_limits-room file m h = (λ e. ground arith, λ e. cc, λ e. cc)
check_scope_limits-room directory m h = (λ e. cc, λ e. ground arith, λ e. cc)
check_scope_limits-room project m h = (λ e. cc, λ e. cc, λ e. ground arith)
check_scope_limits-room artifact m h = (λ e. cc, λ e. cc, λ e. cc)

module _ (iso : IsoTime) where
  register-WithinLimits :
      (now : ℕ) (q : Request) (m : ScopeManager)
      → WithinLimits m
      → WithinLimits (register_override iso now q m).1
  unfolding register_override
  register-WithinLimits now q m h =
      elim (Bool-cases (ltb (count q.reason) m.limits.require_reason_min_length)) [
        | inl short ↦ rw (short, register_override) h
        | inr long ↦ elim (Option-cases (check_scope_limits q.scope m)) [
          | inr (v, full) ↦ rw (long, full, register_override) h
          | inl fits ↦
              let (f, d, p) = check_scope_limits-room q.scope m fits in
              let added = registered-active iso now q in
              let new = record m { records = put q.override_id (new_record now q) m.records } in
              let same = save_records-limits iso new in
              rw (long, fits, register_override)
                (record {
                  files = ground (arith, same, added file m, f, h.files, ==_iff q.scope file);
                  directories =
                      ground (
                        arith,
                        same,
                        added directory m,
                        d,
                        h.directories,
                        ==_iff q.scope directory,
                      );
                  projects =
                      ground (arith, same, added project m, p, h.projects, ==_iff q.scope project);
                })
        ]
      ]

  apply-WithinLimits :
      (o : Operation) (m : ScopeManager) → WithinLimits m → WithinLimits (apply iso o m)
  unfolding apply
  apply-WithinLimits (register now q) m h = register-WithinLimits now q m h
  apply-WithinLimits (reconcile now id) m h =
      NoMore-WithinLimits m (reconcile_override iso now id m).1 (reconcile-NoMore iso now id m) h
  apply-WithinLimits (flag now id commit severity) m h =
      NoMore-WithinLimits m (flag_for_ci iso now id commit severity m).1
        (flag-NoMore iso now id commit severity m) h

  -- From a state with no more active overrides than the limits allow for files, directories and the
  -- project, no sequence of registrations, reconciliations and flags leads to one with more.
  pub run-WithinLimits :
      (os : List Operation) (m : ScopeManager) → WithinLimits m → WithinLimits (run iso os m)
  unfolding run
  run-WithinLimits [] m h = h
  run-WithinLimits (o ∷ os) m h = run-WithinLimits os (apply iso o m) (apply-WithinLimits o m h)
