-- ===== src/Overrides/Reload.antt =====
-- A new manager over the files reads back the state, after every sequence of operations.
use Prim.Native.String.{count}
use mathlib.Core.Path.{subst}
use rice_factor.Prelude.{
  ℕ, ◌≡◌, refl, ap, ◌++◌, String, true, not, keep, some, List, [], ◌∷◌, ltb, Option-cases,
  Bool-cases, inl, inr,
}
use rice_factor.Prelude.Eq.{◌==◌, text_eq}
use rice_factor.Prelude.Dict.{get, put}
use rice_factor.Prelude.Table.{
  JsonFile, IsoTime, or_default, put-Keyed, get-Keyed, load_table-Keyed, load_table-items,
}
use rice_factor.Overrides.Records.{
  ScopeLimit, OverrideRecord, RecordJson, FlagJson, FoundFile, readable, misshapen, ScopeManager,
}
use rice_factor.Overrides.Files.{
  save_records, save_ci_flags, record_to_json, record_from_json, load_records, load_ci_flags,
  load_readable, load,
}
use rice_factor.Overrides.Manager.{
  check_scope_limits, Request, new_record, register_override, first_flag, new_flag,
  reconcile_override, flag_for_ci, Operation, register, reconcile, flag, apply, run,
}
use rice_factor.Overrides.Saved.{Keyed, record_from_json-record_to_json, read_flags-map}

abbrev id_of : OverrideRecord → String
id_of r = r.override_id

module _ (iso : IsoTime) where
  -- The files hold the state.
  pub record Synced (m : ScopeManager) : Type 0 where
    pub keyed : Keyed m.records
    pub records : load_records iso m.records_file ≡ m.records
    pub flags : load_ci_flags iso m.flags_file ≡ m.ci_flags

  -- Both files are written anew.
  saved : (m : ScopeManager) → Keyed m.records → Synced (save_ci_flags iso (save_records iso m))
  unfolding save_records save_ci_flags load_records load_ci_flags
  saved m h = record {
    keyed = h;
    records =
        load_table-items id_of (record_from_json iso) (record_to_json iso)
          (record_from_json-record_to_json iso) m.records h;
    flags = ap (or_default []) (read_flags-map iso m.ci_flags);
  }

  saved_records :
      (m : ScopeManager)
      → Keyed m.records
      → load_ci_flags iso m.flags_file ≡ m.ci_flags
      → Synced (save_records iso m)
  unfolding save_records load_records
  saved_records m h flags = record {
    keyed = h;
    records =
        load_table-items id_of (record_from_json iso) (record_to_json iso)
          (record_from_json-record_to_json iso) m.records h;
    flags = flags;
  }

  register-Synced :
      (now : ℕ) (q : Request) (m : ScopeManager)
      → Synced m
      → Synced (register_override iso now q m).1
  unfolding register_override new_record
  register-Synced now q m h =
      elim (Bool-cases (ltb (count q.reason) m.limits.require_reason_min_length)) [
        | inl short ↦ rw (short, register_override) h
        | inr long ↦ elim (Option-cases (check_scope_limits q.scope m)) [
          | inr (v, full) ↦ rw (long, full, register_override) h
          | inl fits ↦
              rw (long, fits, register_override)
                (saved_records
                  (record m { records = put q.override_id (new_record now q) m.records })
                  (put-Keyed id_of q.override_id (new_record now q) m.records refl h.keyed) h.flags)
        ]
      ]

  reconcile-Synced :
      (now : ℕ) (id : String) (m : ScopeManager)
      → Synced m
      → Synced (reconcile_override iso now id m).1
  unfolding reconcile_override save_records save_ci_flags
  reconcile-Synced now id m h = elim (Option-cases (get id m.records)) [
    | inl missing ↦ rw (missing, reconcile_override) h
    | inr (r, there) ↦
        let done = record r { reconciled = true; reconciled_at = some now } in
        rw (there, reconcile_override)
          (saved
            (record m {
              records = put id done m.records;
              ci_flags = keep (λ f. not (f.override_id == id)) m.ci_flags;
            })
            (put-Keyed id_of id done m.records (get-Keyed id_of id r m.records h.keyed there)
              h.keyed))
  ]

  flag-Synced :
      (now : ℕ) (id commit severity : String) (m : ScopeManager)
      → Synced m
      → Synced (flag_for_ci iso now id commit severity m).1
  unfolding flag_for_ci
  flag-Synced now id commit severity m h = elim (Option-cases (get id m.records)) [
    | inl missing ↦ rw (missing, flag_for_ci) h
    | inr (r, there) ↦ elim (Option-cases (first_flag id m.ci_flags)) [
      | inr (f, flagged) ↦ rw (there, flagged, flag_for_ci) h
      | inl unflagged ↦
          let f = new_flag now id commit severity r in
          let r' = record r { ci_flagged = true; ci_flag_commit = some commit } in
          rw (there, unflagged, flag_for_ci)
            (saved (record m { ci_flags = m.ci_flags ++ (f ∷ []); records = put id r' m.records })
              (put-Keyed id_of id r' m.records (get-Keyed id_of id r m.records h.keyed there)
                h.keyed))
    ]
  ]

  apply-Synced : (o : Operation) (m : ScopeManager) → Synced m → Synced (apply iso o m)
  unfolding apply
  apply-Synced (register now q) m h = register-Synced now q m h
  apply-Synced (reconcile now id) m h = reconcile-Synced now id m h
  apply-Synced (flag now id commit severity) m h = flag-Synced now id commit severity m h

  run-Synced : (os : List Operation) (m : ScopeManager) → Synced m → Synced (run iso os m)
  unfolding run
  run-Synced [] m h = h
  run-Synced (o ∷ os) m h = run-Synced os (apply iso o m) (apply-Synced o m h)

  load_readable-Synced :
      (l : ScopeLimit) (rs : JsonFile RecordJson) (fs : JsonFile FlagJson)
      → Synced (load_readable iso l rs fs)
  unfolding load_readable load_records
  load_readable-Synced l rs fs = record {
    keyed = load_table-Keyed id_of (record_from_json iso) rs;
    records = refl;
    flags = refl;
  }

  load-Synced :
      (l : ScopeLimit) (rs : FoundFile RecordJson) (fs : FoundFile FlagJson) (m : ScopeManager)
      → load iso l rs fs ≡ some m
      → Synced m
  unfolding load
  load-Synced l (readable rs) (readable fs) m h =
      let same : load_readable iso l rs fs ≡ m = cc in
      subst (λ x. Synced x) same (load_readable-Synced l rs fs)
  load-Synced l (readable rs) misshapen m h = cc
  load-Synced l misshapen fs m h = cc

  -- Nothing is lost with the process: where a manager is loaded without an exception, from files that
  -- are missing, that are no JSON, or that hold a list of entries whose keys are missing or have values
  -- of the types that the manager writes, then after any sequence of operations a second manager is
  -- loaded from the files without an exception, with the same records and flags.
  pub load-run :
      (l : ScopeLimit) (rs : FoundFile RecordJson) (fs : FoundFile FlagJson) (before : ScopeManager)
      (os : List Operation)
      → load iso l rs fs ≡ some before
      → let m = run iso os before in
        load iso m.limits (readable m.records_file) (readable m.flags_file) ≡ some m
  unfolding load load_readable
  load-run l rs fs before os loads =
      let h = run-Synced os before (load-Synced l rs fs before loads) in
      rw (h.records, h.flags) refl
