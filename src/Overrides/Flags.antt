-- ===== src/Overrides/Flags.antt =====
-- The CI flags, in every sequence of operations.
use rice_factor.Prelude.{
  ℕ, ◌+◌, ◌≤◌, ◌≡◌, refl, String, false, not, none, some, List, [], ◌∷◌, ◌++◌, arith, keep,
  if◌then◌else◌, Option-cases, inl, inr,
}
use rice_factor.Prelude.Eq.{◌==◌, ==_iff, text_eq}
use rice_factor.Prelude.Dict.{get, get-put_self}
use rice_factor.Prelude.Table.{IsoTime}
use rice_factor.Overrides.Records.{OverrideRecord, CiFlag, ScopeManager}
use rice_factor.Overrides.Files.{save_records, save_ci_flags}
use rice_factor.Overrides.Manager.{
  registered, Request, new_record, register_override, first_flag, new_flag, reconcile_override,
  flag_for_ci, Operation, register, reconcile, flag, apply, run,
}

-- The number of flags that an override has.
unfoldable pub flag_count : String → List CiFlag → ℕ
flag_count id [] = 0
flag_count id (f ∷ fs) = let n = flag_count id fs in if f.override_id == id then n + 1 else n

flag_count-append :
    (id : String) (fs gs : List CiFlag)
    → flag_count id (fs ++ gs) ≡ flag_count id fs + flag_count id gs
unfolding flag_count
flag_count-append id [] gs = omega arith
flag_count-append id (f ∷ fs) gs = ground (arith, flag_count-append id fs gs)

flag_count-keep :
    (id j : String) (fs : List CiFlag)
    → flag_count id (keep (λ f. not (f.override_id == j)) fs)
      ≡ (if j == id then 0 else flag_count id fs)
unfolding flag_count
flag_count-keep id j [] = ground arith
flag_count-keep id j (f ∷ fs) =
    ground
      (arith, flag_count-keep id j fs, ==_iff j id, ==_iff f.override_id j, ==_iff f.override_id id)

flag_count-first_flag :
    (id : String) (fs : List CiFlag) → first_flag id fs ≡ none → flag_count id fs ≡ 0
unfolding flag_count first_flag
flag_count-first_flag id [] h = refl
flag_count-first_flag id (f ∷ fs) h = ground (arith, flag_count-first_flag id fs)

module _ (iso : IsoTime) where
  register-flags :
      (now : ℕ) (q : Request) (m : ScopeManager)
      → (register_override iso now q m).1.ci_flags ≡ m.ci_flags
  unfolding register_override save_records
  register-flags now q m = ground arith

  reconcile-flag_count :
      (now : ℕ) (id j : String) (m : ScopeManager)
      → flag_count id m.ci_flags ≤ 1
      → flag_count id (reconcile_override iso now j m).1.ci_flags ≤ 1
  unfolding reconcile_override save_records save_ci_flags
  reconcile-flag_count now id j m h = ground (arith, flag_count-keep id j m.ci_flags)

  flag-flag_count :
      (now : ℕ) (id j commit severity : String) (m : ScopeManager)
      → flag_count id m.ci_flags ≤ 1
      → flag_count id (flag_for_ci iso now j commit severity m).1.ci_flags ≤ 1
  unfolding flag_for_ci save_records save_ci_flags new_flag flag_count
  flag-flag_count now id j commit severity m h = elim (Option-cases (get j m.records)) [
    | inl missing ↦ ground arith
    | inr (r, there) ↦ elim (Option-cases (first_flag j m.ci_flags)) [
      | inr (f, flagged) ↦ ground arith
      | inl unflagged ↦ ground (
        arith,
        flag_count-append id m.ci_flags (new_flag now j commit severity r ∷ []),
        flag_count-first_flag j m.ci_flags,
        ==_iff j id,
      )
    ]
  ]

  apply-flag_count :
      (id : String) (o : Operation) (m : ScopeManager)
      → flag_count id m.ci_flags ≤ 1
      → flag_count id (apply iso o m).ci_flags ≤ 1
  unfolding apply
  apply-flag_count id (register now q) m h = ground (arith, register-flags now q m)
  apply-flag_count id (reconcile now j) m h = reconcile-flag_count now id j m h
  apply-flag_count id (flag now j commit severity) m h =
      flag-flag_count now id j commit severity m h

  -- An override that has at most one CI flag has at most one after any sequence of registrations,
  -- reconciliations and flags.
  pub run-flag_count-le :
      (id : String) (os : List Operation) (m : ScopeManager)
      → flag_count id m.ci_flags ≤ 1
      → flag_count id (run iso os m).ci_flags ≤ 1
  unfolding run
  run-flag_count-le id [] m h = h
  run-flag_count-le id (o ∷ os) m h =
      run-flag_count-le id os (apply iso o m) (apply-flag_count id o m h)

  -- A flag outlives the record that it was made for: where an override that has a flag is registered
  -- again under its id, flagging it returns the old flag and does nothing, and the new record is not
  -- marked as flagged.
  pub flag_for_ci-register_override :
      (now later : ℕ) (q : Request) (m : ScopeManager) (f : CiFlag) (r : OverrideRecord)
      (commit severity : String)
      → first_flag q.override_id m.ci_flags ≡ some f
      → (register_override iso now q m).0 ≡ registered r
      → let m' = (register_override iso now q m).1 in
        (flag_for_ci iso later q.override_id commit severity m' ≡ (some f, m'))
        × (get q.override_id m'.records ≡ some r)
        × (r.ci_flagged ≡ false)
  unfolding register_override flag_for_ci save_records new_record
  flag_for_ci-register_override now later q m f r commit severity flagged ok =
      let at = get-put_self q.override_id (new_record now q) m.records in ground (arith, at)
