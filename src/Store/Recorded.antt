-- ===== src/Store/Recorded.antt =====
-- Every approved or locked artifact has an approval on record, where no two types share an id.
use rice_factor.Prelude.{
  ◌≡◌, ◌≢◌, sym, ap, ◌∙◌, String, Bool, true, false, ◌&&◌, Option, none, List, [], ◌∷◌, arith, inl,
  inr, Bool-cases, if◌then◌else◌, Option-cases,
}
use mathlib.Core.Path.{subst, ap₂}
use rice_factor.Prelude.Eq.{◌==◌, ==_iff, text_eq}
use rice_factor.Prelude.Table.{IsoTime}
use rice_factor.Artifacts.{
  ArtifactType, test_plan, ArtifactStatus, draft, approved, locked, status_eq,
}
use rice_factor.Store.Envelope.{Envelope}
use rice_factor.Store.Storage.{not_found, invalid, status_error, ok}
use rice_factor.Store.Service.{Store, Call, approves, locks, modifies, revokes, step, run}
use rice_factor.Store.Paths.{type_eq}
use rice_factor.Store.View.{Stage, missing, broken, in_status, Stages, target}
use rice_factor.Store.Load.{found_at, found, set_stage}
use rice_factor.Store.Contract.{Abstract, set_recorded, contract, view}
use rice_factor.Store.Moves.{WellFormed}
use rice_factor.Store.Refinement.{step-contract}
use rice_factor.Store.Locked.{step-WellFormed}
use rice_factor.Store.Trackers.{Result-cases}

-- Each artifact past the draft has its id on record, and an id has artifacts of one type only.
pub record AllRecorded (m : Abstract) : Type 0 where
  pub on_record :
      (t : ArtifactType) (j : String) (s : ArtifactStatus)
      → m.stages t j ≡ in_status s
      → s ≢ draft
      → m.recorded j ≡ true
  pub one_type :
      (t u : ArtifactType) (j : String) → m.stages t j ≢ missing → m.stages u j ≢ missing → t ≡ u

found_at_ok :
    (i k : ArtifactType) (v : Stage) (s : ArtifactStatus)
    → found_at i v ≡ ok (k, s)
    → (i ≡ k) × (v ≡ in_status s)
found_at_ok i k missing s e = cc
found_at_ok i k broken s e = cc
found_at_ok i k (in_status st) s e = (cc, cc)

found-stage :
    (id : String) (t : Option ArtifactType) (m : Stages) (k : ArtifactType) (s : ArtifactStatus)
    → found id t m ≡ ok (k, s)
    → m k id ≡ in_status s
unfolding found
found-stage id t m k s e = elim (Option-cases (target id t m)) [
  | inl gone ↦ cc (rw (gone, found) at e)
  | inr (i, here) ↦
      let both = found_at_ok i k (m i id) s (rw (here, found) at e) in
      ap (λ j. m j id) (sym both.0) ∙ both.1
]

in_status-ne-missing : (v : Stage) (s : ArtifactStatus) → v ≡ in_status s → v ≢ missing
in_status-ne-missing v s e = λ gone. cc

-- A change of one stage that was there.
module _ (m : Abstract) (inv : AllRecorded m) (k : ArtifactType) (id : String) (s : ArtifactStatus)
    (here : m.stages k id ≡ in_status s) (v : Stage) where
  same_key : {t : ArtifactType} {j : String} → (k == t && id == j) ≡ true → (k ≡ t) × (id ≡ j)
  same_key {t} {j} hit = ground (arith, ==_iff k t, ==_iff id j)

  set_stage-missing :
      (t : ArtifactType) (j : String)
      → set_stage k id v m.stages t j ≢ missing
      → m.stages t j ≢ missing
  unfolding set_stage
  set_stage-missing t j there = λ gone. elim (Bool-cases (k == t && id == j)) [
    | inl hit ↦
        let own : m.stages t j ≡ in_status s =
          ap₂ m.stages (sym (same_key hit).0) (sym (same_key hit).1) ∙ here in
        cc
    | inr other ↦ there (rw (other) gone)
  ]

  pub set_stage-one_type :
      (t u : ArtifactType) (j : String)
      → set_stage k id v m.stages t j ≢ missing
      → set_stage k id v m.stages u j ≢ missing
      → t ≡ u
  set_stage-one_type t u j a b =
      inv.one_type t u j (set_stage-missing t j a) (set_stage-missing u j b)

  set_stage-AllRecorded :
      (r : String → Bool)
      → ((t : ArtifactType) (j : String)
          → (k == t && id == j) ≡ false
          → m.stages t j ≢ missing
          → m.recorded j ≡ true
          → r j ≡ true)
      → ((st : ArtifactStatus) → v ≡ in_status st → st ≢ draft → r id ≡ true)
      → AllRecorded (record { stages = set_stage k id v m.stages; recorded = r })
  unfolding set_stage
  set_stage-AllRecorded r keeps new = record {
    one_type = set_stage-one_type;
    on_record = λ t j st e past. elim (Bool-cases (k == t && id == j)) [
      | inl hit ↦ ap r (sym (same_key hit).1) ∙ new st (rw (hit, set_stage) at e) past
      | inr other ↦
          let old : m.stages t j ≡ in_status st = rw (other, set_stage) at e in
          keeps t j other (in_status-ne-missing (m.stages t j) st old)
            (inv.on_record t j st old past)
    ];
  }

contract-AllRecorded :
    {U : Type 0}
    → (fits : Bool) (c : Call U) (m : Abstract) → AllRecorded m
    → AllRecorded (contract fits c m).1
unfolding contract set_recorded
contract-AllRecorded fits (approves now id by t) m inv = elim (Result-cases (found id t m.stages)) [
  | inl (e, fails) ↦ rw (fails, contract) inv
  | inr ((k, s), finds) ↦ elim (Bool-cases (s == draft)) [
    | inr other ↦ rw (finds, contract, other) inv
    | inl hit ↦
        rw (finds, contract, hit)
          (set_stage-AllRecorded m inv k id s (found-stage id t m.stages k s finds)
            (in_status approved) (set_recorded id true m.recorded)
            (λ u j other there old. ground arith) (λ st e past. ground (arith, ==_iff id id)))
  ]
]
contract-AllRecorded fits (locks id t) m inv = elim (Result-cases (found id t m.stages)) [
  | inl (e, fails) ↦ rw (fails, contract) inv
  | inr ((k, s), finds) ↦ elim (Bool-cases (k == test_plan && s == approved)) [
    | inr other ↦ rw (finds, contract, other) inv
    | inl hit ↦
        let here = found-stage id t m.stages k s finds in
        rw (finds, contract, hit)
          (set_stage-AllRecorded m inv k id s here (in_status locked) m.recorded
            (λ u j other there old. old)
            (λ st e past. inv.on_record k id s here (ground (arith, ==_iff s approved))))
  ]
]
contract-AllRecorded fits (modifies id u t) m inv = elim (Result-cases (found id t m.stages)) [
  | inl (e, fails) ↦ rw (fails, contract) inv
  | inr ((k, s), finds) ↦ elim (Bool-cases (s == draft)) [
    | inr other ↦ rw (finds, contract, other) inv
    | inl hit ↦
        rw (finds, contract, hit)
          (set_stage-AllRecorded m inv k id s (found-stage id t m.stages k s finds)
            (if fits then in_status draft else broken) m.recorded (λ u j other there old. old)
            (λ st e past. elim (Bool-cases fits) [
              | inl valid ↦ absurd (past (cc (rw valid at e)))
              | inr unfit ↦ absurd (past (cc (rw unfit at e)))
            ]))
  ]
]
contract-AllRecorded fits (revokes id) m inv = elim (Result-cases (found id none m.stages)) [
  | inl (not_found, fails) ↦ rw (fails, contract) inv
  | inl (invalid, fails) ↦ rw (fails, contract) inv
  | inl (status_error, fails) ↦ rw (fails, contract) inv
  | inr ((k, s), finds) ↦ elim (Bool-cases (s == locked)) [
    | inl hit ↦ rw (finds, contract, hit) inv
    | inr other ↦ elim (Bool-cases (m.recorded id)) [
      | inr gone ↦ rw (finds, contract, other, gone) inv
      | inl on ↦
          let here = found-stage id none m.stages k s finds in
          rw (finds, contract, other, on)
            (set_stage-AllRecorded m inv k id s here (in_status draft)
              (set_recorded id false m.recorded)
              (λ u j apart there old.
                let same_id : id ≡ j → k ≡ u = λ e.
                  inv.one_type k u j
                    (in_status-ne-missing (m.stages k j) s (ap (m.stages k) (sym e) ∙ here))
                    there in
                ground (arith, ==_iff id j, ==_iff k u, same_id))
              (λ st e past. absurd (past cc)))
    ]
  ]
]

module _ {A U T : Type 0} (env : Envelope A U T) (iso : IsoTime) where
  step-AllRecorded :
      (c : Call U) (s : Store T)
      → WellFormed env iso s
      → AllRecorded (view env s)
      → AllRecorded (view env (step env iso c s))
  step-AllRecorded c s wf inv =
      let (fits, keeps) = step-contract env iso c s wf in
      subst AllRecorded (sym (ap (λ p. p.1) keeps)) (contract-AllRecorded fits c (view env s) inv)

  -- On well-formed files and approvals: where no two artifacts of different types share an id, and each
  -- artifact that is approved or locked has an approval on record, both still hold after any sequence
  -- of calls of the service.
  pub run-AllRecorded :
      (cs : List (Call U)) (s : Store T)
      → WellFormed env iso s
      → AllRecorded (view env s)
      → AllRecorded (view env (run env iso cs s))
  unfolding run
  run-AllRecorded [] s wf inv = inv
  run-AllRecorded (c ∷ cs) s wf inv =
      run-AllRecorded cs (step env iso c s) (step-WellFormed env iso c s wf)
        (step-AllRecorded c s wf inv)
