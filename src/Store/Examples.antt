-- ===== src/Store/Examples.antt =====
-- One test plan, its way through the service, and a registry.
use rice_factor.Prelude.{
  ◌≡◌, ◌≢◌, refl, sym, ap, ◌∙◌, String, Bool, true, false, ◌&&◌, none, some, List, [], ◌∷◌, arith,
  inl, inr, Bool-cases, if◌then◌else◌,
}
use rice_factor.Prelude.Eq.{◌==◌, ==_iff, text_eq}
use rice_factor.Prelude.Dict.{Dict, get, put, get-put_self, has, IsDict}
use rice_factor.Prelude.Table.{absent, load_table}
use rice_factor.Prelude.Marked.{marked_time}
use rice_factor.Artifacts.{
  ArtifactType, test_plan, implementation_plan, ArtifactStatus, draft, approved, locked,
}
use rice_factor.Phase.Service.{command_phases, test_locked, can_execute}
use rice_factor.Store.Storage.{
  ArtifactPath, path_eq, ok, get_path_for_artifact, save, load_by_id, locate, find_type, load,
}
use rice_factor.Store.Approvals.{load_approvals}
use rice_factor.Store.Paths.{type_eq, Placed, save-Placed}
use rice_factor.Store.Service.{Store, Call, approves, locks, modifies, revokes, lock, step, run}
use rice_factor.Store.View.{missing, in_status, stage}
use rice_factor.Store.Load.{set_stage, stage-save}
use rice_factor.Store.Contract.{contract, reply, view}
use rice_factor.Store.Moves.{WellFormed}
use rice_factor.Store.Refinement.{step-contract}
use rice_factor.Store.Locked.{run-locked}
use rice_factor.Store.Recorded.{AllRecorded, run-AllRecorded}
use rice_factor.Store.Gating.{project_over, lock-can_execute}
use rice_factor.Store.Registry.{Artifact, ArtifactRegistry, load_index}
use rice_factor.Store.Dependencies.{registers, updates, unregisters, changes, Change}
use rice_factor.Store.Sketch.{Sketch, sketches, directory_values}

abbrev plan_of_tests : ArtifactStatus → Sketch
plan_of_tests s = record { id = "t1"; type_of = test_plan; status = s; fits = true }

abbrev files_with : ArtifactStatus → Dict ArtifactPath Sketch
files_with s = save sketches (plan_of_tests s) []

abbrev store_with : ArtifactStatus → Store Sketch
store_with s = record { files = files_with s; tracker = load_approvals marked_time absent }

no_files-Placed : Placed sketches []
unfolding get
no_files-Placed path text a there reads = cc

store_with-WellFormed : (s : ArtifactStatus) → WellFormed sketches marked_time (store_with s)
unfolding load_approvals load_table IsDict
store_with-WellFormed s = record {
  placed = save-Placed sketches (plan_of_tests s) [] no_files-Placed;
  keyed = record { once = tt; own_id = tt };
}

abbrev day : List (Call Bool)
day = approves 1 "t1" "ann" none ∷ modifies "t1" false none ∷ locks "t1" none ∷ revokes "t1" ∷ []

step-contract_example :
    (fits : Bool) × ((
      reply sketches marked_time (modifies "t1" false none) (store_with draft),
      view sketches (step sketches marked_time (modifies "t1" false none) (store_with draft)),
    )
      ≡ contract fits (modifies "t1" false none) (view sketches (store_with draft)))
step-contract_example =
    step-contract sketches marked_time (modifies "t1" false none) (store_with draft)
      (store_with-WellFormed draft)

abbrev plan_path : ArtifactPath
plan_path = get_path_for_artifact "t1" test_plan

plan_there : (s : ArtifactStatus) → get plan_path (files_with s) ≡ some (plan_of_tests s)
unfolding save
plan_there s = get-put_self plan_path (plan_of_tests s) []

run-locked_example :
    get plan_path (run sketches marked_time day (store_with locked)).files
    ≡ some (plan_of_tests locked)
run-locked_example =
    run-locked sketches marked_time day (store_with locked) plan_path (plan_of_tests locked)
      (plan_of_tests locked) (store_with-WellFormed locked) (plan_there locked) refl refl

plan_locks :
    (lock sketches marked_time "t1" none (store_with approved)).0 ≡ ok (plan_of_tests locked)
unfolding lock load_by_id locate find_type load save get has put get_path_for_artifact
plan_locks = refl

needs_tests : get "impl" command_phases ≡ some test_locked
unfolding get command_phases
needs_tests = refl

lock-can_execute_example :
    can_execute
      (project_over sketches marked_time (
        run sketches marked_time day (lock sketches marked_time "t1" none (store_with approved)).1))
      "impl"
    ≡ true
lock-can_execute_example =
    lock-can_execute sketches marked_time "t1" none (store_with approved) (plan_of_tests locked) day
      "impl" (store_with-WellFormed approved) plan_locks needs_tests

stage_of_draft :
    (t : ArtifactType) (j : String)
    → stage sketches (files_with draft) t j
      ≡ (if test_plan == t && "t1" == j then in_status draft else missing)
unfolding set_stage stage get
stage_of_draft t j = ap (λ m. m t j) (stage-save sketches (plan_of_tests draft) [])

plan_only :
    (t : ArtifactType) (j : String)
    → stage sketches (files_with draft) t j ≢ missing
    → test_plan ≡ t
plan_only t j there = elim (Bool-cases (test_plan == t && "t1" == j)) [
  | inl hit ↦ ground (arith, ==_iff test_plan t)
  | inr other ↦ absurd (there (stage_of_draft t j ∙ rw other refl))
]

draft-AllRecorded : AllRecorded (view sketches (store_with draft))
unfolding view
draft-AllRecorded = record {
  one_type = λ t u j a b. sym (plan_only t j a) ∙ plan_only u j b;
  on_record = λ t j s e past. elim (Bool-cases (test_plan == t && "t1" == j)) [
    | inl hit ↦
        let found : stage sketches (files_with draft) t j ≡ in_status draft =
          stage_of_draft t j ∙ rw hit refl in
        absurd (past (cc (found, e)))
    | inr other ↦
        let gone : stage sketches (files_with draft) t j ≡ missing =
          stage_of_draft t j ∙ rw other refl in
        cc (gone, e)
  ];
}

run-AllRecorded_example :
    AllRecorded (view sketches (run sketches marked_time day (store_with draft)))
run-AllRecorded_example =
    run-AllRecorded sketches marked_time day (store_with draft) (store_with-WellFormed draft)
      draft-AllRecorded

abbrev plan_tests : Artifact
plan_tests = record {
  id = "t1";
  artifact_type = test_plan;
  status = approved;
  created_at = 1;
  depends_on = [];
}

abbrev plan_code : Artifact
plan_code = record {
  id = "c1";
  artifact_type = implementation_plan;
  status = draft;
  created_at = 2;
  depends_on = "t1" ∷ [];
}

abbrev filled : List Change
filled =
    registers plan_tests "test_plans/t1.json"
    ∷ registers plan_code "implementation_plans/c1.json"
    ∷ updates "t1" locked
    ∷ unregisters "c1"
    ∷ []

abbrev registry : ArtifactRegistry
registry =
    changes directory_values marked_time filled (load_index directory_values marked_time absent)
