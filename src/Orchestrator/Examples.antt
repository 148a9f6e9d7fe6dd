-- ===== src/Orchestrator/Examples.antt =====
-- An orchestrator with two handlers, and the theorems at it.
use rice_factor.Prelude.{ℕ, ◌+◌, ◌≡◌, refl, String, true, none, some, [], ◌∷◌}
use rice_factor.Prelude.Dict.{get, put}
use rice_factor.Orchestrator.Phases.{plan, scaffold, test, completed}
use rice_factor.Orchestrator.Files.{phase_value, phase_of, legible, missing, from_dict}
use rice_factor.Orchestrator.Service.{
  absent, saved, returned, raised, Handler, Orchestrator, index_in, new_state, start, begin,
  run_hooks, update, save_state, result_of, result_in, run_handler, load_state, execute_from,
  completed_result, run_phases, run_to_phase, progress_status,
}
use rice_factor.Orchestrator.Twice.{all_completed, run_to_phase_twice}
use rice_factor.Orchestrator.Progress.{advances, advances-in_progress}

-- A handler that counts its calls and makes a plan, and one that raises.
abbrev make_plan : Handler String ℕ
make_plan w context = (
  w + 1,
  ("plan", "p1") ∷ context,
  returned
      (record { phase = plan; status = completed; artifacts_created = "p1" ∷ []; error = none }),
)

abbrev no_tests : Handler String ℕ
no_tests w context = (w + 1, context, raised "no test plan")

abbrev project : Orchestrator String ℕ
project = record {
  state = none;
  handlers = (plan, make_plan) ∷ (test, no_tests) ∷ [];
  pre = [];
  post = (λ p r w. w + 10) ∷ [];
  state_file = absent;
  world = 0;
}

planned : all_completed (run_to_phase scaffold [] project).0 ≡ true
unfolding run_to_phase run_phases begin start new_state save_state completed_result execute_from
    run_hooks update run_handler result_of result_in index_in get put phase_value
planned = refl

run_to_phase_twice_example :
    run_to_phase scaffold (("again", "yes") ∷ []) (run_to_phase scaffold [] project).1
    ≡ run_to_phase scaffold [] project
run_to_phase_twice_example = run_to_phase_twice scaffold [] (("again", "yes") ∷ []) project planned

advances-in_progress_example :
    progress_status (advances ([] ∷ (("k", "v") ∷ []) ∷ [] ∷ []) (start [] project).1)
    ≡ "in_progress"
advances-in_progress_example = advances-in_progress [] ([] ∷ (("k", "v") ∷ []) ∷ [] ∷ []) project

-- A state file from a run that stopped after the first phase; a result with no time of its end and no
-- list of artifacts is read all the same.
abbrev stored : Orchestrator String ℕ
stored = record project {
  state_file = saved (record {
    current_phase = some "plan";
    phase_results = some (
        (
          "plan",
          record {
            phase = some "plan";
            status = some "completed";
            started_at = legible;
            completed_at = missing;
            artifacts_created = none;
            error = none;
          },
        )
        ∷ []);
    started_at = legible;
    last_updated = legible;
    context = none;
  });
}

abbrev resumed : Orchestrator String ℕ
resumed = record stored {
  state = some (record {
    current_phase = plan;
    phase_results =
        ("plan", record { phase = plan; status = completed; artifacts_created = []; error = none })
        ∷ [];
    context = [];
  });
}

-- A phase that there is not raises the ValueError.
unknown_phase :
    load_state (record project {
      state_file = saved (record {
        current_phase = some "deploy";
        phase_results = none;
        started_at = legible;
        last_updated = legible;
        context = none;
      });
    })
    ≡ none
unfolding load_state from_dict phase_of
unknown_phase = refl
