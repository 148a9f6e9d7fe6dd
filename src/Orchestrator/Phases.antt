-- ===== src/Orchestrator/Phases.antt =====
-- rice_factor/domain/services/lifecycle_orchestrator.py: phases, their order and their results. Times
-- are left out. The enumeration `Phase` of this file is `LifecyclePhase` here.
use rice_factor.Prelude.{◌≡◌, ◌↔◌, String, Bool, true, false, Option, List, [], ◌∷◌, arith}
use rice_factor.Prelude.Eq.{Eq}

pub data LifecyclePhase : Type 0 where
  init plan scaffold test implement execute validate refactor complete : LifecyclePhase

abbrev pub same_phase : LifecyclePhase → LifecyclePhase → Bool
same_phase init init = true
same_phase plan plan = true
same_phase scaffold scaffold = true
same_phase test test = true
same_phase implement implement = true
same_phase execute execute = true
same_phase validate validate = true
same_phase refactor refactor = true
same_phase complete complete = true
same_phase p q = false

pub same_phase_iff : (p q : LifecyclePhase) → (same_phase p q ≡ true) ↔ (p ≡ q)
same_phase_iff p q = ground arith

instance abbrev pub lifecycle_phase_eq : Eq LifecyclePhase
lifecycle_phase_eq = record { same_iff = same_phase_iff; same = same_phase }

abbrev pub phase_order : List LifecyclePhase
phase_order =
    init ∷ plan ∷ scaffold ∷ test ∷ implement ∷ execute ∷ validate ∷ refactor ∷ complete ∷ []

pub data PhaseStatus : Type 0 where
  pending in_progress completed failed skipped : PhaseStatus

abbrev pub is_completed : PhaseStatus → Bool
is_completed completed = true
is_completed _ = false

abbrev pub is_failed : PhaseStatus → Bool
is_failed failed = true
is_failed _ = false

pub record PhaseResult : Type 0 where
  pub phase : LifecyclePhase
  pub status : PhaseStatus
  pub artifacts_created : List String
  pub error : Option String
