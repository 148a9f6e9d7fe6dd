-- ===== src/Artifacts.antt =====
-- The artifact types and statuses that the source names. Their module, domain/artifacts, is not
-- in the repository; the types are those that adapters/storage/filesystem.py gives a directory, the
-- statuses those that schemas/artifact.schema.json lists.
use rice_factor.Prelude.{ℕ, ◌≡◌, ◌↔◌, true, arith, eqb}
use rice_factor.Prelude.Eq.{Eq}

pub data ArtifactType : Type 0 where
  project_plan architecture_plan scaffold_plan test_plan : ArtifactType
  implementation_plan refactor_plan validation_result reconciliation_plan : ArtifactType

pub data ArtifactStatus : Type 0 where
  draft approved locked : ArtifactStatus

abbrev pub rank : ArtifactStatus → ℕ
rank draft = 0
rank approved = 1
rank locked = 2

pub status_beq_iff : (a b : ArtifactStatus) → (eqb (rank a) (rank b) ≡ true) ↔ (a ≡ b)
status_beq_iff a b = ground arith

instance abbrev pub status_eq : Eq ArtifactStatus
status_eq = record { same = λ a b. eqb (rank a) (rank b); same_iff = status_beq_iff }
