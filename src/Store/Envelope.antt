-- ===== src/Store/Envelope.antt =====
-- What the storage and the service use of `ArtifactEnvelope` and of the validator. The module
-- domain/artifacts is not in the repository and the validator stands on pydantic and jsonschema, so
-- both are a parameter, with laws that docs/reference/architecture/domain.md and the docstrings of
-- artifact_service.py state. `A` stands for envelopes, `U` for updates of a payload, `T` for the text
-- of a file.
use rice_factor.Prelude.{◌≡◌, ◌≢◌, ◌⊎◌, ◌↔◌, String, Bool, true, false, Option, none, some}
use rice_factor.Artifacts.{ArtifactType, test_plan, ArtifactStatus, draft, approved, locked}

-- `b` is `a` moved to a status.
pub record Moved {A : Type 0} (id : A → String) (type_of : A → ArtifactType)
    (status : A → ArtifactStatus) (valid : A → Bool) (s : ArtifactStatus) (a b : A) : Type 0 where
  pub same_id : id b ≡ id a
  pub same_type : type_of b ≡ type_of a
  pub moved_to : status b ≡ s
  pub same_valid : valid b ≡ valid a

pub record Envelope (A U T : Type 0) : Type 0 where
  pub id : A → String
  pub type_of : A → ArtifactType
  pub status : A → ArtifactStatus
  pub approve : A → Option A  -- `none` is the ArtifactStatusError
  pub lock : A → Option A
  pub is_modifiable : A → Bool
  pub as_draft : A → A  -- `model_copy(update={"status": DRAFT})`
  pub with_payload : U → A → A  -- `model_copy(update={"payload": payload.model_copy(update=u)})`
  pub valid : A → Bool  -- whether the validator accepts what is written
  pub write : A → T
  pub read : T → Option A  -- `none` is the ArtifactValidationError
  pub read-write : (a : A) → valid a ≡ true → read (write a) ≡ some a
  pub read_invalid : (a : A) → valid a ≡ false → read (write a) ≡ none
  pub valid-read : (t : T) (a : A) → read t ≡ some a → valid a ≡ true
  pub approves : (a b : A) → approve a ≡ some b → Moved id type_of status valid approved a b
  pub approve_refuses : (a : A) → (approve a ≡ none) ↔ (status a ≢ draft)
  pub locks : (a b : A) → lock a ≡ some b → Moved id type_of status valid locked a b
  pub lock_refuses : (a : A) → (lock a ≡ none) ↔ ((type_of a ≢ test_plan) ⊎ (status a ≢ approved))
  pub is_modifiable_iff : (a : A) → (is_modifiable a ≡ true) ↔ (status a ≡ draft)
  pub as_draft_moves : (a : A) → Moved id type_of status valid draft a (as_draft a)
  pub with_payload_id : (u : U) (a : A) → id (with_payload u a) ≡ id a
  pub with_payload_type : (u : U) (a : A) → type_of (with_payload u a) ≡ type_of a
  pub with_payload_status : (u : U) (a : A) → status (with_payload u a) ≡ status a
