-- ===== src/Store/Sketch.antt =====
-- Artifacts whose files hold them as they are, for the examples.
use mathlib.Core.Path.{subst}
use rice_factor.Prelude.{
  ◌≡◌, ◌≢◌, ◌⊎◌, ◌↔◌, refl, sym, ap, ◌∙◌, String, Bool, true, false, ◌&&◌, Option, none, some,
  arith, if◌then◌else◌,
}
use rice_factor.Prelude.Eq.{◌==◌, ==_iff, text_eq}
use rice_factor.Artifacts.{
  ArtifactType, test_plan, ArtifactStatus, draft, approved, locked, status_eq,
}
use rice_factor.Store.Envelope.{Envelope, Moved}
use rice_factor.Store.Paths.{type_eq, type_of_dir, type_of_dir-type_dir}
use rice_factor.Store.Storage.{type_dir}
use rice_factor.Store.Registry.{EnumValues}

pub record Sketch : Type 0 where
  pub id : String
  pub type_of : ArtifactType
  pub status : ArtifactStatus
  pub fits : Bool

abbrev pub in_stage : ArtifactStatus → Sketch → Sketch
in_stage s a = record a { status = s }

abbrev pub IsMoved : ArtifactStatus → Sketch → Sketch → Type 0
IsMoved = Moved (λ a. a.id) (λ a. a.type_of) (λ a. a.status) (λ a. a.fits)

pub in_stage-IsMoved : (s : ArtifactStatus) (a : Sketch) → IsMoved s a (in_stage s a)
in_stage-IsMoved s a = record {
  same_id = refl;
  same_type = refl;
  moved_to = refl;
  same_valid = refl;
}

abbrev pub moved_if : Bool → ArtifactStatus → Sketch → Option Sketch
moved_if b s a = if b then some (in_stage s a) else none

pub moved_if-IsMoved :
    (b : Bool) (s : ArtifactStatus) (a c : Sketch) → moved_if b s a ≡ some c → IsMoved s a c
moved_if-IsMoved true s a c e =
    let same : in_stage s a ≡ c = cc in subst (λ x. IsMoved s a x) same (in_stage-IsMoved s a)
moved_if-IsMoved false s a c e = cc

abbrev pub read_if : Bool → Sketch → Option Sketch
read_if b a = if b then some a else none

pub read_if-fits : (b : Bool) (t a : Sketch) → t.fits ≡ b → read_if b t ≡ some a → a.fits ≡ true
read_if-fits true t a f e = let same : t ≡ a = cc in ap (λ x. x.fits) (sym same) ∙ f
read_if-fits false t a f e = cc

abbrev pub is_plan : Sketch → Bool
is_plan a = a.type_of == test_plan && a.status == approved

moved_if-none : (b : Bool) (s : ArtifactStatus) (a : Sketch) → (moved_if b s a ≡ none) ↔ (b ≡ false)
moved_if-none true s a = ((λ e. cc), (λ e. cc))
moved_if-none false s a = ((λ e. refl), (λ e. refl))

pub approve_sketch_refuses :
    (a : Sketch) → (moved_if (a.status == draft) approved a ≡ none) ↔ (a.status ≢ draft)
approve_sketch_refuses a =
    ground (arith, moved_if-none (a.status == draft) approved a, ==_iff a.status draft)

pub lock_sketch_refuses :
    (a : Sketch)
    → (moved_if (is_plan a) locked a ≡ none) ↔ ((a.type_of ≢ test_plan) ⊎ (a.status ≢ approved))
lock_sketch_refuses a = ground (
  arith,
  moved_if-none (is_plan a) locked a,
  ==_iff a.type_of test_plan,
  ==_iff a.status approved,
)

abbrev pub sketches : Envelope Sketch Bool Sketch
sketches = record {
  id = λ a. a.id;
  type_of = λ a. a.type_of;
  status = λ a. a.status;
  approve = λ a. moved_if (a.status == draft) approved a;
  lock = λ a. moved_if (is_plan a) locked a;
  is_modifiable = λ a. a.status == draft;
  as_draft = in_stage draft;
  with_payload = λ u a. record a { fits = u };
  valid = λ a. a.fits;
  write = λ a. a;
  read = λ t. read_if t.fits t;
  read-write = λ a h. rw h refl;
  read_invalid = λ a h. rw h refl;
  valid-read = λ t a e. read_if-fits t.fits t a refl e;
  approves = λ a b e. moved_if-IsMoved (a.status == draft) approved a b e;
  approve_refuses = approve_sketch_refuses;
  locks = λ a b e. moved_if-IsMoved (is_plan a) locked a b e;
  lock_refuses = lock_sketch_refuses;
  is_modifiable_iff = λ a. ==_iff a.status draft;
  as_draft_moves = in_stage-IsMoved draft;
  with_payload_id = λ u a. refl;
  with_payload_type = λ u a. refl;
  with_payload_status = λ u a. refl;
}

-- The names of the directories and of the statuses stand for the values of the enumerations.
abbrev status_name : ArtifactStatus → String
status_name draft = "draft"
status_name approved = "approved"
status_name locked = "locked"

abbrev status_named : String → Option ArtifactStatus
status_named s =
    if s == "draft"
    then some draft
    else if s == "approved"
    then some approved
    else if s == "locked"
    then some locked
    else none

status_named-status_name : (s : ArtifactStatus) → status_named (status_name s) ≡ some s
status_named-status_name draft = refl
status_named-status_name approved = refl
status_named-status_name locked = refl

pub directory_values : EnumValues
directory_values = record {
  type_value = type_dir;
  read_type = type_of_dir;
  status_value = status_name;
  read_status = status_named;
  read_type-value = type_of_dir-type_dir;
  read_status-value = status_named-status_name;
}
