-- ===== src/Review/Recording.antt =====
-- `record_review` and `extend_artifact` of LifecycleService. The store is a parameter, as is the
-- envelope, whose module is not in the repository; both with what the code relies on.
use rice_factor.Prelude.{ℕ, ◌≡◌, refl, ◌∙◌, inl, inr, String, Option, none, some, Option-cases}
use rice_factor.Prelude.Table.{◌>>=◌}

pub data Notes : Type 0 where
  notes : String → Notes
  extended : ℕ → String → Notes  -- "Extended for ... months: ..."

-- The port of the store: `load` and `save` raise or return.
pub record StoragePort (S A : Type 0) : Type 0 where
  pub id : A → String
  pub last_reviewed_at : A → Option ℕ
  pub review_notes : A → Option Notes
  pub assign : ℕ → Option Notes → A → A  -- the two assignments of `record_review`
  pub load : String → S → Option A
  pub save : A → S → Option S
  pub load_id : (i : String) (s : S) (a : A) → load i s ≡ some a → id a ≡ i
  pub load-save : (a : A) (s t : S) → save a s ≡ some t → load (id a) t ≡ some a
  pub assign_id : (now : ℕ) (n : Option Notes) (a : A) → id (assign now n a) ≡ id a
  pub assign_time :
      (now : ℕ) (n : Option Notes) (a : A) → last_reviewed_at (assign now n a) ≡ some now
  pub assign_notes : (now : ℕ) (n : Option Notes) (a : A) → review_notes (assign now n a) ≡ n

module _ {S A : Type 0} (port : StoragePort S A) where
  open port use {
    id, last_reviewed_at, review_notes, assign, load, save, load_id, load-save, assign_id,
    assign_time, assign_notes,
  }

  -- The artifact that is returned and the store; `none` where it raises.
  unfoldable pub record_review : String → Option Notes → ℕ → S → Option (A × S)
  record_review i n now s = do a ← load i s; let b = assign now n a; t ← save b s; some (b, t)

  unfoldable pub extend_artifact : String → ℕ → String → ℕ → S → Option (A × S)
  unfolding record_review
  extend_artifact i months reason now s = record_review i (some (extended months reason)) now s

  -- After a review the store holds the artifact that was returned, reviewed at that time and with these
  -- notes.
  pub load-record_review :
      (i : String) (n : Option Notes) (now : ℕ) (s t : S) (b : A)
      → record_review i n now s ≡ some (b, t)
      → (load i t ≡ some b) × (last_reviewed_at b ≡ some now) × (review_notes b ≡ n)
  unfolding record_review
  load-record_review i n now s t b runs = elim (Option-cases (load i s)) [
    | inl missing ↦ cc (rw (missing, ◌>>=◌) at runs)
    | inr (a, there) ↦ elim (Option-cases (save (assign now n a) s)) [
      | inl refused ↦
          let fails : record_review i n now s ≡ none = rw (there, ◌>>=◌, refused, ◌>>=◌) refl in cc
      | inr (u, saved) ↦
          let does : record_review i n now s ≡ some (assign now n a, u) =
            rw (there, ◌>>=◌, saved, ◌>>=◌) refl in
          let same : b ≡ assign now n a = cc in
          let after : t ≡ u = cc in
          let at : port.id (assign now n a) ≡ i = assign_id now n a ∙ load_id i s a there in
          (
            rw (after, same, ← at) (load-save (assign now n a) s u saved),
            rw same (assign_time now n a),
            rw same (assign_notes now n a),
          )
    ]
  ]
