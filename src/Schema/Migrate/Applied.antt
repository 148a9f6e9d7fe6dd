-- ===== src/Schema/Migrate/Applied.antt =====
-- What it is to apply migrations one after the other, without reference to the loop.
use rice_factor.Prelude.{
  ◌≡◌, refl, ◌⊎◌, inl, inr, ◌&&◌, some, List, [], ◌∷◌, String, if◌then◌else◌, Bool-cases, arith,
}
use rice_factor.Prelude.Eq.{◌==◌, text_eq}
use rice_factor.Prelude.Dict.{get, has, get-put}
use rice_factor.Prelude.Text.{Text}
use rice_factor.Schema.Version.{SchemaVersion, str}
use rice_factor.Schema.Manager.{
  text, Artifact, Outcome, returns, raises, Migration, migration_error, Result, ok, raise,
}
use rice_factor.Schema.Migrate.{stamp, stamped, apply_step, apply_all}

module _ {O : Type 0} where
  -- The version that is stated, if one is, becomes `v`; all else is as before.
  abbrev pub Restamped : SchemaVersion → Artifact O → Artifact O → Type 0
  Restamped v d r =
      (j : String)
      → get j r ≡ (
          if "artifact_version" == j && has "artifact_version" d
          then some (text (str v))
          else get j d)

  pub stamp-Restamped : (v : SchemaVersion) (d : Artifact O) → Restamped v d (stamp v d)
  unfolding stamp
  stamp-Restamped v d j = elim (Bool-cases (has "artifact_version" d)) [
    | inl there ↦ rw (there, get-put "artifact_version" j (text (str v)) d) (ground arith)
    | inr missing ↦ rw missing (ground arith)
  ]

-- The result of the migrations of a list on data: each gets what the one before returned, restamped, and
-- the first that raises ends it with an error of its two versions.
pub data Applied {O : Type 0} (t : String)
    : List (Migration O) → Artifact O → Result (Artifact O) → Type 0 where
  done : {d : Artifact O} → Applied t [] d (ok d)
  stops :
      {m : Migration O} {p : List (Migration O)} {d : Artifact O} {message : Text}
      → m.migrate d (str m.from_version) (str m.to_version) ≡ raises message
      → Applied t
          (m ∷ p)
          d
          (raise (migration_error (str m.from_version) (str m.to_version) t message))
  goes_on :
      {m : Migration O} {p : List (Migration O)} {d d' e : Artifact O} {r : Result (Artifact O)}
      → m.migrate d (str m.from_version) (str m.to_version) ≡ returns d'
      → Restamped m.to_version d' e
      → Applied t p e r
      → Applied t (m ∷ p) d r

Outcome-cases :
    {O : Type 0} (o : Outcome O)
    → ((d : Artifact O) × (o ≡ returns d)) ⊎ ((message : Text) × (o ≡ raises message))
Outcome-cases (returns d) = inl (d, refl)
Outcome-cases (raises message) = inr (message, refl)

pub apply_all-Applied :
    {O : Type 0} (t : String) (p : List (Migration O)) (d : Artifact O)
    → Applied t p d (apply_all t p d)
unfolding apply_all apply_step stamped
apply_all-Applied t [] d = done
apply_all-Applied t (m ∷ p) d =
    elim (Outcome-cases (m.migrate d (str m.from_version) (str m.to_version))) [
      | inl (d', e) ↦
          rw (e, stamped)
            (goes_on e (stamp-Restamped m.to_version d')
              (apply_all-Applied t p (stamp m.to_version d')))
      | inr (message, e) ↦ rw (e, stamped) (stops e)
    ]
