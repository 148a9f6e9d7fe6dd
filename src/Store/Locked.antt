-- ===== src/Store/Locked.antt =====
-- Well-formed files stay so, and the file of a locked artifact stays as it is.
use rice_factor.Prelude.{◌≡◌, sym, ap, ◌∙◌, some, List, [], ◌∷◌, inl, inr, Bool-cases}
use mathlib.Core.Path.{subst, ap₂}
use rice_factor.Prelude.Eq.{◌==◌, ==_iff}
use rice_factor.Prelude.Dict.{Dict, get, get-put}
use rice_factor.Prelude.Table.{IsoTime}
use rice_factor.Artifacts.{locked}
use rice_factor.Store.Envelope.{Envelope}
use rice_factor.Store.Storage.{ArtifactPath, path_eq, get_path_for_artifact, path_of, save}
use rice_factor.Store.Paths.{Placed, save-Placed}
use rice_factor.Store.Service.{Store, Call, step, run}
use rice_factor.Store.Moves.{WellFormed}
use rice_factor.Store.Writes.{Write, step-Write}
use rice_factor.Store.Trackers.{step-Keyed}

module _ {A U T : Type 0} (env : Envelope A U T) (iso : IsoTime) where
  step-Placed :
      (c : Call U) (s : Store T) → WellFormed env iso s → Placed env (step env iso c s).files
  step-Placed c s wf = elim (step-Write env iso c s wf) [
    | inl same ↦ subst (λ f. Placed env f) (sym same) wf.placed
    | inr w ↦ subst (λ f. Placed env f) (sym w.saved) (save-Placed env w.to s.files wf.placed)
  ]

  get-Write :
      (old new : Dict ArtifactPath T) (path : ArtifactPath) (text : T) (a : A)
      → Write env iso old new
      → get path old ≡ some text
      → env.read text ≡ some a
      → env.status a ≡ locked
      → get path new ≡ some text
  unfolding save
  get-Write old new path text a w there reads is_locked =
      let e = get-put (path_of env w.to) path (env.write w.to) old in
      ap (get path) w.saved ∙ (elim (Bool-cases (path_of env w.to == path)) [
        | inr other ↦ rw (e, other) there
        | inl hit ↦
            let at_path : path_of env w.to ≡ path = (==_iff (path_of env w.to) path).0 hit in
            let own : path_of env w.from ≡ path =
              sym (ap₂ get_path_for_artifact w.same_id w.same_type) ∙ at_path in
            let here : some text ≡ some w.stored.text =
              sym there ∙ ap (λ p. get p old) (sym own) ∙ w.stored.there in
            let it : a ≡ w.from = cc (here, reads, w.stored.reads) in
            absurd (w.unlocked (ap env.status (sym it) ∙ is_locked))
      ])

  pub step-WellFormed :
      (c : Call U) (s : Store T) → WellFormed env iso s → WellFormed env iso (step env iso c s)
  step-WellFormed c s wf = record {
    placed = step-Placed c s wf;
    keyed = step-Keyed env iso c s wf.keyed;
  }

  pub run-WellFormed :
      (cs : List (Call U)) (s : Store T)
      → WellFormed env iso s
      → WellFormed env iso (run env iso cs s)
  unfolding run
  run-WellFormed [] s wf = wf
  run-WellFormed (c ∷ cs) s wf = run-WellFormed cs (step env iso c s) (step-WellFormed c s wf)

  -- Where each file that loads stands at the path of its artifact, no sequence of calls changes the file
  -- of a locked artifact.
  pub run-locked :
      (cs : List (Call U)) (s : Store T) (path : ArtifactPath) (text : T) (a : A)
      → WellFormed env iso s
      → get path s.files ≡ some text
      → env.read text ≡ some a
      → env.status a ≡ locked
      → get path (run env iso cs s).files ≡ some text
  unfolding run
  run-locked [] s path text a wf there reads is_locked = there
  run-locked (c ∷ cs) s path text a wf there reads is_locked =
      run-locked cs (step env iso c s) path text a (step-WellFormed c s wf)
        (elim (step-Write env iso c s wf) [
          | inl same ↦ ap (get path) same ∙ there
          | inr w ↦ get-Write s.files (step env iso c s).files path text a w there reads is_locked
        ])
        reads is_locked
