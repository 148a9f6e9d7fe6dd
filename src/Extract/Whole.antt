-- ===== src/Extract/Whole.antt =====
-- What `extract` returns where there are no code fences.
use rice_factor.Prelude.{
  ℕ, zero, suc, ◌-◌, ◌≤◌, ◌<◌, ◌≡◌, ◌⊎◌, refl, sym, ap, ◌∙◌, Bool, true, false, List, [], ◌∷◌, ◌++◌,
  arith, length, length-append, is_empty, if◌then◌else◌, Bool-cases, inl, inr, append-nil_lem,
}
use rice_factor.Extract.Scanner.{
  Text, starts_with_brace, strip, Found, nothing, multiple, object, adjacent, find_json_object,
  has_multiple_json_objects,
}
use rice_factor.Extract.Grammar.{IsObject, braces}
use rice_factor.Extract.Objects.{First, find_json_object_iff}
use rice_factor.Extract.Extractor.{
  starts_with, remove, in_json_fence, in_fence, Extracted, invalid_json, multiple_artifacts, json,
  has_explanatory_text, find_json_in_fences, unless_explained, extract_from, extract,
}
use rice_factor.Extract.Single.{has_multiple_json_objects-IsObject}

starts_with_self : (t : Text) → starts_with t t ≡ true
unfolding starts_with
starts_with_self [] = refl
starts_with_self (c ∷ cs) = ground (arith, starts_with_self cs)

starts_with_longer : (p t : Text) → length t < length p → starts_with p t ≡ false
unfolding starts_with
starts_with_longer [] t h = absurd (omega (arith, h))
starts_with_longer (p ∷ ps) [] h = refl
starts_with_longer (p ∷ ps) (c ∷ cs) h = ground (arith, starts_with_longer ps cs (omega (arith, h)))

remove_longer : (old t : Text) → length t < length old → remove old 0 t ≡ t
unfolding remove
remove_longer old [] h = refl
remove_longer old (c ∷ cs) h =
    rw (starts_with_longer old (c ∷ cs) h, remove)
      (ap (λ x. c ∷ x) (remove_longer old cs (omega (arith, h))))

remove_skipped : (old t : Text) (n : ℕ) → length t ≤ n → remove old n t ≡ []
unfolding remove
remove_skipped old [] n h = refl
remove_skipped old (c ∷ cs) zero h = absurd (omega (arith, h))
remove_skipped old (c ∷ cs) (suc n) h = remove_skipped old cs n (omega (arith, h))

remove_self : (c : ℕ) (cs : Text) → remove (c ∷ cs) 0 (c ∷ cs) ≡ []
unfolding remove
remove_self c cs =
    rw (starts_with_self (c ∷ cs), remove)
      (remove_skipped (c ∷ cs) cs (length (c ∷ cs) - 1) (omega arith))

module _ (is_space is_alpha : ℕ → Bool) (fences : Text → List Text) where
  -- There is no text around a text.
  has_explanatory_text_self :
      (c : ℕ) (cs : Text) → has_explanatory_text is_space is_alpha fences (c ∷ cs) (c ∷ cs) ≡ false
  unfolding has_explanatory_text strip
  has_explanatory_text_self c cs =
      let t : Text = c ∷ cs in
      rw
        (
          remove_longer (in_json_fence t) t
              (omega (arith, length-append t (b'\n' ∷ b'`' ∷ b'`' ∷ b'`' ∷ []))),
          remove_longer (in_fence t) t
              (omega (arith, length-append t (b'\n' ∷ b'`' ∷ b'`' ∷ b'`' ∷ []))),
          remove_self c cs,
        )
        refl

  whole-First : (o : Text) → IsObject o → First o o []
  whole-First o h = record {
    before = [];
    no_brace = tt;
    split = sym (append-nil_lem o);
    is_object = h;
  }

  find_json_in_fences_none :
      (t : Text) → fences t ≡ [] → find_json_in_fences is_space is_alpha fences t ≡ nothing
  unfolding find_json_in_fences
  find_json_in_fences_none t gone = rw (gone, find_json_in_fences) refl

  find_json_object_whole : (o : Text) → IsObject o → find_json_object is_space o ≡ object o
  unfolding strip
  find_json_object_whole o h = ((find_json_object_iff is_space o o).0).1 ([], whole-First o h, refl)

  extract_from-IsObject :
      (o : Text)
      → IsObject o
      → fences o ≡ []
      → adjacent is_space o ≡ false
      → extract_from is_space is_alpha fences o ≡ json o
  unfolding extract_from unless_explained
  extract_from-IsObject o (braces b h) no_fence apart =
      let only : IsObject o = braces b h in
      rw
        (
          find_json_in_fences_none o no_fence,
          extract_from,
          has_multiple_json_objects-IsObject is_space o only ∙ apart,
          find_json_object_whole o only,
          unless_explained,
          has_explanatory_text_self b'{' (b ++ (b'}' ∷ [])),
        )
        refl

  -- A response that is one object once white space is taken off its ends, has no code fence, and in
  -- which no closing brace stands before an opening one, is extracted as it is.
  pub extract-IsObject :
      (raw : Text)
      → IsObject (strip is_space raw)
      → fences (strip is_space raw) ≡ []
      → adjacent is_space (strip is_space raw) ≡ false
      → extract is_space is_alpha fences raw ≡ json (strip is_space raw)
  unfolding extract
  extract-IsObject raw h no_fence apart =
      extract_from-IsObject (strip is_space raw) h no_fence apart

  unless_explained_json :
      (t o s : Text) → unless_explained is_space is_alpha fences t o ≡ json s → o ≡ s
  unfolding unless_explained
  unless_explained_json t o s e =
      elim (Bool-cases (has_explanatory_text is_space is_alpha fences t o)) [
        | inl around ↦ cc (rw (around, unless_explained) at e)
        | inr alone ↦ cc (rw (alone, unless_explained) at e)
      ]

  -- The two ends of `extract_from` without fences, as a function of what the search finds.
  abbrev finish : Text → Bool → Bool → Found → Extracted
  finish t brace more found =
      if brace
      then (if more then multiple_artifacts else elim found [
        | multiple ↦ multiple_artifacts
        | object json_str ↦ unless_explained is_space is_alpha fences t json_str
        | nothing ↦ json t
      ])
      else elim found [
        | multiple ↦ multiple_artifacts
        | object json_str ↦ unless_explained is_space is_alpha fences t json_str
        | nothing ↦ invalid_json
      ]

  finish_json :
      (t s : Text) (brace more : Bool) (found : Found)
      → finish t brace more found ≡ json s
      → (found ≡ object s) ⊎ ((s ≡ t) × (brace ≡ true) × (found ≡ nothing))
  finish_json t s true true found e = cc
  finish_json t s true false nothing e = inr (cc, refl, refl)
  finish_json t s true false multiple e = cc
  finish_json t s true false (object o) e = inl (ap object (unless_explained_json t o s e))
  finish_json t s false more nothing e = cc
  finish_json t s false more multiple e = cc
  finish_json t s false more (object o) e = inl (ap object (unless_explained_json t o s e))

  extract_from_json :
      (t s : Text)
      → fences t ≡ []
      → extract_from is_space is_alpha fences t ≡ json s
      → (find_json_object is_space t ≡ object s)
        ⊎ ((s ≡ t) × (starts_with_brace t ≡ true) × (find_json_object is_space t ≡ nothing))
  unfolding extract_from
  extract_from_json t s no_fence e = elim (Bool-cases (is_empty t)) [
    | inl blank ↦ cc (rw (blank, extract_from) at e)
    | inr filled ↦
        finish_json t s (starts_with_brace t) (has_multiple_json_objects is_space t)
          (find_json_object is_space t)
          (rw (filled, extract_from, find_json_in_fences_none t no_fence) at e)
  ]

  no-First :
      (t : Text)
      → find_json_object is_space t ≡ nothing
      → ¬ ((o : Text) × (after : Text) × First t o after)
  no-First t e (o, after, f) = elim (Bool-cases (starts_with_brace (strip is_space after))) [
    | inl more ↦ cc (e, ((find_json_object_iff is_space t o).1).1 (o, after, f, more))
    | inr no_more ↦ cc (e, ((find_json_object_iff is_space t o).0).1 (after, f, no_more))
  ]

  -- Where there is no code fence, what is extracted is the object that begins at the first brace of the
  -- response, or the whole response where that begins with a brace and no object begins there.
  pub extract_json :
      (raw s : Text)
      → fences (strip is_space raw) ≡ []
      → extract is_space is_alpha fences raw ≡ json s
      → ((after : Text) × First (strip is_space raw) s after)
        ⊎ ((s ≡ strip is_space raw)
            × (starts_with_brace s ≡ true)
            × (¬ ((o : Text) × (after : Text) × First s o after)))
  unfolding extract
  extract_json raw s no_fence e = elim (extract_from_json (strip is_space raw) s no_fence e) [
    | inl there ↦
        let (after, f, no_more) =
          ((find_json_object_iff is_space (strip is_space raw) s).0).0 there in
        inl (after, f)
    | inr (same, brace, gone) ↦ inr (
      same,
      ap starts_with_brace same ∙ brace,
      no-First s (ap (find_json_object is_space) same ∙ gone),
    )
  ]
