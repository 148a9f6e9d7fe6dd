-- ===== src/Extract/Extractor.antt =====
-- rice_factor/domain/services/json_extractor.py: `JSONExtractor.extract`. `fences` is what the pattern
-- for code fences captures, `is_space` and `is_alpha` are Python's classes of characters. Of an error
-- its class is kept, without the count and the snippets.
use rice_factor.Prelude.{
  ℕ, zero, suc, ◌-◌, Bool, true, false, ◌||◌, List, [], ◌∷◌, ◌++◌, any, eqb, ltb, length, is_empty,
  if◌then◌else◌,
}
use rice_factor.Extract.Scanner.{
  Text, starts_with_brace, strip, Found, nothing, multiple, object, find_json_object,
  has_multiple_json_objects,
}
unfoldable pub use rice_factor.Prelude.Text.{starts_with}

-- `text.replace(old, "")` where `old` is not empty: the rest of an occurrence is `skip` characters long.
unfoldable pub remove : Text → ℕ → Text → Text
unfolding starts_with
remove old skip [] = []
remove old (suc skip) (c ∷ cs) = remove old skip cs
remove old zero (c ∷ cs) = elim (starts_with old (c ∷ cs)) [
  | true ↦ remove old (length old - 1) cs
  | false ↦ c ∷ remove old zero cs
]

-- The text between "```json\n" and "\n```", and between "```\n" and "\n```".
abbrev pub in_json_fence : Text → Text
in_json_fence s =
    b'`'
    ∷ b'`'
    ∷ b'`'
    ∷ b'j'
    ∷ b's'
    ∷ b'o'
    ∷ b'n'
    ∷ b'\n'
    ∷ (s ++ (b'\n' ∷ b'`' ∷ b'`' ∷ b'`' ∷ []))

abbrev pub in_fence : Text → Text
in_fence s = b'`' ∷ b'`' ∷ b'`' ∷ b'\n' ∷ (s ++ (b'\n' ∷ b'`' ∷ b'`' ∷ b'`' ∷ []))

pub data Extracted : Type 0 where
  invalid_json multiple_artifacts explanatory_text : Extracted
  json : Text → Extracted

abbrev pub min_explanatory_length : ℕ
min_explanatory_length = 20

module _ (is_space is_alpha : ℕ → Bool) (fences : Text → List Text) where
  unfoldable pub has_explanatory_text : Text → Text → Bool
  unfolding remove
  has_explanatory_text response json_str =
      let without_fences =
        remove (in_fence json_str) 0 (remove (in_json_fence json_str) 0 response) in
      let remaining = strip is_space (remove json_str 0 without_fences) in
      if ltb (length remaining) min_explanatory_length then false else any is_alpha remaining

  abbrev pub looks_like_json : Text → Bool
  looks_like_json [] = false
  looks_like_json (c ∷ cs) = eqb c b'{' || eqb c b'['

  unfoldable pub find_json_in_fences : Text → Found
  find_json_in_fences response = elim (fences response) [
    | [] ↦ nothing
    | m ∷ [] ↦
        let json_str = strip is_space m in
        if is_empty json_str
        then nothing
        else if looks_like_json json_str
        then object json_str
        else nothing
    | m ∷ n ∷ ms ↦ multiple
  ]

  -- The end of each of the three ways: `return json_str`, unless there is text around it.
  unfoldable pub unless_explained : Text → Text → Extracted
  unless_explained response json_str =
      if has_explanatory_text response json_str then explanatory_text else json json_str

  -- `extract`, after `response = raw_response.strip()`.
  unfoldable pub extract_from : Text → Extracted
  unfolding find_json_in_fences unless_explained
  extract_from response =
      if is_empty response then invalid_json else elim (find_json_in_fences response) [
        | multiple ↦ multiple_artifacts
        | object json_str ↦ unless_explained response json_str
        | nothing ↦
            if starts_with_brace response
            then (if has_multiple_json_objects is_space response
                then multiple_artifacts
                else elim (find_json_object is_space response) [
                  | multiple ↦ multiple_artifacts
                  | object json_str ↦ unless_explained response json_str
                  | nothing ↦ json response
                ])
            else elim (find_json_object is_space response) [
              | multiple ↦ multiple_artifacts
              | object json_str ↦ unless_explained response json_str
              | nothing ↦ invalid_json
            ]
      ]

  unfoldable pub extract : Text → Extracted
  unfolding extract_from
  extract raw_response = extract_from (strip is_space raw_response)
