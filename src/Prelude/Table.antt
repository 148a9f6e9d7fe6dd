-- ===== src/Prelude/Table.antt =====
-- A dictionary of records that is kept in a JSON file as the list of its values: each record holds its
-- own key, an entry that cannot be read spoils the file, and such a file reads as empty.
use Prim.Native.Nat.{ℕ}
use Prim.Native.String.{String}
use mathlib.Core.Path.{◌≡◌, refl, sym, ap, ◌∙◌, subst}
use mathlib.Core.Logic.{◌≢◌, inl, inr}
use mathlib.Core.Bool.{false, ◌||◌}
use mathlib.Core.Option.{Option, none, some}
use mathlib.Core.List.{List, [], ◌∷◌, ◌++◌, map}
use native.Mathlib.Omega.{arith}
use rice_factor.Prelude.Tests.{Bool-cases, Option-cases}
use rice_factor.Prelude.Lists.{All, append-nil_lem}
use rice_factor.Prelude.Eq.{◌==◌, ==_iff, text_eq}
use rice_factor.Prelude.Dict.{
  Dict, values, has, get, put, del, IsDict, put-IsDict, del-IsDict, get-All,
}

-- A file that is not there, that is no JSON, or a JSON object with the list (empty where the key is
-- missing). JSON of another shape, at which the code raises, is no such file.
pub data JsonFile (A : Type 0) : Type 0 where
  absent corrupt : JsonFile A
  items : List A → JsonFile A

-- `datetime.isoformat` and `datetime.fromisoformat`
pub record IsoTime : Type 0 where
  pub isoformat : ℕ → String
  pub fromisoformat : String → Option ℕ
  pub round_trip : (t : ℕ) → fromisoformat (isoformat t) ≡ some t
  pub not_empty : (t : ℕ) → isoformat t ≢ ""

-- `item.get(key, default)`
abbrev pub or_default {ℓ} : {A : Type ℓ} → A → Option A → A
or_default d none = d
or_default d (some a) = a

-- An entry that fails to read fails as a whole.
infixl 1 ◌>>=◌
abbrev pub ◌>>=◌ {ℓ κ} : {A : Type ℓ} {B : Type κ} → Option A → (A → Option B) → Option B
none >>= f = none
some a >>= f = f a

module _ {V : Type 0} where
  pub put-fresh_lem :
      (k : String) (v : V) (d : Dict String V) → has k d ≡ false → put k v d ≡ d ++ ((k, v) ∷ [])
  unfolding put has
  put-fresh_lem k v [] h = refl
  put-fresh_lem k v ((j, w) ∷ d) h = ground (arith, put-fresh_lem k v d)

  pub append_snoc : (a b : Dict String V) (e : String × V) → (a ++ (e ∷ [])) ++ b ≡ a ++ (e ∷ b)
  append_snoc [] b e = refl
  append_snoc (x ∷ a) b e = ap (◌∷◌ x) (append_snoc a b e)

  has-append : (k : String) (a b : Dict String V) → has k (a ++ b) ≡ (has k a || has k b)
  unfolding has
  has-append k [] b = refl
  has-append k ((j, w) ∷ a) b = ground (arith, has-append k a b)

  pub IsDict-append_fresh :
      (k : String) (v : V) (a b : Dict String V) → IsDict (a ++ ((k, v) ∷ b)) → has k a ≡ false
  unfolding IsDict has
  IsDict-append_fresh k v [] b h = refl
  IsDict-append_fresh k v ((j, w) ∷ a) b h =
      ground (
        arith,
        IsDict-append_fresh k v a b h.1,
        has-append j a ((k, v) ∷ b),
        ==_iff j k,
        ==_iff k j,
      )

module _ {V : Type 0} (key : V → String) where
  -- Each record stands under its own key, and each key once.
  pub record Keyed (d : Dict String V) : Type 0 where
    pub once : IsDict d
    pub own_id : All (λ e. key e.1 ≡ e.0) d

  All-put :
      (k : String) (v : V) (d : Dict String V)
      → key v ≡ k
      → All (λ e. key e.1 ≡ e.0) d
      → All (λ e. key e.1 ≡ e.0) (put k v d)
  unfolding put
  All-put k v [] h a = (h, tt)
  All-put k v ((j, w) ∷ d) h a = elim (Bool-cases (j == k)) [
    | inl same ↦ rw same (ground (arith, ==_iff j k), a.1)
    | inr other ↦ rw other (a.0, All-put k v d h a.1)
  ]

  All-del :
      (k : String) (d : Dict String V)
      → All (λ e. key e.1 ≡ e.0) d
      → All (λ e. key e.1 ≡ e.0) (del k d)
  unfolding del
  All-del k [] a = tt
  All-del k ((j, w) ∷ d) a = elim (Bool-cases (j == k)) [
    | inl same ↦ rw same a.1
    | inr other ↦ rw other (a.0, All-del k d a.1)
  ]

  pub put-Keyed : (k : String) (v : V) (d : Dict String V) → key v ≡ k → Keyed d → Keyed (put k v d)
  put-Keyed k v d h keyed = record {
    once = put-IsDict k v d keyed.once;
    own_id = All-put k v d h keyed.own_id;
  }

  pub del-Keyed : (k : String) (d : Dict String V) → Keyed d → Keyed (del k d)
  del-Keyed k d keyed = record {
    once = del-IsDict k d keyed.once;
    own_id = All-del k d keyed.own_id;
  }

  -- The record that is found under a key holds that key.
  pub get-Keyed : (k : String) (v : V) (d : Dict String V) → Keyed d → get k d ≡ some v → key v ≡ k
  get-Keyed k v d keyed there = get-All (λ j w. key w ≡ j) k v d keyed.own_id there

  nil-Keyed : Keyed []
  unfolding IsDict
  nil-Keyed = record { once = tt; own_id = tt }

  module _ {J : Type 0} (decode : J → Option V) where
    -- `for item in data.get(...): ... table[record.id] = record`, `none` where an entry raises
    unfoldable pub read_table : List J → Dict String V → Option (Dict String V)
    read_table [] acc = some acc
    read_table (j ∷ js) acc = elim (decode j) [
      | none ↦ none
      | some v ↦ read_table js (put (key v) v acc)
    ]

    unfoldable pub load_table : JsonFile J → Dict String V
    unfolding read_table
    load_table absent = []
    load_table corrupt = []
    load_table (items js) = or_default [] (read_table js [])

    read_table-Keyed :
        (js : List J) (acc d : Dict String V) → Keyed acc → read_table js acc ≡ some d → Keyed d
    unfolding read_table
    read_table-Keyed [] acc d h e = let same : acc ≡ d = cc in subst (λ x. Keyed x) same h
    read_table-Keyed (j ∷ js) acc d h e = elim (Option-cases (decode j)) [
      | inl bad ↦ cc (rw (bad, read_table) at e)
      | inr (v, good) ↦
          read_table-Keyed js (put (key v) v acc) d (put-Keyed (key v) v acc refl h)
            (rw (good, read_table) at e)
    ]

    pub load_table-Keyed : (f : JsonFile J) → Keyed (load_table f)
    unfolding load_table
    load_table-Keyed absent = nil-Keyed
    load_table-Keyed corrupt = nil-Keyed
    load_table-Keyed (items js) = elim (Option-cases (read_table js [])) [
      | inl bad ↦ rw (bad, load_table) nil-Keyed
      | inr (d, good) ↦ rw (good, load_table) (read_table-Keyed js [] d nil-Keyed good)
    ]

    module _ (encode : V → J) (decode-encode : (v : V) → decode (encode v) ≡ some v) where
      read_table-map :
          (d acc : Dict String V)
          → IsDict (acc ++ d)
          → All (λ e. key e.1 ≡ e.0) d
          → read_table (map encode (values d)) acc ≡ some (acc ++ d)
      unfolding read_table
      read_table-map [] acc once own = ap some (sym (append-nil_lem acc))
      read_table-map ((k, r) ∷ d) acc once own =
          let fresh = IsDict-append_fresh k r acc d once in
          let e : put (key r) r acc ≡ acc ++ ((k, r) ∷ []) =
            ap (λ j. put j r acc) own.0 ∙ put-fresh_lem k r acc fresh in
          rw (decode-encode r, e, read_table)
            (read_table-map d (acc ++ ((k, r) ∷ []))
                (subst (λ x. IsDict x) (sym (append_snoc acc d (k, r))) once) own.1
              ∙ ap some (append_snoc acc d (k, r)))

      -- What was saved is loaded.
      pub load_table-items :
          (d : Dict String V) → Keyed d → load_table (items (map encode (values d))) ≡ d
      unfolding load_table
      load_table-items d h = ap (or_default []) (read_table-map d [] h.once h.own_id)
