-- ===== src/Schema/Manager/Sorted.antt =====
-- The sort of the migrations of a type.
use rice_factor.Prelude.{◌≡◌, inl, inr, true, false, List, [], ◌∷◌, All, Bool-cases, arith}
use rice_factor.Prelude.Eq.{text_eq}
use rice_factor.Schema.Version.{version_eq, le_version}
use rice_factor.Schema.Manager.{Migration, le_key, insert_sorted, sort}
use mathlib.Core.List.{Memᴰ}
use mathlib.Core.List.Memᴰ

module _ {O : Type 0} where
  le_key_total : (m n : Migration O) → le_key m n ≡ false → le_key n m ≡ true
  unfolding le_key le_version
  le_key_total m n h = ground arith

  le_key_trans : (m n k : Migration O) → le_key m n ≡ true → le_key n k ≡ true → le_key m k ≡ true
  unfolding le_key le_version
  le_key_trans m n k h j = ground arith

  -- Ascending in the sort's key.
  abbrev pub IsSorted : List (Migration O) → Type 0
  IsSorted [] = Unit
  IsSorted (m ∷ ms) = All (λ n. le_key m n ≡ true) ms × IsSorted ms

  All-insert_sorted :
      (P : Migration O → Type 0) (m : Migration O) (ms : List (Migration O))
      → P m
      → All P ms
      → All P (insert_sorted m ms)
  unfolding insert_sorted
  All-insert_sorted P m [] h all = (h, tt)
  All-insert_sorted P m (n ∷ ms) h all = elim (Bool-cases (le_key m n)) [
    | inl le ↦ rw le (h, all)
    | inr gt ↦ rw gt (all.0, All-insert_sorted P m ms h all.1)
  ]

  All-le_key :
      (m n : Migration O) (ms : List (Migration O))
      → le_key m n ≡ true
      → All (λ k. le_key n k ≡ true) ms
      → All (λ k. le_key m k ≡ true) ms
  All-le_key m n [] h all = tt
  All-le_key m n (k ∷ ms) h all = (le_key_trans m n k h all.0, All-le_key m n ms h all.1)

  insert_sorted-IsSorted :
      (m : Migration O) (ms : List (Migration O)) → IsSorted ms → IsSorted (insert_sorted m ms)
  unfolding insert_sorted
  insert_sorted-IsSorted m [] h = (tt, tt)
  insert_sorted-IsSorted m (n ∷ ms) h = elim (Bool-cases (le_key m n)) [
    | inl le ↦ rw le ((le, All-le_key m n ms le h.0), h)
    | inr gt ↦ rw gt (
      All-insert_sorted (λ k. le_key n k ≡ true) m ms (le_key_total m n gt) h.0,
      insert_sorted-IsSorted m ms h.1,
    )
  ]

  pub sort-IsSorted : (ms : List (Migration O)) → IsSorted (sort ms)
  unfolding sort
  sort-IsSorted [] = tt
  sort-IsSorted (m ∷ ms) = insert_sorted-IsSorted m (sort ms) (sort-IsSorted ms)

  pub All-sort : (P : Migration O → Type 0) (ms : List (Migration O)) → All P ms → All P (sort ms)
  unfolding sort
  All-sort P [] all = tt
  All-sort P (m ∷ ms) all = All-insert_sorted P m (sort ms) all.0 (All-sort P ms all.1)

  Memᴰ-insert_sorted :
      (k m : Migration O) (ms : List (Migration O)) → Memᴰ k (m ∷ ms) → Memᴰ k (insert_sorted m ms)
  unfolding insert_sorted
  Memᴰ-insert_sorted k m [] h = h
  Memᴰ-insert_sorted k m (n ∷ ms) h = elim (Bool-cases (le_key m n)) [
    | inl le ↦ rw le h
    | inr gt ↦ rw gt (elim (Memᴰ.cases_cons h) [
      | inl e ↦ Memᴰ.tail (Memᴰ-insert_sorted k m ms (Memᴰ.head e))
      | inr rest ↦ elim (Memᴰ.cases_cons rest) [
        | inl e ↦ Memᴰ.head e
        | inr more ↦ Memᴰ.tail (Memᴰ-insert_sorted k m ms (Memᴰ.tail more))
      ]
    ])
  ]

  -- Sorting loses no migration.
  pub Memᴰ-sort : (k : Migration O) (ms : List (Migration O)) → Memᴰ k ms → Memᴰ k (sort ms)
  unfolding sort
  Memᴰ-sort k [] h = h
  Memᴰ-sort k (m ∷ ms) h = Memᴰ-insert_sorted k m (sort ms) (elim (Memᴰ.cases_cons h) [
    | inl e ↦ Memᴰ.head e
    | inr rest ↦ Memᴰ.tail (Memᴰ-sort k ms rest)
  ])
