-- ===== src/Schema/Path/Shortest.antt =====
-- What the search returns, and that its fuel is enough.
use rice_factor.Prelude.{
  ℕ, zero, suc, ◌+◌, ◌≤◌, ◌<◌, ◌≡◌, refl, ◌⊎◌, inl, inr, true, false, not, some, List, [], ◌∷◌,
  ◌++◌, String, length, length-append, length-keep-le, keep, ltb, is_empty, append-nil_lem,
  Bool-cases, arith,
}
use rice_factor.Prelude.Eq.{◌==◌, ==_iff, contains}
use rice_factor.Schema.Version.{SchemaVersion, version_eq}
use rice_factor.Schema.Manager.{Migration, Manager, migrations_of}
use rice_factor.Schema.Path.{Entry, build_graph, offers, search, find_migration_path, path_between}
use rice_factor.Schema.Path.Chains.{Chain, edges-build_all, length-offers-le}
use rice_factor.Schema.Path.Levels.{
  Levels, Levels-start, Levels-advance, Levels-skip, Levels-expand,
}
use mathlib.Core.List.{Memᴰ, append_assoc}
use mathlib.Core.List.Memᴰ

module _ {O : Type 0} where
  -- Either there is no chain of the migrations and the path is empty, or the path is a chain and none
  -- is shorter.
  abbrev pub IsBest :
      List (Migration O) → SchemaVersion → SchemaVersion → List (Migration O) → Type 0
  IsBest ms from to p =
      (p ≡ []) × ((q : List (Migration O)) → ¬ Chain ms from q to)
      ⊎ Chain ms from p to × ((q : List (Migration O)) → Chain ms from q to → length p ≤ length q)

module _ {O : Type 0} (ms : List (Migration O)) (from to : SchemaVersion) where
  -- The migrations that start at a version not visited yet.
  abbrev left : List SchemaVersion → ℕ
  left visited = length (keep (λ m. not (contains m.from_version visited)) ms)

  abbrev Returns : ℕ → List (Entry O) → List SchemaVersion → Type 0
  Returns fuel queue visited =
      (p : List (Migration O)) × (search fuel (build_graph ms []) to queue visited ≡ some p)
      × IsBest ms from to p

  abbrev Ends : ℕ → Type 0
  Ends fuel =
      (n : ℕ) (a b : List (Entry O)) (visited : List SchemaVersion)
      → Levels ms from to n a b visited
      → length (a ++ b) + left visited < fuel
      → Returns fuel (a ++ b) visited

left-expand :
    {O : Type 0} (ms : List (Migration O)) (current : SchemaVersion) (visited : List SchemaVersion)
    → contains current visited ≡ false
    → length (keep (λ m. not (contains m.from_version (current ∷ visited))) ms)
        + length (keep (λ m. m.from_version == current) ms)
      ≡ length (keep (λ m. not (contains m.from_version visited)) ms)
left-expand [] current visited h = refl
left-expand (m ∷ ms) current visited h = ground (
  arith,
  left-expand ms current visited h,
  ==_iff m.from_version current,
  ==_iff current m.from_version,
)

module _ {O : Type 0} (ms : List (Migration O)) (from to : SchemaVersion) where
  all_visited :
      (visited : List SchemaVersion)
      → ((m : Migration O)
          → Memᴰ m ms
          → contains m.from_version visited ≡ true
          → contains m.to_version visited ≡ true)
      → (q : List (Migration O)) (v : SchemaVersion) → contains v visited ≡ true
      → Chain ms v q to
      → contains to visited ≡ true
  all_visited visited closed [] v h c = rw (← c) h
  all_visited visited closed (m ∷ q) v h c =
      all_visited visited closed q m.to_version (closed m c.0 (rw c.1 h)) c.2

  -- With an empty queue no chain leads to the target.
  unreached :
      (n : ℕ) (visited : List SchemaVersion)
      → Levels ms from to n [] [] visited
      → (q : List (Migration O)) → ¬ Chain ms from q to
  unreached n visited h q c =
      let start : contains from visited ≡ true = elim (Bool-cases (ltb 0 n)) [
        | inl far ↦ h.near from [] refl (ground arith)
        | inr at_start ↦ ground (arith, h.level from [] refl (ground arith))
      ] in
      let to_end = all_visited visited (λ m i k. ground (arith, h.closed m i k)) q from start c in
      ground (arith, to_end, h.open_target)

  step :
      (fuel : ℕ)
      → Ends ms from to fuel
      → (n : ℕ) (current : SchemaVersion) (path : List (Migration O)) (a b : List (Entry O))
        (visited : List SchemaVersion)
      → Levels ms from to n ((current, path) ∷ a) b visited
      → length ((current, path) ∷ (a ++ b)) + left ms from to visited < suc fuel
      → Returns ms from to (suc fuel) ((current, path) ∷ (a ++ b)) visited
  unfolding search
  step fuel rest n current path a b visited h enough = elim (Bool-cases (current == to)) [
    | inl found ↦
        let e : current ≡ to = (==_iff current to).0 found in
        (
          path,
          rw (found) refl,
          inr (
            rw (← e) h.front.0.0,
            λ q c. elim (Bool-cases (ltb (length q) n)) [
              | inl less ↦ ground (arith, h.near to q c, h.open_target)
              | inr more ↦ ground (arith, h.front.0.1)
            ],
          ),
        )
    | inr apart ↦ elim (Bool-cases (contains current visited)) [
      | inl old ↦
          let (p, runs, best) =
            rest n a b visited (Levels-skip ms from to n a b visited current path h old)
              (omega arith) in
          (p, rw (apart, old) runs, best)
      | inr new ↦
          let seen = current ∷ visited in
          let es = keep (λ m. m.from_version == current) ms in
          let o = offers seen path es in
          let (p, runs, best) =
            rest n a (b ++ o) seen (Levels-expand ms from to n a b visited current path h apart) (
              omega (
                arith,
                length-append a (b ++ o),
                length-append b o,
                length-append a b,
                length-offers-le seen path es,
                left-expand ms current visited new,
              )) in
          (p, rw (apart, new, edges-build_all ms current, append_assoc a b o) runs, best)
    ]
  ]

  loop : (fuel : ℕ) → Ends ms from to fuel
  unfolding search
  loop zero n a b visited h enough = absurd (omega arith)
  loop (suc fuel) n [] [] visited h enough = ([], refl, inl (refl, unreached n visited h))
  loop (suc fuel) n [] ((v, p) ∷ b) visited h enough =
      let r =
        step fuel (loop fuel) (suc n) v p b [] visited
          (Levels-advance ms from to n ((v, p) ∷ b) visited h) (rw (append-nil_lem b) enough) in
      rw (append-nil_lem b) at r
  loop (suc fuel) n ((v, p) ∷ a) b visited h enough =
      step fuel (loop fuel) n v p a b visited h enough

  -- The search over migrations returns, and what it returns is best.
  pub find_migration_path-IsBest :
      (p : List (Migration O)) × (find_migration_path ms from to ≡ some p) × IsBest ms from to p
  unfolding find_migration_path
  find_migration_path-IsBest =
      loop (suc (suc (length ms))) 0 ((from, []) ∷ []) [] [] (Levels-start ms from to)
        (omega (arith, length-keep-le (λ (m : Migration O). not (contains m.from_version [])) ms))

module _ {O : Type 0} (m : Manager O) (t : String) (from to : SchemaVersion) where
  none_listed :
      (ms : List (Migration O))
      → is_empty ms ≡ true
      → (from == to) ≡ false
      → (q : List (Migration O)) → ¬ Chain ms from q to
  none_listed [] h apart [] c = ground (arith, ==_iff from to)
  none_listed [] h apart (k ∷ q) c = Memᴰ.not-nil c.0
  none_listed (k ∷ ms) h apart q c = cc

  -- The search always returns. It returns an empty list if no chain of the registered migrations of the
  -- type leads from one version to the other, and otherwise such a chain, of the least length.
  pub path_between-IsBest :
      (p : List (Migration O)) × (path_between m t from to ≡ some p)
      × IsBest (migrations_of t m) from to p
  unfolding path_between
  path_between-IsBest = elim (Bool-cases (from == to)) [
    | inl same ↦ ([], rw same refl, inr ((==_iff from to).0 same, λ q c. omega arith))
    | inr apart ↦ elim (Bool-cases (is_empty (migrations_of t m))) [
      | inl bare ↦
          ([], rw (apart, bare) refl, inl (refl, none_listed (migrations_of t m) bare apart))
      | inr full ↦
          let (p, runs, best) = find_migration_path-IsBest (migrations_of t m) from to in
          (p, rw (apart, full) runs, best)
    ]
  ]
