-- ===== src/Schema/Path.antt =====
-- `_find_migration_path` and `get_migration_path`: a breadth-first search over the migrations.
use rice_factor.Prelude.{
  ℕ, zero, suc, ◌+◌, ◌≡◌, Bool, true, false, Option, none, some, List, [], ◌∷◌, ◌++◌, map, String,
  length, is_empty, if◌then◌else◌,
}
use rice_factor.Prelude.Eq.{◌==◌, contains}
use rice_factor.Prelude.Dict.{Dict, get, put}
use rice_factor.Prelude.Table.{or_default}
use rice_factor.Schema.Version.{SchemaVersion, version_eq, Chars}
use rice_factor.Schema.Manager.{
  Migration, Manager, VersionArg, Result, ok, ◌>>=◌, resolve, migrations_of,
}
pub mod Chains
pub mod Levels
pub mod Shortest
pub mod Registered

abbrev pub Graph : Type 0 → Type 0
Graph O = Dict SchemaVersion (List (Migration O))

-- An entry of the queue: a version and the migrations that lead to it.
abbrev pub Entry : Type 0 → Type 0
Entry O = SchemaVersion × List (Migration O)

module _ {O : Type 0} where
  -- `if m.from_version not in graph: ...; graph[m.from_version].append(m)`
  unfoldable pub add_edge : Graph O → Migration O → Graph O
  add_edge g m = put m.from_version (or_default [] (get m.from_version g) ++ (m ∷ [])) g

  unfoldable pub build_graph : List (Migration O) → Graph O → Graph O
  unfolding add_edge
  build_graph [] g = g
  build_graph (m ∷ ms) g = build_graph ms (add_edge g m)

  -- `graph.get(current, [])`
  unfoldable pub edges : Graph O → SchemaVersion → List (Migration O)
  edges g v = or_default [] (get v g)

  -- What the inner loop appends to the queue.
  unfoldable pub offers :
      List SchemaVersion → List (Migration O) → List (Migration O) → List (Entry O)
  offers visited path [] = []
  offers visited path (m ∷ ms) =
      if contains m.to_version visited
      then offers visited path ms
      else (m.to_version, path ++ (m ∷ [])) ∷ offers visited path ms

  -- The loop on the queue; `none` is fuel that ran out.
  unfoldable pub search :
      ℕ
      → Graph O
      → SchemaVersion
      → List (Entry O)
      → List SchemaVersion
      → Option (List (Migration O))
  unfolding offers edges
  search zero g to queue visited = none
  search (suc fuel) g to [] visited = some []
  search (suc fuel) g to ((current, path) ∷ queue) visited =
      let skipped = search fuel g to queue visited in
      let seen = current ∷ visited in
      let expanded = search fuel g to (queue ++ offers seen path (edges g current)) seen in
      if current == to then some path else if contains current visited then skipped else expanded

  -- One round for the start, one for each migration, and one that finds the queue empty.
  unfoldable pub find_migration_path :
      List (Migration O) → SchemaVersion → SchemaVersion → Option (List (Migration O))
  unfolding search build_graph
  find_migration_path ms from to =
      search (suc (suc (length ms))) (build_graph ms []) to ((from, []) ∷ []) []

  -- `get_migration_path` of two versions
  unfoldable pub path_between :
      Manager O → String → SchemaVersion → SchemaVersion → Option (List (Migration O))
  unfolding migrations_of
  path_between m t from to =
      if from == to
      then some []
      else if is_empty (migrations_of t m)
      then some []
      else find_migration_path (migrations_of t m) from to

  unfoldable pub get_migration_path :
      Chars → Manager O → String → VersionArg → VersionArg → Result (Option (List (Migration O)))
  unfolding resolve path_between
  get_migration_path chars m t from_arg to_arg = do
    from ← resolve chars from_arg
    to ← resolve chars to_arg
    ok (path_between m t from to)
