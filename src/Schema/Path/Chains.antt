-- ===== src/Schema/Path/Chains.antt =====
-- Chains of migrations, and what a round of the search puts into the queue.
use rice_factor.Prelude.{
  suc, ◌≤◌, ◌≡◌, refl, sym, ap, ◌∙◌, ◌↔◌, inl, inr, Bool, true, ◌||◌, List, [], ◌∷◌, ◌++◌, length,
  keep, All, if◌then◌else◌, append-nil_lem, Bool-cases, arith,
}
use rice_factor.Prelude.Eq.{◌==◌, ==_iff, ==_refl, contains}
use rice_factor.Prelude.Dict.{get, get-put}
use rice_factor.Schema.Version.{SchemaVersion, version_eq}
use rice_factor.Schema.Manager.{Migration}
use rice_factor.Schema.Path.{Graph, Entry, add_edge, build_graph, edges, offers}
use mathlib.Core.List.{Memᴰ, append_assoc}
use mathlib.Core.List.Memᴰ

-- The migrations of a list that lead from one version to another, one after the other.
abbrev pub Chain :
    {O : Type 0} → List (Migration O) → SchemaVersion → List (Migration O) → SchemaVersion → Type 0
Chain ms from [] to = from ≡ to
Chain ms from (m ∷ p) to = Memᴰ m ms × (m.from_version ≡ from) × Chain ms m.to_version p to

module _ {O : Type 0} (ms : List (Migration O)) where
  pub Chain-snoc :
      (from mid : SchemaVersion) (p : List (Migration O)) (m : Migration O)
      → Chain ms from p mid
      → Memᴰ m ms
      → m.from_version ≡ mid
      → Chain ms from (p ++ (m ∷ [])) m.to_version
  Chain-snoc from mid [] m c member e = (member, e ∙ sym c, refl)
  Chain-snoc from mid (n ∷ p) m c member e =
      (c.0, c.1, Chain-snoc n.to_version mid p m c.2 member e)

  -- A chain that is not empty ends with a migration after a shorter chain.
  pub Chain-last :
      (from to : SchemaVersion) (n : Migration O) (p : List (Migration O))
      → Chain ms from (n ∷ p) to
      → (q : List (Migration O)) × (m : Migration O) × Chain ms from q m.from_version
        × Memᴰ m ms
        × (m.to_version ≡ to)
        × (length q ≡ length p)
  Chain-last from to n [] c = ([], n, sym c.1, c.0, c.2, refl)
  Chain-last from to n (k ∷ p) c =
      let (q, m, chain, member, e, size) = Chain-last n.to_version to k p c.2 in
      (n ∷ q, m, (c.0, c.1, chain), member, e, ap suc size)

module _ {O : Type 0} where
  -- The vertices of a queue.
  abbrev pub vertices : List (Entry O) → List SchemaVersion
  vertices [] = []
  vertices ((v, p) ∷ q) = v ∷ vertices q

  pub vertices-append :
      (v : SchemaVersion) (a b : List (Entry O))
      → contains v (vertices (a ++ b)) ≡ (contains v (vertices a) || contains v (vertices b))
  vertices-append v [] b = refl
  vertices-append v (e ∷ a) b = ground (arith, vertices-append v a b)

  edges-add_edge :
      (g : Graph O) (m : Migration O) (v : SchemaVersion)
      → edges (add_edge g m) v ≡ (if m.from_version == v then edges g v ++ (m ∷ []) else edges g v)
  unfolding edges add_edge
  edges-add_edge g m v = elim (Bool-cases (m.from_version == v)) [
    | inl same ↦
        let e : m.from_version ≡ v = (==_iff m.from_version v).0 same in
        rw (get-put, same, ← e) refl
    | inr other ↦ rw (get-put, other) refl
  ]

  edges-build :
      (ms : List (Migration O)) (g : Graph O) (v : SchemaVersion)
      → edges (build_graph ms g) v ≡ edges g v ++ keep (λ m. m.from_version == v) ms
  unfolding build_graph
  edges-build [] g v = sym (append-nil_lem (edges g v))
  edges-build (m ∷ ms) g v = elim (Bool-cases (m.from_version == v)) [
    | inl same ↦
        rw (edges-build ms (add_edge g m) v, edges-add_edge g m v, same)
          (append_assoc (edges g v) (m ∷ []) (keep (λ k. k.from_version == v) ms))
    | inr other ↦ rw (edges-build ms (add_edge g m) v, edges-add_edge g m v, other) refl
  ]

  -- The migrations that the graph holds for a version are those that start there, in their order.
  pub edges-build_all :
      (ms : List (Migration O)) (v : SchemaVersion)
      → edges (build_graph ms []) v ≡ keep (λ m. m.from_version == v) ms
  unfolding edges get
  edges-build_all ms v = edges-build ms [] v

  pub Memᴰ-keep :
      (m : Migration O) (p : Migration O → Bool) (ms : List (Migration O))
      → Memᴰ m (keep p ms) ↔ (Memᴰ m ms × (p m ≡ true))
  Memᴰ-keep m p [] = (λ h. absurd (Memᴰ.not-nil h), λ h. absurd (Memᴰ.not-nil h.0))
  Memᴰ-keep m p (k ∷ ms) = elim (Bool-cases (p k)) [
    | inl hit ↦ rw hit (
      λ h. elim (Memᴰ.cases_cons h) [
        | inl e ↦ (Memᴰ.head e, ap p e ∙ hit)
        | inr rest ↦ let (a, b) = (Memᴰ-keep m p ms).0 rest in (Memᴰ.tail a, b)
      ],
      λ h. elim (Memᴰ.cases_cons h.0) [
        | inl e ↦ Memᴰ.head e
        | inr rest ↦ Memᴰ.tail ((Memᴰ-keep m p ms).1 (rest, h.1))
      ],
    )
    | inr miss ↦ rw miss (
      λ h. let (a, b) = (Memᴰ-keep m p ms).0 h in (Memᴰ.tail a, b),
      λ h. elim (Memᴰ.cases_cons h.0) [
        | inl e ↦ cc (ap p e)
        | inr rest ↦ (Memᴰ-keep m p ms).1 (rest, h.1)
      ],
    )
  ]

  -- Every target that is offered is visited or waits afterwards.
  pub offers-covers :
      (visited : List SchemaVersion) (path es : List (Migration O)) (m : Migration O)
      → Memᴰ m es
      → (contains m.to_version visited || contains m.to_version (vertices (offers visited path es)))
        ≡ true
  unfolding offers
  offers-covers visited path [] m h = absurd (Memᴰ.not-nil h)
  offers-covers visited path (k ∷ es) m h = elim (Memᴰ.cases_cons h) [
    | inl e ↦ rw e (ground (arith, ==_refl k.to_version))
    | inr rest ↦ ground (arith, offers-covers visited path es m rest)
  ]

  pub offers-All :
      (P : Entry O → Type 0) (visited : List SchemaVersion) (path es : List (Migration O))
      → ((m : Migration O) → Memᴰ m es → P (m.to_version, path ++ (m ∷ [])))
      → All P (offers visited path es)
  unfolding offers
  offers-All P visited path [] h = tt
  offers-All P visited path (k ∷ es) h = elim (Bool-cases (contains k.to_version visited)) [
    | inl old ↦ rw old (offers-All P visited path es (λ m i. h m (Memᴰ.tail i)))
    | inr new ↦
        rw new (h k (Memᴰ.head refl), offers-All P visited path es (λ m i. h m (Memᴰ.tail i)))
  ]

  pub length-offers-le :
      (visited : List SchemaVersion) (path es : List (Migration O))
      → length (offers visited path es) ≤ length es
  unfolding offers
  length-offers-le visited path [] = omega arith
  length-offers-le visited path (k ∷ es) = ground (arith, length-offers-le visited path es)
