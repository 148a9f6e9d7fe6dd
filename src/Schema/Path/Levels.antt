-- ===== src/Schema/Path/Levels.antt =====
-- The invariant of the search: the queue holds versions at one distance from the start, then versions
-- one further.
use rice_factor.Prelude.{
  ℕ, suc, ◌≤◌, ◌≡◌, refl, inl, inr, true, false, ◌||◌, List, [], ◌∷◌, ◌++◌, length, length-append,
  keep, All, All-append, append-nil_lem, Bool-cases, ltb, arith,
}
use rice_factor.Prelude.Eq.{◌==◌, ==_iff, contains}
use rice_factor.Schema.Version.{SchemaVersion, version_eq}
use rice_factor.Schema.Manager.{Migration}
use rice_factor.Schema.Path.{Entry, offers}
use rice_factor.Schema.Path.Chains.{
  Chain, Chain-snoc, Chain-last, vertices, vertices-append, Memᴰ-keep, offers-covers, offers-All,
}
use mathlib.Core.List.{Memᴰ}

module _ {O : Type 0} (ms : List (Migration O)) (from to : SchemaVersion) where
  -- An entry's path leads to its version in so many steps.
  abbrev pub LeadsIn : ℕ → Entry O → Type 0
  LeadsIn n e = Chain ms from e.1 e.0 × (length e.1 ≡ n)

  -- The entries of `a` are `n` steps away and those of `b` one more.
  pub record Levels (n : ℕ) (a b : List (Entry O)) (visited : List SchemaVersion) : Type 0 where
    pub front : All (LeadsIn n) a
    pub back : All (LeadsIn (suc n)) b
    pub near :
        (v : SchemaVersion) (q : List (Migration O))
        → Chain ms from q v
        → suc (length q) ≤ n
        → contains v visited ≡ true
    pub level :
        (v : SchemaVersion) (q : List (Migration O))
        → Chain ms from q v
        → length q ≡ n
        → (contains v visited || contains v (vertices a)) ≡ true
    pub closed :
        (m : Migration O)
        → Memᴰ m ms
        → contains m.from_version visited ≡ true
        → (contains m.to_version visited || contains m.to_version (vertices (a ++ b))) ≡ true
    pub open_target : contains to visited ≡ false

  pub Levels-start : Levels 0 ((from, []) ∷ []) [] []
  Levels-start = record {
    front = ((refl, refl), tt);
    back = tt;
    near = λ v q c h. absurd (omega arith);
    level = at_start;
    closed = λ m i h. cc;
    open_target = refl;
  }
    where
      at_start :
          (v : SchemaVersion) (q : List (Migration O))
          → Chain ms from q v
          → length q ≡ 0
          → (contains v [] || contains v (from ∷ [])) ≡ true
      at_start v [] c h = ground (arith, ==_iff from v)
      at_start v (m ∷ q) c h = absurd (omega arith)

  module _ (n : ℕ) (b : List (Entry O)) (visited : List SchemaVersion) where
    -- The front is used up: the back is the new front.
    pub Levels-advance : Levels n [] b visited → Levels (suc n) b [] visited
    Levels-advance h = record {
      front = h.back;
      back = tt;
      near = reached;
      level = further;
      closed = λ m i c. rw (append-nil_lem b) (h.closed m i c);
      open_target = h.open_target;
    }
      where
        reached :
            (v : SchemaVersion) (q : List (Migration O))
            → Chain ms from q v
            → suc (length q) ≤ suc n
            → contains v visited ≡ true
        reached v q c le = elim (Bool-cases (ltb (length q) n)) [
          | inl less ↦ h.near v q c (ground (arith))
          | inr same ↦ ground (arith, h.level v q c (ground arith))
        ]

        further :
            (v : SchemaVersion) (q : List (Migration O))
            → Chain ms from q v
            → length q ≡ suc n
            → (contains v visited || contains v (vertices b)) ≡ true
        further v [] c e = absurd (omega arith)
        further v (k ∷ p) c e =
            let (q, m, chain, member, ends, size) = Chain-last ms from v k p c in
            rw (← ends)
              (h.closed m member (reached m.from_version q chain (omega (arith, size, e))))

  module _ (n : ℕ) (a b : List (Entry O)) (visited : List SchemaVersion) where
    module _ (current : SchemaVersion) (path : List (Migration O)) where
      -- An entry whose version was visited is dropped.
      pub Levels-skip :
          Levels n ((current, path) ∷ a) b visited
          → contains current visited ≡ true
          → Levels n a b visited
      Levels-skip h old = record {
        front = h.front.1;
        back = h.back;
        near = h.near;
        level = λ v q c e. ground (arith, h.level v q c e, ==_iff current v);
        closed = λ m i c. ground (arith, h.closed m i c, ==_iff current m.to_version);
        open_target = h.open_target;
      }

      -- A version that is visited first has the targets of its migrations offered.
      pub Levels-expand :
          Levels n ((current, path) ∷ a) b visited
          → (current == to) ≡ false
          → let seen = current ∷ visited in
            Levels n a (b ++ offers seen path (keep (λ m. m.from_version == current) ms)) seen
      Levels-expand h apart = record {
        front = h.front.1;
        back =
            All-append (LeadsIn (suc n)) b _ h.back
              (offers-All (LeadsIn (suc n)) (current ∷ visited) path _ one_more);
        near = λ v q c le. ground (arith, h.near v q c le);
        level = λ v q c e. ground (arith, h.level v q c e);
        closed = covered;
        open_target = ground (arith, h.open_target);
      }
        where
          one_more :
              (m : Migration O)
              → Memᴰ m (keep (λ k. k.from_version == current) ms)
              → LeadsIn (suc n) (m.to_version, path ++ (m ∷ []))
          one_more m i =
              let (member, starts) = (Memᴰ-keep m (λ k. k.from_version == current) ms).0 i in
              (
                Chain-snoc ms from current path m h.front.0.0 member
                    ((==_iff m.from_version current).0 starts),
                omega (arith, length-append path (m ∷ []), h.front.0.1),
              )

          covered :
              (m : Migration O)
              → Memᴰ m ms
              → contains m.from_version (current ∷ visited) ≡ true
              → (contains m.to_version (current ∷ visited)
                  || contains m.to_version (
                      vertices (
                        a
                        ++ (b
                            ++ offers
                                (current ∷ visited)
                                path
                                (keep (λ k. k.from_version == current) ms)))))
                ≡ true
          covered m i c =
              let es = keep (λ k. k.from_version == current) ms in
              let o = offers (current ∷ visited) path es in
              elim (Bool-cases (m.from_version == current)) [
                | inl here ↦ ground (
                  arith,
                  offers-covers (current ∷ visited) path es m
                      ((Memᴰ-keep m (λ k. k.from_version == current) ms).1 (i, here)),
                  vertices-append m.to_version a (b ++ o),
                  vertices-append m.to_version b o,
                )
                | inr other ↦ ground (
                  arith,
                  h.closed m i,
                  ==_iff m.from_version current,
                  ==_iff current m.from_version,
                  vertices-append m.to_version a b,
                  vertices-append m.to_version a (b ++ o),
                  vertices-append m.to_version b o,
                )
              ]
