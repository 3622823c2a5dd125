-- ===== src/Packages/Resolver/Termination.antt =====
-- The resolver's loop ends where the sources know finitely many packages
-- (togo/internal/packages/resolver.go).
use cappu.Base.{
  ok, ℕ, zero, suc, ◌+◌, ◌≤◌, ◌<◌, ◌++◌, true, some, List, [], ◌∷◌, List-cases, Text, length,
  length-append, length-le_distinct, In, All, All-append, All_map, Pairwise, Pairwise-concat, ◌≡◌,
  ◌≢◌, refl, arith, Bool-cases, inl, inr, ◌⊎◌, ap,
}
use cappu.Packages.Domain.{Coordinates, key, PackageMetadata, PackageSource, DependencyDeclaration}
use cappu.Packages.Resolver.{
  ResolvedPackage, FrontierItem, State, Run, running, failed, find, propagates, propagated,
  metadata_from, add_missing, add_conflict, add_package, level, rounds, root_items, start,
  resolve_transitive,
}
use cappu.Packages.Resolver.Steps.{Visited, Run-cases, level_induction}
use cappu.Packages.Resolver.Selection.{find_ne, find-cons_kept, find-cons_self}

-- The dependencies that propagate have their keys in the list.
abbrev pub DependsWithin : List Text → PackageMetadata → Type 0
DependsWithin keys meta =
    All (λ d. propagates d ≡ true → In (key d.coordinates) keys) meta.dependencies

-- Whatever the sources describe depends on packages of the list only.
abbrev pub KnowsWithin : List Text → List PackageSource → Type 0
KnowsWithin keys sources =
    (c : Coordinates) (meta : PackageMetadata) (source : Text)
    → metadata_from sources c ≡ ok (some (meta, source))
    → DependsWithin keys meta

abbrev ItemsWithin : List Text → List FrontierItem → Type 0
ItemsWithin keys items = All (λ i. In (key i.coordinates) keys) items

propagated-ItemsWithin :
    (keys : List Text) (by : Coordinates) (deps : List DependencyDeclaration)
    → All (λ d. propagates d ≡ true → In (key d.coordinates) keys) deps
    → ItemsWithin keys (propagated by deps)
unfolding propagated
propagated-ItemsWithin keys by [] h = tt
propagated-ItemsWithin keys by (d ∷ deps) (hd, h) = elim (Bool-cases (propagates d)) [
  | inl e ↦ rw (e, propagated) (hd e, propagated-ItemsWithin keys by deps h)
  | inr e ↦ rw (e, propagated) (propagated-ItemsWithin keys by deps h)
]

length-concat :
    (ps : List ResolvedPackage) (p : ResolvedPackage) → length (ps ++ p ∷ []) ≡ length ps + 1
length-concat ps p = length-append ps (p ∷ [])

rounds-nil :
    (sources : List PackageSource) (fuel depth : ℕ) (items : List FrontierItem) (s : State)
    → items ≡ []
    → rounds sources fuel depth items s ≡ some (running s)
unfolding rounds
rounds-nil sources fuel depth items s e =
    ap (λ (t : List FrontierItem). rounds sources fuel depth t s) e

module _ (keys : List Text) (sources : List PackageSource) (within : KnowsWithin keys sources) where
  -- At `depth` levels below the roots at least as many packages are selected, and one more as soon
  -- as the next level has an item.
  record IsBounded (depth : ℕ) (s : State) : Type 0 where
    next_within : ItemsWithin keys s.next
    packages_within : All (λ p. In (key p.coordinates) keys) s.packages
    agrees : All (λ p. find (key p.coordinates) s.selected ≡ some p.coordinates.version) s.packages
    distinct : Pairwise (λ p q. key p.coordinates ≢ key q.coordinates) s.packages
    progress : depth ≤ length s.packages
    advance : (s.next ≡ []) ⊎ (depth + 1 ≤ length s.packages)

  IsBounded-Visited :
      (depth : ℕ) (item : FrontierItem) (s s' : State)
      → Visited sources depth item s s'
      → In (key item.coordinates) keys
      → IsBounded depth s
      → IsBounded depth s'
  unfolding add_missing add_conflict add_package
  IsBounded-Visited depth item s s' (Visited.repeated w f) i h = h
  IsBounded-Visited depth item s s' (Visited.clashed c w e f) i h = record {
    next_within = h.next_within;
    packages_within = h.packages_within;
    agrees = h.agrees;
    distinct = h.distinct;
    progress = h.progress;
    advance = h.advance;
  }
  IsBounded-Visited depth item s s' (Visited.lost c log e f) i h = record {
    next_within = h.next_within;
    packages_within = h.packages_within;
    agrees = All_map s.packages (λ p. find-cons_kept _ _ _ s.selected f) h.agrees;
    distinct = h.distinct;
    progress = h.progress;
    advance = h.advance;
  }
  IsBounded-Visited depth item s s' (Visited.added c log meta source e f m) i h = record {
    next_within =
        All-append _ s.next _ h.next_within
          (propagated-ItemsWithin keys c.coordinates meta.dependencies (within _ meta source m));
    packages_within = All-append _ s.packages _ h.packages_within (rw e i, tt);
    agrees =
        All-append _ s.packages _
          (All_map s.packages (λ p. find-cons_kept _ _ _ s.selected f) h.agrees)
          (find-cons_self _ _ s.selected, tt);
    distinct =
        Pairwise-concat _ s.packages _ h.distinct
          (All_map s.packages (λ p a. find_ne s.selected a f) h.agrees);
    progress = omega (arith, length-concat s.packages _, h.progress);
    advance = inr (omega (arith, length-concat s.packages _, h.progress));
  }

  -- The visits of a level keep the bound.
  level-IsBounded :
      (depth : ℕ) (items : List FrontierItem) (s s' : State)
      → level sources depth items s ≡ running s'
      → ItemsWithin keys items
      → IsBounded depth s
      → IsBounded depth s'
  level-IsBounded depth items s s' e within_items h =
      (level_induction sources depth (λ rest t. ItemsWithin keys rest × IsBounded depth t)
        (λ item rest t t' v (w, b). (w.1, IsBounded-Visited depth item t t' v w.0 b)) items s s' e
        (within_items, h)).1

  -- The next level starts within the bound, if it has an item.
  IsBounded-turn :
      (depth : ℕ) (s : State) (item : FrontierItem) (items : List FrontierItem)
      → s.next ≡ item ∷ items
      → IsBounded depth s
      → IsBounded (depth + 1) (record s { next = [] })
  IsBounded-turn depth s item items e h = record {
    next_within = tt;
    packages_within = h.packages_within;
    agrees = h.agrees;
    distinct = h.distinct;
    progress = ground (arith, h.advance);
    advance = inl refl;
  }

  depth_bound : (depth : ℕ) (s : State) → IsBounded depth s → depth ≤ length keys
  depth_bound depth s h = omega (
    arith,
    h.progress,
    length-le_distinct (λ (p : ResolvedPackage). key p.coordinates) s.packages keys h.distinct
        h.packages_within,
  )

  rounds_total :
      (fuel depth : ℕ) (items : List FrontierItem) (s : State)
      → length keys < fuel + depth
      → ItemsWithin keys items
      → IsBounded depth (record s { next = [] })
      → (r : Run) × (rounds sources fuel depth items s ≡ some r)
  unfolding rounds
  rounds_total fuel depth [] s enough w h = (running s, refl)
  rounds_total zero depth (item ∷ items) s enough w h =
      absurd (omega (arith, depth_bound depth _ h))
  rounds_total (suc fuel) depth (item ∷ items) s enough w h =
      elim (Run-cases (level sources depth (item ∷ items) (record s { next = [] }))) [
        | inr (s₁, er, l) ↦ (failed s₁ er, rw (l, rounds))
        | inl (s₁, l) ↦
            let b = level-IsBounded depth (item ∷ items) _ s₁ l w h in
            rw (l, rounds)
              (elim (List-cases s₁.next) [
                | inl e ↦ (running s₁, rounds-nil sources fuel (depth + 1) s₁.next s₁ e)
                | inr (i, is, e) ↦
                    rounds_total fuel (depth + 1) s₁.next s₁ (omega arith) b.next_within
                      (IsBounded-turn depth s₁ i is e b)
              ])
      ]

root_items-ItemsWithin :
    (keys : List Text) (roots : List Coordinates)
    → All (λ r. In (key r) keys) roots
    → ItemsWithin keys (root_items roots)
unfolding root_items
root_items-ItemsWithin keys [] h = tt
root_items-ItemsWithin keys (r ∷ roots) (hr, h) = (hr, root_items-ItemsWithin keys roots h)

-- Let the roots and whatever the sources' metadata depend on be packages of a list. Then the
-- resolution ends, with a result or with an error of a source, within one more level than the list
-- holds packages.
pub resolve_transitive_total :
    (keys : List Text) (roots : List Coordinates) (sources : List PackageSource)
    → KnowsWithin keys sources
    → All (λ r. In (key r) keys) roots
    → (r : Run) × (resolve_transitive (length keys + 1) roots sources ≡ some r)
unfolding resolve_transitive
resolve_transitive_total keys roots sources within roots_within =
    rounds_total keys sources within (length keys + 1) 0 (root_items roots) start (omega arith)
      (root_items-ItemsWithin keys roots roots_within)
      (record {
        next_within = tt;
        packages_within = tt;
        agrees = tt;
        distinct = tt;
        progress = omega arith;
        advance = inl refl;
      })
