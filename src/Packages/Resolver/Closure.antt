-- ===== src/Packages/Resolver/Closure.antt =====
-- A finished resolution is closed under dependencies, and the nearest declaration wins
-- (togo/internal/packages/resolver.go).
use cappu.Base.{
  ℕ, ◌+◌, ◌≤◌, true, some, List, [], ◌∷◌, Text, text_eq_iff, All, All-append, All_map, Any, Any-map,
  Any-append_left, Any-append_right, ◌≡◌, refl, arith, Bool-cases, inl, inr, ◌⊎◌, sym, ◌∙◌,
}
use cappu.Packages.Domain.{Coordinates, key, PackageMetadata, PackageSource, DependencyDeclaration}
use cappu.Packages.Resolver.{
  ResolvedPackage, FrontierItem, Selected, State, running, find, propagates, propagated,
  add_missing, add_conflict, add_package, root_items, start, resolve_transitive,
}
use cappu.Packages.Resolver.Steps.{Visited, rounds_induction}

-- A package with this key is selected, at this depth or nearer to a root.
abbrev pub SelectedBy : ℕ → Text → State → Type 0
SelectedBy n k s = Any (λ q. (key q.coordinates ≡ k) × (q.depth ≤ n)) s.packages

-- A package with this key is reported as missing.
abbrev pub ReportedMissing : Text → State → Type 0
ReportedMissing k s = Any (λ m. key m.coordinates ≡ k) s.missing

abbrev pub Provided : ℕ → Text → State → Type 0
Provided n k s = SelectedBy n k s ⊎ ReportedMissing k s

abbrev Waits : List FrontierItem → Text → Type 0
Waits items k = Any (λ i. key i.coordinates ≡ k) items

-- Provided, or still to be visited in time: on this level, or on the next.
abbrev Due : ℕ → List FrontierItem → State → ℕ → Text → Type 0
Due depth items s n k =
    Provided n k s ⊎ ((Waits items k × (depth ≤ n)) ⊎ (Waits s.next k × (depth + 1 ≤ n)))

pub find-cons :
    (i w : Text) (m : Selected) (j : Text) {v : Text}
    → find j ((i, w) ∷ m) ≡ some v
    → (i ≡ j) ⊎ (find j m ≡ some v)
unfolding find
find-cons i w m j e = ground (arith, text_eq_iff i j)

Provided-mono : (n m : ℕ) (k : Text) (s : State) → n ≤ m → Provided n k s → Provided m k s
Provided-mono n m k s h (inl a) = inl (Any-map s.packages (λ q (e, d). (e, omega arith)) a)
Provided-mono n m k s h (inr a) = inr a

-- Whatever is selected is provided, by a package no deeper than this level.
abbrev Known : ℕ → State → Type 0
Known depth s = (k v : Text) → find k s.selected ≡ some v → Provided depth k s

module _ {sources : List PackageSource} {depth : ℕ} {item : FrontierItem} where
  Provided-Visited :
      (n : ℕ) (k : Text) {s s' : State}
      → Visited sources depth item s s'
      → Provided n k s
      → Provided n k s'
  unfolding add_missing add_conflict add_package
  Provided-Visited n k (Visited.repeated w f) p = p
  Provided-Visited n k (Visited.clashed c w e f) p = p
  Provided-Visited n k {s} (Visited.lost c log e f) (inl a) = inl a
  Provided-Visited n k {s} (Visited.lost c log e f) (inr a) = inr (Any-append_left _ s.missing _ a)
  Provided-Visited n k {s} (Visited.added c log meta source e f m) (inl a) =
      inl (Any-append_left _ s.packages _ a)
  Provided-Visited n k {s} (Visited.added c log meta source e f m) (inr a) = inr a

  Waits-Visited :
      (k : Text) {s s' : State} → Visited sources depth item s s' → Waits s.next k → Waits s'.next k
  unfolding add_missing add_conflict add_package
  Waits-Visited k (Visited.repeated w f) p = p
  Waits-Visited k (Visited.clashed c w e f) p = p
  Waits-Visited k (Visited.lost c log e f) p = p
  Waits-Visited k {s} (Visited.added c log meta source e f m) p = Any-append_left _ s.next _ p

  Provided-now :
      {s s' : State}
      → Visited sources depth item s s'
      → Known depth s
      → Provided depth (key item.coordinates) s'
  unfolding add_missing add_conflict add_package
  Provided-now (Visited.repeated w f) h = h _ w f
  Provided-now (Visited.clashed c w e f) h = h _ w (rw e at f)
  Provided-now {s} (Visited.lost c log e f) h = inr (Any-append_right _ s.missing _ (inl e))
  Provided-now {s} (Visited.added c log meta source e f m) h =
      inl (Any-append_right _ s.packages _ (inl (e, omega arith)))

  Known-Visited : {s s' : State} → Visited sources depth item s s' → Known depth s → Known depth s'
  unfolding add_missing add_conflict add_package
  Known-Visited (Visited.repeated w f) h = h
  Known-Visited (Visited.clashed c w e f) h = h
  Known-Visited {s} (Visited.lost c log e f) h =
      let vis : Visited sources depth item s (add_missing c (record s { announced = log })) =
        Visited.lost c log e f in
      λ k v g. elim (find-cons (key c.coordinates) c.coordinates.version s.selected k g) [
        | inl same ↦ rw (sym e ∙ same) at (Provided-now vis h)
        | inr old ↦ Provided-Visited depth k vis (h k v old)
      ]
  Known-Visited {s} (Visited.added c log meta source e f m) h =
      let vis : Visited sources depth item s
          (add_package depth c meta source (record s { announced = log })) =
        Visited.added c log meta source e f m in
      λ k v g. elim (find-cons (key c.coordinates) c.coordinates.version s.selected k g) [
        | inl same ↦ rw (sym e ∙ same) at (Provided-now vis h)
        | inr old ↦ Provided-Visited depth k vis (h k v old)
      ]

  Due-Visited :
      (items : List FrontierItem) (n : ℕ) (k : Text) {s s' : State}
      → Known depth s
      → Visited sources depth item s s'
      → Due depth (item ∷ items) s n k
      → Due depth items s' n k
  Due-Visited items n k h v (inl p) = inl (Provided-Visited n k v p)
  Due-Visited items n k {s' = s'} h v (inr (inl (inl e, le))) =
      inl (Provided-mono depth n k s' le (rw e at (Provided-now v h)))
  Due-Visited items n k h v (inr (inl (inr w, le))) = inr (inl (w, le))
  Due-Visited items n k h v (inr (inr (w, le))) = inr (inr (Waits-Visited k v w, le))

propagated_here :
    (by : Coordinates) (dep : DependencyDeclaration) (deps : List DependencyDeclaration)
    → propagates dep ≡ true
    → Waits (propagated by (dep ∷ deps)) (key dep.coordinates)
unfolding propagated
propagated_here by dep deps e = rw (e, propagated) (inl refl)

propagated_there :
    (by : Coordinates) (dep : DependencyDeclaration) (deps : List DependencyDeclaration) (k : Text)
    → Waits (propagated by deps) k
    → Waits (propagated by (dep ∷ deps)) k
unfolding propagated
propagated_there by dep deps k w = elim (Bool-cases (propagates dep)) [
  | inl e ↦ rw (e, propagated) (inr w)
  | inr e ↦ rw (e, propagated) w
]

-- Every dependency that propagates becomes a frontier item.
propagated-Waits :
    (by : Coordinates) (deps : List DependencyDeclaration)
    → All (λ d. propagates d ≡ true → Waits (propagated by deps) (key d.coordinates)) deps
propagated-Waits by [] = tt
propagated-Waits by (dep ∷ deps) = (
  propagated_here by dep deps,
  All_map deps (λ d w prop. propagated_there by dep deps (key d.coordinates) (w prop))
      (propagated-Waits by deps),
)

DepsDue : ℕ → List FrontierItem → State → ResolvedPackage → Type 0
DepsDue depth items s p =
    All (λ d. propagates d ≡ true → Due depth items s (p.depth + 1) (key d.coordinates))
      p.metadata.dependencies

new_package-DepsDue :
    (depth : ℕ) (items : List FrontierItem) (c : FrontierItem) (log : List Coordinates)
    (meta : PackageMetadata) (source : Text) (s : State)
    → DepsDue depth items (add_package depth c meta source (record s { announced = log })) (record {
      coordinates = c.coordinates;
      metadata = meta;
      depth = depth;
      requested_by = c.requested_by;
      source = source;
    })
unfolding DepsDue add_package
new_package-DepsDue depth items c log meta source s =
    All_map meta.dependencies
      (λ d w prop. inr (inr (Any-append_right _ s.next _ (w prop), omega arith)))
      (propagated-Waits c.coordinates meta.dependencies)

record IsClosing (roots : List Coordinates) (depth : ℕ) (items : List FrontierItem) (s : State)
    : Type 0 where
  known : Known depth s
  roots_due : All (λ r. Due depth items s 0 (key r)) roots
  deps_due : All (DepsDue depth items s) s.packages

module _ {sources : List PackageSource} {depth : ℕ} {item : FrontierItem}
    (items : List FrontierItem) where
  DepsDue-Visited :
      {s s' : State}
      → Known depth s
      → Visited sources depth item s s'
      → (p : ResolvedPackage) → DepsDue depth (item ∷ items) s p
      → DepsDue depth items s' p
  unfolding DepsDue
  DepsDue-Visited h v p =
      All_map p.metadata.dependencies
        (λ d due prop. Due-Visited items (p.depth + 1) (key d.coordinates) h v (due prop))

  All-DepsDue-Visited :
      {s s' : State}
      → Known depth s
      → Visited sources depth item s s'
      → All (DepsDue depth (item ∷ items) s) s.packages
      → All (DepsDue depth items s') s'.packages
  unfolding add_missing add_conflict add_package
  All-DepsDue-Visited h (Visited.repeated w f) due =
      All_map _ (DepsDue-Visited h (Visited.repeated w f)) due
  All-DepsDue-Visited {s} h (Visited.clashed c w e f) due =
      All_map s.packages (DepsDue-Visited h (Visited.clashed c w e f)) due
  All-DepsDue-Visited {s} h (Visited.lost c log e f) due =
      All_map s.packages (DepsDue-Visited h (Visited.lost c log e f)) due
  All-DepsDue-Visited {s} h (Visited.added c log meta source e f m) due =
      All-append _ s.packages _
        (All_map s.packages (DepsDue-Visited h (Visited.added c log meta source e f m)) due)
        (new_package-DepsDue depth items c log meta source s, tt)

  IsClosing-Visited :
      (roots : List Coordinates) {s s' : State}
      → Visited sources depth item s s'
      → IsClosing roots depth (item ∷ items) s
      → IsClosing roots depth items s'
  IsClosing-Visited roots v inv = record {
    known = Known-Visited v inv.known;
    roots_due = All_map roots (λ r. Due-Visited items 0 (key r) inv.known v) inv.roots_due;
    deps_due = All-DepsDue-Visited inv.known v inv.deps_due;
  }

Due-turn :
    (depth : ℕ) (s : State) (n : ℕ) (k : Text)
    → Due depth [] s n k
    → Due (depth + 1) s.next (record s { next = [] }) n k
Due-turn depth s n k (inl p) = inl p
Due-turn depth s n k (inr (inl (w, le))) = elim w [ ]
Due-turn depth s n k (inr (inr (w, le))) = inr (inl (w, le))

IsClosing-turn :
    (roots : List Coordinates) (depth : ℕ) (s : State)
    → IsClosing roots depth [] s
    → IsClosing roots (depth + 1) s.next (record s { next = [] })
unfolding DepsDue
IsClosing-turn roots depth s inv = record {
  known = λ k v e. Provided-mono depth (depth + 1) k s (omega arith) (inv.known k v e);
  roots_due = All_map roots (λ r. Due-turn depth s 0 (key r)) inv.roots_due;
  deps_due =
      All_map s.packages
        (λ p due.
          All_map p.metadata.dependencies
            (λ d now prop. Due-turn depth s (p.depth + 1) (key d.coordinates) (now prop)) due)
        inv.deps_due;
}

-- At the end nothing waits.
Due-end :
    (depth : ℕ) (s : State) (n : ℕ) (k : Text)
    → Due depth [] (record s { next = [] }) n k
    → Provided n k s
Due-end depth s n k (inl p) = p
Due-end depth s n k (inr (inl (w, le))) = elim w [ ]
Due-end depth s n k (inr (inr (w, le))) = elim w [ ]

root_items-Waits : (roots : List Coordinates) → All (λ r. Waits (root_items roots) (key r)) roots
unfolding root_items
root_items-Waits [] = tt
root_items-Waits (r ∷ roots) = (inl refl, All_map roots (λ q w. inr w) (root_items-Waits roots))

start-IsClosing : (roots : List Coordinates) → IsClosing roots 0 (root_items roots) start
unfolding find
start-IsClosing roots = record {
  known = λ k v e. cc;
  roots_due = All_map roots (λ r w. inr (inl (w, omega arith))) (root_items-Waits roots);
  deps_due = tt;
}

-- Let a resolution end without an error. Then each root's package is selected at depth 0 or reported
-- as missing, and for each selected package, each of its dependencies that propagates is selected,
-- at most one level below that package (so no deeper declaration wins over a nearer one), or it is
-- reported as missing.
pub resolve_transitive-closed :
    (fuel : ℕ) (roots : List Coordinates) (sources : List PackageSource) (s : State)
    → resolve_transitive fuel roots sources ≡ some (running s)
    → All (λ r. Provided 0 (key r) s) roots
      × All
          (λ p.
            All
              (λ d. propagates d ≡ true → Provided (p.depth + 1) (key d.coordinates) s)
              p.metadata.dependencies)
          s.packages
unfolding resolve_transitive DepsDue
resolve_transitive-closed fuel roots sources s e =
    let (last, inv) =
      rounds_induction sources (IsClosing roots)
        (λ depth item items s₁ s₂. IsClosing-Visited items roots) (IsClosing-turn roots) fuel 0
        (root_items roots) start s e (start-IsClosing roots) in
    (
      All_map roots (λ r. Due-end last s 0 (key r)) inv.roots_due,
      All_map s.packages
          (λ p due.
            All_map p.metadata.dependencies
              (λ d now prop. Due-end last s (p.depth + 1) (key d.coordinates) (now prop)) due)
          inv.deps_due,
    )
