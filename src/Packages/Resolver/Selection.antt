-- ===== src/Packages/Resolver/Selection.antt =====
-- What a finished resolution holds: one version of a package, metadata of the first source that knows
-- it, levels in order, and true conflicts (togo/internal/packages/resolver.go).
use cappu.Base.{
  ok, ℕ, ◌+◌, ◌≤◌, none, some, List, [], ◌∷◌, Text, text_eq, text_eq_iff, All, All-append, All_map,
  All_zip, Any, Any-append_left, Any-append_right, Pairwise, Pairwise-concat, ◌≡◌, ◌≢◌, arith,
  Bool-cases, inl, inr, ◌⊎◌, sym,
}
use cappu.Packages.Domain.{Coordinates, key, PackageSource}
use cappu.Packages.Resolver.{
  ResolvedPackage, VersionConflict, FrontierItem, Selected, State, running, find, metadata_from,
  add_missing, add_conflict, conflicts_after, add_package, root_items, start, resolve_transitive,
}
use cappu.Packages.Resolver.Steps.{Visited, rounds_induction}

pub find-cons_kept :
    (k j w : Text) (m : Selected) {v : Text}
    → find j m ≡ none
    → find k m ≡ some v
    → find k ((j, w) ∷ m) ≡ some v
unfolding find
find-cons_kept k j w m e f = ground (arith, text_eq_iff j k)

find-cons-value :
    (i w : Text) (m : Selected) (j : Text) {v : Text}
    → find j ((i, w) ∷ m) ≡ some v
    → ((i ≡ j) × (w ≡ v)) ⊎ (find j m ≡ some v)
unfolding find
find-cons-value i w m j e = ground (arith, text_eq_iff i j)

pub find-cons_self : (k w : Text) (m : Selected) → find k ((k, w) ∷ m) ≡ some w
unfolding find
find-cons_self k w m = ground (arith, text_eq_iff k k)

-- The version is the one of a selected package, or of a package reported as missing.
abbrev pub ChosenAs : Text → Text → State → Type 0
ChosenAs k v s =
    Any (λ p. (key p.coordinates ≡ k) × (p.coordinates.version ≡ v)) s.packages
    ⊎ Any (λ m. (key m.coordinates ≡ k) × (m.coordinates.version ≡ v)) s.missing

-- Two packages of which the first was selected earlier.
abbrev pub InOrder : ResolvedPackage → ResolvedPackage → Type 0
InOrder p q = (key p.coordinates ≢ key q.coordinates) × (p.depth ≤ q.depth)

-- The metadata is what the first source that knows the coordinates gives.
abbrev pub IsDescribed : List PackageSource → ResolvedPackage → Type 0
IsDescribed sources p = metadata_from sources p.coordinates ≡ ok (some (p.metadata, p.source))

Agrees : Selected → VersionConflict → Type 0
Agrees m c = (find c.conflict_key m ≡ some c.selected) × (c.selected ≢ c.rejected)

record IsConsistent (sources : List PackageSource) (depth : ℕ) (s : State) : Type 0 where
  agrees : All (λ p. find (key p.coordinates) s.selected ≡ some p.coordinates.version) s.packages
  chosen : (k v : Text) → find k s.selected ≡ some v → ChosenAs k v s
  in_order : Pairwise InOrder s.packages
  shallow : All (λ p. p.depth ≤ depth) s.packages
  described : All (IsDescribed sources) s.packages
  conflicts_agree : All (Agrees s.selected) s.conflicts

pub find_ne : {k j : Text} (m : Selected) {v : Text} → find k m ≡ some v → find j m ≡ none → k ≢ j
find_ne m f g e = cc

Agrees-cons :
    (m : Selected) (j w : Text) (conflicts : List VersionConflict)
    → find j m ≡ none
    → All (Agrees m) conflicts
    → All (Agrees ((j, w) ∷ m)) conflicts
unfolding Agrees
Agrees-cons m j w conflicts f h =
    All_map conflicts (λ c (a, ne). (find-cons_kept c.conflict_key j w m f a, ne)) h

conflicts_after-Agrees :
    (m : Selected) (c : FrontierItem) (w : Text) (conflicts : List VersionConflict)
    → find (key c.coordinates) m ≡ some w
    → All (Agrees m) conflicts
    → All (Agrees m) (conflicts_after c w conflicts)
unfolding conflicts_after Agrees
conflicts_after-Agrees m c w conflicts f h = elim (Bool-cases (text_eq w c.coordinates.version)) [
  | inl e ↦ rw (e, conflicts_after) h
  | inr e ↦
      rw (e, conflicts_after)
        (All-append (Agrees m) conflicts _ h
          ((f, λ same. ground (arith, text_eq_iff w c.coordinates.version)), tt))
]

module _ (sources : List PackageSource) (depth : ℕ) where
  IsConsistent-Visited :
      {item : FrontierItem} {s s' : State}
      → Visited sources depth item s s'
      → IsConsistent sources depth s
      → IsConsistent sources depth s'
  unfolding add_missing add_conflict add_package
  IsConsistent-Visited (Visited.repeated w f) h = h
  IsConsistent-Visited {s = s} (Visited.clashed c w e f) h = record {
    agrees = h.agrees;
    chosen = h.chosen;
    in_order = h.in_order;
    shallow = h.shallow;
    described = h.described;
    conflicts_agree = conflicts_after-Agrees s.selected c w s.conflicts f h.conflicts_agree;
  }
  IsConsistent-Visited {s = s} (Visited.lost c log e f) h = record {
    agrees = All_map s.packages (λ p. find-cons_kept _ _ _ s.selected f) h.agrees;
    chosen = λ k v g.
        elim (find-cons-value (key c.coordinates) c.coordinates.version s.selected k g) [
          | inl same ↦ inr (Any-append_right _ s.missing _ (inl same))
          | inr old ↦ elim (h.chosen k v old) [
            | inl p ↦ inl p
            | inr m ↦ inr (Any-append_left _ s.missing _ m)
          ]
        ];
    in_order = h.in_order;
    shallow = h.shallow;
    described = h.described;
    conflicts_agree = Agrees-cons s.selected _ _ s.conflicts f h.conflicts_agree;
  }
  IsConsistent-Visited {s = s} (Visited.added c log meta source e f m) h = record {
    agrees =
        All-append _ s.packages _
          (All_map s.packages (λ p. find-cons_kept _ _ _ s.selected f) h.agrees)
          (find-cons_self _ _ s.selected, tt);
    chosen = λ k v g.
        elim (find-cons-value (key c.coordinates) c.coordinates.version s.selected k g) [
          | inl same ↦ inl (Any-append_right _ s.packages _ (inl same))
          | inr old ↦ elim (h.chosen k v old) [
            | inl p ↦ inl (Any-append_left _ s.packages _ p)
            | inr m ↦ inr m
          ]
        ];
    in_order = Pairwise-concat InOrder s.packages _ h.in_order (
        All_map s.packages (λ p (a, le). (find_ne s.selected a f, le))
          (All_zip _ _ s.packages h.agrees h.shallow));
    shallow = All-append _ s.packages _ h.shallow (omega arith, tt);
    described = All-append _ s.packages _ h.described (m, tt);
    conflicts_agree = Agrees-cons s.selected _ _ s.conflicts f h.conflicts_agree;
  }

IsConsistent-turn :
    (sources : List PackageSource) (depth : ℕ) (s : State)
    → IsConsistent sources depth s
    → IsConsistent sources (depth + 1) (record s { next = [] })
IsConsistent-turn sources depth s h = record {
  agrees = h.agrees;
  chosen = h.chosen;
  in_order = h.in_order;
  shallow = All_map s.packages (λ p le. omega arith) h.shallow;
  described = h.described;
  conflicts_agree = h.conflicts_agree;
}

start-IsConsistent : (sources : List PackageSource) → IsConsistent sources 0 start
unfolding find
start-IsConsistent sources = record {
  agrees = tt;
  chosen = λ k v e. cc;
  in_order = tt;
  shallow = tt;
  described = tt;
  conflicts_agree = tt;
}

-- Let a resolution end without an error. Then its packages have different keys and stand in the order
-- of their levels, each with the metadata that the first source knowing its coordinates gives; and in
-- each recorded conflict the rejected version differs from the selected one, which is the version of
-- the package with that key that is selected or reported as missing.
pub resolve_transitive-consistent :
    (fuel : ℕ) (roots : List Coordinates) (sources : List PackageSource) (s : State)
    → resolve_transitive fuel roots sources ≡ some (running s)
    → Pairwise InOrder s.packages
      × All (IsDescribed sources) s.packages
      × All (λ c. (c.rejected ≢ c.selected) × ChosenAs c.conflict_key c.selected s) s.conflicts
unfolding resolve_transitive Agrees
resolve_transitive-consistent fuel roots sources s e =
    let (last, inv) =
      rounds_induction sources (λ depth items. IsConsistent sources depth)
        (λ depth item items s₁ s₂ v. IsConsistent-Visited sources depth v)
        (IsConsistent-turn sources) fuel 0 (root_items roots) start s e
        (start-IsConsistent sources) in
    (
      inv.in_order,
      inv.described,
      All_map s.conflicts (λ c (a, ne). (λ same. ne (sym same), inv.chosen _ _ a))
          inv.conflicts_agree,
    )
