-- ===== src/Packages/Resolver/Steps.antt =====
-- What one round of the resolver's inner loop does to its state, as a relation, and the induction
-- rules for its loops (togo/internal/packages/resolver.go).
use cappu.Base.{
  Error, ok, Result-cases, ℕ, zero, suc, ◌+◌, ◌++◌, none, some, List, [], ◌∷◌, Text, ◌≡◌, refl,
  arith, Option-cases, inl, inr, ◌⊎◌, subst,
}
use cappu.Packages.Range.{parse_version_spec, VersionSpec}
use cappu.Packages.Domain.{Coordinates, key, PackageMetadata, PackageSource}
use cappu.Packages.Resolver.{
  FrontierItem, State, Run, running, failed, find, add_missing, add_conflict, add_package,
  metadata_from, pick_version, range_from, resolve_range, fetch, settle, unsatisfied, visit, level,
  rounds,
}

pub data Visited (sources : List PackageSource) (depth : ℕ) (item : FrontierItem) (s : State)
    : State → Type 0 where
  repeated :
      (winner : Text)
      → find (key item.coordinates) s.selected ≡ some winner
      → Visited sources depth item s s
  clashed :
      (concrete : FrontierItem) (winner : Text)
      → key concrete.coordinates ≡ key item.coordinates
      → find (key concrete.coordinates) s.selected ≡ some winner
      → Visited sources depth item s (add_conflict concrete winner s)
  lost :
      (concrete : FrontierItem) (log : List Coordinates)
      → key concrete.coordinates ≡ key item.coordinates
      → find (key concrete.coordinates) s.selected ≡ none
      → Visited sources depth item s (add_missing concrete (record s { announced = log }))
  added :
      (concrete : FrontierItem) (log : List Coordinates) (meta : PackageMetadata) (source : Text)
      → key concrete.coordinates ≡ key item.coordinates
      → find (key concrete.coordinates) s.selected ≡ none
      → metadata_from sources concrete.coordinates ≡ ok (some (meta, source))
      → Visited sources depth item s
          (add_package depth concrete meta source (record s { announced = log }))

-- Resolving a range keeps the package.
pick_version-key :
    (c : Coordinates) (spec : VersionSpec) (published : List Text) (r : Coordinates)
    → pick_version c spec published ≡ some r
    → key r ≡ key c
unfolding pick_version key
pick_version-key c spec published r e = ground arith

range_from_listed :
    (c : Coordinates) (spec : VersionSpec) (source : PackageSource) (sources : List PackageSource)
    (v : Text) (published : List Text)
    → source.list_versions c.group_id c.artifact_id ≡ ok (v ∷ published)
    → range_from c spec (source ∷ sources) ≡ ok (pick_version c spec (v ∷ published))
unfolding range_from
range_from_listed c spec source sources v published f = rw f

range_from-key :
    (c : Coordinates) (spec : VersionSpec) (sources : List PackageSource) (r : Coordinates)
    → range_from c spec sources ≡ ok (some r)
    → key r ≡ key c
unfolding range_from
range_from-key c spec [] r e = ground arith
range_from-key c spec (source ∷ sources) r e =
    elim (Result-cases (source.list_versions c.group_id c.artifact_id)) [
      | inl (er, f) ↦ ground arith
      | inr ([], f) ↦ range_from-key c spec sources r (rw (f, range_from) at e)
      | inr (v ∷ published, f) ↦
          pick_version-key c spec (v ∷ published) r
            (cc (range_from_listed c spec source sources v published f))
    ]

pub resolve_range-key :
    (c : Coordinates) (sources : List PackageSource) (r : Coordinates)
    → resolve_range c sources ≡ ok (some r)
    → key r ≡ key c
unfolding resolve_range
resolve_range-key c sources r e = elim (Option-cases (parse_version_spec c.version)) [
  | inl f ↦ ground arith
  | inr (spec, f) ↦ range_from-key c spec sources r (rw (f, resolve_range) at e)
]

running-injective : {s t : State} → running s ≡ running t → s ≡ t
running-injective e = cc

unsatisfied-Visited :
    (sources : List PackageSource) (depth : ℕ) (item : FrontierItem) (s : State)
    → Visited sources depth item s (unsatisfied item s)
unfolding unsatisfied
unsatisfied-Visited sources depth item s =
    elim (Option-cases (find (key item.coordinates) s.selected)) [
      | inl f ↦ rw (f, unsatisfied) (Visited.lost item s.announced refl f)
      | inr (winner, f) ↦ rw (f, unsatisfied) (Visited.repeated winner f)
    ]

some_running-injective : {s t : State} → some (running s) ≡ some (running t) → s ≡ t
some_running-injective e = cc

module _ (sources : List PackageSource) (depth : ℕ) (item : FrontierItem) (s : State)
    {s' : State} where
  fetch-Visited :
      (concrete : FrontierItem)
      → key concrete.coordinates ≡ key item.coordinates
      → find (key concrete.coordinates) s.selected ≡ none
      → fetch sources depth concrete s ≡ running s'
      → Visited sources depth item s s'
  unfolding fetch
  fetch-Visited concrete k f e =
      let log = s.announced ++ concrete.coordinates ∷ [] in
      elim (Result-cases (metadata_from sources concrete.coordinates)) [
        | inl (er, m) ↦ ground arith
        | inr (none, m) ↦
            subst (Visited sources depth item s) (running-injective (rw (m, fetch) at e))
              (Visited.lost concrete log k f)
        | inr (some (meta, source), m) ↦
            subst (Visited sources depth item s) (running-injective (rw (m, fetch) at e))
              (Visited.added concrete log meta source k f m)
      ]

  settle-Visited :
      (concrete : FrontierItem)
      → key concrete.coordinates ≡ key item.coordinates
      → settle sources depth concrete s ≡ running s'
      → Visited sources depth item s s'
  unfolding settle
  settle-Visited concrete k e = elim (Option-cases (find (key concrete.coordinates) s.selected)) [
    | inl f ↦ fetch-Visited concrete k f (rw (f, settle) at e)
    | inr (winner, f) ↦
        subst (Visited sources depth item s) (running-injective (rw (f, settle) at e))
          (Visited.clashed concrete winner k f)
  ]

  pub visit-Visited : visit sources depth item s ≡ running s' → Visited sources depth item s s'
  unfolding visit
  visit-Visited e = elim (Result-cases (resolve_range item.coordinates sources)) [
    | inl (er, r) ↦ ground arith
    | inr (none, r) ↦
        subst (Visited sources depth item s) (running-injective (rw (r, visit) at e))
          (unsatisfied-Visited sources depth item s)
    | inr (some c, r) ↦
        settle-Visited (record item { coordinates = c })
          (resolve_range-key item.coordinates sources c r) (rw (r, visit) at e)
  ]

pub Run-cases :
    (r : Run) → ((s : State) × (r ≡ running s)) ⊎ ((s : State) × (e : Error) × (r ≡ failed s e))
Run-cases (running s) = inl (s, refl)
Run-cases (failed s e) = inr (s, e, refl)

-- Induction over a level: `P` speaks of the items that are still to be visited.
pub level_induction :
    (sources : List PackageSource) (depth : ℕ) (P : List FrontierItem → State → Type 0)
    → ((item : FrontierItem) (items : List FrontierItem) (s s' : State)
        → Visited sources depth item s s'
        → P (item ∷ items) s
        → P items s')
    → (items : List FrontierItem) (s s' : State) → level sources depth items s ≡ running s'
    → P items s
    → P [] s'
unfolding level
level_induction sources depth P step [] s s' e h = subst (P []) (running-injective e) h
level_induction sources depth P step (item ∷ items) s s' e h =
    elim (Run-cases (visit sources depth item s)) [
      | inl (s₁, v) ↦
          level_induction sources depth P step items s₁ s' (rw (v, level) at e)
            (step item items s s₁ (visit-Visited sources depth item s v) h)
      | inr (s₁, er, v) ↦ ground arith
    ]

-- Induction over the levels: at the end of a level its `next` is the frontier of the next level.
pub rounds_induction :
    (sources : List PackageSource) (P : ℕ → List FrontierItem → State → Type 0)
    → ((depth : ℕ) (item : FrontierItem) (items : List FrontierItem) (s s' : State)
        → Visited sources depth item s s'
        → P depth (item ∷ items) s
        → P depth items s')
    → ((depth : ℕ) (s : State) → P depth [] s → P (depth + 1) s.next (record s { next = [] }))
    → (fuel depth : ℕ) (items : List FrontierItem) (s s' : State)
    → rounds sources fuel depth items s ≡ some (running s')
    → P depth items (record s { next = [] })
    → (last : ℕ) × P last [] (record s' { next = [] })
unfolding rounds
rounds_induction sources P step turn fuel depth [] s s' e h =
    (depth, subst (λ (t : State). P depth [] (record t { next = [] })) (some_running-injective e) h)
rounds_induction sources P step turn zero depth (item ∷ items) s s' e h = cc
rounds_induction sources P step turn (suc fuel) depth (item ∷ items) s s' e h =
    elim (Run-cases (level sources depth (item ∷ items) (record s { next = [] }))) [
      | inl (s₁, l) ↦
          rounds_induction sources P step turn fuel (depth + 1) s₁.next s₁ s' (rw (l, rounds) at e)
            (turn depth s₁ (level_induction sources depth (P depth) (step depth) _ _ s₁ l h))
      | inr (s₁, er, l) ↦ ground arith
    ]
