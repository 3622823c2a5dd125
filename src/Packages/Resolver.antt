-- ===== src/Packages/Resolver.antt =====
-- Transitive dependency resolution, breadth first (togo/internal/packages/resolver.go).
pub mod Steps
pub mod Closure
pub mod Selection
pub mod Termination
use cappu.Base.{
  Error, Result, ok, err, ℕ, zero, suc, ◌+◌, ◌++◌, Bool, true, false, not, ◌&&◌, ◌||◌, Option, none,
  some, List, [], ◌∷◌, if◌then◌else◌, Text, codes, text_eq, is_empty, ◌≡◌, refl,
}
use cappu.Packages.Range.{VersionSpec, parse_version_spec, select_version}
use cappu.Packages.Domain.{
  Coordinates, key, new_coordinates, DependencyDeclaration, PackageMetadata, PackageSource,
}

pub record ResolvedPackage : Type 0 where
  pub coordinates : Coordinates
  pub metadata : PackageMetadata
  pub depth : ℕ
  pub requested_by : Coordinates
  pub source : Text

pub record VersionConflict : Type 0 where
  pub conflict_key : Text
  pub selected : Text
  pub rejected : Text
  pub rejected_by : Coordinates

pub record MissingPackage : Type 0 where
  pub coordinates : Coordinates
  pub requested_by : Coordinates

pub record Resolution : Type 0 where
  pub packages : List ResolvedPackage
  pub conflicts : List VersionConflict
  pub missing : List MissingPackage

unfoldable pub propagates : DependencyDeclaration → Bool
unfolding text_eq
propagates d =
    not d.optional
    && (is_empty d.scope || text_eq d.scope (codes "compile") || text_eq d.scope (codes "runtime"))

-- The first source that knows the package, with its name.
unfoldable pub metadata_from :
    List PackageSource → Coordinates → Result (Option (PackageMetadata × Text))
metadata_from [] c = ok none
metadata_from (source ∷ sources) c =
    let rest = metadata_from sources c in
    elim (source.get_metadata c) [
      | err e ↦ err e
      | ok none ↦ rest
      | ok (some meta) ↦ ok (some (meta, source.name))
    ]

pub record FrontierItem : Type 0 where
  pub coordinates : Coordinates
  pub requested_by : Coordinates
  pub is_root : Bool

-- The highest match among the versions of the first source that lists any; `none` is `ok == false`.
unfoldable pub pick_version : Coordinates → VersionSpec → List Text → Option Coordinates
pick_version c spec published =
    let version = select_version spec published in
    if is_empty version then none else some (new_coordinates c.group_id c.artifact_id version)

unfoldable pub range_from :
    Coordinates → VersionSpec → List PackageSource → Result (Option Coordinates)
range_from c spec [] = ok none
range_from c spec (source ∷ sources) =
    let rest = range_from c spec sources in
    elim (source.list_versions c.group_id c.artifact_id) [
      | err e ↦ err e
      | ok [] ↦ rest
      | ok (v ∷ published) ↦ ok (pick_version c spec (v ∷ published))
    ]

unfoldable pub resolve_range : Coordinates → List PackageSource → Result (Option Coordinates)
resolve_range c sources = elim (parse_version_spec c.version) [
  | none ↦ ok (some c)
  | some spec ↦ range_from c spec sources
]

-- The map `selected`, its newest entry first.
abbrev pub Selected : Type 0
Selected = List (Text × Text)

unfoldable pub find : Text → Selected → Option Text
find k [] = none
find k ((j, v) ∷ m) = if text_eq j k then some v else find k m

-- The variables of `ResolveTransitive` that its loops change. `announced` lists the calls of
-- `onResolve`.
pub record State : Type 0 where
  pub selected : Selected
  pub packages : List ResolvedPackage
  pub conflicts : List VersionConflict
  pub missing : List MissingPackage
  pub next : List FrontierItem
  pub announced : List Coordinates

-- The state, and the error with which the function has returned, if it has.
pub data Run : Type 0 where
  running : State → Run
  failed : State → Error → Run

-- No source could provide the item's package: it is not tried or reported again.
unfoldable pub add_missing : FrontierItem → State → State
add_missing item s = record s {
  selected = (key item.coordinates, item.coordinates.version) ∷ s.selected;
  missing =
      s.missing ++ record { coordinates = item.coordinates; requested_by = item.requested_by } ∷ [];
}

-- The conflicts behind a declaration of a package that is already selected in version `winner`.
unfoldable pub conflicts_after : FrontierItem → Text → List VersionConflict → List VersionConflict
conflicts_after item winner conflicts =
    if text_eq winner item.coordinates.version
    then conflicts
    else conflicts
      ++ record {
        conflict_key = key item.coordinates;
        selected = winner;
        rejected = item.coordinates.version;
        rejected_by = if item.is_root then item.coordinates else item.requested_by;
      }
        ∷ []

unfoldable pub add_conflict : FrontierItem → Text → State → State
add_conflict item winner s = record s { conflicts = conflicts_after item winner s.conflicts }

-- The frontier items of the dependencies that propagate.
unfoldable pub propagated : Coordinates → List DependencyDeclaration → List FrontierItem
propagated by [] = []
propagated by (dep ∷ deps) =
    let rest = propagated by deps in
    if propagates dep
    then record { coordinates = dep.coordinates; requested_by = by; is_root = false } ∷ rest
    else rest

unfoldable pub add_package : ℕ → FrontierItem → PackageMetadata → Text → State → State
add_package depth item meta source s = record s {
  selected = (key item.coordinates, item.coordinates.version) ∷ s.selected;
  packages =
      s.packages
      ++ record {
        coordinates = item.coordinates;
        metadata = meta;
        depth = depth;
        requested_by = item.requested_by;
        source = source;
      }
        ∷ [];
  next = s.next ++ propagated item.coordinates meta.dependencies;
}

unfoldable pub fetch : List PackageSource → ℕ → FrontierItem → State → Run
fetch sources depth item s =
    let s' = record s { announced = s.announced ++ item.coordinates ∷ [] } in
    elim (metadata_from sources item.coordinates) [
      | err e ↦ failed s' e
      | ok none ↦ running (add_missing item s')
      | ok (some (meta, source)) ↦ running (add_package depth item meta source s')
    ]

-- An item with a concrete version.
unfoldable pub settle : List PackageSource → ℕ → FrontierItem → State → Run
settle sources depth item s = elim (find (key item.coordinates) s.selected) [
  | some winner ↦ running (add_conflict item winner s)
  | none ↦ fetch sources depth item s
]

-- An item whose range no published version satisfies.
unfoldable pub unsatisfied : FrontierItem → State → State
unsatisfied item s = elim (find (key item.coordinates) s.selected) [
  | some winner ↦ s
  | none ↦ add_missing item s
]

-- The body of the loop over the frontier.
unfoldable pub visit : List PackageSource → ℕ → FrontierItem → State → Run
visit sources depth item s = elim (resolve_range item.coordinates sources) [
  | err e ↦ failed s e
  | ok none ↦ running (unsatisfied item s)
  | ok (some concrete) ↦ settle sources depth (record item { coordinates = concrete }) s
]

unfoldable pub level : List PackageSource → ℕ → List FrontierItem → State → Run
level sources depth [] s = running s
level sources depth (item ∷ items) s = elim (visit sources depth item s) [
  | failed s' e ↦ failed s' e
  | running s' ↦ level sources depth items s'
]

-- The loop over the levels; `none` is out of fuel.
unfoldable pub rounds : List PackageSource → ℕ → ℕ → List FrontierItem → State → Option Run
rounds sources fuel depth [] s = some (running s)
rounds sources zero depth (item ∷ items) s = none
rounds sources (suc fuel) depth (item ∷ items) s =
    elim (level sources depth (item ∷ items) (record s { next = [] })) [
      | failed s' e ↦ some (failed s' e)
      | running s' ↦ rounds sources fuel (depth + 1) s'.next s'
    ]

abbrev no_coordinates : Coordinates
no_coordinates = new_coordinates [] [] []

unfoldable pub root_items : List Coordinates → List FrontierItem
root_items [] = []
root_items (root ∷ roots) =
    record { coordinates = root; requested_by = no_coordinates; is_root = true } ∷ root_items roots

abbrev pub start : State
start = record {
  selected = [];
  packages = [];
  conflicts = [];
  missing = [];
  next = [];
  announced = [];
}

unfoldable pub resolve_transitive : ℕ → List Coordinates → List PackageSource → Option Run
resolve_transitive fuel roots sources = rounds sources fuel 0 (root_items roots) start

-- The first of the returned pair, with the error as the second.
abbrev pub resolution_of : State → Resolution
resolution_of s = record { packages = s.packages; conflicts = s.conflicts; missing = s.missing }

-- The newest published version, from the first source that lists any; "" if none does.
abbrev last_or_empty : List Text → Text
last_or_empty [] = []
last_or_empty (v ∷ []) = v
last_or_empty (v ∷ w ∷ versions) = last_or_empty (w ∷ versions)

unfoldable pub latest_version : Text → Text → List PackageSource → Result Text
latest_version group_id artifact_id [] = ok []
latest_version group_id artifact_id (source ∷ sources) =
    let rest = latest_version group_id artifact_id sources in
    elim (source.list_versions group_id artifact_id) [
      | err e ↦ err e
      | ok [] ↦ rest
      | ok (v ∷ versions) ↦ ok (last_or_empty (v ∷ versions))
    ]

unfoldable pub evaluation : Unit {0}
unfolding resolve_transitive rounds root_items level visit resolve_range range_from pick_version
    unsatisfied settle find fetch metadata_from add_missing add_package add_conflict conflicts_after
    propagated propagates key
evaluation = tt
