-- ===== src/Packages/Samples.antt =====
-- Concrete versions, ranges and resolutions: tests and instances (togo/internal/packages).
use cappu.Base.{
  ok, ◌+◌, Ordering, flip, AtMost, true, false, Option, none, some, List, [], ◌∷◌, Text, codes,
  length, is_space, text_eq, map, All, In, Pairwise, ◌≡◌, ◌≢◌, refl, ◌⊎◌, arith,
}
use cappu.Packages.Version.{
  qual, segments_of, qualifier_rank, compare_qualifier, compare_versions, compare_segments,
}
use cappu.Packages.Version.Order.{compare_versions-flip}
use cappu.Packages.Version.Preorder.{compare_versions_trans, compare_versions_cycle, AllOrderly}
use cappu.Packages.Range
use cappu.Packages.Range.{
  Restriction, VersionSpec, satisfies, select_version, parse_version_spec, within_restriction,
}
use cappu.Packages.Range.Select.{select_version_sound, select_version_max, Fit}
use cappu.Packages.Range.RoundTrip.{
  IsPrintable, print_restrictions, print_restriction, parse_version_spec-print,
}
use cappu.Packages.Domain.{
  Coordinates, new_coordinates, key, coordinate_string, DependencyDeclaration, PackageMetadata,
  PackageSource,
}
use cappu.Packages.Resolver
use cappu.Packages.Resolver.{
  ResolvedPackage, VersionConflict, MissingPackage, State, Run, running, failed, start,
  resolve_transitive, propagates, metadata_from,
}
use cappu.Packages.Resolver.Closure.{Provided, resolve_transitive-closed}
use cappu.Packages.Resolver.Selection.{
  InOrder, IsDescribed, ChosenAs, resolve_transitive-consistent,
}
use cappu.Packages.Memory
use cappu.Packages.Memory.{new_in_memory, source_of, list_versions, get_metadata, first_with}
use cappu.Packages.Memory.Lookup.{with_key, FirstAsked, in_memory_scan}
use cappu.Packages.Memory.Resolve.{
  known_keys, in_memory-KnowsWithin, roots-Within, resolve_in_memory_total,
}
use cappu.Packages.Resolver.Termination.{resolve_transitive_total}

ordering : Unit {0}
unfolding compare_versions segments_of compare_segments compare_qualifier qualifier_rank
ordering = tt

abbrev early : Text
early = codes "1.0-alpha"

abbrev middle : Text
middle = codes "1.0"

abbrev late : Text
late = codes "1.1"

compare_versions-flip_example :
    (compare_versions early late ≡ flip (compare_versions late early))
    × (compare_versions early early ≡ Ordering.eq)
compare_versions-flip_example = compare_versions-flip early late

early-AllOrderly : AllOrderly early
unfolding ordering
early-AllOrderly = omega arith

middle-AllOrderly : AllOrderly middle
unfolding ordering
middle-AllOrderly = omega arith

late-AllOrderly : AllOrderly late
unfolding ordering
late-AllOrderly = omega arith

early-middle : AtMost (compare_versions early middle)
unfolding ordering
early-middle e = cc

middle-late : AtMost (compare_versions middle late)
unfolding ordering
middle-late e = cc

compare_versions_trans_example : AtMost (compare_versions early late)
compare_versions_trans_example =
    compare_versions_trans early middle late early-AllOrderly middle-AllOrderly late-AllOrderly
      early-middle middle-late

sp_segments : segments_of (codes "sp") ≡ qual (codes "sp") ∷ []
unfolding ordering
sp_segments = refl

sp_after : compare_qualifier (codes "sp") [] ≡ Ordering.gt
unfolding ordering
sp_after = refl

compare_versions_cycle_example :
    (compare_versions (codes "1-sp") (codes "1") ≡ Ordering.gt)
    × (compare_versions (codes "1.0") (codes "1") ≡ Ordering.eq)
    × (compare_versions (codes "1.0") (codes "1-sp") ≡ Ordering.gt)
compare_versions_cycle_example =
    compare_versions_cycle (codes "1") (codes "sp") (codes "sp") sp_segments sp_after

-- [1.0,1.2)
abbrev half_open : Restriction
half_open = record {
  lower = codes "1.0";
  lower_inclusive = true;
  upper = codes "1.2";
  upper_inclusive = false;
  has_lower = true;
  has_upper = true;
}

-- (,0.5]
abbrev below : Restriction
below = record {
  lower = [];
  lower_inclusive = false;
  upper = codes "0.5";
  upper_inclusive = true;
  has_lower = false;
  has_upper = true;
}

abbrev spec : VersionSpec
spec = record { newest = false; restrictions = half_open ∷ [] }

abbrev published : List Text
published = early ∷ middle ∷ late ∷ codes "1.2" ∷ []

satisfying : Unit {0}
unfolding ordering satisfies within_restriction
satisfying = tt

late-satisfies : satisfies spec late ≡ true
unfolding satisfying
late-satisfies = refl

select_late : select_version spec published ≡ late
unfolding satisfying select_version
select_late = refl

select_version_sound_example :
    (select_version spec published ≡ [])
    ⊎ (In (select_version spec published) published
        × (satisfies spec (select_version spec published) ≡ true))
select_version_sound_example = select_version_sound spec published

published-Fit : All Fit published
unfolding ordering
published-Fit = (
  (λ e. cc, omega arith),
  ((λ e. cc, omega arith), ((λ e. cc, omega arith), ((λ e. cc, omega arith), tt))),
)

select_version_max_example :
    (select_version spec published ≢ [])
    × AtMost (compare_versions middle (select_version spec published))
select_version_max_example =
    select_version_max spec published published-Fit middle (In.there (In.here refl))
      middle_satisfies
  where
    middle_satisfies : satisfies spec middle ≡ true
    middle_satisfies = unfold satisfying in refl

printed-IsPrintable : All IsPrintable (half_open ∷ below ∷ [])
unfolding is_space
printed-IsPrintable = ground arith

parse_version_spec-print_example :
    parse_version_spec (print_restrictions (half_open ∷ below ∷ []))
    ≡ some (record { newest = false; restrictions = half_open ∷ below ∷ [] })
parse_version_spec-print_example =
    parse_version_spec-print half_open (below ∷ []) printed-IsPrintable

test_print : print_restrictions (half_open ∷ below ∷ []) ≡ codes "[1.0,1.2),(,0.5]"
unfolding print_restrictions print_restriction
test_print = refl

abbrev coordinates : Text → Text → Coordinates
coordinates artifact version = new_coordinates (codes "g") artifact version

abbrev depends : Text → Text → Text → DependencyDeclaration
depends artifact version scope = record {
  coordinates = coordinates artifact version;
  scope = scope;
  optional = false;
}

abbrev described : Text → Text → List DependencyDeclaration → PackageMetadata
described artifact version dependencies = record {
  coordinates = coordinates artifact version;
  description = [];
  homepage = [];
  scm_url = [];
  dependencies = dependencies;
  licenses = [];
  license_normalized = [];
}

-- `a` asks for a range of `b` and for `c` in version 1; `b` asks for `c` in version 2 and for `d`.
abbrev repository : List PackageMetadata
repository =
    described (codes "a") (codes "1") (
      depends (codes "b") (codes "[1,2)") []
      ∷ depends (codes "c") (codes "1") (codes "runtime")
      ∷ depends (codes "x") (codes "9") (codes "test")
      ∷ [])
    ∷ described (codes "b") (codes "1.5")
        (depends (codes "c") (codes "2") [] ∷ depends (codes "d") (codes "1") [] ∷ [])
    ∷ described (codes "b") (codes "2.0") []
    ∷ described (codes "c") (codes "1") []
    ∷ []

abbrev roots : List Coordinates
roots = coordinates (codes "a") (codes "1") ∷ []

abbrev sources : List PackageSource
sources = source_of (new_in_memory (codes "fixture") repository) ∷ []

abbrev state_of : Option Run → State
state_of none = start
state_of (some (running s)) = s
state_of (some (failed s e)) = s

abbrev final : State
final = state_of (resolve_transitive 9 roots sources)

resolving : Unit {0}
unfolding Resolver.evaluation Range.evaluation ordering satisfying select_version Memory.reading
    text_eq is_space
resolving = tt

resolved : resolve_transitive 9 roots sources ≡ some (running final)
unfolding resolving
resolved = refl

-- The nearer version of `c` won, and `d` is missing.
test_final :
    (map (λ (p : ResolvedPackage). coordinate_string p.coordinates) final.packages
      ≡ codes "g:a:1" ∷ codes "g:b:1.5" ∷ codes "g:c:1" ∷ [])
    × (map (λ (c : VersionConflict). c.rejected) final.conflicts ≡ codes "2" ∷ [])
    × (map (λ (m : MissingPackage). key m.coordinates) final.missing ≡ codes "g:d" ∷ [])
unfolding resolving
test_final = (refl, refl, refl)

resolve_transitive-closed_example :
    All (λ r. Provided 0 (key r) final) roots
    × All
        (λ p.
          All
            (λ d. propagates d ≡ true → Provided (p.depth + 1) (key d.coordinates) final)
            p.metadata.dependencies)
        final.packages
resolve_transitive-closed_example = resolve_transitive-closed 9 roots sources final resolved

resolve_transitive-consistent_example :
    Pairwise InOrder final.packages
    × All (IsDescribed sources) final.packages
    × All
        (λ c. (c.rejected ≢ c.selected) × ChosenAs c.conflict_key c.selected final)
        final.conflicts
resolve_transitive-consistent_example = resolve_transitive-consistent 9 roots sources final resolved

resolve_transitive_total_example :
    (r : Run) × (resolve_transitive (length (known_keys roots repository) + 1) roots sources
      ≡ some r)
resolve_transitive_total_example =
    resolve_transitive_total (known_keys roots repository) roots sources
      (in_memory-KnowsWithin (codes "fixture") roots repository) (roots-Within roots repository)

resolve_in_memory_total_example :
    (r : Run) × (resolve_transitive (length (known_keys roots repository) + 1) roots sources
      ≡ some r)
resolve_in_memory_total_example = resolve_in_memory_total (codes "fixture") roots repository

in_memory_scan_example :
    (list_versions (new_in_memory (codes "fixture") repository) (codes "g") (codes "b")
      ≡ ok (
          map
            (λ (p : PackageMetadata). p.coordinates.version)
            (with_key (key (new_coordinates (codes "g") (codes "b") [])) repository)))
    × ((answer : Option PackageMetadata)
      × (get_metadata
            (new_in_memory (codes "fixture") repository)
            (coordinates (codes "a") (codes "1"))
          ≡ ok answer)
      × FirstAsked (coordinates (codes "a") (codes "1")) repository answer)
in_memory_scan_example =
    in_memory_scan (codes "fixture") repository (codes "g") (codes "b")
      (coordinates (codes "a") (codes "1"))
