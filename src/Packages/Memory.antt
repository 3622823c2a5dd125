-- ===== src/Packages/Memory.antt =====
-- The in-memory package source (togo/internal/packages/resolver.go). Its `Search`, which lowers
-- Unicode text, is left out.
pub mod Lookup
pub mod Resolve
use mathlib.Core.List.{foldl}
use cappu.Base.{
  Result, ok, ℕ, ◌++◌, Bool, true, false, Option, none, some, List, [], ◌∷◌, map, length,
  if◌then◌else◌, Text, codes, text_eq, ◌≡◌, refl,
}
use cappu.Packages.Version.{to_lower}
use cappu.Packages.Domain.{
  Coordinates, coordinate_string, key, new_coordinates, PackageMetadata, PackageSource,
}

-- `by_key` is the map, with an entry for each key that `keys` lists in order of insertion.
pub record InMemoryPackageSource : Type 0 where
  pub name : Text
  pub by_key : List (Text × List PackageMetadata)
  pub keys : List Text

-- s.byKey[key]; the empty list where the key is absent
unfoldable pub list_of : Text → List (Text × List PackageMetadata) → List PackageMetadata
list_of k [] = []
list_of k ((j, list) ∷ m) = if text_eq j k then list else list_of k m

unfoldable pub has_key : Text → List (Text × List PackageMetadata) → Bool
has_key k [] = false
has_key k ((j, list) ∷ m) = if text_eq j k then true else has_key k m

-- s.byKey[key] = append(s.byKey[key], pkg)
unfoldable pub append_at :
    Text → PackageMetadata → List (Text × List PackageMetadata) → List (Text × List PackageMetadata)
append_at k pkg [] = (k, pkg ∷ []) ∷ []
append_at k pkg ((j, list) ∷ m) =
    if text_eq j k then (j, list ++ pkg ∷ []) ∷ m else (j, list) ∷ append_at k pkg m

unfoldable pub add_pkg : InMemoryPackageSource → PackageMetadata → InMemoryPackageSource
add_pkg s pkg =
    let k = key pkg.coordinates in
    record s {
      by_key = append_at k pkg s.by_key;
      keys = if has_key k s.by_key then s.keys else s.keys ++ k ∷ [];
    }

unfoldable pub new_in_memory : Text → List PackageMetadata → InMemoryPackageSource
new_in_memory name = foldl add_pkg (record { name = name; by_key = []; keys = [] })

unfoldable pub list_versions : InMemoryPackageSource → Text → Text → Result (List Text)
list_versions s group_id artifact_id = ok (
    map (λ (p : PackageMetadata). p.coordinates.version)
      (list_of (key (new_coordinates group_id artifact_id [])) s.by_key))

-- The first package of the list with the same "group:artifact:version".
unfoldable pub first_with : Coordinates → List PackageMetadata → Option PackageMetadata
first_with c [] = none
first_with c (p ∷ list) =
    if text_eq (coordinate_string p.coordinates) (coordinate_string c)
    then some p
    else first_with c list

unfoldable pub get_metadata : InMemoryPackageSource → Coordinates → Result (Option PackageMetadata)
get_metadata s c = ok (first_with c (list_of (key c) s.by_key))

-- The source as the interface sees it.
abbrev pub source_of : InMemoryPackageSource → PackageSource
source_of s = record {
  name = s.name;
  list_versions = list_versions s;
  get_metadata = get_metadata s;
}

unfoldable pub reading : Unit {0}
unfolding text_eq new_in_memory add_pkg append_at has_key list_versions get_metadata first_with
    list_of coordinate_string key
reading = tt
