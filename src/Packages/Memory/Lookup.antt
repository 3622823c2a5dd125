-- ===== src/Packages/Memory/Lookup.antt =====
-- An in-memory source answers as a scan of the list that it is built from would
-- (togo/internal/packages/resolver.go).
use mathlib.Core.List.{foldl}
use cappu.Base.{
  ok, ◌++◌, List, [], ◌∷◌, map, if◌then◌else◌, Text, text_eq, text_eq_iff, append_assoc, append-nil,
  ◌≡◌, arith, Bool-cases, inl, inr, Option, none, some, false, ◌⊎◌, All, ap, refl, if_cases,
}
use cappu.Packages.Domain.{Coordinates, coordinate_string, key, new_coordinates, PackageMetadata}
use cappu.Packages.Memory.{
  InMemoryPackageSource, list_of, append_at, add_pkg, new_in_memory, list_versions, first_with,
  get_metadata,
}

-- The packages with a key, in their order.
unfoldable pub with_key : Text → List PackageMetadata → List PackageMetadata
with_key k [] = []
with_key k (p ∷ pkgs) =
    let rest = with_key k pkgs in if text_eq (key p.coordinates) k then p ∷ rest else rest

list_of-append_at :
    (k j : Text) (pkg : PackageMetadata) (m : List (Text × List PackageMetadata))
    → list_of j (append_at k pkg m) ≡ (if text_eq k j then list_of j m ++ pkg ∷ [] else list_of j m)
unfolding list_of append_at
list_of-append_at k j pkg [] = ground arith
list_of-append_at k j pkg ((i, list) ∷ m) =
    ground (arith, text_eq_iff k j, text_eq_iff i k, text_eq_iff i j, list_of-append_at k j pkg m)

list_of-foldl :
    (k : Text) (pkgs : List PackageMetadata) (s : InMemoryPackageSource)
    → list_of k (foldl add_pkg s pkgs).by_key ≡ list_of k s.by_key ++ with_key k pkgs
unfolding add_pkg with_key
list_of-foldl k [] s = rw append-nil
list_of-foldl k (p ∷ pkgs) s = elim (Bool-cases (text_eq (key p.coordinates) k)) [
  | inl e ↦
      rw (list_of-foldl k pkgs (add_pkg s p), list_of-append_at (key p.coordinates) k p s.by_key, e)
        (append_assoc (list_of k s.by_key) (p ∷ []) (with_key k pkgs))
  | inr e ↦
      rw (list_of-foldl k pkgs (add_pkg s p), list_of-append_at (key p.coordinates) k p s.by_key, e)
]

pub list_of-new :
    (k : Text) (name : Text) (pkgs : List PackageMetadata)
    → list_of k (new_in_memory name pkgs).by_key ≡ with_key k pkgs
unfolding new_in_memory list_of
list_of-new k name pkgs = list_of-foldl k pkgs _

pub get_metadata-new :
    (name : Text) (pkgs : List PackageMetadata) (c : Coordinates)
    → get_metadata (new_in_memory name pkgs) c ≡ ok (first_with c (with_key (key c) pkgs))
unfolding get_metadata
get_metadata-new name pkgs c = rw list_of-new

-- A package with the key and the "group:artifact:version" of the coordinates.
abbrev pub IsAsked : Coordinates → PackageMetadata → Type 0
IsAsked c p =
    (key p.coordinates ≡ key c) × (coordinate_string p.coordinates ≡ coordinate_string c)

-- The answer is the first package of the list that is asked for, or none where there is none.
abbrev pub FirstAsked : Coordinates → List PackageMetadata → Option PackageMetadata → Type 0
FirstAsked c pkgs answer =
    ((answer ≡ none) × All (λ p. ¬ IsAsked c p) pkgs)
    ⊎ ((before : List PackageMetadata)
      × (p : PackageMetadata)
      × (after : List PackageMetadata)
      × (pkgs ≡ before ++ p ∷ after)
      × IsAsked c p
      × All (λ q. ¬ IsAsked c q) before
      × (answer ≡ some p))

-- A package in front that is not asked for.
FirstAsked-cons :
    (c : Coordinates) (p : PackageMetadata) (pkgs : List PackageMetadata)
    (answer : Option PackageMetadata)
    → ¬ IsAsked c p
    → FirstAsked c pkgs answer
    → FirstAsked c (p ∷ pkgs) answer
FirstAsked-cons c p pkgs answer n (inl (e, h)) = inl (e, (n, h))
FirstAsked-cons c p pkgs answer n (inr (before, q, after, e, asked, h, found)) =
    inr (p ∷ before, q, after, ap (λ l. p ∷ l) e, asked, (n, h), found)

first_with-FirstAsked :
    (c : Coordinates) (pkgs : List PackageMetadata)
    → FirstAsked c pkgs (first_with c (with_key (key c) pkgs))
unfolding first_with with_key
first_with-FirstAsked c [] = inl (refl, tt)
first_with-FirstAsked c (p ∷ pkgs) =
    if_cases (λ l. FirstAsked c (p ∷ pkgs) (first_with c l)) (text_eq (key p.coordinates) (key c))
      (λ k.
        if_cases (FirstAsked c (p ∷ pkgs))
          (text_eq (coordinate_string p.coordinates) (coordinate_string c))
          (λ e.
            inr (
              [],
              p,
              pkgs,
              refl,
              ((text_eq_iff _ _).0 k, (text_eq_iff _ _).0 e),
              tt,
              refl,
            ))
          (λ e.
            FirstAsked-cons c p pkgs _ (λ asked. differ _ _ e asked.1)
              (first_with-FirstAsked c pkgs)))
      (λ k.
        FirstAsked-cons c p pkgs _ (λ asked. differ _ _ k asked.0) (first_with-FirstAsked c pkgs)) where
  differ : (a b : Text) → text_eq a b ≡ false → a ≡ b → ⊥
  differ a b e h = ground (arith, e, (text_eq_iff a b).1 h)

-- For every list of packages, `ListVersions` gives the versions of those with the asked key, in the
-- order of the list, and `GetMetadata` the first one in the list that has the asked key and the asked
-- "group:artifact:version", or no package where none has them.
pub in_memory_scan :
    (name : Text) (pkgs : List PackageMetadata) (group_id artifact_id : Text) (c : Coordinates)
    → (list_versions (new_in_memory name pkgs) group_id artifact_id
        ≡ ok (
            map
              (λ (p : PackageMetadata). p.coordinates.version)
              (with_key (key (new_coordinates group_id artifact_id [])) pkgs)))
      × ((answer : Option PackageMetadata)
        × (get_metadata (new_in_memory name pkgs) c ≡ ok answer)
        × FirstAsked c pkgs answer)
unfolding list_versions
in_memory_scan name pkgs group_id artifact_id c = (
  rw list_of-new,
  (
    first_with c (with_key (key c) pkgs),
    get_metadata-new name pkgs c,
    first_with-FirstAsked c pkgs,
  ),
)
