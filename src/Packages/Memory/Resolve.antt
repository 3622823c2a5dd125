-- ===== src/Packages/Memory/Resolve.antt =====
-- Resolution over in-memory sources ends (togo/internal/packages/resolver.go).
use cappu.Base.{
  Result, ok, ◌+◌, ◌++◌, Option, none, some, List, [], ◌∷◌, map, Text, length, text_eq, In, All,
  All_map, ◌≡◌, refl, ap, Bool-cases, inl, inr, subst,
}
use cappu.Packages.Domain.{
  Coordinates, coordinate_string, key, DependencyDeclaration, PackageMetadata, PackageSource,
}
use cappu.Packages.Resolver.{Run, metadata_from, resolve_transitive}
use cappu.Packages.Resolver.Termination.{KnowsWithin, resolve_transitive_total}
use cappu.Packages.Memory.{new_in_memory, first_with, source_of}
use cappu.Packages.Memory.Lookup.{with_key, get_metadata-new}

declared_keys : List DependencyDeclaration → List Text
declared_keys = map (λ (d : DependencyDeclaration). key d.coordinates)

-- The keys of all declared dependencies.
dependency_keys : List PackageMetadata → List Text
dependency_keys [] = []
dependency_keys (p ∷ pkgs) = declared_keys p.dependencies ++ dependency_keys pkgs

-- Every package that a resolution can meet.
pub known_keys : List Coordinates → List PackageMetadata → List Text
known_keys roots pkgs = map key roots ++ dependency_keys pkgs

module _ {ℓ} {A : Type ℓ} {x : A} where
  In-append_left : {xs : List A} (ys : List A) → In x xs → In x (xs ++ ys)
  In-append_left ys (In.here e) = In.here e
  In-append_left ys (In.there m) = In.there (In-append_left ys m)

  In-append_right : (xs : List A) {ys : List A} → In x ys → In x (xs ++ ys)
  In-append_right [] m = m
  In-append_right (y ∷ xs) m = In.there (In-append_right xs m)

declared-In :
    (deps : List DependencyDeclaration)
    → All (λ d. In (key d.coordinates) (declared_keys deps)) deps
unfolding declared_keys
declared-In [] = tt
declared-In (d ∷ deps) = (In.here refl, All_map deps (λ e m. In.there m) (declared-In deps))

AllDeclared : List Text → PackageMetadata → Type 0
AllDeclared keys p = All (λ d. In (key d.coordinates) keys) p.dependencies

dependency-In : (pkgs : List PackageMetadata) → All (AllDeclared (dependency_keys pkgs)) pkgs
unfolding dependency_keys AllDeclared
dependency-In [] = tt
dependency-In (p ∷ pkgs) = (
  All_map p.dependencies (λ d m. In-append_left _ m) (declared-In p.dependencies),
  All_map pkgs
      (λ q h. All_map q.dependencies (λ d m. In-append_right (declared_keys p.dependencies) m) h)
      (dependency-In pkgs),
)

with_key-All :
    (P : PackageMetadata → Type 0) (k : Text) (pkgs : List PackageMetadata)
    → All P pkgs
    → All P (with_key k pkgs)
unfolding with_key
with_key-All P k [] h = tt
with_key-All P k (p ∷ pkgs) (hp, h) = elim (Bool-cases (text_eq (key p.coordinates) k)) [
  | inl e ↦ rw (e, with_key) (hp, with_key-All P k pkgs h)
  | inr e ↦ rw (e, with_key) (with_key-All P k pkgs h)
]

some_metadata-injective : {x y : PackageMetadata} → some x ≡ some y → x ≡ y
some_metadata-injective e = cc

first_with-All :
    (P : PackageMetadata → Type 0) (c : Coordinates) (pkgs : List PackageMetadata)
    {meta : PackageMetadata}
    → All P pkgs
    → first_with c pkgs ≡ some meta
    → P meta
unfolding first_with
first_with-All P c [] h e = cc
first_with-All P c (p ∷ pkgs) {meta} (hp, h) e =
    elim (Bool-cases (text_eq (coordinate_string p.coordinates) (coordinate_string c))) [
      | inl f ↦ subst P (some_metadata-injective (rw (f, first_with) at e)) hp
      | inr f ↦ first_with-All P c pkgs h (rw (f, first_with) at e)
    ]

ok_pair-injective :
    {a b : Text} {x y : PackageMetadata}
    → ◌≡◌ {A = Result (Option (PackageMetadata × Text))} (ok (some (x, a))) (ok (some (y, b)))
    → x ≡ y
ok_pair-injective e = cc

-- One source whose answer is known.
metadata_from_one :
    (source : PackageSource) (c : Coordinates) (answer : Option PackageMetadata)
    {meta : PackageMetadata} {name : Text}
    → source.get_metadata c ≡ ok answer
    → metadata_from (source ∷ []) c ≡ ok (some (meta, name))
    → answer ≡ some meta
unfolding metadata_from
metadata_from_one source c none f e = cc (rw (f, metadata_from) at e)
metadata_from_one source c (some m) f e = ap some (ok_pair-injective (rw (f, metadata_from) at e))

pub in_memory-KnowsWithin :
    (name : Text) (roots : List Coordinates) (pkgs : List PackageMetadata)
    → KnowsWithin (known_keys roots pkgs) (source_of (new_in_memory name pkgs) ∷ [])
unfolding known_keys AllDeclared
in_memory-KnowsWithin name roots pkgs c meta source e =
    let found =
      metadata_from_one (source_of (new_in_memory name pkgs)) c _
        (get_metadata-new name pkgs c) e in
    All_map meta.dependencies (λ d m prop. In-append_right (map key roots) m)
      (first_with-All (AllDeclared (dependency_keys pkgs)) c _
        (with_key-All (AllDeclared (dependency_keys pkgs)) (key c) pkgs (dependency-In pkgs)) found)

roots-In :
    (roots : List Coordinates) (more : List Text)
    → All (λ r. In (key r) (map key roots ++ more)) roots
roots-In [] more = tt
roots-In (r ∷ roots) more = (In.here refl, All_map roots (λ q m. In.there m) (roots-In roots more))

pub roots-Within :
    (roots : List Coordinates) (pkgs : List PackageMetadata)
    → All (λ r. In (key r) (known_keys roots pkgs)) roots
unfolding known_keys
roots-Within roots pkgs = roots-In roots (dependency_keys pkgs)

-- Resolving any roots against an in-memory source ends, with a result or an error, within one more
-- level than there are roots and declared dependencies.
pub resolve_in_memory_total :
    (name : Text) (roots : List Coordinates) (pkgs : List PackageMetadata)
    → (r : Run) × (resolve_transitive
          (length (known_keys roots pkgs) + 1)
          roots
          (source_of (new_in_memory name pkgs) ∷ [])
        ≡ some r)
resolve_in_memory_total name roots pkgs =
    resolve_transitive_total (known_keys roots pkgs) roots _ (in_memory-KnowsWithin name roots pkgs)
      (roots-Within roots pkgs)
