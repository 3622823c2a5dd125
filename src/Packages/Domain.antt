-- ===== src/Packages/Domain.antt =====
-- The package domain model (togo/internal/packages/types.go): coordinates, metadata, and the
-- interface of a package source.
use cappu.Base.{
  Result, ◌++◌, Bool, Option, List, [], ◌∷◌, Text, codes, is_empty, if◌then◌else◌, ◌≡◌, refl,
}

-- Exact coordinates of one package version; the classifier is "" when absent.
pub record Coordinates : Type 0 where
  pub group_id : Text
  pub artifact_id : Text
  pub version : Text
  pub classifier : Text

-- "group:artifact:version"
unfoldable pub coordinate_string : Coordinates → Text
coordinate_string c = c.group_id ++ b':' ∷ (c.artifact_id ++ b':' ∷ c.version)

-- "group:artifact", the key under which versions conflict
unfoldable pub key : Coordinates → Text
key c = c.group_id ++ b':' ∷ c.artifact_id

abbrev pub new_coordinates : Text → Text → Text → Coordinates
new_coordinates group_id artifact_id version = record {
  group_id = group_id;
  artifact_id = artifact_id;
  version = version;
  classifier = [];
}

unfoldable pub with_classifier : Coordinates → Text → Coordinates
with_classifier c classifier = record c { classifier = classifier }

-- "artifact-version[-classifier].jar"
unfoldable pub artifact_jar_name : Coordinates → Text
artifact_jar_name c =
    let suffix = if is_empty c.classifier then [] else b'-' ∷ c.classifier in
    c.artifact_id ++ b'-' ∷ (c.version ++ (suffix ++ codes ".jar"))

-- A dependency as a package declares it.
pub record DependencyDeclaration : Type 0 where
  pub coordinates : Coordinates
  pub scope : Text
  pub optional : Bool

pub record License : Type 0 where
  pub name : Text
  pub url : Text

pub record PackageMetadata : Type 0 where
  pub coordinates : Coordinates
  pub description : Text
  pub homepage : Text
  pub scm_url : Text
  pub dependencies : List DependencyDeclaration
  pub licenses : List License
  pub license_normalized : List Text

-- The methods of the interface `PackageSource` that a resolution calls. A source answers every call alike: the reads of one resolution see
-- one state of the repository.
pub record PackageSource : Type 0 where
  pub name : Text
  pub list_versions : Text → Text → Result (List Text)
  pub get_metadata : Coordinates → Result (Option PackageMetadata)

test_jar_name :
    artifact_jar_name (with_classifier (new_coordinates [] (codes "a") (codes "1")) (codes "x"))
    ≡ codes "a-1-x.jar"
unfolding artifact_jar_name with_classifier
test_jar_name = refl
