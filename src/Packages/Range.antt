-- ===== src/Packages/Range.antt =====
-- Maven version ranges: parsing, membership and the selection of a published version
-- (togo/internal/packages/version_range.go), and the specs of `cappu add` (versions.go).
pub mod Select
pub mod RoundTrip
use cappu.Base.{
  ℕ, ◌++◌, Ordering, Bool, true, false, not, ◌&&◌, ◌||◌, Option, none, some, List, [], ◌∷◌, ◌==◌,
  if◌then◌else◌, Text, codes, text_eq, has_prefix, is_empty, ends_with, drop_last, cut, trim_space,
  ℤ, pos, increment, decrement, is_zero, ◌≡◌, refl,
}
use mathlib.Core.List.{reverse}
use cappu.Packages.Version.{compare_versions}

pub record Restriction : Type 0 where
  pub lower : Text
  pub lower_inclusive : Bool
  pub upper : Text
  pub upper_inclusive : Bool
  pub has_lower : Bool
  pub has_upper : Bool

pub record VersionSpec : Type 0 where
  pub newest : Bool
  pub restrictions : List Restriction

abbrev starts_with : Text → ℕ → Bool
starts_with [] d = false
starts_with (c ∷ s) d = c == d

-- text[1 : len(text)-1]; it is read only where the text has an opening and a closing bracket.
unfoldable pub inner_of : Text → Text
unfolding drop_last
inner_of [] = []
inner_of (c ∷ s) = drop_last s

-- [1.5] is a single hard version
unfoldable pub single_version : Bool → Bool → Text → Option Restriction
single_version lower_inclusive upper_inclusive inner =
    if not lower_inclusive || not upper_inclusive || is_empty inner
    then none
    else some (record {
      lower = inner;
      lower_inclusive = true;
      upper = inner;
      upper_inclusive = true;
      has_lower = true;
      has_upper = true;
    })

unfoldable pub bounds : Bool → Bool → Text → Text → Restriction
unfolding trim_space
bounds lower_inclusive upper_inclusive before behind =
    let lower = trim_space before in
    let upper = trim_space behind in
    record {
      lower = lower;
      lower_inclusive = lower_inclusive;
      upper = upper;
      upper_inclusive = upper_inclusive;
      has_lower = not (is_empty lower);
      has_upper = not (is_empty upper);
    }

unfoldable pub parse_restriction : Text → Option Restriction
unfolding ends_with inner_of cut single_version bounds
parse_restriction text =
    let lower_inclusive = starts_with text b'[' in
    let upper_inclusive = ends_with text b']' in
    let opened = starts_with text b'[' || starts_with text b'(' in
    let closed = ends_with text b']' || ends_with text b')' in
    let inner = inner_of text in
    if not opened || not closed then none else elim (cut inner b',') [
      | none ↦ single_version lower_inclusive upper_inclusive inner
      | some (before, behind) ↦ some (bounds lower_inclusive upper_inclusive before behind)
    ]

unfoldable pub depth_after : ℕ → ℤ → ℤ
depth_after ch depth =
    if ch == b'[' || ch == b'('
    then increment depth
    else if ch == b']' || ch == b')'
    then decrement depth
    else depth

-- A part that is not empty adds a restriction, or fails.
unfoldable pub add_part : Text → List Restriction → Option (List Restriction)
unfolding trim_space
add_part raw restrictions =
    let part = trim_space raw in
    if is_empty part
    then some restrictions
    else elim (parse_restriction part) [ none ↦ none | some r ↦ some (restrictions ++ r ∷ []) ]

-- The loop over the characters; `part` is what stands since `start`.
unfoldable pub parse_parts : Text → ℤ → Text → List Restriction → Option (List Restriction)
unfolding depth_after add_part
parse_parts [] depth part restrictions = add_part part restrictions
parse_parts (ch ∷ s) depth part restrictions =
    let grow = parse_parts s (depth_after ch depth) (part ++ ch ∷ []) restrictions in
    let split : Option (List Restriction) = elim (add_part part restrictions) [
      | none ↦ none
      | some more ↦ parse_parts s (depth_after ch depth) [] more
    ] in
    if ch == b',' && is_zero (depth_after ch depth) then split else grow

abbrev spec_of : List Restriction → Option VersionSpec
spec_of [] = none
spec_of (r ∷ rs) = some (record { newest = false; restrictions = r ∷ rs })

-- `ParseVersionSpec` behind its call of `strings.TrimSpace`.
unfoldable pub parse_trimmed : Text → Option VersionSpec
unfolding text_eq
parse_trimmed trimmed =
    if text_eq trimmed (codes "RELEASE") || text_eq trimmed (codes "LATEST")
    then some (record { newest = true; restrictions = [] })
    else if not (starts_with trimmed b'[') && not (starts_with trimmed b'(')
    then none
    else elim (parse_parts trimmed (pos 0) [] []) [ none ↦ none | some rs ↦ spec_of rs ]

unfoldable pub parse_version_spec : Text → Option VersionSpec
parse_version_spec spec = parse_trimmed (trim_space spec)

abbrev is_below : Ordering → Bool → Bool
is_below Ordering.lt inclusive = true
is_below Ordering.eq inclusive = not inclusive
is_below Ordering.gt inclusive = false

abbrev is_above : Ordering → Bool → Bool
is_above Ordering.lt inclusive = false
is_above Ordering.eq inclusive = not inclusive
is_above Ordering.gt inclusive = true

unfoldable pub within_restriction : Restriction → Text → Bool
within_restriction r version =
    if r.has_lower && is_below (compare_versions version r.lower) r.lower_inclusive
    then false
    else if r.has_upper && is_above (compare_versions version r.upper) r.upper_inclusive
    then false
    else true

unfoldable pub within_any : List Restriction → Text → Bool
within_any [] version = false
within_any (r ∷ rs) version = if within_restriction r version then true else within_any rs version

unfoldable pub satisfies : VersionSpec → Text → Bool
unfolding within_any
satisfies spec version = if spec.newest then true else within_any spec.restrictions version

abbrev is_after : Ordering → Bool
is_after Ordering.gt = true
is_after Ordering.eq = false
is_after Ordering.lt = false

-- One round of the loop of `SelectVersion`.
unfoldable pub better : VersionSpec → Text → Text → Text
better spec best version =
    if not (satisfies spec version)
    then best
    else if is_empty best || is_after (compare_versions version best)
    then version
    else best

unfoldable pub select_from : VersionSpec → Text → List Text → Text
unfolding better
select_from spec best [] = best
select_from spec best (version ∷ published) = select_from spec (better spec best version) published

unfoldable pub select_version : VersionSpec → List Text → Text
unfolding select_from
select_version spec published = select_from spec [] published

-- versions.go
unfoldable pub matches_version_spec : Text → Text → Bool
unfolding text_eq has_prefix
matches_version_spec spec version =
    text_eq version spec
    || has_prefix version (spec ++ b'.' ∷ [])
    || has_prefix version (spec ++ b'-' ∷ [])

-- The loop that collects the matches.
unfoldable pub matching : List Text → Text → List Text
unfolding matches_version_spec
matching [] spec = []
matching (v ∷ versions) spec =
    let rest = matching versions spec in
    if is_empty spec || matches_version_spec spec v then v ∷ rest else rest

unfoldable pub matching_versions : List Text → Text → List Text
unfolding matching
matching_versions versions spec = reverse (matching versions spec)

unfoldable pub evaluation : Unit {0}
unfolding parse_version_spec trim_space parse_trimmed parse_parts parse_restriction
evaluation = tt

test_parse :
    parse_version_spec (codes " [1.0, 2.0),[3] ")
    ≡ some (record {
      newest = false;
      restrictions =
          record {
            lower = codes "1.0";
            lower_inclusive = true;
            upper = codes "2.0";
            upper_inclusive = false;
            has_lower = true;
            has_upper = true;
          }
          ∷ record {
            lower = codes "3";
            lower_inclusive = true;
            upper = codes "3";
            upper_inclusive = true;
            has_lower = true;
            has_upper = true;
          }
          ∷ [];
    })
unfolding evaluation
test_parse = refl
