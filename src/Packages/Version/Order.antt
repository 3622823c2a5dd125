-- ===== src/Packages/Version/Order.antt =====
-- The ordering of versions: opposite results for swapped arguments, and where it is transitive.
use cappu.Base.{
  ℕ, Ordering, true, Option, none, some, List, [], ◌∷◌, ◌++◌, map, flip, first_of_two, Text,
  text_compare-flip, ◌≡◌, refl, arith, compare-flip, append_assoc,
}
use mathlib.Core.List.{map-append}
use cappu.Packages.Version.{
  Segment, num, qual, is_separator, to_lower, split_separators, parts_segments, segments_of,
  qualifier_rank, compare_ranked, compare_qualifier, compare_to_missing, compare_segment,
  compare_segments, compare_versions,
}

compare_ranked-flip :
    (x y : Option ℕ) (a b : Text) → compare_ranked x y a b ≡ flip (compare_ranked y x b a)
compare_ranked-flip (some x) (some y) a b = compare-flip x y
compare_ranked-flip (some x) none a b = refl
compare_ranked-flip none (some y) a b = refl
compare_ranked-flip none none a b = text_compare-flip a b

compare_qualifier-flip : (a b : Text) → compare_qualifier a b ≡ flip (compare_qualifier b a)
unfolding compare_qualifier
compare_qualifier-flip a b = compare_ranked-flip (qualifier_rank a) (qualifier_rank b) a b

compare_segment-flip : (a b : Option Segment) → compare_segment a b ≡ flip (compare_segment b a)
unfolding compare_segment
compare_segment-flip none none = refl
compare_segment-flip none (some b) = refl
compare_segment-flip (some a) none = ground (arith, compare_to_missing a)
compare_segment-flip (some (num a)) (some (num b)) = compare-flip a b
compare_segment-flip (some (num a)) (some (qual b)) = refl
compare_segment-flip (some (qual a)) (some (num b)) = refl
compare_segment-flip (some (qual a)) (some (qual b)) = compare_qualifier-flip a b

flip-first_of_two :
    (a b c d : Ordering) → a ≡ flip b → c ≡ flip d → first_of_two a c ≡ flip (first_of_two b d)
flip-first_of_two a Ordering.lt c d p q = rw p
flip-first_of_two a Ordering.eq c d p q = rw p q
flip-first_of_two a Ordering.gt c d p q = rw p

pub compare_segments-flip :
    (a b : List Segment) → compare_segments a b ≡ flip (compare_segments b a)
unfolding compare_segments
compare_segments-flip [] [] = refl
compare_segments-flip [] (y ∷ ys) =
    flip-first_of_two _ _ _ _ (compare_segment-flip none (some y)) (compare_segments-flip [] ys)
compare_segments-flip (x ∷ xs) [] =
    flip-first_of_two _ _ _ _ (compare_segment-flip (some x) none) (compare_segments-flip xs [])
compare_segments-flip (x ∷ xs) (y ∷ ys) =
    flip-first_of_two _ _ _ _ (compare_segment-flip (some x) (some y)) (compare_segments-flip xs ys)

-- For all texts, swapping the arguments of `CompareVersions` negates its result, and a version
-- compares as equal to itself.
pub compare_versions-flip :
    (a b : Text)
    → (compare_versions a b ≡ flip (compare_versions b a)) × (compare_versions a a ≡ Ordering.eq)
unfolding compare_versions
compare_versions-flip a b = (
  compare_segments-flip (segments_of a) (segments_of b),
  ground (arith, compare_segments-flip (segments_of a) (segments_of a)),
)

-- A separator cuts a version into two.
split_separators-append :
    (part s : Text) (c : ℕ) (t : Text)
    → is_separator c ≡ true
    → split_separators part (s ++ c ∷ t) ≡ split_separators part s ++ split_separators [] t
unfolding split_separators
split_separators-append part [] c t h = rw h
split_separators-append part (d ∷ s) c t h =
    ground
      (arith, split_separators-append [] s c t h, split_separators-append (part ++ d ∷ []) s c t h)

parts_segments-append :
    (ps qs : List Text) → parts_segments (ps ++ qs) ≡ parts_segments ps ++ parts_segments qs
unfolding parts_segments
parts_segments-append [] qs = refl
parts_segments-append (p ∷ ps) qs = simp (parts_segments-append ps qs, append_assoc)

to_lower-separator : (c : ℕ) → is_separator c ≡ true → to_lower c ≡ c
unfolding is_separator to_lower
to_lower-separator c h = ground arith

pub segments_of-append :
    (v : Text) (c : ℕ) (w : Text)
    → is_separator c ≡ true
    → segments_of (v ++ c ∷ w) ≡ segments_of v ++ segments_of w
unfolding segments_of
segments_of-append v c w h =
    rw (map-append, to_lower-separator c h, split_separators-append [] (map to_lower v) c _ h)
      (parts_segments-append (split_separators [] (map to_lower v)) _)

compare_segments_self : (xs : List Segment) → compare_segments xs xs ≡ Ordering.eq
compare_segments_self xs = ground (arith, compare_segments-flip xs xs)

compare_segment_self : (x : Option Segment) → compare_segment x x ≡ Ordering.eq
compare_segment_self x = ground (arith, compare_segment-flip x x)

-- A common prefix does not count.
pub compare_segments_prefix :
    (p xs ys : List Segment) → compare_segments (p ++ xs) (p ++ ys) ≡ compare_segments xs ys
unfolding compare_segments
compare_segments_prefix [] xs ys = refl
compare_segments_prefix (s ∷ p) xs ys =
    rw (compare_segment_self (some s)) (compare_segments_prefix p xs ys)
