-- ===== src/Packages/Version.antt =====
-- Maven-style version ordering (togo/internal/packages/version_range.go).
pub mod Order
pub mod Preorder
use cappu.Base.{
  ℕ, zero, suc, ◌+◌, ◌-◌, ◌*◌, compare, Ordering, Bool, true, false, ◌&&◌, ◌||◌, Option, none, some,
  List, [], ◌∷◌, ◌++◌, map, ltb, leb, ◌==◌, if◌then◌else◌, flip, first_of_two, Text, codes, text_eq,
  text_compare, ◌≡◌, refl,
}

-- A number piece, or a qualifier piece (the source's `num` is nil).
pub data Segment : Type 0 where
  num : ℕ → Segment
  qual : Text → Segment

unfoldable pub is_digit : ℕ → Bool
is_digit c = leb b'0' c && leb c b'9'

unfoldable pub is_letter : ℕ → Bool
is_letter c = leb b'a' c && leb c b'z'

unfoldable pub is_separator : ℕ → Bool
is_separator c = c == b'.' || c == b'-' || c == b'_' || c == b'+'

-- strings.ToLower at one code point. Of the code points outside ASCII only U+0130 and U+212A have a
-- lower case in ASCII; the others stay outside it, where the patterns below skip them all alike.
unfoldable pub to_lower : ℕ → ℕ
to_lower c =
    if leb b'A' c && leb c b'Z'
    then c + 32
    else if c == 0x130
    then b'i'
    else if c == 0x212a
    then b'k'
    else c

-- splitRe.Split: the parts between separators, the current part first.
unfoldable pub split_separators : Text → Text → List Text
unfolding is_separator
split_separators part [] = part ∷ []
split_separators part (c ∷ s) =
    let cut = split_separators [] s in
    let grow = split_separators (part ++ c ∷ []) s in if is_separator c then part ∷ cut else grow

-- What a piece being matched consists of.
pub data Run : Type 0 where
  digits : Run
  letters : Run
  outside : Run

unfoldable pub run_of : ℕ → Run
unfolding is_digit is_letter
run_of c = if is_digit c then digits else if is_letter c then letters else outside

abbrev pub same_run : Run → Run → Bool
same_run digits digits = true
same_run letters letters = true
same_run _ _ = false

abbrev pub emit : Run → Text → List Text
emit outside piece = []
emit digits piece = piece ∷ []
emit letters piece = piece ∷ []

-- pieceRe.FindAllString: the longest runs of digits or of letters, from left to right.
unfoldable pub find_pieces : Run → Text → Text → List Text
unfolding run_of
find_pieces run piece [] = emit run piece
find_pieces run piece (c ∷ s) =
    let longer = find_pieces run (piece ++ c ∷ []) s in
    let fresh = find_pieces (run_of c) (c ∷ []) s in
    if same_run run (run_of c) then longer else emit run piece ++ fresh

-- digitRe.MatchString
unfoldable pub all_digits : Text → Bool
unfolding is_digit
all_digits [] = false
all_digits (c ∷ []) = is_digit c
all_digits (c ∷ d ∷ s) = is_digit c && all_digits (d ∷ s)

-- big.Int.SetString(piece, 10)
unfoldable pub set_string : ℕ → Text → ℕ
set_string n [] = n
set_string n (c ∷ s) = set_string (n * 10 + (c - b'0')) s

unfoldable pub segment_of : Text → Segment
unfolding all_digits set_string
segment_of piece = if all_digits piece then num (set_string 0 piece) else qual piece

-- One part between separators; an empty one is skipped.
unfoldable pub part_segments : Text → List Segment
unfolding find_pieces segment_of
part_segments [] = []
part_segments (c ∷ s) = map segment_of (find_pieces outside [] (c ∷ s))

unfoldable pub parts_segments : List Text → List Segment
unfolding part_segments
parts_segments [] = []
parts_segments (part ∷ parts) = part_segments part ++ parts_segments parts

unfoldable pub segments_of : Text → List Segment
unfolding split_separators parts_segments to_lower
segments_of version = parts_segments (split_separators [] (map to_lower version))

-- `qualifierRank`, every rank written plus 6: only the order of ranks is used.
abbrev pub release_rank : ℕ
release_rank = 6

abbrev pub rank_table : List (Text × ℕ)
rank_table =
    (codes "alpha", 0)
    ∷ (codes "a", 0)
    ∷ (codes "beta", 1)
    ∷ (codes "b", 1)
    ∷ (codes "milestone", 2)
    ∷ (codes "m", 2)
    ∷ (codes "rc", 3)
    ∷ (codes "cr", 3)
    ∷ (codes "snapshot", 4)
    ∷ ([], 6)
    ∷ (codes "ga", 6)
    ∷ (codes "final", 6)
    ∷ (codes "release", 6)
    ∷ (codes "sp", 7)
    ∷ []

unfoldable pub find_rank : Text → List (Text × ℕ) → Option ℕ
unfolding text_eq
find_rank q [] = none
find_rank q ((name, rank) ∷ table) = if text_eq name q then some rank else find_rank q table

unfoldable pub qualifier_rank : Text → Option ℕ
unfolding find_rank
qualifier_rank q = find_rank q rank_table

-- By rank where both are known; a known one before an unknown one; else lexically.
abbrev pub compare_ranked : Option ℕ → Option ℕ → Text → Text → Ordering
compare_ranked (some ar) (some br) aq bq = compare ar br
compare_ranked (some ar) none aq bq = Ordering.lt
compare_ranked none (some br) aq bq = Ordering.gt
compare_ranked none none aq bq = text_compare aq bq

unfoldable pub compare_qualifier : Text → Text → Ordering
compare_qualifier aq bq = compare_ranked (qualifier_rank aq) (qualifier_rank bq) aq bq

unfoldable pub compare_to_missing : Segment → Ordering
compare_to_missing (num n) = compare n 0
compare_to_missing (qual q) = compare_qualifier q []

unfoldable pub compare_segment : Option Segment → Option Segment → Ordering
unfolding compare_to_missing
compare_segment none none = Ordering.eq
compare_segment none (some b) = flip (compare_to_missing b)
compare_segment (some a) none = compare_to_missing a
compare_segment (some (num a)) (some (num b)) = compare a b
compare_segment (some (num a)) (some (qual b)) = Ordering.gt
compare_segment (some (qual a)) (some (num b)) = Ordering.lt
compare_segment (some (qual a)) (some (qual b)) = compare_qualifier a b

-- The loop over the positions of the longer list.
unfoldable pub compare_segments : List Segment → List Segment → Ordering
unfolding compare_segment
compare_segments [] [] = Ordering.eq
compare_segments [] (b ∷ bs) = first_of_two (compare_segment none (some b)) (compare_segments [] bs)
compare_segments (a ∷ as') [] =
    first_of_two (compare_segment (some a) none) (compare_segments as' [])
compare_segments (a ∷ as') (b ∷ bs) =
    first_of_two (compare_segment (some a) (some b)) (compare_segments as' bs)

unfoldable pub compare_versions : Text → Text → Ordering
compare_versions a b = compare_segments (segments_of a) (segments_of b)

test_segments :
    segments_of (codes "1.0-RC1..x")
    ≡ num 1 ∷ num 0 ∷ qual (codes "rc") ∷ num 1 ∷ qual (codes "x") ∷ []
unfolding segments_of
test_segments = refl

test_compare : compare_versions (codes "1.10") (codes "1.9.1-SNAPSHOT") ≡ Ordering.gt
unfolding compare_versions segments_of compare_segments
test_compare = refl

test_missing : compare_versions (codes "1.0-alpha") (codes "1") ≡ Ordering.lt
unfolding compare_versions segments_of compare_segments compare_qualifier qualifier_rank
test_missing = refl
