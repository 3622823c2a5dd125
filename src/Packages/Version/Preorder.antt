-- ===== src/Packages/Version/Preorder.antt =====
-- Where `CompareVersions` is a total preorder, and the versions at which it is not.
use cappu.Base.{
  ℕ, ◌+◌, ◌<◌, compare, Ordering, Option, none, some, List, [], ◌∷◌, ◌++◌, map, first_of_two,
  AtMost, Text, codes, ◌≡◌, refl, sym, ap, arith, All, ◌∙◌, append-nil, Option-cases,
}
use cappu.Packages.Version.{
  Segment, num, qual, is_separator, segments_of, release_rank, qualifier_rank, compare_qualifier,
  compare_to_missing, compare_segment, compare_segments, compare_versions,
}
use cappu.Packages.Version.Order.{segments_of-append, compare_segments_prefix}

-- A number, or a qualifier that the table ranks before the release.
abbrev RankedBefore : Option ℕ → Type 0
RankedBefore none = ⊥
RankedBefore (some r) = r < release_rank

abbrev pub IsOrderly : Segment → Type 0
IsOrderly (num n) = Unit
IsOrderly (qual q) = RankedBefore (qualifier_rank q)

abbrev pub AllOrderly : Text → Type 0
AllOrderly version = All IsOrderly (segments_of version)

-- One number for a segment, with the release at `release_rank`.
or_release : Option ℕ → ℕ
or_release none = release_rank
or_release (some r) = r

key : Segment → ℕ
key (num n) = release_rank + n
key (qual q) = or_release (qualifier_rank q)

release-rank : qualifier_rank [] ≡ some release_rank
unfolding qualifier_rank
release-rank = refl

compare_to_missing-key :
    (s : Segment) → IsOrderly s → compare_to_missing s ≡ compare (key s) release_rank
unfolding compare_to_missing key compare_qualifier or_release
compare_to_missing-key (num n) h = ground arith
compare_to_missing-key (qual q) h =
    rw release-rank (ground (arith, Option-cases (qualifier_rank q)))

compare_segment-key :
    (s t : Segment)
    → IsOrderly s
    → IsOrderly t
    → compare_segment (some s) (some t) ≡ compare (key s) (key t)
unfolding compare_segment key compare_qualifier or_release
compare_segment-key (num m) (num n) h k = ground arith
compare_segment-key (num m) (qual q) h k = ground (arith, Option-cases (qualifier_rank q))
compare_segment-key (qual p) (num n) h k = ground (arith, Option-cases (qualifier_rank p))
compare_segment-key (qual p) (qual q) h k =
    ground (arith, Option-cases (qualifier_rank p), Option-cases (qualifier_rank q))

-- Keys compared position by position, the shorter list filled up with the release.
padded : List ℕ → List ℕ → Ordering
padded [] [] = Ordering.eq
padded [] (y ∷ ys) = first_of_two (compare release_rank y) (padded [] ys)
padded (x ∷ xs) [] = first_of_two (compare x release_rank) (padded xs [])
padded (x ∷ xs) (y ∷ ys) = first_of_two (compare x y) (padded xs ys)

compare_segments-padded :
    (xs ys : List Segment)
    → All IsOrderly xs
    → All IsOrderly ys
    → compare_segments xs ys ≡ padded (map key xs) (map key ys)
unfolding compare_segments padded compare_segment
compare_segments-padded [] [] h k = refl
compare_segments-padded [] (y ∷ ys) h (ky, ks) =
    ground (arith, compare_to_missing-key y ky, compare_segments-padded [] ys h ks)
compare_segments-padded (x ∷ xs) [] (hx, hs) k =
    ground (arith, compare_to_missing-key x hx, compare_segments-padded xs [] hs k)
compare_segments-padded (x ∷ xs) (y ∷ ys) (hx, hs) (ky, ks) =
    rw (compare_segment-key x y hx ky, compare_segments-padded xs ys hs ks)

padded_trans :
    (xs ys zs : List ℕ) → AtMost (padded xs ys) → AtMost (padded ys zs) → AtMost (padded xs zs)
unfolding padded
padded_trans [] [] [] p q = q
padded_trans [] [] (z ∷ zs) p q = q
padded_trans [] (y ∷ ys) [] p q = λ e. ground arith
padded_trans [] (y ∷ ys) (z ∷ zs) p q = λ e. ground (arith, padded_trans [] ys zs)
padded_trans (x ∷ xs) [] [] p q = p
padded_trans (x ∷ xs) [] (z ∷ zs) p q = λ e. ground (arith, padded_trans xs [] zs)
padded_trans (x ∷ xs) (y ∷ ys) [] p q = λ e. ground (arith, padded_trans xs ys [])
padded_trans (x ∷ xs) (y ∷ ys) (z ∷ zs) p q = λ e. ground (arith, padded_trans xs ys zs)

-- On versions that hold numbers and pre-release qualifiers only, `CompareVersions` is transitive:
-- from a at most b and b at most c it follows that a is at most c.
pub compare_versions_trans :
    (a b c : Text)
    → AllOrderly a
    → AllOrderly b
    → AllOrderly c
    → AtMost (compare_versions a b)
    → AtMost (compare_versions b c)
    → AtMost (compare_versions a c)
unfolding compare_versions
compare_versions_trans a b c ha hb hc p q =
    let as' = segments_of a in
    let bs = segments_of b in
    let cs = segments_of c in
    rw (compare_segments-padded as' cs ha hc) (
      padded_trans (map key as') (map key bs) (map key cs)
        (rw (compare_segments-padded as' bs ha hb) at p)
        (rw (compare_segments-padded bs cs hb hc) at q))

segments-zero : segments_of (codes "0") ≡ num 0 ∷ []
unfolding segments_of
segments-zero = refl

compare_segments_extend :
    (p xs : List Segment) → compare_segments (p ++ xs) p ≡ compare_segments xs []
compare_segments_extend p xs =
    ap (compare_segments (p ++ xs)) (sym (append-nil p)) ∙ compare_segments_prefix p xs []

-- Let a qualifier come after the release ("sp", or an unknown one). For every version v, v-q is
-- after v, v.0 is equal to v, and yet v.0 is after v-q: the order is not transitive there.
pub compare_versions_cycle :
    (v q : Text) (name : Text)
    → segments_of q ≡ qual name ∷ []
    → compare_qualifier name [] ≡ Ordering.gt
    → (compare_versions (v ++ b'-' ∷ q) v ≡ Ordering.gt)
      × (compare_versions (v ++ codes ".0") v ≡ Ordering.eq)
      × (compare_versions (v ++ codes ".0") (v ++ b'-' ∷ q) ≡ Ordering.gt)
unfolding compare_versions compare_segments is_separator
compare_versions_cycle v q name e g =
    let joined =
      segments_of-append v b'-' q refl ∙ ap (λ (t : List Segment). segments_of v ++ t) e in
    let zeroed =
      segments_of-append v b'.' (codes "0") refl
      ∙ ap (λ (t : List Segment). segments_of v ++ t) segments-zero in
    (
      rw (joined, compare_segments_extend (segments_of v) (qual name ∷ []), g),
      rw (zeroed, compare_segments_extend (segments_of v) (num 0 ∷ [])),
      rw (joined, zeroed, compare_segments_prefix (segments_of v) (num 0 ∷ []) (qual name ∷ [])),
    )
