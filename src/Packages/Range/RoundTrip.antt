-- ===== src/Packages/Range/RoundTrip.antt =====
-- Printed version ranges are parsed to what they were (togo/internal/packages/version_range.go).
use cappu.Base.{
  ℕ, Bool, true, false, not, ◌||◌, some, List, [], ◌∷◌, ◌++◌, ◌==◌, if◌then◌else◌, Text, is_empty,
  ends_with, drop_last, cut, is_space, trim_left, trim_right, trim_space, pos, All, All-append, ◌≡◌,
  refl, sym, ap, ◌∙◌, arith, append_assoc, append-nil, Bool-cases, inl, inr,
}
use cappu.Packages.Range.{
  Restriction, depth_after, inner_of, bounds, parse_restriction, add_part, parse_parts,
  parse_trimmed, parse_version_spec,
}

abbrev is_bracket : ℕ → Bool
is_bracket c = (c == b'[' || c == b'(') || (c == b']' || c == b')')

abbrev NoBracket : ℕ → Type 0
NoBracket c = is_bracket c ≡ false

-- A character of a bound: no bracket, comma or white space.
abbrev pub IsPlain : ℕ → Type 0
IsPlain c = (is_bracket c ≡ false) × ((c == b',') ≡ false) × (is_space c ≡ false)

abbrev pub IsPrintable : Restriction → Type 0
IsPrintable r =
    All IsPlain r.lower
    × All IsPlain r.upper
    × (r.has_lower ≡ not (is_empty r.lower))
    × (r.has_upper ≡ not (is_empty r.upper))

abbrev open_bracket : Bool → ℕ
open_bracket inclusive = if inclusive then b'[' else b'('

abbrev close_bracket : Bool → ℕ
close_bracket inclusive = if inclusive then b']' else b')'

-- `[1.0,2.0)`
unfoldable pub print_restriction : Restriction → Text
print_restriction r =
    open_bracket r.lower_inclusive
    ∷ (r.lower ++ b',' ∷ (r.upper ++ close_bracket r.upper_inclusive ∷ []))

-- The restrictions with commas between them.
unfoldable pub print_restrictions : List Restriction → Text
print_restrictions [] = []
print_restrictions (r ∷ []) = print_restriction r
print_restrictions (r ∷ s ∷ rs) = print_restriction r ++ b',' ∷ print_restrictions (s ∷ rs)

trim_right_end : (s : Text) (c : ℕ) → is_space c ≡ false → trim_right (s ++ c ∷ []) ≡ s ++ c ∷ []
unfolding trim_right
trim_right_end [] c h = rw h
trim_right_end (d ∷ []) c h = rw (h, trim_right)
trim_right_end (d ∷ e ∷ s) c h = rw (trim_right_end (e ∷ s) c h)

trim_space_lem : (s : Text) → trim_space s ≡ trim_right (trim_left s)
unfolding trim_space
trim_space_lem s = refl

trim_space_ends :
    (c : ℕ) (s : Text) (d : ℕ)
    → is_space c ≡ false
    → is_space d ≡ false
    → trim_space (c ∷ (s ++ d ∷ [])) ≡ c ∷ (s ++ d ∷ [])
unfolding trim_left
trim_space_ends c s d hc hd = rw (trim_space_lem, hc, trim_left) (trim_right_end (c ∷ s) d hd)

trim_right_plain : (s : Text) → All IsPlain s → trim_right s ≡ s
unfolding trim_right
trim_right_plain [] h = refl
trim_right_plain (c ∷ []) ((_, _, hc), h) = rw hc
trim_right_plain (c ∷ d ∷ s) (_, h) = rw (trim_right_plain (d ∷ s) h)

trim_space_plain : (s : Text) → All IsPlain s → trim_space s ≡ s
unfolding trim_left
trim_space_plain [] h = trim_space_lem [] ∙ trim_right_plain [] tt
trim_space_plain (c ∷ s) ((hb, hk, hc), h) =
    rw (trim_space_lem, hc, trim_left) (trim_right_plain (c ∷ s) ((hb, hk, hc), h))

cut_comma : (s t : Text) → All IsPlain s → cut (s ++ b',' ∷ t) b',' ≡ some (s, t)
unfolding cut
cut_comma [] t h = refl
cut_comma (c ∷ s) t ((_, hk, _), h) = rw (hk, cut_comma s t h)

ends_with_last : (s : Text) (c d : ℕ) → ends_with (s ++ c ∷ []) d ≡ (c == d)
unfolding ends_with
ends_with_last [] c d = refl
ends_with_last (e ∷ []) c d = refl
ends_with_last (e ∷ f ∷ s) c d = ends_with_last (f ∷ s) c d

drop_last_end : (s : Text) (c : ℕ) → drop_last (s ++ c ∷ []) ≡ s
unfolding drop_last
drop_last_end [] c = refl
drop_last_end (d ∷ []) c = refl
drop_last_end (d ∷ e ∷ s) c = ap (λ (t : Text). d ∷ t) (drop_last_end (e ∷ s) c)

-- The printed form, its last bracket behind one text.
middle : Restriction → Text
middle r = r.lower ++ b',' ∷ r.upper

print_restriction-middle :
    (r : Restriction)
    → print_restriction r
      ≡ open_bracket r.lower_inclusive ∷ (middle r ++ close_bracket r.upper_inclusive ∷ [])
unfolding print_restriction middle
print_restriction-middle r = rw append_assoc

bounds-printable :
    (r : Restriction)
    → IsPrintable r
    → bounds r.lower_inclusive r.upper_inclusive r.lower r.upper ≡ r
unfolding bounds
bounds-printable r (hl, hu, el, eu) =
    rw (trim_space_plain r.lower hl, trim_space_plain r.upper hu) (ground arith)

parse_brackets :
    (a b : Bool) (m : Text) {x y : Text}
    → cut m b',' ≡ some (x, y)
    → parse_restriction (open_bracket a ∷ (m ++ close_bracket b ∷ [])) ≡ some (bounds a b x y)
unfolding parse_restriction inner_of
parse_brackets true true m e = simp (ends_with_last (b'[' ∷ m) b']' b']', drop_last_end, e)
parse_brackets true false m e =
    simp
      (ends_with_last (b'[' ∷ m) b')' b']', ends_with_last (b'[' ∷ m) b')' b')', drop_last_end, e)
parse_brackets false true m e = simp (ends_with_last (b'(' ∷ m) b']' b']', drop_last_end, e)
parse_brackets false false m e =
    simp
      (ends_with_last (b'(' ∷ m) b')' b']', ends_with_last (b'(' ∷ m) b')' b')', drop_last_end, e)

parse_restriction-print :
    (r : Restriction) → IsPrintable r → parse_restriction (print_restriction r) ≡ some r
unfolding middle
parse_restriction-print r (hl, hu, el, eu) =
    rw
      (
        print_restriction-middle r,
        parse_brackets r.lower_inclusive r.upper_inclusive (middle r)
            (cut_comma r.lower r.upper hl),
      )
      (ap some (bounds-printable r (hl, hu, el, eu)))

depth_after-inside : (c : ℕ) → NoBracket c → depth_after c (pos 1) ≡ pos 1
unfolding depth_after
depth_after-inside c h = ground arith

-- Inside brackets every character but a bracket is taken up.
parse_parts_step :
    (c : ℕ) (s part : Text) (rs : List Restriction)
    → NoBracket c
    → parse_parts (c ∷ s) (pos 1) part rs ≡ parse_parts s (pos 1) (part ++ c ∷ []) rs
unfolding parse_parts
parse_parts_step c s part rs h = elim (Bool-cases (c == b',')) [
  | inl e ↦ rw (depth_after-inside c h, e)
  | inr e ↦ rw (depth_after-inside c h, e)
]

parse_parts-inside :
    (s rest part : Text) (rs : List Restriction)
    → All NoBracket s
    → parse_parts (s ++ rest) (pos 1) part rs ≡ parse_parts rest (pos 1) (part ++ s) rs
parse_parts-inside [] rest part rs h = rw append-nil
parse_parts-inside (c ∷ s) rest part rs (hc, h) =
    rw (parse_parts_step c (s ++ rest) part rs hc, parse_parts-inside s rest _ rs h, append_assoc)

parse_parts_open :
    (a : Bool) (s : Text) (rs : List Restriction)
    → parse_parts (open_bracket a ∷ s) (pos 0) [] rs
      ≡ parse_parts s (pos 1) (open_bracket a ∷ []) rs
unfolding parse_parts depth_after
parse_parts_open true s rs = refl
parse_parts_open false s rs = refl

parse_parts_close :
    (b : Bool) (s part : Text) (rs : List Restriction)
    → parse_parts (close_bracket b ∷ s) (pos 1) part rs
      ≡ parse_parts s (pos 0) (part ++ close_bracket b ∷ []) rs
unfolding parse_parts depth_after
parse_parts_close true s part rs = refl
parse_parts_close false s part rs = refl

middle-NoBracket : (r : Restriction) → IsPrintable r → All NoBracket (middle r)
unfolding middle
middle-NoBracket r (hl, hu, _, _) =
    All-append NoBracket r.lower (b',' ∷ r.upper) (plain r.lower hl) (refl, plain r.upper hu)
  where
    plain : (s : Text) → All IsPlain s → All NoBracket s
    plain [] h = tt
    plain (c ∷ s) ((hb, _, _), h) = (hb, plain s h)

-- The loop goes over a whole printed restriction.
parse_parts-print :
    (r : Restriction) (rest : Text) (rs : List Restriction)
    → IsPrintable r
    → parse_parts (print_restriction r ++ rest) (pos 0) [] rs
      ≡ parse_parts rest (pos 0) (print_restriction r) rs
parse_parts-print r rest rs h = rw (
  print_restriction-middle r,
  append_assoc,
  parse_parts_open,
  parse_parts-inside (middle r) _ _ rs (middle-NoBracket r h),
  parse_parts_close,
)

open_bracket-visible : (b : Bool) → is_space (open_bracket b) ≡ false
unfolding is_space
open_bracket-visible true = refl
open_bracket-visible false = refl

close_bracket-visible : (b : Bool) → is_space (close_bracket b) ≡ false
unfolding is_space
close_bracket-visible true = refl
close_bracket-visible false = refl

print_restriction-trimmed :
    (r : Restriction) → trim_space (print_restriction r) ≡ print_restriction r
print_restriction-trimmed r = rw (print_restriction-middle r) (
    trim_space_ends _ (middle r) _ (open_bracket-visible r.lower_inclusive)
      (close_bracket-visible r.upper_inclusive))

add_part-trimmed :
    (part : Text) (r : Restriction) (rs : List Restriction)
    → trim_space part ≡ part
    → is_empty part ≡ false
    → parse_restriction part ≡ some r
    → add_part part rs ≡ some (rs ++ r ∷ [])
unfolding add_part
add_part-trimmed part r rs t e p = rw (sym (trim_space_lem part) ∙ t, e, p)

add_part-print :
    (r : Restriction) (rs : List Restriction)
    → IsPrintable r
    → add_part (print_restriction r) rs ≡ some (rs ++ r ∷ [])
unfolding print_restriction
add_part-print r rs h =
    add_part-trimmed _ r rs (print_restriction-trimmed r) refl (parse_restriction-print r h)

parse_parts_end :
    (part : Text) (rs : List Restriction) → parse_parts [] (pos 0) part rs ≡ add_part part rs
unfolding parse_parts
parse_parts_end part rs = refl

parse_parts_comma :
    (s part : Text) (rs : List Restriction) {more : List Restriction}
    → add_part part rs ≡ some more
    → parse_parts (b',' ∷ s) (pos 0) part rs ≡ parse_parts s (pos 0) [] more
unfolding parse_parts depth_after
parse_parts_comma s part rs e = rw e

parse_parts-restrictions :
    (r : Restriction) (more rs : List Restriction)
    → All IsPrintable (r ∷ more)
    → parse_parts (print_restrictions (r ∷ more)) (pos 0) [] rs ≡ some (rs ++ r ∷ more)
unfolding print_restrictions
parse_parts-restrictions r [] rs (h, _) =
    ap (λ (t : Text). parse_parts t (pos 0) [] rs) (sym (append-nil (print_restriction r)))
    ∙ parse_parts-print r [] rs h
    ∙ parse_parts_end (print_restriction r) rs
    ∙ add_part-print r rs h
parse_parts-restrictions r (q ∷ more) rs (h, hs) =
    parse_parts-print r (b',' ∷ print_restrictions (q ∷ more)) rs h
    ∙ parse_parts_comma (print_restrictions (q ∷ more)) (print_restriction r) rs
        (add_part-print r rs h)
    ∙ parse_parts-restrictions q more (rs ++ r ∷ []) hs
    ∙ ap some (append_assoc rs (r ∷ []) (q ∷ more))

print_restrictions-ends :
    (r : Restriction) (more : List Restriction)
    → (s : Text) × (b : Bool) × (print_restrictions (r ∷ more)
        ≡ open_bracket r.lower_inclusive ∷ (s ++ close_bracket b ∷ []))
unfolding print_restrictions
print_restrictions-ends r [] = (middle r, r.upper_inclusive, print_restriction-middle r)
print_restrictions-ends r (q ∷ more) =
    let (s, b, e) = print_restrictions-ends q more in
    let head = middle r ++ close_bracket r.upper_inclusive ∷ [] in
    (
      head ++ b',' ∷ open_bracket q.lower_inclusive ∷ s,
      b,
      rw (print_restriction-middle r, e, append_assoc),
    )

parse_trimmed-parts :
    (a : Bool) (s : Text) (r : Restriction) (more : List Restriction)
    → parse_parts (open_bracket a ∷ s) (pos 0) [] [] ≡ some (r ∷ more)
    → parse_trimmed (open_bracket a ∷ s) ≡ some (record { newest = false; restrictions = r ∷ more })
unfolding parse_trimmed
parse_trimmed-parts true s r more p = rw p
parse_trimmed-parts false s r more p = rw p

parse_version_spec-trimmed :
    (t : Text) (a : Bool) (s : Text) (r : Restriction) (more : List Restriction)
    → t ≡ open_bracket a ∷ s
    → trim_space t ≡ t
    → parse_parts t (pos 0) [] [] ≡ some (r ∷ more)
    → parse_version_spec t ≡ some (record { newest = false; restrictions = r ∷ more })
unfolding parse_version_spec
parse_version_spec-trimmed t a s r more e trimmed p =
    rw (trimmed, e) (parse_trimmed-parts a s r more (rw e at p))

-- A set of restrictions whose bounds hold no bracket, comma or white space, printed with commas
-- between them, is parsed to the same restrictions in the same order.
pub parse_version_spec-print :
    (r : Restriction) (more : List Restriction)
    → All IsPrintable (r ∷ more)
    → parse_version_spec (print_restrictions (r ∷ more))
      ≡ some (record { newest = false; restrictions = r ∷ more })
parse_version_spec-print r more h =
    let (s, b, e) = print_restrictions-ends r more in
    parse_version_spec-trimmed _ r.lower_inclusive _ r more e
      (rw e
        (trim_space_ends _ s _ (open_bracket-visible r.lower_inclusive) (close_bracket-visible b)))
      (parse_parts-restrictions r more [] h)
