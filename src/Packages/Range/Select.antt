-- ===== src/Packages/Range/Select.antt =====
-- What `SelectVersion` returns (togo/internal/packages/version_range.go).
use cappu.Base.{
  true, List, [], ◌∷◌, AtMost, Text, is_empty, In, All, All_at, ◌≡◌, refl, ◌≢◌, ◌⊎◌, inl, inr,
  arith, sym, ◌∙◌,
}
use cappu.Packages.Version.{compare_versions, segments_of}
use cappu.Packages.Version.Order.{compare_versions-flip}
use cappu.Packages.Version.Preorder.{AllOrderly, compare_versions_trans}
use cappu.Packages.Range.{VersionSpec, satisfies, better, select_from, select_version}

-- A version that is not empty, of numbers and pre-release qualifiers.
abbrev pub Fit : Text → Type 0
Fit v = (v ≢ []) × AllOrderly v

AllOrderly-nil : AllOrderly []
unfolding segments_of
AllOrderly-nil = tt

module _ (spec : VersionSpec) where
  better_cases :
      (best v : Text)
      → (better spec best v ≡ best) ⊎ ((better spec best v ≡ v) × (satisfies spec v ≡ true))
  unfolding better
  better_cases best v = ground arith

  select_from_sound :
      (published : List Text) (best : Text)
      → (select_from spec best published ≡ best)
        ⊎ (In (select_from spec best published) published
            × (satisfies spec (select_from spec best published) ≡ true))
  unfolding select_from
  select_from_sound [] best = inl refl
  select_from_sound (v ∷ published) best = elim (select_from_sound published (better spec best v)) [
    | inl e ↦ elim (better_cases best v) [
      | inl same ↦ inl (e ∙ same)
      | inr (new, ok) ↦ inr (In.here (sym (e ∙ new)), rw (e ∙ new) ok)
    ]
    | inr (m, ok) ↦ inr (In.there m, ok)
  ]

  -- Whatever the spec and the published versions are, `SelectVersion` returns "" or a published
  -- version that satisfies the spec.
  pub select_version_sound :
      (published : List Text)
      → (select_version spec published ≡ [])
        ⊎ (In (select_version spec published) published
            × (satisfies spec (select_version spec published) ≡ true))
  unfolding select_version
  select_version_sound published = select_from_sound published []

  -- `b` is no earlier than `a`, or `a` is the empty text that stands for "none yet".
  abbrev Covers : Text → Text → Type 0
  Covers a b = a ≢ [] → (b ≢ []) × AtMost (compare_versions a b)

  Covers-refl : (a : Text) → Covers a a
  Covers-refl a h = (h, λ e. ground (arith, (compare_versions-flip a a).1))

  Covers-trans :
      (a b c : Text)
      → AllOrderly a
      → AllOrderly b
      → AllOrderly c
      → Covers a b
      → Covers b c
      → Covers a c
  Covers-trans a b c oa ob oc f g h =
      let (hb, ab) = f h in let (hc, bc) = g hb in (hc, compare_versions_trans a b c oa ob oc ab bc)

  is_empty→nil : (a : Text) → is_empty a ≡ true → a ≡ []
  is_empty→nil [] h = refl
  is_empty→nil (c ∷ a) h = ground arith

  better_keeps : (best v : Text) → v ≢ [] → Covers best (better spec best v)
  unfolding better
  better_keeps best v hv h = (
    λ e. ground (arith, is_empty→nil best),
    λ e. ground (
      arith,
      is_empty→nil best,
      (compare_versions-flip best v).0,
      (compare_versions-flip best best).1,
    ),
  )

  better_takes : (best v : Text) → satisfies spec v ≡ true → Covers v (better spec best v)
  unfolding better
  better_takes best v ok h = (
    λ e. ground (arith, is_empty→nil best),
    λ e. ground (arith, is_empty→nil best, (compare_versions-flip v v).1),
  )

  better_fits : (best v : Text) → AllOrderly best → AllOrderly v → AllOrderly (better spec best v)
  better_fits best v ob ov = elim (better_cases best v) [ inl e ↦ rw e ob | inr (e, _) ↦ rw e ov ]

  select_from_fits :
      (published : List Text) (best : Text)
      → AllOrderly best
      → All Fit published
      → AllOrderly (select_from spec best published)
  unfolding select_from
  select_from_fits [] best ob h = ob
  select_from_fits (v ∷ published) best ob ((_, ov), h) =
      select_from_fits published (better spec best v) (better_fits best v ob ov) h

  select_from_keeps :
      (published : List Text) (best : Text)
      → AllOrderly best
      → All Fit published
      → Covers best (select_from spec best published)
  unfolding select_from
  select_from_keeps [] best ob h = Covers-refl best
  select_from_keeps (v ∷ published) best ob ((hv, ov), h) =
      let ob' = better_fits best v ob ov in
      Covers-trans best (better spec best v) _ ob ob'
        (select_from_fits published (better spec best v) ob' h) (better_keeps best v hv)
        (select_from_keeps published (better spec best v) ob' h)

  select_from-Covers :
      (published : List Text) (best v : Text)
      → AllOrderly best
      → All Fit published
      → In v published
      → satisfies spec v ≡ true
      → Covers v (select_from spec best published)
  unfolding select_from
  select_from-Covers [] best v ob h m ok = elim m [ ]
  select_from-Covers (w ∷ published) best v ob ((hw, ow), h) (In.here e) ok =
      let ow' = rw e at ow in
      let ob' = better_fits best v ob ow' in
      rw e (
        Covers-trans v (better spec best v) _ ow' ob'
          (select_from_fits published (better spec best v) ob' h) (better_takes best v ok)
          (select_from_keeps published (better spec best v) ob' h))
  select_from-Covers (w ∷ published) best v ob ((hw, ow), h) (In.there m) ok =
      select_from-Covers published (better spec best w) v (better_fits best w ob ow) h m ok

  -- Let the published versions be non-empty and hold numbers and pre-release qualifiers only. If one
  -- of them satisfies the spec, `SelectVersion` returns a version, and no published version that
  -- satisfies the spec comes after it.
  pub select_version_max :
      (published : List Text)
      → All Fit published
      → (v : Text) → In v published
      → satisfies spec v ≡ true
      → (select_version spec published ≢ [])
        × AtMost (compare_versions v (select_version spec published))
  unfolding select_version
  select_version_max published h v m ok =
      select_from-Covers published [] v AllOrderly-nil h m ok (All_at _ m h).0
