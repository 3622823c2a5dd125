-- ===== src/Format/Imports/Patterns.antt =====
-- The pattern that an import is grouped by (the matching loop of configuredBlocks,
-- togo/internal/format/importorder.go).
use cappu.Base.{
  ℕ, ◌<◌, ◌≤◌, Bool, true, false, ◌&&◌, Option, none, some, List, [], ◌∷◌, ◌++◌, ◌⊎◌, inl, inr, ◌≡◌,
  refl, ap, arith, Text, codes, has_prefix, byte_length, All, &&_true, ltb→lt, ltb-false, lt→ltb,
  if_cases,
}
use cappu.Format.Imports.{Pattern, Best, is_longer, choose, block_of}

&&_false_right : (a b : Bool) → a ≡ true → a && b ≡ false → b ≡ false
&&_false_right true b h k = k
&&_false_right false b h k = ground (arith, h)

module _ (name : Text) where
  abbrev pub Fits : Pattern → Type 0
  Fits p = has_prefix name p.prefix ≡ true

  -- The pattern p among others: longer than those in front of it, not shorter than those behind.
  abbrev pub Longest : List Pattern → Pattern → List Pattern → Type 0
  Longest before p after =
      Fits p
      × All (λ (q : Pattern). Fits q → byte_length q.prefix < byte_length p.prefix) before
      × All (λ (q : Pattern). Fits q → byte_length q.prefix ≤ byte_length p.prefix) after

  -- A pattern that beats the best one so far.
  abbrev Winner : List Pattern → Best → Best → Type 0
  Winner patterns best result =
      (before : List Pattern) × (p : Pattern) × (after : List Pattern) × (patterns
        ≡ before ++ p ∷ after)
      × Longest before p after
      × (is_longer (byte_length p.prefix) best.1 ≡ true)
      × (result ≡ (p.block, some (byte_length p.prefix)))

  abbrev Unbeaten : Option ℕ → List Pattern → Type 0
  Unbeaten best_len patterns =
      All (λ (q : Pattern). Fits q → is_longer (byte_length q.prefix) best_len ≡ false) patterns

  longer_than_longer :
      (m n : ℕ) (o : Option ℕ) → is_longer m o ≡ true → m < n → is_longer n o ≡ true
  longer_than_longer m n none h k = refl
  longer_than_longer m n (some l) h k = lt→ltb l n (omega (arith, ltb→lt l m h, k))

  longer_than_shorter :
      (m n : ℕ) (o : Option ℕ) → is_longer m o ≡ false → is_longer n o ≡ true → m < n
  longer_than_shorter m n none h k = ground (arith, h)
  longer_than_shorter m n (some l) h k = omega (arith, ltb-false l m h, ltb→lt l n k)

  replaced :
      (p : Pattern) (patterns : List Pattern) (best result : Best)
      → Fits p
      → is_longer (byte_length p.prefix) best.1 ≡ true
      → (Unbeaten (some (byte_length p.prefix)) patterns
          × (result ≡ (p.block, some (byte_length p.prefix))))
        ⊎ Winner patterns (p.block, some (byte_length p.prefix)) result
      → Winner (p ∷ patterns) best result
  replaced p patterns best result fits longer ih = elim ih [
    | inl w ↦ ([], p, patterns, refl, (fits, tt, not_longer patterns w.0), longer, w.1)
    | inr (before, q, after, e, (f, hb, ha), l, r) ↦
        let lt = ltb→lt (byte_length p.prefix) (byte_length q.prefix) l in
        (
          p ∷ before,
          q,
          after,
          ap (λ t. p ∷ t) e,
          (f, ((λ _. lt), hb), ha),
          longer_than_longer (byte_length p.prefix) (byte_length q.prefix) best.1 longer lt,
          r,
        )
  ]
    where
      not_longer :
          (ps : List Pattern)
          → Unbeaten (some (byte_length p.prefix)) ps
          → All (λ (q : Pattern). Fits q → byte_length q.prefix ≤ byte_length p.prefix) ps
      not_longer [] h = tt
      not_longer (q ∷ ps) h =
          (λ f. ltb-false (byte_length p.prefix) (byte_length q.prefix) (h.0 f), not_longer ps h.1)

  kept :
      (p : Pattern) (patterns : List Pattern) (best result : Best)
      → (Fits p → is_longer (byte_length p.prefix) best.1 ≡ false)
      → (Unbeaten best.1 patterns × (result ≡ best)) ⊎ Winner patterns best result
      → (Unbeaten best.1 (p ∷ patterns) × (result ≡ best)) ⊎ Winner (p ∷ patterns) best result
  kept p patterns best result short ih = elim ih [
    | inl w ↦ inl ((short, w.0), w.1)
    | inr (before, q, after, e, (f, hb, ha), l, r) ↦ inr (
      p ∷ before,
      q,
      after,
      ap (λ t. p ∷ t) e,
      (
        f,
        (
          (λ g.
              longer_than_shorter (byte_length p.prefix) (byte_length q.prefix) best.1 (short g) l),
          hb,
        ),
        ha,
      ),
      l,
      r,
    )
  ]

  choose-Winner :
      (patterns : List Pattern) (best : Best)
      → (Unbeaten best.1 patterns × (choose name patterns best ≡ best))
        ⊎ Winner patterns best (choose name patterns best)
  unfolding choose
  choose-Winner [] best = inl (tt, refl)
  choose-Winner (p ∷ patterns) best =
      if_cases
        (λ (next : Best).
          (Unbeaten best.1 (p ∷ patterns) × (choose name patterns next ≡ best))
          ⊎ Winner (p ∷ patterns) best (choose name patterns next))
        (has_prefix name p.prefix && is_longer (byte_length p.prefix) best.1)
        (λ h.
          let (fits, longer) = &&_true (has_prefix name p.prefix) _ h in
          inr (
            replaced p patterns best (choose name patterns (p.block, some (byte_length p.prefix)))
              fits longer (choose-Winner patterns (p.block, some (byte_length p.prefix)))))
        (λ h.
          kept p patterns best (choose name patterns best)
            (λ fits. &&_false_right (has_prefix name p.prefix) _ fits h)
            (choose-Winner patterns best))

  none-Fits :
      (patterns : List Pattern) → Unbeaten none patterns → All (λ (q : Pattern). ¬ Fits q) patterns
  none-Fits [] h = tt
  none-Fits (q ∷ patterns) h = ((λ f. ground (arith, h.0 f)), none-Fits patterns h.1)

-- The block of an import is that of the longest prefix that its name has with a dot behind it, of the first
-- of these where there are several, and the unmatched block where no pattern has the name.
pub block_of-Longest :
    (patterns : List Pattern) (unmatched : ℕ) (name : Text)
    → let key = name ++ codes "." in
      (All (λ (q : Pattern). ¬ Fits key q) patterns
        × (block_of patterns unmatched name ≡ unmatched))
      ⊎ ((before : List Pattern) × (p : Pattern) × (after : List Pattern) × (patterns
            ≡ before ++ p ∷ after)
          × Longest key before p after
          × (block_of patterns unmatched name ≡ p.block))
unfolding block_of
block_of-Longest patterns unmatched name =
    elim (choose-Winner (name ++ codes ".") patterns (unmatched, none)) [
      | inl w ↦ inl (none-Fits (name ++ codes ".") patterns w.0, ap (λ r. r.0) w.1)
      | inr (before, p, after, e, l, longer, r) ↦ inr (before, p, after, e, l, ap (λ b. b.0) r)
    ]
