-- ===== src/Format/Imports/Aosp.antt =====
-- The order within a block of the aosp style (aospBlocks, togo/internal/format/importorder.go).
use cappu.Base.{
  ℕ, ◌<◌, Bool, true, false, not, ◌&&◌, ◌||◌, if◌then◌else◌, ◌⊎◌, inl, inr, text_eq_sound, List, [],
  ◌∷◌, if_cases, ltb, ◌==◌, ◌≡◌, refl, ap, ◌∙◌, arith, Text, codes, text_eq, All, Pairwise,
  ||_false,
}
use cappu.Format.Imports.{
  is_android_import, import_top_level, aosp_rank, aosp_splits, aosp_less, runs, split_runs,
  aosp_blocks, text_less,
}
use cappu.Format.Imports.Sorting.{
  Sorted, NotAfter, sort-Pairwise, text_less-Asymmetric, text_less-Negative,
}

aosp_less-Asymmetric : (a b : Text) → aosp_less a b ≡ true → aosp_less b a ≡ false
unfolding aosp_less
aosp_less-Asymmetric a b h = ground (arith, h, text_less-Asymmetric a b)

by_rank :
    (m n : ℕ) (t : Bool)
    → (if n == m then t else ltb n m) ≡ false
    → (m < n) ⊎ ((m ≡ n) × (t ≡ false))
by_rank m n t h = ground (arith, h)

of_rank :
    (m n : ℕ) (t : Bool)
    → (m < n) ⊎ ((m ≡ n) × (t ≡ false))
    → (if n == m then t else ltb n m) ≡ false
of_rank m n t h = ground (arith, h)

aosp_less-Negative :
    (a b c : Text) → aosp_less b a ≡ false → aosp_less c b ≡ false → aosp_less c a ≡ false
unfolding aosp_less
aosp_less-Negative a b c h k = of_rank (aosp_rank a) (aosp_rank c) (text_less c a) (
    ranks (by_rank (aosp_rank a) (aosp_rank b) (text_less b a) h)
      (by_rank (aosp_rank b) (aosp_rank c) (text_less c b) k))
  where
    ranks :
        {m n o : ℕ}
        → (m < n) ⊎ ((m ≡ n) × (text_less b a ≡ false))
        → (n < o) ⊎ ((n ≡ o) × (text_less c b ≡ false))
        → (m < o) ⊎ ((m ≡ o) × (text_less c a ≡ false))
    ranks (inl p) (inl q) = inl (omega (arith, p, q))
    ranks (inl p) (inr q) = inl (omega (arith, p, q.0))
    ranks (inr p) (inl q) = inl (omega (arith, p.0, q))
    ranks (inr p) (inr q) = inr (p.0 ∙ q.0, text_less-Negative a b c p.1 q.1)

less_of_same-rank :
    (a b : Text) → aosp_less b a ≡ false → aosp_rank a ≡ aosp_rank b → text_less b a ≡ false
unfolding aosp_less
less_of_same-rank a b h e = elim (by_rank (aosp_rank a) (aosp_rank b) (text_less b a) h) [
  | inl lt ↦ absurd (omega (arith, lt, e))
  | inr p ↦ p.1
]

-- The rank of an import that is of android or not, by its first name.
abbrev rank_of : Bool → Text → ℕ
rank_of android top =
    if android
    then 0
    else if text_eq top (codes "java") || text_eq top (codes "javax")
    then 2
    else 1

no_rise : (a b : Bool) (s t : Text) → a && not b ≡ false → s ≡ t → rank_of a s < rank_of b t → ⊥
no_rise true true s t h e lt = omega (arith, lt)
no_rise true false s t h e lt = ground (arith, h)
no_rise false true s t h e lt = omega (arith, lt)
no_rise false false s t h e lt = omega (arith, ap (rank_of false) e, lt)

not-false : (b : Bool) → not b ≡ false → b ≡ true
not-false true h = refl
not-false false h = ground (arith, h)

-- Neighbours in the order between which no new block begins have one rank.
same-rank_of_no-split :
    (a b : Text) → aosp_less b a ≡ false → aosp_splits a b ≡ false → aosp_rank a ≡ aosp_rank b
unfolding aosp_less aosp_splits aosp_rank
same-rank_of_no-split a b h k =
    let (android, top) = ||_false (is_android_import a && not (is_android_import b)) _ k in
    elim (by_rank (aosp_rank a) (aosp_rank b) (text_less b a) h) [
      | inl lt ↦ absurd (
          no_rise (is_android_import a) (is_android_import b) (import_top_level a)
            (import_top_level b) android
            (text_eq_sound (import_top_level a) (import_top_level b) (not-false _ top)) lt)
      | inr p ↦ p.0
    ]

module _ {A : Type 0} (import_name : A → Text) where
  abbrev InOrder : A → A → Type 0
  InOrder = NotAfter (λ a b. aosp_less (import_name a) (import_name b))

  abbrev OfRank : A → A → Type 0
  OfRank i a = aosp_rank (import_name i) ≡ aosp_rank (import_name a)

  -- A block of one rank that begins with an import is sorted by name.
  below_first :
      (i next : A) (ys : List A) → OfRank i next → All (OfRank next) ys → All (OfRank i) ys
  below_first i next [] e h = tt
  below_first i next (y ∷ ys) e h = (e ∙ h.0, below_first i next ys e h.1)

  sorted_behind :
      (i : A) (ys : List A)
      → All (InOrder i) ys
      → All (OfRank i) ys
      → All (λ a. text_less (import_name a) (import_name i) ≡ false) ys
  sorted_behind i [] h e = tt
  sorted_behind i (y ∷ ys) h e =
      (less_of_same-rank (import_name i) (import_name y) h.0 e.0, sorted_behind i ys h.1 e.1)

  runs-All :
      (P : A → Type 0) (i : A) (rest : List A)
      → P i
      → All P rest
      → All P ((runs import_name i rest).0)
  unfolding runs
  runs-All P i [] h k = (h, tt)
  runs-All P i (next ∷ rest) h k =
      if_cases (λ (r : List A × List (List A)). All P r.0)
        (aosp_splits (import_name i) (import_name next)) (λ _. (h, tt))
        (λ _. (h, runs-All P next rest k.0 k.1))

  -- What the runs of a list in order are: the first is of the rank of its first import, all are sorted.
  abbrev Blocks : A → List A × List (List A) → Type 0
  Blocks i r = All (OfRank i) r.0 × Sorted import_name r.0 × All (Sorted import_name) r.1

  runs-Blocks :
      (i : A) (rest : List A) → Pairwise InOrder (i ∷ rest) → Blocks i (runs import_name i rest)
  unfolding runs
  runs-Blocks i [] h = ((refl, tt), (tt, tt), tt)
  runs-Blocks i (next ∷ rest) (hi, h) =
      let (of_rank, sorted, blocks) = runs-Blocks next rest h in
      let current = (runs import_name next rest).0 in
      if_cases (Blocks i) (aosp_splits (import_name i) (import_name next))
        (λ _. ((refl, tt), (tt, tt), (sorted, blocks)))
        (λ k.
          let same = same-rank_of_no-split (import_name i) (import_name next) hi.0 k in
          let all_same = below_first i next current same of_rank in
          (
            (refl, all_same),
            (sorted_behind i current (runs-All (InOrder i) next rest hi.0 hi.1) all_same, sorted),
            blocks,
          ))

  split_runs-Sorted :
      (imports : List A)
      → Pairwise InOrder imports
      → All (Sorted import_name) (split_runs import_name imports)
  unfolding split_runs
  split_runs-Sorted [] h = tt
  split_runs-Sorted (i ∷ rest) h =
      let (of_rank, sorted, blocks) = runs-Blocks i rest h in (sorted, blocks)

  pub aosp_blocks-Sorted :
      (imports : List A) → All (Sorted import_name) (aosp_blocks import_name imports)
  unfolding aosp_blocks
  aosp_blocks-Sorted imports = split_runs-Sorted _ (
      sort-Pairwise (λ a b. aosp_less (import_name a) (import_name b))
        (λ a b c. aosp_less-Negative (import_name a) (import_name b) (import_name c))
        (λ a b. aosp_less-Asymmetric (import_name a) (import_name b)) imports)
