-- ===== src/Compiler/LineMap/Search.antt =====
-- The search ends and finds the last line that begins at or before an offset.
use cappu.Base.{
  ℕ, zero, suc, ◌+◌, ◌-◌, ◌/◌, ◌<◌, ◌≤◌, some, List, [], ◌∷◌, ltb, leb, ◌==◌, length, get_or,
  Bool-cases, inl, inr, ◌≡◌, refl, arith, leb→le, ltb→lt, All, All_map, Pairwise,
}
use cappu.Compiler.LineMap.{starts_from, compute_line_starts, search_line, line_index_of}

-- The line of an offset: the last that begins at or before it.
abbrev pub IsLineOf : List ℕ → ℕ → ℕ → Type 0
IsLineOf starts offset i =
    (i < length starts)
    × (get_or starts i 0 ≤ offset)
    × ((j : ℕ) → i < j → j < length starts → offset < get_or starts j 0)

abbrev IsMonotone : List ℕ → Type 0
IsMonotone starts = (i j : ℕ) → i ≤ j → j < length starts → get_or starts i 0 ≤ get_or starts j 0

module _ (starts : List ℕ) (offset : ℕ) (mono : IsMonotone starts) where
  search_line_total :
      (fuel low high : ℕ)
      → high < length starts
      → low ≤ high
      → high - low ≤ fuel
      → get_or starts low 0 ≤ offset
      → ((j : ℕ) → high < j → j < length starts → offset < get_or starts j 0)
      → (i : ℕ) × (search_line fuel starts offset low high ≡ some i) × IsLineOf starts offset i
  unfolding search_line
  search_line_total zero low high lt le enough h k =
      (low, ground arith, (omega arith, h, λ j b c. k j (omega arith) c))
  search_line_total (suc fuel) low high lt le enough h k = elim (Bool-cases (ltb low high)) [
    | inr e ↦ (low, rw (search_line, e) refl, (omega arith, h, λ j b c. k j (ground arith) c))
    | inl e ↦ elim (Bool-cases (leb (get_or starts ((low + high + 1) / 2) 0) offset)) [
      | inl f ↦
          let (i, r, p) =
            search_line_total fuel ((low + high + 1) / 2) high lt (ground arith) (ground arith)
              (leb→le _ _ f) k in
          (i, rw (search_line, e, f) r, p)
      | inr f ↦
          let (i, r, p) =
            search_line_total fuel low ((low + high + 1) / 2 - 1) (ground arith) (ground arith)
              (ground arith) h
              (λ j b c.
                ground
                  (arith, mono ((low + high + 1) / 2) j (omega (arith, ltb→lt low high e)) c)) in
          (i, rw (search_line, e, f) r, p)
    ]
  ]

starts_from-next :
    (pos v : ℕ) (vs : List ℕ)
    → pos < v
    → All (λ w. v < w) vs × Pairwise (λ a b. a < b) vs
    → All (λ w. pos < w) (v ∷ vs) × Pairwise (λ a b. a < b) (v ∷ vs)
starts_from-next pos v vs lt (h, k) = ((lt, All_map vs (λ w le. omega arith) h), (h, k))

-- The lines begin in increasing order, behind `pos`.
starts_from-ordered :
    (pos : ℕ) (text : List ℕ)
    → All (λ v. pos < v) (starts_from pos text) × Pairwise (λ a b. a < b) (starts_from pos text)
unfolding starts_from
starts_from-ordered pos [] = (tt, tt)
starts_from-ordered pos (ch ∷ []) = ground arith
starts_from-ordered pos (ch ∷ next ∷ rest) = elim (Bool-cases (ch == 0x0d)) [
  | inl e ↦ elim (Bool-cases (next == 0x0a)) [
    | inl f ↦
        rw (starts_from, e, f)
          (starts_from-next pos (pos + 2) _ (omega arith) (starts_from-ordered (pos + 2) rest))
    | inr f ↦
        rw (starts_from, e, f)
          (starts_from-next pos (pos + 1) _ (omega arith)
            (starts_from-ordered (pos + 1) (next ∷ rest)))
  ]
  | inr e ↦ elim (Bool-cases (ch == 0x0a)) [
    | inl f ↦
        rw (starts_from, e, f)
          (starts_from-next pos (pos + 1) _ (omega arith)
            (starts_from-ordered (pos + 1) (next ∷ rest)))
    | inr f ↦
        let (a, b) = starts_from-ordered (pos + 1) (next ∷ rest) in
        rw (starts_from, e, f) (All_map _ (λ v lt. omega arith) a, b)
  ]
]

get_or-above :
    (x : ℕ) (xs : List ℕ) (j : ℕ) → All (λ v. x < v) xs → j < length xs → x ≤ get_or xs j 0
get_or-above x [] j h lt = absurd (omega arith)
get_or-above x (v ∷ xs) zero (h, hs) lt = omega arith
get_or-above x (v ∷ xs) (suc j) (h, hs) lt = get_or-above x xs j hs (omega arith)

Pairwise-IsMonotone : (xs : List ℕ) → Pairwise (λ a b. a < b) xs → IsMonotone xs
Pairwise-IsMonotone [] h i j le lt = absurd (omega arith)
Pairwise-IsMonotone (x ∷ xs) h zero zero le lt = omega arith
Pairwise-IsMonotone (x ∷ xs) (h, hs) zero (suc j) le lt = get_or-above x xs j h (omega arith)
Pairwise-IsMonotone (x ∷ xs) h (suc i) zero le lt = absurd (omega arith)
Pairwise-IsMonotone (x ∷ xs) (h, hs) (suc i) (suc j) le lt =
    Pairwise-IsMonotone xs hs i j (omega arith) (omega arith)

-- For every text and every offset the search over the starts of its lines ends, and returns the last
-- line that begins at or before the offset.
pub line_index_of_total :
    (text : List ℕ) (offset : ℕ)
    → (i : ℕ) × (line_index_of (compute_line_starts text) offset ≡ some i)
      × IsLineOf (compute_line_starts text) offset i
unfolding line_index_of compute_line_starts
line_index_of_total text offset =
    let starts : List ℕ = 0 ∷ starts_from 0 text in
    search_line_total starts offset (Pairwise-IsMonotone starts (starts_from-ordered 0 text))
      (length starts) 0 (length starts - 1) (omega arith) (omega arith) (omega arith) (omega arith)
      (λ j b c. absurd (omega arith))
