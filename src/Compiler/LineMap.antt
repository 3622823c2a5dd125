-- ===== src/Compiler/LineMap.antt =====
-- Offsets of lines (togo/internal/compiler/linemap.go); a text is the list of its bytes.
pub mod Search
use cappu.Base.{
  ℕ, zero, suc, ◌+◌, ◌-◌, ◌/◌, Bool, true, false, Option, none, some, List, [], ◌∷◌, if◌then◌else◌,
  ltb, leb, ◌==◌, length, get_or, ◌||◌,
}

-- The lines that begin behind `pos`, from the bytes there.
unfoldable pub starts_from : ℕ → List ℕ → List ℕ
starts_from pos [] = []
starts_from pos (ch ∷ []) = if ch == 0x0d || ch == 0x0a then (pos + 1) ∷ [] else []
starts_from pos (ch ∷ next ∷ rest) = elim (ch == 0x0d) [
  | true ↦ elim (next == 0x0a) [
    | true ↦ (pos + 2) ∷ starts_from (pos + 2) rest
    | false ↦ (pos + 1) ∷ starts_from (pos + 1) (next ∷ rest)
  ]
  | false ↦ elim (ch == 0x0a) [
    | true ↦ (pos + 1) ∷ starts_from (pos + 1) (next ∷ rest)
    | false ↦ starts_from (pos + 1) (next ∷ rest)
  ]
]

unfoldable pub compute_line_starts : List ℕ → List ℕ
compute_line_starts text = 0 ∷ starts_from 0 text

-- The loop of the binary search; `none` is out of fuel.
unfoldable pub search_line : ℕ → List ℕ → ℕ → ℕ → ℕ → Option ℕ
search_line zero line_starts offset low high = if ltb low high then none else some low
search_line (suc fuel) line_starts offset low high = elim (ltb low high) [
  | false ↦ some low
  | true ↦
      let mid = (low + high + 1) / 2 in
      elim (leb (get_or line_starts mid 0) offset) [
        | true ↦ search_line fuel line_starts offset mid high
        | false ↦ search_line fuel line_starts offset low (mid - 1)
      ]
]

-- There is always a line, so `high` is never negative.
unfoldable pub line_index_of : List ℕ → ℕ → Option ℕ
line_index_of line_starts offset =
    search_line (length line_starts) line_starts offset 0 (length line_starts - 1)
