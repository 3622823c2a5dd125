-- ===== src/Base/Words.antt =====
-- Big-endian words.
use Prim.Native.Nat.{ℕ, ◌+◌, ◌*◌, ◌/◌, ◌%◌}
use mathlib.Core.List.{List, [], ◌∷◌}
use cappu.Base.Lists.{get_or}

abbrev pub u1_bytes : ℕ → List ℕ
u1_bytes v = v % 256 ∷ []

abbrev pub u2_bytes : ℕ → List ℕ
u2_bytes v = v / 256 % 256 ∷ v % 256 ∷ []

abbrev pub u4_bytes : ℕ → List ℕ
u4_bytes v = v / 16777216 % 256 ∷ v / 65536 % 256 ∷ v / 256 % 256 ∷ v % 256 ∷ []

-- binary.BigEndian.Uint16 and Uint32 of the bytes from an index on
abbrev pub uint16_at : List ℕ → ℕ → ℕ
uint16_at b i = get_or b i 0 * 256 + get_or b (i + 1) 0

abbrev pub uint32_at : List ℕ → ℕ → ℕ
uint32_at b i = uint16_at b i * 65536 + uint16_at b (i + 2)
