-- ===== src/Compiler/ClassFile.antt =====
-- Reading class files (togo/internal/compiler/classfile.go): modified UTF-8.
pub mod Cursor
pub mod Parses
pub mod Constants
pub mod Entries
pub mod Pool
pub mod Tables
pub mod Layout
pub mod RoundTrip
pub mod Attributes
pub mod Code
pub mod Bootstraps
use cappu.Base.{
  ℕ, ◌+◌, ◌-◌, ◌*◌, ◌/◌, ◌%◌, Bool, true, false, ◌&&◌, List, [], ◌∷◌, if◌then◌else◌, ltb, leb, ◌==◌,
  Text,
}

abbrev two_bytes : ℕ → ℕ → ℕ
two_bytes a b = a % 32 * 64 + b % 64

abbrev three_bytes : ℕ → ℕ → ℕ → ℕ
three_bytes a b c = a % 16 * 4096 + b % 64 * 64 + c % 64

-- The UTF-16 code units of modified UTF-8; a sequence cut off at the end is dropped.
unfoldable pub decode_units : List ℕ → List ℕ
decode_units [] = []
decode_units (a ∷ []) = if ltb a 0x80 then a ∷ [] else []
decode_units (a ∷ b ∷ []) = elim (ltb a 0x80) [
  | true ↦ a ∷ decode_units (b ∷ [])
  | false ↦ if a / 32 % 8 == 6 then two_bytes a b ∷ [] else []
]
decode_units (a ∷ b ∷ c ∷ rest) = elim (ltb a 0x80) [
  | true ↦ a ∷ decode_units (b ∷ c ∷ rest)
  | false ↦ elim (a / 32 % 8 == 6) [
    | true ↦ two_bytes a b ∷ decode_units (c ∷ rest)
    | false ↦ three_bytes a b c ∷ decode_units rest
  ]
]

abbrev is_high : ℕ → Bool
is_high u = leb 0xd800 u && leb u 0xdbff

abbrev is_low : ℕ → Bool
is_low u = leb 0xdc00 u && leb u 0xdfff

-- The characters of UTF-16 code units; an unpaired surrogate stays the code point it is.
unfoldable pub encode_utf16 : List ℕ → Text
encode_utf16 [] = []
encode_utf16 (u ∷ []) = u ∷ []
encode_utf16 (u ∷ v ∷ units) = elim (is_high u && is_low v) [
  | true ↦ ((u - 0xd800) * 1024 + (v - 0xdc00) + 0x10000) ∷ encode_utf16 units
  | false ↦ u ∷ encode_utf16 (v ∷ units)
]

unfoldable pub decode_modified_utf8 : List ℕ → Text
decode_modified_utf8 b = encode_utf16 (decode_units b)
