-- ===== src/Compiler/Escape.antt =====
-- Strings in the output of the disassembler and of the decompiler (togo/internal/compiler/disasm.go,
-- decompile.go). A string is the list of its code points, where an unpaired surrogate, three bytes
-- of WTF-8, is its own code point; what is written is bytes.
pub mod Units
pub mod ReadBack
use cappu.Base.{
  ℕ, ◌+◌, ◌-◌, ◌/◌, ◌%◌, Bool, true, false, ◌&&◌, ◌||◌, Option, none, some, List, [], ◌∷◌, ◌++◌,
  if◌then◌else◌, ltb, leb, ◌==◌, Text,
}
use cappu.Compiler.Scanner.Literals.{rune_bytes}

unfoldable pub is_surrogate : ℕ → Bool
is_surrogate r = leb 0xd800 r && leb r 0xdfff

-- A digit of %x.
unfoldable pub hex_digit : ℕ → ℕ
hex_digit d = if ltb d 10 then 0x30 + d else 0x61 + (d - 10)

-- \u and %04x, for a number of four digits
unfoldable pub unicode_escape : ℕ → Text
unfolding hex_digit
unicode_escape r =
    0x5c
    ∷ 0x75
    ∷ hex_digit (r / 4096)
    ∷ hex_digit (r / 256 % 16)
    ∷ hex_digit (r / 16 % 16)
    ∷ hex_digit (r % 16)
    ∷ []

-- The cases with an escape of one letter.
abbrev pub letters : List (ℕ × ℕ)
letters =
    (0x5c, 0x5c)
    ∷ (0x22, 0x22)
    ∷ (0x27, 0x27)
    ∷ (10, 0x6e)
    ∷ (13, 0x72)
    ∷ (9, 0x74)
    ∷ (8, 0x62)
    ∷ (12, 0x66)
    ∷ []

unfoldable pub letter_of : ℕ → List (ℕ × ℕ) → Option ℕ
letter_of r [] = none
letter_of r ((c, l) ∷ rest) = if r == c then some l else letter_of r rest

-- The control characters that are escaped by their number.
unfoldable pub is_control : ℕ → Bool
is_control r = ltb r 0x20 || (leb 0x7f r && leb r 0x9f)

-- The switch on a character.
unfoldable pub escape_rune : ℕ → Text
escape_rune r = elim (letter_of r letters) [
  | some l ↦ 0x5c ∷ l ∷ []
  | none ↦ if is_control r then unicode_escape r else rune_bytes r
]

unfoldable pub escape_string : Text → Text
escape_string [] = []
escape_string (r ∷ s) = (if is_surrogate r then 0x3f ∷ [] else escape_rune r) ++ escape_string s

-- The inside of a Java string literal.
unfoldable pub java_string_text : Text → Text
java_string_text [] = []
java_string_text (r ∷ s) =
    (if is_surrogate r then unicode_escape r else escape_rune r) ++ java_string_text s
