-- ===== src/Compiler/Scanner/Literals.antt =====
-- Strings, text blocks and characters in the scanner (togo/internal/compiler/scanner.go).
use cappu.Base.{
  ℕ, zero, suc, ◌+◌, ◌-◌, ◌*◌, ◌/◌, ◌%◌, Bool, true, false, ◌&&◌, ◌||◌, Option, none, some, List,
  [], ◌∷◌, ◌++◌, if◌then◌else◌, ltb, leb, ◌==◌, Text, length,
}
use cappu.Compiler.Kinds.{SyntaxKind}
use cappu.Compiler.Scanner.{
  Scanner, DiagnosticMessage, char_code_at, holds, at, advance, error, finish_raw, is_hex_digit,
  is_octal_digit, is_line_break, hex_value,
}

-- string(rune(value)): UTF-8, and U+FFFD for a surrogate
unfoldable pub rune_bytes : ℕ → Text
rune_bytes r =
    if ltb r 0x80
    then r ∷ []
    else if ltb r 0x800
    then (0xc0 + r / 64) ∷ (0x80 + r % 64) ∷ []
    else if leb 0xd800 r && leb r 0xdfff
    then 0xef ∷ 0xbf ∷ 0xbd ∷ []
    else if ltb r 0x10000
    then (0xe0 + r / 4096) ∷ (0x80 + r / 64 % 64) ∷ (0x80 + r % 64) ∷ []
    else (0xf0 + r / 262144) ∷ (0x80 + r / 4096 % 64) ∷ (0x80 + r / 64 % 64) ∷ (0x80 + r % 64) ∷ []

abbrev pub or_zero : Option ℕ → ℕ
or_zero none = 0
or_zero (some ch) = ch

-- Up to `count` hexadecimal digits: how many are missing, and their value.
unfoldable pub hex_digits : ℕ → ℕ → Scanner → ℕ × ℕ × Scanner
hex_digits zero value s = (0, value, s)
hex_digits (suc count) value s =
    let ch = or_zero (char_code_at s s.pos) in
    let rest = hex_digits count (value * 16 + hex_value ch) (advance 1 s) in
    if holds is_hex_digit (char_code_at s s.pos) then rest else (suc count, value, s)

-- Up to `count` more octal digits, as long as the value is at most 0xff.
unfoldable pub octal_digits : ℕ → ℕ → Scanner → ℕ × Scanner
octal_digits zero value s = (value, s)
octal_digits (suc count) value s = elim (char_code_at s s.pos) [
  | none ↦ (value, s)
  | some ch ↦ elim (is_octal_digit ch && leb (value * 8 + (ch - 0x30)) 0xff) [
    | true ↦ octal_digits count (value * 8 + (ch - 0x30)) (advance 1 s)
    | false ↦ (value, s)
  ]
]

-- The loop over the letters u of an escape, which no end bounds but the text's.
unfoldable pub skip_us : ℕ → Scanner → Scanner
skip_us zero s = s
skip_us (suc fuel) s = let rest = skip_us fuel (advance 1 s) in if at s s.pos 0x75 then rest else s

-- The digits of an escape by code unit.
unfoldable pub unicode_digits : Scanner → Text × Scanner
unicode_digits s =
    let (missing, value, s₁) = hex_digits 4 0 s in
    (
      rune_bytes value,
      if missing == 0 then s₁ else error DiagnosticMessage.hexadecimal_digit_expected s₁.pos 0 s₁,
    )

-- The escapes of one character.
abbrev pub simple_escapes : List (ℕ × ℕ)
simple_escapes =
    (0x62, 8)
    ∷ (0x74, 9)
    ∷ (0x6e, 10)
    ∷ (0x66, 12)
    ∷ (0x72, 13)
    ∷ (0x73, 32)
    ∷ (0x22, 0x22)
    ∷ (0x27, 0x27)
    ∷ (0x5c, 0x5c)
    ∷ []

unfoldable pub simple_escape : ℕ → List (ℕ × ℕ) → Option ℕ
simple_escape ch [] = none
simple_escape ch ((c, v) ∷ rest) = if ch == c then some v else simple_escape ch rest

-- The value of the octal digits from the first one on.
unfoldable pub octal_escape : ℕ → Scanner → Text × Scanner
octal_escape ch s = let (value, s₁) = octal_digits 2 (ch - 0x30) s in (rune_bytes value, s₁)

unfoldable pub long_escape : ℕ → Scanner → Text × Scanner
long_escape ch s =
    if ch == 0x75
    then unicode_digits (skip_us (length s.text - s.pos) s)
    else if is_octal_digit ch
    then octal_escape ch s
    else (rune_bytes ch, s)

abbrev pub or_long : Option ℕ → ℕ → Scanner → Text × Scanner
or_long (some v) ch s = (v ∷ [], s)
or_long none ch s = long_escape ch s

-- What an escape stands for, from the character behind its backslash; a backslash at the end of the
-- text stands for itself.
abbrev pub escape_of : Option ℕ → Scanner → Text × Scanner
escape_of none s = (0x5c ∷ [], advance 1 s)
escape_of (some ch) s = or_long (simple_escape ch simple_escapes) ch (advance 2 s)

unfoldable pub scan_escape_sequence : Scanner → Text × Scanner
scan_escape_sequence s = escape_of (char_code_at s (s.pos + 1)) s

abbrev pub flag_unterminated : Scanner → Scanner
flag_unterminated s = record s { token_flags = record s.token_flags { unterminated = true } }

-- The token from its start on is not closed.
unfoldable pub report_unterminated : DiagnosticMessage → Scanner → Scanner
report_unterminated m s = error m s.token_start (s.pos - s.token_start) (flag_unterminated s)

-- A piece of a value in front of what the loop finds behind it.
abbrev pub prepend : Text → Option (Text × Scanner) → Option (Text × Scanner)
prepend t none = none
prepend t (some (value, s)) = some (t ++ value, s)

-- s.text[s.pos], which panics where the text has nothing
abbrev pub or_panic : Option ℕ → Option (Text × Scanner) → Option (Text × Scanner)
or_panic none r = none
or_panic (some ch) r = r

-- What an escape or a character adds to a value, and the scanner behind it.
unfoldable pub scan_piece : Scanner → Text × Scanner
scan_piece s =
    if at s s.pos 0x5c
    then scan_escape_sequence s
    else (elim (char_code_at s s.pos) [ none ↦ [] | some ch ↦ ch ∷ [] ], advance 1 s)

-- The loop over a literal with a closing quote: its value, and none for a panic. The fuel is what is
-- left in front of the end.
unfoldable pub quoted_from : ℕ → ℕ → DiagnosticMessage → Scanner → Option (Text × Scanner)
quoted_from zero quote m s = some ([], report_unterminated m s)
quoted_from (suc fuel) quote m s =
    let rest = prepend (scan_piece s).0 (quoted_from fuel quote m (scan_piece s).1) in
    if leb s.end s.pos || holds is_line_break (char_code_at s s.pos)
    then some ([], report_unterminated m s)
    else if at s s.pos quote
    then some ([], advance 1 s)
    else or_panic (char_code_at s s.pos) rest

abbrev pub close_quoted : SyntaxKind → Option (Text × Scanner) → Option Scanner
close_quoted kind none = none
close_quoted kind (some (value, s)) = some (record s { token = kind; token_value = value })

-- A literal of a kind, from its opening quote on.
unfoldable pub scan_quoted : SyntaxKind → ℕ → DiagnosticMessage → Scanner → Option Scanner
scan_quoted kind quote m s = close_quoted kind (quoted_from (s.end - s.pos) quote m (advance 1 s))

abbrev pub at_triple_quote : Scanner → Bool
at_triple_quote s = at s s.pos 0x22 && at s (s.pos + 1) 0x22 && at s (s.pos + 2) 0x22

-- The loop over a text block, with the fuel that is left in front of the end.
unfoldable pub text_block_from : ℕ → Scanner → Scanner
text_block_from zero s = report_unterminated DiagnosticMessage.unterminated_string_literal s
text_block_from (suc fuel) s =
    let rest = text_block_from fuel (advance (if at s s.pos 0x5c then 2 else 1) s) in
    if leb s.end s.pos
    then report_unterminated DiagnosticMessage.unterminated_string_literal s
    else if at_triple_quote s
    then advance 3 s
    else rest

unfoldable pub scan_text_block : Scanner → Option Scanner
scan_text_block s =
    finish_raw SyntaxKind.text_block_literal (text_block_from (s.end - s.pos) (advance 3 s))

unfoldable pub scan_string_or_text_block : Scanner → Option Scanner
scan_string_or_text_block s =
    if at s (s.pos + 1) 0x22 && at s (s.pos + 2) 0x22
    then scan_text_block s
    else scan_quoted SyntaxKind.string_literal 0x22 DiagnosticMessage.unterminated_string_literal s

unfoldable pub scan_character_literal : Scanner → Option Scanner
scan_character_literal s =
    scan_quoted SyntaxKind.character_literal 0x27 DiagnosticMessage.unterminated_character_literal s
