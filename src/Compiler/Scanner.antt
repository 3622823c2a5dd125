-- ===== src/Compiler/Scanner.antt =====
-- The lexical scanner of Java (togo/internal/compiler/scanner.go); a text is the list of its bytes.
pub mod Numbers
pub mod Literals
pub mod Tokens
pub mod Moves
pub mod NumberMoves
pub mod LiteralMoves
pub mod Progress
pub mod Loop
pub mod Total
pub mod Words
pub mod Overrun
pub mod Quoted
pub mod Cover
mod Samples
use cappu.Base.{
  ℕ, zero, suc, ◌+◌, ◌-◌, Bool, true, false, not, ◌&&◌, ◌||◌, Option, none, some, List, [], ◌∷◌,
  if◌then◌else◌, ltb, leb, ◌==◌, Text, length, get_elem?, take, drop,
}
use cappu.Compiler.Kinds.{SyntaxKind, TokenFlags, no_flags, ordinal}

unfoldable pub is_digit : ℕ → Bool
is_digit ch = leb 0x30 ch && leb ch 0x39

unfoldable pub is_octal_digit : ℕ → Bool
is_octal_digit ch = leb 0x30 ch && leb ch 0x37

unfoldable pub is_hex_digit : ℕ → Bool
unfolding is_digit
is_hex_digit ch = is_digit ch || (leb 0x41 ch && leb ch 0x46) || (leb 0x61 ch && leb ch 0x66)

unfoldable pub is_binary_digit : ℕ → Bool
is_binary_digit ch = ch == 0x30 || ch == 0x31

unfoldable pub hex_value : ℕ → ℕ
unfolding is_digit
hex_value ch =
    if is_digit ch
    then ch - 0x30
    else if leb 0x41 ch && leb ch 0x46
    then ch - 0x41 + 10
    else ch - 0x61 + 10

unfoldable pub is_line_break : ℕ → Bool
is_line_break ch = ch == 0x0a || ch == 0x0d

unfoldable pub is_identifier_start : ℕ → Bool
is_identifier_start ch =
    (leb 0x41 ch && leb ch 0x5a)
    || (leb 0x61 ch && leb ch 0x7a)
    || ch == 0x5f
    || ch == 0x24
    || ltb 0x7f ch

unfoldable pub is_identifier_part : ℕ → Bool
unfolding is_identifier_start is_digit
is_identifier_part ch = is_identifier_start ch || is_digit ch

pub data DiagnosticMessage : Type 0 where
  unterminated_comment : DiagnosticMessage
  invalid_character : DiagnosticMessage
  hexadecimal_digit_expected : DiagnosticMessage
  binary_digit_expected : DiagnosticMessage
  digit_expected : DiagnosticMessage
  unterminated_string_literal : DiagnosticMessage
  unterminated_character_literal : DiagnosticMessage

-- A call of the error callback.
pub record Report : Type 0 where
  pub message : DiagnosticMessage
  pub pos : ℕ
  pub length : ℕ

-- The scanner, with the calls of the callback so far, the last one first.
pub record Scanner : Type 0 where
  pub text : Text
  pub end : ℕ
  pub pos : ℕ
  pub full_start_pos : ℕ
  pub token_start : ℕ
  pub token : SyntaxKind
  pub token_value : Text
  pub token_flags : TokenFlags
  pub reports : List Report

unfoldable pub new_scanner : Text → Scanner
new_scanner text = record {
  text = text;
  end = length text;
  pos = 0;
  full_start_pos = 0;
  token_start = 0;
  token = SyntaxKind.unknown;
  token_value = [];
  token_flags = no_flags;
  reports = [];
}

unfoldable pub reset_token_state : ℕ → Scanner → Scanner
reset_token_state position s = record s {
  pos = position;
  full_start_pos = position;
  token_start = position;
  token = SyntaxKind.unknown;
  token_value = [];
  token_flags = no_flags;
}

-- The text from `start` on, of the given length; none is the negative length, for all of it.
unfoldable pub set_text : Text → ℕ → Option ℕ → Scanner → Scanner
unfolding reset_token_state
set_text new_text start none s =
    reset_token_state start (record s { text = new_text; end = length new_text })
set_text new_text start (some n) s =
    reset_token_state start (record s { text = new_text; end = start + n })

-- charCodeAt gives -1, here none, past the end of the text; a test is false there.
abbrev pub char_code_at : Scanner → ℕ → Option ℕ
char_code_at s i = get_elem? s.text i

abbrev pub holds : (ℕ → Bool) → Option ℕ → Bool
holds p none = false
holds p (some ch) = p ch

-- s.charCodeAt(i) == c
abbrev pub at : Scanner → ℕ → ℕ → Bool
at s i c = holds (λ ch. ch == c) (char_code_at s i)

abbrev pub at_either : Scanner → ℕ → ℕ → ℕ → Bool
at_either s i c d = at s i c || at s i d

abbrev pub advance : ℕ → Scanner → Scanner
advance n s = record s { pos = s.pos + n }

unfoldable pub error : DiagnosticMessage → ℕ → ℕ → Scanner → Scanner
error m p n s = record s { reports = record { message = m; pos = p; length = n } ∷ s.reports }

-- s.set(kind)
abbrev pub set_kind : SyntaxKind → Scanner → Scanner
set_kind kind s = record s { token = kind }

-- s[a:b], which panics out of bounds
unfoldable pub slice_text : Text → ℕ → ℕ → Option Text
slice_text text a b =
    if leb a b && leb b (length text) then some (take (b - a) (drop a text)) else none

unfoldable pub token_text : Scanner → Option Text
token_text s = slice_text s.text s.token_start s.pos

abbrev pub set_value : SyntaxKind → Scanner → Option Text → Option Scanner
set_value kind s none = none
set_value kind s (some t) = some (record s { token = kind; token_value = t })

-- A token whose value is its text.
unfoldable pub finish_raw : SyntaxKind → Scanner → Option Scanner
finish_raw kind s = set_value kind s (token_text s)

-- A loop that moves on while the character passes a test. The fuel is what is left in front of the
-- end.
unfoldable pub skip_from : (Option ℕ → Bool) → ℕ → Scanner → Scanner
skip_from p zero s = s
skip_from p (suc fuel) s =
    let rest = skip_from p fuel (advance 1 s) in
    if ltb s.pos s.end && p (char_code_at s s.pos) then rest else s

abbrev pub skip_while : (Option ℕ → Bool) → Scanner → Scanner
skip_while p s = skip_from p (s.end - s.pos) s
