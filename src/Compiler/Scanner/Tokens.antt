-- ===== src/Compiler/Scanner/Tokens.antt =====
-- Scanning a token (togo/internal/compiler/scanner.go).
use cappu.Base.{
  ℕ, zero, suc, ◌+◌, ◌-◌, Bool, true, not, ◌&&◌, ◌||◌, Option, none, some, List, [], ◌∷◌,
  if◌then◌else◌, leb, ◌==◌, Text, codes, lookup, has_prefix, drop, length,
}
use cappu.Compiler.Kinds.{SyntaxKind, TokenFlags, no_flags, ordinal}
use cappu.Compiler.Keywords.{text_to_keyword}
use cappu.Compiler.Scanner.{
  Scanner, DiagnosticMessage, char_code_at, holds, at, advance, error, set_kind, token_text,
  skip_while, is_digit, is_line_break, is_identifier_start, is_identifier_part,
}
use cappu.Compiler.Scanner.Numbers.{scan_number}
use cappu.Compiler.Scanner.Literals.{
  report_unterminated, scan_string_or_text_block, scan_character_literal,
}

abbrev pub flag_line_break : Scanner → Scanner
flag_line_break s = record s { token_flags = record s.token_flags { preceding_line_break = true } }

unfoldable pub is_blank : ℕ → Bool
is_blank ch = ch == 0x20 || ch == 0x09 || ch == 0x0c || ch == 0x0b

-- A comment up to the end of the line, from its text on.
abbrev pub scan_line_comment : Scanner → Scanner
scan_line_comment s = skip_while (λ o. not (holds is_line_break o)) s

-- The loop over a comment in the text of a line or more, with the fuel that is left in front of the
-- end.
unfoldable pub block_comment_from : ℕ → Scanner → Scanner
block_comment_from zero s = report_unterminated DiagnosticMessage.unterminated_comment s
block_comment_from (suc fuel) s =
    let s₁ = if holds is_line_break (char_code_at s s.pos) then flag_line_break s else s in
    let rest = block_comment_from fuel (advance 1 s₁) in
    if leb s.end s.pos
    then report_unterminated DiagnosticMessage.unterminated_comment s
    else if at s s.pos 0x2a && at s (s.pos + 1) 0x2f
    then advance 2 s
    else rest

-- The scanner behind a piece of trivia, if one starts here.
unfoldable pub scan_trivia : Scanner → Option Scanner
scan_trivia s =
    if holds is_line_break (char_code_at s s.pos)
    then some (advance 1 (flag_line_break s))
    else if holds is_blank (char_code_at s s.pos)
    then some (advance 1 s)
    else if at s s.pos 0x2f && at s (s.pos + 1) 0x2f
    then some (scan_line_comment (advance 2 s))
    else if at s s.pos 0x2f && at s (s.pos + 1) 0x2a
    then some (block_comment_from (s.end - (s.pos + 2)) (advance 2 s))
    else none

-- The cases of the operators, in the order of the tests.
abbrev pub operators : List (Text × SyntaxKind)
operators =
    (codes "{", SyntaxKind.open_brace_token)
    ∷ (codes "}", SyntaxKind.close_brace_token)
    ∷ (codes "(", SyntaxKind.open_paren_token)
    ∷ (codes ")", SyntaxKind.close_paren_token)
    ∷ (codes "[", SyntaxKind.open_bracket_token)
    ∷ (codes "]", SyntaxKind.close_bracket_token)
    ∷ (codes ";", SyntaxKind.semicolon_token)
    ∷ (codes ",", SyntaxKind.comma_token)
    ∷ (codes "@", SyntaxKind.at_token)
    ∷ (codes "?", SyntaxKind.question_token)
    ∷ (codes "~", SyntaxKind.tilde_token)
    ∷ (codes "::", SyntaxKind.colon_colon_token)
    ∷ (codes ":", SyntaxKind.colon_token)
    ∷ (codes "...", SyntaxKind.dot_dot_dot_token)
    ∷ (codes ".", SyntaxKind.dot_token)
    ∷ (codes "++", SyntaxKind.plus_plus_token)
    ∷ (codes "+=", SyntaxKind.plus_equals_token)
    ∷ (codes "+", SyntaxKind.plus_token)
    ∷ (codes "--", SyntaxKind.minus_minus_token)
    ∷ (codes "-=", SyntaxKind.minus_equals_token)
    ∷ (codes "->", SyntaxKind.arrow_token)
    ∷ (codes "-", SyntaxKind.minus_token)
    ∷ (codes "*=", SyntaxKind.asterisk_equals_token)
    ∷ (codes "*", SyntaxKind.asterisk_token)
    ∷ (codes "/=", SyntaxKind.slash_equals_token)
    ∷ (codes "/", SyntaxKind.slash_token)
    ∷ (codes "%=", SyntaxKind.percent_equals_token)
    ∷ (codes "%", SyntaxKind.percent_token)
    ∷ (codes "==", SyntaxKind.equals_equals_token)
    ∷ (codes "=", SyntaxKind.equals_token)
    ∷ (codes "!=", SyntaxKind.exclamation_equals_token)
    ∷ (codes "!", SyntaxKind.exclamation_token)
    ∷ (codes "&&", SyntaxKind.ampersand_ampersand_token)
    ∷ (codes "&=", SyntaxKind.ampersand_equals_token)
    ∷ (codes "&", SyntaxKind.ampersand_token)
    ∷ (codes "||", SyntaxKind.bar_bar_token)
    ∷ (codes "|=", SyntaxKind.bar_equals_token)
    ∷ (codes "|", SyntaxKind.bar_token)
    ∷ (codes "^=", SyntaxKind.caret_equals_token)
    ∷ (codes "^", SyntaxKind.caret_token)
    ∷ (codes "<<=", SyntaxKind.less_than_less_than_equals_token)
    ∷ (codes "<<", SyntaxKind.less_than_less_than_token)
    ∷ (codes "<=", SyntaxKind.less_than_equals_token)
    ∷ (codes "<", SyntaxKind.less_than_token)
    ∷ (codes ">", SyntaxKind.greater_than_token)
    ∷ []

-- The first operator that the text begins with.
unfoldable pub operator_of : Text → List (Text × SyntaxKind) → Option (Text × SyntaxKind)
operator_of s [] = none
operator_of s ((op, kind) ∷ rest) = if has_prefix s op then some (op, kind) else operator_of s rest

-- The keyword that a name is, or an identifier.
unfoldable pub word_kind : Text → SyntaxKind
word_kind name = elim (lookup name text_to_keyword) [ some kw ↦ kw | none ↦ SyntaxKind.identifier ]

abbrev pub set_word : Scanner → Option Text → Option Scanner
set_word s none = none
set_word s (some name) = some (record s { token = word_kind name; token_value = name })

unfoldable pub scan_identifier_or_keyword : Scanner → Option Scanner
scan_identifier_or_keyword s =
    let s₁ = skip_while (holds is_identifier_part) s in set_word s₁ (token_text s₁)

-- The default case.
unfoldable pub scan_other : Scanner → Option Scanner
scan_other s =
    if holds is_digit (char_code_at s s.pos)
    then scan_number s
    else if holds is_identifier_start (char_code_at s s.pos)
    then scan_identifier_or_keyword s
    else some (
        set_kind SyntaxKind.unknown
          (advance 1 (error DiagnosticMessage.invalid_character s.pos 1 s)))

-- A token that starts here.
unfoldable pub scan_token : Scanner → Option Scanner
scan_token s =
    if at s s.pos 0x2e && holds is_digit (char_code_at s (s.pos + 1))
    then scan_number s
    else if at s s.pos 0x22
    then scan_string_or_text_block s
    else if at s s.pos 0x27
    then scan_character_literal s
    else elim (operator_of (drop s.pos s.text) operators) [
      | some (op, kind) ↦ some (set_kind kind (advance (length op) s))
      | none ↦ scan_other s
    ]

-- The end of the text, if the scanner is there.
unfoldable pub scan_end : Scanner → Option Scanner
scan_end s =
    if leb s.end s.pos
    then some (record s { token_start = s.pos; token = SyntaxKind.end_of_file_token })
    else none

-- The loop of Scan; none is a panic. The fuel is what is left in front of the end, so that without
-- fuel the scanner is there.
unfoldable pub scan_from : ℕ → Scanner → Option Scanner
scan_from zero s = scan_end s
scan_from (suc fuel) s = elim (scan_end s) [
  | some s₁ ↦ some s₁
  | none ↦
      let s₁ = record s { token_start = s.pos } in
      elim (scan_trivia s₁) [ some s₂ ↦ scan_from fuel s₂ | none ↦ scan_token s₁ ]
]

unfoldable pub scan : Scanner → Option Scanner
scan s =
    scan_from (s.end - s.pos)
      (record s { full_start_pos = s.pos; token_flags = no_flags; token_value = [] })

-- A '>' with what makes it a wider operator.
unfoldable pub rescan_greater_token : Scanner → Scanner
rescan_greater_token s =
    if not (ordinal s.token == ordinal SyntaxKind.greater_than_token)
    then s
    else if at s s.pos 0x3e && at s (s.pos + 1) 0x3e && at s (s.pos + 2) 0x3d
    then set_kind SyntaxKind.greater_than_greater_than_greater_than_equals_token (advance 3 s)
    else if at s s.pos 0x3e && at s (s.pos + 1) 0x3e
    then set_kind SyntaxKind.greater_than_greater_than_greater_than_token (advance 2 s)
    else if at s s.pos 0x3e && at s (s.pos + 1) 0x3d
    then set_kind SyntaxKind.greater_than_greater_than_equals_token (advance 2 s)
    else if at s s.pos 0x3e
    then set_kind SyntaxKind.greater_than_greater_than_token (advance 1 s)
    else if at s s.pos 0x3d
    then set_kind SyntaxKind.greater_than_equals_token (advance 1 s)
    else s

-- What speculation keeps.
pub record ScanState : Type 0 where
  pub pos : ℕ
  pub full_start_pos : ℕ
  pub token_start : ℕ
  pub token : SyntaxKind
  pub token_value : Text
  pub token_flags : TokenFlags

unfoldable pub snapshot : Scanner → ScanState
snapshot s = record {
  pos = s.pos;
  full_start_pos = s.full_start_pos;
  token_start = s.token_start;
  token = s.token;
  token_value = s.token_value;
  token_flags = s.token_flags;
}

unfoldable pub restore : ScanState → Scanner → Scanner
restore st s = record s {
  pos = st.pos;
  full_start_pos = st.full_start_pos;
  token_start = st.token_start;
  token = st.token;
  token_value = st.token_value;
  token_flags = st.token_flags;
}

-- A callback moves the scanner on and returns a result.
unfoldable pub look_ahead {ℓ} : {A : Type ℓ} → (Scanner → A × Scanner) → Scanner → A × Scanner
unfolding snapshot restore
look_ahead cb s = let (result, s₁) = cb s in (result, restore (snapshot s) s₁)

-- The scanner goes back if the result is the zero value.
unfoldable pub try_scan {ℓ} :
    {A : Type ℓ} → (A → Bool) → (Scanner → A × Scanner) → Scanner → A × Scanner
unfolding snapshot restore
try_scan is_zero cb s =
    let (result, s₁) = cb s in (result, if is_zero result then restore (snapshot s) s₁ else s₁)
