-- ===== src/Compiler/Scanner/Samples.antt =====
-- Tests and examples of the scanner.
use cappu.Base.{
  ◌+◌, ◌≤◌, ◌++◌, ◌≡◌, refl, some, [], ◌∷◌, List, Text, codes, arith, All, true, false, length,
  head?, ends_with, text_eq, has_prefix, lookup,
}
use cappu.Compiler.Kinds.{SyntaxKind, no_flags, ordinal}
use cappu.Compiler.Keywords.{is_valid_identifier, is_name_letter, all_name_parts}
use cappu.Compiler.Keywords.Spelling.{first_token}
use cappu.Compiler.Scanner.{
  Scanner, new_scanner, finish_raw, token_text, slice_text, holds, is_digit, is_hex_digit,
  is_line_break, is_identifier_start, is_identifier_part,
}
use cappu.Compiler.Scanner.Numbers.{
  scan_number, scan_hex, hex_fraction, hex_exponent, scan_exponent, scan_float_suffix, digits_from,
}
use cappu.Compiler.Scanner.Literals.{rune_bytes}
use cappu.Compiler.Scanner.Tokens.{
  scan, scan_from, scan_end, scan_trivia, is_blank, scan_token, operator_of, scan_other, word_kind,
}
use cappu.Compiler.Scanner.Total.{TokenAt, scan_total}
use cappu.Compiler.Scanner.Words.{token_scanner, scan-name, scan-is_valid_identifier}
use cappu.Compiler.Scanner.Cover.{scan_all, concat, scan_all-new_scanner}
use cappu.Compiler.Escape.{java_string_text}
use cappu.Compiler.Escape.ReadBack.{utf8_text, scan-java_string_text}

-- A floating-point number in base 16 is one token.
test_hex : first_token (codes "0x1.8p+3f;") ≡ some (SyntaxKind.numeric_literal, 9)
unfolding first_token scan scan_from scan_end scan_trivia is_blank is_line_break is_digit
    is_hex_digit scan_token operator_of has_prefix scan_other scan_number scan_hex hex_fraction
    hex_exponent scan_exponent scan_float_suffix digits_from finish_raw token_text slice_text
    new_scanner ordinal
test_hex = refl

abbrev assignment : Scanner
assignment = record {
  text = codes "/* n */ int x = 010; ";
  end = 21;
  pos = 0;
  full_start_pos = 0;
  token_start = 0;
  token = SyntaxKind.unknown;
  token_value = [];
  token_flags = no_flags;
  reports = [];
}

open_end : ends_with (codes "/* n */ int x = 010; ") 0x5c ≡ false
unfolding ends_with
open_end = refl

scan_total_example :
    (s' : Scanner) × (scan assignment ≡ some s')
    × (s'.text ≡ assignment.text)
    × (s'.end ≡ 21)
    × (s'.full_start_pos ≡ 0)
    × (0 ≤ s'.token_start)
    × (s'.pos ≤ 21)
    × TokenAt s'
scan_total_example = scan_total assignment (omega arith) (omega arith) open_end

scan_all-new_scanner_example :
    (ts : List Text) × (scan_all 22 (new_scanner (codes "/* n */ int x = 010; ")) ≡ some ts)
    × (concat ts ≡ codes "/* n */ int x = 010; ")
scan_all-new_scanner_example = scan_all-new_scanner (codes "/* n */ int x = 010; ") open_end

abbrev names : Scanner
names = record assignment { text = codes "int1+2"; end = 6 }

names_start : is_identifier_start 105 ≡ true
unfolding is_identifier_start
names_start = refl

names_parts : All (λ c. is_identifier_part c ≡ true) (codes "nt1")
unfolding is_identifier_part is_identifier_start is_digit
names_parts = (refl, (refl, (refl, tt)))

names_end : holds is_identifier_part (head? (codes "+2")) ≡ false
unfolding is_identifier_part is_identifier_start is_digit
names_end = refl

scan-name_example :
    (s' : Scanner) × (scan names ≡ some s')
    × (s'.token ≡ word_kind (codes "int1"))
    × (s'.token_value ≡ codes "int1")
    × (s'.token_start ≡ 0)
    × (s'.pos ≡ 0 + 4)
scan-name_example =
    scan-name names 105 (codes "nt1") (codes "+2") refl refl names_start names_parts names_end

legal_name : is_valid_identifier (codes "x_1") ≡ true
unfolding is_valid_identifier is_name_letter all_name_parts lookup text_eq
legal_name = refl

scan-is_valid_identifier_example :
    (s : Scanner) × (scan (new_scanner (codes "x_1")) ≡ some s)
    × (s.token ≡ SyntaxKind.identifier)
    × (s.token_value ≡ codes "x_1")
    × (s.pos ≡ 3)
scan-is_valid_identifier_example = scan-is_valid_identifier (codes "x_1") legal_name

-- A string with a quote, a newline, a control character and one outside of ASCII.
abbrev letter_text : Text
letter_text = codes "a\"" ++ 10 ∷ 1 ∷ 233 ∷ []

abbrev literal : Scanner
literal = record assignment {
  text = 0x22 ∷ java_string_text letter_text ++ 0x22 ∷ codes ";";
  end = length (0x22 ∷ java_string_text letter_text ++ 0x22 ∷ codes ";");
}

scan-java_string_text_example :
    scan literal
    ≡ some (record (token_scanner literal) {
      pos = 0 + length (0x22 ∷ java_string_text letter_text) + 1;
      token = SyntaxKind.string_literal;
      token_value = utf8_text letter_text;
    })
scan-java_string_text_example = scan-java_string_text letter_text (codes ";") literal refl refl refl

test_literal : utf8_text letter_text ≡ codes "a\"" ++ 10 ∷ 1 ∷ 0xc3 ∷ 0xa9 ∷ []
unfolding utf8_text rune_bytes
test_literal = refl
