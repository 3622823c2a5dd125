-- ===== src/Compiler/Scanner/Numbers.antt =====
-- Numbers in the scanner (togo/internal/compiler/scanner.go).
use cappu.Base.{
  ℕ, zero, suc, ◌+◌, ◌-◌, Bool, true, false, not, ◌&&◌, ◌||◌, Option, if◌then◌else◌, ltb,
}
use cappu.Compiler.Kinds.{SyntaxKind}
use cappu.Compiler.Scanner.{
  Scanner, DiagnosticMessage, char_code_at, holds, at, at_either, advance, error, finish_raw,
  is_digit, is_hex_digit, is_binary_digit,
}

abbrev pub flag_underscore : Scanner → Scanner
flag_underscore s = record s { token_flags = record s.token_flags { contains_underscore = true } }

-- The loop over digits and underscores: whether there was a digit. The fuel is what is left in front
-- of the end.
unfoldable pub digits_from : (ℕ → Bool) → ℕ → Bool → Scanner → Bool × Scanner
digits_from p zero seen s = (seen, s)
digits_from p (suc fuel) seen s =
    let digit = holds p (char_code_at s s.pos) in
    let rest =
      digits_from p fuel (seen || digit) (advance 1 (if digit then s else flag_underscore s)) in
    if ltb s.pos s.end && (digit || at s s.pos 0x5f) then rest else (seen, s)

abbrev pub scan_digits_with_underscores : (ℕ → Bool) → Scanner → Bool × Scanner
scan_digits_with_underscores p s = digits_from p (s.end - s.pos) false s

-- An error unless there was a digit.
abbrev pub digits_expected : DiagnosticMessage → Bool × Scanner → Scanner
digits_expected m (true, s) = s
digits_expected m (false, s) = error m s.pos 0 s

-- s.pos++ at one of two characters
abbrev pub skip_either : ℕ → ℕ → Scanner → Scanner
skip_either c d s = if at_either s s.pos c d then advance 1 s else s

-- The exponent behind its letter.
unfoldable pub scan_exponent : Scanner → Scanner
scan_exponent s =
    digits_expected DiagnosticMessage.digit_expected
      (scan_digits_with_underscores is_digit (skip_either 0x2b 0x2d (advance 1 s)))

abbrev pub flag_long : Scanner → Scanner
flag_long s = record s { token_flags = record s.token_flags { long_suffix = true } }

abbrev pub flag_float : Scanner → Scanner
flag_float s = record s { token_flags = record s.token_flags { float_suffix = true } }

abbrev pub flag_double : Scanner → Scanner
flag_double s = record s { token_flags = record s.token_flags { double_suffix = true } }

unfoldable pub scan_integer_suffix : Scanner → Scanner
scan_integer_suffix s = if at_either s s.pos 0x6c 0x4c then advance 1 (flag_long s) else s

unfoldable pub scan_float_suffix : Scanner → Scanner
scan_float_suffix s =
    if at_either s s.pos 0x66 0x46
    then advance 1 (flag_float s)
    else if at_either s s.pos 0x64 0x44
    then advance 1 (flag_double s)
    else s

-- What stands behind the digits of a number in base 16: a fraction makes it a float.
unfoldable pub hex_fraction : Bool × Scanner → Bool × Scanner
hex_fraction (had_digits, s) =
    if at s s.pos 0x2e
    then (true, (scan_digits_with_underscores is_hex_digit (advance 1 s)).1)
    else (false, digits_expected DiagnosticMessage.hexadecimal_digit_expected (had_digits, s))

-- So does an exponent.
unfoldable pub hex_exponent : Bool × Scanner → Bool × Scanner
hex_exponent (is_float, s) =
    if at_either s s.pos 0x70 0x50 then (true, scan_exponent s) else (is_float, s)

abbrev pub hex_suffix : Bool × Scanner → Scanner
hex_suffix (true, s) = scan_float_suffix s
hex_suffix (false, s) = scan_integer_suffix s

unfoldable pub scan_hex : Scanner → Scanner
scan_hex s =
    let s₁ = record s { token_flags = record s.token_flags { hex_specifier = true } } in
    hex_suffix
      (hex_exponent (hex_fraction (scan_digits_with_underscores is_hex_digit (advance 2 s₁))))

unfoldable pub scan_binary : Scanner → Scanner
scan_binary s =
    let s₁ = record s { token_flags = record s.token_flags { binary_specifier = true } } in
    scan_integer_suffix (
      digits_expected DiagnosticMessage.binary_digit_expected
        (scan_digits_with_underscores is_binary_digit (advance 2 s₁)))

unfoldable pub decimal_fraction : Scanner → Bool × Scanner
decimal_fraction s =
    if at s s.pos 0x2e
    then (true, (scan_digits_with_underscores is_digit (advance 1 s)).1)
    else (false, s)

unfoldable pub decimal_exponent : Bool × Scanner → Bool × Scanner
decimal_exponent (is_float, s) =
    if at_either s s.pos 0x65 0x45 then (true, scan_exponent s) else (is_float, s)

-- The suffix of a decimal number, from whether it is a float and whether it starts with a zero.
unfoldable pub decimal_suffix : Bool → Bool × Scanner → Scanner
decimal_suffix first_zero (is_float, s) =
    if at_either s s.pos 0x66 0x46
    then advance 1 (flag_float s)
    else if at_either s s.pos 0x64 0x44
    then advance 1 (flag_double s)
    else if not is_float && at_either s s.pos 0x6c 0x4c
    then advance 1 (flag_long s)
    else if not is_float && first_zero && ltb 1 (s.pos - s.token_start)
    then record s { token_flags = record s.token_flags { octal_specifier = true } }
    else s

unfoldable pub scan_decimal : Scanner → Scanner
scan_decimal s =
    decimal_suffix (at s s.pos 0x30)
      (decimal_exponent (decimal_fraction (scan_digits_with_underscores is_digit s).1))

unfoldable pub scan_number : Scanner → Option Scanner
scan_number s = finish_raw SyntaxKind.numeric_literal (
    if at s s.pos 0x30 && at_either s (s.pos + 1) 0x78 0x58
    then scan_hex s
    else if at s s.pos 0x30 && at_either s (s.pos + 1) 0x62 0x42
    then scan_binary s
    else scan_decimal s)
