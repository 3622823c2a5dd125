-- ===== src/Compiler/Escape/Units.antt =====
-- Escapes by code unit: the scanner (togo/internal/compiler/scanner.go) reads the digits that the
-- disassembler (togo/internal/compiler/disasm.go) writes.
use cappu.Base.{
  ℕ, zero, suc, ◌+◌, ◌-◌, ◌*◌, ◌/◌, ◌%◌, ◌<◌, true, false, [], ◌∷◌, ◌++◌, ◌==◌, Text, length, drop,
  ◌≡◌, refl, ap, ap₂, ◌∙◌, arith, drop-append, get_elem?-ahead,
}
use cappu.Compiler.Scanner.{Scanner, holds, at, advance, is_hex_digit, is_digit, hex_value}
use cappu.Compiler.Scanner.Literals.{
  long_escape, rune_bytes, scan_escape_sequence, escape_of, simple_escape, escape_of,
  unicode_digits, hex_digits, skip_us,
}
use cappu.Compiler.Scanner.Words.{move_to}
use cappu.Compiler.Scanner.Quoted.{Reads, Reads-escape}
use cappu.Compiler.Escape.{hex_digit, unicode_escape}

-- The digits of an escape.
digit_read :
    (d : ℕ)
    → d < 16
    → (is_hex_digit (hex_digit d) ≡ true)
      × (hex_value (hex_digit d) ≡ d)
      × ((hex_digit d == 0x75) ≡ false)
unfolding is_hex_digit is_digit hex_value hex_digit
digit_read d h = ground (arith, h)

skip_us_none : (fuel : ℕ) (s : Scanner) → at s s.pos 0x75 ≡ false → skip_us fuel s ≡ s
unfolding skip_us
skip_us_none zero s h = refl
skip_us_none (suc fuel) s h = rw h refl

-- One digit of four.
hex_digits-step :
    (count value d : ℕ) (s : Scanner) (rest : Text)
    → d < 16
    → drop s.pos s.text ≡ hex_digit d ∷ rest
    → hex_digits (suc count) value s ≡ hex_digits count (value * 16 + d) (advance 1 s)
unfolding hex_digits
hex_digits-step count value d s rest lt e =
    let (is, v, _) = digit_read d lt in
    rw (get_elem?-ahead s.text s.pos (hex_digit d) rest e, is, v) refl

-- The four digits of a number, behind the letter of the escape.
abbrev pub digits_of : ℕ → Text
digits_of r =
    hex_digit (r / 4096)
    ∷ hex_digit (r / 256 % 16)
    ∷ hex_digit (r / 16 % 16)
    ∷ hex_digit (r % 16)
    ∷ []

hex_digits-four :
    (r : ℕ) (s : Scanner) (rest : Text)
    → r < 0x10000
    → drop s.pos s.text ≡ digits_of r ++ rest
    → hex_digits 4 0 s ≡ (0, r, move_to s (s.pos + 4))
unfolding hex_digits
hex_digits-four r s rest lt e =
    let d₃ = hex_digit (r / 4096) in
    let d₂ = hex_digit (r / 256 % 16) in
    let d₁ = hex_digit (r / 16 % 16) in
    let d₀ = hex_digit (r % 16) in
    let e₂ = drop-append s.pos s.text (d₃ ∷ []) (d₂ ∷ d₁ ∷ d₀ ∷ rest) e in
    let e₁ = drop-append (s.pos + 1) s.text (d₂ ∷ []) (d₁ ∷ d₀ ∷ rest) e₂ in
    let e₀ = drop-append (s.pos + 1 + 1) s.text (d₁ ∷ []) (d₀ ∷ rest) e₁ in
    let v₃ = 0 * 16 + r / 4096 in
    let v₂ = v₃ * 16 + r / 256 % 16 in
    let v₁ = v₂ * 16 + r / 16 % 16 in
    let whole : v₁ * 16 + r % 16 ≡ r = omega (arith, lt) in
    let place : s.pos + 1 + 1 + 1 + 1 ≡ s.pos + 4 = omega arith in
    hex_digits-step 3 0 (r / 4096) s (d₂ ∷ d₁ ∷ d₀ ∷ rest) (omega (arith, lt)) e
    ∙ hex_digits-step 2 v₃ (r / 256 % 16) (advance 1 s) (d₁ ∷ d₀ ∷ rest) (omega arith) e₂
    ∙ hex_digits-step 1 v₂ (r / 16 % 16) (advance 1 (advance 1 s)) (d₀ ∷ rest) (omega arith) e₁
    ∙ hex_digits-step 0 v₁ (r % 16) (advance 1 (advance 1 (advance 1 s))) rest (omega arith) e₀
    ∙ ap₂ (λ v p. (0, v, move_to s p)) whole place

unicode_digits-read :
    (r : ℕ) (s : Scanner) (rest : Text)
    → r < 0x10000
    → drop s.pos s.text ≡ digits_of r ++ rest
    → unicode_digits s ≡ (rune_bytes r, move_to s (s.pos + 4))
unfolding unicode_digits
unicode_digits-read r s rest lt e = rw (hex_digits-four r s rest lt e) refl

pub unicode-Reads : (r : ℕ) → r < 0x10000 → Reads 0x22 (unicode_escape r) (rune_bytes r)
unfolding unicode_escape scan_escape_sequence long_escape simple_escape
unicode-Reads r lt = Reads-escape 0x22 0x75 (digits_of r) (rune_bytes r) refl (λ s rest d.
    let s₂ = advance 2 s in
    let d₁ = drop-append s.pos s.text (0x5c ∷ []) (0x75 ∷ digits_of r ++ rest) d in
    let d₂ = drop-append s.pos s.text (0x5c ∷ 0x75 ∷ []) (digits_of r ++ rest) d in
    let first =
      get_elem?-ahead s.text (s.pos + 2) (hex_digit (r / 4096))
        (hex_digit (r / 256 % 16) ∷ hex_digit (r / 16 % 16) ∷ hex_digit (r % 16) ∷ rest) d₂ in
    let no_u : at s₂ s₂.pos 0x75 ≡ false =
      ap (holds (λ ch. ch == 0x75)) first ∙ (digit_read (r / 4096) (omega (arith, lt))).2 in
    let place : s.pos + 2 + 4 ≡ s.pos + 6 = omega arith in
    ap (λ o. escape_of o s) (get_elem?-ahead s.text (s.pos + 1) 0x75 (digits_of r ++ rest) d₁)
    ∙ ap unicode_digits (skip_us_none (length s.text - s₂.pos) s₂ no_u)
    ∙ unicode_digits-read r s₂ rest lt d₂
    ∙ ap (λ p. (rune_bytes r, move_to s p)) place)
