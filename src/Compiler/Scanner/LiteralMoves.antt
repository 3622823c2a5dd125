-- ===== src/Compiler/Scanner/LiteralMoves.antt =====
-- How far a literal with quotes in the scanner (togo/internal/compiler/scanner.go) goes.
use cappu.Base.{
  ℕ, zero, suc, ◌+◌, ◌-◌, ◌*◌, ◌≤◌, ◌<◌, true, false, ◌&&◌, ◌||◌, Option, none, some, [], ◌∷◌, ◌++◌,
  option_cases, elim_cases, if◌then◌else◌, if_cases, leb, ◌==◌, Text, length, get_elem?, ◌≡◌, inl,
  inr, refl, arith, &&_true, ||_false, leb-false, ends_with, ==_iff, Bool-cases, suc,
}
use cappu.Compiler.Scanner.{
  Scanner, char_code_at, holds, at, advance, error, DiagnosticMessage, is_hex_digit, is_octal_digit,
  hex_value, is_line_break,
}
use cappu.Compiler.Scanner.Literals.{
  hex_digits, octal_digits, skip_us, unicode_digits, simple_escape, simple_escapes, octal_escape,
  long_escape, or_long, or_zero, escape_of, scan_escape_sequence, report_unterminated, prepend,
  scan_piece, quoted_from, at_triple_quote, text_block_from,
}
use cappu.Compiler.Scanner.Moves.{
  frame, Moves, Fits, Moves-refl, Moves-trans, Moves-Fits, holds_lt, advance-Moves, at-Moves,
  Advances, Advances-Moves, if-Moves,
}

char_lt : (s : Scanner) (i ch : ℕ) → char_code_at s i ≡ some ch → i < length s.text
char_lt s i ch e = holds_lt (λ _. true) s.text i (rw e refl)

char_there : (text : Text) (i : ℕ) → i < length text → (ch : ℕ) × (get_elem? text i ≡ some ch)
char_there [] i lt = absurd (omega (arith, lt))
char_there (c ∷ text) zero lt = (c, refl)
char_there (c ∷ text) (suc i) lt = char_there text i (omega (arith, lt))

hex_digits-Moves : (count value : ℕ) (s : Scanner) → Moves s (hex_digits count value s).2
unfolding hex_digits
hex_digits-Moves zero value s = Moves-refl s
hex_digits-Moves (suc count) value s =
    let ch = or_zero (char_code_at s s.pos) in
    let next = hex_digits count (value * 16 + hex_value ch) (advance 1 s) in
    if_cases (λ (r : ℕ × ℕ × Scanner). Moves s r.2) (holds is_hex_digit (char_code_at s s.pos))
      (λ e.
        Moves-trans s (advance 1 s) next.2 (at-Moves is_hex_digit s e)
          (hex_digits-Moves count (value * 16 + hex_value ch) (advance 1 s)))
      (λ _. Moves-refl s)

octal_digits-Moves : (count value : ℕ) (s : Scanner) → Moves s (octal_digits count value s).1
unfolding octal_digits
octal_digits-Moves zero value s = Moves-refl s
octal_digits-Moves (suc count) value s =
    let T = λ (r : ℕ × Scanner). Moves s r.1 in
    option_cases T (char_code_at s s.pos) (λ _. Moves-refl s)
      (λ ch e.
        let next = octal_digits count (value * 8 + (ch - 0x30)) (advance 1 s) in
        elim_cases T (is_octal_digit ch && leb (value * 8 + (ch - 0x30)) 0xff)
          (λ _.
            Moves-trans s (advance 1 s) next.1
              (advance-Moves 1 s (omega (arith, char_lt s s.pos ch e)))
              (octal_digits-Moves count (value * 8 + (ch - 0x30)) (advance 1 s)))
          (λ _. Moves-refl s))

skip_us-Moves : (fuel : ℕ) (s : Scanner) → Moves s (skip_us fuel s)
unfolding skip_us
skip_us-Moves zero s = Moves-refl s
skip_us-Moves (suc fuel) s =
    if-Moves s (at s s.pos 0x75) (skip_us fuel (advance 1 s)) s
      (λ e.
        Moves-trans s (advance 1 s) (skip_us fuel (advance 1 s)) (at-Moves (λ ch. ch == 0x75) s e)
          (skip_us-Moves fuel (advance 1 s)))
      (λ _. Moves-refl s)

unicode_digits-Moves : (s : Scanner) → Moves s (unicode_digits s).1
unfolding unicode_digits error
unicode_digits-Moves s =
    let r = hex_digits 4 0 s in
    let m = hex_digits-Moves 4 0 s in if_cases (Moves s) (r.0 == 0) (λ _. m) (λ _. m)

long_escape-Moves : (ch : ℕ) (s : Scanner) → Moves s (long_escape ch s).1
unfolding long_escape octal_escape
long_escape-Moves ch s =
    let T = λ (r : Text × Scanner). Moves s r.1 in
    if_cases T (ch == 0x75)
      (λ _.
        let s₁ = skip_us (length s.text - s.pos) s in
        Moves-trans s s₁ (unicode_digits s₁).1 (skip_us-Moves (length s.text - s.pos) s)
          (unicode_digits-Moves s₁))
      (λ _.
        if_cases T (is_octal_digit ch) (λ _. octal_digits-Moves 2 (ch - 0x30) s)
          (λ _. Moves-refl s))

or_long-Moves : (o : Option ℕ) (ch : ℕ) (s : Scanner) → Moves s (or_long o ch s).1
or_long-Moves (some v) ch s = Moves-refl s
or_long-Moves none ch s = long_escape-Moves ch s

escape_of-Advances :
    (o : Option ℕ) (s : Scanner)
    → char_code_at s (s.pos + 1) ≡ o
    → s.pos < length s.text
    → Advances s (escape_of o s).1
escape_of-Advances none s e lt = (advance-Moves 1 s (omega (arith, lt)), omega arith)
escape_of-Advances (some ch) s e lt =
    let s₂ = advance 2 s in
    Advances-Moves s s₂ (or_long (simple_escape ch simple_escapes) ch s₂).1
      (advance-Moves 2 s (omega (arith, char_lt s (s.pos + 1) ch e)), omega arith)
      (or_long-Moves (simple_escape ch simple_escapes) ch s₂)

-- An escape is its backslash and more, or the backslash at the end of the text.
pub scan_escape_sequence-Advances :
    (s : Scanner) → s.pos < length s.text → Advances s (scan_escape_sequence s).1
unfolding scan_escape_sequence
scan_escape_sequence-Advances s lt = escape_of-Advances (char_code_at s (s.pos + 1)) s refl lt

scan_piece-Moves : (s : Scanner) → s.pos < length s.text → Moves s (scan_piece s).1
unfolding scan_piece
scan_piece-Moves s lt =
    if_cases (λ (r : Text × Scanner). Moves s r.1) (at s s.pos 0x5c)
      (λ _. (scan_escape_sequence-Advances s lt).0) (λ _. advance-Moves 1 s (omega (arith, lt)))

-- What a loop over a literal gives: no panic, and a scanner further on.
abbrev Reaches : Scanner → Option (Text × Scanner) → Type 0
Reaches s r = (v : Text) × (s' : Scanner) × Moves s s' × (r ≡ some (v, s'))

prepend-Reaches :
    (s s₁ : Scanner) (t : Text) (r : Option (Text × Scanner))
    → Moves s s₁
    → Reaches s₁ r
    → Reaches s (prepend t r)
prepend-Reaches s s₁ t r m (v, s', k, e) = (t ++ v, s', Moves-trans s s₁ s' m k, rw e refl)

pub quoted_from-Reaches :
    (fuel quote : ℕ) (m : DiagnosticMessage) (s : Scanner)
    → Fits s
    → Reaches s (quoted_from fuel quote m s)
unfolding quoted_from report_unterminated error
quoted_from-Reaches zero quote m s h = ([], report_unterminated m s, Moves-refl s, refl)
quoted_from-Reaches (suc fuel) quote m s h =
    let lines = holds is_line_break (char_code_at s s.pos) in
    let piece = scan_piece s in
    if_cases (Reaches s) (leb s.end s.pos || lines)
      (λ _. ([], report_unterminated m s, Moves-refl s, refl))
      (λ e.
        let inside = leb-false s.end s.pos (||_false (leb s.end s.pos) lines e).0 in
        let lt : s.pos < length s.text = omega (arith, h, inside) in
        let (ch, there) = char_there s.text s.pos lt in
        let moves = scan_piece-Moves s lt in
        if_cases (Reaches s) (at s s.pos quote)
          (λ _. ([], advance 1 s, advance-Moves 1 s (omega (arith, lt)), refl))
          (λ _. rw there (
            prepend-Reaches s piece.1 piece.0 (quoted_from fuel quote m piece.1) moves
              (quoted_from-Reaches fuel quote m piece.1 (Moves-Fits s piece.1 moves h)))))

-- A character at the end of a text is its last one.
ends_with-last :
    (text : Text) (i c : ℕ)
    → holds (λ ch. ch == c) (get_elem? text i) ≡ true
    → suc i ≡ length text
    → ends_with text c ≡ true
unfolding ends_with
ends_with-last [] i c h e = absurd (omega (arith, e))
ends_with-last (d ∷ []) zero c h e = h
ends_with-last (d ∷ []) (suc i) c h e = absurd (omega (arith, e))
ends_with-last (d ∷ d₁ ∷ text) zero c h e = absurd (omega (arith, e))
ends_with-last (d ∷ d₁ ∷ text) (suc i) c h e = ends_with-last (d₁ ∷ text) i c h (omega (arith, e))

inner_lt :
    (text : Text) (i c : ℕ)
    → holds (λ ch. ch == c) (get_elem? text i) ≡ true
    → ends_with text c ≡ false
    → i + 2 ≤ length text
inner_lt text i c h n =
    let lt = holds_lt (λ ch. ch == c) text i h in
    elim (Bool-cases (suc i == length text)) [
      | inl e ↦
          let last = ends_with-last text i c h ((==_iff (suc i) (length text)).0 e) in
          absurd (ground (arith, n, last))
      | inr e ↦ ground (arith, e, lt)
    ]

-- A text block ends inside the text if the last character of that is no backslash.
pub text_block_from-Moves :
    (fuel : ℕ) (s : Scanner)
    → Fits s
    → ends_with s.text 0x5c ≡ false
    → Moves s (text_block_from fuel s)
unfolding text_block_from report_unterminated error
text_block_from-Moves zero s h n = Moves-refl s
text_block_from-Moves (suc fuel) s h n =
    let s₁ = advance (if at s s.pos 0x5c then 2 else 1) s in
    if_cases (Moves s) (leb s.end s.pos) (λ _. Moves-refl s)
      (λ e.
        let lt = leb-false s.end s.pos e in
        let m : Moves s s₁ =
          if_cases (λ k. Moves s (advance k s)) (at s s.pos 0x5c)
            (λ b. advance-Moves 2 s (inner_lt s.text s.pos 0x5c b n))
            (λ _. advance-Moves 1 s (omega (arith, h, lt))) in
        if_cases (Moves s) (at_triple_quote s)
          (λ q.
            let third =
              (&&_true (at s s.pos 0x22 && at s (s.pos + 1) 0x22) (at s (s.pos + 2) 0x22) q).1 in
            advance-Moves 3 s (omega (arith, holds_lt (λ ch. ch == 0x22) s.text (s.pos + 2) third)))
          (λ _.
            Moves-trans s s₁ (text_block_from fuel s₁) m
              (text_block_from-Moves fuel s₁ (Moves-Fits s s₁ m h) n)))

-- Where it does not, the frame is still that of the start.
pub text_block_from-frame :
    (fuel : ℕ) (s : Scanner)
    → (frame (text_block_from fuel s) ≡ frame s) × (s.pos ≤ (text_block_from fuel s).pos)
unfolding text_block_from report_unterminated error
text_block_from-frame zero s = (refl, omega arith)
text_block_from-frame (suc fuel) s =
    let s₁ = advance (if at s s.pos 0x5c then 2 else 1) s in
    let T = λ (t : Scanner). (frame t ≡ frame s) × (s.pos ≤ t.pos) in
    let k = text_block_from-frame fuel s₁ in
    if_cases T (leb s.end s.pos) (λ _. (refl, omega arith))
      (λ _.
        if_cases T (at_triple_quote s) (λ _. (refl, omega arith)) (λ _. (k.0, omega (arith, k.1))))
