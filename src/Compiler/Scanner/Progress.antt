-- ===== src/Compiler/Scanner/Progress.antt =====
-- A token of the scanner (togo/internal/compiler/scanner.go) lies behind the trivia, is not empty,
-- and ends inside the text.
use cappu.Base.{
  ℕ, suc, ◌+◌, ◌-◌, ◌≤◌, ◌<◌, Bool, true, false, ◌&&◌, Option, none, some, List, [], ◌∷◌,
  if◌then◌else◌, if_cases, ◌==◌, Text, length, drop, take, ◌≡◌, ◌⊎◌, inl, inr, refl, ap, arith,
  le→leb, lt→ltb, &&_true, ends_with, subst, has_prefix, length-drop, All,
}
use cappu.Compiler.Kinds.{SyntaxKind}
use cappu.Compiler.Scanner.{
  Scanner, DiagnosticMessage, char_code_at, holds, at, at_either, advance, error, set_kind,
  slice_text, token_text, set_value, finish_raw, skip_from, skip_while, is_digit,
  is_identifier_start, is_identifier_part,
}
use cappu.Compiler.Scanner.Numbers.{scan_number, scan_hex, scan_binary, scan_decimal}
use cappu.Compiler.Scanner.Literals.{
  scan_quoted, close_quoted, scan_text_block, scan_string_or_text_block, scan_character_literal,
  text_block_from,
}
use cappu.Compiler.Scanner.Tokens.{
  operators, operator_of, word_kind, set_word, scan_identifier_or_keyword, scan_other, scan_token,
}
use cappu.Compiler.Scanner.Moves.{
  Fits, holds_lt, advance-Moves, Advances, Advances-Moves, either_holds, skip_from-Moves,
}
use cappu.Compiler.Scanner.NumberMoves.{
  scan_hex-Advances, scan_binary-Advances, scan_decimal-Advances,
}
use cappu.Compiler.Scanner.LiteralMoves.{quoted_from-Reaches, text_block_from-Moves}

-- A slice is there if its bounds are in order and inside.
slice_text-some :
    (text : Text) (a b : ℕ) → a ≤ b → b ≤ length text → (t : Text) × (slice_text text a b ≡ some t)
unfolding slice_text
slice_text-some text a b h k =
    (take (b - a) (drop a text), rw (le→leb a b h, le→leb b (length text) k) refl)

slice_text-bound : (text t : Text) (a b : ℕ) → slice_text text a b ≡ some t → b ≤ length text
unfolding slice_text
slice_text-bound text t a b e = ground (arith, e)

-- What scanning a token gives: no panic, and a scanner further on.
abbrev pub Scans : Scanner → Option Scanner → Type 0
Scans s r = (s' : Scanner) × Advances s s' × (r ≡ some s')

-- The literal is not empty and its text is there.
finish_raw-Scans :
    (kind : SyntaxKind) (s s₁ : Scanner)
    → s.token_start ≡ s.pos
    → Fits s
    → s.pos ≤ length s.text
    → Advances s s₁
    → Scans s (finish_raw kind s₁)
unfolding finish_raw token_text
finish_raw-Scans kind s s₁ st h le ((e, a, b), lt) =
    let text_eq = ap (λ (q : Text × ℕ × ℕ × ℕ). length q.0) e in
    let start = ap (λ (q : Text × ℕ × ℕ × ℕ). q.3) e in
    let (t, found) =
      slice_text-some s₁.text s₁.token_start s₁.pos (omega (arith, start, st, a))
        (omega (arith, b, le, text_eq)) in
    (record s₁ { token = kind; token_value = t }, ((e, a, b), lt), ap (set_value kind s₁) found)

scan_number-Scans :
    (s : Scanner)
    → Fits s
    → s.pos < s.end
    → s.token_start ≡ s.pos
    → (holds is_digit (char_code_at s s.pos) ≡ true) ⊎ (at s s.pos 0x2e ≡ true)
    → Scans s (scan_number s)
unfolding scan_number
scan_number-Scans s h lt st start =
    let hex = at s s.pos 0x30 && at_either s (s.pos + 1) 0x78 0x58 in
    let binary = at s s.pos 0x30 && at_either s (s.pos + 1) 0x62 0x42 in
    finish_raw-Scans SyntaxKind.numeric_literal s
      (if hex then scan_hex s else if binary then scan_binary s else scan_decimal s) st h
      (omega (arith, h, lt))
      (if_cases (Advances s) hex
        (λ e. scan_hex-Advances s h (
          either_holds s (s.pos + 1) 0x78 0x58
            (&&_true (at s s.pos 0x30) (at_either s (s.pos + 1) 0x78 0x58) e).1))
        (λ _.
          if_cases (Advances s) binary
            (λ e. scan_binary-Advances s h (
              either_holds s (s.pos + 1) 0x62 0x42
                (&&_true (at s s.pos 0x30) (at_either s (s.pos + 1) 0x62 0x42) e).1))
            (λ _. scan_decimal-Advances s h lt start)))

scan_quoted-Scans :
    (kind : SyntaxKind) (quote : ℕ) (m : DiagnosticMessage) (s : Scanner)
    → Fits s
    → s.pos < s.end
    → Scans s (scan_quoted kind quote m s)
unfolding scan_quoted
scan_quoted-Scans kind quote m s h lt =
    let (v, s', k, e) = quoted_from-Reaches (s.end - s.pos) quote m (advance 1 s) h in
    (
      record s' { token = kind; token_value = v },
      Advances-Moves s (advance 1 s) s' (advance-Moves 1 s (omega (arith, h, lt)), omega arith) k,
      ap (close_quoted kind) e,
    )

scan_text_block-Scans :
    (s : Scanner)
    → Fits s
    → s.token_start ≡ s.pos
    → ends_with s.text 0x5c ≡ false
    → s.pos + 2 < length s.text
    → Scans s (scan_text_block s)
unfolding scan_text_block
scan_text_block-Scans s h st n lt =
    let s₁ = advance 3 s in
    finish_raw-Scans SyntaxKind.text_block_literal s (text_block_from (s.end - s.pos) s₁) st h
      (omega (arith, lt))
      (Advances-Moves s s₁ (text_block_from (s.end - s.pos) s₁)
        (advance-Moves 3 s (omega (arith, lt)), omega arith)
        (text_block_from-Moves (s.end - s.pos) s₁ h n))

has_prefix-length : (s p : Text) → has_prefix s p ≡ true → length p ≤ length s
unfolding has_prefix
has_prefix-length s [] h = omega arith
has_prefix-length [] (c ∷ p) h = ground (arith, h)
has_prefix-length (d ∷ s) (c ∷ p) h =
    omega (arith, has_prefix-length s p (&&_true (d == c) (has_prefix s p) h).1)

operators_not_empty : All (λ (o : Text × SyntaxKind). 1 ≤ length o.0) operators
operators_not_empty = ground arith

-- The operator of a text is a prefix, and it is one of the table.
operator_of-fits :
    (s : Text) (ops : List (Text × SyntaxKind)) (op : Text) (kind : SyntaxKind)
    → All (λ (o : Text × SyntaxKind). 1 ≤ length o.0) ops
    → operator_of s ops ≡ some (op, kind)
    → (1 ≤ length op) × (length op ≤ length s)
unfolding operator_of
operator_of-fits s [] op kind h e = absurd (ground (arith, e))
operator_of-fits s ((o, k) ∷ ops) op kind (l, h) e =
    ground (arith, e, l, has_prefix-length s o, operator_of-fits s ops op kind h)

skip_from-Advances :
    (p : Option ℕ → Bool) (fuel : ℕ) (s : Scanner)
    → Fits s
    → s.pos < s.end
    → p (char_code_at s s.pos) ≡ true
    → Advances s (skip_from p (suc fuel) s)
unfolding skip_from
skip_from-Advances p fuel s h lt e =
    let s₁ = advance 1 s in
    rw (lt→ltb s.pos s.end lt, e)
      (Advances-Moves s s₁ (skip_from p fuel s₁)
        (advance-Moves 1 s (omega (arith, h, lt)), omega arith) (skip_from-Moves p fuel s₁ h))

start_holds_part :
    (o : Option ℕ) → holds is_identifier_start o ≡ true → holds is_identifier_part o ≡ true
unfolding is_identifier_part
start_holds_part none h = h
start_holds_part (some ch) h = rw h refl

scan_identifier_or_keyword-Scans :
    (s : Scanner)
    → Fits s
    → s.pos < s.end
    → s.token_start ≡ s.pos
    → holds is_identifier_start (char_code_at s s.pos) ≡ true
    → Scans s (scan_identifier_or_keyword s)
unfolding scan_identifier_or_keyword token_text
scan_identifier_or_keyword-Scans s h lt st start =
    let p = holds is_identifier_part in
    let s₁ = skip_while p s in
    let a : Advances s s₁ =
      subst (λ n. Advances s (skip_from p n s)) (omega (arith, lt))
        (skip_from-Advances p (s.end - s.pos - 1) s h lt
          (start_holds_part (char_code_at s s.pos) start)) in
    let text_eq = ap (λ (q : Text × ℕ × ℕ × ℕ). length q.0) a.0.0 in
    let start_eq = ap (λ (q : Text × ℕ × ℕ × ℕ). q.3) a.0.0 in
    let (name, found) =
      slice_text-some s₁.text s₁.token_start s₁.pos (omega (arith, start_eq, st, a.0.1))
        (omega (arith, a.0.2, h, lt, text_eq)) in
    (record s₁ { token = word_kind name; token_value = name }, a, ap (set_word s₁) found)

scan_other-Scans :
    (s : Scanner) → Fits s → s.pos < s.end → s.token_start ≡ s.pos → Scans s (scan_other s)
unfolding scan_other error
scan_other-Scans s h lt st =
    if_cases (Scans s) (holds is_digit (char_code_at s s.pos))
      (λ e. scan_number-Scans s h lt st (inl e))
      (λ _.
        if_cases (Scans s) (holds is_identifier_start (char_code_at s s.pos))
          (λ e. scan_identifier_or_keyword-Scans s h lt st e)
          (λ _. (
            set_kind SyntaxKind.unknown
                (advance 1 (error DiagnosticMessage.invalid_character s.pos 1 s)),
            (advance-Moves 1 s (omega (arith, h, lt)), omega arith),
            refl,
          )))

scan_operator-Scans :
    (s : Scanner) (op : Text) (kind : SyntaxKind)
    → s.pos < length s.text
    → operator_of (drop s.pos s.text) operators ≡ some (op, kind)
    → Advances s (advance (length op) s)
scan_operator-Scans s op kind lt e =
    let (pos, le) = operator_of-fits (drop s.pos s.text) operators op kind operators_not_empty e in
    (
      advance-Moves (length op) s (omega (arith, lt, le, length-drop s.pos s.text)),
      omega (arith, pos),
    )

pub scan_token-Scans :
    (s : Scanner)
    → Fits s
    → s.pos < s.end
    → s.token_start ≡ s.pos
    → ends_with s.text 0x5c ≡ false
    → Scans s (scan_token s)
unfolding scan_token scan_string_or_text_block scan_character_literal
scan_token-Scans s h lt st n =
    if_cases (Scans s) (at s s.pos 0x2e && holds is_digit (char_code_at s (s.pos + 1)))
      (λ e.
        scan_number-Scans s h lt st
          (inr (&&_true (at s s.pos 0x2e) (holds is_digit (char_code_at s (s.pos + 1))) e).0))
      (λ _.
        if_cases (Scans s) (at s s.pos 0x22)
          (λ _.
            if_cases (Scans s) (at s (s.pos + 1) 0x22 && at s (s.pos + 2) 0x22)
              (λ e. scan_text_block-Scans s h st n (
                holds_lt (λ ch. ch == 0x22) s.text (s.pos + 2)
                  (&&_true (at s (s.pos + 1) 0x22) (at s (s.pos + 2) 0x22) e).1))
              (λ _.
                scan_quoted-Scans SyntaxKind.string_literal 0x22
                  DiagnosticMessage.unterminated_string_literal s h lt))
          (λ _.
            if_cases (Scans s) (at s s.pos 0x27)
              (λ _.
                scan_quoted-Scans SyntaxKind.character_literal 0x27
                  DiagnosticMessage.unterminated_character_literal s h lt)
              (λ _.
                elim (operator_of (drop s.pos s.text) operators)
                    as (λ o.
                      operator_of (drop s.pos s.text) operators ≡ o
                      → Scans s (elim o [
                        | some (op, kind) ↦ some (set_kind kind (advance (length op) s))
                        | none ↦ scan_other s
                      ])) [
                        | some (op, kind) ↦ λ e. (
                          set_kind kind (advance (length op) s),
                          scan_operator-Scans s op kind (omega (arith, h, lt)) e,
                          refl,
                        )
                        | none ↦ λ _. scan_other-Scans s h lt st
                      ]
                  refl)))
