-- ===== src/Compiler/Escape/ReadBack.antt =====
-- The scanner (togo/internal/compiler/scanner.go) reads the literals that the decompiler writes
-- (togo/internal/compiler/decompile.go, disasm.go).
use cappu.Base.{
  ℕ, suc, ◌+◌, ◌≤◌, ◌<◌, true, false, ◌&&◌, Option, none, some, List, [], ◌∷◌, ◌++◌, if◌then◌else◌,
  if_cases, option_cases, ltb, leb, ◌==◌, Text, length, drop, ◌≡◌, refl, sym, ap, ◌∙◌, arith,
  ltb→lt, ==_iff, All, subst, head?, tail, drop-suc, get_elem?-drop, drop-append, get_elem?-ahead,
}
use cappu.Compiler.Kinds.{SyntaxKind}
use cappu.Compiler.Scanner.{Scanner, DiagnosticMessage, holds, advance, is_line_break}
use cappu.Compiler.Scanner.Literals.{
  quoted_from, prepend, or_zero, or_long, rune_bytes, scan_escape_sequence, escape_of,
  simple_escape, escape_of, simple_escapes, scan_string_or_text_block,
}
use cappu.Compiler.Scanner.Tokens.{scan, scan_token, is_blank}
use cappu.Compiler.Scanner.Words.{move_to, token_scanner, scan-token}
use cappu.Compiler.Scanner.Quoted.{
  Reads, Reads-append, Reads-byte, Itself, Reads-escape, scan_quoted-Reads,
}
use cappu.Compiler.Escape.Units.{digits_of, unicode-Reads}
use cappu.Compiler.Escape.{
  is_surrogate, unicode_escape, letters, letter_of, is_control, escape_rune, java_string_text,
}

-- The UTF-8 form of a string, with U+FFFD for an unpaired surrogate.
unfoldable pub utf8_text : Text → Text
utf8_text [] = []
utf8_text (r ∷ s) = rune_bytes r ++ utf8_text s

prepend-nil : (r : Option (Text × Scanner)) → prepend [] r ≡ r
prepend-nil none = refl
prepend-nil (some (v, s)) = refl

Reads-nil : Reads 0x22 [] []
Reads-nil fuel q m s rest e d le = (
  fuel,
  omega arith,
  ap (λ p. quoted_from fuel 0x22 m (move_to s p)) (omega arith)
      ∙ sym (prepend-nil (quoted_from fuel 0x22 m (move_to s (q + 0)))),
)

Reads-bytes : (bs : Text) → All (Itself 0x22) bs → Reads 0x22 bs bs
Reads-bytes [] h = Reads-nil
Reads-bytes (c ∷ bs) (i, h) =
    Reads-append 0x22 (c ∷ []) bs (c ∷ []) bs (Reads-byte 0x22 c i) (Reads-bytes bs h)

-- An escape of one letter.
letter-Reads :
    (r l : ℕ) → simple_escape l simple_escapes ≡ some r → Reads 0x22 (0x5c ∷ l ∷ []) (r ∷ [])
unfolding scan_escape_sequence
letter-Reads r l h = Reads-escape 0x22 l [] (r ∷ []) refl (λ s rest d.
    let next = drop-append s.pos s.text (0x5c ∷ []) (l ∷ rest) d in
    ap (λ o. escape_of o s) (get_elem?-ahead s.text (s.pos + 1) l rest next)
    ∙ ap (λ o. or_long o l (advance 2 s)) h)

plain-Itself :
    (r : ℕ) → letter_of r letters ≡ none → is_control r ≡ false → r < 0x80 → Itself 0x22 r
unfolding letter_of is_control is_line_break
plain-Itself r h k lt = ground (arith, h, k, lt)

high-Itself : (c : ℕ) → 0x80 ≤ c → Itself 0x22 c
unfolding is_line_break
high-Itself c h = ground (arith, h)

rune_bytes-Itself :
    (r : ℕ) → letter_of r letters ≡ none → is_control r ≡ false → All (Itself 0x22) (rune_bytes r)
unfolding rune_bytes
rune_bytes-Itself r h k =
    let P = All (Itself 0x22) in
    if_cases P (ltb r 0x80) (λ e. (plain-Itself r h k (ltb→lt r 0x80 e), tt))
      (λ _.
        if_cases P (ltb r 0x800)
          (λ _. (high-Itself _ (omega arith), (high-Itself _ (omega arith), tt)))
          (λ _.
            if_cases P (leb 0xd800 r && leb r 0xdfff)
              (λ _. (
                high-Itself _ (omega arith),
                (high-Itself _ (omega arith), (high-Itself _ (omega arith), tt)),
              ))
              (λ _.
                if_cases P (ltb r 0x10000)
                  (λ _. (
                    high-Itself _ (omega arith),
                    (high-Itself _ (omega arith), (high-Itself _ (omega arith), tt)),
                  ))
                  (λ _. (
                    high-Itself _ (omega arith),
                    (
                      high-Itself _ (omega arith),
                      (high-Itself _ (omega arith), (high-Itself _ (omega arith), tt)),
                    ),
                  )))))

-- The letters are those that the scanner knows.
abbrev Known : ℕ → ℕ → Type 0
Known r l = (rune_bytes r ≡ r ∷ []) × (simple_escape l simple_escapes ≡ some r)

letter_of-Known :
    (r l : ℕ) (ls : List (ℕ × ℕ))
    → All (λ (p : ℕ × ℕ). Known p.0 p.1) ls
    → letter_of r ls ≡ some l
    → Known r l
unfolding letter_of
letter_of-Known r l [] h e = absurd (ground (arith, e))
letter_of-Known r l ((c, k) ∷ ls) (this, h) e₀ =
    if_cases (λ o. o ≡ some l → Known r l) (r == c)
      (λ same e.
        let c_eq = sym ((==_iff r c).0 same) in
        let k_eq = ap or_zero e in subst (λ x. Known r x) k_eq (subst (λ x. Known x k) c_eq this))
      (λ _. letter_of-Known r l ls h) e₀

letters-Known : All (λ (p : ℕ × ℕ). Known p.0 p.1) letters
unfolding rune_bytes simple_escape
letters-Known = (
  (refl, refl),
  (
    (refl, refl),
    (
      (refl, refl),
      ((refl, refl), ((refl, refl), ((refl, refl), ((refl, refl), ((refl, refl), tt))))),
    ),
  ),
)

control_small : (r : ℕ) → is_control r ≡ true → r < 0x10000
unfolding is_control
control_small r h = ground (arith, h)

surrogate_small : (r : ℕ) → is_surrogate r ≡ true → r < 0x10000
unfolding is_surrogate
surrogate_small r h = ground (arith, h)

escape_rune-Reads : (r : ℕ) → Reads 0x22 (escape_rune r) (rune_bytes r)
unfolding escape_rune
escape_rune-Reads r =
    let goal = λ (t : Text). Reads 0x22 t (rune_bytes r) in
    option_cases goal (letter_of r letters)
      (λ e.
        if_cases goal (is_control r) (λ c. unicode-Reads r (control_small r c))
          (λ c. Reads-bytes (rune_bytes r) (rune_bytes-Itself r e c)))
      (λ l e.
        let k = letter_of-Known r l letters letters-Known e in
        subst (λ u. Reads 0x22 (0x5c ∷ l ∷ []) u) (sym k.0) (letter-Reads r l k.1))

java_string_text-Reads : (s : Text) → Reads 0x22 (java_string_text s) (utf8_text s)
unfolding java_string_text utf8_text
java_string_text-Reads [] = Reads-nil
java_string_text-Reads (r ∷ s) =
    Reads-append 0x22 (if is_surrogate r then unicode_escape r else escape_rune r)
      (java_string_text s) (rune_bytes r) (utf8_text s)
      (if_cases (λ (t : Text). Reads 0x22 t (rune_bytes r)) (is_surrogate r)
        (λ e. unicode-Reads r (surrogate_small r e)) (λ _. escape_rune-Reads r))
      (java_string_text-Reads s)

-- A text that does not begin with a quote.
abbrev Opens : Text → Type 0
Opens t = (c : ℕ) × (u : Text) × (t ≡ c ∷ u) × ((c == 0x22) ≡ false)

bytes-Opens : (bs : Text) → All (Itself 0x22) bs → 1 ≤ length bs → Opens bs
bytes-Opens [] h le = absurd (omega (arith, le))
bytes-Opens (c ∷ bs) (i, h) le = (c, bs, refl, i.0)

rune_bytes_not_empty : (r : ℕ) → 1 ≤ length (rune_bytes r)
unfolding rune_bytes
rune_bytes_not_empty r =
    let P = λ (t : Text). 1 ≤ length t in
    if_cases P (ltb r 0x80) (λ _. omega arith)
      (λ _.
        if_cases P (ltb r 0x800) (λ _. omega arith)
          (λ _.
            if_cases P (leb 0xd800 r && leb r 0xdfff) (λ _. omega arith)
              (λ _. if_cases P (ltb r 0x10000) (λ _. omega arith) (λ _. omega arith))))

unicode_escape-Opens : (r : ℕ) → Opens (unicode_escape r)
unfolding unicode_escape
unicode_escape-Opens r = (0x5c, 0x75 ∷ digits_of r, refl, refl)

escape_rune-Opens : (r : ℕ) → Opens (escape_rune r)
unfolding escape_rune
escape_rune-Opens r =
    option_cases Opens (letter_of r letters)
      (λ e.
        if_cases Opens (is_control r) (λ _. unicode_escape-Opens r)
          (λ c. bytes-Opens (rune_bytes r) (rune_bytes-Itself r e c) (rune_bytes_not_empty r)))
      (λ l e. (0x5c, l ∷ [], refl, refl))

-- No literal but the empty one looks like a text block.
second_third :
    (v rest : Text)
    → holds (λ ch. ch == 0x22) (head? rest) ≡ false
    → holds (λ ch. ch == 0x22) (head? (java_string_text v ++ 0x22 ∷ rest))
        && holds (λ ch. ch == 0x22) (head? (tail (java_string_text v ++ 0x22 ∷ rest)))
      ≡ false
unfolding java_string_text
second_third [] rest h = h
second_third (r ∷ v) rest h =
    let piece = if is_surrogate r then unicode_escape r else escape_rune r in
    let (c, u, e, n) : Opens piece =
      if_cases Opens (is_surrogate r) (λ _. unicode_escape-Opens r) (λ _. escape_rune-Opens r) in
    rw (e, n) refl

-- The scanner reads a literal that the decompiler writes, unless a quote follows it, as the string
-- it was written for in UTF-8, where U+FFFD has replaced each unpaired surrogate.
pub scan-java_string_text :
    (v rest : Text) (s : Scanner)
    → s.end ≡ length s.text
    → drop s.pos s.text ≡ 0x22 ∷ java_string_text v ++ 0x22 ∷ rest
    → holds (λ ch. ch == 0x22) (head? rest) ≡ false
    → scan s
      ≡ some (record (token_scanner s) {
        pos = s.pos + length (0x22 ∷ java_string_text v) + 1;
        token = SyntaxKind.string_literal;
        token_value = utf8_text v;
      })
unfolding scan_token scan_string_or_text_block is_line_break is_blank
scan-java_string_text v rest s e d h =
    let t = java_string_text v in
    let s₁ = token_scanner s in
    let here = get_elem?-ahead s.text s.pos 0x22 (t ++ 0x22 ∷ rest) d in
    let behind = drop-append s.pos s.text (0x22 ∷ []) (t ++ 0x22 ∷ rest) d in
    let second = get_elem?-drop s.text (s.pos + 1) ∙ ap head? behind in
    let place : s.pos + 2 ≡ suc (s.pos + 1) = omega arith in
    let third =
      get_elem?-drop s.text (s.pos + 2)
      ∙ ap (λ n. head? (drop n s.text)) place
      ∙ ap head? (drop-suc s.text (s.pos + 1) ∙ ap tail behind) in
    scan-token s 0x22 (t ++ 0x22 ∷ rest) e d (refl, refl, refl)
    ∙ rw (here, second, third, second_third v rest h)
        (scan_quoted-Reads SyntaxKind.string_literal 0x22
          DiagnosticMessage.unterminated_string_literal s₁ t (utf8_text v) rest e d refl
          (java_string_text-Reads v))
