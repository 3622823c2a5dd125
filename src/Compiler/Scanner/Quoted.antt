-- ===== src/Compiler/Scanner/Quoted.antt =====
-- How the loop over a literal (togo/internal/compiler/scanner.go) reads its pieces.
use cappu.Base.{
  ℕ, zero, suc, ◌+◌, ◌-◌, ◌≤◌, ◌<◌, false, Option, none, some, [], ◌∷◌, ◌++◌, leb, ◌==◌, Text,
  length, drop, ◌≡◌, refl, sym, ap, ◌∙◌, append_assoc, ap₂, append-nil, ==_self, arith, drop-append,
  get_elem?-ahead, length-ahead, length-append,
}
use cappu.Compiler.Kinds.{SyntaxKind}
use cappu.Compiler.Scanner.{Scanner, DiagnosticMessage, is_line_break}
use cappu.Compiler.Scanner.Literals.{
  quoted_from, prepend, scan_piece, scan_escape_sequence, scan_quoted, close_quoted,
}
use cappu.Compiler.Scanner.Words.{move_to}

-- Wherever the bytes `t` stand in a literal, the loop reads them as `u`.
abbrev pub Reads : ℕ → Text → Text → Type 0
Reads quote t u =
    (fuel q : ℕ) (m : DiagnosticMessage) (s : Scanner) (rest : Text)
    → s.end ≡ length s.text
    → drop q s.text ≡ t ++ rest
    → length t ≤ fuel
    → (left : ℕ) × (fuel ≤ left + length t)
      × (quoted_from fuel quote m (move_to s q)
          ≡ prepend u (quoted_from left quote m (move_to s (q + length t))))

prepend-append :
    (t u : Text) (r : Option (Text × Scanner)) → prepend t (prepend u r) ≡ prepend (t ++ u) r
prepend-append t u none = refl
prepend-append t u (some (v, s)) = ap (λ w. some (w, s)) (sym (append_assoc t u v))

pub Reads-append :
    (quote : ℕ) (t t' u u' : Text)
    → Reads quote t u
    → Reads quote t' u'
    → Reads quote (t ++ t') (u ++ u')
Reads-append quote t t' u u' h k fuel q m s rest e d le =
    let len = length-append t t' in
    let d₁ = d ∙ append_assoc t t' rest in
    let (left, a, f) = h fuel q m s (t' ++ rest) e d₁ (omega (arith, le, len)) in
    let (left', b, g) =
      k left (q + length t) m s rest e (drop-append q s.text t (t' ++ rest) d₁)
        (omega (arith, le, len, a)) in
    (
      left',
      omega (arith, a, b, len),
      f
          ∙ ap (prepend u) g
          ∙ prepend-append u u' (quoted_from left' quote m (move_to s (q + length t + length t')))
          ∙ ap (λ p. prepend (u ++ u') (quoted_from left' quote m (move_to s p)))
              (omega (arith, len)),
    )

-- A byte that stands for itself.
abbrev pub Itself : ℕ → ℕ → Type 0
Itself quote c = ((c == quote) ≡ false) × ((c == 0x5c) ≡ false) × (is_line_break c ≡ false)

inside_false : (e p : ℕ) → p < e → leb e p ≡ false
inside_false e p lt = ground (arith, lt)

pub Reads-byte : (quote c : ℕ) → Itself quote c → Reads quote (c ∷ []) (c ∷ [])
unfolding quoted_from scan_piece
Reads-byte quote c (nq, nb, nl) zero q m s rest e d le = absurd (omega (arith, le))
Reads-byte quote c (nq, nb, nl) (suc fuel) q m s rest e d le =
    let here = get_elem?-ahead s.text q c rest d in
    let in_text = inside_false s.end q (omega (arith, e, length-ahead s.text q c rest d)) in
    (fuel, omega arith, rw (in_text, here, nl, nq, nb) refl)

-- An escape that is not at the end of the text.
pub Reads-escape :
    (quote l : ℕ) (t u : Text)
    → ((0x5c == quote) ≡ false)
    → ((s : Scanner) (rest : Text)
        → drop s.pos s.text ≡ (0x5c ∷ l ∷ t) ++ rest
        → scan_escape_sequence s ≡ (u, move_to s (s.pos + length (0x5c ∷ l ∷ t))))
    → Reads quote (0x5c ∷ l ∷ t) u
unfolding quoted_from scan_piece is_line_break
Reads-escape quote l t u nq h zero q m s rest e d le = absurd (omega (arith, le))
Reads-escape quote l t u nq h (suc fuel) q m s rest e d le =
    let here = get_elem?-ahead s.text q 0x5c (l ∷ t ++ rest) d in
    let in_text =
      inside_false s.end q (omega (arith, e, length-ahead s.text q 0x5c (l ∷ t ++ rest) d)) in
    let read = h (move_to s q) rest d in (fuel, omega arith, rw (in_text, here, nq, read) refl)

quoted_from-close :
    (quote fuel q : ℕ) (m : DiagnosticMessage) (s : Scanner) (rest : Text)
    → s.end ≡ length s.text
    → drop q s.text ≡ quote ∷ rest
    → is_line_break quote ≡ false
    → 1 ≤ fuel
    → quoted_from fuel quote m (move_to s q) ≡ some ([], move_to s (q + 1))
unfolding quoted_from
quoted_from-close quote zero q m s rest e d nl le = absurd (omega (arith, le))
quoted_from-close quote (suc fuel) q m s rest e d nl le =
    let here = get_elem?-ahead s.text q quote rest d in
    let in_text = inside_false s.end q (omega (arith, e, length-ahead s.text q quote rest d)) in
    rw (in_text, here, nl, ==_self quote) refl

-- A literal of bytes that are read as a value.
pub scan_quoted-Reads :
    (kind : SyntaxKind) (quote : ℕ) (m : DiagnosticMessage) (s : Scanner) (t u rest : Text)
    → s.end ≡ length s.text
    → drop s.pos s.text ≡ quote ∷ t ++ quote ∷ rest
    → is_line_break quote ≡ false
    → Reads quote t u
    → scan_quoted kind quote m s
      ≡ some (record (move_to s (s.pos + length (quote ∷ t) + 1)) { token = kind; token_value = u })
unfolding scan_quoted
scan_quoted-Reads kind quote m s t u rest e d nl h =
    let q = s.pos + 1 in
    let d₁ = drop-append s.pos s.text (quote ∷ []) (t ++ quote ∷ rest) d in
    let d₂ = drop-append q s.text t (quote ∷ rest) d₁ in
    let fits = length-ahead s.text s.pos quote (t ++ quote ∷ rest) d in
    let more = length-append t (quote ∷ rest) in
    let (left, a, f) = h (s.end - s.pos) q m s (quote ∷ rest) e d₁ (omega (arith, e, fits, more)) in
    let close =
      quoted_from-close quote left (q + length t) m s rest e d₂ nl
        (omega (arith, e, fits, more, a)) in
    ap (close_quoted kind)
      (f ∙ ap (prepend u) close ∙ ap₂ (λ v p. some (v, move_to s p)) (append-nil u) (omega arith))
