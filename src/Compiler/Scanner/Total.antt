-- ===== src/Compiler/Scanner/Total.antt =====
-- Scan (togo/internal/compiler/scanner.go) gives a token, and tokens cover the text.
use cappu.Base.{
  ℕ, zero, suc, ◌+◌, ◌-◌, ◌≤◌, ◌<◌, true, false, not, ◌&&◌, Option, none, some, [], if◌then◌else◌,
  if_cases, leb, ◌==◌, Text, length, ◌≡◌, ◌⊎◌, inl, inr, refl, sym, ap, ◌∙◌, arith, le→leb, &&_true,
  leb-false, ends_with,
}
use cappu.Compiler.Kinds.{SyntaxKind, no_flags}
use cappu.Compiler.Scanner.{Scanner, char_code_at, holds, at, advance, error, is_line_break}
use cappu.Compiler.Scanner.Literals.{report_unterminated}
use cappu.Compiler.Scanner.Tokens.{
  is_blank, scan_line_comment, block_comment_from, scan_trivia, flag_line_break, scan_token,
  scan_end, scan_from, scan,
}
use cappu.Compiler.Scanner.Moves.{
  Moves, Fits, Moves-refl, Moves-trans, Moves-Fits, holds_lt, advance-Moves, at-Moves, Advances,
  Advances-Moves, skip_from-Moves,
}
use cappu.Compiler.Scanner.Progress.{Scans, scan_token-Scans}

pub block_comment_from-Moves :
    (fuel : ℕ) (s : Scanner) → Fits s → Moves s (block_comment_from fuel s)
unfolding block_comment_from report_unterminated error
block_comment_from-Moves zero s h = Moves-refl s
block_comment_from-Moves (suc fuel) s h =
    let s₁ = if holds is_line_break (char_code_at s s.pos) then flag_line_break s else s in
    if_cases (Moves s) (leb s.end s.pos) (λ _. Moves-refl s)
      (λ e.
        let lt = leb-false s.end s.pos e in
        if_cases (Moves s) (at s s.pos 0x2a && at s (s.pos + 1) 0x2f)
          (λ c.
            let second = (&&_true (at s s.pos 0x2a) (at s (s.pos + 1) 0x2f) c).1 in
            advance-Moves 2 s
              (omega (arith, holds_lt (λ ch. ch == 0x2f) s.text (s.pos + 1) second)))
          (λ _.
            let m : Moves s (advance 1 s₁) =
              if_cases (λ (t : Scanner). Moves s (advance 1 t))
                (holds is_line_break (char_code_at s s.pos))
                (λ _. advance-Moves 1 s (omega (arith, h, lt)))
                (λ _. advance-Moves 1 s (omega (arith, h, lt))) in
            Moves-trans s (advance 1 s₁) (block_comment_from fuel (advance 1 s₁)) m
              (block_comment_from-Moves fuel (advance 1 s₁) (Moves-Fits s (advance 1 s₁) m h))))

-- A piece of trivia, if there is one, is not empty.
abbrev pub TriviaAdvances : Scanner → Option Scanner → Type 0
TriviaAdvances s none = Unit
TriviaAdvances s (some s') = Advances s s'

two_Advances :
    (s : Scanner) (c d : ℕ) → at s s.pos c && at s (s.pos + 1) d ≡ true → Advances s (advance 2 s)
two_Advances s c d e =
    let second = (&&_true (at s s.pos c) (at s (s.pos + 1) d) e).1 in
    (
      advance-Moves 2 s (omega (arith, holds_lt (λ ch. ch == d) s.text (s.pos + 1) second)),
      omega arith,
    )

pub scan_trivia-Advances : (s : Scanner) → Fits s → TriviaAdvances s (scan_trivia s)
unfolding scan_trivia
scan_trivia-Advances s h =
    let T = TriviaAdvances s in
    let s₂ = advance 2 s in
    if_cases T (holds is_line_break (char_code_at s s.pos))
      (λ e. (at-Moves is_line_break s e, omega arith))
      (λ _.
        if_cases T (holds is_blank (char_code_at s s.pos))
          (λ e. (at-Moves is_blank s e, omega arith))
          (λ _.
            if_cases T (at s s.pos 0x2f && at s (s.pos + 1) 0x2f)
              (λ e.
                Advances-Moves s s₂ (scan_line_comment s₂) (two_Advances s 0x2f 0x2f e)
                  (skip_from-Moves (λ o. not (holds is_line_break o)) (s₂.end - s₂.pos) s₂ h))
              (λ _.
                if_cases T (at s s.pos 0x2f && at s (s.pos + 1) 0x2a)
                  (λ e.
                    Advances-Moves s s₂ (block_comment_from (s.end - (s.pos + 2)) s₂)
                      (two_Advances s 0x2f 0x2a e)
                      (block_comment_from-Moves (s.end - (s.pos + 2)) s₂ h))
                  (λ _. tt))))

-- The token that stands behind the trivia of a scanner: the end, or a text that is not empty.
abbrev pub TokenAt : Scanner → Type 0
TokenAt s =
    ((s.token ≡ SyntaxKind.end_of_file_token) × (s.token_start ≡ s.pos) × (s.end ≤ s.pos))
    ⊎ (s.token_start < s.pos)

abbrev pub Follows : Scanner → Scanner → Type 0
Follows s s' =
    (s'.text ≡ s.text)
    × (s'.end ≡ s.end)
    × (s'.full_start_pos ≡ s.full_start_pos)
    × (s.pos ≤ s'.token_start)
    × (s'.pos ≤ length s.text)
    × TokenAt s'

Advances-Follows : (s s₁ s' : Scanner) → Moves s s₁ → Follows s₁ s' → Follows s s'
Advances-Follows s s₁ s' (e, le, _) (t, n, f, k, b, a) = (
  t ∙ ap (λ (q : Text × ℕ × ℕ × ℕ). q.0) e,
  n ∙ ap (λ (q : Text × ℕ × ℕ × ℕ). q.1) e,
  f ∙ ap (λ (q : Text × ℕ × ℕ × ℕ). q.2) e,
  omega (arith, le, k),
  omega (arith, b, ap (λ (q : Text × ℕ × ℕ × ℕ). length q.0) e),
  a,
)

scan_end-some :
    (s : Scanner)
    → Fits s
    → s.pos ≤ length s.text
    → s.end ≤ s.pos
    → (s' : Scanner) × (scan_end s ≡ some s') × Follows s s'
unfolding scan_end
scan_end-some s h b le = (
  record s { token_start = s.pos; token = SyntaxKind.end_of_file_token },
  rw (le→leb s.end s.pos le) refl,
  (refl, refl, refl, omega arith, b, inl (refl, refl, le)),
)

scan_end-none : (s : Scanner) → scan_end s ≡ none → s.pos < s.end
unfolding scan_end
scan_end-none s e = ground (arith, e)

-- What the loop of Scan gives.
abbrev Gives : Scanner → Option Scanner → Type 0
Gives s r = (s' : Scanner) × (r ≡ some s') × Follows s s'

scan_end_past : (s s' : Scanner) → scan_end s ≡ some s' → s.end ≤ s.pos
unfolding scan_end
scan_end_past s s' e = ground (arith, e)

token-Follows :
    (s : Scanner)
    → Scans s (scan_token s)
    → s.pos ≤ length s.text
    → s.token_start ≡ s.pos
    → Gives s (scan_token s)
token-Follows s (s', ((e, le, b), lt), found) fits st =
    let start = ap (λ (q : Text × ℕ × ℕ × ℕ). q.3) e in
    (
      s',
      found,
      (
        ap (λ (q : Text × ℕ × ℕ × ℕ). q.0) e,
        ap (λ (q : Text × ℕ × ℕ × ℕ). q.1) e,
        ap (λ (q : Text × ℕ × ℕ × ℕ). q.2) e,
        omega (arith, start, st),
        omega (arith, b, fits),
        inr (omega (arith, start, st, lt)),
      ),
    )

scan_from_total :
    (fuel : ℕ) (s : Scanner)
    → Fits s
    → s.pos ≤ length s.text
    → ends_with s.text 0x5c ≡ false
    → s.end - s.pos ≤ fuel
    → Gives s (scan_from fuel s)
unfolding scan_from
scan_from_total zero s h b n enough = scan_end-some s h b (omega (arith, enough))
scan_from_total (suc fuel) s h b n enough =
    let s₁ = record s { token_start = s.pos } in
    elim (scan_end s)
        as (λ o.
          scan_end s ≡ o
          → Gives s (elim o [
            | some s₁ ↦ some s₁
            | none ↦ elim (scan_trivia s₁) [ some s₂ ↦ scan_from fuel s₂ | none ↦ scan_token s₁ ]
          ])) [
            | some s' ↦ λ e.
                let (s₂, f, follows) = scan_end-some s h b (scan_end_past s s' e) in
                (s₂, sym e ∙ f, follows)
            | none ↦ λ e.
                let lt = scan_end-none s e in
                elim (scan_trivia s₁)
                    as (λ o.
                      TriviaAdvances s₁ o
                      → Gives s (elim o [ some s₂ ↦ scan_from fuel s₂ | none ↦ scan_token s₁ ])) [
                        | some s₂ ↦ λ a.
                            let m = a.0 in
                            let text_eq = ap (λ (q : Text × ℕ × ℕ × ℕ). q.0) m.0 in
                            let end_eq = ap (λ (q : Text × ℕ × ℕ × ℕ). q.1) m.0 in
                            let len_eq = ap (λ (q : Text × ℕ × ℕ × ℕ). length q.0) m.0 in
                            let (s', e', follows) =
                              scan_from_total fuel s₂ (Moves-Fits s₁ s₂ m h)
                                (omega (arith, m.2, b, len_eq))
                                (ap (λ t. ends_with t 0x5c) text_eq ∙ n)
                                (omega (arith, enough, end_eq, a.1)) in
                            (s', e', Advances-Follows s₁ s₂ s' m follows)
                        | none ↦ λ _. token-Follows s₁ (scan_token-Scans s₁ h lt refl n) b refl
                      ]
                  (scan_trivia-Advances s₁ h)
          ]
      refl

-- Scan gives a token, for a scanner inside a text whose last character is no backslash: the token
-- and the trivia in front of it start where the scanner was, the token lies inside the text, and it
-- is not empty unless it is the end.
pub scan_total :
    (s : Scanner)
    → s.end ≤ length s.text
    → s.pos ≤ s.end
    → ends_with s.text 0x5c ≡ false
    → (s' : Scanner) × (scan s ≡ some s')
      × (s'.text ≡ s.text)
      × (s'.end ≡ s.end)
      × (s'.full_start_pos ≡ s.pos)
      × (s.pos ≤ s'.token_start)
      × (s'.pos ≤ length s.text)
      × TokenAt s'
unfolding scan
scan_total s h le n =
    let s₁ = record s { full_start_pos = s.pos; token_flags = no_flags; token_value = [] } in
    let (s', e, (t, f, p, k, b, a)) =
      scan_from_total (s.end - s.pos) s₁ h (omega (arith, h, le)) n (omega arith) in
    (s', e, t, f, p, k, b, a)
