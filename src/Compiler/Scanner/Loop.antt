-- ===== src/Compiler/Scanner/Loop.antt =====
-- The equations of the loop of Scan (togo/internal/compiler/scanner.go).
use cappu.Base.{
  ℕ, zero, suc, ◌≤◌, ◌<◌, Option, none, some, ◌≡◌, refl, sym, ap, ◌∙◌, arith, leb, leb→le, if_cases,
  option_cases,
}
use cappu.Compiler.Scanner.{Scanner}
use cappu.Compiler.Scanner.Tokens.{scan_trivia, scan_token, scan_end, scan_from}

pub scan_end_inside : (s : Scanner) → s.pos < s.end → scan_end s ≡ none
unfolding scan_end
scan_end_inside s lt =
    if_cases (λ o. o ≡ none) (leb s.end s.pos)
      (λ e. absurd (omega (arith, lt, leb→le s.end s.pos e))) (λ _. refl)

-- At the end, whatever the fuel.
pub scan_from-end : (fuel : ℕ) (s s' : Scanner) → scan_end s ≡ some s' → scan_from fuel s ≡ some s'
unfolding scan_from
scan_from-end zero s s' h = h
scan_from-end (suc fuel) s s' h =
    option_cases (λ r. r ≡ some s') (scan_end s) (λ e. absurd (ground (arith, e, h)))
      (λ s₁ e. sym e ∙ h)

-- A piece of trivia, and the loop goes on behind it.
pub scan_from-trivia :
    (fuel : ℕ) (s s' : Scanner)
    → s.pos < s.end
    → scan_trivia (record s { token_start = s.pos }) ≡ some s'
    → scan_from (suc fuel) s ≡ scan_from fuel s'
unfolding scan_from
scan_from-trivia fuel s s' lt h =
    let goal = λ (r : Option Scanner). r ≡ scan_from fuel s' in
    option_cases goal (scan_end s)
      (λ _.
        option_cases goal (scan_trivia (record s { token_start = s.pos }))
          (λ e. absurd (ground (arith, e, h)))
          (λ s₂ e.
            ap (λ (o : Option Scanner). elim o [ none ↦ none | some t ↦ scan_from fuel t ])
              (sym e ∙ h)))
      (λ s₁ e. absurd (ground (arith, e, scan_end_inside s lt)))

-- A token that stands where the scanner is, with no trivia in front of it.
pub scan_from-token :
    (fuel : ℕ) (s : Scanner)
    → 1 ≤ fuel
    → s.pos < s.end
    → scan_trivia (record s { token_start = s.pos }) ≡ none
    → scan_from fuel s ≡ scan_token (record s { token_start = s.pos })
unfolding scan_from
scan_from-token zero s le lt h = absurd (omega (arith, le))
scan_from-token (suc fuel) s le lt h =
    let goal = λ (r : Option Scanner). r ≡ scan_token (record s { token_start = s.pos }) in
    option_cases goal (scan_end s)
      (λ _.
        option_cases goal (scan_trivia (record s { token_start = s.pos })) (λ _. refl)
          (λ s₂ e. absurd (ground (arith, e, h))))
      (λ s₁ e. absurd (ground (arith, e, scan_end_inside s lt)))
