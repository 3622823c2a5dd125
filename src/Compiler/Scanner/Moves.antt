-- ===== src/Compiler/Scanner/Moves.antt =====
-- What a step of the scanner (togo/internal/compiler/scanner.go) leaves alone, and how far it goes.
use cappu.Base.{
  ℕ, zero, suc, ◌+◌, ◌≤◌, ◌<◌, max, Bool, true, false, ◌&&◌, Option, [], ◌∷◌, if◌then◌else◌,
  if_cases, ltb, ◌==◌, Text, length, get_elem?, ◌≡◌, refl, ap, ◌∙◌, arith, ltb→lt, &&_true, ||_true,
  inl, inr,
}
use cappu.Compiler.Scanner.{Scanner, char_code_at, holds, at, at_either, advance, skip_from}

-- What no step changes.
abbrev pub frame : Scanner → Text × ℕ × ℕ × ℕ
frame s = (s.text, s.end, s.full_start_pos, s.token_start)

-- A step goes forward, and not past the end of the text.
abbrev pub Moves : Scanner → Scanner → Type 0
Moves s s' = (frame s' ≡ frame s) × (s.pos ≤ s'.pos) × (s'.pos ≤ max s.pos (length s.text))

abbrev pub Fits : Scanner → Type 0
Fits s = s.end ≤ length s.text

pub Moves-refl : (s : Scanner) → Moves s s
Moves-refl s = (refl, omega arith, omega arith)

pub Moves-trans : (s s₁ s₂ : Scanner) → Moves s s₁ → Moves s₁ s₂ → Moves s s₂
Moves-trans s s₁ s₂ (e, h, b) (f, k, c) =
    let t = ap (λ (q : Text × ℕ × ℕ × ℕ). length q.0) e in
    (f ∙ e, omega (arith, h, k), omega (arith, b, c, h, k, t))

pub Moves-Fits : (s s' : Scanner) → Moves s s' → Fits s → Fits s'
Moves-Fits s s' (e, _, _) h =
    omega
      (arith, h, ap (λ (q : Text × ℕ × ℕ × ℕ). length q.0) e, ap (λ (q : Text × ℕ × ℕ × ℕ). q.1) e)

pub holds_lt :
    (p : ℕ → Bool) (text : Text) (i : ℕ) → holds p (get_elem? text i) ≡ true → i < length text
holds_lt p [] i h = ground (arith, h)
holds_lt p (c ∷ text) zero h = omega arith
holds_lt p (c ∷ text) (suc i) h = omega (arith, holds_lt p text i h)

pub advance-Moves : (n : ℕ) (s : Scanner) → s.pos + n ≤ length s.text → Moves s (advance n s)
advance-Moves n s h = (refl, omega arith, omega (arith, h))

pub at-Moves :
    (p : ℕ → Bool) (s : Scanner) → holds p (char_code_at s s.pos) ≡ true → Moves s (advance 1 s)
at-Moves p s h = advance-Moves 1 s (omega (arith, holds_lt p s.text s.pos h))

pub either_holds : (s : Scanner) (i c d : ℕ) → at_either s i c d ≡ true → i < length s.text
either_holds s i c d h = elim (||_true (at s i c) (at s i d) h) [
  | inl e ↦ holds_lt (λ ch. ch == c) s.text i e
  | inr e ↦ holds_lt (λ ch. ch == d) s.text i e
]

pub skip_from-Moves :
    (p : Option ℕ → Bool) (fuel : ℕ) (s : Scanner) → Fits s → Moves s (skip_from p fuel s)
unfolding skip_from
skip_from-Moves p zero s h = Moves-refl s
skip_from-Moves p (suc fuel) s h =
    if_cases (λ t. Moves s t) (ltb s.pos s.end && p (char_code_at s s.pos))
      (λ e.
        Moves-trans s (advance 1 s) (skip_from p fuel (advance 1 s))
          (advance-Moves 1 s (
            omega (
              arith,
              h,
              ltb→lt s.pos s.end (&&_true (ltb s.pos s.end) (p (char_code_at s s.pos)) e).0,
            )))
          (skip_from-Moves p fuel (advance 1 s) h))
      (λ _. Moves-refl s)

-- The branches of a test move alike.
pub if-Moves :
    (s : Scanner) (b : Bool) (t u : Scanner)
    → (b ≡ true → Moves s t)
    → (b ≡ false → Moves s u)
    → Moves s (if b then t else u)
if-Moves s b t u h k = if_cases (λ v. Moves s v) b h k

-- A step at one of two characters.
pub either-Moves :
    (s t : Scanner) (c d : ℕ)
    → frame t ≡ frame s
    → t.pos ≡ s.pos + 1
    → Moves s (if at_either s s.pos c d then t else s)
either-Moves s t c d e f =
    if-Moves s (at_either s s.pos c d) t s
      (λ h. (e, omega (arith, f), omega (arith, f, either_holds s s.pos c d h))) (λ _. Moves-refl s)

-- A step that goes on.
abbrev pub Advances : Scanner → Scanner → Type 0
Advances s s' = Moves s s' × (s.pos < s'.pos)

pub Advances-Moves : (s s₁ s₂ : Scanner) → Advances s s₁ → Moves s₁ s₂ → Advances s s₂
Advances-Moves s s₁ s₂ (m, lt) k = (Moves-trans s s₁ s₂ m k, omega (arith, lt, k.1))

pub Moves-Advances : (s s₁ s₂ : Scanner) → Moves s s₁ → Advances s₁ s₂ → Advances s s₂
Moves-Advances s s₁ s₂ m (k, lt) = (Moves-trans s s₁ s₂ m k, omega (arith, lt, m.1))
