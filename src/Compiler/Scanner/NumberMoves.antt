-- ===== src/Compiler/Scanner/NumberMoves.antt =====
-- How far a number in the scanner (togo/internal/compiler/scanner.go) goes.
use cappu.Base.{
  ℕ, zero, suc, ◌+◌, ◌-◌, ◌<◌, Bool, true, false, not, ◌&&◌, ◌||◌, if◌then◌else◌, if_cases, ltb,
  ◌==◌, length, ◌≡◌, ◌⊎◌, inl, inr, refl, arith, ltb→lt, &&_true, ||_false, lt→ltb, subst,
}
use cappu.Compiler.Scanner.{
  Scanner, char_code_at, holds, at, at_either, advance, error, DiagnosticMessage, is_digit,
  is_hex_digit, is_binary_digit,
}
use cappu.Compiler.Scanner.Numbers.{
  flag_underscore, digits_from, scan_digits_with_underscores, digits_expected, skip_either,
  scan_exponent, scan_integer_suffix, scan_float_suffix, hex_fraction, hex_exponent, hex_suffix,
  scan_hex, scan_binary, decimal_fraction, decimal_exponent, decimal_suffix, scan_decimal,
  flag_long, flag_float, flag_double,
}
use cappu.Compiler.Scanner.Moves.{
  Moves, Advances, Advances-Moves, Fits, Moves-refl, Moves-trans, Moves-Fits, advance-Moves,
  at-Moves, either_holds, if-Moves, either-Moves,
}

digits_from-Moves :
    (p : ℕ → Bool) (fuel : ℕ) (seen : Bool) (s : Scanner)
    → Fits s
    → Moves s (digits_from p fuel seen s).1
unfolding digits_from
digits_from-Moves p zero seen s h = Moves-refl s
digits_from-Moves p (suc fuel) seen s h =
    let digit = holds p (char_code_at s s.pos) in
    let s₁ = advance 1 (if digit then s else flag_underscore s) in
    if_cases (λ (r : Bool × Scanner). Moves s r.1) (ltb s.pos s.end && (digit || at s s.pos 0x5f))
      (λ e.
        let lt = ltb→lt s.pos s.end (&&_true (ltb s.pos s.end) (digit || at s s.pos 0x5f) e).0 in
        let m =
          if_cases (λ (t : Scanner). Moves s (advance 1 t)) digit
            (λ _. advance-Moves 1 s (omega (arith, h, lt)))
            (λ _. advance-Moves 1 s (omega (arith, h, lt))) in
        Moves-trans s s₁ (digits_from p fuel (seen || digit) s₁).1 m
          (digits_from-Moves p fuel (seen || digit) s₁ (Moves-Fits s s₁ m h)))
      (λ _. Moves-refl s)

digits-Moves : (p : ℕ → Bool) (s : Scanner) → Fits s → Moves s (scan_digits_with_underscores p s).1
digits-Moves p s h = digits_from-Moves p (s.end - s.pos) false s h

digits_expected-Moves :
    (m : DiagnosticMessage) (r : Bool × Scanner) (s : Scanner)
    → Moves s r.1
    → Moves s (digits_expected m r)
unfolding error
digits_expected-Moves m (true, s₁) s h = h
digits_expected-Moves m (false, s₁) s h = h

scan_exponent-Moves : (s : Scanner) → Fits s → s.pos < length s.text → Moves s (scan_exponent s)
unfolding scan_exponent
scan_exponent-Moves s h lt =
    let s₁ = advance 1 s in
    let s₂ = skip_either 0x2b 0x2d s₁ in
    let m₁ = advance-Moves 1 s (omega (arith, lt)) in
    let m₂ = either-Moves s₁ (advance 1 s₁) 0x2b 0x2d refl refl in
    let r = scan_digits_with_underscores is_digit s₂ in
    let m₃ = digits_from-Moves is_digit (s₂.end - s₂.pos) false s₂ (Moves-Fits s₁ s₂ m₂ h) in
    digits_expected-Moves DiagnosticMessage.digit_expected r s
      (Moves-trans s s₁ r.1 m₁ (Moves-trans s₁ s₂ r.1 m₂ m₃))

scan_integer_suffix-Moves : (s : Scanner) → Moves s (scan_integer_suffix s)
unfolding scan_integer_suffix
scan_integer_suffix-Moves s = either-Moves s (advance 1 (flag_long s)) 0x6c 0x4c refl refl

scan_float_suffix-Moves : (s : Scanner) → Moves s (scan_float_suffix s)
unfolding scan_float_suffix
scan_float_suffix-Moves s =
    if-Moves s (at_either s s.pos 0x66 0x46) (advance 1 (flag_float s))
      (if at_either s s.pos 0x64 0x44 then advance 1 (flag_double s) else s)
      (λ e. (refl, omega arith, omega (arith, either_holds s s.pos 0x66 0x46 e)))
      (λ _. either-Moves s (advance 1 (flag_double s)) 0x64 0x44 refl refl)

hex_fraction-Moves :
    (s : Scanner) (r : Bool × Scanner) → Fits s → Moves s r.1 → Moves s (hex_fraction r).1
unfolding hex_fraction
hex_fraction-Moves s (had, s₁) h m =
    if_cases (λ (r : Bool × Scanner). Moves s r.1) (at s₁ s₁.pos 0x2e)
      (λ e.
        let s₂ = advance 1 s₁ in
        let s₃ = (scan_digits_with_underscores is_hex_digit s₂).1 in
        Moves-trans s s₁ s₃ m (
          Moves-trans s₁ s₂ s₃ (at-Moves (λ ch. ch == 0x2e) s₁ e)
            (digits-Moves is_hex_digit s₂ (Moves-Fits s s₁ m h))))
      (λ _. digits_expected-Moves DiagnosticMessage.hexadecimal_digit_expected (had, s₁) s m)

hex_exponent-Moves :
    (s : Scanner) (r : Bool × Scanner) → Fits s → Moves s r.1 → Moves s (hex_exponent r).1
unfolding hex_exponent
hex_exponent-Moves s (is_float, s₁) h m =
    if_cases (λ (r : Bool × Scanner). Moves s r.1) (at_either s₁ s₁.pos 0x70 0x50)
      (λ e.
        Moves-trans s s₁ (scan_exponent s₁) m
          (scan_exponent-Moves s₁ (Moves-Fits s s₁ m h) (either_holds s₁ s₁.pos 0x70 0x50 e)))
      (λ _. m)

hex_suffix-Moves : (s : Scanner) (r : Bool × Scanner) → Moves s r.1 → Moves s (hex_suffix r)
hex_suffix-Moves s (true, s₁) m =
    Moves-trans s s₁ (scan_float_suffix s₁) m (scan_float_suffix-Moves s₁)
hex_suffix-Moves s (false, s₁) m =
    Moves-trans s s₁ (scan_integer_suffix s₁) m (scan_integer_suffix-Moves s₁)

pub scan_hex-Advances : (s : Scanner) → Fits s → s.pos + 1 < length s.text → Advances s (scan_hex s)
unfolding scan_hex
scan_hex-Advances s h lt =
    let s₁ = advance 2 (record s { token_flags = record s.token_flags { hex_specifier = true } }) in
    let r = scan_digits_with_underscores is_hex_digit s₁ in
    Advances-Moves s s₁ (hex_suffix (hex_exponent (hex_fraction r)))
      ((refl, omega arith, omega (arith, lt)), omega arith)
      (hex_suffix-Moves s₁ (hex_exponent (hex_fraction r)) (
        hex_exponent-Moves s₁ (hex_fraction r) h
          (hex_fraction-Moves s₁ r h (digits-Moves is_hex_digit s₁ h))))

pub scan_binary-Advances :
    (s : Scanner) → Fits s → s.pos + 1 < length s.text → Advances s (scan_binary s)
unfolding scan_binary
scan_binary-Advances s h lt =
    let s₁ =
      advance 2 (record s { token_flags = record s.token_flags { binary_specifier = true } }) in
    let r = scan_digits_with_underscores is_binary_digit s₁ in
    let s₂ = digits_expected DiagnosticMessage.binary_digit_expected r in
    Advances-Moves s s₁ (scan_integer_suffix s₂)
      ((refl, omega arith, omega (arith, lt)), omega arith)
      (Moves-trans s₁ s₂ (scan_integer_suffix s₂)
        (digits_expected-Moves DiagnosticMessage.binary_digit_expected r s₁
          (digits-Moves is_binary_digit s₁ h))
        (scan_integer_suffix-Moves s₂))

decimal_exponent-Moves :
    (s : Scanner) (r : Bool × Scanner) → Fits s → Moves s r.1 → Moves s (decimal_exponent r).1
unfolding decimal_exponent
decimal_exponent-Moves s (is_float, s₁) h m =
    if_cases (λ (r : Bool × Scanner). Moves s r.1) (at_either s₁ s₁.pos 0x65 0x45)
      (λ e.
        Moves-trans s s₁ (scan_exponent s₁) m
          (scan_exponent-Moves s₁ (Moves-Fits s s₁ m h) (either_holds s₁ s₁.pos 0x65 0x45 e)))
      (λ _. m)

-- Digits go on at a digit, and elsewhere they go on or stay.
abbrev GoesOn : (ℕ → Bool) → Scanner → Scanner → Type 0
GoesOn p s t = Advances s t ⊎ ((holds p (char_code_at s s.pos) ≡ false) × (t ≡ s))

no_digit : (a b c : Bool) → a && (b || c) ≡ false → a ≡ true → b ≡ false
no_digit true b c h e = (||_false b c h).0
no_digit false b c h e = ground (arith, e)

digits_from-GoesOn :
    (p : ℕ → Bool) (fuel : ℕ) (s : Scanner)
    → Fits s
    → s.pos < s.end
    → GoesOn p s (digits_from p (suc fuel) false s).1
unfolding digits_from
digits_from-GoesOn p fuel s h lt =
    let digit = holds p (char_code_at s s.pos) in
    let s₁ = advance 1 (if digit then s else flag_underscore s) in
    if_cases (λ (r : Bool × Scanner). GoesOn p s r.1)
      (ltb s.pos s.end && (digit || at s s.pos 0x5f))
      (λ _.
        let a =
          if_cases (λ (t : Scanner). Advances s (advance 1 t)) digit
            (λ _. (advance-Moves 1 s (omega (arith, h, lt)), omega arith))
            (λ _. (advance-Moves 1 s (omega (arith, h, lt)), omega arith)) in
        inl (
          Advances-Moves s s₁ (digits_from p fuel digit s₁).1 a
            (digits_from-Moves p fuel digit s₁ (Moves-Fits s s₁ a.0 h))))
      (λ e.
        inr (no_digit (ltb s.pos s.end) digit (at s s.pos 0x5f) e (lt→ltb s.pos s.end lt), refl))

digits-GoesOn :
    (p : ℕ → Bool) (s : Scanner)
    → Fits s
    → s.pos < s.end
    → GoesOn p s (scan_digits_with_underscores p s).1
digits-GoesOn p s h lt =
    subst (λ n. GoesOn p s (digits_from p n false s).1) (omega (arith, lt))
      (digits_from-GoesOn p (s.end - s.pos - 1) s h lt)

decimal_fraction-Moves : (s : Scanner) → Fits s → Moves s (decimal_fraction s).1
unfolding decimal_fraction
decimal_fraction-Moves s h =
    if_cases (λ (r : Bool × Scanner). Moves s r.1) (at s s.pos 0x2e)
      (λ e.
        let s₁ = advance 1 s in
        Moves-trans s s₁ (scan_digits_with_underscores is_digit s₁).1
          (at-Moves (λ ch. ch == 0x2e) s e) (digits-Moves is_digit s₁ h))
      (λ _. Moves-refl s)

decimal_fraction-Advances :
    (s : Scanner) → Fits s → at s s.pos 0x2e ≡ true → Advances s (decimal_fraction s).1
unfolding decimal_fraction
decimal_fraction-Advances s h e =
    let s₁ = advance 1 s in
    rw e (
      Advances-Moves s s₁ (scan_digits_with_underscores is_digit s₁).1
        (at-Moves (λ ch. ch == 0x2e) s e, omega arith) (digits-Moves is_digit s₁ h))

decimal_suffix-Moves : (z : Bool) (r : Bool × Scanner) → Moves r.1 (decimal_suffix z r)
unfolding decimal_suffix
decimal_suffix-Moves z (is_float, s) =
    if_cases (Moves s) (at_either s s.pos 0x66 0x46)
      (λ e. (refl, omega arith, omega (arith, either_holds s s.pos 0x66 0x46 e)))
      (λ _.
        if_cases (Moves s) (at_either s s.pos 0x64 0x44)
          (λ e. (refl, omega arith, omega (arith, either_holds s s.pos 0x64 0x44 e)))
          (λ _.
            if_cases (Moves s) (not is_float && at_either s s.pos 0x6c 0x4c)
              (λ e.
                let l = (&&_true (not is_float) (at_either s s.pos 0x6c 0x4c) e).1 in
                (refl, omega arith, omega (arith, either_holds s s.pos 0x6c 0x4c l)))
              (λ _.
                if_cases (Moves s) (not is_float && z && ltb 1 (s.pos - s.token_start))
                  (λ _. Moves-refl s) (λ _. Moves-refl s))))

-- A decimal number starts with a digit or with a dot.
pub scan_decimal-Advances :
    (s : Scanner)
    → Fits s
    → s.pos < s.end
    → (holds is_digit (char_code_at s s.pos) ≡ true) ⊎ (at s s.pos 0x2e ≡ true)
    → Advances s (scan_decimal s)
unfolding scan_decimal
scan_decimal-Advances s h lt start =
    let s₁ = (scan_digits_with_underscores is_digit s).1 in
    let r = decimal_fraction s₁ in
    let m = digits-Moves is_digit s h in
    let f₁ = Moves-Fits s s₁ m h in
    let a : Advances s r.1 = elim (digits-GoesOn is_digit s h lt) [
      | inl a ↦ Advances-Moves s s₁ r.1 a (decimal_fraction-Moves s₁ f₁)
      | inr (nd, e) ↦ elim start [
        | inl d ↦ absurd (ground (arith, nd, d))
        | inr dot ↦ rw e (decimal_fraction-Advances s h dot)
      ]
    ] in
    let m₂ = decimal_exponent-Moves r.1 r (Moves-Fits s r.1 a.0 h) (Moves-refl r.1) in
    Advances-Moves s r.1 (decimal_suffix (at s s.pos 0x30) (decimal_exponent r)) a (
      Moves-trans r.1 (decimal_exponent r).1 (decimal_suffix (at s s.pos 0x30) (decimal_exponent r))
        m₂ (decimal_suffix-Moves (at s s.pos 0x30) (decimal_exponent r)))
