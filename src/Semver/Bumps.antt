-- ===== src/Semver/Bumps.antt =====
-- Bumping a version of three numbers.
use cappu.Base.{
  ℕ, zero, suc, ◌+◌, ◌/◌, ◌%◌, ◌<◌, ◌++◌, true, some, ok, [], ◌∷◌, ltb, Text, codes, decimal,
  digits, All, ◌≡◌, refl, ap, ◌∙◌, arith, Bool-cases, inl, inr,
}
use cappu.Semver.{
  ReleaseType, is_digit, span, numeral, dot, core_prefix, number, atoi, incremented, version_text,
  bumped, bump,
}

number-digits :
    (fuel n : ℕ) (after : Text) → n < fuel → number 0 (digits fuel n after) ≡ number n after
unfolding digits number
number-digits zero n after lt = absurd (omega arith)
number-digits (suc fuel) n after lt = elim (Bool-cases (ltb n 10)) [
  | inl e ↦ rw (digits, e, number) (ap (λ m. number m after) (omega arith))
  | inr e ↦
      rw (digits, e)
        (number-digits fuel (n / 10) ((48 + n % 10) ∷ after) (ground arith)
          ∙ ap (λ m. number m after) (omega arith))
]

AreDigits : Text → Type 0
AreDigits = All (λ c. is_digit c ≡ true)

digits-AreDigits :
    (fuel n : ℕ) (after : Text) → n < fuel → AreDigits after → AreDigits (digits fuel n after)
unfolding digits AreDigits
digits-AreDigits zero n after lt h = absurd (omega arith)
digits-AreDigits (suc fuel) n after lt h = elim (Bool-cases (ltb n 10)) [
  | inl e ↦ rw (digits, e) (ground arith, h)
  | inr e ↦
      rw (digits, e)
        (digits-AreDigits fuel (n / 10) ((48 + n % 10) ∷ after) (ground arith) (ground arith, h))
]

span-append :
    (xs rest : Text) → AreDigits xs → span rest ≡ ([], rest) → span (xs ++ rest) ≡ (xs, rest)
unfolding span AreDigits
span-append [] rest h e = e
span-append (x ∷ xs) rest (hx, h) e = rw (span, hx, span-append xs rest h e) refl

digits-cons :
    (fuel n : ℕ) (after : Text) → n < fuel → (d : ℕ) × (ds : Text) × (digits fuel n after ≡ d ∷ ds)
unfolding digits
digits-cons zero n after lt = absurd (omega arith)
digits-cons (suc fuel) n after lt = elim (Bool-cases (ltb n 10)) [
  | inl e ↦ (48 + n, after, rw (digits, e) refl)
  | inr e ↦
      let (d, ds, f) = digits-cons fuel (n / 10) ((48 + n % 10) ∷ after) (ground arith) in
      (d, ds, rw (digits, e) f)
]

-- Nothing at the start is a digit.
abbrev pub NoDigit : Text → Type 0
NoDigit t = span t ≡ ([], t)

numeral-decimal :
    (n : ℕ) (rest : Text) → NoDigit rest → numeral (decimal n ++ rest) ≡ some (decimal n, rest)
unfolding numeral decimal AreDigits
numeral-decimal n rest h =
    let (d, ds, e) = digits-cons (suc n) n [] (omega arith) in
    rw
      (
        numeral,
        decimal,
        span-append (digits (suc n) n []) rest (digits-AreDigits (suc n) n [] (omega arith) tt) h,
        e,
      )
      refl

atoi-decimal : (n : ℕ) → n < 0x7fffffffffffffff → atoi (decimal n) ≡ n
unfolding atoi decimal number
atoi-decimal n lt = omega (arith, number-digits (suc n) n [] (omega arith))

NoDigit-dot : (t : Text) → NoDigit (codes "." ++ t)
unfolding span
NoDigit-dot t = refl

core_prefix-print :
    (a b c : ℕ) (suffix : Text)
    → NoDigit suffix
    → core_prefix (version_text (decimal a) (decimal b) (decimal c ++ suffix))
      ≡ some (decimal a, decimal b, decimal c)
unfolding core_prefix dot
core_prefix-print a b c suffix h =
    rw
      (
        core_prefix,
        numeral-decimal a (codes "." ++ (decimal b ++ (codes "." ++ (decimal c ++ suffix))))
            (NoDigit-dot _),
        numeral-decimal b (codes "." ++ (decimal c ++ suffix)) (NoDigit-dot _),
        numeral-decimal c suffix h,
      )
      refl

incremented_small : (n : ℕ) → n < 0x7fffffffffffffff → incremented n ≡ decimal (n + 1)
unfolding incremented
incremented_small n lt = ground arith

-- Let a version be three numbers below the greatest 64-bit integer and a suffix that does not begin
-- with a digit. A release increments its number, sets those behind it to 0, keeps those in front of
-- it, and drops the suffix.
pub bump-print :
    (a b c : ℕ) (suffix : Text)
    → a < 0x7fffffffffffffff
    → b < 0x7fffffffffffffff
    → c < 0x7fffffffffffffff
    → NoDigit suffix
    → (bump (version_text (decimal a) (decimal b) (decimal c ++ suffix)) ReleaseType.major
        ≡ ok (version_text (decimal (a + 1)) (codes "0") (codes "0")))
      × (bump (version_text (decimal a) (decimal b) (decimal c ++ suffix)) ReleaseType.minor
          ≡ ok (version_text (decimal a) (decimal (b + 1)) (codes "0")))
      × (bump (version_text (decimal a) (decimal b) (decimal c ++ suffix)) ReleaseType.patch
          ≡ ok (version_text (decimal a) (decimal b) (decimal (c + 1))))
unfolding bump bumped
bump-print a b c suffix ha hb hc h = (
  rw (bump, core_prefix-print a b c suffix h, bumped, atoi-decimal a ha, incremented_small a ha)
      refl,
  rw
      (
        bump,
        core_prefix-print a b c suffix h,
        bumped,
        atoi-decimal a ha,
        atoi-decimal b hb,
        incremented_small b hb,
      )
      refl,
  rw
      (
        bump,
        core_prefix-print a b c suffix h,
        bumped,
        atoi-decimal a ha,
        atoi-decimal b hb,
        atoi-decimal c hc,
        incremented_small c hc,
      )
      refl,
)
