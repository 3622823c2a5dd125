-- ===== src/Compiler/Scanner/Cover.antt =====
-- Scanning a whole text (togo/internal/compiler/scanner.go).
use cappu.Base.{
  ℕ, zero, suc, ◌+◌, ◌-◌, ◌≤◌, ◌<◌, false, Option, none, some, List, [], ◌∷◌, ◌++◌, if◌then◌else◌,
  leb, Text, length, drop, take, ◌≡◌, inl, inr, refl, sym, ap, ap₂, ◌∙◌, append-nil, arith, le→leb,
  ends_with, drop_add, length-drop, Option,
}
use cappu.Compiler.Scanner.{Scanner, new_scanner}
use cappu.Compiler.Scanner.Tokens.{scan}
use cappu.Compiler.Scanner.Total.{scan_total}

-- The text of a token and of the trivia in front of it.
abbrev pub full_text : Scanner → Text
full_text s = take (s.pos - s.full_start_pos) (drop s.full_start_pos s.text)

-- A text in front of others.
abbrev pub and_then : Text → Option (List Text) → Option (List Text)
and_then t none = none
and_then t (some ts) = some (t ∷ ts)

-- A token, and what its scanner gives behind it unless it is at the end.
abbrev pub with_token : (Scanner → Option (List Text)) → Option Scanner → Option (List Text)
with_token rest none = none
with_token rest (some s) =
    if leb s.end s.token_start then some (full_text s ∷ []) else and_then (full_text s) (rest s)

-- The texts of the tokens from here on, as repeated calls of Scan give them up to the one at the
-- end; none is a panic, or no fuel.
unfoldable pub scan_all : ℕ → Scanner → Option (List Text)
scan_all zero s = none
scan_all (suc fuel) s = with_token (λ t. scan_all fuel t) (scan s)

unfoldable pub concat : List Text → Text
concat [] = []
concat (t ∷ ts) = t ++ concat ts

take-drop : (n : ℕ) (t : Text) → take n t ++ drop n t ≡ t
take-drop zero t = refl
take-drop (suc n) [] = refl
take-drop (suc n) (c ∷ t) = ap (λ u. c ∷ u) (take-drop n t)

take_all : (n : ℕ) (t : Text) → length t ≤ n → take n t ≡ t
take_all zero [] le = refl
take_all zero (c ∷ t) le = absurd (omega (arith, le))
take_all (suc n) [] le = refl
take_all (suc n) (c ∷ t) le = ap (λ u. c ∷ u) (take_all n t (omega (arith, le)))

split_at : (t : Text) (a b : ℕ) → a ≤ b → take (b - a) (drop a t) ++ drop b t ≡ drop a t
split_at t a b le =
    let place : a + (b - a) ≡ b = omega (arith, le) in
    ap (λ u. take (b - a) (drop a t) ++ u)
      (ap (λ n. drop n t) (sym place) ∙ drop_add a (b - a) t (drop a t) refl)
    ∙ take-drop (b - a) (drop a t)

past_false : (e p : ℕ) → p < e → leb e p ≡ false
past_false e p lt = ground (arith, lt)

-- What is left of the text, in pieces.
Pieces : Text → Option (List Text) → Type 0
Pieces t r = (ts : List Text) × (r ≡ some ts) × (concat ts ≡ t)

scan_all-Pieces :
    (fuel : ℕ) (s : Scanner)
    → s.end ≡ length s.text
    → s.pos ≤ s.end
    → ends_with s.text 0x5c ≡ false
    → s.end - s.pos < fuel
    → Pieces (drop s.pos s.text) (scan_all fuel s)
unfolding scan_all concat Pieces
scan_all-Pieces zero s h le n lt = absurd (omega (arith, lt))
scan_all-Pieces (suc fuel) s h le n lt =
    let (s', found, t, e, f, k, b, token) = scan_total s (omega (arith, h)) le n in
    let piece : full_text s' ≡ take (s'.pos - s.pos) (drop s.pos s.text) =
      ap₂ (λ p u. take (s'.pos - p) (drop p u)) f t in
    let rest = λ (r : Scanner). scan_all fuel r in
    let found_rest = ap (with_token rest) found in
    let left = length-drop s.pos s.text in
    elim token [
      | inl (_, start, past) ↦ (
        full_text s' ∷ [],
        found_rest ∙ rw (le→leb s'.end s'.token_start (omega (arith, start, past))) refl,
        append-nil (full_text s')
            ∙ piece
            ∙ take_all (s'.pos - s.pos) (drop s.pos s.text) (omega (arith, left, h, e, past)),
      )
      | inr inside ↦
          let text_eq = ap length t in
          let (ts, g, c) =
            scan_all-Pieces fuel s' (omega (arith, e, h, text_eq)) (omega (arith, e, h, b))
              (ap (λ u. ends_with u 0x5c) t ∙ n) (omega (arith, e, lt, h, b, k, inside)) in
          let not_past : leb s'.end s'.token_start ≡ false =
            past_false s'.end s'.token_start (omega (arith, e, h, b, inside)) in
          (
            full_text s' ∷ ts,
            found_rest ∙ rw not_past (ap (and_then (full_text s')) g),
            ap₂ (λ u v. u ++ v) piece (c ∙ ap (λ u. drop s'.pos u) t)
                ∙ split_at s.text s.pos s'.pos (omega (arith, k, inside)),
          )
    ]

-- The tokens cover the text: repeated scanning reaches the end of a text whose last character is no
-- backslash, in at most one call more than the text has characters, and the tokens with the trivia
-- in front of them are together the text.
pub scan_all-new_scanner :
    (text : Text)
    → ends_with text 0x5c ≡ false
    → (ts : List Text) × (scan_all (suc (length text)) (new_scanner text) ≡ some ts)
      × (concat ts ≡ text)
unfolding new_scanner Pieces
scan_all-new_scanner text n =
    scan_all-Pieces (suc (length text)) (new_scanner text) refl (omega arith) n (omega arith)
