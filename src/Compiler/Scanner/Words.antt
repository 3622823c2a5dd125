-- ===== src/Compiler/Scanner/Words.antt =====
-- Scanning a name (togo/internal/compiler/scanner.go).
use cappu.Base.{
  ℕ, zero, suc, ◌+◌, ◌-◌, ◌≤◌, ◌<◌, Bool, true, false, ◌&&◌, ◌||◌, Option, none, some, List, [],
  ◌∷◌, ◌++◌, if_cases, ltb, leb, ◌==◌, Text, length, get_elem?, drop, take, head?, ◌≡◌, refl, sym,
  ap, ◌∙◌, arith, le→leb, lt→ltb, &&_true, All, has_prefix, drop-append, get_elem?-ahead,
  get_elem?-drop, length-ahead, length-append, length-drop, ap₂, take-append_self, ==_iff,
  append-nil, lookup, option_cases,
}
use cappu.Compiler.Kinds.{SyntaxKind, no_flags}
use cappu.Compiler.Keywords.{is_name_letter, all_name_parts, is_valid_identifier, text_to_keyword}
use cappu.Compiler.Scanner.{
  Scanner, new_scanner, char_code_at, holds, skip_from, skip_while, is_digit, is_line_break,
  is_identifier_start, is_identifier_part, slice_text, token_text,
}
use cappu.Compiler.Scanner.Tokens.{
  is_blank, scan_trivia, operators, operator_of, word_kind, set_word, scan_identifier_or_keyword,
  scan_other, scan_token, scan,
}
use cappu.Compiler.Scanner.Loop.{scan_from-token}

-- The scanner at another position.
abbrev pub move_to : Scanner → ℕ → Scanner
move_to s p = record s { pos = p }

-- A scanner in front of a token, with what Scan resets.
abbrev pub token_scanner : Scanner → Scanner
token_scanner s = record s {
  full_start_pos = s.pos;
  token_start = s.pos;
  token_flags = no_flags;
  token_value = [];
}

-- A character that starts no trivia.
abbrev pub StartsToken : ℕ → Type 0
StartsToken c = (is_line_break c ≡ false) × (is_blank c ≡ false) × ((c == 0x2f) ≡ false)

scan_trivia-none :
    (s : Scanner) (c : ℕ) → char_code_at s s.pos ≡ some c → StartsToken c → scan_trivia s ≡ none
unfolding scan_trivia
scan_trivia-none s c e (l, b, f) = rw (e, l, b, f) refl

pub scan-token :
    (s : Scanner) (c : ℕ) (rest : Text)
    → s.end ≡ length s.text
    → drop s.pos s.text ≡ c ∷ rest
    → StartsToken c
    → scan s ≡ scan_token (token_scanner s)
unfolding scan
scan-token s c rest h e st =
    let lt : s.pos < s.end = omega (arith, h, length-ahead s.text s.pos c rest e) in
    scan_from-token (s.end - s.pos)
      (record s { full_start_pos = s.pos; token_flags = no_flags; token_value = [] })
      (omega (arith, lt)) lt
      (scan_trivia-none (token_scanner s) c (get_elem?-ahead s.text s.pos c rest e) st)

-- No operator starts like a name.
abbrev NoName : Text × SyntaxKind → Type 0
NoName o = (holds is_identifier_start (head? o.0) ≡ false) × (1 ≤ length o.0)

skip-name :
    (p : ℕ → Bool) (name rest : Text) (fuel q : ℕ) (s : Scanner)
    → s.end ≡ length s.text
    → drop q s.text ≡ name ++ rest
    → All (λ c. p c ≡ true) name
    → holds p (head? rest) ≡ false
    → length name ≤ fuel
    → skip_from (holds p) fuel (move_to s q) ≡ move_to s (q + length name)
unfolding skip_from
skip-name p [] rest zero q s h e a n le = ap (move_to s) (omega arith)
skip-name p [] rest (suc fuel) q s h e a n le =
    let here = get_elem?-drop s.text q ∙ ap head? e in
    if_cases (λ t. t ≡ move_to s (q + 0)) (ltb q s.end && holds p (get_elem? s.text q))
      (λ f.
        let on = (&&_true (ltb q s.end) (holds p (get_elem? s.text q)) f).1 in
        absurd (ground (arith, n, sym (ap (holds p) here) ∙ on)))
      (λ _. ap (move_to s) (omega arith))
skip-name p (c ∷ name) rest zero q s h e a n le = absurd (omega (arith, le))
skip-name p (c ∷ name) rest (suc fuel) q s h e (a, al) n le =
    let lt : q < s.end = omega (arith, h, length-ahead s.text q c (name ++ rest) e) in
    let next = drop-append q s.text (c ∷ []) (name ++ rest) e in
    rw (lt→ltb q s.end lt, get_elem?-ahead s.text q c (name ++ rest) e, a)
      (skip-name p name rest fuel (q + 1) s h next al n (omega (arith, le))
        ∙ ap (move_to s) (omega arith))

operators-NoName : All NoName operators
unfolding is_identifier_start
operators-NoName = ground arith

operator_of-none :
    (c : ℕ) (s : Text) (ops : List (Text × SyntaxKind))
    → All NoName ops
    → is_identifier_start c ≡ true
    → operator_of (c ∷ s) ops ≡ none
unfolding operator_of has_prefix
operator_of-none c s [] h st = refl
operator_of-none c s (([], k) ∷ ops) ((_, l), h) st = absurd (omega (arith, l))
operator_of-none c s ((d ∷ p, k) ∷ ops) ((n, _), h) st =
    if_cases (λ o. o ≡ none) (c == d && has_prefix s p)
      (λ e.
        let same = (==_iff c d).0 (&&_true (c == d) (has_prefix s p) e).0 in
        absurd (ground (arith, st, sym (ap is_identifier_start same) ∙ st, n)))
      (λ _. operator_of-none c s ops h st)

-- What starts a name starts nothing else.
name-StartsToken : (c : ℕ) → is_identifier_start c ≡ true → StartsToken c
unfolding is_identifier_start is_line_break is_blank
name-StartsToken c h = ground (arith, h)

name_only :
    (c : ℕ)
    → is_identifier_start c ≡ true
    → ((c == 0x2e) ≡ false) × ((c == 0x22) ≡ false) × ((c == 0x27) ≡ false) × (is_digit c ≡ false)
unfolding is_identifier_start is_digit
name_only c h = ground (arith, h)

scan_token-name :
    (s : Scanner) (c : ℕ) (rest : Text)
    → drop s.pos s.text ≡ c ∷ rest
    → is_identifier_start c ≡ true
    → scan_token s ≡ scan_identifier_or_keyword s
unfolding scan_token scan_other
scan_token-name s c rest e st =
    let here = get_elem?-ahead s.text s.pos c rest e in
    let (dot, quote, single, digit) = name_only c st in
    let goal = λ (r : Option Scanner). r ≡ scan_identifier_or_keyword s in
    rw (here, dot, quote, single)
      (option_cases goal (operator_of (drop s.pos s.text) operators)
        (λ _. rw (here, digit, st) refl)
        (λ o f. absurd (
          ground (
            arith,
            f,
            ap (λ t. operator_of t operators) e
                ∙ operator_of-none c rest operators operators-NoName st,
          ))))

slice-ahead :
    (text : Text) (p : ℕ) (name rest : Text)
    → 1 ≤ length name
    → drop p text ≡ name ++ rest
    → slice_text text p (p + length name) ≡ some name
unfolding slice_text
slice-ahead text p name rest le e =
    let fits : p + length name ≤ length text =
      omega (arith, le, length-drop p text, ap length e, length-append name rest) in
    let width : p + length name - p ≡ length name = omega arith in
    rw (le→leb p (p + length name) (omega arith), le→leb (p + length name) (length text) fits)
      (ap some (ap₂ (λ n t. take n t) width e ∙ take-append_self name rest))

-- The longest name that stands in front of the scanner is scanned, as the keyword that it is or as
-- an identifier.
pub scan-name :
    (s : Scanner) (c : ℕ) (cs rest : Text)
    → s.end ≡ length s.text
    → drop s.pos s.text ≡ (c ∷ cs) ++ rest
    → is_identifier_start c ≡ true
    → All (λ d. is_identifier_part d ≡ true) cs
    → holds is_identifier_part (head? rest) ≡ false
    → (s' : Scanner) × (scan s ≡ some s')
      × (s'.token ≡ word_kind (c ∷ cs))
      × (s'.token_value ≡ c ∷ cs)
      × (s'.token_start ≡ s.pos)
      × (s'.pos ≡ s.pos + length (c ∷ cs))
unfolding scan_identifier_or_keyword token_text slice_text is_identifier_part
scan-name s c cs rest h e st parts n =
    let name = c ∷ cs in
    let s₁ = token_scanner s in
    let s₂ = move_to s₁ (s.pos + length name) in
    let fits = length-ahead s.text s.pos c (cs ++ rest) e in
    let skipped : skip_while (holds is_identifier_part) s₁ ≡ s₂ =
      skip-name is_identifier_part name rest (s.end - s.pos) s.pos s₁ h e (rw st refl, parts) n
        (omega (arith, h, fits, length-append cs rest)) in
    let text : token_text s₂ ≡ some name = slice-ahead s.text s.pos name rest (omega arith) e in
    (
      record s₂ { token = word_kind name; token_value = name },
      scan-token s c (cs ++ rest) h e (name-StartsToken c st)
          ∙ scan_token-name s₁ c (cs ++ rest) e st
          ∙ ap (λ t. set_word t (token_text t)) skipped
          ∙ ap (set_word s₂) text,
      refl,
      refl,
      refl,
      refl,
    )

name_parts-All :
    (name : Text) → all_name_parts name ≡ true → All (λ d. is_identifier_part d ≡ true) name
unfolding all_name_parts is_name_letter is_identifier_part is_identifier_start is_digit
name_parts-All [] h = tt
name_parts-All (c ∷ name) h =
    let split = &&_true (is_name_letter c || (leb 0x30 c && leb c 0x39)) (all_name_parts name) h in
    (ground (arith, split.0), name_parts-All name split.1)

name_letter-start : (c : ℕ) → is_name_letter c ≡ true → is_identifier_start c ≡ true
unfolding is_name_letter is_identifier_start
name_letter-start c h = ground (arith, h)

valid-identifier :
    (name : Text) → is_valid_identifier name ≡ true → word_kind name ≡ SyntaxKind.identifier
unfolding is_valid_identifier word_kind
valid-identifier [] h = absurd (ground (arith, h))
valid-identifier (c ∷ cs) h =
    let name = c ∷ cs in
    option_cases (λ k. k ≡ SyntaxKind.identifier) (lookup name text_to_keyword) (λ _. refl)
      (λ k e. absurd (ground (arith, (&&_true (is_name_letter c && all_name_parts cs) _ h).1, e)))

-- A legal identifier is scanned as one identifier, all of it.
pub scan-is_valid_identifier :
    (name : Text)
    → is_valid_identifier name ≡ true
    → (s : Scanner) × (scan (new_scanner name) ≡ some s)
      × (s.token ≡ SyntaxKind.identifier)
      × (s.token_value ≡ name)
      × (s.pos ≡ length name)
unfolding is_valid_identifier new_scanner
scan-is_valid_identifier [] h = absurd (ground (arith, h))
scan-is_valid_identifier (c ∷ cs) h =
    let split = &&_true (is_name_letter c && all_name_parts cs) _ h in
    let letters = &&_true (is_name_letter c) (all_name_parts cs) split.0 in
    let (s, e, k, v, _, p) =
      scan-name (new_scanner (c ∷ cs)) c cs [] refl (sym (append-nil (c ∷ cs)))
        (name_letter-start c letters.0) (name_parts-All cs letters.1) refl in
    (s, e, k ∙ valid-identifier (c ∷ cs) h, v, omega (arith, p))
