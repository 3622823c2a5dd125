-- ===== src/Format/Doc/Tidy.antt =====
-- What the output of the formatter (togo/internal/format/doc.go) has in common with the document,
-- and which spaces it does not have.
use cappu.Base.{
  ℕ, zero, suc, ◌++◌, Bool, true, false, ◌&&◌, ◌||◌, Option, none, some, List, [], ◌∷◌,
  if◌then◌else◌, if_cases, ◌==◌, Text, ◌≡◌, ◌⊎◌, inl, inr, refl, sym, ap, ap₂, ◌∙◌, append-nil,
  append_assoc, subst, arith, spaces, All, ends_with,
}
use cappu.Format.Doc.{Break, Doc, Docs, flat, flat_all}
use cappu.Format.Doc.Output.{Rewriter, PrintOptions, only_spaces, trim_spaces, rewritten, print_doc}
use cappu.Format.Doc.Pieces.{Piece, fixed, comment, gap, pieces, pieces_all}
use cappu.Format.Doc.Printing.{Prints, behind_break, print_doc-Prints}

-- A text without its spaces and newlines.
unfoldable pub content : Text → Text
content [] = []
content (c ∷ s) = let rest = content s in if c == 32 || c == 10 then rest else c ∷ rest

-- The text of a leaf.
abbrev pub text_of : Piece → Text
text_of (fixed t) = t
text_of (comment t) = t
text_of (gap b) = b.flat_text

unfoldable pub texts : List Piece → Text
texts [] = []
texts (p ∷ ps) = text_of p ++ texts ps

texts-append : (ps qs : List Piece) → texts (ps ++ qs) ≡ texts ps ++ texts qs
unfolding texts
texts-append [] qs = refl
texts-append (p ∷ ps) qs =
    ap (λ t. text_of p ++ t) (texts-append ps qs)
    ∙ sym (append_assoc (text_of p) (texts ps) (texts qs))

mutual
  unfolding pieces pieces_all flat flat_all texts

  texts-pieces : (d : Doc) → texts (pieces d) ≡ flat d
  texts-pieces (Doc.token t) = append-nil t
  texts-pieces (Doc.reflow t) = append-nil t
  texts-pieces (Doc.brk b) = append-nil b.flat_text
  texts-pieces (Doc.concat parts) = texts-pieces_all parts
  texts-pieces (Doc.level i docs) = texts-pieces_all docs

  texts-pieces_all : (ds : Docs) → texts (pieces_all ds) ≡ flat_all ds
  texts-pieces_all Docs.nil = refl
  texts-pieces_all (Docs.cons d ds) =
      texts-append (pieces d) (pieces_all ds)
      ∙ ap₂ (λ s t. s ++ t) (texts-pieces d) (texts-pieces_all ds)

-- The rewriter changes spaces and newlines only.
abbrev pub KeepsContent : Option Rewriter → Type 0
KeepsContent r = (raw : Text) (col : ℕ) → content (rewritten r raw col) ≡ content raw

-- A break has nothing but spaces and newlines.
abbrev pub Blank : Piece → Type 0
Blank (fixed t) = Unit
Blank (comment t) = Unit
Blank (gap b) = content b.flat_text ≡ []

-- No space stands in front of a newline.
unfoldable pub Tidy : Text → Type 0
Tidy [] = Unit
Tidy (c ∷ []) = Unit
Tidy (c ∷ d ∷ s) = (c ≡ 32 → d ≡ 10 → ⊥) × Tidy (d ∷ s)

-- s[0] == c
abbrev pub starts_with : Text → ℕ → Bool
starts_with [] d = false
starts_with (c ∷ s) d = c == d

Tidy-append :
    (s t : Text)
    → Tidy s
    → Tidy t
    → (ends_with s 32 ≡ false) ⊎ (starts_with t 10 ≡ false)
    → Tidy (s ++ t)
unfolding Tidy ends_with
Tidy-append [] t h k e = k
Tidy-append (c ∷ []) [] h k e = tt
Tidy-append (c ∷ []) (d ∷ t) h k e = (ground (arith, e), k)
Tidy-append (c ∷ d ∷ s) t (n, h) k e = (n, Tidy-append (d ∷ s) t h k e)

trim_spaces-kept :
    (c : ℕ) (s : Text) → only_spaces (c ∷ s) ≡ false → trim_spaces (c ∷ s) ≡ c ∷ trim_spaces s
unfolding only_spaces trim_spaces
trim_spaces-kept c s h = rw h refl

Tidy-trim_spaces : (s : Text) → Tidy s → Tidy (trim_spaces s)
unfolding Tidy trim_spaces only_spaces
Tidy-trim_spaces [] h = tt
Tidy-trim_spaces (c ∷ []) h = if_cases Tidy (c == 32 && true) (λ _. tt) (λ _. tt)
Tidy-trim_spaces (c ∷ d ∷ s) (n, h) =
    if_cases Tidy (c == 32 && only_spaces (d ∷ s)) (λ _. tt)
      (λ _.
        if_cases (λ u. Tidy (c ∷ u)) (only_spaces (d ∷ s)) (λ _. tt)
          (λ e. (n, subst Tidy (trim_spaces-kept d s e) (Tidy-trim_spaces (d ∷ s) h))))

trim_spaces-end : (s : Text) → ends_with (trim_spaces s) 32 ≡ false
unfolding ends_with trim_spaces only_spaces
trim_spaces-end [] = refl
trim_spaces-end (c ∷ []) = ground arith
trim_spaces-end (c ∷ d ∷ s) =
    let NoSpace = λ (u : Text). ends_with u 32 ≡ false in
    if_cases NoSpace (c == 32 && only_spaces (d ∷ s)) (λ _. refl)
      (λ e.
        if_cases (λ u. NoSpace (c ∷ u)) (only_spaces (d ∷ s)) (λ h. ground (arith, e, h))
          (λ h. subst NoSpace (trim_spaces-kept d s h) (trim_spaces-end (d ∷ s))))

Tidy-spaces : (n : ℕ) → Tidy (spaces n)
unfolding Tidy
Tidy-spaces zero = tt
Tidy-spaces (suc zero) = tt
Tidy-spaces (suc (suc n)) = ((λ _ e. absurd (omega (arith, e))), Tidy-spaces (suc n))

Tidy-new_line : (n : ℕ) → Tidy (10 ∷ spaces n)
unfolding Tidy
Tidy-new_line zero = tt
Tidy-new_line (suc n) = ((λ e. absurd (omega (arith, e))), Tidy-spaces (suc n))

-- A text that can stand behind any other one.
abbrev pub Joins : Text → Type 0
Joins t = Tidy t × (starts_with t 10 ≡ false)

-- A leaf that the formatter can print anywhere on a line.
abbrev pub PieceJoins : Option Rewriter → Piece → Type 0
PieceJoins r (fixed t) = Joins t
PieceJoins r (comment t) = (col : ℕ) → Joins (rewritten r t col)
PieceJoins r (gap b) = Joins b.flat_text

Tidy-behind_break :
    (b : Break) (ni : Option ℕ) (s : Text) → Joins b.flat_text → Tidy s → Tidy (behind_break b ni s)
unfolding behind_break
Tidy-behind_break b none s (h, e) k = Tidy-append s b.flat_text k h (inr e)
Tidy-behind_break b (some n) s h k =
    Tidy-append (trim_spaces s) (10 ∷ spaces n) (Tidy-trim_spaces s k) (Tidy-new_line n)
      (inl (trim_spaces-end s))

Tidy-Prints :
    (r : Option Rewriter) (ps : List Piece) (s t : Text)
    → All (PieceJoins r) ps
    → Prints r ps s t
    → Tidy s
    → Tidy t
unfolding Prints
Tidy-Prints r [] s t j h k = subst Tidy h k
Tidy-Prints r (fixed u ∷ ps) s t ((i, e), j) h k =
    Tidy-Prints r ps (s ++ u) t j h (Tidy-append s u k i (inr e))
Tidy-Prints r (comment u ∷ ps) s t (i, j) (col, h) k =
    Tidy-Prints r ps (s ++ rewritten r u col) t j h
      (Tidy-append s (rewritten r u col) k (i col).0 (inr (i col).1))
Tidy-Prints r (gap b ∷ ps) s t (i, j) (ni, h) k =
    Tidy-Prints r ps (behind_break b ni s) t j h (Tidy-behind_break b ni s i k)

-- The output has no space in front of a newline and none at its end, if no text, rewritten comment
-- or flat break begins with a newline or has a space in front of one.
pub print_doc-Tidy :
    (d : Doc) (o : PrintOptions)
    → All (PieceJoins o.comment_rewriter) (pieces d)
    → Tidy (print_doc d o) × (ends_with (print_doc d o) 32 ≡ false)
unfolding Tidy
print_doc-Tidy d o j =
    let (t, h, e) = print_doc-Prints d o in
    let TidyLine = λ (u : Text). Tidy u × (ends_with u 32 ≡ false) in
    subst TidyLine (sym e) (
      Tidy-trim_spaces t (Tidy-Prints o.comment_rewriter (pieces d) [] t j h tt),
      trim_spaces-end t,
    )
