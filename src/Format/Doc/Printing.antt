-- ===== src/Format/Doc/Printing.antt =====
-- What the output of the formatter (togo/internal/format/doc.go) may be: an independent description
-- of it, and that the code's output is one.
use cappu.Base.{
  ℕ, ◌++◌, true, false, ◌&&◌, Option, none, some, List, [], ◌∷◌, if◌then◌else◌, if_cases, ||_false,
  Text, ◌≡◌, refl, sym, ap, ◌∙◌, append-nil, append_assoc, subst, arith, spaces,
}
use cappu.Format.Doc.{Break, Doc, Docs, flat, flat_all, has_reflow, any_reflow}
use cappu.Format.Doc.Layout.{Laid, LaidDocs, LaidSegments}
use cappu.Format.Doc.Output.{
  Rewriter, PrintOptions, Writer, push, only_spaces, trim_spaces, trim_trailing_space, rewritten,
  write_reflow, write_flat, write_all_flat, write_break, write_doc, write_docs, write_segments,
  joined, layout, start_writer, print_doc,
}
use cappu.Format.Doc.Pieces.{
  Piece, fixed, comment, gap, pieces, pieces_all, pieces_laid, pieces_laid_docs,
  pieces_laid_segments, pieces-layout,
}

-- A text behind a break: the flat text, or a new line with an indent, in front of which no space
-- is left.
unfoldable pub behind_break : Break → Option ℕ → Text → Text
behind_break b none s = s ++ b.flat_text
behind_break b (some n) s = trim_spaces s ++ 10 ∷ spaces n

-- From the text `s` the pieces lead to the text `t`: each is put behind what stands, a comment as
-- rewritten for some column, and a break in one of its two ways.
unfoldable pub Prints : Option Rewriter → List Piece → Text → Text → Type 0
Prints rw? [] s t = s ≡ t
Prints rw? (fixed u ∷ ps) s t = Prints rw? ps (s ++ u) t
Prints rw? (comment u ∷ ps) s t = (col : ℕ) × Prints rw? ps (s ++ rewritten rw? u col) t
Prints rw? (gap b ∷ ps) s t = (ni : Option ℕ) × Prints rw? ps (behind_break b ni s) t

Prints-append :
    (r : Option Rewriter) (ps qs : List Piece) (s t u : Text)
    → Prints r ps s t
    → Prints r qs t u
    → Prints r (ps ++ qs) s u
unfolding Prints
Prints-append r [] qs s t u h k = rw h k
Prints-append r (fixed v ∷ ps) qs s t u h k = Prints-append r ps qs (s ++ v) t u h k
Prints-append r (comment v ∷ ps) qs s t u (col, h) k =
    (col, Prints-append r ps qs (s ++ rewritten r v col) t u h k)
Prints-append r (gap b ∷ ps) qs s t u (ni, h) k =
    (ni, Prints-append r ps qs (behind_break b ni s) t u h k)

-- Trimming the chunks trims the text.
only_spaces-append : (s t : Text) → only_spaces (s ++ t) ≡ only_spaces s && only_spaces t
unfolding only_spaces
only_spaces-append [] t = refl
only_spaces-append (c ∷ s) t = ground (arith, only_spaces-append s t)

trim-only_spaces : (s : Text) → only_spaces s ≡ true → trim_spaces s ≡ []
unfolding only_spaces trim_spaces
trim-only_spaces [] h = refl
trim-only_spaces (c ∷ s) h = rw h refl

pub trim-append_spaces : (s t : Text) → only_spaces t ≡ true → trim_spaces (s ++ t) ≡ trim_spaces s
unfolding trim_spaces
trim-append_spaces [] t h = trim-only_spaces t h
trim-append_spaces (c ∷ s) t h = ground (arith, only_spaces-append s t, trim-append_spaces s t)

pub trim-append : (s t : Text) → only_spaces t ≡ false → trim_spaces (s ++ t) ≡ s ++ trim_spaces t
unfolding trim_spaces
trim-append [] t h = refl
trim-append (c ∷ s) t h = ground (arith, only_spaces-append s t, trim-append s t)

joined-trim : (out : List Text) → joined (trim_trailing_space out) ≡ trim_spaces (joined out)
unfolding joined trim_trailing_space trim_spaces
joined-trim [] = refl
joined-trim ([] ∷ out) =
    append-nil (joined (trim_trailing_space out))
    ∙ joined-trim out
    ∙ ap trim_spaces (sym (append-nil (joined out)))
joined-trim ((c ∷ s) ∷ out) =
    if_cases (λ o. joined o ≡ trim_spaces (joined out ++ c ∷ s)) (only_spaces (c ∷ s))
      (λ h.
        append-nil (joined (trim_trailing_space out))
        ∙ joined-trim out
        ∙ sym (trim-append_spaces (joined out) (c ∷ s) h))
      (λ h. sym (trim-append (joined out) (c ∷ s) h))

-- A writer comes from another one by the pieces.
abbrev Written : Option Rewriter → List Piece → Writer → Writer → Type 0
Written r ps w w' = (w'.rewrite ≡ r) × Prints r ps (joined w.out) (joined w'.out)

module _ (r : Option Rewriter) where
  Written-append :
      (ps qs : List Piece) (w w₁ w₂ : Writer)
      → Written r ps w w₁
      → Written r qs w₁ w₂
      → Written r (ps ++ qs) w w₂
  Written-append ps qs w w₁ w₂ (_, h) (e, k) =
      (e, Prints-append r ps qs (joined w.out) (joined w₁.out) (joined w₂.out) h k)

  write_reflow-Written :
      (t : Text) (w : Writer) → w.rewrite ≡ r → Written r (comment t ∷ []) w (write_reflow t w)
  unfolding write_reflow push Prints joined
  write_reflow-Written t w e = (e, (w.col, rw e refl))

  write_break-Written :
      (b : Break) (ni : Option ℕ) (w : Writer)
      → w.rewrite ≡ r
      → Written r (gap b ∷ []) w (write_break b ni w)
  unfolding write_break push Prints joined behind_break
  write_break-Written b none w e = (e, (none, refl))
  write_break-Written b (some n) w e = (e, (some n, rw (joined-trim w.out) refl))

  mutual
    unfolding write_flat write_all_flat pieces pieces_all push Prints joined behind_break

    write_flat-Written :
        (d : Doc) (w : Writer) → w.rewrite ≡ r → Written r (pieces d) w (write_flat d w)
    write_flat-Written (Doc.token t) w e = (e, refl)
    write_flat-Written (Doc.reflow t) w e = write_reflow-Written t w e
    write_flat-Written (Doc.brk b) w e = (e, (none, refl))
    write_flat-Written (Doc.concat parts) w e = write_all_flat-Written parts w e
    write_flat-Written (Doc.level i docs) w e = write_all_flat-Written docs w e

    write_all_flat-Written :
        (ds : Docs) (w : Writer) → w.rewrite ≡ r → Written r (pieces_all ds) w (write_all_flat ds w)
    write_all_flat-Written Docs.nil w e = (e, refl)
    write_all_flat-Written (Docs.cons d ds) w e =
        let h = write_flat-Written d w e in
        Written-append (pieces d) (pieces_all ds) w (write_flat d w)
          (write_all_flat ds (write_flat d w)) h (write_all_flat-Written ds (write_flat d w) h.0)

-- Documents without a comment print as their flat text.
mutual
  unfolding flat flat_all has_reflow any_reflow pieces pieces_all Prints behind_break

  flat-Prints :
      (r : Option Rewriter) (d : Doc) (s : Text)
      → has_reflow d ≡ false
      → Prints r (pieces d) s (s ++ flat d)
  flat-Prints r (Doc.token t) s h = refl
  flat-Prints r (Doc.reflow t) s h = absurd (ground (arith, h))
  flat-Prints r (Doc.brk b) s h = (none, refl)
  flat-Prints r (Doc.concat parts) s h = flat_all-Prints r parts s h
  flat-Prints r (Doc.level i docs) s h = flat_all-Prints r docs s h

  flat_all-Prints :
      (r : Option Rewriter) (ds : Docs) (s : Text)
      → any_reflow ds ≡ false
      → Prints r (pieces_all ds) s (s ++ flat_all ds)
  flat_all-Prints r Docs.nil s h = sym (append-nil s)
  flat_all-Prints r (Docs.cons d ds) s h =
      Prints-append r (pieces d) (pieces_all ds) s (s ++ flat d) (s ++ (flat d ++ flat_all ds))
        (flat-Prints r d s (||_false (has_reflow d) (any_reflow ds) h).0)
        (rw (← append_assoc s (flat d) (flat_all ds))
          (flat_all-Prints r ds (s ++ flat d) (||_false (has_reflow d) (any_reflow ds) h).1))

module _ (r : Option Rewriter) where
  one_line-Written :
      (docs : Docs) (w : Writer)
      → w.rewrite ≡ r
      → Written r
          (pieces_all docs)
          w
          (if any_reflow docs then write_all_flat docs w else push (flat_all docs) w)
  unfolding push joined
  one_line-Written docs w e =
      if_cases (λ v. Written r (pieces_all docs) w v) (any_reflow docs)
        (λ _. write_all_flat-Written r docs w e) (λ h. (e, flat_all-Prints r docs (joined w.out) h))

  mutual
    unfolding write_doc write_docs write_segments pieces_laid pieces_laid_docs pieces_laid_segments
        push Prints joined

    write_doc-Written :
        (l : Laid) (w : Writer) → w.rewrite ≡ r → Written r (pieces_laid l) w (write_doc l w)
    write_doc-Written (Laid.token t) w e = (e, refl)
    write_doc-Written (Laid.reflow t) w e = write_reflow-Written r t w e
    write_doc-Written (Laid.one_line docs) w e = one_line-Written docs w e
    write_doc-Written (Laid.broken first rest) w e =
        let h = write_docs-Written first w e in
        Written-append r (pieces_laid_docs first) (pieces_laid_segments rest) w (write_docs first w)
          (write_segments rest (write_docs first w)) h
          (write_segments-Written rest (write_docs first w) h.0)

    write_docs-Written :
        (ls : LaidDocs) (w : Writer)
        → w.rewrite ≡ r
        → Written r (pieces_laid_docs ls) w (write_docs ls w)
    write_docs-Written LaidDocs.nil w e = (e, refl)
    write_docs-Written (LaidDocs.cons d ds) w e =
        let h = write_doc-Written d w e in
        Written-append r (pieces_laid d) (pieces_laid_docs ds) w (write_doc d w)
          (write_docs ds (write_doc d w)) h (write_docs-Written ds (write_doc d w) h.0)

    write_segments-Written :
        (rest : LaidSegments) (w : Writer)
        → w.rewrite ≡ r
        → Written r (pieces_laid_segments rest) w (write_segments rest w)
    write_segments-Written LaidSegments.end w e = (e, refl)
    write_segments-Written (LaidSegments.segment b ni split rest) w e =
        let w₁ = write_break b ni w in
        let w₂ = write_docs split w₁ in
        let h₁ = write_break-Written r b ni w e in
        let h₂ = write_docs-Written split w₁ h₁.0 in
        let h₃ = write_segments-Written rest w₂ h₂.0 in
        Written-append r (gap b ∷ []) (pieces_laid_docs split ++ pieces_laid_segments rest) w w₁
          (write_segments rest w₂) h₁
          (Written-append r (pieces_laid_docs split) (pieces_laid_segments rest) w₁ w₂
            (write_segments rest w₂) h₂ h₃)

-- The output of a document is its leaves, printed in order from the empty text, without the spaces
-- at the end: each text as it is, each comment as the rewriter has it for some column, and each
-- break as its flat text or as a new line that no space stands in front of.
pub print_doc-Prints :
    (d : Doc) (o : PrintOptions)
    → (t : Text) × Prints o.comment_rewriter (pieces d) [] t × (print_doc d o ≡ trim_spaces t)
unfolding print_doc joined
print_doc-Prints d o =
    let w' = write_doc (layout d o) (start_writer o) in
    (
      joined w'.out,
      subst (λ ps. Prints o.comment_rewriter ps [] (joined w'.out)) (pieces-layout d o)
          (write_doc-Written o.comment_rewriter (layout d o) (start_writer o) refl).1,
      joined-trim w'.out,
    )
