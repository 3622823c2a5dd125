-- ===== src/Format/Doc/Breaks.antt =====
-- Which breaks of a layout (togo/internal/format/doc.go) are taken.
use cappu.Base.{
  ℕ, ◌+◌, ◌<◌, ◌≤◌, true, false, Option, none, some, if_cases, leb, ◌≡◌, ◌≢◌, refl, subst, sym,
  arith, leb→le,
}
use cappu.Format.Doc.{
  FillMode, Break, Doc, Docs, Node, Nodes, Segments, width, sum_width, capped, max_width,
  break_width, split_width,
}
use cappu.Format.Doc.Layout.{
  Laid, LaidDocs, LaidSegments, State, is_unified, should_break, decide, compute_node,
  compute_nodes, compute_segments,
}
use cappu.Format.Doc.Output.{PrintOptions, layout, root, start_state}

-- A document that has no forced break.
unfoldable mutual
  pub Unforced : Doc → Type 0
  Unforced (Doc.token t) = Unit
  Unforced (Doc.reflow t) = Unit
  Unforced (Doc.concat parts) = AllUnforced parts
  Unforced (Doc.brk b) = b.fill_mode ≢ FillMode.forced
  Unforced (Doc.level i docs) = AllUnforced docs

  pub AllUnforced : Docs → Type 0
  AllUnforced Docs.nil = Unit
  AllUnforced (Docs.cons d ds) = Unforced d × AllUnforced ds

-- What the fill mode asks of a break in a level that is not on one line.
abbrev pub Obeys : Break → Option ℕ → Type 0
Obeys b (some n) = Unit
Obeys b none = b.fill_mode ≡ FillMode.independent

-- No level on one line has a forced break, and in the others each break that is taken flat is an
-- independent one.
unfoldable mutual
  pub Obeyed : Laid → Type 0
  Obeyed (Laid.token t) = Unit
  Obeyed (Laid.reflow t) = Unit
  Obeyed (Laid.one_line docs) = AllUnforced docs
  Obeyed (Laid.broken first rest) = AllObeyed first × SegmentsObeyed rest

  pub AllObeyed : LaidDocs → Type 0
  AllObeyed LaidDocs.nil = Unit
  AllObeyed (LaidDocs.cons d ds) = Obeyed d × AllObeyed ds

  pub SegmentsObeyed : LaidSegments → Type 0
  SegmentsObeyed LaidSegments.end = Unit
  SegmentsObeyed (LaidSegments.segment b ni split rest) =
      Obeys b ni × AllObeyed split × SegmentsObeyed rest

capped_below : (w rest : ℕ) → capped w rest < max_width → (w < max_width) × (rest < max_width)
capped_below w rest h = ground arith

sum_width_ge : (ds : Docs) (w : ℕ) → sum_width w ds < max_width → w ≤ sum_width w ds
unfolding sum_width
sum_width_ge Docs.nil w h = omega arith
sum_width_ge (Docs.cons d ds) w h =
    let k = capped_below (w + width d) (sum_width (w + width d) ds) h in
    ground (arith, k.0, sum_width_ge ds (w + width d) k.1)

forced-width : (b : Break) → b.fill_mode ≡ FillMode.forced → break_width b ≡ max_width
unfolding break_width
forced-width b e = rw e refl

mutual
  unfolding Unforced AllUnforced width sum_width

  narrow-Unforced : (d : Doc) → width d < max_width → Unforced d
  narrow-Unforced (Doc.token t) h = tt
  narrow-Unforced (Doc.reflow t) h = tt
  narrow-Unforced (Doc.concat parts) h = narrow-AllUnforced parts 0 h
  narrow-Unforced (Doc.brk b) h = λ e. omega (arith, h, forced-width b e)
  narrow-Unforced (Doc.level i docs) h = narrow-AllUnforced docs 0 h

  narrow-AllUnforced : (ds : Docs) (w : ℕ) → sum_width w ds < max_width → AllUnforced ds
  narrow-AllUnforced Docs.nil w h = tt
  narrow-AllUnforced (Docs.cons d ds) w h =
      let k = capped_below (w + width d) (sum_width (w + width d) ds) h in
      (narrow-Unforced d (omega (arith, k.0)), narrow-AllUnforced ds (w + width d) k.1)

flat-independent :
    (max_w w : ℕ) (b : Break) (st : State) (m : FillMode)
    → max_w < max_width
    → b.fill_mode ≡ m
    → should_break max_w b w st ≡ false
    → b.fill_mode ≡ FillMode.independent
unfolding should_break is_unified
flat-independent max_w w b st FillMode.independent lt e h = e
flat-independent max_w w b st FillMode.unified lt e h =
    let u = subst (λ m. is_unified m ≡ true) (sym e) refl in absurd (ground (arith, u, h))
flat-independent max_w w b st FillMode.forced lt e h =
    absurd (ground (arith, lt, h, forced-width b e))

decide-Obeys :
    (max_w mult w : ℕ) (b : Break) (st : State)
    → max_w < max_width
    → Obeys b (decide (should_break max_w b w st) mult b st).0
unfolding decide
decide-Obeys max_w mult w b st lt =
    if_cases (λ (r : Option ℕ × State). Obeys b r.0) (should_break max_w b w st) (λ _. tt)
      (λ h. flat-independent max_w w b st b.fill_mode lt refl h)

mutual
  unfolding compute_node compute_nodes compute_segments Obeyed AllObeyed SegmentsObeyed

  compute_node-Obeyed :
      (max_w mult : ℕ) (d : Node) (st : State)
      → max_w < max_width
      → Obeyed (compute_node max_w mult d st).0
  compute_node-Obeyed max_w mult (Node.token t) st lt = tt
  compute_node-Obeyed max_w mult (Node.reflow t) st lt = tt
  compute_node-Obeyed max_w mult (Node.level i docs first rest) st lt =
      if_cases (λ (r : Laid × State). Obeyed r.0) (leb (st.column + sum_width 0 docs) max_w)
        (λ fits.
          narrow-AllUnforced docs 0
            (omega (arith, lt, leb→le (st.column + sum_width 0 docs) max_w fits)))
        (λ _. (
          compute_nodes-Obeyed max_w mult first _ lt,
          compute_segments-Obeyed max_w mult rest _ lt,
        ))

  compute_nodes-Obeyed :
      (max_w mult : ℕ) (ds : Nodes) (st : State)
      → max_w < max_width
      → AllObeyed (compute_nodes max_w mult ds st).0
  compute_nodes-Obeyed max_w mult Nodes.nil st lt = tt
  compute_nodes-Obeyed max_w mult (Nodes.cons d ds) st lt =
      (compute_node-Obeyed max_w mult d st lt, compute_nodes-Obeyed max_w mult ds _ lt)

  compute_segments-Obeyed :
      (max_w mult : ℕ) (rest : Segments) (st : State)
      → max_w < max_width
      → SegmentsObeyed (compute_segments max_w mult rest st).0
  compute_segments-Obeyed max_w mult Segments.end st lt = tt
  compute_segments-Obeyed max_w mult (Segments.segment b split rest) st lt = (
    decide-Obeys max_w mult (split_width 0 split) b st lt,
    compute_nodes-Obeyed max_w mult split _ lt,
    compute_segments-Obeyed max_w mult rest _ lt,
  )

-- On lines shorter than the width that stands for a forced break, a forced break is always taken,
-- with every level around it broken, and in a broken level so are all unified breaks: only an
-- independent break is ever flat there.
pub layout-Obeyed : (d : Doc) (o : PrintOptions) → o.width < max_width → Obeyed (layout d o)
unfolding layout
layout-Obeyed d o lt = compute_node-Obeyed o.width o.indent_mult (root d) start_state lt
