-- ===== src/Format/Doc/Layout.antt =====
-- The breaking algorithm of the formatter (togo/internal/format/doc.go): which levels stay on one
-- line, and at which breaks the others continue on a new line with which indent.
use cappu.Base.{
  ℕ, ◌+◌, Bool, true, false, ◌||◌, Option, none, some, List, [], ◌∷◌, if◌then◌else◌, leb, ltb, ◌==◌,
  Text, ℤ, ◌+ℤ◌, scale, at_least_zero, byte_length,
}
use cappu.Format.Doc.{
  FillMode, Indent, Break, Docs, Node, Nodes, Segments, leaf_width, break_width, sum_width,
  split_width,
}

-- What was recorded under the tags, the newest first.
abbrev pub Tags : Type 0
Tags = List (ℕ × Bool)

unfoldable pub was_break_taken : Tags → ℕ → Bool
was_break_taken [] tag = false
was_break_taken ((t, b) ∷ tags) tag = if t == tag then b else was_break_taken tags tag

unfoldable pub record_broken : Option ℕ → Bool → Tags → Tags
record_broken none b tags = tags
record_broken (some tag) b tags = (tag, b) ∷ tags

unfoldable pub eval_indent : Indent → ℕ → Tags → ℤ
eval_indent (Indent.const n) mult tags = scale n mult
eval_indent (Indent.cond tag then_i else_i) mult tags =
    if was_break_taken tags tag then eval_indent then_i mult tags else eval_indent else_i mult tags

-- The state of the layout, with the tags. No column is negative: the layout starts at column 0.
pub record State : Type 0 where
  pub last_indent : ℤ
  pub indent : ℤ
  pub column : ℕ
  pub must_break : Bool
  pub tags : Tags

-- A document with the decisions: a level on one line, or one that is broken, where each break has
-- the indent of the new line, or none if it stays flat.
mutual
  pub data Laid : Type 0 where
    token : Text → Laid
    reflow : Text → Laid
    one_line : Docs → Laid
    broken : LaidDocs → LaidSegments → Laid

  pub data LaidDocs : Type 0 where
    nil : LaidDocs
    cons : Laid → LaidDocs → LaidDocs

  pub data LaidSegments : Type 0 where
    end : LaidSegments
    segment : Break → Option ℕ → LaidDocs → LaidSegments → LaidSegments

-- The state moved on by a width.
unfoldable pub advance : ℕ → State → State
advance w st = record st { column = st.column + w }

-- The state at the start of a broken level.
unfoldable pub enter_level : Indent → ℕ → State → State
enter_level i mult st = record {
  last_indent = st.indent +ℤ eval_indent i mult st.tags;
  indent = st.indent +ℤ eval_indent i mult st.tags;
  column = st.column;
  must_break = false;
  tags = st.tags;
}

unfoldable pub is_unified : FillMode → Bool
is_unified FillMode.unified = true
is_unified FillMode.independent = false
is_unified FillMode.forced = false

-- The decision on a break, from the width of the split behind it.
unfoldable pub should_break : ℕ → Break → ℕ → State → Bool
should_break max_w b w st =
    is_unified b.fill_mode || st.must_break || ltb max_w (st.column + break_width b + w)

-- The indent of the new line at a break that is taken.
unfoldable pub broken_indent : ℕ → Break → State → ℕ
broken_indent mult b st = at_least_zero (st.last_indent +ℤ eval_indent b.plus_indent mult st.tags)

-- A break with the decision on it: the indent, and the state behind the break.
unfoldable pub decide : Bool → ℕ → Break → State → Option ℕ × State
decide taken mult b st =
    let st₁ = record st { tags = record_broken b.opt_tag taken st.tags } in
    if taken
    then (some (broken_indent mult b st₁), record st₁ { column = broken_indent mult b st₁ })
    else (none, record st₁ { column = st₁.column + byte_length b.flat_text })

-- The state after a split, from the one before it.
unfoldable pub after_split : ℕ → ℕ → State → State → State
after_split max_w w before st =
    if leb (before.column + w) max_w then st else record st { must_break = true }

-- A split starts with no break due.
abbrev pub before_split : State → State
before_split st = record st { must_break = false }

-- The state after a level is the one before it with the column, and the tags, of its layout.
abbrev pub leave_level : State → State → State
leave_level st s = record st { column = s.column; tags = s.tags }

unfoldable mutual
  pub compute_node : ℕ → ℕ → Node → State → Laid × State
  compute_node max_w mult (Node.token t) st = (Laid.token t, advance (leaf_width t) st)
  compute_node max_w mult (Node.reflow t) st = (Laid.reflow t, advance (leaf_width t) st)
  compute_node max_w mult (Node.level i docs first rest) st =
      let s₀ = enter_level i mult st in
      let r₁ = compute_nodes max_w mult first (before_split s₀) in
      let r₂ = compute_segments max_w mult rest (after_split max_w (split_width 0 first) s₀ r₁.1) in
      if leb (st.column + sum_width 0 docs) max_w
      then (Laid.one_line docs, advance (sum_width 0 docs) st)
      else (Laid.broken r₁.0 r₂.0, leave_level st r₂.1)

  pub compute_nodes : ℕ → ℕ → Nodes → State → LaidDocs × State
  compute_nodes max_w mult Nodes.nil st = (LaidDocs.nil, st)
  compute_nodes max_w mult (Nodes.cons d ds) st =
      let r₁ = compute_node max_w mult d st in
      let r₂ = compute_nodes max_w mult ds r₁.1 in (LaidDocs.cons r₁.0 r₂.0, r₂.1)

  -- A break and the split behind it, then those that follow.
  pub compute_segments : ℕ → ℕ → Segments → State → LaidSegments × State
  compute_segments max_w mult Segments.end st = (LaidSegments.end, st)
  compute_segments max_w mult (Segments.segment b split rest) st =
      let w = split_width 0 split in
      let d = decide (should_break max_w b w st) mult b st in
      let r₁ = compute_nodes max_w mult split (before_split d.1) in
      let r₂ = compute_segments max_w mult rest (after_split max_w w d.1 r₁.1) in
      (LaidSegments.segment b d.0 r₁.0 r₂.0, r₂.1)
