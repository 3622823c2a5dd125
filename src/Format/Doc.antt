-- ===== src/Format/Doc.antt =====
-- The layout documents of the formatter (togo/internal/format/doc.go). A tag of a break is a number,
-- and what was recorded under it stands in a store. A text is the list of its code points.
pub mod Layout
pub mod Output
pub mod Pieces
pub mod Printing
pub mod Tidy
pub mod Breaks
use cappu.Base.{
  ℕ, ◌+◌, ◌*◌, ◌++◌, Bool, true, false, ◌||◌, Option, none, some, List, [], ◌∷◌, if◌then◌else◌, ltb,
  leb, ◌==◌, Text, codes, ℤ, pos, byte_length,
}

abbrev pub max_width : ℕ
max_width = 1000

-- The width in UTF-16 code units.
unfoldable pub text_width : Text → ℕ
text_width [] = 0
text_width (r ∷ s) = (if ltb 0xffff r then 2 else 1) + text_width s

-- strings.Contains(s, "\n")
unfoldable pub has_newline : Text → Bool
has_newline [] = false
has_newline (c ∷ s) = c == 10 || has_newline s

pub data FillMode : Type 0 where
  unified : FillMode
  independent : FillMode
  forced : FillMode

pub data Indent : Type 0 where
  const : ℤ → Indent
  cond : ℕ → Indent → Indent → Indent

-- The indent of no columns.
abbrev pub no_indent : Indent
no_indent = const (pos 0)

-- A break; the tag is what its decision is recorded under.
pub record Break : Type 0 where
  pub fill_mode : FillMode
  pub flat_text : Text
  pub plus_indent : Indent
  pub opt_tag : Option ℕ

mutual
  pub data Doc : Type 0 where
    token : Text → Doc
    reflow : Text → Doc
    concat : Docs → Doc
    brk : Break → Doc
    level : Indent → Docs → Doc

  pub data Docs : Type 0 where
    nil : Docs
    cons : Doc → Docs → Docs

-- The parts with a document between each two of them.
unfoldable pub separate : Doc → Docs → Docs
separate sep Docs.nil = Docs.nil
separate sep (Docs.cons p Docs.nil) = Docs.cons p Docs.nil
separate sep (Docs.cons p (Docs.cons q ps)) =
    Docs.cons p (Docs.cons sep (separate sep (Docs.cons q ps)))

abbrev pub join : Doc → Docs → Doc
join sep parts = Doc.concat (separate sep parts)

abbrev pub group : Doc → Doc
group d = Doc.level no_indent (Docs.cons d Docs.nil)

abbrev pub indented : Doc → Doc
indented d = Doc.level (const (pos 2)) (Docs.cons d Docs.nil)

-- A space, or a newline when its group breaks.
abbrev pub line : Doc
line = Doc.brk (record {
  fill_mode = FillMode.unified;
  flat_text = codes " ";
  plus_indent = no_indent;
  opt_tag = none;
})

-- Always a newline.
abbrev pub hardline : Doc
hardline = Doc.brk (record {
  fill_mode = FillMode.forced;
  flat_text = [];
  plus_indent = no_indent;
  opt_tag = none;
})

abbrev pub leaf_width : Text → ℕ
leaf_width t = if has_newline t then max_width else text_width t

unfoldable pub break_width : Break → ℕ
break_width b = elim b.fill_mode [ FillMode.forced ↦ max_width | _ ↦ byte_length b.flat_text ]

-- A sum that stops at the maximum.
abbrev pub capped : ℕ → ℕ → ℕ
capped w rest = if leb max_width w then max_width else rest

unfoldable mutual
  pub width : Doc → ℕ
  width (token t) = leaf_width t
  width (reflow t) = leaf_width t
  width (concat parts) = sum_width 0 parts
  width (brk b) = break_width b
  width (level i docs) = sum_width 0 docs

  pub sum_width : ℕ → Docs → ℕ
  sum_width w nil = w
  sum_width w (cons d ds) = capped (w + width d) (sum_width (w + width d) ds)

unfoldable mutual
  pub flat : Doc → Text
  flat (token t) = t
  flat (reflow t) = t
  flat (concat parts) = flat_all parts
  flat (brk b) = b.flat_text
  flat (level i docs) = flat_all docs

  pub flat_all : Docs → Text
  flat_all nil = []
  flat_all (cons d ds) = flat d ++ flat_all ds

unfoldable mutual
  pub has_reflow : Doc → Bool
  has_reflow (token t) = false
  has_reflow (reflow t) = true
  has_reflow (concat parts) = any_reflow parts
  has_reflow (brk b) = false
  has_reflow (level i docs) = any_reflow docs

  pub any_reflow : Docs → Bool
  any_reflow nil = false
  any_reflow (cons d ds) = has_reflow d || any_reflow ds

-- A document whose levels have their splits. A level keeps its documents, and holds what stands in
-- front of its first break and the breaks, each with what stands behind it.
mutual
  pub data Node : Type 0 where
    token : Text → Node
    reflow : Text → Node
    level : Indent → Docs → Nodes → Segments → Node

  pub data Nodes : Type 0 where
    nil : Nodes
    cons : Node → Nodes → Nodes

  pub data Segments : Type 0 where
    end : Segments
    segment : Break → Nodes → Segments → Segments

-- The splits and breaks of documents in front of those that follow: concats are transparent, and
-- levels are opaque. The program splits a level when it does not fit on a line.
unfoldable mutual
  pub split_one : Doc → Nodes × Segments → Nodes × Segments
  split_one (token t) k = (Nodes.cons (Node.token t) k.0, k.1)
  split_one (reflow t) k = (Nodes.cons (Node.reflow t) k.0, k.1)
  split_one (concat parts) k = split_by_breaks parts k
  split_one (brk b) k = (Nodes.nil, segment b k.0 k.1)
  split_one (level i docs) k = (
    Nodes.cons
        (Node.level i docs (split_by_breaks docs (Nodes.nil, end)).0
          (split_by_breaks docs (Nodes.nil, end)).1)
        k.0,
    k.1,
  )

  pub split_by_breaks : Docs → Nodes × Segments → Nodes × Segments
  split_by_breaks nil k = k
  split_by_breaks (cons d ds) k = split_one d (split_by_breaks ds k)

-- The width of a node is that of the document it comes from.
unfoldable pub node_width : Node → ℕ
node_width (Node.token t) = leaf_width t
node_width (Node.reflow t) = leaf_width t
node_width (Node.level i docs first rest) = sum_width 0 docs

unfoldable pub split_width : ℕ → Nodes → ℕ
split_width w Nodes.nil = w
split_width w (Nodes.cons d ds) = capped (w + node_width d) (split_width (w + node_width d) ds)
