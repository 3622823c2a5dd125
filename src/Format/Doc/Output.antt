-- ===== src/Format/Doc/Output.antt =====
-- The output of the formatter (togo/internal/format/doc.go). The rewriter of comments is a
-- parameter.
use cappu.Base.{
  ℕ, ◌+◌, ◌++◌, Bool, true, false, ◌&&◌, Option, none, some, List, [], ◌∷◌, if◌then◌else◌, ◌==◌,
  Text, pos, byte_length, is_empty, spaces,
}
use cappu.Format.Doc.{
  Break, Doc, Docs, Node, Nodes, Segments, Indent, no_indent, flat_all, any_reflow, split_by_breaks,
}
use cappu.Format.Doc.Layout.{State, Laid, LaidDocs, LaidSegments, compute_node}

-- What becomes of a comment at a column.
abbrev pub Rewriter : Type 0
Rewriter = Text → ℕ → Text

pub record PrintOptions : Type 0 where
  pub width : ℕ
  pub indent_mult : ℕ
  pub comment_rewriter : Option Rewriter

-- The chunks of the output, the last one first.
pub record Writer : Type 0 where
  pub out : List Text
  pub col : ℕ
  pub rewrite : Option Rewriter

-- What stands behind the last newline, if there is one.
unfoldable pub after_newline : Text → Option Text
after_newline [] = none
after_newline (c ∷ s) = elim (after_newline s) [
  | some t ↦ some t
  | none ↦ if c == 10 then some s else none
]

unfoldable pub push : Text → Writer → Writer
push s w = record w {
  out = s ∷ w.out;
  col = elim (after_newline s) [ some t ↦ byte_length t | none ↦ w.col + byte_length s ];
}

-- Whether a text holds nothing but spaces; the code also asks that it is not empty.
unfoldable pub only_spaces : Text → Bool
only_spaces [] = true
only_spaces (c ∷ s) = c == 32 && only_spaces s

-- strings.TrimRight(s, " ")
unfoldable pub trim_spaces : Text → Text
unfolding only_spaces
trim_spaces [] = []
trim_spaces (c ∷ s) = let rest = trim_spaces s in if c == 32 && only_spaces s then [] else c ∷ rest

unfoldable pub trim_trailing_space : List Text → List Text
trim_trailing_space [] = []
trim_trailing_space (s ∷ out) =
    let rest = trim_trailing_space out in
    if is_empty s then s ∷ rest else if only_spaces s then [] ∷ rest else trim_spaces s ∷ out

abbrev pub trim : Writer → Writer
trim w = record w { out = trim_trailing_space w.out }

-- A comment at the column of the writer.
unfoldable pub rewritten : Option Rewriter → Text → ℕ → Text
rewritten none raw col = raw
rewritten (some f) raw col = f raw col

unfoldable pub write_reflow : Text → Writer → Writer
write_reflow raw w = push (rewritten w.rewrite raw w.col) w

unfoldable mutual
  pub write_flat : Doc → Writer → Writer
  write_flat (Doc.token t) w = push t w
  write_flat (Doc.reflow t) w = write_reflow t w
  write_flat (Doc.brk b) w = push b.flat_text w
  write_flat (Doc.concat parts) w = write_all_flat parts w
  write_flat (Doc.level i docs) w = write_all_flat docs w

  pub write_all_flat : Docs → Writer → Writer
  write_all_flat Docs.nil w = w
  write_all_flat (Docs.cons d ds) w = write_all_flat ds (write_flat d w)

-- A break with its decision.
unfoldable pub write_break : Break → Option ℕ → Writer → Writer
write_break b (some n) w = push (10 ∷ spaces n) (trim w)
write_break b none w = push b.flat_text w

unfoldable mutual
  pub write_doc : Laid → Writer → Writer
  write_doc (Laid.token t) w = push t w
  write_doc (Laid.reflow t) w = write_reflow t w
  write_doc (Laid.one_line docs) w =
      if any_reflow docs then write_all_flat docs w else push (flat_all docs) w
  write_doc (Laid.broken first rest) w = write_segments rest (write_docs first w)

  pub write_docs : LaidDocs → Writer → Writer
  write_docs LaidDocs.nil w = w
  write_docs (LaidDocs.cons d ds) w = write_docs ds (write_doc d w)

  pub write_segments : LaidSegments → Writer → Writer
  write_segments LaidSegments.end w = w
  write_segments (LaidSegments.segment b ni split rest) w =
      write_segments rest (write_docs split (write_break b ni w))

-- strings.Join(w.out, "")
unfoldable pub joined : List Text → Text
joined [] = []
joined (s ∷ out) = joined out ++ s

-- The root level: a document that is no level is the only one of a level.
unfoldable pub root_docs : Doc → Docs
root_docs (Doc.level i docs) = docs
root_docs d = Docs.cons d Docs.nil

unfoldable pub root_indent : Doc → Indent
root_indent (Doc.level i docs) = i
root_indent d = no_indent

unfoldable pub root : Doc → Node
root d =
    let splits = split_by_breaks (root_docs d) (Nodes.nil, Segments.end) in
    Node.level (root_indent d) (root_docs d) splits.0 splits.1

abbrev pub start_state : State
start_state = record {
  last_indent = pos 0;
  indent = pos 0;
  column = 0;
  must_break = false;
  tags = [];
}

unfoldable pub layout : Doc → PrintOptions → Laid
layout d o = (compute_node o.width o.indent_mult (root d) start_state).0

abbrev pub start_writer : PrintOptions → Writer
start_writer o = record { out = []; col = 0; rewrite = o.comment_rewriter }

unfoldable pub print_doc : Doc → PrintOptions → Text
print_doc d o = joined (trim (write_doc (layout d o) (start_writer o))).out
