-- ===== src/Format/Doc/Pieces.antt =====
-- The leaves of a layout document, in order: splitting a level at its breaks and laying it out
-- (togo/internal/format/doc.go) keep them.
use cappu.Base.{
  ℕ, ◌+◌, ◌++◌, List, [], ◌∷◌, leb, Text, ◌≡◌, refl, sym, ap, ap₂, ◌∙◌, append-nil, append_assoc,
  if_cases,
}
use cappu.Format.Doc.{
  Break, Doc, Docs, Node, Nodes, Segments, split_one, split_by_breaks, sum_width,
}
use cappu.Format.Doc.Layout.{
  State, Laid, LaidDocs, LaidSegments, compute_node, compute_nodes, compute_segments,
}
use cappu.Format.Doc.Output.{PrintOptions, root, root_docs, layout, start_state}

pub data Piece : Type 0 where
  fixed : Text → Piece
  comment : Text → Piece
  gap : Break → Piece

unfoldable mutual
  pub pieces : Doc → List Piece
  pieces (Doc.token t) = fixed t ∷ []
  pieces (Doc.reflow t) = comment t ∷ []
  pieces (Doc.concat parts) = pieces_all parts
  pieces (Doc.brk b) = gap b ∷ []
  pieces (Doc.level i docs) = pieces_all docs

  pub pieces_all : Docs → List Piece
  pieces_all Docs.nil = []
  pieces_all (Docs.cons d ds) = pieces d ++ pieces_all ds

unfoldable pieces_node : Node → List Piece
pieces_node (Node.token t) = fixed t ∷ []
pieces_node (Node.reflow t) = comment t ∷ []
pieces_node (Node.level i docs first rest) = pieces_all docs

unfoldable pieces_nodes : Nodes → List Piece
pieces_nodes Nodes.nil = []
pieces_nodes (Nodes.cons d ds) = pieces_node d ++ pieces_nodes ds

unfoldable pieces_segments : Segments → List Piece
pieces_segments Segments.end = []
pieces_segments (Segments.segment b split rest) =
    gap b ∷ (pieces_nodes split ++ pieces_segments rest)

abbrev pieces_split : Nodes × Segments → List Piece
pieces_split k = pieces_nodes k.0 ++ pieces_segments k.1

unfoldable mutual
  pub pieces_laid : Laid → List Piece
  pieces_laid (Laid.token t) = fixed t ∷ []
  pieces_laid (Laid.reflow t) = comment t ∷ []
  pieces_laid (Laid.one_line docs) = pieces_all docs
  pieces_laid (Laid.broken first rest) = pieces_laid_docs first ++ pieces_laid_segments rest

  pub pieces_laid_docs : LaidDocs → List Piece
  pieces_laid_docs LaidDocs.nil = []
  pieces_laid_docs (LaidDocs.cons d ds) = pieces_laid d ++ pieces_laid_docs ds

  pub pieces_laid_segments : LaidSegments → List Piece
  pieces_laid_segments LaidSegments.end = []
  pieces_laid_segments (LaidSegments.segment b ni split rest) =
      gap b ∷ (pieces_laid_docs split ++ pieces_laid_segments rest)

-- The splits of each level hold what its documents do.
unfoldable mutual
  IsSplit : Node → Type 0
  IsSplit (Node.token t) = Unit
  IsSplit (Node.reflow t) = Unit
  IsSplit (Node.level i docs first rest) =
      (pieces_split (first, rest) ≡ pieces_all docs) × AllSplit first × SegmentsSplit rest

  AllSplit : Nodes → Type 0
  AllSplit Nodes.nil = Unit
  AllSplit (Nodes.cons d ds) = IsSplit d × AllSplit ds

  SegmentsSplit : Segments → Type 0
  SegmentsSplit Segments.end = Unit
  SegmentsSplit (Segments.segment b split rest) = AllSplit split × SegmentsSplit rest

mutual
  unfolding split_one split_by_breaks pieces pieces_all pieces_node pieces_nodes pieces_segments

  pieces-split_one :
      (d : Doc) (k : Nodes × Segments) → pieces_split (split_one d k) ≡ pieces d ++ pieces_split k
  pieces-split_one (Doc.token t) k = refl
  pieces-split_one (Doc.reflow t) k = refl
  pieces-split_one (Doc.concat parts) k = pieces-split_by_breaks parts k
  pieces-split_one (Doc.brk b) k = refl
  pieces-split_one (Doc.level i docs) k =
      append_assoc (pieces_all docs) (pieces_nodes k.0) (pieces_segments k.1)

  pieces-split_by_breaks :
      (ds : Docs) (k : Nodes × Segments)
      → pieces_split (split_by_breaks ds k) ≡ pieces_all ds ++ pieces_split k
  pieces-split_by_breaks Docs.nil k = refl
  pieces-split_by_breaks (Docs.cons d ds) k =
      pieces-split_one d (split_by_breaks ds k)
      ∙ ap (λ t. pieces d ++ t) (pieces-split_by_breaks ds k)
      ∙ sym (append_assoc (pieces d) (pieces_all ds) (pieces_split k))

mutual
  unfolding split_one split_by_breaks IsSplit AllSplit SegmentsSplit pieces_nodes pieces_segments

  IsSplit-split_one :
      (d : Doc) (k : Nodes × Segments)
      → AllSplit k.0 × SegmentsSplit k.1
      → AllSplit (split_one d k).0 × SegmentsSplit (split_one d k).1
  IsSplit-split_one (Doc.token t) k (h, hs) = ((tt, h), hs)
  IsSplit-split_one (Doc.reflow t) k (h, hs) = ((tt, h), hs)
  IsSplit-split_one (Doc.concat parts) k h = IsSplit-split_by_breaks parts k h
  IsSplit-split_one (Doc.brk b) k h = (tt, h)
  IsSplit-split_one (Doc.level i docs) k (h, hs) = (
    (
      (
        pieces-split_by_breaks docs (Nodes.nil, Segments.end) ∙ append-nil (pieces_all docs),
        (IsSplit-split_by_breaks docs (Nodes.nil, Segments.end) (tt, tt)).0,
        (IsSplit-split_by_breaks docs (Nodes.nil, Segments.end) (tt, tt)).1,
      ),
      h,
    ),
    hs,
  )

  IsSplit-split_by_breaks :
      (ds : Docs) (k : Nodes × Segments)
      → AllSplit k.0 × SegmentsSplit k.1
      → AllSplit (split_by_breaks ds k).0 × SegmentsSplit (split_by_breaks ds k).1
  IsSplit-split_by_breaks Docs.nil k h = h
  IsSplit-split_by_breaks (Docs.cons d ds) k h =
      IsSplit-split_one d (split_by_breaks ds k) (IsSplit-split_by_breaks ds k h)

level_splits :
    (ds : Docs)
    → let k = split_by_breaks ds (Nodes.nil, Segments.end) in
      (pieces_split k ≡ pieces_all ds) × AllSplit k.0 × SegmentsSplit k.1
unfolding AllSplit SegmentsSplit pieces_nodes pieces_segments
level_splits ds = (
  pieces-split_by_breaks ds (Nodes.nil, Segments.end) ∙ append-nil (pieces_all ds),
  (IsSplit-split_by_breaks ds (Nodes.nil, Segments.end) (tt, tt)).0,
  (IsSplit-split_by_breaks ds (Nodes.nil, Segments.end) (tt, tt)).1,
)

mutual
  unfolding compute_node pieces_laid pieces_node IsSplit compute_nodes pieces_laid_docs pieces_nodes
      AllSplit compute_segments pieces_laid_segments pieces_segments SegmentsSplit

  pieces-compute_node :
      (max_w mult : ℕ) (d : Node) (st : State)
      → IsSplit d
      → pieces_laid (compute_node max_w mult d st).0 ≡ pieces_node d
  pieces-compute_node max_w mult (Node.token t) st h = refl
  pieces-compute_node max_w mult (Node.reflow t) st h = refl
  pieces-compute_node max_w mult (Node.level i docs first rest) st (e, h, hs) =
      if_cases (λ (r : Laid × State). pieces_laid r.0 ≡ pieces_all docs)
        (leb (st.column + sum_width 0 docs) max_w) (λ _. refl)
        (λ _.
          ap₂ (λ a b. a ++ b) (pieces-compute_nodes max_w mult first _ h)
            (pieces-compute_segments max_w mult rest _ hs)
          ∙ e)

  pieces-compute_nodes :
      (max_w mult : ℕ) (ds : Nodes) (st : State)
      → AllSplit ds
      → pieces_laid_docs (compute_nodes max_w mult ds st).0 ≡ pieces_nodes ds
  pieces-compute_nodes max_w mult Nodes.nil st h = refl
  pieces-compute_nodes max_w mult (Nodes.cons d ds) st (h, hs) =
      ap₂ (λ a b. a ++ b) (pieces-compute_node max_w mult d st h)
        (pieces-compute_nodes max_w mult ds _ hs)

  pieces-compute_segments :
      (max_w mult : ℕ) (rest : Segments) (st : State)
      → SegmentsSplit rest
      → pieces_laid_segments (compute_segments max_w mult rest st).0 ≡ pieces_segments rest
  pieces-compute_segments max_w mult Segments.end st h = refl
  pieces-compute_segments max_w mult (Segments.segment b split rest) st (h, hs) =
      ap (λ t. gap b ∷ t)
        (ap₂ (λ a b. a ++ b) (pieces-compute_nodes max_w mult split _ h)
          (pieces-compute_segments max_w mult rest _ hs))

pieces-root_docs : (d : Doc) → pieces_all (root_docs d) ≡ pieces d
unfolding root_docs pieces pieces_all
pieces-root_docs (Doc.token t) = refl
pieces-root_docs (Doc.reflow t) = refl
pieces-root_docs (Doc.concat parts) = append-nil (pieces_all parts)
pieces-root_docs (Doc.brk b) = refl
pieces-root_docs (Doc.level i docs) = refl

-- The layout keeps the leaves of a document, its texts, comments and breaks, and their order.
pub pieces-layout : (d : Doc) (o : PrintOptions) → pieces_laid (layout d o) ≡ pieces d
unfolding layout root IsSplit pieces_node
pieces-layout d o =
    pieces-compute_node o.width o.indent_mult (root d) start_state (level_splits (root_docs d))
    ∙ pieces-root_docs d
