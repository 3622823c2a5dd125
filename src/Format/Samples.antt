-- ===== src/Format/Samples.antt =====
-- Tests and examples of the layout engine.
use cappu.Base.{
  ◌≡◌, refl, none, some, [], Text, codes, pos, arith, All, false, ends_with, byte_length,
}
use cappu.Format.Doc.{
  FillMode, Indent, Break, separate, join, group, indented, line, hardline, no_indent, Doc, Docs,
  width, sum_width, text_width, break_width, has_newline, split_one, split_width, node_width,
}
use cappu.Format.Doc.Layout.{
  compute_node, eval_indent, was_break_taken, record_broken, decide, should_break, enter_level,
  after_split, advance, broken_indent, is_unified,
}
use cappu.Format.Doc.Output.{
  PrintOptions, print_doc, layout, root, root_docs, root_indent, push, write_doc, write_break,
  joined, trim_trailing_space, trim_spaces, only_spaces, after_newline,
}
use cappu.Format.Doc.Pieces.{pieces}
use cappu.Format.Doc.Printing.{Prints, print_doc-Prints}
use cappu.Format.Doc.Tidy.{PieceJoins, Tidy, print_doc-Tidy}
use cappu.Format.Doc.Breaks.{Obeyed, layout-Obeyed}

abbrev independent_break : Break
independent_break = record {
  fill_mode = FillMode.independent;
  flat_text = [];
  plus_indent = no_indent;
  opt_tag = some 0;
}

abbrev unified_break : Break
unified_break = record {
  fill_mode = FillMode.unified;
  flat_text = codes " ";
  plus_indent = Indent.cond 0 no_indent (Indent.const (pos 2));
  opt_tag = none;
}

abbrev call_docs : Docs
call_docs = Docs.cons (Doc.token (codes "call(")) (
    Docs.cons (Doc.brk independent_break) (
      Docs.cons (Doc.token (codes "aaaa,"))
        (Docs.cons (Doc.brk unified_break) (Docs.cons (Doc.token (codes "bb)")) Docs.nil))))

-- A call whose second argument is indented by two more if the first one is not on a new line.
abbrev call : Doc
call = Doc.level (Indent.const (pos 4)) call_docs

abbrev wide : PrintOptions
wide = record { width = 100; indent_mult = 1; comment_rewriter = none }

abbrev narrow : PrintOptions
narrow = record { width = 10; indent_mult = 1; comment_rewriter = none }

test_narrow : print_doc call narrow ≡ codes "call(aaaa,\n      bb)"
unfolding print_doc layout compute_node root root_docs root_indent split_one width sum_width
    eval_indent was_break_taken record_broken decide should_break enter_level after_split advance
    broken_indent is_unified push write_doc write_break joined trim_trailing_space trim_spaces
    only_spaces after_newline text_width has_newline break_width byte_length split_width node_width
test_narrow = refl

call_joins : All (PieceJoins none) (pieces call)
unfolding pieces Tidy
call_joins = ground arith

-- A forced break puts each statement on a line of its own, however short they are.
test_statements :
    print_doc
      (group (
        indented (
          join hardline (
            Docs.cons (Doc.token (codes "a;")) (
              Docs.cons
                (Doc.concat (Docs.cons (Doc.token (codes "b")) (Docs.cons line Docs.nil)))
                Docs.nil)))))
      wide
    ≡ codes "a;\n  b\n"
unfolding print_doc layout compute_node root root_docs root_indent split_one width sum_width
    eval_indent was_break_taken record_broken decide should_break enter_level after_split advance
    broken_indent is_unified push write_doc write_break joined trim_trailing_space trim_spaces
    only_spaces after_newline text_width has_newline break_width byte_length split_width node_width
    separate
test_statements = refl

print_doc-Prints_example :
    (t : Text) × Prints none (pieces call) [] t × (print_doc call narrow ≡ trim_spaces t)
print_doc-Prints_example = print_doc-Prints call narrow

print_doc-Tidy_example :
    Tidy (print_doc call narrow) × (ends_with (print_doc call narrow) 32 ≡ false)
print_doc-Tidy_example = print_doc-Tidy call narrow call_joins

layout-Obeyed_example : Obeyed (layout call narrow)
layout-Obeyed_example = layout-Obeyed call narrow (omega arith)
