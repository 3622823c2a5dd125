-- ===== src/Compiler/Keywords.antt =====
-- The words and spellings of tokens (togo/internal/compiler/keywords.go, utilities.go).
pub mod Spelling
use cappu.Base.{
  ℕ, Bool, true, false, ◌&&◌, ◌||◌, Option, none, some, List, [], ◌∷◌, if◌then◌else◌, leb, ◌==◌,
  Text, codes, not, is_empty, lookup,
}
use cappu.Compiler.Kinds.{SyntaxKind, ordinal}

abbrev pub text_to_keyword : List (Text × SyntaxKind)
text_to_keyword =
    (codes "abstract", SyntaxKind.abstract_keyword)
    ∷ (codes "assert", SyntaxKind.assert_keyword)
    ∷ (codes "boolean", SyntaxKind.boolean_keyword)
    ∷ (codes "break", SyntaxKind.break_keyword)
    ∷ (codes "byte", SyntaxKind.byte_keyword)
    ∷ (codes "case", SyntaxKind.case_keyword)
    ∷ (codes "catch", SyntaxKind.catch_keyword)
    ∷ (codes "char", SyntaxKind.char_keyword)
    ∷ (codes "class", SyntaxKind.class_keyword)
    ∷ (codes "const", SyntaxKind.const_keyword)
    ∷ (codes "continue", SyntaxKind.continue_keyword)
    ∷ (codes "default", SyntaxKind.default_keyword)
    ∷ (codes "do", SyntaxKind.do_keyword)
    ∷ (codes "double", SyntaxKind.double_keyword)
    ∷ (codes "else", SyntaxKind.else_keyword)
    ∷ (codes "enum", SyntaxKind.enum_keyword)
    ∷ (codes "extends", SyntaxKind.extends_keyword)
    ∷ (codes "final", SyntaxKind.final_keyword)
    ∷ (codes "finally", SyntaxKind.finally_keyword)
    ∷ (codes "float", SyntaxKind.float_keyword)
    ∷ (codes "for", SyntaxKind.for_keyword)
    ∷ (codes "goto", SyntaxKind.goto_keyword)
    ∷ (codes "if", SyntaxKind.if_keyword)
    ∷ (codes "implements", SyntaxKind.implements_keyword)
    ∷ (codes "import", SyntaxKind.import_keyword)
    ∷ (codes "instanceof", SyntaxKind.instanceof_keyword)
    ∷ (codes "int", SyntaxKind.int_keyword)
    ∷ (codes "interface", SyntaxKind.interface_keyword)
    ∷ (codes "long", SyntaxKind.long_keyword)
    ∷ (codes "native", SyntaxKind.native_keyword)
    ∷ (codes "new", SyntaxKind.new_keyword)
    ∷ (codes "package", SyntaxKind.package_keyword)
    ∷ (codes "private", SyntaxKind.private_keyword)
    ∷ (codes "protected", SyntaxKind.protected_keyword)
    ∷ (codes "public", SyntaxKind.public_keyword)
    ∷ (codes "return", SyntaxKind.return_keyword)
    ∷ (codes "short", SyntaxKind.short_keyword)
    ∷ (codes "static", SyntaxKind.static_keyword)
    ∷ (codes "strictfp", SyntaxKind.strictfp_keyword)
    ∷ (codes "super", SyntaxKind.super_keyword)
    ∷ (codes "switch", SyntaxKind.switch_keyword)
    ∷ (codes "synchronized", SyntaxKind.synchronized_keyword)
    ∷ (codes "this", SyntaxKind.this_keyword)
    ∷ (codes "throw", SyntaxKind.throw_keyword)
    ∷ (codes "throws", SyntaxKind.throws_keyword)
    ∷ (codes "transient", SyntaxKind.transient_keyword)
    ∷ (codes "try", SyntaxKind.try_keyword)
    ∷ (codes "void", SyntaxKind.void_keyword)
    ∷ (codes "volatile", SyntaxKind.volatile_keyword)
    ∷ (codes "while", SyntaxKind.while_keyword)
    ∷ (codes "true", SyntaxKind.true_keyword)
    ∷ (codes "false", SyntaxKind.false_keyword)
    ∷ (codes "null", SyntaxKind.null_keyword)
    ∷ []

abbrev pub punctuation_text : List (SyntaxKind × Text)
punctuation_text =
    (SyntaxKind.open_brace_token, codes "{")
    ∷ (SyntaxKind.close_brace_token, codes "}")
    ∷ (SyntaxKind.open_paren_token, codes "(")
    ∷ (SyntaxKind.close_paren_token, codes ")")
    ∷ (SyntaxKind.open_bracket_token, codes "[")
    ∷ (SyntaxKind.close_bracket_token, codes "]")
    ∷ (SyntaxKind.dot_token, codes ".")
    ∷ (SyntaxKind.dot_dot_dot_token, codes "...")
    ∷ (SyntaxKind.semicolon_token, codes ";")
    ∷ (SyntaxKind.comma_token, codes ",")
    ∷ (SyntaxKind.at_token, codes "@")
    ∷ (SyntaxKind.colon_colon_token, codes "::")
    ∷ (SyntaxKind.arrow_token, codes "->")
    ∷ (SyntaxKind.less_than_token, codes "<")
    ∷ (SyntaxKind.greater_than_token, codes ">")
    ∷ (SyntaxKind.less_than_equals_token, codes "<=")
    ∷ (SyntaxKind.greater_than_equals_token, codes ">=")
    ∷ (SyntaxKind.equals_equals_token, codes "==")
    ∷ (SyntaxKind.exclamation_equals_token, codes "!=")
    ∷ (SyntaxKind.ampersand_ampersand_token, codes "&&")
    ∷ (SyntaxKind.bar_bar_token, codes "||")
    ∷ (SyntaxKind.exclamation_token, codes "!")
    ∷ (SyntaxKind.ampersand_token, codes "&")
    ∷ (SyntaxKind.bar_token, codes "|")
    ∷ (SyntaxKind.caret_token, codes "^")
    ∷ (SyntaxKind.tilde_token, codes "~")
    ∷ (SyntaxKind.less_than_less_than_token, codes "<<")
    ∷ (SyntaxKind.greater_than_greater_than_token, codes ">>")
    ∷ (SyntaxKind.greater_than_greater_than_greater_than_token, codes ">>>")
    ∷ (SyntaxKind.plus_token, codes "+")
    ∷ (SyntaxKind.minus_token, codes "-")
    ∷ (SyntaxKind.asterisk_token, codes "*")
    ∷ (SyntaxKind.slash_token, codes "/")
    ∷ (SyntaxKind.percent_token, codes "%")
    ∷ (SyntaxKind.plus_plus_token, codes "++")
    ∷ (SyntaxKind.minus_minus_token, codes "--")
    ∷ (SyntaxKind.equals_token, codes "=")
    ∷ (SyntaxKind.plus_equals_token, codes "+=")
    ∷ (SyntaxKind.minus_equals_token, codes "-=")
    ∷ (SyntaxKind.asterisk_equals_token, codes "*=")
    ∷ (SyntaxKind.slash_equals_token, codes "/=")
    ∷ (SyntaxKind.percent_equals_token, codes "%=")
    ∷ (SyntaxKind.ampersand_equals_token, codes "&=")
    ∷ (SyntaxKind.bar_equals_token, codes "|=")
    ∷ (SyntaxKind.caret_equals_token, codes "^=")
    ∷ (SyntaxKind.less_than_less_than_equals_token, codes "<<=")
    ∷ (SyntaxKind.greater_than_greater_than_equals_token, codes ">>=")
    ∷ (SyntaxKind.greater_than_greater_than_greater_than_equals_token, codes ">>>=")
    ∷ (SyntaxKind.question_token, codes "?")
    ∷ (SyntaxKind.colon_token, codes ":")
    ∷ []

-- A map from kinds at a key.
unfoldable pub text_of_kind : SyntaxKind → List (SyntaxKind × Text) → Option Text
text_of_kind k [] = none
text_of_kind k ((k₁, t) ∷ rest) = if ordinal k == ordinal k₁ then some t else text_of_kind k rest

-- The keywords by their kinds.
unfoldable pub reversed : List (Text × SyntaxKind) → List (SyntaxKind × Text)
reversed [] = []
reversed ((t, k) ∷ rest) = (k, t) ∷ reversed rest

abbrev pub keyword_text : List (SyntaxKind × Text)
keyword_text = reversed text_to_keyword

-- A missing key gives the empty text.
abbrev or_empty : Option Text → Text
or_empty none = []
or_empty (some t) = t

unfoldable pub token_to_string : SyntaxKind → Text
token_to_string k = elim (text_of_kind k punctuation_text) [
  | some t ↦ t
  | none ↦ or_empty (text_of_kind k keyword_text)
]

-- The letters of names that are no digits, in the simplified view of identifiers.
unfoldable pub is_name_letter : ℕ → Bool
is_name_letter ch =
    ch == 0x5f || ch == 0x24 || (leb 0x41 ch && leb ch 0x5a) || (leb 0x61 ch && leb ch 0x7a)

unfoldable pub all_name_parts : Text → Bool
all_name_parts [] = true
all_name_parts (ch ∷ name) =
    (is_name_letter ch || (leb 0x30 ch && leb ch 0x39)) && all_name_parts name

-- A map has a key.
abbrev has_key : Option SyntaxKind → Bool
has_key none = false
has_key (some k) = true

unfoldable pub is_valid_identifier : Text → Bool
is_valid_identifier [] = false
is_valid_identifier (ch ∷ name) =
    is_name_letter ch && all_name_parts name && not (has_key (lookup (ch ∷ name) text_to_keyword))
