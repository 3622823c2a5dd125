-- ===== src/Compiler/Kinds.antt =====
-- The kinds of tokens and their flags (togo/internal/compiler/kinds.go); the kinds of nodes, which
-- follow, are left out.
use cappu.Base.{ℕ, Bool, false}

pub data SyntaxKind : Type 0 where
  unknown : SyntaxKind
  end_of_file_token : SyntaxKind
  single_line_comment_trivia : SyntaxKind
  multi_line_comment_trivia : SyntaxKind
  new_line_trivia : SyntaxKind
  whitespace_trivia : SyntaxKind
  numeric_literal : SyntaxKind
  character_literal : SyntaxKind
  string_literal : SyntaxKind
  text_block_literal : SyntaxKind
  open_brace_token : SyntaxKind
  close_brace_token : SyntaxKind
  open_paren_token : SyntaxKind
  close_paren_token : SyntaxKind
  open_bracket_token : SyntaxKind
  close_bracket_token : SyntaxKind
  dot_token : SyntaxKind
  dot_dot_dot_token : SyntaxKind
  semicolon_token : SyntaxKind
  comma_token : SyntaxKind
  at_token : SyntaxKind
  colon_colon_token : SyntaxKind
  arrow_token : SyntaxKind
  less_than_token : SyntaxKind
  greater_than_token : SyntaxKind
  less_than_equals_token : SyntaxKind
  greater_than_equals_token : SyntaxKind
  equals_equals_token : SyntaxKind
  exclamation_equals_token : SyntaxKind
  ampersand_ampersand_token : SyntaxKind
  bar_bar_token : SyntaxKind
  exclamation_token : SyntaxKind
  ampersand_token : SyntaxKind
  bar_token : SyntaxKind
  caret_token : SyntaxKind
  tilde_token : SyntaxKind
  less_than_less_than_token : SyntaxKind
  greater_than_greater_than_token : SyntaxKind
  greater_than_greater_than_greater_than_token : SyntaxKind
  plus_token : SyntaxKind
  minus_token : SyntaxKind
  asterisk_token : SyntaxKind
  slash_token : SyntaxKind
  percent_token : SyntaxKind
  plus_plus_token : SyntaxKind
  minus_minus_token : SyntaxKind
  equals_token : SyntaxKind
  plus_equals_token : SyntaxKind
  minus_equals_token : SyntaxKind
  asterisk_equals_token : SyntaxKind
  slash_equals_token : SyntaxKind
  percent_equals_token : SyntaxKind
  ampersand_equals_token : SyntaxKind
  bar_equals_token : SyntaxKind
  caret_equals_token : SyntaxKind
  less_than_less_than_equals_token : SyntaxKind
  greater_than_greater_than_equals_token : SyntaxKind
  greater_than_greater_than_greater_than_equals_token : SyntaxKind
  question_token : SyntaxKind
  colon_token : SyntaxKind
  abstract_keyword : SyntaxKind
  assert_keyword : SyntaxKind
  boolean_keyword : SyntaxKind
  break_keyword : SyntaxKind
  byte_keyword : SyntaxKind
  case_keyword : SyntaxKind
  catch_keyword : SyntaxKind
  char_keyword : SyntaxKind
  class_keyword : SyntaxKind
  const_keyword : SyntaxKind
  continue_keyword : SyntaxKind
  default_keyword : SyntaxKind
  do_keyword : SyntaxKind
  double_keyword : SyntaxKind
  else_keyword : SyntaxKind
  enum_keyword : SyntaxKind
  extends_keyword : SyntaxKind
  final_keyword : SyntaxKind
  finally_keyword : SyntaxKind
  float_keyword : SyntaxKind
  for_keyword : SyntaxKind
  goto_keyword : SyntaxKind
  if_keyword : SyntaxKind
  implements_keyword : SyntaxKind
  import_keyword : SyntaxKind
  instanceof_keyword : SyntaxKind
  int_keyword : SyntaxKind
  interface_keyword : SyntaxKind
  long_keyword : SyntaxKind
  native_keyword : SyntaxKind
  new_keyword : SyntaxKind
  package_keyword : SyntaxKind
  private_keyword : SyntaxKind
  protected_keyword : SyntaxKind
  public_keyword : SyntaxKind
  return_keyword : SyntaxKind
  short_keyword : SyntaxKind
  static_keyword : SyntaxKind
  strictfp_keyword : SyntaxKind
  super_keyword : SyntaxKind
  switch_keyword : SyntaxKind
  synchronized_keyword : SyntaxKind
  this_keyword : SyntaxKind
  throw_keyword : SyntaxKind
  throws_keyword : SyntaxKind
  transient_keyword : SyntaxKind
  try_keyword : SyntaxKind
  void_keyword : SyntaxKind
  volatile_keyword : SyntaxKind
  while_keyword : SyntaxKind
  true_keyword : SyntaxKind
  false_keyword : SyntaxKind
  null_keyword : SyntaxKind
  identifier : SyntaxKind

-- The number of a kind.
unfoldable pub ordinal : SyntaxKind → ℕ
ordinal unknown = 0
ordinal end_of_file_token = 1
ordinal single_line_comment_trivia = 2
ordinal multi_line_comment_trivia = 3
ordinal new_line_trivia = 4
ordinal whitespace_trivia = 5
ordinal numeric_literal = 6
ordinal character_literal = 7
ordinal string_literal = 8
ordinal text_block_literal = 9
ordinal open_brace_token = 10
ordinal close_brace_token = 11
ordinal open_paren_token = 12
ordinal close_paren_token = 13
ordinal open_bracket_token = 14
ordinal close_bracket_token = 15
ordinal dot_token = 16
ordinal dot_dot_dot_token = 17
ordinal semicolon_token = 18
ordinal comma_token = 19
ordinal at_token = 20
ordinal colon_colon_token = 21
ordinal arrow_token = 22
ordinal less_than_token = 23
ordinal greater_than_token = 24
ordinal less_than_equals_token = 25
ordinal greater_than_equals_token = 26
ordinal equals_equals_token = 27
ordinal exclamation_equals_token = 28
ordinal ampersand_ampersand_token = 29
ordinal bar_bar_token = 30
ordinal exclamation_token = 31
ordinal ampersand_token = 32
ordinal bar_token = 33
ordinal caret_token = 34
ordinal tilde_token = 35
ordinal less_than_less_than_token = 36
ordinal greater_than_greater_than_token = 37
ordinal greater_than_greater_than_greater_than_token = 38
ordinal plus_token = 39
ordinal minus_token = 40
ordinal asterisk_token = 41
ordinal slash_token = 42
ordinal percent_token = 43
ordinal plus_plus_token = 44
ordinal minus_minus_token = 45
ordinal equals_token = 46
ordinal plus_equals_token = 47
ordinal minus_equals_token = 48
ordinal asterisk_equals_token = 49
ordinal slash_equals_token = 50
ordinal percent_equals_token = 51
ordinal ampersand_equals_token = 52
ordinal bar_equals_token = 53
ordinal caret_equals_token = 54
ordinal less_than_less_than_equals_token = 55
ordinal greater_than_greater_than_equals_token = 56
ordinal greater_than_greater_than_greater_than_equals_token = 57
ordinal question_token = 58
ordinal colon_token = 59
ordinal abstract_keyword = 60
ordinal assert_keyword = 61
ordinal boolean_keyword = 62
ordinal break_keyword = 63
ordinal byte_keyword = 64
ordinal case_keyword = 65
ordinal catch_keyword = 66
ordinal char_keyword = 67
ordinal class_keyword = 68
ordinal const_keyword = 69
ordinal continue_keyword = 70
ordinal default_keyword = 71
ordinal do_keyword = 72
ordinal double_keyword = 73
ordinal else_keyword = 74
ordinal enum_keyword = 75
ordinal extends_keyword = 76
ordinal final_keyword = 77
ordinal finally_keyword = 78
ordinal float_keyword = 79
ordinal for_keyword = 80
ordinal goto_keyword = 81
ordinal if_keyword = 82
ordinal implements_keyword = 83
ordinal import_keyword = 84
ordinal instanceof_keyword = 85
ordinal int_keyword = 86
ordinal interface_keyword = 87
ordinal long_keyword = 88
ordinal native_keyword = 89
ordinal new_keyword = 90
ordinal package_keyword = 91
ordinal private_keyword = 92
ordinal protected_keyword = 93
ordinal public_keyword = 94
ordinal return_keyword = 95
ordinal short_keyword = 96
ordinal static_keyword = 97
ordinal strictfp_keyword = 98
ordinal super_keyword = 99
ordinal switch_keyword = 100
ordinal synchronized_keyword = 101
ordinal this_keyword = 102
ordinal throw_keyword = 103
ordinal throws_keyword = 104
ordinal transient_keyword = 105
ordinal try_keyword = 106
ordinal void_keyword = 107
ordinal volatile_keyword = 108
ordinal while_keyword = 109
ordinal true_keyword = 110
ordinal false_keyword = 111
ordinal null_keyword = 112
ordinal identifier = 113

-- The bits of the flags.
pub record TokenFlags : Type 0 where
  pub preceding_line_break : Bool
  pub unterminated : Bool
  pub hex_specifier : Bool
  pub binary_specifier : Bool
  pub octal_specifier : Bool
  pub contains_underscore : Bool
  pub long_suffix : Bool
  pub float_suffix : Bool
  pub double_suffix : Bool

abbrev pub no_flags : TokenFlags
no_flags = record {
  preceding_line_break = false;
  unterminated = false;
  hex_specifier = false;
  binary_specifier = false;
  octal_specifier = false;
  contains_underscore = false;
  long_suffix = false;
  float_suffix = false;
  double_suffix = false;
}
