-- ===== src/Compiler/Keywords/Spelling.antt =====
-- The scanner (togo/internal/compiler/scanner.go) reads back the spellings of
-- togo/internal/compiler/keywords.go.
use cappu.Base.{ℕ, Option, none, some, Text}
use cappu.Compiler.Kinds.{SyntaxKind}
use cappu.Compiler.Scanner.{new_scanner}
use cappu.Compiler.Scanner.Tokens.{scan, rescan_greater_token}

-- The kind of the first token of a text, after the merge of '>', and where it ends.
unfoldable pub first_token : Text → Option (SyntaxKind × ℕ)
unfolding rescan_greater_token scan
first_token t = elim (scan (new_scanner t)) [
  | some s ↦ some ((rescan_greater_token s).token, (rescan_greater_token s).pos)
  | none ↦ none
]
