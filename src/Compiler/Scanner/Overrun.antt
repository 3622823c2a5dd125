-- ===== src/Compiler/Scanner/Overrun.antt =====
-- Where the scanner (togo/internal/compiler/scanner.go) runs past the end of a text.
use cappu.Base.{ℕ, false, ◌==◌, ◌≡◌}
use cappu.Compiler.Scanner.{Scanner}

-- A character that is neither a quote nor a backslash.
abbrev pub Plain : ℕ → Type 0
Plain c = ((c == 0x22) ≡ false) × ((c == 0x5c) ≡ false)
