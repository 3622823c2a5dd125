-- ===== src/Compiler/Trivia/Agrees.antt =====
-- SkipTrivia (togo/internal/compiler/utilities.go) and the scanner (scanner.go) agree on where a
-- token starts.
use cappu.Base.{ℕ, suc, min, Option, none, some, length, ◌≡◌}
use cappu.Compiler.Scanner.{Scanner}
use cappu.Compiler.Scanner.Tokens.{scan_trivia, scan_from}
use cappu.Compiler.Scanner.Total.{TriviaAdvances}
use cappu.Compiler.Trivia.{trivia_end, skip_trivia_from}

-- The scanner and the loop of SkipTrivia find a piece of trivia alike, where an unclosed comment
-- ends behind the text for the one and at its end for the other.
Alike : ℕ → Option Scanner → Option ℕ → Type 0
Alike n none none = Unit
Alike n (some s) (some q) = s.pos ≡ min q n
Alike n none (some q) = ⊥
Alike n (some s) none = ⊥

-- The loop of Scan gives a token that starts at a position.
abbrev StartsAt : ℕ → Option Scanner → Type 0
StartsAt p r = (s' : Scanner) × (r ≡ some s') × (s'.token_start ≡ p)

-- A token behind a piece of trivia, or right here.
Continues : ℕ → Scanner → Option Scanner → Option ℕ → Type 0
Continues fuel s o q =
    TriviaAdvances (record s { token_start = s.pos }) o
    → Alike (length s.text) o q
    → scan_trivia (record s { token_start = s.pos }) ≡ o
    → trivia_end s.text s.pos ≡ q
    → StartsAt (skip_trivia_from (suc fuel) s.text s.pos) (scan_from (suc fuel) s)
