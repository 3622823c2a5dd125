-- ===== src/Compiler/Trivia.antt =====
-- Skipping trivia (togo/internal/compiler/utilities.go); a text is the list of its bytes.
pub mod Agrees
use cappu.Base.{
  ℕ, zero, suc, ◌+◌, ◌-◌, Bool, true, false, not, ◌&&◌, ◌||◌, Option, none, some, List, [], ◌∷◌,
  if◌then◌else◌, ltb, leb, ◌==◌, Text, length, get_elem?,
}
use cappu.Compiler.Scanner.{holds}

-- A test of text[i], false out of the text, where the code reads a zero or asks for the length.
abbrev pub byte_is : Text → ℕ → (ℕ → Bool) → Bool
byte_is text i p = holds p (get_elem? text i)

unfoldable pub is_trivia_space : ℕ → Bool
is_trivia_space ch =
    ch == 0x20 || ch == 0x09 || ch == 0x0b || ch == 0x0c || ch == 0x0a || ch == 0x0d

-- The loop to the end of a line; the fuel of each loop is what is left of the text.
unfoldable pub line_end : ℕ → Text → ℕ → ℕ
line_end zero text pos = pos
line_end (suc fuel) text pos =
    let rest = line_end fuel text (pos + 1) in
    if ltb pos (length text) && not (byte_is text pos (λ ch. ch == 0x0a || ch == 0x0d))
    then rest
    else pos

-- The loop to the end of a comment.
unfoldable pub block_end : ℕ → Text → ℕ → ℕ
block_end zero text pos = pos
block_end (suc fuel) text pos =
    let rest = block_end fuel text (pos + 1) in
    if ltb pos (length text)
      && (not (byte_is text pos (λ ch. ch == 0x2a))
          || not (byte_is text (pos + 1) (λ ch. ch == 0x2f)))
    then rest
    else pos

-- Where the piece of trivia ends that starts here, if one does.
unfoldable pub trivia_end : Text → ℕ → Option ℕ
trivia_end text pos =
    if byte_is text pos is_trivia_space
    then some (pos + 1)
    else if byte_is text pos (λ ch. ch == 0x2f) && byte_is text (pos + 1) (λ ch. ch == 0x2f)
    then some (line_end (length text - (pos + 2)) text (pos + 2))
    else if byte_is text pos (λ ch. ch == 0x2f) && byte_is text (pos + 1) (λ ch. ch == 0x2a)
    then some (block_end (length text - (pos + 2)) text (pos + 2) + 2)
    else none

-- The position, or the end of the text if that is behind it.
unfoldable pub in_text : Text → ℕ → ℕ
in_text text pos = if ltb (length text) pos then length text else pos

unfoldable pub skip_trivia_from : ℕ → Text → ℕ → ℕ
skip_trivia_from zero text pos = in_text text pos
skip_trivia_from (suc fuel) text pos = elim (ltb pos (length text)) [
  | false ↦ in_text text pos
  | true ↦ elim (trivia_end text pos) [
    | none ↦ in_text text pos
    | some next ↦ skip_trivia_from fuel text next
  ]
]

unfoldable pub skip_trivia : Text → ℕ → ℕ
skip_trivia text pos = skip_trivia_from (length text - pos) text pos
