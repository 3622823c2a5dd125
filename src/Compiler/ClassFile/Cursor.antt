-- ===== src/Compiler/ClassFile/Cursor.antt =====
-- The cursor over the bytes of a class file (togo/internal/compiler/classfile.go).
use cappu.Base.{
  ℕ, ◌+◌, ◌*◌, Result, ok, err, Error, List, if◌then◌else◌, leb, codes, length, get_or, take, drop,
}

pub record Cursor : Type 0 where
  pub b : List ℕ
  pub at : ℕ

-- A function with the results (value, error) that moves the cursor.
abbrev pub Reader {ℓ} : Type ℓ → Type ℓ
Reader A = Cursor → Result (A × Cursor)

infixl 5 ◌>>=◌
abbrev pub ◌>>=◌ {ℓ κ} : {A : Type ℓ} {B : Type κ} → Reader A → (A → Reader B) → Reader B
◌>>=◌ r f c = elim (r c) [ ok (a, c') ↦ f a c' | err e ↦ err e ]

abbrev pub pure {ℓ} : {A : Type ℓ} → A → Reader A
pure a c = ok (a, c)

abbrev pub fail {ℓ} : {A : Type ℓ} → Error → Reader A
fail e c = err e

abbrev pub truncated : Error
truncated = codes "truncated class file"

unfoldable pub require : ℕ → Reader (Unit {0})
require n c = if leb (c.at + n) (length c.b) then ok (tt, c) else err truncated

-- c.b[c.at + i]
abbrev pub byte_at : Cursor → ℕ → ℕ
byte_at c i = get_or (drop c.at c.b) i 0

abbrev pub advance : ℕ → Cursor → Cursor
advance n c = record c { at = c.at + n }

unfoldable pub u1 : Reader ℕ
u1 = require 1 >>= λ _ c. ok (byte_at c 0, advance 1 c)

unfoldable pub u2 : Reader ℕ
u2 = require 2 >>= λ _ c. ok (byte_at c 0 * 256 + byte_at c 1, advance 2 c)

unfoldable pub u4 : Reader ℕ
u4 = require 4 >>= λ _ c.
    ok (byte_at c 0 * 16777216 + byte_at c 1 * 65536 + byte_at c 2 * 256 + byte_at c 3, advance 4 c)

-- Never called with a negative number, so the guard against one is left out.
unfoldable pub slice : ℕ → Reader (List ℕ)
slice n = require n >>= λ _ c. ok (take n (drop c.at c.b), advance n c)
