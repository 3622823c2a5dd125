-- ===== src/Compiler/ByteBuffer.antt =====
-- The buffer that class files are written to (togo/internal/compiler/bytebuffer.go). A Go `int` is
-- its bit pattern, and a string the list of its code points.
pub mod Utf8
pub mod Patch
pub use cappu.Base.{u1_bytes, u2_bytes, u4_bytes}
use cappu.Base.{
  ℕ, zero, suc, ◌+◌, ◌-◌, ◌*◌, ◌/◌, ◌%◌, ◌<◌, ◌++◌, Bool, true, false, ◌&&◌, ◌||◌, Option, none,
  some, List, [], ◌∷◌, if◌then◌else◌, ltb, leb, Text, length, set,
}

-- A step after one that may panic.
infixl 5 ◌>>=◌
abbrev ◌>>=◌ : {A B : Type 0} → Option A → (A → Option B) → Option B
none >>= f = none
some a >>= f = f a

pub record ByteBuffer : Type 0 where
  pub bytes : List ℕ

abbrev pub empty_buffer : ByteBuffer
empty_buffer = record { bytes = [] }

unfoldable pub put_u1 : ℕ → ByteBuffer → ByteBuffer
put_u1 v b = record b { bytes = b.bytes ++ u1_bytes v }

unfoldable pub put_u2 : ℕ → ByteBuffer → ByteBuffer
put_u2 v b = record b { bytes = b.bytes ++ u2_bytes v }

unfoldable pub put_u4 : ℕ → ByteBuffer → ByteBuffer
put_u4 v b = record b { bytes = b.bytes ++ u4_bytes v }

-- utf16.Encode: a surrogate pair above 0xffff, and U+FFFD for what is not a scalar value
unfoldable pub utf16_encode : Text → List ℕ
utf16_encode [] = []
utf16_encode (r ∷ s) =
    let rest = utf16_encode s in
    if ltb r 0xd800 || (leb 0xe000 r && ltb r 0x10000)
    then r ∷ rest
    else if leb 0x10000 r && leb r 0x10ffff
    then (0xd800 + (r - 0x10000) / 1024) ∷ (0xdc00 + (r - 0x10000) % 1024) ∷ rest
    else 0xfffd ∷ rest

-- The bytes of one UTF-16 code unit.
unfoldable pub unit_bytes : ℕ → List ℕ
unit_bytes c =
    if leb 0x01 c && leb c 0x7f
    then c % 256 ∷ []
    else if leb c 0x7ff
    then (0xc0 + c / 64) ∷ (0x80 + c % 64) ∷ []
    else (0xe0 + c / 4096) ∷ (0x80 + c / 64 % 64) ∷ (0x80 + c % 64) ∷ []

unfoldable pub units_bytes : List ℕ → List ℕ
units_bytes [] = []
units_bytes (c ∷ units) = unit_bytes c ++ units_bytes units

unfoldable pub put_utf8 : Text → ByteBuffer → ByteBuffer
put_utf8 s b = record b { bytes = b.bytes ++ units_bytes (utf16_encode s) }

unfoldable pub units_length : List ℕ → ℕ
units_length [] = 0
units_length (c ∷ units) =
    let rest = units_length units in
    if leb 0x01 c && leb c 0x7f then 1 + rest else if leb c 0x7ff then 2 + rest else 3 + rest

unfoldable pub utf8_length : Text → ℕ
utf8_length s = units_length (utf16_encode s)

unfoldable pub append_buf : ByteBuffer → ByteBuffer → ByteBuffer
append_buf other b = record b { bytes = b.bytes ++ other.bytes }

-- b.bytes[pos] = value, which panics out of range
unfoldable pub put_at : ℕ → ℕ → ByteBuffer → Option ByteBuffer
put_at pos value b =
    if ltb pos (length b.bytes) then some (record b { bytes = set b.bytes pos value }) else none

unfoldable pub patch_u2 : ℕ → ℕ → ByteBuffer → Option ByteBuffer
patch_u2 pos value b = do b₁ ← put_at pos (value / 256 % 256) b; put_at (pos + 1) (value % 256) b₁

unfoldable pub patch_u4 : ℕ → ℕ → ByteBuffer → Option ByteBuffer
patch_u4 pos value b = do
  b₁ ← put_at pos (value / 16777216 % 256) b
  b₂ ← put_at (pos + 1) (value / 65536 % 256) b₁
  b₃ ← put_at (pos + 2) (value / 256 % 256) b₂
  put_at (pos + 3) (value % 256) b₃
