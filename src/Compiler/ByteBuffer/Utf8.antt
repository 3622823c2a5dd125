-- ===== src/Compiler/ByteBuffer/Utf8.antt =====
-- Modified UTF-8: its length and its round trip.
use cappu.Base.{
  ℕ, ◌+◌, ◌-◌, ◌*◌, ◌/◌, ◌%◌, ◌<◌, ◌≤◌, ◌++◌, List, [], ◌∷◌, Text, length, length-append, drop,
  drop-append_self, All, All-append, ◌≡◌, refl, ap, ◌∙◌, ◌⊎◌, arith,
}
use cappu.Compiler.ByteBuffer.{
  ByteBuffer, utf16_encode, unit_bytes, units_bytes, units_length, utf8_length, put_utf8,
}
use cappu.Compiler.ClassFile.{decode_units, encode_utf16, decode_modified_utf8}

decode_units-one : (a : ℕ) (bs : List ℕ) → a < 128 → decode_units (a ∷ bs) ≡ a ∷ decode_units bs
unfolding decode_units
decode_units-one a [] lt = ground arith
decode_units-one a (b ∷ []) lt = ground arith
decode_units-one a (b ∷ c ∷ bs) lt = ground arith

decode_units-two :
    (a b : ℕ) (bs : List ℕ)
    → 0xc0 ≤ a
    → a < 0xe0
    → decode_units (a ∷ b ∷ bs) ≡ (a % 32 * 64 + b % 64) ∷ decode_units bs
unfolding decode_units
decode_units-two a b [] le lt = ground arith
decode_units-two a b (c ∷ bs) le lt = ground arith

decode_units-three :
    (a b c : ℕ) (bs : List ℕ)
    → 0xe0 ≤ a
    → a < 0xf0
    → decode_units (a ∷ b ∷ c ∷ bs) ≡ (a % 16 * 4096 + b % 64 * 64 + c % 64) ∷ decode_units bs
unfolding decode_units
decode_units-three a b c bs le lt = ground arith

decode_units-unit_bytes :
    (c : ℕ) (bs : List ℕ) → c < 65536 → decode_units (unit_bytes c ++ bs) ≡ c ∷ decode_units bs
unfolding unit_bytes
decode_units-unit_bytes c bs lt = ground (
  arith,
  decode_units-one (c % 256) bs,
  decode_units-two (0xc0 + c / 64) (0x80 + c % 64) bs,
  decode_units-three (0xe0 + c / 4096) (0x80 + c / 64 % 64) (0x80 + c % 64) bs,
)

decode_units-units_bytes :
    (units : List ℕ) → All (λ c. c < 65536) units → decode_units (units_bytes units) ≡ units
unfolding units_bytes decode_units
decode_units-units_bytes [] h = refl
decode_units-units_bytes (c ∷ units) (lt, h) =
    decode_units-unit_bytes c (units_bytes units) lt
    ∙ ap (λ us. c ∷ us) (decode_units-units_bytes units h)

-- The code points of characters.
abbrev pub IsScalar : ℕ → Type 0
IsScalar r = (r < 0xd800) ⊎ ((0xe000 ≤ r) × (r ≤ 0x10ffff))

utf16_encode-units : (s : Text) → All (λ c. c < 65536) (utf16_encode s)
unfolding utf16_encode
utf16_encode-units [] = tt
utf16_encode-units (r ∷ s) = ground (arith, utf16_encode-units s)

encode_utf16-one :
    (u : ℕ) (units : List ℕ)
    → (u < 0xd800) ⊎ (0xe000 ≤ u)
    → encode_utf16 (u ∷ units) ≡ u ∷ encode_utf16 units
unfolding encode_utf16
encode_utf16-one u [] h = refl
encode_utf16-one u (v ∷ units) h = ground arith

encode_utf16-pair :
    (a b : ℕ) (units : List ℕ)
    → a < 1024
    → b < 1024
    → encode_utf16 ((0xd800 + a) ∷ (0xdc00 + b) ∷ units)
      ≡ (a * 1024 + b + 0x10000) ∷ encode_utf16 units
unfolding encode_utf16
encode_utf16-pair a b units ha hb = ground arith

encode_utf16-utf16_encode : (s : Text) → All IsScalar s → encode_utf16 (utf16_encode s) ≡ s
unfolding utf16_encode encode_utf16
encode_utf16-utf16_encode [] h = refl
encode_utf16-utf16_encode (r ∷ s) (p, h) = ground (
  arith,
  encode_utf16-utf16_encode s h,
  encode_utf16-one r (utf16_encode s),
  encode_utf16-pair ((r - 0x10000) / 1024) ((r - 0x10000) % 1024) (utf16_encode s),
)

pub decode_modified_utf8-units_bytes :
    (s : Text) → All IsScalar s → decode_modified_utf8 (units_bytes (utf16_encode s)) ≡ s
unfolding decode_modified_utf8
decode_modified_utf8-units_bytes s h =
    ap encode_utf16 (decode_units-units_bytes (utf16_encode s) (utf16_encode-units s))
    ∙ encode_utf16-utf16_encode s h

-- Reading back the modified UTF-8 that the buffer is given for a string of characters yields the
-- string.
pub decode_modified_utf8-put_utf8 :
    (s : Text) (b : ByteBuffer)
    → All IsScalar s
    → decode_modified_utf8 (drop (length b.bytes) (put_utf8 s b).bytes) ≡ s
unfolding put_utf8
decode_modified_utf8-put_utf8 s b h =
    ap decode_modified_utf8 (drop-append_self b.bytes _) ∙ decode_modified_utf8-units_bytes s h

pub length-units_bytes : (units : List ℕ) → length (units_bytes units) ≡ units_length units
unfolding units_bytes unit_bytes units_length
length-units_bytes [] = refl
length-units_bytes (c ∷ units) =
    ground (arith, length-units_bytes units, length-append (unit_bytes c) (units_bytes units))

IsTextByte-unit : (c : ℕ) → c < 65536 → All (λ b. (1 ≤ b) × (b < 240)) (unit_bytes c)
unfolding unit_bytes
IsTextByte-unit c lt = ground arith

units_bytes-nonzero :
    (units : List ℕ)
    → All (λ c. c < 65536) units
    → All (λ b. (1 ≤ b) × (b < 240)) (units_bytes units)
unfolding units_bytes
units_bytes-nonzero [] h = tt
units_bytes-nonzero (c ∷ units) (lt, h) =
    All-append _ (unit_bytes c) _ (IsTextByte-unit c lt) (units_bytes-nonzero units h)

-- Writing a string leaves what the buffer holds and appends the announced number of bytes, of
-- which none is 0 or above 239.
pub put_utf8-length :
    (s : Text) (b : ByteBuffer)
    → (bs : List ℕ) × ((put_utf8 s b).bytes ≡ b.bytes ++ bs)
      × (length bs ≡ utf8_length s)
      × All (λ b. (1 ≤ b) × (b < 240)) bs
unfolding put_utf8 utf8_length
put_utf8-length s b = (
  units_bytes (utf16_encode s),
  refl,
  length-units_bytes (utf16_encode s),
  units_bytes-nonzero (utf16_encode s) (utf16_encode-units s),
)
