-- ===== src/Compiler/ClassFile/Entries.antt =====
-- The layout of the entries of a constant pool (JVMS 4.4), and that reading one is its inverse.
use cappu.Base.{
  ℕ, ◌+◌, ◌*◌, ◌/◌, ◌%◌, ◌<◌, ◌++◌, List, Text, All, length, arith, ◌≡◌, ap, sym, subst, append-nil,
}
use cappu.Compiler.ByteBuffer.{u1_bytes, u2_bytes, u4_bytes, utf16_encode, units_bytes, utf8_length}
use cappu.Compiler.ByteBuffer.Utf8.{IsScalar, decode_modified_utf8-units_bytes, length-units_bytes}
use cappu.Compiler.ClassFile.{decode_modified_utf8}
use cappu.Compiler.ClassFile.Cursor.{Reader, ◌>>=◌, pure, slice}
use cappu.Compiler.ClassFile.Parses.{
  Parses, Parses-bind, Parses-pure, Parses-u1, Parses-u2, Parses-u4, Parses-slice,
}
use cappu.Compiler.ClassFile.Constants.{
  Constant, constant_of, read_constant, entry_of_u4, entry_of_u8, entry_of_index, entry_of_indices,
}

-- The bytes of an entry.
unfoldable pub constant_bytes : Constant → List ℕ
unfolding utf8_length
constant_bytes (Constant.utf8 t) =
    u1_bytes 1 ++ (u2_bytes (utf8_length t) ++ units_bytes (utf16_encode t))
constant_bytes (Constant.int v) = u1_bytes 3 ++ u4_bytes v
constant_bytes (Constant.float v) = u1_bytes 4 ++ u4_bytes v
constant_bytes (Constant.long v) =
    u1_bytes 5 ++ (u4_bytes (v / 4294967296) ++ u4_bytes (v % 4294967296))
constant_bytes (Constant.double v) =
    u1_bytes 6 ++ (u4_bytes (v / 4294967296) ++ u4_bytes (v % 4294967296))
constant_bytes (Constant.class i) = u1_bytes 7 ++ u2_bytes i
constant_bytes (Constant.string i) = u1_bytes 8 ++ u2_bytes i
constant_bytes (Constant.fieldref i j) = u1_bytes 9 ++ (u2_bytes i ++ u2_bytes j)
constant_bytes (Constant.methodref i j) = u1_bytes 10 ++ (u2_bytes i ++ u2_bytes j)
constant_bytes (Constant.interface_methodref i j) = u1_bytes 11 ++ (u2_bytes i ++ u2_bytes j)
constant_bytes (Constant.name_and_type i j) = u1_bytes 12 ++ (u2_bytes i ++ u2_bytes j)
constant_bytes (Constant.method_handle i j) = u1_bytes 15 ++ (u1_bytes i ++ u2_bytes j)
constant_bytes (Constant.method_type i) = u1_bytes 16 ++ u2_bytes i
constant_bytes (Constant.dynamic i j) = u1_bytes 17 ++ (u2_bytes i ++ u2_bytes j)
constant_bytes (Constant.invoke_dynamic i j) = u1_bytes 18 ++ (u2_bytes i ++ u2_bytes j)
constant_bytes (Constant.java_module i) = u1_bytes 19 ++ u2_bytes i
constant_bytes (Constant.java_package i) = u1_bytes 20 ++ u2_bytes i

abbrev IsPair : ℕ → ℕ → Type 0
IsPair i j = (i < 65536) × (j < 65536)

-- The fields are in the ranges that their bytes can hold.
unfoldable pub IsWritable : Constant → Type 0
IsWritable (Constant.utf8 t) = All IsScalar t × (utf8_length t < 65536)
IsWritable (Constant.int v) = v < 4294967296
IsWritable (Constant.float v) = v < 4294967296
IsWritable (Constant.long v) = v < 18446744073709551616
IsWritable (Constant.double v) = v < 18446744073709551616
IsWritable (Constant.class i) = i < 65536
IsWritable (Constant.string i) = i < 65536
IsWritable (Constant.fieldref i j) = IsPair i j
IsWritable (Constant.methodref i j) = IsPair i j
IsWritable (Constant.interface_methodref i j) = IsPair i j
IsWritable (Constant.name_and_type i j) = IsPair i j
IsWritable (Constant.method_handle i j) = (i < 256) × (j < 65536)
IsWritable (Constant.method_type i) = i < 65536
IsWritable (Constant.dynamic i j) = IsPair i j
IsWritable (Constant.invoke_dynamic i j) = IsPair i j
IsWritable (Constant.java_module i) = i < 65536
IsWritable (Constant.java_package i) = i < 65536

-- The last read, whose value is passed to a function.
pub Parses-map {ℓ κ} :
    {A : Type ℓ} {B : Type κ} {r : Reader A} {bs : List ℕ} {a : A} (g : A → B)
    → Parses r bs a
    → Parses (r >>= λ x. pure (g x)) bs (g a)
Parses-map {r} {bs} {a} g h =
    subst (λ cs. Parses (r >>= λ x. pure (g x)) cs (g a)) (append-nil bs)
      (Parses-bind (λ x. pure (g x)) h (Parses-pure (g a)))

Parses-index :
    (make : ℕ → Constant) (i : ℕ) → i < 65536 → Parses (entry_of_index make) (u2_bytes i) (make i)
Parses-index make i lt = Parses-map make (Parses-u2 i lt)

Parses-indices :
    (make : ℕ → ℕ → Constant) (i j : ℕ)
    → IsPair i j
    → Parses (entry_of_indices make) (u2_bytes i ++ u2_bytes j) (make i j)
Parses-indices make i j (hi, hj) =
    Parses-bind _ (Parses-u2 i hi) (Parses-map (make i) (Parses-u2 j hj))

Parses-word :
    (make : ℕ → Constant) (v : ℕ) → v < 4294967296 → Parses (entry_of_u4 make) (u4_bytes v) (make v)
Parses-word make v lt = Parses-map make (Parses-u4 v lt)

Parses-words :
    (make : ℕ → Constant) (v : ℕ)
    → v < 18446744073709551616
    → Parses (entry_of_u8 make) (u4_bytes (v / 4294967296) ++ u4_bytes (v % 4294967296)) (make v)
Parses-words make v lt =
    subst
      (λ w.
        Parses (entry_of_u8 make) (u4_bytes (v / 4294967296) ++ u4_bytes (v % 4294967296)) (make w))
      (omega arith)
      (Parses-bind _ (Parses-u4 (v / 4294967296) (omega arith)) (
        Parses-map (λ lo. make (v / 4294967296 * 4294967296 + lo))
          (Parses-u4 (v % 4294967296) (omega arith))))

tagged :
    (tag : ℕ) {bs : List ℕ} {k : Constant}
    → tag < 256
    → Parses (constant_of tag) bs k
    → Parses read_constant (u1_bytes tag ++ bs) k
unfolding read_constant
tagged tag lt h = Parses-bind constant_of (Parses-u1 tag lt) h

length-utf8 : (t : Text) → utf8_length t ≡ length (units_bytes (utf16_encode t))
unfolding utf8_length
length-utf8 t = sym (length-units_bytes (utf16_encode t))

pub Parses-constant : (k : Constant) → IsWritable k → Parses read_constant (constant_bytes k) k
unfolding constant_bytes IsWritable constant_of
Parses-constant (Constant.utf8 t) (h, lt) = tagged 1 (omega arith) (
    Parses-bind _ (Parses-u2 (utf8_length t) lt) (
      subst
        (Parses (slice (utf8_length t) >>= λ body. pure (Constant.utf8 (decode_modified_utf8 body)))
          (units_bytes (utf16_encode t)))
        (ap Constant.utf8 (decode_modified_utf8-units_bytes t h))
        (Parses-map (λ body. Constant.utf8 (decode_modified_utf8 body))
          (Parses-slice (utf8_length t) (units_bytes (utf16_encode t)) (length-utf8 t)))))
Parses-constant (Constant.int v) lt = tagged 3 (omega arith) (Parses-word Constant.int v lt)
Parses-constant (Constant.float v) lt = tagged 4 (omega arith) (Parses-word Constant.float v lt)
Parses-constant (Constant.long v) lt = tagged 5 (omega arith) (Parses-words Constant.long v lt)
Parses-constant (Constant.double v) lt = tagged 6 (omega arith) (Parses-words Constant.double v lt)
Parses-constant (Constant.class i) lt = tagged 7 (omega arith) (Parses-index Constant.class i lt)
Parses-constant (Constant.string i) lt = tagged 8 (omega arith) (Parses-index Constant.string i lt)
Parses-constant (Constant.fieldref i j) h =
    tagged 9 (omega arith) (Parses-indices Constant.fieldref i j h)
Parses-constant (Constant.methodref i j) h =
    tagged 10 (omega arith) (Parses-indices Constant.methodref i j h)
Parses-constant (Constant.interface_methodref i j) h =
    tagged 11 (omega arith) (Parses-indices Constant.interface_methodref i j h)
Parses-constant (Constant.name_and_type i j) h =
    tagged 12 (omega arith) (Parses-indices Constant.name_and_type i j h)
Parses-constant (Constant.method_handle i j) (hi, hj) =
    tagged 15 (omega arith)
      (Parses-bind _ (Parses-u1 i hi) (Parses-map (Constant.method_handle i) (Parses-u2 j hj)))
Parses-constant (Constant.method_type i) lt =
    tagged 16 (omega arith) (Parses-index Constant.method_type i lt)
Parses-constant (Constant.dynamic i j) h =
    tagged 17 (omega arith) (Parses-indices Constant.dynamic i j h)
Parses-constant (Constant.invoke_dynamic i j) h =
    tagged 18 (omega arith) (Parses-indices Constant.invoke_dynamic i j h)
Parses-constant (Constant.java_module i) lt =
    tagged 19 (omega arith) (Parses-index Constant.java_module i lt)
Parses-constant (Constant.java_package i) lt =
    tagged 20 (omega arith) (Parses-index Constant.java_package i lt)
