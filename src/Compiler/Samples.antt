-- ===== src/Compiler/Samples.antt =====
-- Tests and examples of the class-file parts.
use cappu.Base.{
  ℕ, ◌<◌, ◌≤◌, ◌++◌, none, some, ok, err, List, [], ◌∷◌, Text, codes, All, length, drop, arith, ◌≡◌,
  refl, inl, inr,
}
use cappu.Compiler.ByteBuffer.{
  ByteBuffer, empty_buffer, put_u2, put_u4, put_utf8, append_buf, patch_u2, patch_u4, utf8_length,
  utf16_encode, unit_bytes, units_bytes, units_length,
}
use cappu.Compiler.ByteBuffer.Utf8.{IsScalar, decode_modified_utf8-put_utf8, put_utf8-length}
use cappu.Compiler.ByteBuffer.Patch.{patch-reserved}
use cappu.Compiler.ClassFile.Entries.{IsWritable}
use cappu.Compiler.ClassFile.{decode_modified_utf8, decode_units, encode_utf16}
use cappu.Compiler.ClassFile.Cursor.{truncated}
use cappu.Compiler.ClassFile.Parses.{Parses}
use cappu.Compiler.ClassFile.Constants.{
  Constant, read_constant_pool, pool_at, pool_utf8, pool_class_name,
}
use cappu.Compiler.ClassFile.Pool.{takes_two, slots, pool_bytes, read_constant_pool_lem}
use cappu.Compiler.ClassFile.Tables.{read_class_file}
use cappu.Compiler.ClassFile.Layout.{ClassInfo, class_bytes, class_of, IsClassInfo}
use cappu.Compiler.ClassFile.Constants.{PoolSlots}
use cappu.Compiler.ConstantPool.{class_info, new_constant_pool, write_into}
use cappu.Compiler.ConstantPool.Meaning.{At}
use cappu.Compiler.ConstantPool.Invariant.{Yields, new_constant_pool-IsPool}
use cappu.Compiler.ConstantPool.Names.{IsName, class_info-read}
use cappu.Base.{Bool, true, false}
use cappu.Compiler.ClassFile.Constants.{MemberRef}
use cappu.Compiler.ConstantPool.{methodref, interface_methodref}
use cappu.Compiler.ConstantPool.ReadBack.{IsMember, ReadsMember, methodref-read}
use cappu.Base.{text_eq}
use cappu.Compiler.ClassFile.Tables.{Attribute, Member, ClassFile}
use cappu.Compiler.ClassFile.Attributes.{find_attribute, read_code, read_bootstrap_methods}
use cappu.Compiler.ClassFile.Code.{
  CodeInfo, code_bytes, code_in, IsCodeInfo, HasCode, read_code-code_bytes,
}
use cappu.Compiler.ClassFile.Bootstraps.{read_bootstrap_methods-body}
use cappu.Compiler.ConstantPool.{ConstantPool, bootstrap_methods_body}
use cappu.Compiler.LineMap.{compute_line_starts, starts_from, line_index_of, search_line}
use cappu.Compiler.LineMap.Search.{IsLineOf, line_index_of_total}
use cappu.Compiler.ClassFile.RoundTrip.{read_class_file-class_bytes}

-- "A", NUL, e acute, and a character behind 0xffff.
abbrev sample_text : Text
sample_text = 65 ∷ 0 ∷ 0xe9 ∷ 0x1f600 ∷ []

abbrev sample_buffer : ByteBuffer
sample_buffer = record { bytes = 1 ∷ 2 ∷ [] }

test_put_utf8 :
    (put_utf8 sample_text empty_buffer).bytes
    ≡ 65 ∷ 0xc0 ∷ 0x80 ∷ 0xc3 ∷ 0xa9 ∷ 0xed ∷ 0xa0 ∷ 0xbd ∷ 0xed ∷ 0xb8 ∷ 0x80 ∷ []
unfolding put_utf8 units_bytes unit_bytes utf16_encode
test_put_utf8 = refl

test_cut_off : decode_modified_utf8 (65 ∷ 0xe2 ∷ 0x82 ∷ []) ≡ codes "A"
unfolding decode_modified_utf8 decode_units encode_utf16
test_cut_off = refl

sample_text-IsScalar : All IsScalar sample_text
sample_text-IsScalar = (
  inl (omega arith),
  (inl (omega arith), (inl (omega arith), (inr (omega arith, omega arith), tt))),
)

decode_modified_utf8-put_utf8_example :
    decode_modified_utf8 (drop 2 (put_utf8 sample_text sample_buffer).bytes) ≡ sample_text
decode_modified_utf8-put_utf8_example =
    decode_modified_utf8-put_utf8 sample_text sample_buffer sample_text-IsScalar

put_utf8-length_example :
    (bs : List ℕ) × ((put_utf8 sample_text sample_buffer).bytes ≡ 1 ∷ 2 ∷ bs)
    × (length bs ≡ utf8_length sample_text)
    × All (λ b. (1 ≤ b) × (b < 240)) bs
put_utf8-length_example = put_utf8-length sample_text sample_buffer

patch-reserved_example :
    (patch_u2 2 513 (append_buf sample_buffer (put_u2 0 sample_buffer))
      ≡ some (append_buf sample_buffer (put_u2 513 sample_buffer)))
    × (patch_u4 2 513 (append_buf sample_buffer (put_u4 0 sample_buffer))
        ≡ some (append_buf sample_buffer (put_u4 513 sample_buffer)))
patch-reserved_example = patch-reserved 513 0 sample_buffer sample_buffer

-- The pool of a class A with a long constant.
abbrev sample_constants : List Constant
sample_constants = Constant.utf8 (codes "A") ∷ Constant.long 7 ∷ Constant.class 1 ∷ []

sample_constants-IsWritable : All IsWritable sample_constants
unfolding IsWritable utf8_length units_length utf16_encode
sample_constants-IsWritable =
    (((inl (omega arith), tt), omega arith), (omega arith, (omega arith, tt)))

length-sample_constants : length (slots sample_constants) < 65535
unfolding slots takes_two
length-sample_constants = omega arith

read_constant_pool_lem_example :
    Parses read_constant_pool (pool_bytes sample_constants) (none ∷ slots sample_constants)
read_constant_pool_lem_example =
    read_constant_pool_lem sample_constants sample_constants-IsWritable length-sample_constants

abbrev sample_class : ClassInfo
sample_class = record {
  minor_version = 0;
  major_version = 65;
  constants = sample_constants;
  access_flags = 33;
  this_index = 4;
  super_index = 0;
  interfaces = 4 ∷ [];
  fields = [];
  methods = record { access_flags = 1; name_index = 1; descriptor_index = 1; attributes = [] } ∷ [];
  attributes = record { name_index = 1; info = 9 ∷ 8 ∷ 7 ∷ [] } ∷ [];
}

sample_class-IsClassInfo : IsClassInfo sample_class
unfolding slots takes_two pool_class_name pool_utf8 pool_at
sample_class-IsClassInfo = record {
  minor_in_range = omega arith;
  major_in_range = omega arith;
  constants_writable = sample_constants-IsWritable;
  slots_fit = omega arith;
  flags_in_range = omega arith;
  this_in_range = omega arith;
  this_named = refl;
  super_in_range = omega arith;
  interfaces_in_range = (omega arith, (omega arith, tt));
  fields_in_range = (omega arith, tt);
  methods_in_range =
      (omega arith, ((omega arith, omega arith, omega arith, (omega arith, tt)), tt));
  attributes_in_range = (omega arith, ((omega arith, omega arith), tt));
}

read_class_file-class_bytes_example :
    ((rest : List ℕ)
      → read_class_file (class_bytes sample_class ++ rest) ≡ ok (class_of sample_class))
    × ((short more : List ℕ)
        → short ++ more ≡ class_bytes sample_class
        → length short < length (class_bytes sample_class)
        → read_class_file short ≡ err truncated)
read_class_file-class_bytes_example =
    read_class_file-class_bytes sample_class sample_class-IsClassInfo

codes-IsName : IsName (codes "A")
unfolding IsWritable utf8_length units_length utf16_encode
codes-IsName = ((inl (omega arith), tt), omega arith)

class_info-read_example :
    Yields
      (λ i cp'.
        (pool : PoolSlots) × Parses read_constant_pool (write_into cp' empty_buffer).bytes pool
        × (pool_class_name pool i ≡ codes "A")
        × ((j : ℕ) (k : Constant) → At [] j k → pool_at pool j ≡ some k))
      (class_info (codes "A") new_constant_pool)
class_info-read_example = class_info-read (codes "A") new_constant_pool-IsPool codes-IsName

-- Method a of class A, with a descriptor.
A_a-IsMember : IsMember (codes "A") (codes "a") (codes "()")
unfolding IsWritable utf8_length units_length utf16_encode
A_a-IsMember = record {
  class_fits = ((inl (omega arith), tt), omega arith);
  name_fits = ((inl (omega arith), tt), omega arith);
  desc_fits = ((inl (omega arith), (inl (omega arith), tt)), omega arith);
  class_plain = (refl, tt);
  name_plain = (refl, tt);
  desc_plain = (refl, (refl, tt));
}

abbrev sample_ref : Bool → MemberRef
sample_ref interface = record {
  owner = codes "A";
  name = codes "a";
  descriptor = codes "()";
  interface = interface;
}

methodref-read_example :
    Yields
      (ReadsMember [] (sample_ref false))
      (methodref (codes "A") (codes "a") (codes "()") new_constant_pool)
    × Yields
        (ReadsMember [] (sample_ref true))
        (interface_methodref (codes "A") (codes "a") (codes "()") new_constant_pool)
methodref-read_example =
    methodref-read (codes "A") (codes "a") (codes "()") new_constant_pool-IsPool A_a-IsMember

abbrev sample_code : CodeInfo
sample_code = record {
  max_stack = 2;
  max_locals = 1;
  code = 42 ∷ 177 ∷ [];
  exceptions = record { start_pc = 0; end_pc = 1; handler_pc = 1; catch_index = 0 } ∷ [];
  attributes = [];
}

sample_code-IsCodeInfo : IsCodeInfo sample_code
sample_code-IsCodeInfo = record {
  max_stack_in_range = omega arith;
  max_locals_in_range = omega arith;
  code_in_range = omega arith;
  exceptions_in_range = (omega arith, ((omega arith, omega arith, omega arith, omega arith), tt));
  attributes_in_range = (omega arith, tt);
}

abbrev sample_method : Member
sample_method = record {
  flags = 1;
  name = codes "a";
  descriptor = codes "()";
  attributes = record { name = codes "Code"; bytes = code_bytes sample_code } ∷ [];
}

read_code-code_bytes_example :
    ((rest : List ℕ)
      → HasCode sample_method (code_bytes sample_code ++ rest)
      → read_code sample_method [] ≡ ok (some (code_in [] sample_code)))
    × ((short more : List ℕ)
        → short ++ more ≡ code_bytes sample_code
        → length short < length (code_bytes sample_code)
        → HasCode sample_method short
        → read_code sample_method [] ≡ err truncated)
read_code-code_bytes_example =
    read_code-code_bytes [] sample_code sample_method sample_code-IsCodeInfo

abbrev sample_pool : ConstantPool
sample_pool = record new_constant_pool {
  bootstraps = record { handle = 7; args = 8 ∷ 9 ∷ [] } ∷ [];
}

abbrev sample_attribute : Attribute
sample_attribute = record {
  name = codes "BootstrapMethods";
  bytes = (bootstrap_methods_body sample_pool).bytes;
}

abbrev sample_class_file : ClassFile
sample_class_file = record {
  minor = 0;
  major = 65;
  pool = [];
  flags = 33;
  this_class = codes "A";
  super_class = [];
  interfaces = [];
  fields = [];
  methods = sample_method ∷ [];
  attributes = sample_attribute ∷ [];
}

sample_attribute-found :
    find_attribute sample_class_file.attributes (codes "BootstrapMethods") ≡ some sample_attribute
unfolding find_attribute text_eq
sample_attribute-found = refl

read_bootstrap_methods-body_example :
    read_bootstrap_methods sample_class_file
    ≡ record { handle_index = 7; argument_indexes = 8 ∷ 9 ∷ [] } ∷ []
read_bootstrap_methods-body_example =
    read_bootstrap_methods-body sample_pool sample_class_file sample_attribute
      (omega arith, ((omega arith, (omega arith, (omega arith, (omega arith, tt)))), tt))
      sample_attribute-found refl

-- "a\r\nb\nc"
abbrev sample_lines : List ℕ
sample_lines = 97 ∷ 13 ∷ 10 ∷ 98 ∷ 10 ∷ 99 ∷ []

test_lines :
    (compute_line_starts sample_lines ≡ 0 ∷ 3 ∷ 5 ∷ [])
    × (line_index_of (compute_line_starts sample_lines) 4 ≡ some 1)
unfolding compute_line_starts starts_from line_index_of search_line
test_lines = (refl, refl)

line_index_of_total_example :
    (i : ℕ) × (line_index_of (compute_line_starts sample_lines) 4 ≡ some i)
    × IsLineOf (compute_line_starts sample_lines) 4 i
line_index_of_total_example = line_index_of_total sample_lines 4
