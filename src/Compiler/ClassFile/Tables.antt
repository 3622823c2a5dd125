-- ===== src/Compiler/ClassFile/Tables.antt =====
-- Attributes, members and the class file itself (togo/internal/compiler/classfile.go). The fields of
-- a class file that reading never sets are left out.
use cappu.Base.{
  ℕ, zero, suc, Result, ok, err, List, [], ◌∷◌, if◌then◌else◌, ◌==◌, Text, codes, is_empty,
}
use cappu.Compiler.ClassFile.Cursor.{Reader, ◌>>=◌, pure, fail, u2, u4, slice}
use cappu.Compiler.ClassFile.Constants.{PoolSlots, read_constant_pool, pool_utf8, pool_class_name}

pub record Attribute : Type 0 where
  pub name : Text
  pub bytes : List ℕ

pub record Member : Type 0 where
  pub flags : ℕ
  pub name : Text
  pub descriptor : Text
  pub attributes : List Attribute

pub record ClassFile : Type 0 where
  pub minor : ℕ
  pub major : ℕ
  pub pool : PoolSlots
  pub flags : ℕ
  pub this_class : Text
  pub super_class : Text
  pub interfaces : List Text
  pub fields : List Member
  pub methods : List Member
  pub attributes : List Attribute

-- A loop that reads `count` elements.
unfoldable pub repeat {ℓ} : {A : Type ℓ} → ℕ → Reader A → Reader (List A)
repeat zero r = pure []
repeat (suc count) r = do x ← r; xs ← repeat count r; pure (x ∷ xs)

unfoldable pub read_attribute : PoolSlots → Reader Attribute
read_attribute pool = do
  name_index ← u2
  size ← u4
  body ← slice size
  pure (record { name = pool_utf8 pool name_index; bytes = body })

unfoldable pub read_attribute_table : PoolSlots → Reader (List Attribute)
read_attribute_table pool = do count ← u2; repeat count (read_attribute pool)

unfoldable pub read_member : PoolSlots → Reader Member
read_member pool = do
  flags ← u2
  name_index ← u2
  desc_index ← u2
  attributes ← read_attribute_table pool
  pure (record {
    flags = flags;
    name = pool_utf8 pool name_index;
    descriptor = pool_utf8 pool desc_index;
    attributes = attributes;
  })

unfoldable pub read_member_table : PoolSlots → Reader (List Member)
read_member_table pool = do count ← u2; repeat count (read_member pool)

-- The name in front of others, unless it is "".
abbrev pub add_name : Text → List Text → List Text
add_name name names = if is_empty name then names else name ∷ names

-- A loop over `count` class indices that keeps the names it finds.
unfoldable pub read_class_names : PoolSlots → ℕ → Reader (List Text)
read_class_names pool zero = pure []
read_class_names pool (suc count) = do
  index ← u2
  rest ← read_class_names pool count
  pure (add_name (pool_class_name pool index) rest)

abbrev pub optional_class_name : PoolSlots → ℕ → Text
optional_class_name pool index = if index == 0 then [] else pool_class_name pool index

unfoldable pub read_tables : ℕ → ℕ → PoolSlots → ℕ → Text → Reader ClassFile
read_tables minor major pool flags this_class = do
  super_index ← u2
  interface_count ← u2
  interfaces ← read_class_names pool interface_count
  fields ← read_member_table pool
  methods ← read_member_table pool
  attributes ← read_attribute_table pool
  pure (record {
    minor = minor;
    major = major;
    pool = pool;
    flags = flags;
    this_class = this_class;
    super_class = optional_class_name pool super_index;
    interfaces = interfaces;
    fields = fields;
    methods = methods;
    attributes = attributes;
  })

unfoldable pub read_named : ℕ → ℕ → PoolSlots → ℕ → Text → Reader ClassFile
read_named minor major pool flags this_class =
    if is_empty this_class
    then fail (codes "missing this_class")
    else read_tables minor major pool flags this_class

unfoldable pub read_body : Reader ClassFile
read_body = do
  minor ← u2
  major ← u2
  pool ← read_constant_pool
  flags ← u2
  this_index ← u2
  read_named minor major pool flags (pool_class_name pool this_index)

unfoldable pub read_after_magic : ℕ → Reader ClassFile
read_after_magic magic = if magic == 0xcafebabe then read_body else fail (codes "not a class file")

unfoldable pub read_class_file : List ℕ → Result ClassFile
read_class_file b = elim ((u4 >>= read_after_magic) (record { b = b; at = 0 })) [
  | ok (class_file, c) ↦ ok class_file
  | err e ↦ err e
]
