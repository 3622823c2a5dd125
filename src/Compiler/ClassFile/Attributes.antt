-- ===== src/Compiler/ClassFile/Attributes.antt =====
-- The readers of single attributes (togo/internal/compiler/classfile.go).
use cappu.Base.{
  ℕ, zero, suc, ◌+◌, ◌*◌, Option, none, some, Result, ok, err, List, [], ◌∷◌, if◌then◌else◌, ltb,
  Text, codes, text_eq, is_empty, length, get_or,
}
use cappu.Compiler.ClassFile.Cursor.{Cursor, Reader, ◌>>=◌, pure, u2, u4, slice}
use cappu.Compiler.ClassFile.Constants.{PoolSlots, pool_utf8, pool_class_name}
use cappu.Compiler.ClassFile.Tables.{
  Attribute, Member, ClassFile, repeat, read_attribute_table, add_name, read_class_names,
  optional_class_name,
}

unfoldable pub find_attribute : List Attribute → Text → Option Attribute
find_attribute [] name = none
find_attribute (a ∷ attributes) name =
    if text_eq a.name name then some a else find_attribute attributes name

-- A cursor at the first byte.
abbrev pub from_start : List ℕ → Cursor
from_start bytes = record { b = bytes; at = 0 }

-- A loop that reads up to `count` elements and keeps those before the first error.
unfoldable pub read_while : {A : Type 0} → ℕ → Reader A → Cursor → List A
read_while zero r c = []
read_while (suc count) r c = elim (r c) [ err e ↦ [] | ok (x, c') ↦ x ∷ read_while count r c' ]

-- The elements of a table in an attribute that may be missing or cut off.
unfoldable pub table_of : {A : Type 0} → List Attribute → Text → Reader A → List A
table_of attributes name r = elim (find_attribute attributes name) [
  | none ↦ []
  | some attribute ↦ elim (u2 (from_start attribute.bytes)) [
    | err e ↦ []
    | ok (count, c) ↦ read_while count r c
  ]
]

-- The class and its access flags.
unfoldable pub inner_class_row : Reader (ℕ × ℕ)
inner_class_row = do index ← u2; _ ← u2; _ ← u2; access ← u2; pure (index, access)

-- The map that the rows fill, its newest entry first.
unfoldable pub add_inner : PoolSlots → List (ℕ × ℕ) → List (Text × ℕ) → List (Text × ℕ)
add_inner pool [] flags = flags
add_inner pool ((index, access) ∷ rows) flags =
    let inner = pool_class_name pool index in
    add_inner pool rows (if is_empty inner then flags else (inner, access) ∷ flags)

unfoldable pub inner_class_flags : ClassFile → List (Text × ℕ)
inner_class_flags class_file =
    add_inner class_file.pool
      (table_of class_file.attributes (codes "InnerClasses") inner_class_row) []

-- Nothing of a list that is cut off.
unfoldable pub permitted_subclasses : ClassFile → List Text
permitted_subclasses class_file =
    elim (find_attribute class_file.attributes (codes "PermittedSubclasses")) [
      | none ↦ []
      | some attribute ↦
          elim ((u2 >>= read_class_names class_file.pool) (from_start attribute.bytes)) [
            | err e ↦ []
            | ok (names, c) ↦ names
          ]
    ]

pub record ExceptionEntry : Type 0 where
  pub start_pc : ℕ
  pub end_pc : ℕ
  pub handler_pc : ℕ
  pub catch_type : Text

pub record Code : Type 0 where
  pub max_stack : ℕ
  pub max_locals : ℕ
  pub code : List ℕ
  pub exceptions : List ExceptionEntry
  pub attributes : List Attribute

unfoldable pub read_exception : PoolSlots → Reader ExceptionEntry
read_exception pool = do
  start_pc ← u2
  end_pc ← u2
  handler_pc ← u2
  catch_index ← u2
  pure (record {
    start_pc = start_pc;
    end_pc = end_pc;
    handler_pc = handler_pc;
    catch_type = optional_class_name pool catch_index;
  })

unfoldable pub read_code_body : PoolSlots → Reader Code
read_code_body pool = do
  max_stack ← u2
  max_locals ← u2
  size ← u4
  code ← slice size
  exception_count ← u2
  exceptions ← repeat exception_count (read_exception pool)
  attributes ← read_attribute_table pool
  pure (record {
    max_stack = max_stack;
    max_locals = max_locals;
    code = code;
    exceptions = exceptions;
    attributes = attributes;
  })

-- `ok none` is the pair of two nils.
unfoldable pub read_code : Member → PoolSlots → Result (Option Code)
read_code method pool = elim (find_attribute method.attributes (codes "Code")) [
  | none ↦ ok none
  | some attribute ↦ elim (read_code_body pool (from_start attribute.bytes)) [
    | err e ↦ err e
    | ok (code, c) ↦ ok (some code)
  ]
]

unfoldable pub names_of : PoolSlots → List ℕ → List Text
names_of pool [] = []
names_of pool (index ∷ indices) = add_name (pool_class_name pool index) (names_of pool indices)

unfoldable pub read_thrown_exceptions : Member → PoolSlots → List Text
read_thrown_exceptions member pool =
    names_of pool (table_of member.attributes (codes "Exceptions") u2)

pub record BootstrapMethod : Type 0 where
  pub handle_index : ℕ
  pub argument_indexes : List ℕ

unfoldable pub bootstrap_row : Reader BootstrapMethod
bootstrap_row = do
  handle_index ← u2
  argument_count ← u2
  arguments ← repeat argument_count u2
  pure (record { handle_index = handle_index; argument_indexes = arguments })

unfoldable pub read_bootstrap_methods : ClassFile → List BootstrapMethod
read_bootstrap_methods class_file =
    table_of class_file.attributes (codes "BootstrapMethods") bootstrap_row

-- The string whose index is all of an attribute.
unfoldable pub indexed_text : List Attribute → Text → PoolSlots → Text
indexed_text attributes name pool = elim (find_attribute attributes name) [
  | none ↦ []
  | some attribute ↦
      if ltb (length attribute.bytes) 2
      then []
      else pool_utf8 pool (get_or attribute.bytes 0 0 * 256 + get_or attribute.bytes 1 0)
]

unfoldable pub source_file_name : ClassFile → Text
source_file_name class_file =
    indexed_text class_file.attributes (codes "SourceFile") class_file.pool

unfoldable pub signature_of : List Attribute → PoolSlots → Text
signature_of attributes pool = indexed_text attributes (codes "Signature") pool
