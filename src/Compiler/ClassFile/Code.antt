-- ===== src/Compiler/ClassFile/Code.antt =====
-- The layout of a Code attribute (JVMS 4.7.3), and what reading makes of it and of a part of it.
use cappu.Base.{ℕ, ◌<◌, ◌++◌, some, ok, err, List, [], codes, All_map, length, ◌≡◌, refl, map}
use cappu.Compiler.ByteBuffer.{u2_bytes, u4_bytes}
use cappu.Compiler.ClassFile.Entries.{Parses-map}
use cappu.Compiler.ClassFile.Cursor.{truncated}
use cappu.Compiler.ClassFile.Parses.{Parses, Parses-bind, Parses-u2, Parses-u4, Parses-slice}
use cappu.Compiler.ClassFile.Constants.{PoolSlots}
use cappu.Compiler.ClassFile.Tables.{Attribute, Member, optional_class_name}
use cappu.Compiler.ClassFile.Layout.{
  AttributeInfo, IsU2, concat_map, table, attribute_bytes, attribute_in, AttributeInRange,
  TableInRange,
}
use cappu.Compiler.ClassFile.RoundTrip.{Parses-repeat, Parses-attribute_table}
use cappu.Compiler.ClassFile.Attributes.{
  find_attribute, ExceptionEntry, Code, read_exception, read_code_body, read_code,
}

pub record ExceptionInfo : Type 0 where
  pub start_pc : ℕ
  pub end_pc : ℕ
  pub handler_pc : ℕ
  pub catch_index : ℕ

pub record CodeInfo : Type 0 where
  pub max_stack : ℕ
  pub max_locals : ℕ
  pub code : List ℕ
  pub exceptions : List ExceptionInfo
  pub attributes : List AttributeInfo

unfoldable pub exception_bytes : ExceptionInfo → List ℕ
exception_bytes x =
    u2_bytes x.start_pc ++ (u2_bytes x.end_pc ++ (u2_bytes x.handler_pc ++ u2_bytes x.catch_index))

unfoldable pub code_bytes : CodeInfo → List ℕ
code_bytes k =
    u2_bytes k.max_stack
    ++ (u2_bytes k.max_locals
        ++ (u4_bytes (length k.code)
            ++ (k.code
                ++ (u2_bytes (length k.exceptions)
                    ++ (concat_map exception_bytes k.exceptions
                        ++ table attribute_bytes k.attributes)))))

abbrev exception_in : PoolSlots → ExceptionInfo → ExceptionEntry
exception_in pool x = record {
  start_pc = x.start_pc;
  end_pc = x.end_pc;
  handler_pc = x.handler_pc;
  catch_type = optional_class_name pool x.catch_index;
}

unfoldable pub code_in : PoolSlots → CodeInfo → Code
code_in pool k = record {
  max_stack = k.max_stack;
  max_locals = k.max_locals;
  code = k.code;
  exceptions = map (exception_in pool) k.exceptions;
  attributes = map (attribute_in pool) k.attributes;
}

abbrev ExceptionInRange : ExceptionInfo → Type 0
ExceptionInRange x = IsU2 x.start_pc × IsU2 x.end_pc × IsU2 x.handler_pc × IsU2 x.catch_index

-- The fields and the numbers of elements are in the ranges that their bytes can hold.
pub record IsCodeInfo (k : CodeInfo) : Type 0 where
  pub max_stack_in_range : IsU2 k.max_stack
  pub max_locals_in_range : IsU2 k.max_locals
  pub code_in_range : length k.code < 4294967296
  pub exceptions_in_range : TableInRange ExceptionInRange k.exceptions
  pub attributes_in_range : TableInRange AttributeInRange k.attributes

Parses-exception :
    (pool : PoolSlots) (x : ExceptionInfo)
    → ExceptionInRange x
    → Parses (read_exception pool) (exception_bytes x) (exception_in pool x)
unfolding read_exception exception_bytes
Parses-exception pool x (hs, he, hh, hc) = Parses-bind _ (Parses-u2 x.start_pc hs) (
    Parses-bind _ (Parses-u2 x.end_pc he)
      (Parses-bind _ (Parses-u2 x.handler_pc hh) (Parses-map _ (Parses-u2 x.catch_index hc))))

Parses-code :
    (pool : PoolSlots) (k : CodeInfo)
    → IsCodeInfo k
    → Parses (read_code_body pool) (code_bytes k) (code_in pool k)
unfolding read_code_body code_bytes code_in
Parses-code pool k h = Parses-bind _ (Parses-u2 k.max_stack h.max_stack_in_range) (
    Parses-bind _ (Parses-u2 k.max_locals h.max_locals_in_range) (
      Parses-bind _ (Parses-u4 (length k.code) h.code_in_range) (
        Parses-bind _ (Parses-slice (length k.code) k.code refl) (
          Parses-bind _ (Parses-u2 (length k.exceptions) h.exceptions_in_range.0) (
            Parses-bind _
              (Parses-repeat (read_exception pool) exception_bytes (exception_in pool) k.exceptions
                (All_map k.exceptions (Parses-exception pool) h.exceptions_in_range.1))
              (Parses-map _ (Parses-attribute_table pool k.attributes h.attributes_in_range)))))))

-- A method whose first attribute named "Code" has the bytes.
abbrev pub HasCode : Member → List ℕ → Type 0
HasCode method bytes =
    (a : Attribute) × (find_attribute method.attributes (codes "Code") ≡ some a) × (a.bytes ≡ bytes)

-- Let the fields of the code be in range. From a method whose attribute "Code" holds its bytes, and
-- perhaps more behind them, the code is read with the class that each exception refers to; if the
-- attribute holds a shorter part of them, a truncated class file is reported.
pub read_code-code_bytes :
    (pool : PoolSlots) (k : CodeInfo) (method : Member)
    → IsCodeInfo k
    → ((rest : List ℕ)
        → HasCode method (code_bytes k ++ rest)
        → read_code method pool ≡ ok (some (code_in pool k)))
      × ((short more : List ℕ)
          → short ++ more ≡ code_bytes k
          → length short < length (code_bytes k)
          → HasCode method short
          → read_code method pool ≡ err truncated)
unfolding read_code
read_code-code_bytes pool k method h = (
  (λ rest (a, found, same). rw (read_code, found, same, (Parses-code pool k h).whole [] rest) refl),
  (λ short more e lt (a, found, same).
      rw (read_code, found, same, (Parses-code pool k h).cut_off [] short more e lt) refl),
)
