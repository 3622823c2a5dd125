-- ===== src/Compiler/ClassFile/Constants.antt =====
-- The constant pool of a class file (togo/internal/compiler/classfile.go): reading it and the
-- accessors.
use cappu.Base.{
  ℕ, zero, suc, ◌+◌, ◌*◌, ◌++◌, Bool, true, false, Option, none, some, List, [], ◌∷◌, if◌then◌else◌,
  ◌==◌, Text, codes, decimal, get_elem?,
}
use cappu.Compiler.ClassFile.{decode_modified_utf8}
use cappu.Compiler.ClassFile.Cursor.{Reader, ◌>>=◌, pure, fail, u1, u2, u4, slice}

-- An entry with the fields that its tag defines. Numbers are their bit patterns.
pub data Constant : Type 0 where
  utf8 : Text → Constant
  int : ℕ → Constant
  float : ℕ → Constant
  long : ℕ → Constant
  double : ℕ → Constant
  class : ℕ → Constant
  string : ℕ → Constant
  fieldref : ℕ → ℕ → Constant
  methodref : ℕ → ℕ → Constant
  interface_methodref : ℕ → ℕ → Constant
  name_and_type : ℕ → ℕ → Constant
  method_handle : ℕ → ℕ → Constant
  method_type : ℕ → Constant
  dynamic : ℕ → ℕ → Constant
  invoke_dynamic : ℕ → ℕ → Constant
  java_module : ℕ → Constant
  java_package : ℕ → Constant

-- Longs and doubles take two slots of the pool.
unfoldable pub is_wide : Constant → Bool
is_wide (Constant.long bits) = true
is_wide (Constant.double bits) = true
is_wide k = false

-- The shapes that several tags share.
abbrev utf8_entry : Reader Constant
utf8_entry = do size ← u2; body ← slice size; pure (Constant.utf8 (decode_modified_utf8 body))

abbrev pub entry_of_u4 : (ℕ → Constant) → Reader Constant
entry_of_u4 make = do v ← u4; pure (make v)

abbrev pub entry_of_u8 : (ℕ → Constant) → Reader Constant
entry_of_u8 make = do hi ← u4; lo ← u4; pure (make (hi * 4294967296 + lo))

abbrev pub entry_of_index : (ℕ → Constant) → Reader Constant
entry_of_index make = do index ← u2; pure (make index)

abbrev pub entry_of_indices : (ℕ → ℕ → Constant) → Reader Constant
entry_of_indices make = do first ← u2; second ← u2; pure (make first second)

abbrev method_handle_entry : Reader Constant
method_handle_entry = do kind ← u1; ref_index ← u2; pure (Constant.method_handle kind ref_index)

-- The entry behind a tag.
unfoldable pub constant_of : ℕ → Reader Constant
constant_of tag =
    if tag == 1
    then utf8_entry
    else if tag == 3
    then entry_of_u4 Constant.int
    else if tag == 4
    then entry_of_u4 Constant.float
    else if tag == 5
    then entry_of_u8 Constant.long
    else if tag == 6
    then entry_of_u8 Constant.double
    else if tag == 7
    then entry_of_index Constant.class
    else if tag == 8
    then entry_of_index Constant.string
    else if tag == 16
    then entry_of_index Constant.method_type
    else if tag == 19
    then entry_of_index Constant.java_module
    else if tag == 20
    then entry_of_index Constant.java_package
    else if tag == 9
    then entry_of_indices Constant.fieldref
    else if tag == 10
    then entry_of_indices Constant.methodref
    else if tag == 11
    then entry_of_indices Constant.interface_methodref
    else if tag == 12
    then entry_of_indices Constant.name_and_type
    else if tag == 15
    then method_handle_entry
    else if tag == 17
    then entry_of_indices Constant.dynamic
    else if tag == 18
    then entry_of_indices Constant.invoke_dynamic
    else fail (codes "unknown constant pool tag " ++ decimal tag)

unfoldable pub read_constant : Reader Constant
read_constant = u1 >>= constant_of

-- The slots from an index on, by their number; a wide entry leaves the next slot nil.
unfoldable pub read_slots : ℕ → Reader (List (Option Constant))
read_slots zero = pure []
read_slots (suc zero) = do entry ← read_constant; pure (some entry ∷ [])
read_slots (suc (suc n)) = do
  entry ← read_constant
  elim (is_wide entry) [
    | true ↦ do rest ← read_slots n; pure (some entry ∷ none ∷ rest)
    | false ↦ do rest ← read_slots (suc n); pure (some entry ∷ rest)
  ]

-- The pool of `count` slots, of which the first stays nil.
unfoldable pub pool_of_count : ℕ → Reader (List (Option Constant))
pool_of_count zero = pure []
pool_of_count (suc n) = do slots ← read_slots n; pure (none ∷ slots)

unfoldable pub read_constant_pool : Reader (List (Option Constant))
read_constant_pool = u2 >>= pool_of_count

abbrev pub PoolSlots : Type 0
PoolSlots = List (Option Constant)

-- nil past the end
unfoldable pub pool_at : PoolSlots → ℕ → Option Constant
pool_at pool index = elim (get_elem? pool index) [ none ↦ none | some entry ↦ entry ]

unfoldable pub pool_utf8 : PoolSlots → ℕ → Text
pool_utf8 pool index = elim (pool_at pool index) [ some (Constant.utf8 text) ↦ text | _ ↦ [] ]

unfoldable pub pool_class_name : PoolSlots → ℕ → Text
pool_class_name pool index = elim (pool_at pool index) [
  | some (Constant.class name) ↦ pool_utf8 pool name
  | _ ↦ []
]

unfoldable pub pool_name_and_type : PoolSlots → ℕ → Option (Text × Text)
pool_name_and_type pool index = elim (pool_at pool index) [
  | some (Constant.name_and_type name desc) ↦ some (pool_utf8 pool name, pool_utf8 pool desc)
  | _ ↦ none
]

pub record MemberRef : Type 0 where
  pub owner : Text
  pub name : Text
  pub descriptor : Text
  pub interface : Bool

unfoldable pub member_of : PoolSlots → ℕ → ℕ → Bool → Option MemberRef
member_of pool class_index index interface = elim (pool_name_and_type pool index) [
  | none ↦ none
  | some (name, descriptor) ↦ some (record {
    owner = pool_class_name pool class_index;
    name = name;
    descriptor = descriptor;
    interface = interface;
  })
]

unfoldable pub pool_member_ref : PoolSlots → ℕ → Option MemberRef
pool_member_ref pool index = elim (pool_at pool index) [
  | some (Constant.fieldref c nt) ↦ member_of pool c nt false
  | some (Constant.methodref c nt) ↦ member_of pool c nt false
  | some (Constant.interface_methodref c nt) ↦ member_of pool c nt true
  | _ ↦ none
]
