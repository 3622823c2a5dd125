-- ===== src/Compiler/ClassFile/Layout.antt =====
-- The layout of a class file (JVMS 4.1), and what reading makes of it and of a part of it.
use cappu.Base.{ℕ, ◌<◌, ◌++◌, false, none, List, [], ◌∷◌, Text, is_empty, All, length, ◌≡◌, map}
use cappu.Compiler.ByteBuffer.{u2_bytes, u4_bytes}
use cappu.Compiler.ClassFile.Entries.{IsWritable}
use cappu.Compiler.ClassFile.Constants.{Constant, PoolSlots, pool_utf8, pool_class_name}
use cappu.Compiler.ClassFile.Pool.{slots, pool_bytes}
use cappu.Compiler.ClassFile.Tables.{Attribute, Member, ClassFile, add_name, optional_class_name}

-- The tables as they stand in the file, with indices in place of names.
pub record AttributeInfo : Type 0 where
  pub name_index : ℕ
  pub info : List ℕ

pub record MemberInfo : Type 0 where
  pub access_flags : ℕ
  pub name_index : ℕ
  pub descriptor_index : ℕ
  pub attributes : List AttributeInfo

pub record ClassInfo : Type 0 where
  pub minor_version : ℕ
  pub major_version : ℕ
  pub constants : List Constant
  pub access_flags : ℕ
  pub this_index : ℕ
  pub super_index : ℕ
  pub interfaces : List ℕ
  pub fields : List MemberInfo
  pub methods : List MemberInfo
  pub attributes : List AttributeInfo

abbrev pub IsU2 : ℕ → Type 0
IsU2 v = v < 65536

abbrev pub concat_map {ℓ} : {A : Type ℓ} → (A → List ℕ) → List A → List ℕ
concat_map f [] = []
concat_map f (x ∷ xs) = f x ++ concat_map f xs

-- A table: the number of its elements in two bytes, and their bytes.
abbrev pub table {ℓ} : {A : Type ℓ} → (A → List ℕ) → List A → List ℕ
table f xs = u2_bytes (length xs) ++ concat_map f xs

unfoldable pub attribute_bytes : AttributeInfo → List ℕ
attribute_bytes a = u2_bytes a.name_index ++ (u4_bytes (length a.info) ++ a.info)

unfoldable pub member_bytes : MemberInfo → List ℕ
unfolding attribute_bytes
member_bytes m =
    u2_bytes m.access_flags
    ++ (u2_bytes m.name_index
        ++ (u2_bytes m.descriptor_index ++ table attribute_bytes m.attributes))

unfoldable pub class_bytes : ClassInfo → List ℕ
class_bytes k =
    u4_bytes 0xcafebabe
    ++ (u2_bytes k.minor_version
        ++ (u2_bytes k.major_version
            ++ (pool_bytes k.constants
                ++ (u2_bytes k.access_flags
                    ++ (u2_bytes k.this_index
                        ++ (u2_bytes k.super_index
                            ++ (u2_bytes (length k.interfaces)
                                ++ (concat_map u2_bytes k.interfaces
                                    ++ (table member_bytes k.fields
                                        ++ (table member_bytes k.methods
                                            ++ table attribute_bytes k.attributes))))))))))

-- What the tables mean over a pool.
abbrev pub attribute_in : PoolSlots → AttributeInfo → Attribute
attribute_in pool a = record { name = pool_utf8 pool a.name_index; bytes = a.info }

abbrev pub member_in : PoolSlots → MemberInfo → Member
member_in pool m = record {
  flags = m.access_flags;
  name = pool_utf8 pool m.name_index;
  descriptor = pool_utf8 pool m.descriptor_index;
  attributes = map (attribute_in pool) m.attributes;
}

abbrev pub names_in : PoolSlots → List ℕ → List Text
names_in pool [] = []
names_in pool (i ∷ is) = add_name (pool_class_name pool i) (names_in pool is)

abbrev pub pool_of : ClassInfo → PoolSlots
pool_of k = none ∷ slots k.constants

unfoldable pub class_of : ClassInfo → ClassFile
class_of k = record {
  minor = k.minor_version;
  major = k.major_version;
  pool = pool_of k;
  flags = k.access_flags;
  this_class = pool_class_name (pool_of k) k.this_index;
  super_class = optional_class_name (pool_of k) k.super_index;
  interfaces = names_in (pool_of k) k.interfaces;
  fields = map (member_in (pool_of k)) k.fields;
  methods = map (member_in (pool_of k)) k.methods;
  attributes = map (attribute_in (pool_of k)) k.attributes;
}

-- The fields and the numbers of elements are in the ranges that their bytes can hold.
abbrev pub AttributeInRange : AttributeInfo → Type 0
AttributeInRange a = IsU2 a.name_index × (length a.info < 4294967296)

abbrev pub TableInRange {ℓ} : {A : Type ℓ} → (A → Type 0) → List A → Type 0
TableInRange P xs = IsU2 (length xs) × All P xs

abbrev pub MemberInRange : MemberInfo → Type 0
MemberInRange m =
    IsU2 m.access_flags
    × IsU2 m.name_index
    × IsU2 m.descriptor_index
    × TableInRange AttributeInRange m.attributes

-- The class also has a name.
pub record IsClassInfo (k : ClassInfo) : Type 0 where
  pub minor_in_range : IsU2 k.minor_version
  pub major_in_range : IsU2 k.major_version
  pub constants_writable : All IsWritable k.constants
  pub slots_fit : length (slots k.constants) < 65535
  pub flags_in_range : IsU2 k.access_flags
  pub this_in_range : IsU2 k.this_index
  pub this_named : is_empty (pool_class_name (pool_of k) k.this_index) ≡ false
  pub super_in_range : IsU2 k.super_index
  pub interfaces_in_range : TableInRange IsU2 k.interfaces
  pub fields_in_range : TableInRange MemberInRange k.fields
  pub methods_in_range : TableInRange MemberInRange k.methods
  pub attributes_in_range : TableInRange AttributeInRange k.attributes
