-- ===== src/Compiler/ClassFile/RoundTrip.antt =====
-- Reading class files is the inverse of their layout.
use cappu.Base.{All_map, ℕ, ◌<◌, ◌++◌, ok, err, List, [], ◌∷◌, All, length, arith, ◌≡◌, refl, map}
use cappu.Compiler.ByteBuffer.{u2_bytes}
use cappu.Compiler.ClassFile.Entries.{Parses-map}
use cappu.Compiler.ClassFile.Cursor.{Reader, ◌>>=◌, truncated, u2, u4}
use cappu.Compiler.ClassFile.Parses.{
  Parses, Parses-bind, Parses-pure, Parses-u2, Parses-u4, Parses-slice,
}
use cappu.Compiler.ClassFile.Constants.{PoolSlots, pool_utf8, pool_class_name}
use cappu.Compiler.ClassFile.Pool.{read_constant_pool_lem}
use cappu.Compiler.ClassFile.Tables.{
  repeat, read_attribute, read_attribute_table, read_member, read_member_table, read_class_names,
  read_tables, read_named, read_body, read_after_magic, read_class_file,
}
use cappu.Compiler.ClassFile.Layout.{
  AttributeInfo, MemberInfo, ClassInfo, IsU2, concat_map, table, attribute_bytes, member_bytes,
  class_bytes, attribute_in, member_in, names_in, pool_of, class_of, AttributeInRange, TableInRange,
  MemberInRange, IsClassInfo,
}

module _ {ℓ κ} {A : Type ℓ} {B : Type κ} (r : Reader B) (f : A → List ℕ) (v : A → B) where
  pub Parses-repeat :
      (xs : List A)
      → All (λ x. Parses r (f x) (v x)) xs
      → Parses (repeat (length xs) r) (concat_map f xs) (map v xs)
  unfolding repeat
  Parses-repeat [] h = Parses-pure []
  Parses-repeat (x ∷ xs) (p, h) = Parses-bind _ p (Parses-map (λ ys. v x ∷ ys) (Parses-repeat xs h))

  Parses-table :
      (xs : List A)
      → IsU2 (length xs)
      → All (λ x. Parses r (f x) (v x)) xs
      → Parses (u2 >>= λ count. repeat count r) (table f xs) (map v xs)
  Parses-table xs lt h =
      Parses-bind (λ count. repeat count r) (Parses-u2 (length xs) lt) (Parses-repeat xs h)

module _ (pool : PoolSlots) where
  Parses-attribute :
      (a : AttributeInfo)
      → AttributeInRange a
      → Parses (read_attribute pool) (attribute_bytes a) (attribute_in pool a)
  unfolding read_attribute attribute_bytes
  Parses-attribute a (hn, hl) = Parses-bind _ (Parses-u2 a.name_index hn) (
      Parses-bind _ (Parses-u4 (length a.info) hl) (
        Parses-map (λ body. record { name = pool_utf8 pool a.name_index; bytes = body })
          (Parses-slice (length a.info) a.info refl)))

  pub Parses-attribute_table :
      (infos : List AttributeInfo)
      → TableInRange AttributeInRange infos
      → Parses
          (read_attribute_table pool)
          (table attribute_bytes infos)
          (map (attribute_in pool) infos)
  unfolding read_attribute_table
  Parses-attribute_table infos (lt, h) =
      Parses-table (read_attribute pool) attribute_bytes (attribute_in pool) infos lt
        (All_map infos Parses-attribute h)

  Parses-member :
      (m : MemberInfo)
      → MemberInRange m
      → Parses (read_member pool) (member_bytes m) (member_in pool m)
  unfolding read_member member_bytes
  Parses-member m (hf, hn, hd, ha) = Parses-bind _ (Parses-u2 m.access_flags hf) (
      Parses-bind _ (Parses-u2 m.name_index hn) (
        Parses-bind _ (Parses-u2 m.descriptor_index hd)
          (Parses-map _ (Parses-attribute_table m.attributes ha))))

  Parses-member_table :
      (ms : List MemberInfo)
      → TableInRange MemberInRange ms
      → Parses (read_member_table pool) (table member_bytes ms) (map (member_in pool) ms)
  unfolding read_member_table
  Parses-member_table ms (lt, h) =
      Parses-table (read_member pool) member_bytes (member_in pool) ms lt
        (All_map ms Parses-member h)

  Parses-class_names :
      (is : List ℕ)
      → All IsU2 is
      → Parses (read_class_names pool (length is)) (concat_map u2_bytes is) (names_in pool is)
  unfolding read_class_names
  Parses-class_names [] h = Parses-pure []
  Parses-class_names (i ∷ is) (hi, h) =
      Parses-bind _ (Parses-u2 i hi) (Parses-map _ (Parses-class_names is h))

-- What stands behind the access flags and this_class.
abbrev tables_bytes : ClassInfo → List ℕ
tables_bytes k =
    u2_bytes k.super_index
    ++ (u2_bytes (length k.interfaces)
        ++ (concat_map u2_bytes k.interfaces
            ++ (table member_bytes k.fields
                ++ (table member_bytes k.methods ++ table attribute_bytes k.attributes))))

Parses-tables :
    (k : ClassInfo)
    → IsClassInfo k
    → Parses
        (read_tables k.minor_version k.major_version
          (pool_of k)
          k.access_flags
          (pool_class_name (pool_of k) k.this_index))
        (tables_bytes k)
        (class_of k)
unfolding read_tables class_of
Parses-tables k h = Parses-bind _ (Parses-u2 k.super_index h.super_in_range) (
    Parses-bind _ (Parses-u2 (length k.interfaces) h.interfaces_in_range.0) (
      Parses-bind _ (Parses-class_names (pool_of k) k.interfaces h.interfaces_in_range.1) (
        Parses-bind _ (Parses-member_table (pool_of k) k.fields h.fields_in_range) (
          Parses-bind _ (Parses-member_table (pool_of k) k.methods h.methods_in_range) (
            Parses-map _
              (Parses-attribute_table (pool_of k) k.attributes h.attributes_in_range))))))

Parses-named :
    (k : ClassInfo)
    → IsClassInfo k
    → Parses
        (read_named k.minor_version k.major_version
          (pool_of k)
          k.access_flags
          (pool_class_name (pool_of k) k.this_index))
        (tables_bytes k)
        (class_of k)
unfolding read_named
Parses-named k h = rw h.this_named (Parses-tables k h)

Parses-class :
    (k : ClassInfo) → IsClassInfo k → Parses (u4 >>= read_after_magic) (class_bytes k) (class_of k)
unfolding read_after_magic read_body class_bytes
Parses-class k h = Parses-bind read_after_magic (Parses-u4 0xcafebabe (omega arith)) (
    Parses-bind _ (Parses-u2 k.minor_version h.minor_in_range) (
      Parses-bind _ (Parses-u2 k.major_version h.major_in_range) (
        Parses-bind _ (read_constant_pool_lem k.constants h.constants_writable h.slots_fit) (
          Parses-bind _ (Parses-u2 k.access_flags h.flags_in_range)
            (Parses-bind _ (Parses-u2 k.this_index h.this_in_range) (Parses-named k h))))))

-- Let the fields of a class be in range and the class have a name. The reader returns from the bytes
-- of the class, and any bytes behind them, the class with each name that its tables refer to; of a
-- shorter part of these bytes it reports a truncated class file.
pub read_class_file-class_bytes :
    (k : ClassInfo)
    → IsClassInfo k
    → ((rest : List ℕ) → read_class_file (class_bytes k ++ rest) ≡ ok (class_of k))
      × ((short more : List ℕ)
          → short ++ more ≡ class_bytes k
          → length short < length (class_bytes k)
          → read_class_file short ≡ err truncated)
unfolding read_class_file
read_class_file-class_bytes k h = (
  (λ rest. rw (read_class_file, (Parses-class k h).whole [] rest) refl),
  (λ short more e lt. rw (read_class_file, (Parses-class k h).cut_off [] short more e lt) refl),
)
