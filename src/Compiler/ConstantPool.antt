-- ===== src/Compiler/ConstantPool.antt =====
-- Building the constant pool of a class (togo/internal/compiler/constantpool.go, with the tags and
-- names of bytecode.go).
pub mod Meaning
pub mod Invariant
pub mod Keys
pub mod Names
pub mod Members
pub mod ReadBack
use cappu.Base.{
  ℕ, ◌+◌, ◌-◌, ◌/◌, ◌%◌, ◌++◌, Bool, true, false, ◌||◌, Option, none, some, List, [], ◌∷◌,
  if◌then◌else◌, ltb, Text, codes, text_eq, decimal, length, lookup,
}
use cappu.Compiler.ByteBuffer.{
  ByteBuffer, empty_buffer, put_u1, put_u2, put_u4, put_utf8, utf8_length, append_buf,
}

pub record BootstrapEntry : Type 0 where
  pub handle : ℕ
  pub args : List ℕ

pub record ConstantPool : Type 0 where
  pub entries : ByteBuffer
  pub count : ℕ
  pub cache : List (Text × ℕ)
  pub bootstraps : List BootstrapEntry
  pub referenced_classes : List Text

abbrev pub new_constant_pool : ConstantPool
new_constant_pool = record {
  entries = empty_buffer;
  count = 0;
  cache = [];
  bootstraps = [];
  referenced_classes = [];
}

-- A method returns, or panics and leaves the pool as it is then.
pub data Outcome (A : Type 0) : Type 0 where
  done : A → ConstantPool → Outcome A
  panicked : ConstantPool → Outcome A

abbrev pub Build : Type 0 → Type 0
Build A = ConstantPool → Outcome A

infixl 5 ◌>>=◌
abbrev pub ◌>>=◌ : {A B : Type 0} → Build A → (A → Build B) → Build B
◌>>=◌ m f cp = elim (m cp) [ done a cp' ↦ f a cp' | panicked cp' ↦ panicked cp' ]

-- The pool with a new entry, before the check of its size.
abbrev pub grown : (ByteBuffer → ByteBuffer) → Bool → ConstantPool → ConstantPool
grown write wide cp = record cp {
  entries = write cp.entries;
  count = if wide then cp.count + 2 else cp.count + 1;
}

unfoldable pub intern : Text → (ByteBuffer → ByteBuffer) → Bool → Build ℕ
intern key write wide cp = elim (lookup key cp.cache) [
  | some existing ↦ done existing cp
  | none ↦
      let cp' = grown write wide cp in
      if ltb 0xfffe cp'.count
      then panicked cp'
      else done (cp.count + 1) (record cp' { cache = (key, cp.count + 1) ∷ cp.cache })
]

unfoldable pub utf8 : Text → Build ℕ
utf8 value =
    intern (codes "u:" ++ value) (λ b. put_utf8 value (put_u2 (utf8_length value) (put_u1 1 b)))
      false

-- An entry of a tag and an index.
abbrev pub put_index : ℕ → ℕ → ByteBuffer → ByteBuffer
put_index tag i b = put_u2 i (put_u1 tag b)

-- An entry of a tag and two indices.
abbrev pub put_indices : ℕ → ℕ → ℕ → ByteBuffer → ByteBuffer
put_indices tag i j b = put_u2 j (put_u2 i (put_u1 tag b))

-- The name of a class that is not in the pool yet is recorded.
unfoldable pub refer : Text → Build (Unit {0})
refer name cp = elim (lookup (codes "c:" ++ name) cp.cache) [
  | some i ↦ done tt cp
  | none ↦ done tt (record cp { referenced_classes = cp.referenced_classes ++ name ∷ [] })
]

unfoldable pub class_info : Text → Build ℕ
class_info name = do
  _ ← refer name
  name_index ← utf8 name
  intern (codes "c:" ++ name) (put_index 7 name_index) false

unfoldable pub name_and_type : Text → Text → Build ℕ
name_and_type name desc = do
  name_index ← utf8 name
  desc_index ← utf8 desc
  intern (codes "nt:" ++ name ++ codes ":" ++ desc) (put_indices 12 name_index desc_index) false

-- The entry of a field or method; `prefix` starts its key.
abbrev pub member : Text → ℕ → Text → Text → Text → Build ℕ
member prefix tag class name desc = do
  class_index ← class_info class
  nt_index ← name_and_type name desc
  intern (prefix ++ class ++ codes ":" ++ name ++ codes ":" ++ desc)
      (put_indices tag class_index nt_index) false

unfoldable pub methodref : Text → Text → Text → Build ℕ
methodref internal_class name desc = member (codes "m:") 10 internal_class name desc

unfoldable pub interface_methodref : Text → Text → Text → Build ℕ
interface_methodref internal_class name desc = member (codes "im:") 11 internal_class name desc

unfoldable pub fieldref : Text → Text → Text → Build ℕ
fieldref internal_class name desc = member (codes "f:") 9 internal_class name desc

unfoldable pub string_const : Text → Build ℕ
string_const value = do
  utf8_index ← utf8 value
  intern (codes "s:" ++ value) (put_index 8 utf8_index) false

-- `%d` of a 64-bit integer given by its bit pattern.
abbrev pub signed_decimal : ℕ → Text
signed_decimal v =
    if ltb v 0x8000000000000000 then decimal v else b'-' ∷ decimal (0x10000000000000000 - v)

unfoldable pub integer : ℕ → Build ℕ
integer value = intern (codes "i:" ++ signed_decimal value) (λ b. put_u4 value (put_u1 3 b)) false

-- The high and the low 32 bits.
abbrev pub put_words : ℕ → ℕ → ℕ → ByteBuffer → ByteBuffer
put_words tag hi lo b = put_u4 lo (put_u4 hi (put_u1 tag b))

unfoldable pub long : ℕ → Build ℕ
long value =
    intern (codes "l:" ++ signed_decimal value)
      (put_words 5 (value / 0x100000000) (value % 0x100000000)) true

-- A floating-point number is given by the bits of its IEEE 754 form.
unfoldable pub float : ℕ → Build ℕ
float bits = intern (codes "f:" ++ decimal bits) (λ b. put_u4 bits (put_u1 4 b)) false

unfoldable pub double : ℕ → Build ℕ
double bits =
    let hi = bits / 0x100000000 in
    let lo = bits % 0x100000000 in
    intern (codes "d:" ++ decimal hi ++ codes ":" ++ decimal lo) (put_words 6 hi lo) true

unfoldable pub method_handle : ℕ → ℕ → Build ℕ
method_handle kind index =
    intern (codes "mh:" ++ decimal kind ++ codes ":" ++ decimal index)
      (λ b. put_u2 index (put_u1 kind (put_u1 15 b))) false

unfoldable pub method_type : Text → Build ℕ
method_type desc = do
  desc_index ← utf8 desc
  intern (codes "mt:" ++ desc) (put_index 16 desc_index) false

-- Registers a bootstrap method and returns its index.
unfoldable pub add_bootstrap : ℕ → List ℕ → Build ℕ
add_bootstrap handle args cp =
    done (length cp.bootstraps)
      (record cp { bootstraps = cp.bootstraps ++ record { handle = handle; args = args } ∷ [] })

-- The call site of a bootstrap method; `suffix` ends its key.
abbrev pub invoke_dynamic : ℕ → Text → Text → Text → Build ℕ
invoke_dynamic bootstrap_index name desc suffix = do
  nt ← name_and_type name desc
  intern (codes "indy:" ++ decimal bootstrap_index ++ codes ":" ++ suffix)
      (put_indices 18 bootstrap_index nt) false

abbrev make_concat : Text
make_concat = codes "makeConcatWithConstants"

unfoldable pub invoke_dynamic_concat : Text → Text → Build ℕ
invoke_dynamic_concat recipe args_descriptor = do
  bootstrap_method ← methodref (codes "java/lang/invoke/StringConcatFactory") make_concat (
      codes
        "(Ljava/lang/invoke/MethodHandles$Lookup;Ljava/lang/String;Ljava/lang/invoke/MethodType;Ljava/lang/String;[Ljava/lang/Object;)Ljava/lang/invoke/CallSite;")
  handle ← method_handle 6 bootstrap_method
  recipe_index ← string_const recipe
  bootstrap_index ← add_bootstrap handle (recipe_index ∷ [])
  invoke_dynamic bootstrap_index make_concat
      (codes "(" ++ args_descriptor ++ codes ")Ljava/lang/String;") args_descriptor

pub record RecordGetter : Type 0 where
  pub name : Text
  pub desc : Text

unfoldable pub getter_handles : Text → List RecordGetter → Build (List ℕ)
getter_handles record_class [] = done []
getter_handles record_class (g ∷ getters) = do
  ref ← methodref record_class g.name g.desc
  handle ← method_handle 5 ref
  handles ← getter_handles record_class getters
  done (handle ∷ handles)

unfoldable pub invoke_dynamic_object_method :
    Text → Text → Text → Text → List RecordGetter → Build ℕ
invoke_dynamic_object_method method_name desc record_class names getters = do
  bootstrap_method ← methodref (codes "java/lang/runtime/ObjectMethods") (codes "bootstrap") (
      codes
        "(Ljava/lang/invoke/MethodHandles$Lookup;Ljava/lang/String;Ljava/lang/invoke/TypeDescriptor;Ljava/lang/Class;Ljava/lang/String;[Ljava/lang/invoke/MethodHandle;)Ljava/lang/Object;")
  handle ← method_handle 6 bootstrap_method
  class_index ← class_info record_class
  names_index ← string_const names
  handles ← getter_handles record_class getters
  bootstrap_index ← add_bootstrap handle (class_index ∷ names_index ∷ handles)
  invoke_dynamic bootstrap_index method_name desc (method_name ++ codes ":" ++ desc)

-- The method that a lambda stands for.
unfoldable pub implementation : Text → Text → Text → Bool → Build ℕ
implementation owner name desc is_interface =
    if text_eq name (codes "<init>")
    then methodref owner name desc
    else if is_interface
    then interface_methodref owner name desc
    else methodref owner name desc

unfoldable pub invoke_dynamic_lambda :
    Text → Text → Text → ℕ → Text → Text → Text → Text → Bool → Build ℕ
invoke_dynamic_lambda sam_name indy_desc sam_erased kind owner name desc instantiated is_interface =
    do
      bootstrap_method ←
          methodref (codes "java/lang/invoke/LambdaMetafactory") (codes "metafactory") (
            codes
              "(Ljava/lang/invoke/MethodHandles$Lookup;Ljava/lang/String;Ljava/lang/invoke/MethodType;Ljava/lang/invoke/MethodType;Ljava/lang/invoke/MethodHandle;Ljava/lang/invoke/MethodType;)Ljava/lang/invoke/CallSite;")
      handle ← method_handle 6 bootstrap_method
      impl_ref ← implementation owner name desc is_interface
      impl_handle ← method_handle kind impl_ref
      sam_type ← method_type sam_erased
      instantiated_type ← method_type instantiated
      bootstrap_index ← add_bootstrap handle (sam_type ∷ impl_handle ∷ instantiated_type ∷ [])
      invoke_dynamic bootstrap_index sam_name indy_desc (sam_name ++ codes ":" ++ indy_desc)

unfoldable pub put_u2s : List ℕ → ByteBuffer → ByteBuffer
put_u2s [] b = b
put_u2s (v ∷ vs) b = put_u2s vs (put_u2 v b)

unfoldable pub put_bootstraps : List BootstrapEntry → ByteBuffer → ByteBuffer
put_bootstraps [] b = b
put_bootstraps (bm ∷ bms) b =
    put_bootstraps bms (put_u2s bm.args (put_u2 (length bm.args) (put_u2 bm.handle b)))

unfoldable pub bootstrap_methods_body : ConstantPool → ByteBuffer
bootstrap_methods_body cp =
    put_bootstraps cp.bootstraps (put_u2 (length cp.bootstraps) empty_buffer)

unfoldable pub write_into : ConstantPool → ByteBuffer → ByteBuffer
write_into cp out = append_buf cp.entries (put_u2 (cp.count + 1) out)
