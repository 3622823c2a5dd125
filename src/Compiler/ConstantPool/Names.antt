-- ===== src/Compiler/ConstantPool/Names.antt =====
-- The entries of strings and classes, and what a reader of the written pool finds at their indices.
use cappu.Base.{
  ℕ, ◌<◌, ◌++◌, false, none, some, List, [], ◌∷◌, Text, codes, lookup, ◌≡◌, refl, sym, subst, arith,
  append_assoc,
}
use cappu.Compiler.ByteBuffer.{utf8_length}
use cappu.Compiler.ClassFile.Entries.{IsWritable, constant_bytes}
use cappu.Compiler.ClassFile.Constants.{Constant, PoolSlots}
use cappu.Compiler.ClassFile.Pool.{takes_two, slots}
use cappu.Compiler.ConstantPool.{ConstantPool, Outcome, done, panicked, intern}
use cappu.Base.{ap₂}
use cappu.Compiler.ByteBuffer.{
  u1_bytes, u2_bytes, put_u1, put_u2, put_utf8, empty_buffer, append_buf,
}
use cappu.Compiler.ClassFile.Constants.{pool_at, pool_utf8, pool_class_name, read_constant_pool}
use cappu.Compiler.ClassFile.Parses.{Parses}
use cappu.Compiler.ClassFile.Pool.{pool_bytes, read_constant_pool_lem}
use cappu.Compiler.ConstantPool.{utf8, refer, class_info, put_index, write_into}
use cappu.Compiler.ConstantPool.Meaning.{At, Means, Named, ClassNamed, At-append, At-lt}
use cappu.Compiler.ConstantPool.Invariant.{
  IsPool, Writes, Yields, Yields-bind, Grown, Interned, intern_lem,
}
use cappu.Compiler.ConstantPool.Keys.{Means-utf8, Means-class}

-- A string that an entry can hold: characters, in no more bytes than its length field counts.
abbrev pub IsName : Text → Type 0
IsName t = IsWritable (Constant.utf8 t)

pub Yields-map :
    {A : Type 0} (P Q : A → ConstantPool → Type 0)
    → ((a : A) (cp : ConstantPool) → P a cp → Q a cp)
    → (o : Outcome A) → Yields P o
    → Yields Q o
Yields-map P Q f (done a cp) h = f a cp h
Yields-map P Q f (panicked cp) h = h

pub Grown-again :
    {ks : List Constant} {cp : ConstantPool} (more : List Constant) (R : List Constant → Type 0)
    → Grown (ks ++ more) R cp
    → Grown ks R cp
Grown-again {ks} more R h = record {
  more = more ++ h.more;
  pool = rw (← append_assoc ks more h.more) h.pool;
  result = rw (← append_assoc ks more h.more) h.result;
}

Writes-utf8 :
    (t : Text) → Writes (λ b. put_utf8 t (put_u2 (utf8_length t) (put_u1 1 b))) (Constant.utf8 t)
unfolding put_utf8 put_u2 put_u1 constant_bytes
Writes-utf8 t b = rw (append_assoc (b.bytes ++ u1_bytes 1), append_assoc b.bytes) refl

Writes-class : (i : ℕ) → Writes (put_index 7 i) (Constant.class i)
unfolding put_u2 put_u1 constant_bytes
Writes-class i b = append_assoc b.bytes (u1_bytes 7) (u2_bytes i)

-- The index of a string.
pub utf8_lem :
    {ks : List Constant} {cp : ConstantPool} (t : Text)
    → IsPool ks cp
    → IsName t
    → Yields (λ i. Grown ks (λ all. Named all i t)) (utf8 t cp)
unfolding utf8 takes_two Means
utf8_lem {ks} {cp} t h ht =
    Yields-map (Interned ks (codes "u:" ++ t)) (λ i. Grown ks (λ all. Named all i t))
      (λ i cp' g. record {
        more = g.more;
        pool = g.pool;
        result =
            let (k, a, m) = g.result in
            subst (At (ks ++ g.more) i) (Means-utf8 (ks ++ g.more) t k m) a;
      })
      (utf8 t cp) (intern_lem (Constant.utf8 t) (codes "u:" ++ t) _ h (Writes-utf8 t) ht refl)

pub Index-writable :
    {ks : List Constant} {cp : ConstantPool} {i : ℕ} {k : Constant}
    → IsPool ks cp
    → At ks i k
    → i < 65536
Index-writable h a = omega (arith, At-lt a, h.counted, h.fits)

IsPool-refer :
    {ks : List Constant} {cp : ConstantPool} (t : Text)
    → IsPool ks cp
    → Yields (λ _. IsPool ks) (refer t cp)
unfolding refer
IsPool-refer {ks} {cp} t h =
    elim (lookup (codes "c:" ++ t) cp.cache)
      as (λ o.
        Yields (λ _. IsPool ks)
          (elim o [
            | some i ↦ done tt cp
            | none ↦ done tt (record cp { referenced_classes = cp.referenced_classes ++ t ∷ [] })
          ])) [
            | some i ↦ h
            | none ↦ record {
              written = h.written;
              counted = h.counted;
              fits = h.fits;
              writable = h.writable;
              cached = h.cached;
            }
          ]

-- The entry of a class over that of its name.
class_entry :
    {ks : List Constant} {cp : ConstantPool} (t : Text) (n : ℕ)
    → IsPool ks cp
    → Named ks n t
    → Yields
        (λ i. Grown ks (λ all. ClassNamed all i t))
        (intern (codes "c:" ++ t) (put_index 7 n) false cp)
unfolding Means takes_two IsWritable
class_entry {ks} {cp} t n h a =
    Yields-map (Interned ks (codes "c:" ++ t)) (λ i. Grown ks (λ all. ClassNamed all i t))
      (λ i cp' g. record {
        more = g.more;
        pool = g.pool;
        result =
            let (k, b, m) = g.result in
            let (j, e, c) = Means-class (ks ++ g.more) t k m in
            (j, subst (At (ks ++ g.more) i) e b, c);
      })
      (intern (codes "c:" ++ t) (put_index 7 n) false cp)
      (intern_lem (Constant.class n) (codes "c:" ++ t) (put_index 7 n) h (Writes-class n)
        (Index-writable h a) (t, a, refl))

pub class_info_lem :
    {ks : List Constant} {cp : ConstantPool} (t : Text)
    → IsPool ks cp
    → IsName t
    → Yields (λ i. Grown ks (λ all. ClassNamed all i t)) (class_info t cp)
unfolding class_info
class_info_lem {ks} {cp} t h ht =
    Yields-bind (λ _. IsPool ks) (λ i. Grown ks (λ all. ClassNamed all i t)) (refer t) _ cp
      (IsPool-refer t h)
      (λ _ cp₁ h₁.
        Yields-bind (λ n. Grown ks (λ all. Named all n t))
          (λ i. Grown ks (λ all. ClassNamed all i t)) (utf8 t) _ cp₁ (utf8_lem t h₁ ht)
          (λ n cp₂ g.
            Yields-map (λ i. Grown (ks ++ g.more) (λ all. ClassNamed all i t))
              (λ i. Grown ks (λ all. ClassNamed all i t))
              (λ i cp₃ g'. Grown-again g.more (λ all. ClassNamed all i t) g') _
              (class_entry t n g.pool g.result)))

-- The written pool, read.
pub Parses-written :
    {ks : List Constant} {cp : ConstantPool}
    → IsPool ks cp
    → Parses read_constant_pool (write_into cp empty_buffer).bytes (none ∷ slots ks)
unfolding write_into append_buf put_u2 pool_bytes
Parses-written {ks} {cp} h =
    subst (λ bs. Parses read_constant_pool bs (none ∷ slots ks))
      (ap₂ (λ n bs. u2_bytes n ++ bs) (omega (arith, h.counted)) (sym h.written))
      (read_constant_pool_lem ks h.writable (omega (arith, h.counted, h.fits)))

pub pool_at_found :
    {ks : List Constant} {i : ℕ} {k : Constant} → At ks i k → pool_at (none ∷ slots ks) i ≡ some k
unfolding pool_at
pool_at_found h = rw (pool_at, h.found) refl

pub pool_class_name_found :
    {ks : List Constant} {i : ℕ} (t : Text)
    → ClassNamed ks i t
    → pool_class_name (none ∷ slots ks) i ≡ t
unfolding pool_class_name pool_utf8
pool_class_name_found t (n, a, b) =
    rw (pool_class_name, pool_at_found a, pool_utf8, pool_at_found b) refl

-- Let the pool be in order and the name be one that an entry can hold. Unless the pool is full,
-- `class_info` returns an index under which a reader of the written pool finds the class of that
-- name, and finds at each older index the entry that was there. It panics only with more than 65534
-- slots taken.
pub class_info-read :
    {ks : List Constant} {cp : ConstantPool} (t : Text)
    → IsPool ks cp
    → IsName t
    → Yields
        (λ i cp'.
          (pool : PoolSlots) × Parses read_constant_pool (write_into cp' empty_buffer).bytes pool
          × (pool_class_name pool i ≡ t)
          × ((j : ℕ) (k : Constant) → At ks j k → pool_at pool j ≡ some k))
        (class_info t cp)
class_info-read {ks} {cp} t h ht =
    Yields-map (λ i. Grown ks (λ all. ClassNamed all i t)) _
      (λ i cp' g. (
        none ∷ slots (ks ++ g.more),
        Parses-written g.pool,
        pool_class_name_found t g.result,
        λ j k a. pool_at_found (At-append g.more a),
      ))
      (class_info t cp) (class_info_lem t h ht)
