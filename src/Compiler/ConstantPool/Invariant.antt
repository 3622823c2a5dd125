-- ===== src/Compiler/ConstantPool/Invariant.antt =====
-- The entries that a constant pool holds, and that interning keeps them in agreement with the bytes,
-- the count and the cache.
use cappu.Base.{
  ℕ, ◌+◌, ◌<◌, ◌≤◌, ◌++◌, Bool, true, false, none, some, List, [], ◌∷◌, if◌then◌else◌, ltb, Text,
  length, length-append, lookup, lookup-cons, All, All-append, ◌≡◌, refl, ap, sym, ◌∙◌, subst, inl,
  inr, arith, append-nil, append_assoc, Bool-cases, Option-cases, ltb→lt,
}
use cappu.Compiler.ByteBuffer.{ByteBuffer}
use cappu.Compiler.ClassFile.Entries.{IsWritable, constant_bytes}
use cappu.Compiler.ClassFile.Constants.{Constant}
use cappu.Compiler.ClassFile.Pool.{takes_two, constants_bytes, slots}
use cappu.Compiler.ConstantPool.{
  ConstantPool, new_constant_pool, Outcome, done, panicked, Build, ◌>>=◌, grown, intern,
}
use cappu.Compiler.ConstantPool.Meaning.{At, Means, At-append, At-new, Means-append, slots-append}

-- The pool holds these entries in this order.
pub record IsPool (ks : List Constant) (cp : ConstantPool) : Type 0 where
  pub written : cp.entries.bytes ≡ constants_bytes ks
  pub counted : cp.count ≡ length (slots ks)
  pub fits : cp.count ≤ 0xfffe
  pub writable : All IsWritable ks
  pub cached :
      (key : Text) (i : ℕ)
      → lookup key cp.cache ≡ some i
      → (k : Constant) × At ks i k × Means ks k key

pub new_constant_pool-IsPool : IsPool [] new_constant_pool
unfolding constants_bytes slots lookup
new_constant_pool-IsPool = record {
  written = refl;
  counted = refl;
  fits = omega arith;
  writable = tt;
  cached = λ key i e. cc;
}

constants_bytes-append :
    (ks more : List Constant)
    → constants_bytes (ks ++ more) ≡ constants_bytes ks ++ constants_bytes more
unfolding constants_bytes
constants_bytes-append [] more = refl
constants_bytes-append (k ∷ ks) more =
    ap (λ bs. constant_bytes k ++ bs) (constants_bytes-append ks more)
    ∙ sym (append_assoc (constant_bytes k) (constants_bytes ks) (constants_bytes more))

constants_bytes-new :
    (ks : List Constant) (k : Constant)
    → constants_bytes (ks ++ k ∷ []) ≡ constants_bytes ks ++ constant_bytes k
unfolding constants_bytes
constants_bytes-new ks k =
    constants_bytes-append ks (k ∷ []) ∙ ap (λ bs. constants_bytes ks ++ bs) (append-nil _)

-- The writer appends the bytes of the entry.
abbrev pub Writes : (ByteBuffer → ByteBuffer) → Constant → Type 0
Writes write k = (b : ByteBuffer) → (write b).bytes ≡ b.bytes ++ constant_bytes k

length-slots_new :
    (ks : List Constant) (k : Constant)
    → length (slots (ks ++ k ∷ []))
      ≡ (if takes_two k then length (slots ks) + 2 else length (slots ks) + 1)
unfolding slots
length-slots_new ks k =
    ground (arith, slots-append ks (k ∷ []), length-append (slots ks) (slots (k ∷ [])))

-- A new entry whose key says what it stands for, with the cache that then knows the key.
IsPool-grown :
    {ks : List Constant} {cp : ConstantPool} (k : Constant) (key : Text)
    {write : ByteBuffer → ByteBuffer}
    → IsPool ks cp
    → Writes write k
    → IsWritable k
    → Means ks k key
    → (grown write (takes_two k) cp).count ≤ 0xfffe
    → IsPool
        (ks ++ k ∷ [])
        (record (grown write (takes_two k) cp) { cache = (key, cp.count + 1) ∷ cp.cache })
IsPool-grown {ks} {cp} k key {write} h w hk m le = record {
  written =
      w cp.entries ∙ ap (λ bs. bs ++ constant_bytes k) h.written ∙ sym (constants_bytes-new ks k);
  counted = rw h.counted (sym (length-slots_new ks k));
  fits = le;
  writable = All-append IsWritable ks (k ∷ []) h.writable (hk, tt);
  cached = λ key' i e. elim (lookup-cons key' key (cp.count + 1) i cp.cache e) [
    | inl (same, at) ↦ (
      k,
      At-new ks k i (omega (arith, h.counted, at)),
      subst (Means (ks ++ k ∷ []) k) same (Means-append (k ∷ []) ks k key m),
    )
    | inr old ↦
        let (k', a, m') = h.cached key' i old in
        (k', At-append (k ∷ []) a, Means-append (k ∷ []) ks k' key' m')
  ];
}

-- What holds when a method returns; when it panics, the pool is full.
abbrev pub Yields : {A : Type 0} → (A → ConstantPool → Type 0) → Outcome A → Type 0
Yields P (done a cp) = P a cp
Yields P (panicked cp) = 0xfffe < cp.count

Yields-outcome :
    {A B : Type 0} (P : A → ConstantPool → Type 0) (Q : B → ConstantPool → Type 0) (f : A → Build B)
    (o : Outcome A)
    → Yields P o
    → ((a : A) (cp' : ConstantPool) → P a cp' → Yields Q (f a cp'))
    → Yields Q (elim o [ done a cp' ↦ f a cp' | panicked cp' ↦ panicked cp' ])
Yields-outcome P Q f (done a cp) h k = k a cp h
Yields-outcome P Q f (panicked cp) h k = h

pub Yields-bind :
    {A B : Type 0} (P : A → ConstantPool → Type 0) (Q : B → ConstantPool → Type 0) (m : Build A)
    (f : A → Build B) (cp : ConstantPool)
    → Yields P (m cp)
    → ((a : A) (cp' : ConstantPool) → P a cp' → Yields Q (f a cp'))
    → Yields Q ((m >>= f) cp)
Yields-bind P Q m f cp h k = Yields-outcome P Q f (m cp) h k

-- The pool has perhaps more entries, and this holds of all of them.
pub record Grown (ks : List Constant) (Q : List Constant → Type 0) (cp : ConstantPool)
    : Type 0 where
  pub more : List Constant
  pub pool : IsPool (ks ++ more) cp
  pub result : Q (ks ++ more)

abbrev pub Interned : List Constant → Text → ℕ → ConstantPool → Type 0
Interned ks key i = Grown ks (λ all. (k : Constant) × At all i k × Means all k key)

module _ (key : Text) (write : ByteBuffer → ByteBuffer) (wide : Bool) (cp : ConstantPool) where
  intern-known : (i : ℕ) → lookup key cp.cache ≡ some i → intern key write wide cp ≡ done i cp
  unfolding intern
  intern-known i e = rw (intern, e) refl

  intern-full :
      lookup key cp.cache ≡ none
      → ltb 0xfffe (grown write wide cp).count ≡ true
      → intern key write wide cp ≡ panicked (grown write wide cp)
  unfolding intern
  intern-full e full = rw (intern, e, full) refl

  intern-new :
      lookup key cp.cache ≡ none
      → ltb 0xfffe (grown write wide cp).count ≡ false
      → intern key write wide cp
        ≡ done
            (cp.count + 1)
            (record (grown write wide cp) { cache = (key, cp.count + 1) ∷ cp.cache })
  unfolding intern
  intern-new e room = rw (intern, e, room) refl

-- Interning an entry under the key that says what it stands for.
pub intern_lem :
    {ks : List Constant} {cp : ConstantPool} (k : Constant) (key : Text)
    (write : ByteBuffer → ByteBuffer)
    → IsPool ks cp
    → Writes write k
    → IsWritable k
    → Means ks k key
    → Yields (Interned ks key) (intern key write (takes_two k) cp)
intern_lem {ks} {cp} k key write h w hk m = elim (Option-cases (lookup key cp.cache)) [
  | inr (i, e) ↦ rw (intern-known key write (takes_two k) cp i e) (record {
    more = [];
    pool = rw (append-nil ks) h;
    result = rw (append-nil ks) (h.cached key i e);
  })
  | inl e ↦ elim (Bool-cases (ltb 0xfffe (grown write (takes_two k) cp).count)) [
    | inl full ↦ rw (intern-full key write (takes_two k) cp e full) (ltb→lt _ _ full)
    | inr room ↦ rw (intern-new key write (takes_two k) cp e room) (record {
      more = k ∷ [];
      pool = IsPool-grown k key h w hk m (ground arith);
      result = (
        k,
        At-new ks k (cp.count + 1) (omega (arith, h.counted)),
        Means-append (k ∷ []) ks k key m,
      );
    })
  ]
]
