-- ===== src/Compiler/ConstantPool/Members.antt =====
-- The entries of fields and methods, and what a reader of the written pool finds at their indices.
use cappu.Base.{
  ℕ, ◌<◌, ◌++◌, false, List, [], ◌∷◌, Text, codes, ◌≡◌, refl, ap, sym, ◌∙◌, subst, append_assoc,
}
use cappu.Compiler.ByteBuffer.{ByteBuffer, u1_bytes, u2_bytes, put_u1, put_u2}
use cappu.Compiler.ClassFile.Entries.{IsWritable, constant_bytes}
use cappu.Compiler.ClassFile.Constants.{Constant}
use cappu.Compiler.ClassFile.Pool.{takes_two}
use cappu.Compiler.ConstantPool.{
  ConstantPool, intern, utf8, class_info, name_and_type, member, put_indices,
}
use cappu.Compiler.ConstantPool.Meaning.{
  At, Means, Named, ClassNamed, NameAndType, MemberKey, At-append, ClassNamed-append,
}
use cappu.Compiler.ConstantPool.Invariant.{IsPool, Yields, Yields-bind, Grown, Interned, intern_lem}
use cappu.Compiler.ConstantPool.Names.{
  IsName, Yields-map, Grown-again, Index-writable, utf8_lem, class_info_lem,
}
use cappu.Compiler.ConstantPool.Keys.{
  pair_text, member_text, PairNamed, MemberNamed, Means-name_and_type, member_assoc,
  Means-methodref, Means-interface_methodref,
}

Writes-indices :
    (tag i j : ℕ) (b : ByteBuffer)
    → (put_indices tag i j b).bytes ≡ b.bytes ++ (u1_bytes tag ++ (u2_bytes i ++ u2_bytes j))
unfolding put_u2 put_u1
Writes-indices tag i j b = rw (append_assoc (b.bytes ++ u1_bytes tag), append_assoc b.bytes) refl

NameAndType-append :
    {ks : List Constant} (more : List Constant) {i : ℕ} {name desc : Text}
    → NameAndType ks i name desc
    → NameAndType (ks ++ more) i name desc
NameAndType-append more (a, b, h, k, l) =
    (a, b, At-append more h, At-append more k, At-append more l)

pair_entry :
    {ks : List Constant} {cp : ConstantPool} (name desc : Text) (i j : ℕ)
    → IsPool ks cp
    → Named ks i name
    → Named ks j desc
    → Yields
        (λ n. Grown ks (λ all. PairNamed all n (pair_text name desc)))
        (intern (codes "nt:" ++ name ++ codes ":" ++ desc) (put_indices 12 i j) false cp)
unfolding Means takes_two IsWritable constant_bytes
pair_entry {ks} {cp} name desc i j h a b =
    Yields-map (Interned ks (codes "nt:" ++ pair_text name desc))
      (λ n. Grown ks (λ all. PairNamed all n (pair_text name desc)))
      (λ n cp' g. record {
        more = g.more;
        pool = g.pool;
        result =
            let (k, at, m) = g.result in
            let (i', j', e, p, q, c, d, same) =
              Means-name_and_type (ks ++ g.more) (pair_text name desc) k m in
            (p, q, (i', j', subst (At (ks ++ g.more) n) e at, c, d), same);
      })
      _
      (intern_lem (Constant.name_and_type i j) (codes "nt:" ++ pair_text name desc)
        (put_indices 12 i j) h (Writes-indices 12 i j) (Index-writable h a, Index-writable h b)
        (name, desc, a, b, refl))

name_and_type_lem :
    {ks : List Constant} {cp : ConstantPool} (name desc : Text)
    → IsPool ks cp
    → IsName name
    → IsName desc
    → Yields
        (λ n. Grown ks (λ all. PairNamed all n (pair_text name desc)))
        (name_and_type name desc cp)
unfolding name_and_type
name_and_type_lem {ks} {cp} name desc h hn hd =
    let Q : ℕ → ConstantPool → Type 0 =
      λ n. Grown ks (λ all. PairNamed all n (pair_text name desc)) in
    Yields-bind (λ i. Grown ks (λ all. Named all i name)) Q (utf8 name) _ cp (utf8_lem name h hn)
      (λ i cp₁ g.
        Yields-bind (λ j. Grown (ks ++ g.more) (λ all. Named all j desc)) Q (utf8 desc) _ cp₁
          (utf8_lem desc g.pool hd)
          (λ j cp₂ g'.
            Yields-map
              (λ n.
                Grown ((ks ++ g.more) ++ g'.more) (λ all. PairNamed all n (pair_text name desc)))
              Q (λ n cp₃ g''. Grown-again g.more _ (Grown-again g'.more _ g'')) _
              (pair_entry name desc i j g'.pool (At-append g'.more g.result) g'.result)))

key_assoc :
    (prefix class name desc : Text)
    → prefix ++ class ++ codes ":" ++ name ++ codes ":" ++ desc
      ≡ prefix ++ member_text class name desc
key_assoc [] class name desc = member_assoc class name desc
key_assoc (x ∷ prefix) class name desc = ap (λ t. x ∷ t) (key_assoc prefix class name desc)

-- The entry of a member of one of the kinds, which differ in the tag and in the start of the key.
pub record MemberKind (prefix : Text) (tag : ℕ) (make : ℕ → ℕ → Constant) : Type 0 where
  pub keyed :
      (ks : List Constant) (c nt : ℕ) (key : Text)
      → MemberKey ks c nt prefix key
      → Means ks (make c nt) key
  pub inverse :
      (ks : List Constant) (v : Text) (k : Constant)
      → Means ks k (prefix ++ v)
      → (c nt : ℕ) × (k ≡ make c nt) × MemberNamed ks c nt v
  pub laid_out :
      (c nt : ℕ) → constant_bytes (make c nt) ≡ u1_bytes tag ++ (u2_bytes c ++ u2_bytes nt)
  pub narrow : (c nt : ℕ) → takes_two (make c nt) ≡ false
  pub in_range : (c nt : ℕ) → c < 65536 → nt < 65536 → IsWritable (make c nt)

pub methodref-kind : MemberKind (codes "m:") 10 Constant.methodref
unfolding Means constant_bytes takes_two IsWritable
methodref-kind = record {
  keyed = λ ks c nt key h. h;
  inverse = Means-methodref;
  laid_out = λ c nt. refl;
  narrow = λ c nt. refl;
  in_range = λ c nt h k. (h, k);
}

pub interface_methodref-kind : MemberKind (codes "im:") 11 Constant.interface_methodref
unfolding Means constant_bytes takes_two IsWritable
interface_methodref-kind = record {
  keyed = λ ks c nt key h. h;
  inverse = Means-interface_methodref;
  laid_out = λ c nt. refl;
  narrow = λ c nt. refl;
  in_range = λ c nt h k. (h, k);
}

module _ (prefix : Text) (tag : ℕ) (make : ℕ → ℕ → Constant)
    (kind : MemberKind prefix tag make) where
  abbrev pub Found : Text → List Constant → ℕ → Type 0
  Found w all i = (c nt : ℕ) × At all i (make c nt) × MemberNamed all c nt w

  -- With the index of the class, and one of the name and the type in one text.
  member_entry :
      {ks : List Constant} {cp : ConstantPool} (class name desc : Text) (c nt : ℕ)
      → IsPool ks cp
      → ClassNamed ks c class
      → PairNamed ks nt (pair_text name desc)
      → Yields
          (λ i. Grown ks (λ all. Found (member_text class name desc) all i))
          (intern
            (prefix ++ class ++ codes ":" ++ name ++ codes ":" ++ desc)
            (put_indices tag c nt)
            false
            cp)
  member_entry {ks} {cp} class name desc c nt h (n, a, b) (name', desc', (i, j, d, d', d''), same) =
      let w = member_text class name desc in
      let key : (prefix ++ class ++ codes ":" ++ name' ++ codes ":" ++ desc' ≡ prefix ++ w) =
        key_assoc prefix class name' desc' ∙ ap (λ t. prefix ++ (class ++ codes ":" ++ t)) same in
      Yields-map (Interned ks (prefix ++ w)) (λ i. Grown ks (λ all. Found w all i))
        (λ i cp' g. record {
          more = g.more;
          pool = g.pool;
          result =
              let (k, at, m) = g.result in
              let (c', nt', e, found) = kind.inverse (ks ++ g.more) w k m in
              (c', nt', subst (At (ks ++ g.more) i) e at, found);
        })
        _
        (rw (key_assoc prefix class name desc, ← kind.narrow c nt)
          (intern_lem (make c nt) (prefix ++ w) (put_indices tag c nt) h
            (λ b. Writes-indices tag c nt b ∙ ap (λ bs. b.bytes ++ bs) (sym (kind.laid_out c nt)))
            (kind.in_range c nt (Index-writable h a) (Index-writable h d))
            (kind.keyed ks c nt (prefix ++ w)
              (class, name', desc', (n, a, b), (i, j, d, d', d''), sym key))))

  pub member_lem :
      {ks : List Constant} {cp : ConstantPool} (class name desc : Text)
      → IsPool ks cp
      → IsName class
      → IsName name
      → IsName desc
      → Yields
          (λ i. Grown ks (λ all. Found (member_text class name desc) all i))
          (member prefix tag class name desc cp)
  member_lem {ks} {cp} class name desc h hc hn hd =
      let Q : ℕ → ConstantPool → Type 0 =
        λ i. Grown ks (λ all. Found (member_text class name desc) all i) in
      Yields-bind (λ c. Grown ks (λ all. ClassNamed all c class)) Q (class_info class) _ cp
        (class_info_lem class h hc)
        (λ c cp₁ g.
          Yields-bind (λ nt. Grown (ks ++ g.more) (λ all. PairNamed all nt (pair_text name desc))) Q
            (name_and_type name desc) _ cp₁ (name_and_type_lem name desc g.pool hn hd)
            (λ nt cp₂ g'.
              Yields-map
                (λ i.
                  Grown ((ks ++ g.more) ++ g'.more)
                    (λ all. Found (member_text class name desc) all i))
                Q (λ i cp₃ g''. Grown-again g.more _ (Grown-again g'.more _ g'')) _
                (member_entry class name desc c nt g'.pool (ClassNamed-append g'.more g.result)
                  g'.result)))
