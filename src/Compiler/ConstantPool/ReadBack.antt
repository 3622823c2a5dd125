-- ===== src/Compiler/ConstantPool/ReadBack.antt =====
-- What a reader of the written pool finds at the index of a method.
use cappu.Base.{
  ℕ, ◌++◌, Bool, true, false, none, some, List, [], ◌∷◌, ◌==◌, Text, codes, All, All-append_left,
  All-append_right, drop, get_or, ◌≡◌, refl, ap, ap₂, sym, subst, arith,
}
use cappu.Compiler.ByteBuffer.{empty_buffer}
use cappu.Compiler.ClassFile.Constants.{
  Constant, PoolSlots, pool_at, pool_utf8, pool_name_and_type, MemberRef, member_of,
  pool_member_ref, read_constant_pool,
}
use cappu.Compiler.ClassFile.Parses.{Parses}
use cappu.Compiler.ClassFile.Pool.{slots}
use cappu.Compiler.ConstantPool.{ConstantPool, methodref, interface_methodref, member, write_into}
use cappu.Compiler.ConstantPool.Meaning.{At, At-append}
use cappu.Compiler.ConstantPool.Invariant.{IsPool, Yields, Grown}
use cappu.Compiler.ConstantPool.Names.{
  IsName, Yields-map, Parses-written, pool_at_found, pool_class_name_found,
}
use cappu.Compiler.ConstantPool.Keys.{differ, pair_text, member_text, MemberNamed}
use cappu.Compiler.ConstantPool.Members.{
  MemberKind, Found, member_lem, methodref-kind, interface_methodref-kind,
}

-- Names and descriptors have no colon, which separates the parts of a key.
abbrev pub HasNoColon : Text → Type 0
HasNoColon = All (λ c. (c == 58) ≡ false)

no_colon_inside : (a b : Text) → HasNoColon (a ++ codes ":" ++ b) → ⊥
no_colon_inside a b h =
    let colon = All-append_right _ a (codes ":") (All-append_left _ (a ++ codes ":") b h) in
    ground (arith, colon.0)

-- The parts of a text that a colon separates.
split_colon :
    (a b a' b' : Text)
    → HasNoColon a
    → HasNoColon b
    → a' ++ codes ":" ++ b' ≡ a ++ codes ":" ++ b
    → (a' ≡ a) × (b' ≡ b)
split_colon [] b [] b' ha hb e = (refl, ap (drop 1) e)
split_colon [] b (x ∷ a') b' ha hb e =
    let colon : HasNoColon (a' ++ codes ":" ++ b') = subst HasNoColon (sym (ap (drop 1) e)) hb in
    absurd (no_colon_inside a' b' colon)
split_colon (y ∷ a) b [] b' (hy, ha) hb e = absurd (differ e (ground (arith, hy)))
split_colon (y ∷ a) b (x ∷ a') b' (hy, ha) hb e =
    let (s, t) = split_colon a b a' b' ha hb (ap (drop 1) e) in
    (ap₂ (λ z zs. z ∷ zs) (ap (λ zs. get_or zs 0 0) e) s, t)

-- The three parts of a member.
split_member :
    (a n d a' n' d' : Text)
    → HasNoColon a
    → HasNoColon n
    → HasNoColon d
    → member_text a' n' d' ≡ member_text a n d
    → (a' ≡ a) × (n' ≡ n) × (d' ≡ d)
split_member [] n d [] n' d' ha hn hd e =
    let (s, t) = split_colon n d n' d' hn hd (ap (drop 1) e) in (refl, s, t)
split_member [] n d (x ∷ a') n' d' ha hn hd e =
    let (s, t) = split_colon n d a' (pair_text n' d') hn hd (ap (drop 1) e) in
    absurd (no_colon_inside n' d' (subst HasNoColon (sym t) hd))
split_member (y ∷ a) n d [] n' d' (hy, ha) hn hd e = absurd (differ e (ground (arith, hy)))
split_member (y ∷ a) n d (x ∷ a') n' d' (hy, ha) hn hd e =
    let (s, t, u) = split_member a n d a' n' d' ha hn hd (ap (drop 1) e) in
    (ap₂ (λ z zs. z ∷ zs) (ap (λ zs. get_or zs 0 0) e) s, t, u)

-- Texts that a class, a name and a descriptor can be.
pub record IsMember (class name desc : Text) : Type 0 where
  pub class_fits : IsName class
  pub name_fits : IsName name
  pub desc_fits : IsName desc
  pub class_plain : HasNoColon class
  pub name_plain : HasNoColon name
  pub desc_plain : HasNoColon desc

member_of_found :
    {ks : List Constant} (c nt : ℕ) (class name desc : Text) (interface : Bool)
    → IsMember class name desc
    → MemberNamed ks c nt (member_text class name desc)
    → member_of (none ∷ slots ks) c nt interface
      ≡ some (record { owner = class; name = name; descriptor = desc; interface = interface })
unfolding member_of pool_name_and_type pool_utf8
member_of_found c nt class name desc interface h (class', name', desc', cn, (i, j, a, b, d), e) =
    let (s, t, u) =
      split_member class name desc class' name' desc' h.class_plain h.name_plain h.desc_plain e in
    rw
      (
        member_of,
        pool_name_and_type,
        pool_at_found a,
        pool_utf8,
        pool_at_found b,
        pool_at_found d,
        pool_class_name_found class' cn,
        s,
        t,
        u,
      )
      refl

-- What a reader finds at the index of a member.
abbrev pub ReadsMember : List Constant → MemberRef → ℕ → ConstantPool → Type 0
ReadsMember ks ref i cp =
    (pool : PoolSlots) × Parses read_constant_pool (write_into cp empty_buffer).bytes pool
    × (pool_member_ref pool i ≡ some ref)
    × ((j : ℕ) (k : Constant) → At ks j k → pool_at pool j ≡ some k)

module _ (prefix : Text) (tag : ℕ) (make : ℕ → ℕ → Constant)
    (kind : MemberKind prefix tag make) where
  member-read :
      {ks : List Constant} {cp : ConstantPool} (class name desc : Text) (ref : MemberRef)
      → IsPool ks cp
      → IsMember class name desc
      → ((all : List Constant) (i c nt : ℕ)
          → At all i (make c nt)
          → MemberNamed all c nt (member_text class name desc)
          → pool_member_ref (none ∷ slots all) i ≡ some ref)
      → Yields (ReadsMember ks ref) (member prefix tag class name desc cp)
  member-read {ks} {cp} class name desc ref h hm found =
      Yields-map
        (λ i. Grown ks (λ all. Found prefix tag make kind (member_text class name desc) all i))
        (ReadsMember ks ref)
        (λ i cp' g.
          let (c, nt, at, named) = g.result in
          (
            none ∷ slots (ks ++ g.more),
            Parses-written g.pool,
            found (ks ++ g.more) i c nt at named,
            λ j k a. pool_at_found (At-append g.more a),
          ))
        _
        (member_lem prefix tag make kind class name desc h hm.class_fits hm.name_fits hm.desc_fits)

-- Let the pool be in order, and let the class, the name and the descriptor have no colon and be texts
-- that an entry can hold. Unless it panics with more than 65534 slots taken, `methodref` and
-- `interface_methodref` return an index under which a reader of the written pool finds the method of
-- that class, name and descriptor, marked as one of an interface for the latter, and finds at each
-- older index the entry that was there.
pub methodref-read :
    {ks : List Constant} {cp : ConstantPool} (class name desc : Text)
    → IsPool ks cp
    → IsMember class name desc
    → Yields
        (ReadsMember ks
          (record { owner = class; name = name; descriptor = desc; interface = false }))
        (methodref class name desc cp)
      × Yields
          (ReadsMember ks
            (record { owner = class; name = name; descriptor = desc; interface = true }))
          (interface_methodref class name desc cp)
unfolding methodref interface_methodref pool_member_ref
methodref-read class name desc h hm = (
  member-read _ _ _ methodref-kind class name desc _ h hm (λ all i c nt at named.
      rw (pool_member_ref, pool_at_found at) (member_of_found c nt class name desc false hm named)),
  member-read _ _ _ interface_methodref-kind class name desc _ h hm (λ all i c nt at named.
      rw (pool_member_ref, pool_at_found at) (member_of_found c nt class name desc true hm named)),
)
