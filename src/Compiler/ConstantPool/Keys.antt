-- ===== src/Compiler/ConstantPool/Keys.antt =====
-- Keys of different kinds of entries differ, so a key says what the entry is.
use cappu.Base.{
  ℕ, ◌++◌, false, List, ◌∷◌, ◌==◌, Text, codes, drop, get_or, ◌≡◌, refl, ap, sym, ◌∙◌, subst, arith,
  append_assoc,
}
use cappu.Compiler.ClassFile.Constants.{Constant}
use cappu.Compiler.ConstantPool.Meaning.{Means, Named, ClassNamed, NameAndType}

pub differ : {x y : ℕ} {xs ys : List ℕ} → x ∷ xs ≡ y ∷ ys → (x == y) ≡ false → ⊥
differ {x} {y} e h = ground (arith, ap (λ zs. get_or zs 0 0) e)

pub Means-utf8 :
    (ks : List Constant) (v : Text) (k : Constant)
    → Means ks k (codes "u:" ++ v)
    → k ≡ Constant.utf8 v
unfolding Means
Means-utf8 ks v (Constant.utf8 t) e = ap Constant.utf8 (sym (ap (drop 2) e))
Means-utf8 ks v (Constant.int bits) (w, e) = absurd (differ e refl)
Means-utf8 ks v (Constant.float bits) e = absurd (differ e refl)
Means-utf8 ks v (Constant.long bits) e = absurd (differ e refl)
Means-utf8 ks v (Constant.double bits) (w, e) = absurd (differ e refl)
Means-utf8 ks v (Constant.class i) (t, a, e) = absurd (differ e refl)
Means-utf8 ks v (Constant.string i) (t, a, e) = absurd (differ e refl)
Means-utf8 ks v (Constant.fieldref c nt) (p, q, r, a, b, e) = absurd (differ e refl)
Means-utf8 ks v (Constant.methodref c nt) (p, q, r, a, b, e) = absurd (differ e refl)
Means-utf8 ks v (Constant.interface_methodref c nt) (p, q, r, a, b, e) = absurd (differ e refl)
Means-utf8 ks v (Constant.name_and_type i j) (p, q, a, b, e) = absurd (differ e refl)
Means-utf8 ks v (Constant.method_handle kind i) (w, e) = absurd (differ e refl)
Means-utf8 ks v (Constant.method_type i) (t, a, e) = absurd (differ e refl)
Means-utf8 ks v (Constant.invoke_dynamic b nt) (w, e) = absurd (differ e refl)
Means-utf8 ks v (Constant.dynamic b nt) h = absurd h
Means-utf8 ks v (Constant.java_module i) h = absurd h
Means-utf8 ks v (Constant.java_package i) h = absurd h

pub Means-class :
    (ks : List Constant) (v : Text) (k : Constant)
    → Means ks k (codes "c:" ++ v)
    → (n : ℕ) × (k ≡ Constant.class n) × Named ks n v
unfolding Means
Means-class ks v (Constant.utf8 t) e = absurd (differ e refl)
Means-class ks v (Constant.int bits) (w, e) = absurd (differ e refl)
Means-class ks v (Constant.float bits) e = absurd (differ e refl)
Means-class ks v (Constant.long bits) e = absurd (differ e refl)
Means-class ks v (Constant.double bits) (w, e) = absurd (differ e refl)
Means-class ks v (Constant.class i) (t, a, e) =
    (i, refl, subst (Named ks i) (sym (ap (drop 2) e)) a)
Means-class ks v (Constant.string i) (t, a, e) = absurd (differ e refl)
Means-class ks v (Constant.fieldref c nt) (p, q, r, a, b, e) = absurd (differ e refl)
Means-class ks v (Constant.methodref c nt) (p, q, r, a, b, e) = absurd (differ e refl)
Means-class ks v (Constant.interface_methodref c nt) (p, q, r, a, b, e) = absurd (differ e refl)
Means-class ks v (Constant.name_and_type i j) (p, q, a, b, e) = absurd (differ e refl)
Means-class ks v (Constant.method_handle kind i) (w, e) = absurd (differ e refl)
Means-class ks v (Constant.method_type i) (t, a, e) = absurd (differ e refl)
Means-class ks v (Constant.invoke_dynamic b nt) (w, e) = absurd (differ e refl)
Means-class ks v (Constant.dynamic b nt) h = absurd h
Means-class ks v (Constant.java_module i) h = absurd h
Means-class ks v (Constant.java_package i) h = absurd h

-- "name:desc" and "class:name:desc".
abbrev pub pair_text : Text → Text → Text
pair_text name desc = name ++ codes ":" ++ desc

abbrev pub member_text : Text → Text → Text → Text
member_text class name desc = class ++ codes ":" ++ pair_text name desc

-- The index of a name and a type that are written so.
abbrev pub PairNamed : List Constant → ℕ → Text → Type 0
PairNamed ks i w = (name desc : Text) × NameAndType ks i name desc × (pair_text name desc ≡ w)

abbrev pub MemberNamed : List Constant → ℕ → ℕ → Text → Type 0
MemberNamed ks c nt w =
    (class name desc : Text) × ClassNamed ks c class
    × NameAndType ks nt name desc
    × (member_text class name desc ≡ w)

pub Means-name_and_type :
    (ks : List Constant) (v : Text) (k : Constant)
    → Means ks k (codes "nt:" ++ v)
    → (i j : ℕ) × (k ≡ Constant.name_and_type i j)
      × (name desc : Text) × Named ks i name
      × Named ks j desc
      × (pair_text name desc ≡ v)
unfolding Means
Means-name_and_type ks v (Constant.utf8 t) e = absurd (differ e refl)
Means-name_and_type ks v (Constant.int bits) (w, e) = absurd (differ e refl)
Means-name_and_type ks v (Constant.float bits) e = absurd (differ e refl)
Means-name_and_type ks v (Constant.long bits) e = absurd (differ e refl)
Means-name_and_type ks v (Constant.double bits) (w, e) = absurd (differ e refl)
Means-name_and_type ks v (Constant.class i) (t, a, e) = absurd (differ e refl)
Means-name_and_type ks v (Constant.string i) (t, a, e) = absurd (differ e refl)
Means-name_and_type ks v (Constant.fieldref c nt) (p, q, r, a, b, e) = absurd (differ e refl)
Means-name_and_type ks v (Constant.methodref c nt) (p, q, r, a, b, e) = absurd (differ e refl)
Means-name_and_type ks v (Constant.interface_methodref c nt) (p, q, r, a, b, e) =
    absurd (differ e refl)
Means-name_and_type ks v (Constant.name_and_type i j) (p, q, a, b, e) =
    (i, j, refl, p, q, a, b, sym (ap (drop 3) e))
Means-name_and_type ks v (Constant.method_handle kind i) (w, e) = absurd (differ e refl)
Means-name_and_type ks v (Constant.method_type i) (t, a, e) = absurd (differ e refl)
Means-name_and_type ks v (Constant.invoke_dynamic b nt) (w, e) = absurd (differ e refl)
Means-name_and_type ks v (Constant.dynamic b nt) h = absurd h
Means-name_and_type ks v (Constant.java_module i) h = absurd h
Means-name_and_type ks v (Constant.java_package i) h = absurd h

-- The parts of a key are put together in another order.
pub member_assoc :
    (class name desc : Text)
    → class ++ codes ":" ++ name ++ codes ":" ++ desc ≡ member_text class name desc
member_assoc class name desc =
    ap (λ w. w ++ desc) (append_assoc (class ++ codes ":") name (codes ":"))
    ∙ append_assoc (class ++ codes ":") (name ++ codes ":") desc

pub Means-methodref :
    (ks : List Constant) (v : Text) (k : Constant)
    → Means ks k (codes "m:" ++ v)
    → (c nt : ℕ) × (k ≡ Constant.methodref c nt) × MemberNamed ks c nt v
unfolding Means
Means-methodref ks v (Constant.utf8 t) e = absurd (differ e refl)
Means-methodref ks v (Constant.int bits) (w, e) = absurd (differ e refl)
Means-methodref ks v (Constant.float bits) e = absurd (differ e refl)
Means-methodref ks v (Constant.long bits) e = absurd (differ e refl)
Means-methodref ks v (Constant.double bits) (w, e) = absurd (differ e refl)
Means-methodref ks v (Constant.class i) (t, a, e) = absurd (differ e refl)
Means-methodref ks v (Constant.string i) (t, a, e) = absurd (differ e refl)
Means-methodref ks v (Constant.fieldref c nt) (p, q, r, a, b, e) = absurd (differ e refl)
Means-methodref ks v (Constant.methodref c nt) (p, q, r, a, b, e) =
    (c, nt, refl, (p, q, r, a, b, sym (member_assoc p q r) ∙ sym (ap (drop 2) e)))
Means-methodref ks v (Constant.interface_methodref c nt) (p, q, r, a, b, e) = absurd (differ e refl)
Means-methodref ks v (Constant.name_and_type i j) (p, q, a, b, e) = absurd (differ e refl)
Means-methodref ks v (Constant.method_handle kind i) (w, e) = absurd (differ (ap (drop 1) e) refl)
Means-methodref ks v (Constant.method_type i) (t, a, e) = absurd (differ (ap (drop 1) e) refl)
Means-methodref ks v (Constant.invoke_dynamic b nt) (w, e) = absurd (differ e refl)
Means-methodref ks v (Constant.dynamic b nt) h = absurd h
Means-methodref ks v (Constant.java_module i) h = absurd h
Means-methodref ks v (Constant.java_package i) h = absurd h

pub Means-interface_methodref :
    (ks : List Constant) (v : Text) (k : Constant)
    → Means ks k (codes "im:" ++ v)
    → (c nt : ℕ) × (k ≡ Constant.interface_methodref c nt) × MemberNamed ks c nt v
unfolding Means
Means-interface_methodref ks v (Constant.utf8 t) e = absurd (differ e refl)
Means-interface_methodref ks v (Constant.int bits) (w, e) = absurd (differ (ap (drop 1) e) refl)
Means-interface_methodref ks v (Constant.float bits) e = absurd (differ e refl)
Means-interface_methodref ks v (Constant.long bits) e = absurd (differ e refl)
Means-interface_methodref ks v (Constant.double bits) (w, e) = absurd (differ e refl)
Means-interface_methodref ks v (Constant.class i) (t, a, e) = absurd (differ e refl)
Means-interface_methodref ks v (Constant.string i) (t, a, e) = absurd (differ e refl)
Means-interface_methodref ks v (Constant.fieldref c nt) (p, q, r, a, b, e) = absurd (differ e refl)
Means-interface_methodref ks v (Constant.methodref c nt) (p, q, r, a, b, e) = absurd (differ e refl)
Means-interface_methodref ks v (Constant.interface_methodref c nt) (p, q, r, a, b, e) =
    (c, nt, refl, (p, q, r, a, b, sym (member_assoc p q r) ∙ sym (ap (drop 3) e)))
Means-interface_methodref ks v (Constant.name_and_type i j) (p, q, a, b, e) = absurd (differ e refl)
Means-interface_methodref ks v (Constant.method_handle kind i) (w, e) = absurd (differ e refl)
Means-interface_methodref ks v (Constant.method_type i) (t, a, e) = absurd (differ e refl)
Means-interface_methodref ks v (Constant.invoke_dynamic b nt) (w, e) =
    absurd (differ (ap (drop 1) e) refl)
Means-interface_methodref ks v (Constant.dynamic b nt) h = absurd h
Means-interface_methodref ks v (Constant.java_module i) h = absurd h
Means-interface_methodref ks v (Constant.java_package i) h = absurd h
