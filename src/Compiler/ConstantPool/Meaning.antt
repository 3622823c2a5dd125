-- ===== src/Compiler/ConstantPool/Meaning.antt =====
-- What the entries of a constant pool stand for, and how their keys say it.
use cappu.Base.{
  ℕ, zero, suc, ◌<◌, ◌++◌, Option, none, some, List, [], ◌∷◌, Text, codes, decimal, length,
  get_elem?, ◌≡◌, refl, inl, inr, arith, Bool-cases,
}
use cappu.Compiler.ClassFile.Constants.{Constant}
use cappu.Compiler.ClassFile.Pool.{takes_two, slots}
use cappu.Compiler.ConstantPool.{signed_decimal}

-- The slot of an index holds this entry.
pub record At (ks : List Constant) (i : ℕ) (k : Constant) : Type 0 where
  pub found : get_elem? (none ∷ slots ks) i ≡ some (some k)

-- The index of a name.
abbrev pub Named : List Constant → ℕ → Text → Type 0
Named ks i t = At ks i (Constant.utf8 t)

abbrev pub ClassNamed : List Constant → ℕ → Text → Type 0
ClassNamed ks i t = (n : ℕ) × At ks i (Constant.class n) × Named ks n t

abbrev pub NameAndType : List Constant → ℕ → Text → Text → Type 0
NameAndType ks i name desc =
    (a b : ℕ) × At ks i (Constant.name_and_type a b) × Named ks a name × Named ks b desc

-- The key of a name, behind a tag.
abbrev NameKey : List Constant → ℕ → Text → Text → Type 0
NameKey ks i tag key = (t : Text) × Named ks i t × (key ≡ tag ++ t)

abbrev pub MemberKey : List Constant → ℕ → ℕ → Text → Text → Type 0
MemberKey ks c nt tag key =
    (class name desc : Text) × ClassNamed ks c class
    × NameAndType ks nt name desc
    × (key ≡ tag ++ class ++ codes ":" ++ name ++ codes ":" ++ desc)

-- What the entry stands for is what the key says.
unfoldable pub Means : List Constant → Constant → Text → Type 0
Means ks (Constant.utf8 t) key = key ≡ codes "u:" ++ t
Means ks (Constant.int v) key = (w : ℕ) × (key ≡ codes "i:" ++ signed_decimal w)
Means ks (Constant.float v) key = key ≡ codes "f:" ++ decimal v
Means ks (Constant.long v) key = key ≡ codes "l:" ++ signed_decimal v
Means ks (Constant.double v) key = (w : Text) × (key ≡ codes "d:" ++ w)
Means ks (Constant.class i) key = NameKey ks i (codes "c:") key
Means ks (Constant.string i) key = NameKey ks i (codes "s:") key
Means ks (Constant.fieldref c nt) key = MemberKey ks c nt (codes "f:") key
Means ks (Constant.methodref c nt) key = MemberKey ks c nt (codes "m:") key
Means ks (Constant.interface_methodref c nt) key = MemberKey ks c nt (codes "im:") key
Means ks (Constant.name_and_type i j) key =
    (name desc : Text) × Named ks i name
    × Named ks j desc
    × (key ≡ codes "nt:" ++ name ++ codes ":" ++ desc)
Means ks (Constant.method_handle kind i) key = (w : Text) × (key ≡ codes "mh:" ++ w)
Means ks (Constant.method_type i) key = NameKey ks i (codes "mt:") key
Means ks (Constant.dynamic b nt) key = ⊥
Means ks (Constant.invoke_dynamic b nt) key = (w : Text) × (key ≡ codes "indy:" ++ w)
Means ks (Constant.java_module i) key = ⊥
Means ks (Constant.java_package i) key = ⊥

pub slots-append : (ks more : List Constant) → slots (ks ++ more) ≡ slots ks ++ slots more
unfolding slots
slots-append [] more = refl
slots-append (k ∷ ks) more = ground (arith, slots-append ks more)

module _ {A : Type 0} where
  get_elem?-append :
      (xs ys : List A) (i : ℕ) (x : A) → get_elem? xs i ≡ some x → get_elem? (xs ++ ys) i ≡ some x
  get_elem?-append [] ys i x e = cc
  get_elem?-append (y ∷ xs) ys zero x e = e
  get_elem?-append (y ∷ xs) ys (suc i) x e = get_elem?-append xs ys i x e

  get_elem?-behind : (xs ys : List A) (x : A) → get_elem? (xs ++ x ∷ ys) (length xs) ≡ some x
  get_elem?-behind [] ys x = refl
  get_elem?-behind (y ∷ xs) ys x = get_elem?-behind xs ys x

  get_elem?_lt : (xs : List A) (i : ℕ) (x : A) → get_elem? xs i ≡ some x → i < length xs
  get_elem?_lt [] i x e = cc
  get_elem?_lt (y ∷ xs) zero x e = omega arith
  get_elem?_lt (y ∷ xs) (suc i) x e = omega (arith, get_elem?_lt xs i x e)

pub At-append :
    {ks : List Constant} (more : List Constant) {i : ℕ} {k : Constant}
    → At ks i k
    → At (ks ++ more) i k
At-append {ks} more {i} {k} h = record {
  found =
      rw (slots-append ks more)
        (get_elem?-append (none ∷ slots ks) (slots more) i (some k) h.found);
}

slots-one : (k : Constant) → (rest : List (Option Constant)) × (slots (k ∷ []) ≡ some k ∷ rest)
unfolding slots
slots-one k = elim (Bool-cases (takes_two k)) [
  | inl e ↦ (none ∷ [], rw e refl)
  | inr e ↦ ([], rw e refl)
]

pub At-new :
    (ks : List Constant) (k : Constant) (i : ℕ)
    → i ≡ suc (length (slots ks))
    → At (ks ++ k ∷ []) i k
At-new ks k i e =
    let (rest, one) = slots-one k in
    record {
      found =
          rw (e, slots-append ks (k ∷ []), one) (get_elem?-behind (none ∷ slots ks) rest (some k));
    }

pub At-lt : {ks : List Constant} {i : ℕ} {k : Constant} → At ks i k → i < suc (length (slots ks))
At-lt {ks} {i} {k} h = get_elem?_lt (none ∷ slots ks) i (some k) h.found

-- What a key says stays true when entries are added.
module _ (more : List Constant) where
  pub ClassNamed-append :
      {ks : List Constant} {i : ℕ} {t : Text} → ClassNamed ks i t → ClassNamed (ks ++ more) i t
  ClassNamed-append (n, a, b) = (n, At-append more a, At-append more b)

  MemberKey-append :
      {ks : List Constant} {c nt : ℕ} (tag key : Text)
      → MemberKey ks c nt tag key
      → MemberKey (ks ++ more) c nt tag key
  MemberKey-append tag key (class, name, desc, (n, a, a'), (i, j, b, b', b''), e) = (
    class,
    name,
    desc,
    (n, At-append more a, At-append more a'),
    (i, j, At-append more b, At-append more b', At-append more b''),
    e,
  )

  pub Means-append :
      (ks : List Constant) (k : Constant) (key : Text) → Means ks k key → Means (ks ++ more) k key
  unfolding Means
  Means-append ks (Constant.utf8 t) key h = h
  Means-append ks (Constant.int v) key h = h
  Means-append ks (Constant.float v) key h = h
  Means-append ks (Constant.long v) key h = h
  Means-append ks (Constant.double v) key h = h
  Means-append ks (Constant.class i) key (t, a, e) = (t, At-append more a, e)
  Means-append ks (Constant.string i) key (t, a, e) = (t, At-append more a, e)
  Means-append ks (Constant.fieldref c nt) key h = MemberKey-append (codes "f:") key h
  Means-append ks (Constant.methodref c nt) key h = MemberKey-append (codes "m:") key h
  Means-append ks (Constant.interface_methodref c nt) key h = MemberKey-append (codes "im:") key h
  Means-append ks (Constant.name_and_type i j) key (t, u, a, b, e) =
      (t, u, At-append more a, At-append more b, e)
  Means-append ks (Constant.method_handle kind i) key h = h
  Means-append ks (Constant.method_type i) key (t, a, e) = (t, At-append more a, e)
  Means-append ks (Constant.dynamic b nt) key h = h
  Means-append ks (Constant.invoke_dynamic b nt) key h = h
  Means-append ks (Constant.java_module i) key h = h
  Means-append ks (Constant.java_package i) key h = h
