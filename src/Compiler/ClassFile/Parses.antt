-- ===== src/Compiler/ClassFile/Parses.antt =====
-- What the readers of class files make of the bytes of a value, and of a part of them.
use cappu.Compiler.ByteBuffer.{u1_bytes, u2_bytes, u4_bytes}
use cappu.Compiler.ClassFile.Cursor.{
  Cursor, Reader, ◌>>=◌, pure, truncated, require, advance, u1, u2, u4, slice,
}
use cappu.Base.{
  ℕ, ◌+◌, ◌*◌, ◌<◌, ◌++◌, ok, err, List, [], ◌∷◌, length, get_or, take, drop, arith, ◌≡◌, refl, ap,
  ap₂, ◌⊎◌, inl, inr, append_assoc, append-nil, length-append, drop-append_self, take-append_self,
}

-- The cursor between what is read and what is ahead.
abbrev pub cursor_at : List ℕ → List ℕ → Cursor
cursor_at before ahead = record { b = before ++ ahead; at = length before }

-- The reader takes these bytes, whatever surrounds them, and returns this value; of fewer of them it
-- reports a truncated class file.
pub record Parses {ℓ} {A : Type ℓ} (r : Reader A) (bs : List ℕ) (a : A) : Type ℓ where
  pub whole :
      (before rest : List ℕ)
      → r (cursor_at before (bs ++ rest)) ≡ ok (a, cursor_at (before ++ bs) rest)
  pub cut_off :
      (before short more : List ℕ)
      → short ++ more ≡ bs
      → length short < length bs
      → r (cursor_at before short) ≡ err truncated

-- The head of a cons.
tails : (x y : ℕ) (xs ys : List ℕ) → x ∷ xs ≡ y ∷ ys → (x ≡ y) × (xs ≡ ys)
tails x y xs ys e = (ap (λ zs. get_or zs 0 0) e, ap (drop 1) e)

-- A first part of two lists ends in the first of them or reaches into the second.
append-split :
    (short more bs cs : List ℕ)
    → short ++ more ≡ bs ++ cs
    → ((m : List ℕ) × (short ++ m ≡ bs) × (length short < length bs))
      ⊎ ((t : List ℕ) × (short ≡ bs ++ t) × (t ++ more ≡ cs))
append-split short more [] cs e = inr (short, refl, e)
append-split [] more (b ∷ bs) cs e = inl (b ∷ bs, refl, omega arith)
append-split (x ∷ short) more (b ∷ bs) cs e =
    let (same, e') = tails x b (short ++ more) (bs ++ cs) e in
    elim (append-split short more bs cs e') [
      | inl (m, em, lt) ↦ inl (m, ap₂ (λ y ys. y ∷ ys) same em, omega arith)
      | inr (t, es, em) ↦ inr (t, ap₂ (λ y ys. y ∷ ys) same es, em)
    ]

module _ {ℓ κ} {A : Type ℓ} {B : Type κ} where
  whole_bind :
      {r : Reader A} (f : A → Reader B) {bs cs : List ℕ} {a : A} {b : B}
      → Parses r bs a
      → Parses (f a) cs b
      → (before rest : List ℕ)
      → (r >>= f) (cursor_at before ((bs ++ cs) ++ rest))
        ≡ ok (b, cursor_at (before ++ (bs ++ cs)) rest)
  whole_bind {r} f {bs} {cs} {a} {b} hr hf before rest =
      rw
        (
          append_assoc bs cs rest,
          ◌>>=◌,
          hr.whole before (cs ++ rest),
          hf.whole (before ++ bs) rest,
          append_assoc before bs cs,
        )
        refl

  cut_off_bind :
      {r : Reader A} (f : A → Reader B) {bs cs : List ℕ} {a : A} {b : B}
      → Parses r bs a
      → Parses (f a) cs b
      → (before short more : List ℕ) → short ++ more ≡ bs ++ cs
      → length short < length (bs ++ cs)
      → (r >>= f) (cursor_at before short) ≡ err truncated
  cut_off_bind {r} f {bs} {cs} hr hf before short more e lt =
      elim (append-split short more bs cs e) [
        | inl (m, em, lt') ↦ rw (◌>>=◌, hr.cut_off before short m em lt') refl
        | inr (t, es, em) ↦
            rw (es, ◌>>=◌, hr.whole before t)
              (hf.cut_off (before ++ bs) t more em
                (omega (arith, length-append bs cs, length-append bs t, ap length es)))
      ]

  pub Parses-bind :
      {r : Reader A} (f : A → Reader B) {bs cs : List ℕ} {a : A} {b : B}
      → Parses r bs a
      → Parses (f a) cs b
      → Parses (r >>= f) (bs ++ cs) b
  Parses-bind f hr hf = record { whole = whole_bind f hr hf; cut_off = cut_off_bind f hr hf }

pub Parses-pure {ℓ} : {A : Type ℓ} (a : A) → Parses (pure a) [] a
Parses-pure a = record {
  whole = λ before rest. rw (append-nil before) refl;
  cut_off = λ before short more e lt. absurd (omega arith);
}

require_whole :
    (n : ℕ) (before bs rest : List ℕ)
    → n ≡ length bs
    → require n (cursor_at before (bs ++ rest)) ≡ ok (tt, cursor_at before (bs ++ rest))
unfolding require
require_whole n before bs rest e =
    ground (arith, length-append before (bs ++ rest), length-append bs rest)

require_cut_off :
    (n : ℕ) (before short : List ℕ)
    → length short < n
    → require n (cursor_at before short) ≡ err truncated
unfolding require
require_cut_off n before short lt = ground (arith, length-append before short)

cursor_advanced :
    (before bs rest : List ℕ) (n : ℕ)
    → n ≡ length bs
    → advance n (cursor_at before (bs ++ rest)) ≡ cursor_at (before ++ bs) rest
cursor_advanced before bs rest n e =
    rw (append_assoc before bs rest, length-append before bs, e) refl

-- A read of `n` bytes that returns a function of the bytes ahead.
Parses-fixed {ℓ} :
    {A : Type ℓ} (n : ℕ) (g : List ℕ → A) (bs : List ℕ) (a : A)
    → n ≡ length bs
    → ((rest : List ℕ) → g (bs ++ rest) ≡ a)
    → Parses (require n >>= λ _ c. ok (g (drop c.at c.b), advance n c)) bs a
Parses-fixed n g bs a e h = record {
  whole = λ before rest.
      rw
        (
          ◌>>=◌,
          require_whole n before bs rest e,
          drop-append_self before (bs ++ rest),
          h rest,
          cursor_advanced before bs rest n e,
        )
        refl;
  cut_off = λ before short more _ lt. rw (◌>>=◌, require_cut_off n before short (omega arith)) refl;
}

pub Parses-u1 : (x : ℕ) → x < 256 → Parses u1 (u1_bytes x) x
unfolding u1
Parses-u1 x lt = Parses-fixed 1 (λ ws. get_or ws 0 0) (u1_bytes x) x refl (λ rest. omega arith)

pub Parses-u2 : (v : ℕ) → v < 65536 → Parses u2 (u2_bytes v) v
unfolding u2
Parses-u2 v lt =
    Parses-fixed 2 (λ ws. get_or ws 0 0 * 256 + get_or ws 1 0) (u2_bytes v) v refl
      (λ rest. omega arith)

pub Parses-u4 : (v : ℕ) → v < 4294967296 → Parses u4 (u4_bytes v) v
unfolding u4
Parses-u4 v lt =
    Parses-fixed 4
      (λ ws. get_or ws 0 0 * 16777216 + get_or ws 1 0 * 65536 + get_or ws 2 0 * 256 + get_or ws 3 0)
      (u4_bytes v) v refl (λ rest. omega arith)

pub Parses-slice : (n : ℕ) (bs : List ℕ) → n ≡ length bs → Parses (slice n) bs bs
unfolding slice
Parses-slice n bs e = Parses-fixed n (take n) bs bs e (λ rest. rw e (take-append_self bs rest))
