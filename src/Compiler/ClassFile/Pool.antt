-- ===== src/Compiler/ClassFile/Pool.antt =====
-- The slots of a constant pool, and that reading the pool is the inverse of its layout.
use cappu.Base.{
  Bool, ◌∙◌, Bool-cases, inl, inr, ℕ, suc, ◌<◌, ◌++◌, true, false, Option, none, some, List, [],
  ◌∷◌, if◌then◌else◌, All, length, arith, ◌≡◌, refl, sym, subst,
}
use cappu.Compiler.ByteBuffer.{u2_bytes}
use cappu.Compiler.ClassFile.Parses.{Parses, Parses-bind, Parses-pure, Parses-u2}
use cappu.Compiler.ClassFile.Constants.{
  Constant, read_slots, pool_of_count, read_constant_pool, is_wide,
}
use cappu.Compiler.ClassFile.Entries.{constant_bytes, IsWritable, Parses-map, Parses-constant}

unfoldable pub constants_bytes : List Constant → List ℕ
constants_bytes [] = []
constants_bytes (k ∷ ks) = constant_bytes k ++ constants_bytes ks

-- Entries of eight bytes take two slots (JVMS 4.4.5).
unfoldable pub takes_two : Constant → Bool
takes_two (Constant.long bits) = true
takes_two (Constant.double bits) = true
takes_two k = false

is_wide-takes_two : (k : Constant) → is_wide k ≡ takes_two k
unfolding is_wide takes_two
is_wide-takes_two k = ground arith

-- The slots of a pool from index 1 on.
unfoldable pub slots : List Constant → List (Option Constant)
slots [] = []
slots (k ∷ ks) = let rest = slots ks in if takes_two k then some k ∷ none ∷ rest else some k ∷ rest

length-slots_cons :
    (k : Constant) (ks : List Constant) → (n : ℕ) × (length (slots (k ∷ ks)) ≡ suc n)
unfolding slots
length-slots_cons k ks = elim (Bool-cases (takes_two k)) [
  | inl e ↦ (suc (length (slots ks)), rw e refl)
  | inr e ↦ (length (slots ks), rw e refl)
]

Parses-wide :
    (k : Constant) (n : ℕ) (bs : List ℕ) (ss : List (Option Constant))
    → is_wide k ≡ true
    → IsWritable k
    → Parses (read_slots n) bs ss
    → Parses (read_slots (suc (suc n))) (constant_bytes k ++ bs) (some k ∷ none ∷ ss)
unfolding read_slots
Parses-wide k n bs ss wide h hs =
    Parses-bind _ (Parses-constant k h) (rw wide (Parses-map (λ rest. some k ∷ none ∷ rest) hs))

Parses-narrow :
    (k : Constant) (n : ℕ) (bs : List ℕ) (ss : List (Option Constant))
    → is_wide k ≡ false
    → IsWritable k
    → Parses (read_slots (suc n)) bs ss
    → Parses (read_slots (suc (suc n))) (constant_bytes k ++ bs) (some k ∷ ss)
unfolding read_slots
Parses-narrow k n bs ss narrow h hs =
    Parses-bind _ (Parses-constant k h) (rw narrow (Parses-map (λ rest. some k ∷ rest) hs))

Parses-last :
    (k : Constant) → IsWritable k → Parses (read_slots 1) (constant_bytes k ++ []) (some k ∷ [])
unfolding read_slots
Parses-last k h = Parses-bind _ (Parses-constant k h) (Parses-pure _)

Parses-narrow_slots :
    (k : Constant) (ks : List Constant)
    → is_wide k ≡ false
    → IsWritable k
    → Parses (read_slots (length (slots ks))) (constants_bytes ks) (slots ks)
    → Parses
        (read_slots (suc (length (slots ks))))
        (constant_bytes k ++ constants_bytes ks)
        (some k ∷ slots ks)
unfolding slots constants_bytes
Parses-narrow_slots k [] narrow h hs = Parses-last k h
Parses-narrow_slots k (k' ∷ ks) narrow h hs =
    let (n, e) = length-slots_cons k' ks in
    subst
      (λ m.
        Parses (read_slots (suc m)) (constant_bytes k ++ constants_bytes (k' ∷ ks))
          (some k ∷ slots (k' ∷ ks)))
      (sym e)
      (Parses-narrow k n _ _ narrow h
        (subst (λ m. Parses (read_slots m) (constants_bytes (k' ∷ ks)) (slots (k' ∷ ks))) e hs))

Parses-slots :
    (ks : List Constant)
    → All IsWritable ks
    → Parses (read_slots (length (slots ks))) (constants_bytes ks) (slots ks)
unfolding slots constants_bytes read_slots
Parses-slots [] h = Parses-pure []
Parses-slots (k ∷ ks) (hk, h) = elim (Bool-cases (takes_two k)) [
  | inl wide ↦ rw wide (Parses-wide k _ _ _ (is_wide-takes_two k ∙ wide) hk (Parses-slots ks h))
  | inr narrow ↦
      rw narrow (Parses-narrow_slots k ks (is_wide-takes_two k ∙ narrow) hk (Parses-slots ks h))
]

-- constant_pool_count and the entries.
unfoldable pub pool_bytes : List Constant → List ℕ
pool_bytes ks = u2_bytes (suc (length (slots ks))) ++ constants_bytes ks

-- Let the fields of the entries be in range and the slots fewer than 65535. The reader returns from
-- the bytes of the pool a nil slot 0 and the entries, each wide one followed by a nil slot, with
-- the cursor behind the last byte; a part of these bytes is reported as truncated.
pub read_constant_pool_lem :
    (ks : List Constant)
    → All IsWritable ks
    → length (slots ks) < 65535
    → Parses read_constant_pool (pool_bytes ks) (none ∷ slots ks)
unfolding read_constant_pool pool_bytes pool_of_count
read_constant_pool_lem ks h lt =
    Parses-bind pool_of_count (Parses-u2 (suc (length (slots ks))) (omega arith))
      (Parses-map (λ ss. none ∷ ss) (Parses-slots ks h))
