-- ===== src/Compiler/ByteBuffer/Patch.antt =====
-- Back-patching a place that was reserved earlier.
use cappu.Base.{
  ℕ, zero, suc, ◌+◌, ◌/◌, ◌%◌, ◌<◌, ◌++◌, some, List, [], ◌∷◌, length, length-append, set, ◌≡◌,
  refl, ap, arith, append_assoc, lt→ltb,
}
use cappu.Compiler.ByteBuffer.{ByteBuffer, put_u2, put_u4, append_buf, put_at, patch_u2, patch_u4}

set-append :
    (xs ys : List ℕ) (i k v : ℕ) → i ≡ length xs + k → set (xs ++ ys) i v ≡ xs ++ set ys k v
set-append [] ys i k v e = ap (λ i. set ys i v) (omega arith)
set-append (x ∷ xs) ys zero k v e = absurd (omega arith)
set-append (x ∷ xs) ys (suc i) k v e = ap (λ t. x ∷ t) (set-append xs ys i k v (omega arith))

-- Writing at the `k`-th place behind the first bytes.
put_at-behind :
    (xs ys : List ℕ) (i k v : ℕ)
    → i ≡ length xs + k
    → k < length ys
    → put_at i v (record { bytes = xs ++ ys }) ≡ some (record { bytes = xs ++ set ys k v })
unfolding put_at
put_at-behind xs ys i k v e lt =
    rw (lt→ltb i (length (xs ++ ys)) (omega (arith, length-append xs ys)), set-append xs ys i k v e)

module _ (xs ys : List ℕ) where
  patch_u2-reserved :
      (a b v : ℕ)
      → patch_u2 (length xs) v (record { bytes = xs ++ a ∷ b ∷ ys })
        ≡ some (record { bytes = xs ++ v / 256 % 256 ∷ v % 256 ∷ ys })
  unfolding patch_u2
  patch_u2-reserved a b v = rw (
    put_at-behind xs (a ∷ b ∷ ys) (length xs) 0 (v / 256 % 256) (omega arith) (omega arith),
    put_at-behind xs (v / 256 % 256 ∷ b ∷ ys) (length xs + 1) 1 (v % 256) refl (omega arith),
  )

  patch_u4-reserved :
      (a b c d v : ℕ)
      → patch_u4 (length xs) v (record { bytes = xs ++ a ∷ b ∷ c ∷ d ∷ ys })
        ≡ some (record {
          bytes = xs ++ v / 16777216 % 256 ∷ v / 65536 % 256 ∷ v / 256 % 256 ∷ v % 256 ∷ ys;
        })
  unfolding patch_u4
  patch_u4-reserved a b c d v = rw (
    put_at-behind xs (a ∷ b ∷ c ∷ d ∷ ys) (length xs) 0 (v / 16777216 % 256) (omega arith)
        (omega arith),
    put_at-behind xs (v / 16777216 % 256 ∷ b ∷ c ∷ d ∷ ys) (length xs + 1) 1 (v / 65536 % 256) refl
        (omega arith),
    put_at-behind xs (v / 16777216 % 256 ∷ v / 65536 % 256 ∷ c ∷ d ∷ ys) (length xs + 2) 2
        (v / 256 % 256) refl (omega arith),
    put_at-behind xs (v / 16777216 % 256 ∷ v / 65536 % 256 ∷ v / 256 % 256 ∷ d ∷ ys) (length xs + 3)
        3 (v % 256) refl (omega arith),
  )

-- Let two or four bytes be reserved with any value, more be written behind them, and the place be
-- patched then: the buffer is the one that writing the value at once would have given.
pub patch-reserved :
    (v placeholder : ℕ) (b more : ByteBuffer)
    → (patch_u2 (length b.bytes) v (append_buf more (put_u2 placeholder b))
        ≡ some (append_buf more (put_u2 v b)))
      × (patch_u4 (length b.bytes) v (append_buf more (put_u4 placeholder b))
          ≡ some (append_buf more (put_u4 v b)))
unfolding append_buf put_u2 put_u4
patch-reserved v placeholder b more = (
  rw (append_assoc b.bytes, append_assoc b.bytes) (patch_u2-reserved b.bytes more.bytes _ _ v),
  rw (append_assoc b.bytes, append_assoc b.bytes) (patch_u4-reserved b.bytes more.bytes _ _ _ _ v),
)
