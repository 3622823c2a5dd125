-- ===== src/Format/Imports/Sorting.antt =====
-- The order within a block of OrderImports (sortByName, togo/internal/format/importorder.go).
use cappu.Base.{
  Bool, true, false, List, [], ◌∷◌, if_cases, ◌≡◌, refl, arith, Text, All, Pairwise, text_compare,
}
use cappu.Format.Imports.{insert, sort, not_empty, sort_by_name, sort_blocks, text_less}

pub text_less-Asymmetric : (a b : Text) → text_less a b ≡ true → text_less b a ≡ false
unfolding text_compare
text_less-Asymmetric [] [] h = refl
text_less-Asymmetric [] (y ∷ ys) h = refl
text_less-Asymmetric (x ∷ xs) [] h = ground (arith, h)
text_less-Asymmetric (x ∷ xs) (y ∷ ys) h = ground (arith, h, text_less-Asymmetric xs ys)

pub text_less-Negative :
    (a b c : Text) → text_less b a ≡ false → text_less c b ≡ false → text_less c a ≡ false
unfolding text_compare
text_less-Negative [] [] [] h k = refl
text_less-Negative [] [] (z ∷ zs) h k = refl
text_less-Negative [] (y ∷ ys) [] h k = refl
text_less-Negative [] (y ∷ ys) (z ∷ zs) h k = refl
text_less-Negative (x ∷ xs) [] c h k = ground (arith, h)
text_less-Negative (x ∷ xs) (y ∷ ys) [] h k = ground (arith, k)
text_less-Negative (x ∷ xs) (y ∷ ys) (z ∷ zs) h k =
    ground (arith, h, k, text_less-Negative xs ys zs)

module _ {A : Type 0} (less : A → A → Bool) where
  -- The second of two neighbours, near or far, does not come first.
  abbrev pub NotAfter : A → A → Type 0
  NotAfter x y = less y x ≡ false

  module _ (trans : (a b c : A) → NotAfter a b → NotAfter b c → NotAfter a c) where
    below_all : (x y : A) (zs : List A) → NotAfter x y → All (NotAfter y) zs → All (NotAfter x) zs
    below_all x y [] h k = tt
    below_all x y (z ∷ zs) h k = (trans x y z h k.0, below_all x y zs h k.1)

    insert-All :
        (w x : A) (ys : List A)
        → NotAfter w x
        → All (NotAfter w) ys
        → All (NotAfter w) (insert less x ys)
    unfolding insert
    insert-All w x [] h k = (h, tt)
    insert-All w x (y ∷ ys) h k =
        if_cases (All (NotAfter w)) (less y x) (λ _. (k.0, insert-All w x ys h k.1)) (λ _. (h, k))

    insert-Pairwise :
        (asym : (a b : A) → less a b ≡ true → NotAfter a b) (x : A) (ys : List A)
        → Pairwise NotAfter ys
        → Pairwise NotAfter (insert less x ys)
    unfolding insert
    insert-Pairwise asym x [] h = (tt, tt)
    insert-Pairwise asym x (y ∷ ys) h =
        if_cases (Pairwise NotAfter) (less y x)
          (λ e. (insert-All y x ys (asym y x e) h.0, insert-Pairwise asym x ys h.1))
          (λ e. ((e, below_all x y ys e h.0), h))

    pub sort-Pairwise :
        (asym : (a b : A) → less a b ≡ true → NotAfter a b) (xs : List A)
        → Pairwise NotAfter (sort less xs)
    unfolding sort
    sort-Pairwise asym [] = tt
    sort-Pairwise asym (x ∷ xs) = insert-Pairwise asym x (sort less xs) (sort-Pairwise asym xs)

module _ {A : Type 0} (import_name : A → Text) where
  -- A block whose names do not go down.
  abbrev pub Sorted : List A → Type 0
  Sorted imports = Pairwise (λ a b. text_less (import_name b) (import_name a) ≡ false) imports

  pub sort_by_name-Sorted : (imports : List A) → Sorted (sort_by_name import_name imports)
  unfolding sort_by_name
  sort_by_name-Sorted imports =
      sort-Pairwise (λ a b. text_less (import_name a) (import_name b))
        (λ a b c. text_less-Negative (import_name a) (import_name b) (import_name c))
        (λ a b. text_less-Asymmetric (import_name a) (import_name b)) imports

  pub sort_blocks-Sorted : (bs : List (List A)) → All Sorted (sort_blocks import_name bs)
  unfolding sort_blocks
  sort_blocks-Sorted [] = tt
  sort_blocks-Sorted (b ∷ bs) = (sort_by_name-Sorted b, sort_blocks-Sorted bs)

  pub not_empty-All : (bs : List (List A)) → All Sorted bs → All Sorted (not_empty bs)
  unfolding not_empty
  not_empty-All [] h = tt
  not_empty-All ([] ∷ bs) h = not_empty-All bs h.1
  not_empty-All ((x ∷ xs) ∷ bs) h = (h.0, not_empty-All bs h.1)
