-- ===== src/Format/Imports/Grouping.antt =====
-- The blocks of OrderImports (togo/internal/format/importorder.go) hold its imports.
use mathlib.Core.List.{Perm, perm_middle}
use mathlib.Core.List.Perm
use cappu.Base.{
  ℕ, zero, suc, ◌≤◌, ◌<◌, Bool, true, false, not, ◌&&◌, Option, none, some, List, [], ◌∷◌, ◌++◌,
  if_cases, append-nil, append_assoc, ◌≡◌, refl, sym, ap, ◌∙◌, subst, arith, Text, codes, text_eq,
  has_prefix, if◌then◌else◌, byte_length, All, length,
}
use cappu.Format.Imports.{
  ImportOrderOptions, Pattern, Best, is_longer, patterns_of, last_block, choose, block_of, insert,
  sort, append_to, empty_blocks, not_empty, filter, sort_by_name, distribute, sort_blocks,
  configured_blocks, runs, split_runs, aosp_blocks, aosp_splits, style_blocks, ordered,
  ordered_statics, order_imports, text_less, aosp_less,
}

-- The patterns of an order are of its blocks.
le-last_block : (b : ℕ) (entries : List Text) → b ≤ last_block b entries
unfolding last_block
le-last_block b [] = omega arith
le-last_block b ([] ∷ entries) = omega (arith, le-last_block (suc b) entries)
le-last_block b ((c ∷ s) ∷ entries) = le-last_block b entries

patterns_of-Bounded :
    (b : ℕ) (entries : List Text)
    → All (λ (p : Pattern). p.block ≤ last_block b entries) (patterns_of b entries)
unfolding patterns_of last_block
patterns_of-Bounded b [] = tt
patterns_of-Bounded b ([] ∷ entries) = patterns_of-Bounded (suc b) entries
patterns_of-Bounded b ((c ∷ s) ∷ entries) = (le-last_block b entries, patterns_of-Bounded b entries)

All_below :
    (n : ℕ) (patterns : List Pattern)
    → All (λ (p : Pattern). p.block ≤ n) patterns
    → All (λ (p : Pattern). p.block ≤ suc n) patterns
All_below n [] h = tt
All_below n (p ∷ patterns) h = (omega (arith, h.0), All_below n patterns h.1)

choose-bound :
    (n : ℕ) (name : Text) (patterns : List Pattern) (best : Best)
    → All (λ (p : Pattern). p.block ≤ n) patterns
    → best.0 ≤ n
    → (choose name patterns best).0 ≤ n
unfolding choose
choose-bound n name [] best h k = k
choose-bound n name (p ∷ patterns) best h k = choose-bound n name patterns _ h.1 (
    if_cases (λ (r : Best). r.0 ≤ n)
      (has_prefix name p.prefix && is_longer (byte_length p.prefix) best.1) (λ _. h.0) (λ _. k))

length-empty_blocks : (A : Type 0) (n : ℕ) → length (empty_blocks {A = A} n) ≡ n
unfolding empty_blocks
length-empty_blocks A zero = refl
length-empty_blocks A (suc n) = ap suc (length-empty_blocks A n)

module _ {A : Type 0} where
  abbrev pub concat : List (List A) → List A
  concat [] = []
  concat (b ∷ blocks) = b ++ concat blocks

  pub concat-append : (bs cs : List (List A)) → concat (bs ++ cs) ≡ concat bs ++ concat cs
  concat-append [] cs = refl
  concat-append (b ∷ bs) cs =
      ap (λ l. b ++ l) (concat-append bs cs) ∙ sym (append_assoc b (concat bs) (concat cs))

  concat-not_empty : (bs : List (List A)) → concat (not_empty bs) ≡ concat bs
  unfolding not_empty
  concat-not_empty [] = refl
  concat-not_empty ([] ∷ bs) = concat-not_empty bs
  concat-not_empty ((x ∷ xs) ∷ bs) = ap (λ l. (x ∷ xs) ++ l) (concat-not_empty bs)

  concat-empty_blocks : (n : ℕ) → concat (empty_blocks n) ≡ []
  unfolding empty_blocks
  concat-empty_blocks zero = refl
  concat-empty_blocks (suc n) = concat-empty_blocks n

  insert-Perm : (less : A → A → Bool) (x : A) (ys : List A) → Perm (insert less x ys) (x ∷ ys)
  unfolding insert
  insert-Perm less x [] = Perm.refl (x ∷ [])
  insert-Perm less x (y ∷ ys) =
      if_cases (λ l. Perm l (x ∷ y ∷ ys)) (less y x)
        (λ _. Perm.trans (Perm.cons y (insert-Perm less x ys)) (Perm.swap x y ys))
        (λ _. Perm.refl (x ∷ y ∷ ys))

  sort-Perm : (less : A → A → Bool) (xs : List A) → Perm (sort less xs) xs
  unfolding sort
  sort-Perm less [] = Perm.refl []
  sort-Perm less (x ∷ xs) =
      Perm.trans (insert-Perm less x (sort less xs)) (Perm.cons x (sort-Perm less xs))

  append_to-Perm :
      (bs : List (List A)) (i : ℕ) (x : A)
      → i < length bs
      → Perm (concat (append_to bs i x)) (x ∷ concat bs)
  unfolding append_to
  append_to-Perm [] i x h = absurd (omega (arith, h))
  append_to-Perm (b ∷ bs) zero x h =
      subst (λ l. Perm l (x ∷ b ++ concat bs)) (sym (append_assoc b (x ∷ []) (concat bs)))
        (perm_middle b (concat bs))
  append_to-Perm (b ∷ bs) (suc i) x h =
      Perm.trans (Perm.append_left b (append_to-Perm bs i x (omega (arith, h))))
        (perm_middle b (concat bs))

  length-append_to : (bs : List (List A)) (i : ℕ) (x : A) → length (append_to bs i x) ≡ length bs
  unfolding append_to
  length-append_to [] i x = refl
  length-append_to (b ∷ bs) zero x = refl
  length-append_to (b ∷ bs) (suc i) x = ap suc (length-append_to bs i x)

  filter-Perm : (p : A → Bool) (xs : List A) → Perm (filter p xs ++ filter (λ x. not (p x)) xs) xs
  unfolding filter
  filter-Perm p [] = Perm.refl []
  filter-Perm p (x ∷ xs) =
      elim (p x)
        as (λ b.
          Perm
            ((if b then x ∷ filter p xs else filter p xs)
              ++ (if not b then x ∷ filter (λ y. not (p y)) xs else filter (λ y. not (p y)) xs))
            (x ∷ xs)) [
              | true ↦ Perm.cons x (filter-Perm p xs)
              | false ↦
                  Perm.trans (perm_middle (filter p xs) (filter (λ y. not (p y)) xs))
                    (Perm.cons x (filter-Perm p xs))
            ]

module _ {A : Type 0} (import_name : A → Text) where
  sort_blocks-Perm : (bs : List (List A)) → Perm (concat (sort_blocks import_name bs)) (concat bs)
  unfolding sort_blocks sort_by_name
  sort_blocks-Perm [] = Perm.refl []
  sort_blocks-Perm (b ∷ bs) =
      Perm.append (sort-Perm (λ x y. text_less (import_name x) (import_name y)) b)
        (sort_blocks-Perm bs)

  distribute-Perm :
      (patterns : List Pattern) (n : ℕ) (imports : List A) (bs : List (List A))
      → All (λ (p : Pattern). p.block ≤ n) patterns
      → n < length bs
      → Perm (concat (distribute import_name patterns n imports bs)) (imports ++ concat bs)
  unfolding distribute block_of
  distribute-Perm patterns n [] bs h k = Perm.refl (concat bs)
  distribute-Perm patterns n (i ∷ imports) bs h k =
      let b = block_of patterns n (import_name i) in
      let bound = choose-bound n (import_name i ++ codes ".") patterns (n, none) h (omega arith) in
      Perm.trans
        (distribute-Perm patterns n imports (append_to bs b i) h
          (omega (arith, k, length-append_to bs b i)))
        (Perm.trans (Perm.append_left imports (append_to-Perm bs b i (omega (arith, bound, k))))
          (perm_middle imports (concat bs)))

  concat-runs :
      (i : A) (rest : List A)
      → (runs import_name i rest).0 ++ concat ((runs import_name i rest).1) ≡ i ∷ rest
  unfolding runs
  concat-runs i [] = refl
  concat-runs i (next ∷ rest) =
      if_cases (λ (r : List A × List (List A)). r.0 ++ concat (r.1) ≡ i ∷ next ∷ rest)
        (aosp_splits (import_name i) (import_name next))
        (λ _. ap (λ l. i ∷ l) (concat-runs next rest))
        (λ _. ap (λ l. i ∷ l) (concat-runs next rest))

  concat-split_runs : (imports : List A) → concat (split_runs import_name imports) ≡ imports
  unfolding split_runs
  concat-split_runs [] = refl
  concat-split_runs (i ∷ rest) = concat-runs i rest

  sort_by_name-Perm : (imports : List A) → Perm (sort_by_name import_name imports ++ []) imports
  unfolding sort_by_name
  sort_by_name-Perm imports =
      subst (λ l. Perm l imports) (sym (append-nil _))
        (sort-Perm (λ x y. text_less (import_name x) (import_name y)) imports)

  configured_blocks-Perm :
      (imports : List A) (order : List Text)
      → Perm (concat (configured_blocks import_name imports order)) imports
  unfolding configured_blocks empty_blocks
  configured_blocks-Perm imports order =
      let n = suc (last_block 0 order) in
      Perm.trans
        (sort_blocks-Perm
          (distribute import_name (patterns_of 0 order) n imports (empty_blocks (suc n))))
        (subst
          (λ l.
            Perm
              (concat
                (distribute import_name (patterns_of 0 order) n imports (empty_blocks (suc n))))
              l)
          (ap (λ l. imports ++ l) (concat-empty_blocks (suc n)) ∙ append-nil imports)
          (distribute-Perm (patterns_of 0 order) n imports (empty_blocks (suc n))
            (All_below (last_block 0 order) (patterns_of 0 order) (patterns_of-Bounded 0 order))
            (omega (arith, length-empty_blocks A (suc n)))))

  style_blocks-Perm :
      (style : Text) (imports : List A)
      → Perm (concat (style_blocks import_name style imports)) imports
  unfolding style_blocks aosp_blocks
  style_blocks-Perm style imports =
      if_cases (λ bs. Perm (concat bs) imports) (text_eq style (codes "aosp"))
        (λ _.
          subst (λ l. Perm l imports) (sym (concat-split_runs _))
            (sort-Perm (λ x y. aosp_less (import_name x) (import_name y)) imports))
        (λ _. sort_by_name-Perm imports)

  ordered-Perm :
      (o : ImportOrderOptions) (imports : List A)
      → Perm (concat (ordered import_name o imports)) imports
  ordered-Perm o imports =
      elim o.import_order
        as (λ (order : Option (List Text)).
          Perm
            (concat
              (ordered import_name (record { style = o.style; import_order = order }) imports))
            imports) [
              | some order ↦ configured_blocks-Perm imports order
              | none ↦ style_blocks-Perm o.style imports
            ]

  ordered_statics-Perm :
      (o : ImportOrderOptions) (statics : List A)
      → Perm (concat (ordered_statics import_name o statics)) statics
  ordered_statics-Perm o statics =
      elim o.import_order
        as (λ (order : Option (List Text)).
          Perm
            (concat (
              ordered_statics import_name (record { style = o.style; import_order = order })
                statics))
            statics) [
              | some order ↦ sort_by_name-Perm statics
              | none ↦ style_blocks-Perm o.style statics
            ]

  -- For every style and every configured order, the blocks of order_imports, one behind the other, are
  -- a permutation of the imports: none is lost, none is printed twice.
  pub order_imports-Perm :
      (import_is_static : A → Bool) (imports : List A) (o : ImportOrderOptions)
      → Perm (concat (order_imports import_name import_is_static imports o)) imports
  unfolding order_imports
  order_imports-Perm import_is_static imports o =
      let statics = filter import_is_static imports in
      let rest = filter (λ i. not (import_is_static i)) imports in
      subst (λ l. Perm l imports)
        (sym (
          concat-not_empty (ordered_statics import_name o statics ++ ordered import_name o rest)
          ∙ concat-append (ordered_statics import_name o statics) (ordered import_name o rest)))
        (Perm.trans (Perm.append (ordered_statics-Perm o statics) (ordered-Perm o rest))
          (filter-Perm import_is_static imports))
