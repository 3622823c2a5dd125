-- ===== src/Format/Imports.antt =====
-- The order of imports (togo/internal/format/importorder.go). The imports are of any type that has a
-- name, and a mark for the static ones.
pub mod Grouping
pub mod Patterns
pub mod Sorting
pub mod Aosp
pub mod Blocks
mod Samples
use cappu.Base.{
  ℕ, zero, suc, ◌+◌, Bool, true, false, not, ◌&&◌, ◌||◌, Option, none, some, List, [], ◌∷◌, ◌++◌,
  if◌then◌else◌, ltb, ◌==◌, Text, codes, text_eq, text_compare, has_prefix, byte_length, Ordering,
}

pub record ImportOrderOptions : Type 0 where
  pub style : Text
  pub import_order : Option (List Text)

-- a < b on strings
abbrev pub text_less : Text → Text → Bool
text_less a b = elim (text_compare a b) [ Ordering.lt ↦ true | _ ↦ false ]

-- strings.TrimSuffix(pattern, "*")
unfoldable pub pattern_prefix : Text → Text
pattern_prefix [] = []
pattern_prefix (c ∷ []) = if c == 0x2a then [] else c ∷ []
pattern_prefix (c ∷ d ∷ s) = c ∷ pattern_prefix (d ∷ s)

pub record Pattern : Type 0 where
  pub prefix : Text
  pub block : ℕ

-- The patterns of an order with their blocks, which an empty entry divides.
unfoldable pub patterns_of : ℕ → List Text → List Pattern
patterns_of block [] = []
patterns_of block ([] ∷ entries) = patterns_of (suc block) entries
patterns_of block ((c ∷ s) ∷ entries) =
    record { prefix = pattern_prefix (c ∷ s); block = block } ∷ patterns_of block entries

-- The number of the last block.
unfoldable pub last_block : ℕ → List Text → ℕ
last_block block [] = block
last_block block ([] ∷ entries) = last_block (suc block) entries
last_block block ((c ∷ s) ∷ entries) = last_block block entries

-- The best block so far, with the length of its prefix; none is -1.
abbrev pub Best : Type 0
Best = ℕ × Option ℕ

abbrev pub is_longer : ℕ → Option ℕ → Bool
is_longer n none = true
is_longer n (some best_len) = ltb best_len n

unfoldable pub choose : Text → List Pattern → Best → Best
choose name [] best = best
choose name (p ∷ patterns) best = choose name patterns (
    if has_prefix name p.prefix && is_longer (byte_length p.prefix) best.1
    then (p.block, some (byte_length p.prefix))
    else best)

-- The block of a name; `unmatched` is that of the names that no pattern has.
unfoldable pub block_of : List Pattern → ℕ → Text → ℕ
block_of patterns unmatched name = (choose (name ++ codes ".") patterns (unmatched, none)).0

abbrev pub android_prefixes : List Text
android_prefixes =
    codes "android."
    ∷ codes "androidx."
    ∷ codes "dalvik."
    ∷ codes "libcore."
    ∷ codes "com.android."
    ∷ []

unfoldable pub has_any_prefix : Text → List Text → Bool
has_any_prefix name [] = false
has_any_prefix name (p ∷ prefixes) = has_prefix name p || has_any_prefix name prefixes

unfoldable pub is_android_import : Text → Bool
unfolding has_any_prefix
is_android_import name = has_any_prefix name android_prefixes

-- The name up to its first dot.
unfoldable pub import_top_level : Text → Text
import_top_level [] = []
import_top_level (c ∷ s) = let rest = import_top_level s in if c == 0x2e then [] else c ∷ rest

unfoldable pub aosp_rank : Text → ℕ
unfolding is_android_import import_top_level
aosp_rank name =
    if is_android_import name
    then 0
    else if text_eq (import_top_level name) (codes "java")
        || text_eq (import_top_level name) (codes "javax")
    then 2
    else 1

unfoldable pub aosp_splits : Text → Text → Bool
unfolding is_android_import import_top_level
aosp_splits prev curr =
    (is_android_import prev && not (is_android_import curr))
    || not (text_eq (import_top_level prev) (import_top_level curr))

-- by rank, then by name
unfoldable pub aosp_less : Text → Text → Bool
unfolding aosp_rank
aosp_less a b =
    if aosp_rank a == aosp_rank b then text_less a b else ltb (aosp_rank a) (aosp_rank b)

module _ {A : Type 0} where
  -- sort.SliceStable: an element goes in front of the first one that is not less.
  unfoldable pub insert : (A → A → Bool) → A → List A → List A
  insert less x [] = x ∷ []
  insert less x (y ∷ ys) = let rest = insert less x ys in if less y x then y ∷ rest else x ∷ y ∷ ys

  unfoldable pub sort : (A → A → Bool) → List A → List A
  sort less [] = []
  sort less (x ∷ xs) = insert less x (sort less xs)

  -- blocks[i] = append(blocks[i], x)
  unfoldable pub append_to : List (List A) → ℕ → A → List (List A)
  append_to [] i x = []
  append_to (b ∷ blocks) zero x = (b ++ x ∷ []) ∷ blocks
  append_to (b ∷ blocks) (suc i) x = b ∷ append_to blocks i x

  unfoldable pub empty_blocks : ℕ → List (List A)
  empty_blocks zero = []
  empty_blocks (suc n) = [] ∷ empty_blocks n

  unfoldable pub not_empty : List (List A) → List (List A)
  not_empty [] = []
  not_empty ([] ∷ blocks) = not_empty blocks
  not_empty ((x ∷ xs) ∷ blocks) = (x ∷ xs) ∷ not_empty blocks

  unfoldable pub filter : (A → Bool) → List A → List A
  filter p [] = []
  filter p (x ∷ xs) = let rest = filter p xs in if p x then x ∷ rest else rest

module _ {A : Type 0} (import_name : A → Text) where
  unfoldable pub sort_by_name : List A → List A
  unfolding sort
  sort_by_name imports = sort (λ a b. text_less (import_name a) (import_name b)) imports

  -- The loop over the imports.
  unfoldable pub distribute : List Pattern → ℕ → List A → List (List A) → List (List A)
  distribute patterns unmatched [] blocks = blocks
  distribute patterns unmatched (i ∷ imports) blocks =
      distribute patterns unmatched imports
        (append_to blocks (block_of patterns unmatched (import_name i)) i)

  unfoldable pub sort_blocks : List (List A) → List (List A)
  unfolding sort_by_name
  sort_blocks [] = []
  sort_blocks (b ∷ blocks) = sort_by_name b ∷ sort_blocks blocks

  unfoldable pub configured_blocks : List A → List Text → List (List A)
  unfolding sort_blocks distribute
  configured_blocks imports import_order =
      let block_count = suc (last_block 0 import_order) in
      sort_blocks (
        distribute (patterns_of 0 import_order) block_count imports
          (empty_blocks (suc block_count)))

  -- The block that an import begins, and those behind it.
  unfoldable pub runs : A → List A → List A × List (List A)
  runs i [] = (i ∷ [], [])
  runs i (next ∷ rest) =
      let (current, blocks) = runs next rest in
      if aosp_splits (import_name i) (import_name next)
      then (i ∷ [], current ∷ blocks)
      else (i ∷ current, blocks)

  unfoldable pub split_runs : List A → List (List A)
  unfolding runs
  split_runs [] = []
  split_runs (i ∷ rest) = (runs i rest).0 ∷ (runs i rest).1

  unfoldable pub aosp_blocks : List A → List (List A)
  unfolding split_runs sort
  aosp_blocks imports = split_runs (sort (λ a b. aosp_less (import_name a) (import_name b)) imports)

  -- The blocks of the imports of one sort, static or not, without an order.
  unfoldable pub style_blocks : Text → List A → List (List A)
  unfolding aosp_blocks sort_by_name
  style_blocks style imports =
      if text_eq style (codes "aosp") then aosp_blocks imports else sort_by_name imports ∷ []

  abbrev pub ordered : ImportOrderOptions → List A → List (List A)
  ordered o imports = elim o.import_order [
    | some order ↦ configured_blocks imports order
    | none ↦ style_blocks o.style imports
  ]

  abbrev pub ordered_statics : ImportOrderOptions → List A → List (List A)
  ordered_statics o statics = elim o.import_order [
    | some order ↦ sort_by_name statics ∷ []
    | none ↦ style_blocks o.style statics
  ]

  unfoldable pub order_imports : (A → Bool) → List A → ImportOrderOptions → List (List A)
  unfolding filter not_empty
  order_imports import_is_static imports o = not_empty (
      ordered_statics o (filter import_is_static imports)
      ++ ordered o (filter (λ i. not (import_is_static i)) imports))
