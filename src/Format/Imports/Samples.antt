-- ===== src/Format/Imports/Samples.antt =====
-- Tests and examples of the order of imports.
use mathlib.Core.List.{Perm}
use cappu.Base.{
  ◌≡◌, refl, none, some, Bool, true, false, List, [], ◌∷◌, ◌++◌, Text, codes, text_eq, All, ◌⊎◌,
  has_prefix, byte_length, text_compare,
}
use cappu.Format.Imports.{
  ImportOrderOptions, Pattern, pattern_prefix, patterns_of, last_block, choose, block_of, insert,
  sort, append_to, empty_blocks, not_empty, filter, sort_by_name, distribute, sort_blocks,
  configured_blocks, runs, split_runs, aosp_blocks, aosp_splits, aosp_rank, aosp_less,
  is_android_import, import_top_level, has_any_prefix, style_blocks, order_imports,
}
use cappu.Format.Imports.Grouping.{concat, order_imports-Perm}
use cappu.Format.Imports.Patterns.{Fits, Longest, block_of-Longest}
use cappu.Format.Imports.Sorting.{Sorted}
use cappu.Format.Imports.Blocks.{order_imports-Sorted}

abbrev Import : Type 0
Import = Text × Bool

abbrev import_name : Import → Text
import_name i = i.0

abbrev import_is_static : Import → Bool
import_is_static i = i.1

abbrev imports : List Import
imports =
    (codes "java.util.List", false)
    ∷ (codes "org.junit.Assert.fail", true)
    ∷ (codes "com.foo.Bar", false)
    ∷ (codes "android.os.Bundle", false)
    ∷ (codes "java.io.File", false)
    ∷ []

abbrev aosp : ImportOrderOptions
aosp = record { style = codes "aosp"; import_order = none }

abbrev java_first : List Text
java_first = codes "java.*" ∷ codes "java.util.*" ∷ [] ∷ codes "com.*" ∷ []

abbrev configured : ImportOrderOptions
configured = record { style = codes "google"; import_order = some java_first }

aosp_test :
    order_imports import_name import_is_static imports aosp
    ≡ ((codes "org.junit.Assert.fail", true) ∷ [])
      ∷ ((codes "android.os.Bundle", false) ∷ [])
      ∷ ((codes "com.foo.Bar", false) ∷ [])
      ∷ ((codes "java.io.File", false) ∷ (codes "java.util.List", false) ∷ [])
      ∷ []
unfolding order_imports style_blocks aosp_blocks sort insert aosp_less aosp_rank is_android_import
    has_any_prefix has_prefix import_top_level text_eq text_compare split_runs runs aosp_splits
    filter not_empty
aosp_test = refl

configured_test :
    order_imports import_name import_is_static imports configured
    ≡ ((codes "org.junit.Assert.fail", true) ∷ [])
      ∷ ((codes "java.io.File", false) ∷ (codes "java.util.List", false) ∷ [])
      ∷ ((codes "com.foo.Bar", false) ∷ [])
      ∷ ((codes "android.os.Bundle", false) ∷ [])
      ∷ []
unfolding order_imports configured_blocks distribute append_to block_of choose patterns_of
    pattern_prefix last_block empty_blocks sort_blocks sort_by_name sort insert has_prefix
    text_compare filter not_empty byte_length
configured_test = refl

order_imports-Perm_example :
    Perm (concat (order_imports import_name import_is_static imports configured)) imports
order_imports-Perm_example = order_imports-Perm import_name import_is_static imports configured

block_of-Longest_example :
    let patterns = patterns_of 0 java_first in
    let key = codes "java.util.List" ++ codes "." in
    (All (λ (q : Pattern). ¬ Fits key q) patterns
      × (block_of patterns 2 (codes "java.util.List") ≡ 2))
    ⊎ ((before : List Pattern) × (p : Pattern) × (after : List Pattern) × (patterns
          ≡ before ++ p ∷ after)
        × Longest key before p after
        × (block_of patterns 2 (codes "java.util.List") ≡ p.block))
block_of-Longest_example = block_of-Longest (patterns_of 0 java_first) 2 (codes "java.util.List")

order_imports-Sorted_example :
    All (Sorted import_name) (order_imports import_name import_is_static imports aosp)
order_imports-Sorted_example = order_imports-Sorted import_name import_is_static imports aosp
