-- ===== src/Format/Imports/Blocks.antt =====
-- The order within the blocks of OrderImports (togo/internal/format/importorder.go).
use cappu.Base.{
  Bool, not, Option, none, some, List, ◌++◌, if_cases, Text, codes, text_eq, All, All-append,
}
use cappu.Format.Imports.{
  ImportOrderOptions, filter, configured_blocks, style_blocks, ordered, ordered_statics,
  order_imports,
}
use cappu.Format.Imports.Sorting.{Sorted, sort_by_name-Sorted, sort_blocks-Sorted, not_empty-All}
use cappu.Format.Imports.Aosp.{aosp_blocks-Sorted}

module _ {A : Type 0} (import_name : A → Text) where
  style_blocks-Sorted :
      (style : Text) (imports : List A)
      → All (Sorted import_name) (style_blocks import_name style imports)
  unfolding style_blocks
  style_blocks-Sorted style imports =
      if_cases (All (Sorted import_name)) (text_eq style (codes "aosp"))
        (λ _. aosp_blocks-Sorted import_name imports)
        (λ _. (sort_by_name-Sorted import_name imports, tt))

  configured_blocks-Sorted :
      (imports : List A) (order : List Text)
      → All (Sorted import_name) (configured_blocks import_name imports order)
  unfolding configured_blocks
  configured_blocks-Sorted imports order = sort_blocks-Sorted import_name _

  ordered-Sorted :
      (o : ImportOrderOptions) (imports : List A)
      → All (Sorted import_name) (ordered import_name o imports)
  ordered-Sorted o imports =
      elim o.import_order
        as (λ (order : Option (List Text)).
          All (Sorted import_name)
            (ordered import_name (record { style = o.style; import_order = order }) imports)) [
              | some order ↦ configured_blocks-Sorted imports order
              | none ↦ style_blocks-Sorted o.style imports
            ]

  ordered_statics-Sorted :
      (o : ImportOrderOptions) (statics : List A)
      → All (Sorted import_name) (ordered_statics import_name o statics)
  ordered_statics-Sorted o statics =
      elim o.import_order
        as (λ (order : Option (List Text)). All (Sorted import_name) (
          ordered_statics import_name (record { style = o.style; import_order = order }) statics)) [
            | some order ↦ (sort_by_name-Sorted import_name statics, tt)
            | none ↦ style_blocks-Sorted o.style statics
          ]

  -- With an import order and without one, in the aosp style as in the others, the names of the imports of
  -- each block do not go down.
  pub order_imports-Sorted :
      (import_is_static : A → Bool) (imports : List A) (o : ImportOrderOptions)
      → All (Sorted import_name) (order_imports import_name import_is_static imports o)
  unfolding order_imports
  order_imports-Sorted import_is_static imports o =
      let statics = filter import_is_static imports in
      let rest = filter (λ i. not (import_is_static i)) imports in
      not_empty-All import_name
        (ordered_statics import_name o statics ++ ordered import_name o rest)
        (All-append (Sorted import_name) (ordered_statics import_name o statics)
          (ordered import_name o rest) (ordered_statics-Sorted o statics) (ordered-Sorted o rest))
