-- ===== src/Compiler/ClassFile/Bootstraps.antt =====
-- The BootstrapMethods attribute as the constant pool writes it, read back.
use cappu.Base.{
  ℕ, ◌++◌, some, List, [], ◌∷◌, codes, All, All_map, length, ◌≡◌, refl, map, ap, sym, subst, ◌∙◌,
  append_assoc, append-nil,
}
use cappu.Compiler.ByteBuffer.{ByteBuffer, u2_bytes, put_u2}
use cappu.Compiler.ClassFile.Entries.{Parses-map}
use cappu.Compiler.ClassFile.Cursor.{Reader, u2}
use cappu.Compiler.ClassFile.Parses.{cursor_at, Parses, Parses-bind, Parses-u2}
use cappu.Compiler.ClassFile.Tables.{Attribute, ClassFile, repeat}
use cappu.Compiler.ClassFile.Layout.{IsU2, concat_map, table, TableInRange}
use cappu.Compiler.ClassFile.RoundTrip.{Parses-repeat}
use cappu.Compiler.ClassFile.Attributes.{
  find_attribute, read_while, table_of, BootstrapMethod, bootstrap_row, read_bootstrap_methods,
}
use cappu.Compiler.ConstantPool.{
  ConstantPool, BootstrapEntry, put_u2s, put_bootstraps, bootstrap_methods_body,
}

read_while-rows :
    {A B : Type 0} (r : Reader B) (f : A → List ℕ) (v : A → B) (xs : List A) (before : List ℕ)
    → All (λ x. Parses r (f x) (v x)) xs
    → read_while (length xs) r (cursor_at before (concat_map f xs)) ≡ map v xs
unfolding read_while
read_while-rows r f v [] before h = refl
read_while-rows r f v (x ∷ xs) before (p, h) =
    rw (read_while, p.whole before (concat_map f xs))
      (ap (λ ys. v x ∷ ys) (read_while-rows r f v xs (before ++ f x) h))

-- The bytes of a row.
abbrev row_bytes : BootstrapEntry → List ℕ
row_bytes e = u2_bytes e.handle ++ table u2_bytes e.args

abbrev pub row_of : BootstrapEntry → BootstrapMethod
row_of e = record { handle_index = e.handle; argument_indexes = e.args }

abbrev pub RowInRange : BootstrapEntry → Type 0
RowInRange e = IsU2 e.handle × TableInRange IsU2 e.args

map_id : (xs : List ℕ) → map (λ x. x) xs ≡ xs
map_id [] = refl
map_id (x ∷ xs) = ap (λ ys. x ∷ ys) (map_id xs)

Parses-row : (e : BootstrapEntry) → RowInRange e → Parses bootstrap_row (row_bytes e) (row_of e)
unfolding bootstrap_row
Parses-row e (hh, (hn, ha)) = Parses-bind _ (Parses-u2 e.handle hh) (
    Parses-bind _ (Parses-u2 (length e.args) hn) (
      Parses-map _ (
        subst (Parses (repeat (length e.args) u2) (concat_map u2_bytes e.args)) (map_id e.args)
          (Parses-repeat u2 u2_bytes (λ x. x) e.args (All_map e.args Parses-u2 ha)))))

put_u2s-bytes :
    (vs : List ℕ) (b : ByteBuffer) → (put_u2s vs b).bytes ≡ b.bytes ++ concat_map u2_bytes vs
unfolding put_u2s put_u2
put_u2s-bytes [] b = sym (append-nil b.bytes)
put_u2s-bytes (v ∷ vs) b =
    put_u2s-bytes vs (put_u2 v b) ∙ append_assoc b.bytes (u2_bytes v) (concat_map u2_bytes vs)

put_bootstraps-bytes :
    (es : List BootstrapEntry) (b : ByteBuffer)
    → (put_bootstraps es b).bytes ≡ b.bytes ++ concat_map row_bytes es
unfolding put_bootstraps put_u2
put_bootstraps-bytes [] b = sym (append-nil b.bytes)
put_bootstraps-bytes (e ∷ es) b =
    put_bootstraps-bytes es (put_u2s e.args (put_u2 (length e.args) (put_u2 e.handle b)))
    ∙ ap (λ bs. bs ++ concat_map row_bytes es) (put_u2s-bytes e.args _)
    ∙ append_assoc (b.bytes ++ u2_bytes e.handle ++ u2_bytes (length e.args))
        (concat_map u2_bytes e.args) (concat_map row_bytes es)
    ∙ append_assoc (b.bytes ++ u2_bytes e.handle) (u2_bytes (length e.args))
        (concat_map u2_bytes e.args ++ concat_map row_bytes es)
    ∙ append_assoc b.bytes (u2_bytes e.handle) (table u2_bytes e.args ++ concat_map row_bytes es)

body-bytes : (cp : ConstantPool) → (bootstrap_methods_body cp).bytes ≡ table row_bytes cp.bootstraps
unfolding bootstrap_methods_body put_u2
body-bytes cp = put_bootstraps-bytes cp.bootstraps _

-- Let a class file have the body that the constant pool gives as its attribute "BootstrapMethods",
-- and let the bootstrap methods, their numbers of arguments and the indices be in the range of two
-- bytes. Reading the attribute returns the bootstrap methods of the pool in their order.
pub read_bootstrap_methods-body :
    (cp : ConstantPool) (class_file : ClassFile) (a : Attribute)
    → TableInRange RowInRange cp.bootstraps
    → find_attribute class_file.attributes (codes "BootstrapMethods") ≡ some a
    → a.bytes ≡ (bootstrap_methods_body cp).bytes
    → read_bootstrap_methods class_file ≡ map row_of cp.bootstraps
unfolding read_bootstrap_methods table_of
read_bootstrap_methods-body cp class_file a (lt, h) found same =
    rw
      (
        read_bootstrap_methods,
        table_of,
        found,
        same,
        body-bytes cp,
        (Parses-u2 (length cp.bootstraps) lt).whole [] (concat_map row_bytes cp.bootstraps),
      )
      (read_while-rows bootstrap_row row_bytes row_of cp.bootstraps
        (u2_bytes (length cp.bootstraps)) (All_map cp.bootstraps Parses-row h))
