-- ===== src/Schema/Embedding.antt =====
-- The columns that embed themselves: crates/euledb-storage/src/schema.rs.
use eule_db.Common.{List, [], ◌∷◌, true, ◌||◌, eq_bytes, eq_bytes_refl, if◌then◌else◌}
use eule_db.Common.{◌≡◌, refl, ap, Bool-cases, inl, inr}
use eule_db.Common.Text.{Text}
use eule_db.Schema.{
  Field, insert_entry, has_entry, mark, auto_embedding, auto_embedding_columns, auto_embedding_key,
}

has_entry-insert_entry :
    (key value : Text) (m : List (Text × Text)) → has_entry key (insert_entry key value m) ≡ true
unfolding has_entry insert_entry
has_entry-insert_entry key value [] = rw (eq_bytes_refl key) refl
has_entry-insert_entry key value ((k, v) ∷ rest) = elim (Bool-cases (eq_bytes k key)) [
  | inl e ↦ rw e (rw (eq_bytes_refl key) refl)
  | inr e ↦ rw e (rw e (has_entry-insert_entry key value rest))
]

module _ {DataType : Type 0} where
  -- The names, in order, of the fields that are named `column` or embed already.
  abbrev pub embedding_or_named : Text → List (Field DataType) → List Text
  embedding_or_named column [] = []
  embedding_or_named column (field ∷ rest) =
      let others = embedding_or_named column rest in
      if eq_bytes field.name column || has_entry auto_embedding_key field.metadata
      then field.name ∷ others
      else others

  -- Declaring a column as embedding adds that column, if the table has one of the name, to those that
  -- embed, keeps the others, and lists them in the order of the table.
  pub auto_embedding_columns-auto_embedding :
      (column : Text) (fields : List (Field DataType))
      → auto_embedding_columns (auto_embedding column fields) ≡ embedding_or_named column fields
  unfolding auto_embedding_columns auto_embedding mark
  auto_embedding_columns-auto_embedding column [] = refl
  auto_embedding_columns-auto_embedding column (field ∷ rest) =
      let ih = auto_embedding_columns-auto_embedding column rest in
      elim (Bool-cases (eq_bytes field.name column)) [
        | inl e ↦ rw e (
            rw (has_entry-insert_entry auto_embedding_key _ field.metadata)
              (ap (λ t. field.name ∷ t) ih))
        | inr e ↦
            rw e (
              ap (λ t. if has_entry auto_embedding_key field.metadata then field.name ∷ t else t)
                ih)
      ]
