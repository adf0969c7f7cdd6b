-- ===== src/Schema.antt =====
-- crates/euledb-storage/src/schema.rs: the declared shape of a table, and the check on a batch.
-- The crate arrow's types of data are the parameter `DataType` with its equality, and its search of a
-- column by name is the parameter `column_with_name`. Metadata is an association list.
pub mod Validate
pub mod Embedding
use eule_db.Common.{
  List, [], ◌∷◌, map, Bool, true, false, not, ◌&&◌, Option, some, none, eq_bytes, if◌then◌else◌,
}
use eule_db.Common.{Result, ok, err, refuse_if, ◌>>=◌, ◌>>◌}
use eule_db.Common.Text.{Text, codes}

pub record Field (DataType : Type 0) : Type 0 where
  pub name : Text
  pub data_type : DataType
  pub nullable : Bool
  pub metadata : List (Text × Text)

pub data SchemaMismatch (DataType : Type 0) : Type 0 where
  missing_column undeclared_column : Text → SchemaMismatch DataType
  type_mismatch : Text → DataType → DataType → SchemaMismatch DataType
  nullability_mismatch : Text → Bool → SchemaMismatch DataType

-- "euledb:auto-embedding"
abbrev pub auto_embedding_key : Text
auto_embedding_key = codes "euledb:auto-embedding"

-- `HashMap::insert` and `HashMap::contains_key`.
unfoldable pub insert_entry : Text → Text → List (Text × Text) → List (Text × Text)
insert_entry key value [] = (key, value) ∷ []
insert_entry key value ((k, v) ∷ rest) =
    if eq_bytes k key then (key, value) ∷ rest else (k, v) ∷ insert_entry key value rest

unfoldable pub has_entry : Text → List (Text × Text) → Bool
has_entry key [] = false
has_entry key ((k, v) ∷ rest) = if eq_bytes k key then true else has_entry key rest

module _ {DataType : Type 0} where
  -- What `auto_embedding` makes of one field.
  unfoldable pub mark : Text → Field DataType → Field DataType
  unfolding insert_entry
  mark column field =
      if not (eq_bytes field.name column)
      then field
      else record field { metadata = insert_entry auto_embedding_key (codes "true") field.metadata }

  unfoldable pub auto_embedding : Text → List (Field DataType) → List (Field DataType)
  unfolding mark
  auto_embedding column fields = map (mark column) fields

  unfoldable pub auto_embedding_columns : List (Field DataType) → List Text
  unfolding has_entry
  auto_embedding_columns [] = []
  auto_embedding_columns (field ∷ rest) =
      let others = auto_embedding_columns rest in
      if has_entry auto_embedding_key field.metadata then field.name ∷ others else others

module _ (DataType : Type 0) (eq_type : DataType → DataType → Bool)
    (column_with_name : List (Field DataType) → Text → Option (Field DataType)) where
  -- What is checked of a declared column and the column of the batch that has its name.
  unfoldable pub check_column :
      Field DataType → Option (Field DataType) → Result (SchemaMismatch DataType) (Unit {0})
  check_column declared none = err (missing_column declared.name)
  check_column declared (some found) = do
    refuse_if (not (eq_type found.data_type declared.data_type))
        (type_mismatch declared.name declared.data_type found.data_type)
    refuse_if (found.nullable && not declared.nullable) (nullability_mismatch declared.name false)

  unfoldable pub check_declared :
      List (Field DataType) → List (Field DataType) → Result (SchemaMismatch DataType) (Unit {0})
  unfolding check_column
  check_declared [] present = ok tt
  check_declared (declared ∷ rest) present = do
    check_column declared (column_with_name present declared.name)
    check_declared rest present

  unfoldable pub check_present :
      List (Field DataType) → List (Field DataType) → Result (SchemaMismatch DataType) (Unit {0})
  check_present schema [] = ok tt
  check_present schema (field ∷ rest) = elim (column_with_name schema field.name) [
    | none ↦ err (undeclared_column field.name)
    | some _ ↦ check_present schema rest
  ]

  unfoldable pub validate :
      List (Field DataType) → List (Field DataType) → Result (SchemaMismatch DataType) (Unit {0})
  unfolding check_declared check_present
  validate schema present = do check_declared schema present; check_present schema present
