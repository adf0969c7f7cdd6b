-- ===== src/Compression.antt =====
-- crates/euledb-storage/src/compression.rs and definition.rs: how a table is compressed, and its declaration.
-- The metadata of a schema or of a field is an association list. A schema is the crate arrow's.
pub mod Strip
use eule_db.Common.{
  ℕ, List, [], ◌∷◌, map, Bool, true, false, ◌&&◌, Result, ok, err, leb, eq_bytes, if◌then◌else◌,
}
use eule_db.Common.Text.{Text, codes}
use eule_db.Audit.Line.{decimal}
use eule_db.Schema.{Field, insert_entry}

-- "lance-encoding:compression" and "lance-encoding:compression-level"
abbrev pub compression_key : Text
compression_key = codes "lance-encoding:compression"

abbrev pub level_key : Text
level_key = codes "lance-encoding:compression-level"

-- A `ZstdLevel` is its number.
abbrev pub fastest : ℕ
fastest = 1

abbrev pub smallest : ℕ
smallest = 22

abbrev pub default_level : ℕ
default_level = fastest

pub data InvalidZstdLevel : Type 0 where
  given : ℕ → InvalidZstdLevel

unfoldable pub new_level : ℕ → Result InvalidZstdLevel ℕ
new_level level = if leb fastest level && leb level smallest then ok level else err (given level)

pub data Compression : Type 0 where
  zstd : ℕ → Compression
  uncompressed : Compression

abbrev pub default_compression : Compression
default_compression = zstd default_level

unfoldable pub encoding_metadata : Compression → List (Text × Text)
encoding_metadata (zstd level) = (compression_key, codes "zstd") ∷ (level_key, decimal level) ∷ []
encoding_metadata uncompressed = (compression_key, codes "none") ∷ []

pub record ArrowSchema (DataType : Type 0) : Type 0 where
  pub fields : List (Field DataType)
  pub schema_metadata : List (Text × Text)

-- `HashMap::extend` and `HashMap::remove`; a key stands once.
unfoldable pub extend_entries : List (Text × Text) → List (Text × Text) → List (Text × Text)
unfolding insert_entry
extend_entries m [] = m
extend_entries m ((k, v) ∷ rest) = extend_entries (insert_entry k v m) rest

unfoldable pub remove_entry : Text → List (Text × Text) → List (Text × Text)
remove_entry key [] = []
remove_entry key ((k, v) ∷ rest) = if eq_bytes k key then rest else (k, v) ∷ remove_entry key rest

module _ {DataType : Type 0} where
  unfoldable pub encode_field : List (Text × Text) → Field DataType → Field DataType
  unfolding extend_entries
  encode_field metadata field = record field { metadata = extend_entries field.metadata metadata }

  unfoldable pub strip_field : Field DataType → Field DataType
  unfolding remove_entry
  strip_field field = record field {
    metadata = remove_entry level_key (remove_entry compression_key field.metadata);
  }

  unfoldable pub applied_to : Compression → ArrowSchema DataType → ArrowSchema DataType
  unfolding encoding_metadata encode_field
  applied_to c schema = record {
    fields = map (encode_field (encoding_metadata c)) schema.fields;
    schema_metadata = schema.schema_metadata;
  }

  unfoldable pub stripped_from : ArrowSchema DataType → ArrowSchema DataType
  unfolding strip_field
  stripped_from schema = record {
    fields = map strip_field schema.fields;
    schema_metadata = schema.schema_metadata;
  }

-- `TableDefinition`
pub record TableDefinition (DataType : Type 0) : Type 0 where
  pub declared : ArrowSchema DataType
  pub compression : Compression

module _ {DataType : Type 0} where
  unfoldable pub new_definition : ArrowSchema DataType → TableDefinition DataType
  new_definition schema = record { declared = schema; compression = default_compression }

  unfoldable pub with_compression :
      TableDefinition DataType → Compression → TableDefinition DataType
  with_compression d c = record d { compression = c }
