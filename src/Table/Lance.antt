-- ===== src/Table/Lance.antt =====
-- What crates/euledb-storage/src/store.rs takes from elsewhere: the on-disk format of the crate lance, the
-- batches of the crate arrow, the removal of a directory, and floats. `Disk` is all that they store; a
-- failure of theirs is a number.
use eule_db.Common.{ℕ, List, Bool, Option, Result}
use eule_db.Common.Text.{Text}
use eule_db.Crypto.Frame.{BlockFrame}
use eule_db.Compression.{ArrowSchema}

pub data WriteMode : Type 0 where
  create_mode append_mode overwrite_mode : WriteMode

-- What an index is built of: a column and the kind, with the numbers and names that the code sets.
pub data IndexParams : Type 0 where
  btree : IndexParams
  -- `m`, over one partition, by cosine distance
  graph_index : ℕ → IndexParams
  -- The sub-vectors and the bits of a code, over one partition, by cosine distance
  quantised_index : ℕ → ℕ → IndexParams
  -- The language, whether to stem, and whether to remove stop words; in lower case
  inverted : Text → Bool → Bool → IndexParams

pub record Lance : Type 1 where
  pub Disk : Type 0
  pub Dataset : Type 0
  pub Scanner : Type 0
  pub Rows : Type 0
  pub DataType : Type 0
  pub F32 : Type 0
  pub Builder : Type 0
  pub Job : Type 0
  -- A `RecordBatch`: its schema, its length, and its columns by name where they have the type asked for.
  pub Batch : Type 0
  pub schema_of : Batch → ArrowSchema DataType
  pub num_rows : Batch → ℕ
  pub has_column : Batch → Text → Bool
  pub u64_column : Batch → Text → Option (List ℕ)
  pub u32_column : Batch → Text → Option (List ℕ)
  pub text_column : Batch → Text → Option (List Text)
  pub vector_column : Batch → Text → Option (List (List F32))
  -- `RecordBatch::try_new` with other metadata and the same columns
  pub with_schema : ArrowSchema DataType → Batch → Result ℕ Batch
  -- `DatasetBuilder::from_uri`, with a session or none, and `load`
  pub load : Text → Option BlockFrame → Disk → Result ℕ Dataset
  -- `Dataset::write`
  pub write :
      WriteMode
      → Option BlockFrame
      → Text
      → ArrowSchema DataType
      → List Batch
      → Disk
      → Result ℕ (Unit {0}) × Disk
  pub dataset_schema : Dataset → ArrowSchema DataType
  pub count_rows : Dataset → Option Text → Result ℕ ℕ
  pub delete : Dataset → Text → Disk → Result ℕ ℕ × Disk
  pub create_index : Dataset → Text → IndexParams → Disk → Result ℕ (Unit {0}) × Disk
  pub index_statistics : Dataset → Text → Result ℕ Text
  -- `InvertedIndexParams::language`
  pub knows_language : Text → Result ℕ (Unit {0})
  pub update_where : Dataset → Text → Result ℕ Builder
  pub set : Builder → Text → Text → Result ℕ Builder
  pub build : Builder → Result ℕ Job
  pub execute : Job → Disk → Result ℕ ℕ × Disk
  pub scanner : Dataset → Scanner
  pub filter : Scanner → Text → Result ℕ Scanner
  -- By a column, ascending or not, nulls last
  pub order_by : Scanner → Text → Bool → Result ℕ Scanner
  pub with_row_id : Scanner → Scanner
  pub project : Scanner → List Text → Result ℕ Scanner
  pub nearest : Scanner → Text → List F32 → ℕ → Result ℕ Scanner
  pub full_text_search : Scanner → Text → Result ℕ Scanner
  pub limit : Scanner → ℕ → Result ℕ Scanner
  pub into_stream : Scanner → Result ℕ Rows
  pub try_collect : Rows → Result ℕ (List Batch)
  pub analyze_plan : Scanner → Result ℕ Text
  pub explain_plan : Scanner → Result ℕ Text
  -- The batch of a companion table, from its rows, chunks and values; `none` is a failure of arrow's.
  pub vector_batch : ArrowSchema DataType → List ℕ → List ℕ → List F32 → Result ℕ Batch
  pub vector_schema : ArrowSchema DataType
  -- `std::fs::remove_dir_all`
  pub remove_dir_all : Text → Disk → Result ℕ (Unit {0}) × Disk
  -- `EncryptingProvider::uri`, which goes through the crate url
  pub encrypted_uri : Text → Text
  -- A text as `{:?}` prints it, which goes by the tables of Unicode
  pub debug : Text → Text

-- A model that embeds, or says why it does not.
pub record Embedder (l : Lance) : Type 0 where
  pub embed_passage : Text → Result Text (List (List l.F32))
  pub embed_query : Text → Result Text (List l.F32)
