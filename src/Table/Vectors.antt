-- ===== src/Table/Vectors.antt =====
-- crates/euledb-storage/src/store.rs and embedding.rs: the companion table of an embedding column.
pub mod Search
pub mod Index
pub mod Rebuild
pub mod Sorted
pub mod RoundTrip
use Prim.Native.String.{String}
use eule_db.Common.{
  ℕ, zero, suc, List, [], ◌∷◌, ◌++◌, Bool, true, false, ◌&&◌, ◌||◌, ltb, ◌==◌, if◌then◌else◌,
}
use eule_db.Common.{Option, some, none, Result, ok, err}
use eule_db.Common.Text.{Text, codes}
use eule_db.Crypto.Platform.{Platform}
use eule_db.Crypto.Capability.{Scope}
use eule_db.Audit.Log.{Io}
use eule_db.Table.Lance.{Lance, Embedder}
use eule_db.Table.Error.{Error, storage, no_embedder, query_not_embeddable}
use eule_db.Table.Op.{Op, ◌>>=◌, ◌>>◌, done, fail, or_said}
use eule_db.Table.Handle.{World, LanceStore, vector_table, open_table, require_scope}
use eule_db.Table.Reads.{collect}

abbrev pub vector_width : ℕ
vector_width = 384

pub record RowVector (F : Type 0) : Type 0 where
  pub row : ℕ
  pub chunk : ℕ
  pub embedding : List F

module _ {F : Type 0} where
  -- The vectors of one batch; arrow's columns are as long as it.
  abbrev pub zip_vectors : List ℕ → List ℕ → List (List F) → List (RowVector F)
  zip_vectors [] chunks embeddings = []
  zip_vectors (r ∷ rows) [] embeddings = []
  zip_vectors (r ∷ rows) (c ∷ chunks) [] = []
  zip_vectors (r ∷ rows) (c ∷ chunks) (e ∷ embeddings) =
      record { row = r; chunk = c; embedding = e } ∷ zip_vectors rows chunks embeddings

  abbrev pub key_below : RowVector F → RowVector F → Bool
  key_below v w = ltb v.row w.row || (v.row == w.row && ltb v.chunk w.chunk)

  -- `sort_by_key` by the row and the chunk, which is stable.
  unfoldable pub insert_vector : RowVector F → List (RowVector F) → List (RowVector F)
  insert_vector v [] = v ∷ []
  insert_vector v (w ∷ rest) = if key_below w v then w ∷ insert_vector v rest else v ∷ w ∷ rest

  unfoldable pub sort_vectors : List (RowVector F) → List (RowVector F)
  unfolding insert_vector
  sort_vectors [] = []
  sort_vectors (v ∷ rest) = insert_vector v (sort_vectors rest)

-- What `LanceStore::embed_query` makes of the embedder's answer.
abbrev pub embedded : {A : Type 0} → Result Text A → Result Error A
embedded (ok vector) = ok vector
embedded (err cause) = err (storage (query_not_embeddable cause))

module _ {l : Lance} where
  -- The vectors of the batches, and what is said of a batch without a column. The values of a column of
  -- vectors are floats.
  unfoldable pub read_vectors : String → Text → List l.Batch → Op (World l) (List (RowVector l.F32))
  read_vectors reading table [] = done []
  read_vectors reading table (batch ∷ rest) = do
    rows ← or_said reading table "no row column" (l.u64_column batch (codes "row"))
    chunks ← or_said reading table "no chunk column" (l.u32_column batch (codes "chunk"))
    embeddings ←
        or_said reading table "no embedding column" (l.vector_column batch (codes "embedding"))
    others ← read_vectors reading table rest
    done (zip_vectors rows chunks embeddings ++ others)

  unfoldable pub embed_query : LanceStore l → Text → Result Error (List l.F32)
  embed_query h query = elim h.embedder [
    | none ↦ err (storage no_embedder)
    | some embedder ↦ embedded (embedder.embed_query query)
  ]

module _ (p : Platform) (io : Io) {l : Lance} where
  unfoldable pub vectors_of : LanceStore l → Text → Text → Op (World l) (List (RowVector l.F32))
  unfolding require_scope vector_table open_table collect read_vectors sort_vectors
  vectors_of h table column = do
    require_scope p io h Scope.read table
    dataset ← open_table h (vector_table table column)
    batches ← collect (l.scanner dataset) table
    vectors ← read_vectors "read the vectors of" table batches
    done (sort_vectors vectors)
