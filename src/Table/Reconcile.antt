-- ===== src/Table/Reconcile.antt =====
-- crates/euledb-storage/src/store.rs: the companion tables follow their table.
use eule_db.Common.{
  ℕ, List, [], ◌∷◌, flatten, map, Option, some, none, Result, ok, err, eq_bytes, if◌then◌else◌,
}
use eule_db.Common.Text.{Text}
use eule_db.Crypto.Platform.{Platform}
use eule_db.Audit.Log.{Io}
use eule_db.Schema.{auto_embedding_columns}
use eule_db.Table.Lance.{Lance, Embedder, overwrite_mode}
use eule_db.Table.Error.{Error, backend, said}
use eule_db.Table.Op.{Op, ◌>>=◌, ◌>>◌, done, fail, or_backend}
use eule_db.Table.Handle.{World, LanceStore, vector_table, uri, open_table, on_disk}
use eule_db.Table.Reads.{stream_of}
use eule_db.Table.Vectors.{RowVector, vectors_of}
use eule_db.Table.Vectors.Rebuild.{row_set, texts_of, rebuild}

module _ (p : Platform) (io : Io) {l : Lance} where
  -- What the companion table holds, or nothing when it does not open.
  abbrev pub existing_of :
      LanceStore l
      → Text
      → Text
      → Result Error l.Dataset × World l
      → Result Error (List (RowVector l.F32)) × World l
  existing_of h table column (ok dataset, s) = vectors_of p io h table column s
  existing_of h table column (err e, s) = (ok [], s)

  unfoldable pub existing_vectors :
      LanceStore l → Text → Text → Op (World l) (List (RowVector l.F32))
  unfolding vectors_of open_table vector_table
  existing_vectors h table column s =
      existing_of h table column (open_table h (vector_table table column) s)

  unfoldable pub present_texts : LanceStore l → Text → Text → Op (World l) (List (ℕ × Text))
  unfolding open_table stream_of texts_of
  present_texts h table column = do
    dataset ← open_table h table
    scanner ←
        or_backend "project the embedding column of" table
          (l.project (l.with_row_id (l.scanner dataset)) (column ∷ []))
    batches ← stream_of "start a scan of the table" "read the table" table scanner
    texts_of table column batches

  -- The vectors replace the companion table; the write is given no session.
  unfoldable pub write_vectors :
      LanceStore l → Text → Text → List (RowVector l.F32) → Op (World l) (Unit {0})
  unfolding uri vector_table
  write_vectors h table column vectors = do
    batch ← or_backend "build the vectors of" table (
        l.vector_batch l.vector_schema (map (λ v. v.row) vectors) (map (λ v. v.chunk) vectors)
          (flatten (map (λ v. v.embedding) vectors)))
    on_disk "write the vectors of" table (
        l.write overwrite_mode none (uri h (vector_table table column)) l.vector_schema
          (batch ∷ []))

  -- What `reconcile` does once it has read both tables.
  unfoldable pub refresh :
      LanceStore l
      → Text
      → Text
      → Embedder l
      → List (RowVector l.F32)
      → List (ℕ × Text)
      → Op (World l) (Unit {0})
  unfolding row_set rebuild write_vectors
  refresh h table column embedder existing present =
      if eq_bytes (row_set (map (λ t. t.0) present)) (row_set (map (λ v. v.row) existing))
      then done tt
      else (do
        vectors ← rebuild table embedder existing present
        write_vectors h table column vectors)

  unfoldable pub reconcile_with :
      LanceStore l → Text → Text → Option (Embedder l) → Op (World l) (Unit {0})
  unfolding existing_vectors present_texts refresh
  reconcile_with h table column none = fail (
      backend "embed the auto-embedding column of" table
        (said "this handle has no embedder: open it with `embedding(..)`"))
  reconcile_with h table column (some embedder) = do
    existing ← existing_vectors h table column
    present ← present_texts h table column
    refresh h table column embedder existing present

  unfoldable pub reconcile : LanceStore l → Text → Text → Op (World l) (Unit {0})
  unfolding reconcile_with
  reconcile h table column = reconcile_with h table column h.embedder

  unfoldable pub embedding_columns : LanceStore l → Text → Op (World l) (List Text)
  unfolding open_table auto_embedding_columns
  embedding_columns h table = do
    dataset ← open_table h table
    done (auto_embedding_columns (l.dataset_schema dataset).fields)

  unfoldable pub reconcile_each : LanceStore l → Text → List Text → Op (World l) (Unit {0})
  unfolding reconcile
  reconcile_each h table [] = done tt
  reconcile_each h table (column ∷ rest) = do reconcile h table column; reconcile_each h table rest

  unfoldable pub reconcile_all : LanceStore l → Text → Op (World l) (Unit {0})
  unfolding embedding_columns reconcile_each
  reconcile_all h table = do columns ← embedding_columns h table; reconcile_each h table columns
