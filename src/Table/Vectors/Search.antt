-- ===== src/Table/Vectors/Search.antt =====
-- crates/euledb-storage/src/store.rs: searches by a vector, by a text, and by both.
use eule_db.Common.{ℕ, ◌-◌, ◌^◌, min, max, List, [], ◌∷◌, ◌++◌, length, map, ◌==◌, if◌then◌else◌}
use eule_db.Common.{none}
use eule_db.Common.Text.{Text, codes}
use eule_db.Crypto.Platform.{Platform}
use eule_db.Crypto.Capability.{Scope}
use eule_db.Audit.Line.{decimal}
use eule_db.Audit.Log.{Io}
use eule_db.Fusion.{Float32, Fused, fuse}
use eule_db.Measurement.{saturating_mul}
use eule_db.Table.Lance.{Lance}
use eule_db.Table.Error.{wrong_vector_width}
use eule_db.Table.Op.{Op, ◌>>=◌, ◌>>◌, done, fail, or_backend, or_said}
use eule_db.Table.Handle.{World, LanceStore, vector_table, open_table, require_scope, record_call}
use eule_db.Table.Reads.{row_id_column, stream_of}
use eule_db.Table.Vectors.{vector_width, RowVector, read_vectors}

-- `table`.`column` in backquotes
abbrev pub quoted_column : Text → Text → Text
quoted_column table column = codes "`" ++ (table ++ (codes "`.`" ++ (column ++ codes "`")))

-- `breadth`
abbrev pub breadth_for : ℕ → ℕ
breadth_for limit = max (saturating_mul limit 2) limit

module _ {l : Lance} where
  -- The row ids of the batches of a text search.
  unfoldable pub hits_of : Text → List l.Batch → Op (World l) (List ℕ)
  hits_of table [] = done []
  hits_of table (batch ∷ rest) = do
    rows ←
        or_said "read the text results of" table "no row-id column"
          (l.u64_column batch row_id_column)
    others ← hits_of table rest
    done (rows ++ others)

  -- The test of the width of a query.
  abbrev pub require_width : List l.F32 → Op (World l) (Unit {0})
  require_width query =
      if length query == vector_width
      then done tt
      else fail (wrong_vector_width (length query) vector_width)

module _ (p : Platform) (io : Io) {l : Lance} where
  unfoldable pub nearest_vectors :
      LanceStore l → Text → Text → List l.F32 → ℕ → Op (World l) (List (RowVector l.F32))
  unfolding require_scope vector_table open_table stream_of read_vectors record_call
  nearest_vectors h table column query limit = do
    require_scope p io h Scope.read table
    require_width query
    dataset ← open_table h (vector_table table column)
    scanner ←
        or_backend "search the vectors of" table
          (l.nearest (l.scanner dataset) (codes "embedding") query limit)
    batches ← stream_of "start a search of" "read the search results of" table scanner
    found ← read_vectors "read the search results of" table batches
    record_call p io h (codes "search the vectors of " ++ quoted_column table column) []
        (length found)
    done found

  unfoldable pub search_text : LanceStore l → Text → Text → Text → ℕ → Op (World l) (List ℕ)
  unfolding require_scope open_table stream_of hits_of record_call
  search_text h table column query limit = do
    require_scope p io h Scope.read table
    dataset ← open_table h table
    searched ← or_backend "search the text of" table (l.full_text_search (l.scanner dataset) query)
    limited ←
        or_backend "limit the search of" table
          (l.limit (l.with_row_id searched) (min limit (2 ^ 63 - 1)))
    projected ← or_backend "project no columns of" table (l.project limited [])
    batches ← stream_of "start a text search of" "read the text results of" table projected
    hits ← hits_of table batches
    record_call p io h (codes "search the text of " ++ quoted_column table column) query
        (length hits)
    done hits

  unfoldable pub hybrid_search :
      (f : Float32) → LanceStore l → Text → Text → Text → List l.F32 → ℕ → Op (World l) (Fused f)
  unfolding require_scope nearest_vectors search_text open_table fuse record_call
  hybrid_search f h table column text vector limit = do
    require_scope p io h Scope.read table
    semantic ← nearest_vectors h table column vector (breadth_for limit)
    lexical ← search_text h table column text (breadth_for limit)
    dataset ← open_table h table
    rows ← or_backend "count the rows of" table (l.count_rows dataset none)
    let fused = fuse f (map (λ hit. hit.row) semantic) lexical rows limit in
        (do
          record_call p io h
              (codes "hybrid search of "
                ++ (quoted_column table column ++ (codes " for " ++ l.debug text)))
              (codes "rrf k=" ++ decimal fused.effective_k) (length fused.hits)
          done fused)
