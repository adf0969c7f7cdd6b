-- ===== src/Table/Vectors/Index.antt =====
-- crates/euledb-storage/src/store.rs and embedding.rs: the indexes of vectors and of text.
use eule_db.Common.{
  ℕ, List, [], ◌∷◌, ◌++◌, Bool, true, false, ◌||◌, Option, some, none, Result, ok, err,
  if◌then◌else◌,
}
use eule_db.Common.Text.{Text, codes, starts_with}
use eule_db.Crypto.Platform.{Platform}
use eule_db.Crypto.Capability.{Scope}
use eule_db.Audit.Log.{Io}
use eule_db.Table.Lance.{Lance, IndexParams, graph_index, quantised_index, inverted}
use eule_db.Table.Op.{Op, ◌>>=◌, ◌>>◌, done, or_backend}
use eule_db.Table.Handle.{
  World, LanceStore, vector_table, open_table, on_disk, require_scope, require_write_role,
  record_call,
}
use eule_db.Table.Vectors.Search.{quoted_column}

pub data VectorIndexKind : Type 0 where
  graph quantised : VectorIndexKind

pub data StemmingLanguage : Type 0 where
  unstemmed german english french spanish italian dutch portuguese : StemmingLanguage

unfoldable pub as_parts : StemmingLanguage → Text × Bool
as_parts unstemmed = (codes "English", false)
as_parts german = (codes "German", true)
as_parts english = (codes "English", true)
as_parts french = (codes "French", true)
as_parts spanish = (codes "Spanish", true)
as_parts italian = (codes "Italian", true)
as_parts dutch = (codes "Dutch", true)
as_parts portuguese = (codes "Portuguese", true)

abbrev pub index_params : VectorIndexKind → IndexParams
index_params graph = graph_index 16
index_params quantised = quantised_index 16 4

abbrev pub kind_name : VectorIndexKind → Text
kind_name graph = codes "graph"
kind_name quantised = codes "quantised"

-- `str::contains`
unfoldable pub contains_text : Text → Text → Bool
contains_text [] part = starts_with [] part
contains_text (c ∷ cs) part = if starts_with (c ∷ cs) part then true else contains_text cs part

-- The kind that the statistics of an index name.
unfoldable pub kind_of : Result ℕ Text → Option VectorIndexKind
unfolding contains_text
kind_of (err cause) = none
kind_of (ok statistics) =
    if contains_text statistics (codes "HNSW")
    then some graph
    else if contains_text statistics (codes "PQ")
    then some quantised
    else none

module _ (p : Platform) (io : Io) {l : Lance} where
  unfoldable pub create_vector_index :
      LanceStore l → Text → Text → VectorIndexKind → Op (World l) (Unit {0})
  unfolding require_scope require_write_role vector_table open_table record_call
  create_vector_index h table column kind = do
    require_scope p io h Scope.schema table
    require_write_role h "index the vectors of" table
    dataset ← open_table h (vector_table table column)
    on_disk "index the vectors of" table
        (l.create_index dataset (codes "embedding") (index_params kind))
    record_call p io h (codes "index the vectors of " ++ quoted_column table column)
        (kind_name kind) 0

  unfoldable pub create_text_index :
      LanceStore l → Text → Text → StemmingLanguage → Op (World l) (Unit {0})
  unfolding require_scope require_write_role open_table as_parts record_call
  create_text_index h table column language = do
    require_scope p io h Scope.schema table
    require_write_role h "index the text of" table
    let name = (as_parts language).0 in
        let stem = (as_parts language).1 in
        (do
          dataset ← open_table h table
          or_backend "index the text of" table (l.knows_language name)
          on_disk "index the text of" table
              (l.create_index dataset column (inverted name stem stem))
          record_call p io h (codes "index the text of " ++ quoted_column table column) name 0)

  unfoldable pub vector_index_kind :
      LanceStore l → Text → Text → Op (World l) (Option VectorIndexKind)
  unfolding require_scope vector_table open_table kind_of
  vector_index_kind h table column = do
    require_scope p io h Scope.read table
    dataset ← open_table h (vector_table table column)
    done (kind_of (l.index_statistics dataset (codes "embedding_idx")))

  unfoldable pub nearest_uses_the_index :
      LanceStore l → Text → Text → List l.F32 → ℕ → Op (World l) Bool
  unfolding require_scope vector_table open_table contains_text
  nearest_uses_the_index h table column query limit = do
    require_scope p io h Scope.read table
    dataset ← open_table h (vector_table table column)
    scanner ←
        or_backend "search the vectors of" table
          (l.nearest (l.scanner dataset) (codes "embedding") query limit)
    plan ← or_backend "explain the search of" table (l.explain_plan scanner)
    done (contains_text plan (codes "ANNSubIndex") || contains_text plan (codes "ANNIvfPartition"))
