-- ===== src/Table/Calls.antt =====
-- crates/euledb-storage/src/store.rs: the operations of a handle as data, and what each asks of it.
use Prim.Native.String.{String}
use eule_db.Common.{ℕ, List, Bool, true, Option, some, none}
use eule_db.Common.Text.{Text, utf8}
use eule_db.Crypto.Platform.{Platform}
use eule_db.Crypto.Capability.{Scope, permits}
use eule_db.Audit.Log.{Io}
use eule_db.Compression.{TableDefinition}
use eule_db.Fusion.{Float32, Fused}
use eule_db.Measurement.{Float64, Measured}
use eule_db.Table.Lance.{Lance}
use eule_db.Table.Op.{Op}
use eule_db.Table.Handle.{World, LanceStore}
use eule_db.Table.Reads.{
  Order, row_ids, row_ids_measured, scan_ordered, scan_ordered_measured, scan,
}
use eule_db.Table.Sets.{create_index}
use eule_db.Table.Vectors.{RowVector, vectors_of}
use eule_db.Table.Vectors.Search.{nearest_vectors, search_text, hybrid_search}
use eule_db.Table.Vectors.Index.{
  VectorIndexKind, StemmingLanguage, create_vector_index, create_text_index, vector_index_kind,
  nearest_uses_the_index,
}
use eule_db.Table.Writes.{Assignment, create_table, append_rows, update, delete_rows, drop_table}

module _ (l : Lance) (f : Float32) (g : Float64) where
  -- The table comes first.
  pub data Call : Type 0 where
    to_create : Text → TableDefinition l.DataType → Call
    to_append : Text → l.Batch → Call
    to_update : Text → Text → List Assignment → Call
    to_delete : Text → Text → Call
    to_drop : Text → Call
    to_index : Text → Text → Call
    to_index_vectors : Text → Text → VectorIndexKind → Call
    to_index_text : Text → Text → StemmingLanguage → Call
    to_scan : Text → Call
    to_scan_ordered : Text → Text → Text → Order → Call
    to_measure_scan : Text → Text → Text → Order → Call
    to_find_rows : Text → Text → Call
    to_measure_rows : Text → Text → Call
    to_read_vectors : Text → Text → Call
    to_find_nearest : Text → Text → List l.F32 → ℕ → Call
    to_search_text : Text → Text → Text → ℕ → Call
    to_search_both : Text → Text → Text → List l.F32 → ℕ → Call
    to_name_index : Text → Text → Call
    to_explain_nearest : Text → Text → List l.F32 → ℕ → Call

module _ {l : Lance} {f : Float32} {g : Float64} where
  abbrev pub Answer : Call l f g → Type 0
  Answer (to_create table definition) = Unit {0}
  Answer (to_append table batch) = Unit {0}
  Answer (to_update table matching assignments) = ℕ
  Answer (to_delete table matching) = ℕ
  Answer (to_drop table) = Unit {0}
  Answer (to_index table column) = Unit {0}
  Answer (to_index_vectors table column kind) = Unit {0}
  Answer (to_index_text table column language) = Unit {0}
  Answer (to_scan table) = List l.Batch
  Answer (to_scan_ordered table matching by order) = List l.Batch
  Answer (to_measure_scan table matching by order) = Measured (List l.Batch)
  Answer (to_find_rows table matching) = List ℕ
  Answer (to_measure_rows table matching) = Measured (List ℕ)
  Answer (to_read_vectors table column) = List (RowVector l.F32)
  Answer (to_find_nearest table column query limit) = List (RowVector l.F32)
  Answer (to_search_text table column query limit) = List ℕ
  Answer (to_search_both table column text vector limit) = Fused f
  Answer (to_name_index table column) = Option VectorIndexKind
  Answer (to_explain_nearest table column query limit) = Bool

  abbrev pub table_of : Call l f g → Text
  table_of (to_create table definition) = table
  table_of (to_append table batch) = table
  table_of (to_update table matching assignments) = table
  table_of (to_delete table matching) = table
  table_of (to_drop table) = table
  table_of (to_index table column) = table
  table_of (to_index_vectors table column kind) = table
  table_of (to_index_text table column language) = table
  table_of (to_scan table) = table
  table_of (to_scan_ordered table matching by order) = table
  table_of (to_measure_scan table matching by order) = table
  table_of (to_find_rows table matching) = table
  table_of (to_measure_rows table matching) = table
  table_of (to_read_vectors table column) = table
  table_of (to_find_nearest table column query limit) = table
  table_of (to_search_text table column query limit) = table
  table_of (to_search_both table column text vector limit) = table
  table_of (to_name_index table column) = table
  table_of (to_explain_nearest table column query limit) = table

  abbrev pub scope_of : Call l f g → Scope
  scope_of (to_create table definition) = Scope.schema
  scope_of (to_append table batch) = Scope.write
  scope_of (to_update table matching assignments) = Scope.write
  scope_of (to_delete table matching) = Scope.write
  scope_of (to_drop table) = Scope.schema
  scope_of (to_index table column) = Scope.schema
  scope_of (to_index_vectors table column kind) = Scope.schema
  scope_of (to_index_text table column language) = Scope.schema
  scope_of _ = Scope.read

  -- The words for what the call does, of the calls that need the write role.
  abbrev pub write_words : Call l f g → Option String
  write_words (to_create table definition) = some "create the table"
  write_words (to_append table batch) = some "append to"
  write_words (to_update table matching assignments) = some "update"
  write_words (to_delete table matching) = some "delete from"
  write_words (to_drop table) = some "drop the table"
  write_words (to_index table column) = some "index a column of"
  write_words (to_index_vectors table column kind) = some "index the vectors of"
  write_words (to_index_text table column language) = some "index the text of"
  write_words _ = none

  unfoldable pub perform : Platform → Io → LanceStore l → (c : Call l f g) → Op (World l) (Answer c)
  unfolding create_table append_rows update delete_rows drop_table create_index create_vector_index
      create_text_index scan scan_ordered scan_ordered_measured row_ids row_ids_measured vectors_of
      nearest_vectors search_text hybrid_search vector_index_kind nearest_uses_the_index
  perform p io h (to_create table definition) = create_table p io h table definition
  perform p io h (to_append table batch) = append_rows p io h table batch
  perform p io h (to_update table matching assignments) = update p io h table matching assignments
  perform p io h (to_delete table matching) = delete_rows p io h table matching
  perform p io h (to_drop table) = drop_table p io h table
  perform p io h (to_index table column) = create_index p io h table column
  perform p io h (to_index_vectors table column kind) = create_vector_index p io h table column kind
  perform p io h (to_index_text table column language) =
      create_text_index p io h table column language
  perform p io h (to_scan table) = scan p io h table
  perform p io h (to_scan_ordered table matching by order) =
      scan_ordered p io h table matching by order
  perform p io h (to_measure_scan table matching by order) =
      scan_ordered_measured p io g h table matching by order
  perform p io h (to_find_rows table matching) = row_ids p io h table matching
  perform p io h (to_measure_rows table matching) = row_ids_measured p io g h table matching
  perform p io h (to_read_vectors table column) = vectors_of p io h table column
  perform p io h (to_find_nearest table column query limit) =
      nearest_vectors p io h table column query limit
  perform p io h (to_search_text table column query limit) =
      search_text p io h table column query limit
  perform p io h (to_search_both table column text vector limit) =
      hybrid_search p io f h table column text vector limit
  perform p io h (to_name_index table column) = vector_index_kind p io h table column
  perform p io h (to_explain_nearest table column query limit) =
      nearest_uses_the_index p io h table column query limit

  -- Whether the gate lets a call pass, if there is one.
  abbrev pub is_granted : Platform → LanceStore l → Call l f g → Bool
  is_granted p h c = elim h.gate [
    | none ↦ true
    | some gate ↦ permits p gate (utf8 (table_of c)) (scope_of c)
  ]
