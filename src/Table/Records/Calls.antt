-- ===== src/Table/Records/Calls.antt =====
-- A call that answers has its record in the audit log: crates/euledb-storage/src/store.rs.
use eule_db.Common.{ℕ, ◌++◌, true, Option, some, none, ok, ◌≡◌, subst}
use eule_db.Common.Text.{Text, codes}
use eule_db.Crypto.Platform.{Platform}
use eule_db.Audit.Log.{Io, File, append}
use eule_db.Fusion.{Float32}
use eule_db.Measurement.{Float64}
use eule_db.Table.Lance.{Lance}
use eule_db.Table.Handle.{World, LanceStore}
use eule_db.Table.Vectors.Search.{quoted_column}
use eule_db.Table.Writes.{quoted}
use eule_db.Table.Calls.{
  Call, Answer, perform, to_create, to_append, to_update, to_delete, to_drop, to_index,
  to_index_vectors, to_index_text, to_scan, to_scan_ordered, to_measure_scan, to_find_rows,
  to_measure_rows, to_read_vectors, to_find_nearest, to_search_text, to_search_both, to_name_index,
  to_explain_nearest,
}
use eule_db.Table.Records.{HasRecord}
use eule_db.Table.Records.Operations.{
  create_table-Records, append_rows-Records, update-Records, delete_rows-Records,
  drop_table-Records, create_vector_index-Records, create_text_index-Records, scan-Records,
  nearest_vectors-Records, search_text-Records,
}

-- What is recorded of a call, of those that make one record.
abbrev pub query_of : {l : Lance} {f : Float32} {g : Float64} → Call l f g → Option Text
query_of (to_create t d) = some (codes "create table " ++ quoted t)
query_of (to_append t b) = some (codes "insert into " ++ quoted t)
query_of (to_update t m a) = some (codes "update " ++ (quoted t ++ (codes " where " ++ m)))
query_of (to_delete t m) = some (codes "delete from " ++ (quoted t ++ (codes " where " ++ m)))
query_of (to_drop t) = some (codes "drop table " ++ quoted t)
query_of (to_index_vectors t c k) = some (codes "index the vectors of " ++ quoted_column t c)
query_of (to_index_text t c k) = some (codes "index the text of " ++ quoted_column t c)
query_of (to_scan t) = some (codes "scan `" ++ (t ++ codes "`"))
query_of (to_find_nearest t c q n) = some (codes "search the vectors of " ++ quoted_column t c)
query_of (to_search_text t c q n) = some (codes "search the text of " ++ quoted_column t c)
query_of _ = none

module _ (p : Platform) (io : Io) where
  of_query :
      {own query : Text} (before later : File)
      → some own ≡ some query
      → HasRecord p io own before later
      → HasRecord p io query before later
  of_query {own = own} {query = query} before later e r =
      let same : own ≡ query = cc in subst (λ q. HasRecord p io q before later) same r

module _ (p : Platform) (io : Io) {l : Lance} {f : Float32} {g : Float64} (h : LanceStore l) where
  -- When a call of an audited handle answers, of the calls that make one record, then appending that record,
  -- of the words for the call, to the log as it was before the call has succeeded and has made the log what it
  -- is after it: a call whose record cannot be written does not answer, and nothing else is written to the log.
  pub perform-records :
      (c : Call l f g) {query : Text} (s : World l) (answer : Answer c) (later : World l)
      → h.auditing ≡ true
      → query_of c ≡ some query
      → perform p io h c s ≡ (ok answer, later)
      → (plan : Text) × ((rows : ℕ) × (append p io s.log query plan rows ≡ (ok tt, later.log)))
  unfolding perform
  perform-records (to_create t d) s x u on e r =
      of_query p io s.log u.log e (create_table-Records p io h on t d s x u r)
  perform-records (to_append t b) s x u on e r =
      of_query p io s.log u.log e (append_rows-Records p io h on t b s x u r)
  perform-records (to_update t m a) s x u on e r =
      of_query p io s.log u.log e (update-Records p io h on t m a s x u r)
  perform-records (to_delete t m) s x u on e r =
      of_query p io s.log u.log e (delete_rows-Records p io h on t m s x u r)
  perform-records (to_drop t) s x u on e r =
      of_query p io s.log u.log e (drop_table-Records p io h on t s x u r)
  perform-records (to_index t c) s x u on e r = cc
  perform-records (to_index_vectors t c k) s x u on e r =
      of_query p io s.log u.log e (create_vector_index-Records p io h on t c k s x u r)
  perform-records (to_index_text t c k) s x u on e r =
      of_query p io s.log u.log e (create_text_index-Records p io h on t c k s x u r)
  perform-records (to_scan t) s x u on e r =
      of_query p io s.log u.log e (scan-Records p io h on t s x u r)
  perform-records (to_scan_ordered t m by o) s x u on e r = cc
  perform-records (to_measure_scan t m by o) s x u on e r = cc
  perform-records (to_find_rows t m) s x u on e r = cc
  perform-records (to_measure_rows t m) s x u on e r = cc
  perform-records (to_read_vectors t c) s x u on e r = cc
  perform-records (to_find_nearest t c q n) s x u on e r =
      of_query p io s.log u.log e (nearest_vectors-Records p io h on t c q n s x u r)
  perform-records (to_search_text t c q n) s x u on e r =
      of_query p io s.log u.log e (search_text-Records p io h on t c q n s x u r)
  perform-records (to_search_both t c y v n) s x u on e r = cc
  perform-records (to_name_index t c) s x u on e r = cc
  perform-records (to_explain_nearest t c q n) s x u on e r = cc
