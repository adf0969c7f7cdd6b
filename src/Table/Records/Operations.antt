-- ===== src/Table/Records/Operations.antt =====
-- Where each operation records its call: crates/euledb-storage/src/store.rs.
use eule_db.Common.{ℕ, ◌^◌, ◌-◌, min, List, [], ◌∷◌, ◌++◌, true, some, ◌≡◌, refl}
use eule_db.Common.Text.{Text, codes}
use eule_db.Crypto.Platform.{Platform}
use eule_db.Crypto.Capability.{Scope}
use eule_db.Audit.Log.{Io}
use eule_db.Compression.{TableDefinition, applied_to}
use eule_db.Table.Lance.{Lance, create_mode, append_mode, inverted}
use eule_db.Table.Op.{or_backend}
use eule_db.Table.Handle.{
  LanceStore, vector_table, uri, dataset_path, open_table, on_disk, require_scope,
  require_write_role, record_call,
}
use eule_db.Table.Reads.{scan, stream_of, collect}
use eule_db.Table.Vectors.{read_vectors}
use eule_db.Table.Vectors.Search.{
  quoted_column, nearest_vectors, search_text, hits_of, require_width,
}
use eule_db.Table.Vectors.Index.{
  VectorIndexKind, StemmingLanguage, as_parts, index_params, create_vector_index, create_text_index,
}
use eule_db.Table.Reconcile.{reconcile_all}
use eule_db.Table.Writes.{
  Assignment, quoted, set_all, create_table, append_rows, update, update_assigned,
  update_unless_empty, delete_rows, drop_table,
}
use eule_db.Table.Footprint.{
  log_of, bind-Keeps, or_backend-Keeps, open_table-Keeps, stream_of-Keeps, collect-Keeps,
  read_vectors-Keeps, hits_of-Keeps, require_width-Keeps, require_scope-Keeps,
  require_write_role-Keeps,
}
use eule_db.Table.Records.{Records, later-Records, first-Records, record_call-Records}
use eule_db.Table.Records.Writing.{reconcile_all-Keeps, set_all-Keeps, on_disk-Keeps}

module _ (p : Platform) (io : Io) {l : Lance} (h : LanceStore l) (on : h.auditing ≡ true) where
  pub create_table-Records :
      (t : Text) (d : TableDefinition l.DataType)
      → Records p io (codes "create table " ++ quoted t) (create_table p io h t d)
  unfolding create_table
  create_table-Records t d =
      later-Records p io _ _ (require_scope p io h Scope.schema t)
        (require_scope-Keeps p io log_of h Scope.schema t)
        (λ u.
          later-Records p io _ _ (require_write_role h _ t) (require_write_role-Keeps log_of h _ t)
            (λ v.
              later-Records p io _ _
                (on_disk _ t (
                  l.write create_mode h.session (uri h t) (applied_to d.compression d.declared) []))
                (on_disk-Keeps _ t (
                  l.write create_mode h.session (uri h t) (applied_to d.compression d.declared) []))
                (λ z. record_call-Records p io h _ _ _ on)))

  pub append_rows-Records :
      (t : Text) (b : l.Batch)
      → Records p io (codes "insert into " ++ quoted t) (append_rows p io h t b)
  unfolding append_rows
  append_rows-Records t b =
      later-Records p io _ _ (require_scope p io h Scope.write t)
        (require_scope-Keeps p io log_of h Scope.write t)
        (λ u.
          later-Records p io _ _ (require_write_role h _ t) (require_write_role-Keeps log_of h _ t)
            (λ v.
              later-Records p io _ _
                (on_disk _ t (l.write append_mode h.session (uri h t) (l.schema_of b) (b ∷ [])))
                (on_disk-Keeps _ t
                  (l.write append_mode h.session (uri h t) (l.schema_of b) (b ∷ [])))
                (λ z.
                  first-Records p io _ _ (record_call p io h _ _ _)
                    (record_call-Records p io h _ _ _ on) (λ w. reconcile_all-Keeps p io h t))))

  pub update_assigned-Records :
      (t m : Text) (a : List Assignment)
      → Records p io
          (codes "update " ++ (quoted t ++ (codes " where " ++ m)))
          (update_assigned p io h t m a)
  unfolding update_assigned
  update_assigned-Records t m a =
      later-Records p io _ _ (open_table h t) (open_table-Keeps log_of h t) (λ d.
        later-Records p io _ _ (or_backend _ t (l.update_where d m)) (or_backend-Keeps log_of _ t _)
          (λ b. later-Records p io _ _ (set_all t a b) (set_all-Keeps log_of t a b) (λ c.
            later-Records p io _ _ (or_backend _ t (l.build c)) (or_backend-Keeps log_of _ t _)
              (λ j.
                later-Records p io _ _ (on_disk _ t (l.execute j)) (on_disk-Keeps _ t (l.execute j))
                  (λ n.
                    first-Records p io _ _ (record_call p io h _ _ _)
                      (record_call-Records p io h _ _ _ on)
                      (λ w.
                        bind-Keeps log_of (reconcile_all p io h t) _ (reconcile_all-Keeps p io h t)
                          (λ z s. refl)))))))

  pub update_unless_empty-Records :
      (t m : Text) (a : List Assignment)
      → Records p io
          (codes "update " ++ (quoted t ++ (codes " where " ++ m)))
          (update_unless_empty p io h t m a)
  update_unless_empty-Records t m [] s a u e = cc
  update_unless_empty-Records t m (a ∷ rest) s n u e =
      update_assigned-Records t m (a ∷ rest) s n u e

  pub update-Records :
      (t m : Text) (a : List Assignment)
      → Records p io (codes "update " ++ (quoted t ++ (codes " where " ++ m))) (update p io h t m a)
  unfolding update
  update-Records t m a =
      later-Records p io _ _ (require_scope p io h Scope.write t)
        (require_scope-Keeps p io log_of h Scope.write t)
        (λ u.
          later-Records p io _ _ (require_write_role h _ t) (require_write_role-Keeps log_of h _ t)
            (λ v. update_unless_empty-Records t m a))

  pub delete_rows-Records :
      (t m : Text)
      → Records p io
          (codes "delete from " ++ (quoted t ++ (codes " where " ++ m)))
          (delete_rows p io h t m)
  unfolding delete_rows
  delete_rows-Records t m =
      later-Records p io _ _ (require_scope p io h Scope.write t)
        (require_scope-Keeps p io log_of h Scope.write t)
        (λ u.
          later-Records p io _ _ (require_write_role h _ t) (require_write_role-Keeps log_of h _ t)
            (λ v. later-Records p io _ _ (open_table h t) (open_table-Keeps log_of h t) (λ d.
              later-Records p io _ _ (or_backend _ t (l.count_rows d (some m)))
                (or_backend-Keeps log_of _ t _)
                (λ n.
                  later-Records p io _ _ (on_disk _ t (l.delete d m))
                    (on_disk-Keeps _ t (l.delete d m))
                    (λ r.
                      first-Records p io _ _ (record_call p io h _ _ _)
                        (record_call-Records p io h _ _ _ on)
                        (λ w.
                          bind-Keeps log_of (reconcile_all p io h t) _
                            (reconcile_all-Keeps p io h t) (λ z s. refl)))))))

  pub drop_table-Records :
      (t : Text) → Records p io (codes "drop table " ++ quoted t) (drop_table p io h t)
  unfolding drop_table
  drop_table-Records t =
      later-Records p io _ _ (require_scope p io h Scope.schema t)
        (require_scope-Keeps p io log_of h Scope.schema t)
        (λ u.
          later-Records p io _ _ (require_write_role h _ t) (require_write_role-Keeps log_of h _ t)
            (λ v.
              first-Records p io _ _ (record_call p io h _ _ _)
                (record_call-Records p io h _ _ _ on)
                (λ w. on_disk-Keeps _ t (l.remove_dir_all (dataset_path h t)))))

  pub create_vector_index-Records :
      (t c : Text) (k : VectorIndexKind)
      → Records p io
          (codes "index the vectors of " ++ quoted_column t c)
          (create_vector_index p io h t c k)
  unfolding create_vector_index
  create_vector_index-Records t c k =
      later-Records p io _ _ (require_scope p io h Scope.schema t)
        (require_scope-Keeps p io log_of h Scope.schema t)
        (λ u.
          later-Records p io _ _ (require_write_role h _ t) (require_write_role-Keeps log_of h _ t)
            (λ v.
              later-Records p io _ _ (open_table h (vector_table t c))
                (open_table-Keeps log_of h (vector_table t c))
                (λ d.
                  later-Records p io _ _
                    (on_disk _ t (l.create_index d (codes "embedding") (index_params k)))
                    (on_disk-Keeps _ t (l.create_index d (codes "embedding") (index_params k)))
                    (λ z. record_call-Records p io h _ _ _ on))))

  pub create_text_index-Records :
      (t c : Text) (k : StemmingLanguage)
      → Records p io
          (codes "index the text of " ++ quoted_column t c)
          (create_text_index p io h t c k)
  unfolding create_text_index
  create_text_index-Records t c k =
      later-Records p io _ _ (require_scope p io h Scope.schema t)
        (require_scope-Keeps p io log_of h Scope.schema t)
        (λ u.
          later-Records p io _ _ (require_write_role h _ t) (require_write_role-Keeps log_of h _ t)
            (λ v. later-Records p io _ _ (open_table h t) (open_table-Keeps log_of h t) (λ d.
              later-Records p io _ _ (or_backend _ t (l.knows_language (as_parts k).0))
                (or_backend-Keeps log_of _ t _)
                (λ z.
                  later-Records p io _ _
                    (on_disk _ t
                      (l.create_index d c (inverted (as_parts k).0 (as_parts k).1 (as_parts k).1)))
                    (on_disk-Keeps _ t
                      (l.create_index d c (inverted (as_parts k).0 (as_parts k).1 (as_parts k).1)))
                    (λ y. record_call-Records p io h _ _ _ on)))))

  pub scan-Records : (t : Text) → Records p io (codes "scan `" ++ (t ++ codes "`")) (scan p io h t)
  unfolding scan
  scan-Records t =
      later-Records p io _ _ (require_scope p io h Scope.read t)
        (require_scope-Keeps p io log_of h Scope.read t)
        (λ u. later-Records p io _ _ (open_table h t) (open_table-Keeps log_of h t) (λ d.
          later-Records p io _ _ (collect (l.scanner d) t) (collect-Keeps log_of (l.scanner d) t)
            (λ bs.
              first-Records p io _ _ (record_call p io h _ _ _)
                (record_call-Records p io h _ _ _ on) (λ w. λ s. refl))))

  pub nearest_vectors-Records :
      (t c : Text) (q : List l.F32) (n : ℕ)
      → Records p io
          (codes "search the vectors of " ++ quoted_column t c)
          (nearest_vectors p io h t c q n)
  unfolding nearest_vectors
  nearest_vectors-Records t c q n =
      later-Records p io _ _ (require_scope p io h Scope.read t)
        (require_scope-Keeps p io log_of h Scope.read t)
        (λ u. later-Records p io _ _ (require_width q) (require_width-Keeps log_of q) (λ z.
          later-Records p io _ _ (open_table h (vector_table t c))
            (open_table-Keeps log_of h (vector_table t c))
            (λ d.
              later-Records p io _ _
                (or_backend _ t (l.nearest (l.scanner d) (codes "embedding") q n))
                (or_backend-Keeps log_of _ t _)
                (λ x.
                  later-Records p io _ _ (stream_of _ _ t x) (stream_of-Keeps log_of _ _ t x) (λ bs.
                    later-Records p io _ _ (read_vectors _ t bs) (read_vectors-Keeps log_of _ t bs)
                      (λ r.
                        first-Records p io _ _ (record_call p io h _ _ _)
                          (record_call-Records p io h _ _ _ on) (λ w. λ s. refl)))))))

  pub search_text-Records :
      (t c q : Text) (n : ℕ)
      → Records p io (codes "search the text of " ++ quoted_column t c) (search_text p io h t c q n)
  unfolding search_text
  search_text-Records t c q n =
      later-Records p io _ _ (require_scope p io h Scope.read t)
        (require_scope-Keeps p io log_of h Scope.read t)
        (λ u. later-Records p io _ _ (open_table h t) (open_table-Keeps log_of h t) (λ d.
          later-Records p io _ _ (or_backend _ t (l.full_text_search (l.scanner d) q))
            (or_backend-Keeps log_of _ t _)
            (λ a.
              later-Records p io _ _
                (or_backend _ t (l.limit (l.with_row_id a) (min n (2 ^ 63 - 1))))
                (or_backend-Keeps log_of _ t _)
                (λ b.
                  later-Records p io _ _ (or_backend _ t (l.project b []))
                    (or_backend-Keeps log_of _ t _)
                    (λ x.
                      later-Records p io _ _ (stream_of _ _ t x) (stream_of-Keeps log_of _ _ t x)
                        (λ bs.
                          later-Records p io _ _ (hits_of t bs) (hits_of-Keeps log_of t bs) (λ r.
                            first-Records p io _ _ (record_call p io h _ _ _)
                              (record_call-Records p io h _ _ _ on) (λ w. λ s. refl))))))))
