-- ===== src/Table/Footprint/Calls.antt =====
-- The calls that change nothing on the disk: crates/euledb-storage/src/store.rs.
use eule_db.Common.{ℕ, List, none, ◌≡◌, refl, ◌^◌, ◌-◌, min}
use eule_db.Common.Text.{Text, codes}
use eule_db.Crypto.Platform.{Platform}
use eule_db.Crypto.Capability.{Scope}
use eule_db.Audit.Log.{Io}
use eule_db.Fusion.{Float32}
use eule_db.Measurement.{Float64}
use eule_db.Table.Lance.{Lance}
use eule_db.Table.Op.{or_backend}
use eule_db.Table.Handle.{World, LanceStore, vector_table, open_table, require_scope, record_call}
use eule_db.Table.Reads.{
  Order, row_ids, row_ids_measured, scan_ordered, scan_ordered_measured, scan, stream_of, collect,
  select_ordered, select_row_ids,
}
use eule_db.Table.Vectors.{vectors_of, read_vectors}
use eule_db.Table.Vectors.Search.{
  breadth_for, nearest_vectors, search_text, hybrid_search, hits_of, require_width,
}
use eule_db.Table.Vectors.Index.{vector_index_kind, nearest_uses_the_index}
use eule_db.Table.Calls.{
  Call, write_words, perform, to_create, to_append, to_update, to_delete, to_drop, to_index,
  to_index_vectors, to_index_text, to_scan, to_scan_ordered, to_measure_scan, to_find_rows,
  to_measure_rows, to_read_vectors, to_find_nearest, to_search_text, to_search_both, to_name_index,
  to_explain_nearest,
}
use eule_db.Table.Footprint.{
  Keeps, disk_of, bind-Keeps, or_backend-Keeps, open_table-Keeps, stream_of-Keeps, collect-Keeps,
  ids_of-Keeps, read_vectors-Keeps, hits_of-Keeps, require_width-Keeps, select_ordered-Keeps,
  select_row_ids-Keeps, require_scope-Keeps, record_call-Keeps,
}

-- The reads that record nothing keep all that there is.
module _ (p : Platform) (io : Io) {l : Lance} {C : Type 0} (v : World l → C)
    (h : LanceStore l) where
  pub row_ids-Keeps : (t m : Text) → Keeps v (row_ids p io h t m)
  unfolding row_ids
  row_ids-Keeps t m =
      bind-Keeps v (require_scope p io h Scope.read t) _ (require_scope-Keeps p io v h Scope.read t)
        (λ u. bind-Keeps v (open_table h t) _ (open_table-Keeps v h t) (λ d.
          bind-Keeps v (select_row_ids (l.scanner d) t m) _
            (select_row_ids-Keeps v (l.scanner d) t m)
            (λ x.
              bind-Keeps v (stream_of _ _ t x) _ (stream_of-Keeps v _ _ t x)
                (λ bs. ids_of-Keeps v t bs))))

  pub row_ids_measured-Keeps : (f : Float64) (t m : Text) → Keeps v (row_ids_measured p io f h t m)
  unfolding row_ids_measured
  row_ids_measured-Keeps f t m = bind-Keeps v (row_ids p io h t m) _ (row_ids-Keeps t m) (λ r.
      bind-Keeps v (open_table h t) _ (open_table-Keeps v h t) (λ d.
        bind-Keeps v (select_row_ids (l.scanner d) t m) _ (select_row_ids-Keeps v (l.scanner d) t m)
          (λ x.
            bind-Keeps v (or_backend _ t (l.analyze_plan x)) _ (or_backend-Keeps v _ t _)
              (λ y. λ s. refl))))

  pub scan_ordered-Keeps : (t m by : Text) (o : Order) → Keeps v (scan_ordered p io h t m by o)
  unfolding scan_ordered
  scan_ordered-Keeps t m by o =
      bind-Keeps v (require_scope p io h Scope.read t) _ (require_scope-Keeps p io v h Scope.read t)
        (λ u. bind-Keeps v (open_table h t) _ (open_table-Keeps v h t) (λ d.
          bind-Keeps v (select_ordered (l.scanner d) t m by o) _
            (select_ordered-Keeps v (l.scanner d) t m by o) (λ x. collect-Keeps v x t)))

  pub scan_ordered_measured-Keeps :
      (f : Float64) (t m by : Text) (o : Order) → Keeps v (scan_ordered_measured p io f h t m by o)
  unfolding scan_ordered_measured
  scan_ordered_measured-Keeps f t m by o =
      bind-Keeps v (scan_ordered p io h t m by o) _ (scan_ordered-Keeps t m by o) (λ r.
        bind-Keeps v (open_table h t) _ (open_table-Keeps v h t) (λ d.
          bind-Keeps v (select_ordered (l.scanner d) t m by o) _
            (select_ordered-Keeps v (l.scanner d) t m by o)
            (λ x.
              bind-Keeps v (or_backend _ t (l.analyze_plan x)) _ (or_backend-Keeps v _ t _)
                (λ y. λ s. refl))))

  pub vectors_of-Keeps : (t c : Text) → Keeps v (vectors_of p io h t c)
  unfolding vectors_of
  vectors_of-Keeps t c =
      bind-Keeps v (require_scope p io h Scope.read t) _ (require_scope-Keeps p io v h Scope.read t)
        (λ u.
          bind-Keeps v (open_table h (vector_table t c)) _ (open_table-Keeps v h (vector_table t c))
            (λ d. bind-Keeps v (collect (l.scanner d) t) _ (collect-Keeps v (l.scanner d) t) (λ bs.
              bind-Keeps v (read_vectors _ t bs) _ (read_vectors-Keeps v _ t bs) (λ r. λ s. refl))))

  pub vector_index_kind-Keeps : (t c : Text) → Keeps v (vector_index_kind p io h t c)
  unfolding vector_index_kind
  vector_index_kind-Keeps t c =
      bind-Keeps v (require_scope p io h Scope.read t) _ (require_scope-Keeps p io v h Scope.read t)
        (λ u.
          bind-Keeps v (open_table h (vector_table t c)) _ (open_table-Keeps v h (vector_table t c))
            (λ d. λ s. refl))

  pub nearest_uses_the_index-Keeps :
      (t c : Text) (q : List l.F32) (n : ℕ) → Keeps v (nearest_uses_the_index p io h t c q n)
  unfolding nearest_uses_the_index
  nearest_uses_the_index-Keeps t c q n =
      bind-Keeps v (require_scope p io h Scope.read t) _ (require_scope-Keeps p io v h Scope.read t)
        (λ u.
          bind-Keeps v (open_table h (vector_table t c)) _ (open_table-Keeps v h (vector_table t c))
            (λ d.
              bind-Keeps v (or_backend _ t (l.nearest (l.scanner d) (codes "embedding") q n)) _
                (or_backend-Keeps v _ t _)
                (λ x.
                  bind-Keeps v (or_backend _ t (l.explain_plan x)) _ (or_backend-Keeps v _ t _)
                    (λ y. λ s. refl))))

-- Those that record keep the disk.
module _ (p : Platform) (io : Io) {l : Lance} (h : LanceStore l) where
  pub scan-Keeps : (t : Text) → Keeps disk_of (scan p io h t)
  unfolding scan
  scan-Keeps t =
      bind-Keeps disk_of (require_scope p io h Scope.read t) _
        (require_scope-Keeps p io disk_of h Scope.read t)
        (λ u. bind-Keeps disk_of (open_table h t) _ (open_table-Keeps disk_of h t) (λ d.
          bind-Keeps disk_of (collect (l.scanner d) t) _ (collect-Keeps disk_of (l.scanner d) t)
            (λ bs.
              bind-Keeps disk_of (record_call p io h _ _ _) _ (record_call-Keeps p io h _ _ _)
                (λ w. λ s. refl))))

  pub nearest_vectors-Keeps :
      (t c : Text) (q : List l.F32) (n : ℕ) → Keeps disk_of (nearest_vectors p io h t c q n)
  unfolding nearest_vectors
  nearest_vectors-Keeps t c q n =
      bind-Keeps disk_of (require_scope p io h Scope.read t) _
        (require_scope-Keeps p io disk_of h Scope.read t)
        (λ u. bind-Keeps disk_of (require_width q) _ (require_width-Keeps disk_of q) (λ z.
          bind-Keeps disk_of (open_table h (vector_table t c)) _
            (open_table-Keeps disk_of h (vector_table t c))
            (λ d.
              bind-Keeps disk_of (or_backend _ t (l.nearest (l.scanner d) (codes "embedding") q n))
                _ (or_backend-Keeps disk_of _ t _)
                (λ x.
                  bind-Keeps disk_of (stream_of _ _ t x) _ (stream_of-Keeps disk_of _ _ t x) (λ bs.
                    bind-Keeps disk_of (read_vectors _ t bs) _ (read_vectors-Keeps disk_of _ t bs)
                      (λ r.
                        bind-Keeps disk_of (record_call p io h _ _ _) _
                          (record_call-Keeps p io h _ _ _) (λ w. λ s. refl)))))))

  pub search_text-Keeps : (t c q : Text) (n : ℕ) → Keeps disk_of (search_text p io h t c q n)
  unfolding search_text
  search_text-Keeps t c q n =
      bind-Keeps disk_of (require_scope p io h Scope.read t) _
        (require_scope-Keeps p io disk_of h Scope.read t)
        (λ u. bind-Keeps disk_of (open_table h t) _ (open_table-Keeps disk_of h t) (λ d.
          bind-Keeps disk_of (or_backend _ t (l.full_text_search (l.scanner d) q)) _
            (or_backend-Keeps disk_of _ t _)
            (λ a.
              bind-Keeps disk_of (or_backend _ t (l.limit (l.with_row_id a) (min n (2 ^ 63 - 1)))) _
                (or_backend-Keeps disk_of _ t _)
                (λ b.
                  bind-Keeps disk_of (or_backend _ t (l.project b _)) _
                    (or_backend-Keeps disk_of _ t _)
                    (λ x.
                      bind-Keeps disk_of (stream_of _ _ t x) _ (stream_of-Keeps disk_of _ _ t x)
                        (λ bs.
                          bind-Keeps disk_of (hits_of t bs) _ (hits_of-Keeps disk_of t bs) (λ r.
                            bind-Keeps disk_of (record_call p io h _ _ _) _
                              (record_call-Keeps p io h _ _ _) (λ w. λ s. refl))))))))

  pub hybrid_search-Keeps :
      (f : Float32) (t c x : Text) (q : List l.F32) (n : ℕ)
      → Keeps disk_of (hybrid_search p io f h t c x q n)
  unfolding hybrid_search
  hybrid_search-Keeps f t c x q n =
      bind-Keeps disk_of (require_scope p io h Scope.read t) _
        (require_scope-Keeps p io disk_of h Scope.read t)
        (λ u.
          bind-Keeps disk_of (nearest_vectors p io h t c q (breadth_for n)) _
            (nearest_vectors-Keeps t c q _)
            (λ se.
              bind-Keeps disk_of (search_text p io h t c x (breadth_for n)) _
                (search_text-Keeps t c x _)
                (λ le. bind-Keeps disk_of (open_table h t) _ (open_table-Keeps disk_of h t) (λ d.
                  bind-Keeps disk_of (or_backend _ t (l.count_rows d none)) _
                    (or_backend-Keeps disk_of _ t _)
                    (λ r.
                      bind-Keeps disk_of (record_call p io h _ _ _) _
                        (record_call-Keeps p io h _ _ _) (λ w. λ s. refl))))))

module _ (p : Platform) (io : Io) {l : Lance} {f : Float32} {g : Float64} (h : LanceStore l) where
  -- A call that does not ask for the write role leaves the disk as it is, whether it answers or fails.
  pub perform-keeps_disk :
      (c : Call l f g) (s : World l) → write_words c ≡ none → (perform p io h c s).1.disk ≡ s.disk
  unfolding perform
  perform-keeps_disk (to_create t d) s e = cc
  perform-keeps_disk (to_append t b) s e = cc
  perform-keeps_disk (to_update t m a) s e = cc
  perform-keeps_disk (to_delete t m) s e = cc
  perform-keeps_disk (to_drop t) s e = cc
  perform-keeps_disk (to_index t c) s e = cc
  perform-keeps_disk (to_index_vectors t c k) s e = cc
  perform-keeps_disk (to_index_text t c k) s e = cc
  perform-keeps_disk (to_scan t) s e = scan-Keeps p io h t s
  perform-keeps_disk (to_scan_ordered t m by o) s e = scan_ordered-Keeps p io disk_of h t m by o s
  perform-keeps_disk (to_measure_scan t m by o) s e =
      scan_ordered_measured-Keeps p io disk_of h g t m by o s
  perform-keeps_disk (to_find_rows t m) s e = row_ids-Keeps p io disk_of h t m s
  perform-keeps_disk (to_measure_rows t m) s e = row_ids_measured-Keeps p io disk_of h g t m s
  perform-keeps_disk (to_read_vectors t c) s e = vectors_of-Keeps p io disk_of h t c s
  perform-keeps_disk (to_find_nearest t c q n) s e = nearest_vectors-Keeps p io h t c q n s
  perform-keeps_disk (to_search_text t c q n) s e = search_text-Keeps p io h t c q n s
  perform-keeps_disk (to_search_both t c x v n) s e = hybrid_search-Keeps p io h f t c x v n s
  perform-keeps_disk (to_name_index t c) s e = vector_index_kind-Keeps p io disk_of h t c s
  perform-keeps_disk (to_explain_nearest t c q n) s e =
      nearest_uses_the_index-Keeps p io disk_of h t c q n s
