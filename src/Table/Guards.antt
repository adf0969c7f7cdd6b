-- ===== src/Table/Guards.antt =====
-- The guards of a handle's operations: crates/euledb-storage/src/store.rs.
use eule_db.Common.{Option-cases, true, false, some, none, ok, err, inl, inr, ◌≡◌, refl}
use Prim.Native.String.{String}
use eule_db.Common.Text.{Text, utf8}
use eule_db.Crypto.Platform.{Platform}
use eule_db.Crypto.Capability.{Scope, Gate, permits}
use eule_db.Audit.Log.{Io}
use eule_db.Fusion.{Float32}
use eule_db.Measurement.{Float64}
use eule_db.Table.Lance.{Lance}
use eule_db.Table.Error.{storage, not_permitted, read_only}
use eule_db.Table.Op.{Op, ◌>>◌}
use eule_db.Table.Handle.{World, LanceStore, require_scope, require_write_role}
use eule_db.Table.Reads.{row_ids, row_ids_measured, scan_ordered, scan_ordered_measured, scan}
use eule_db.Table.Sets.{create_index}
use eule_db.Table.Vectors.{vectors_of}
use eule_db.Table.Vectors.Search.{nearest_vectors, search_text, hybrid_search}
use eule_db.Table.Vectors.Index.{
  create_vector_index, create_text_index, vector_index_kind, nearest_uses_the_index,
}
use eule_db.Table.Writes.{create_table, append_rows, update, delete_rows, drop_table}
use eule_db.Table.Calls.{
  Call, table_of, scope_of, write_words, perform, is_granted, to_create, to_append, to_update,
  to_delete, to_drop, to_index, to_index_vectors, to_index_text, to_scan, to_scan_ordered,
  to_measure_scan, to_find_rows, to_measure_rows, to_read_vectors, to_find_nearest, to_search_text,
  to_search_both, to_name_index, to_explain_nearest,
}

module _ (p : Platform) (io : Io) {l : Lance} (h : LanceStore l) where
  require_scope-refuses :
      (scope : Scope) (table : Text) (s : World l) {gate : Gate}
      → h.gate ≡ some gate
      → permits p gate (utf8 table) scope ≡ false
      → require_scope p io h scope table s ≡ (err (storage (not_permitted scope table)), s)
  unfolding require_scope
  require_scope-refuses scope table s present refused = rw (present, refused) refl

  pub require_scope-grants :
      (scope : Scope) (table : Text) (s : World l)
      → (elim h.gate [ none ↦ true | some gate ↦ permits p gate (utf8 table) scope ]) ≡ true
      → require_scope p io h scope table s ≡ (ok tt, s)
  unfolding require_scope
  require_scope-grants scope table s granted = elim (Option-cases h.gate) [
    | inl e ↦ rw e refl
    | inr (g, e) ↦ rw (e, rw e at granted) refl
  ]

  require_write_role-refuses :
      (words : String) (table : Text) (s : World l)
      → h.write_lock ≡ false
      → require_write_role h words table s ≡ (err (storage (read_only words table)), s)
  unfolding require_write_role
  require_write_role-refuses words table s reader = rw reader refl

  -- The two guards of a writing call, on a handle that may but cannot.
  guards-refuse :
      {A : Type 0} (scope : Scope) (own : String) (table : Text) (rest : Op (World l) A)
      (s : World l) {words : String}
      → (elim h.gate [ none ↦ true | some gate ↦ permits p gate (utf8 table) scope ]) ≡ true
      → h.write_lock ≡ false
      → some own ≡ some words
      → (require_scope p io h scope table >> (require_write_role h own table >> rest)) s
        ≡ (err (storage (read_only words table)), s)
  guards-refuse scope own table rest s granted reader e =
      let same : own ≡ _ = cc in
      rw
        (
          require_scope-grants scope table s granted,
          require_write_role-refuses own table s reader,
          same,
        )
        refl

module _ (p : Platform) (io : Io) {l : Lance} (f : Float32) (g : Float64) (h : LanceStore l) where
  -- A handle whose gate does not permit what a call asks for answers that it is not permitted, and neither
  -- the disk nor the audit log changes, whichever operation of `Call` it is and whatever else is so.
  pub perform-refuses_scope :
      (c : Call l f g) (s : World l) {gate : Gate}
      → h.gate ≡ some gate
      → permits p gate (utf8 (table_of c)) (scope_of c) ≡ false
      → perform p io h c s ≡ (err (storage (not_permitted (scope_of c) (table_of c))), s)
  unfolding perform create_table append_rows update delete_rows drop_table create_index
      create_vector_index create_text_index scan scan_ordered scan_ordered_measured row_ids
      row_ids_measured vectors_of nearest_vectors search_text hybrid_search vector_index_kind
      nearest_uses_the_index
  perform-refuses_scope (to_create t d) s e r =
      rw (require_scope-refuses p io h Scope.schema t s e r) refl
  perform-refuses_scope (to_append t b) s e r =
      rw (require_scope-refuses p io h Scope.write t s e r) refl
  perform-refuses_scope (to_update t m a) s e r =
      rw (require_scope-refuses p io h Scope.write t s e r) refl
  perform-refuses_scope (to_delete t m) s e r =
      rw (require_scope-refuses p io h Scope.write t s e r) refl
  perform-refuses_scope (to_drop t) s e r =
      rw (require_scope-refuses p io h Scope.schema t s e r) refl
  perform-refuses_scope (to_index t c) s e r =
      rw (require_scope-refuses p io h Scope.schema t s e r) refl
  perform-refuses_scope (to_index_vectors t c k) s e r =
      rw (require_scope-refuses p io h Scope.schema t s e r) refl
  perform-refuses_scope (to_index_text t c k) s e r =
      rw (require_scope-refuses p io h Scope.schema t s e r) refl
  perform-refuses_scope (to_scan t) s e r =
      rw (require_scope-refuses p io h Scope.read t s e r) refl
  perform-refuses_scope (to_scan_ordered t m by o) s e r =
      rw (require_scope-refuses p io h Scope.read t s e r) refl
  perform-refuses_scope (to_measure_scan t m by o) s e r =
      rw (require_scope-refuses p io h Scope.read t s e r) refl
  perform-refuses_scope (to_find_rows t m) s e r =
      rw (require_scope-refuses p io h Scope.read t s e r) refl
  perform-refuses_scope (to_measure_rows t m) s e r =
      rw (require_scope-refuses p io h Scope.read t s e r) refl
  perform-refuses_scope (to_read_vectors t c) s e r =
      rw (require_scope-refuses p io h Scope.read t s e r) refl
  perform-refuses_scope (to_find_nearest t c q n) s e r =
      rw (require_scope-refuses p io h Scope.read t s e r) refl
  perform-refuses_scope (to_search_text t c q n) s e r =
      rw (require_scope-refuses p io h Scope.read t s e r) refl
  perform-refuses_scope (to_search_both t c x v n) s e r =
      rw (require_scope-refuses p io h Scope.read t s e r) refl
  perform-refuses_scope (to_name_index t c) s e r =
      rw (require_scope-refuses p io h Scope.read t s e r) refl
  perform-refuses_scope (to_explain_nearest t c q n) s e r =
      rw (require_scope-refuses p io h Scope.read t s e r) refl

  -- On a handle that was opened for reading, a call that needs the write role and that the gate, if there is
  -- one, permits answers that the handle is read-only, in the words of the call, and changes neither the
  -- disk nor the audit log.
  pub perform-refuses_reader :
      (c : Call l f g) (s : World l) {words : String}
      → is_granted p h c ≡ true
      → h.write_lock ≡ false
      → write_words c ≡ some words
      → perform p io h c s ≡ (err (storage (read_only words (table_of c))), s)
  unfolding perform create_table append_rows update delete_rows drop_table create_index
      create_vector_index create_text_index
  perform-refuses_reader (to_create t d) s granted reader e =
      guards-refuse p io h Scope.schema "create the table" t _ s granted reader e
  perform-refuses_reader (to_append t b) s granted reader e =
      guards-refuse p io h Scope.write "append to" t _ s granted reader e
  perform-refuses_reader (to_update t m a) s granted reader e =
      guards-refuse p io h Scope.write "update" t _ s granted reader e
  perform-refuses_reader (to_delete t m) s granted reader e =
      guards-refuse p io h Scope.write "delete from" t _ s granted reader e
  perform-refuses_reader (to_drop t) s granted reader e =
      guards-refuse p io h Scope.schema "drop the table" t _ s granted reader e
  perform-refuses_reader (to_index t c) s granted reader e =
      guards-refuse p io h Scope.schema "index a column of" t _ s granted reader e
  perform-refuses_reader (to_index_vectors t c k) s granted reader e =
      guards-refuse p io h Scope.schema "index the vectors of" t _ s granted reader e
  perform-refuses_reader (to_index_text t c k) s granted reader e =
      guards-refuse p io h Scope.schema "index the text of" t _ s granted reader e
  perform-refuses_reader (to_scan t) s granted reader e = cc
  perform-refuses_reader (to_scan_ordered t m by o) s granted reader e = cc
  perform-refuses_reader (to_measure_scan t m by o) s granted reader e = cc
  perform-refuses_reader (to_find_rows t m) s granted reader e = cc
  perform-refuses_reader (to_measure_rows t m) s granted reader e = cc
  perform-refuses_reader (to_read_vectors t c) s granted reader e = cc
  perform-refuses_reader (to_find_nearest t c q n) s granted reader e = cc
  perform-refuses_reader (to_search_text t c q n) s granted reader e = cc
  perform-refuses_reader (to_search_both t c x v n) s granted reader e = cc
  perform-refuses_reader (to_name_index t c) s granted reader e = cc
  perform-refuses_reader (to_explain_nearest t c q n) s granted reader e = cc
