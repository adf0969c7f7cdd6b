-- ===== src/Table/Records/Writing.antt =====
-- Following the companion tables leaves the audit log alone: crates/euledb-storage/src/store.rs.
use Prim.Native.String.{String}
use eule_db.Common.{
  ℕ, suc, List, [], ◌∷◌, map, flatten, eq_bytes, Result, ok, err, ◌≡◌, refl, ◌∙◌, Bool, true, false,
  Option, some, none, if◌then◌else◌,
}
use eule_db.Common.Text.{Text}
use eule_db.Crypto.Platform.{Platform}
use eule_db.Audit.Log.{Io}
use eule_db.Table.Lance.{Lance, Embedder, overwrite_mode}
use eule_db.Table.Error.{Error}
use eule_db.Table.Op.{Op, or_backend, or_said}
use eule_db.Table.Handle.{World, LanceStore, vector_table, uri, open_table, on_disk, disk_answer}
use eule_db.Table.Reads.{row_id_column, stream_of}
use eule_db.Table.Vectors.{RowVector}
use eule_db.Table.Vectors.Rebuild.{
  row_set, kept_for, texts_of, number_chunks, rebuild, embeddings_for, or_embedding_failed,
}
use eule_db.Table.Reconcile.{
  existing_of, existing_vectors, present_texts, write_vectors, refresh, reconcile_with, reconcile,
  embedding_columns, reconcile_each, reconcile_all,
}
use eule_db.Table.Writes.{Assignment, set_all}
use eule_db.Table.Footprint.{
  Keeps, log_of, bind-Keeps, or_backend-Keeps, or_said-Keeps, open_table-Keeps, stream_of-Keeps,
}
use eule_db.Table.Footprint.Calls.{vectors_of-Keeps}

module _ {S A C : Type 0} (view : S → C) where
  or_embedding_failed-Keeps :
      (table : Text) (r : Result Text A) → Keeps view (or_embedding_failed table r)
  or_embedding_failed-Keeps table (ok a) s = refl
  or_embedding_failed-Keeps table (err c) s = refl

module _ {S A C : Type 0} (view : S → C) where
  if-Keeps :
      (b : Bool) (m n : Op S A) → Keeps view m → Keeps view n → Keeps view (if b then m else n)
  if-Keeps true m n k k2 = k
  if-Keeps false m n k k2 = k2

module _ {l : Lance} {C : Type 0} (view : World l → C) where
  texts_of-Keeps :
      (table column : Text) (batches : List l.Batch) → Keeps view (texts_of table column batches)
  unfolding texts_of
  texts_of-Keeps table column [] s = refl
  texts_of-Keeps table column (batch ∷ rest) s =
      bind-Keeps view (or_said _ table _ (l.u64_column batch row_id_column)) _
        (or_said-Keeps view _ table _ _)
        (λ rows.
          bind-Keeps view (or_said _ table _ (l.text_column batch column)) _
            (or_said-Keeps view _ table _ _)
            (λ texts.
              bind-Keeps view (texts_of table column rest) _ (texts_of-Keeps table column rest)
                (λ b t. refl)))
        s

  number_chunks-Keeps :
      (table : Text) (row chunk : ℕ) (es : List (List l.F32))
      → Keeps view (number_chunks table row chunk es)
  unfolding number_chunks
  number_chunks-Keeps table row chunk [] s = refl
  number_chunks-Keeps table row chunk (e ∷ rest) s =
      bind-Keeps view (or_embedding_failed table _) _ (or_embedding_failed-Keeps view table _)
        (λ u.
          bind-Keeps view (number_chunks table row (suc chunk) rest) _
            (number_chunks-Keeps table row (suc chunk) rest) (λ b t. refl))
        s

  pub rebuild-Keeps :
      (table : Text) (embedder : Embedder l) (existing : List (RowVector l.F32))
      (present : List (ℕ × Text))
      → Keeps view (rebuild table embedder existing present)
  unfolding rebuild
  rebuild-Keeps table embedder existing [] s = refl
  rebuild-Keeps table embedder existing ((row, text) ∷ rest) s =
      bind-Keeps view
        (or_embedding_failed table (embeddings_for embedder text (kept_for row existing))) _
        (or_embedding_failed-Keeps view table _)
        (λ es.
          bind-Keeps view (number_chunks table row 0 es) _ (number_chunks-Keeps table row 0 es)
            (λ vs.
              bind-Keeps view (rebuild table embedder existing rest) _
                (rebuild-Keeps table embedder existing rest) (λ b t. refl)))
        s

  pub set_all-Keeps :
      (table : Text) (assignments : List Assignment) (b : l.Builder)
      → Keeps view (set_all table assignments b)
  unfolding set_all
  set_all-Keeps table [] b s = refl
  set_all-Keeps table (a ∷ rest) b s =
      bind-Keeps view (or_backend _ table (l.set b a.column a.value)) _
        (or_backend-Keeps view _ table _) (λ next. set_all-Keeps table rest next) s

module _ {l : Lance} where
  pub on_disk-Keeps :
      {A : Type 0} (words : String) (table : Text) (call : l.Disk → Result ℕ A × l.Disk)
      → Keeps log_of (on_disk {l = l} words table call)
  on_disk-Keeps {A = A} words table call s = go (call s.disk)
    where
      go : (r : Result ℕ A × l.Disk) → (disk_answer {l = l} words table s.log r).1.log ≡ s.log
      go (ok a, d) = refl
      go (err c, d) = refl

module _ (p : Platform) (io : Io) {l : Lance} (h : LanceStore l) (t : Text) where
  existing_vectors-Keeps :
      {C : Type 0} (view : World l → C) (c : Text) → Keeps view (existing_vectors p io h t c)
  unfolding existing_vectors
  existing_vectors-Keeps view c s =
      go (open_table h (vector_table t c) s) ∙ open_table-Keeps view h (vector_table t c) s
    where
      go : (r : Result Error l.Dataset × World l) → view (existing_of p io h t c r).1 ≡ view r.1
      go (ok d, u) = vectors_of-Keeps p io view h t c u
      go (err e, u) = refl

  present_texts-Keeps :
      {C : Type 0} (view : World l → C) (c : Text) → Keeps view (present_texts p io h t c)
  unfolding present_texts
  present_texts-Keeps view c = bind-Keeps view (open_table h t) _ (open_table-Keeps view h t) (λ d.
      bind-Keeps view (or_backend _ t (l.project (l.with_row_id (l.scanner d)) (c ∷ []))) _
        (or_backend-Keeps view _ t _)
        (λ x.
          bind-Keeps view (stream_of _ _ t x) _ (stream_of-Keeps view _ _ t x)
            (λ bs. texts_of-Keeps view t c bs)))

  write_vectors-Keeps :
      (c : Text) (vs : List (RowVector l.F32)) → Keeps log_of (write_vectors p io h t c vs)
  unfolding write_vectors
  write_vectors-Keeps c vs =
      let built =
        l.vector_batch l.vector_schema (map (λ v. v.row) vs) (map (λ v. v.chunk) vs)
          (flatten (map (λ v. v.embedding) vs)) in
      bind-Keeps log_of (or_backend "build the vectors of" t built) _
        (or_backend-Keeps log_of _ t built)
        (λ batch.
          on_disk-Keeps "write the vectors of" t
            (l.write overwrite_mode none (uri h (vector_table t c)) l.vector_schema (batch ∷ [])))

  refresh-Keeps :
      (c : Text) (e : Embedder l) (existing : List (RowVector l.F32)) (present : List (ℕ × Text))
      → Keeps log_of (refresh p io h t c e existing present)
  unfolding refresh
  refresh-Keeps c e existing present =
      if-Keeps log_of
        (eq_bytes (row_set (map (λ x. x.0) present)) (row_set (map (λ v. v.row) existing))) _ _
        (λ s. refl)
        (bind-Keeps log_of (rebuild t e existing present) _
          (rebuild-Keeps log_of t e existing present) (λ vs. write_vectors-Keeps c vs))

  reconcile-Keeps : (c : Text) → Keeps log_of (reconcile p io h t c)
  unfolding reconcile reconcile_with
  reconcile-Keeps c = go h.embedder
    where
      go : (e : Option (Embedder l)) → Keeps log_of (reconcile_with p io h t c e)
      go none s = refl
      go (some e) s =
          bind-Keeps log_of (existing_vectors p io h t c) _ (existing_vectors-Keeps log_of c)
            (λ existing.
              bind-Keeps log_of (present_texts p io h t c) _ (present_texts-Keeps log_of c)
                (λ present. refresh-Keeps c e existing present))
            s

  reconcile_each-Keeps : (cs : List Text) → Keeps log_of (reconcile_each p io h t cs)
  unfolding reconcile_each
  reconcile_each-Keeps [] s = refl
  reconcile_each-Keeps (c ∷ cs) s =
      bind-Keeps log_of (reconcile p io h t c) _ (reconcile-Keeps c) (λ u. reconcile_each-Keeps cs)
        s

  pub reconcile_all-Keeps : Keeps log_of (reconcile_all p io h t)
  unfolding reconcile_all embedding_columns
  reconcile_all-Keeps =
      bind-Keeps log_of (embedding_columns p io h t) _
        (bind-Keeps log_of (open_table h t) _ (open_table-Keeps log_of h t) (λ d s. refl))
        (λ cs. reconcile_each-Keeps cs)
