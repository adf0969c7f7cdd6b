-- ===== src/Table/Vectors/RoundTrip.antt =====
-- A companion table that was written is read back: crates/euledb-storage/src/store.rs.
pub mod Rows
pub mod Members
use Prim.Native.String.{String}
use mathlib.Core.List.{Perm}
use mathlib.Core.List.Perm
use eule_db.Common.{
  eq_bytes, eq_of_eq_bytes, Bool, false, ltb, ◌==◌, ==_iff, ◌||◌, Bool-cases, ◌⊎◌, inl, inr, ℕ,
  List, [], ◌∷◌, ◌++◌, flatten, All, length, map, true, Option, some, none, Result, ok, err, ◌≡◌,
  refl, sym, ap, ap₂, ◌∙◌, subst, arith, Option-cases, Result-cases,
}
use eule_db.Common.Chunks.{chunks, chunks_nil, chunks-append}
use eule_db.Common.Text.{Text, codes, utf8}
use eule_db.Crypto.Platform.{Platform}
use eule_db.Crypto.Capability.{Scope, permits}
use eule_db.Audit.Log.{Io, File}
use eule_db.Compression.{stripped_from}
use eule_db.Table.Lance.{Lance, Embedder, overwrite_mode}
use eule_db.Table.Op.{
  done, ◌>>=◌, answer-eq, or_backend, or_said, after-answers, or_backend-answers,
}
use eule_db.Table.Handle.{
  World, LanceStore, vector_table, uri, open_table, on_disk, disk_answer, require_scope,
}
use eule_db.Table.Reads.{stream_of, strip_batches, collect}
use eule_db.Table.Vectors.{
  vector_width, RowVector, zip_vectors, key_below, insert_vector, sort_vectors, read_vectors,
  vectors_of,
}
use eule_db.Table.Reconcile.{write_vectors, refresh}
use eule_db.Table.Vectors.Rebuild.{row_set, insert_row, rebuild}
use eule_db.Measurement.{is_member}
use eule_db.Table.Vectors.Rebuild.Entries.{Distinct, IsFor, embeddings_in}
use eule_db.Table.Vectors.Rebuild.Kept.{rebuild-IsFor, rebuild-embeddings, IsDue}
use eule_db.Table.Vectors.RoundTrip.Rows.{
  KeepsVectors, disk_answer-answers, open_table-loaded, read_vectors-all_rows,
  strip_batches-all_rows, require_scope-keeps, collect-parts,
}
use eule_db.Table.Vectors.RoundTrip.Members.{same_rows}
use eule_db.Table.Vectors.Sorted.{sort_vectors-Perm}

module _ {F : Type 0} where
  zip_vectors-map :
      (vs : List (RowVector F))
      → zip_vectors (map (λ v. v.row) vs) (map (λ v. v.chunk) vs) (map (λ v. v.embedding) vs) ≡ vs
  zip_vectors-map [] = refl
  zip_vectors-map (v ∷ vs) = ap (λ z. v ∷ z) (zip_vectors-map vs)

  -- Vectors of the width, one behind the other, are cut where they were joined.
  chunks-flatten :
      (vs : List (RowVector F))
      → All (λ v. length v.embedding ≡ vector_width) vs
      → chunks vector_width (flatten (map (λ v. v.embedding) vs)) ≡ map (λ v. v.embedding) vs
  chunks-flatten [] h = chunks_nil vector_width
  chunks-flatten (v ∷ vs) (h, hs) =
      chunks-append vector_width v.embedding (flatten (map (λ w. w.embedding) vs)) (omega arith) h
      ∙ ap (λ z. v.embedding ∷ z) (chunks-flatten vs hs)

module _ {l : Lance} where
  -- What a column answers with after a refresh: what nothing was to be done for, or the vectors that each row
  -- that is present is due.
  abbrev pub IsSettled :
      Embedder l
      → List (RowVector l.F32)
      → List (ℕ × Text)
      → World l
      → World l
      → List (RowVector l.F32)
      → Type 0
  IsSettled embedder existing present s u ws =
      (((r : ℕ) → is_member r (map (λ x. x.0) present) ≡ is_member r (map (λ v. v.row) existing))
        × (u ≡ s))
      ⊎ ((vs : List (RowVector l.F32)) × (Perm ws vs
            × All (λ x. IsDue embedder x.1 (embeddings_in x.0 existing) (embeddings_in x.0 vs))
                present))

module _ (p : Platform) (io : Io) {l : Lance} (law : KeepsVectors l) (h : LanceStore l) where
  -- Vectors of the width that were written for a column are what the column answers with, sorted.
  vectors_of-write_vectors :
      (table column : Text) (vs : List (RowVector l.F32)) (s u : World l)
      (ws : List (RowVector l.F32)) (t : World l)
      → h.session ≡ none
      → All (λ v. length v.embedding ≡ vector_width) vs
      → write_vectors p io h table column vs s ≡ (ok tt, u)
      → vectors_of p io h table column u ≡ (ok ws, t)
      → sort_vectors vs ≡ ws
  unfolding write_vectors vectors_of
  vectors_of-write_vectors table column vs s u ws t plain wide written answered =
      let rows = map (λ v. v.row) vs in
      let chunk_ids = map (λ v. v.chunk) vs in
      let values = flatten (map (λ v. v.embedding) vs) in
      let (batch, (s₁, (built, stored))) = after-answers _ _ tt u written in
      let made =
        (or_backend-answers "build the vectors of" table
          (l.vector_batch l.vector_schema rows chunk_ids values) s batch s₁ built).0 in
      let kept = disk_answer-answers "write the vectors of" table s₁.log _ tt u stored in
      let (o, (u₁, (scoped, h₁))) = after-answers _ _ ws t answered in
      let same = require_scope-keeps p io h Scope.read table u u₁ scoped in
      let (d, (u₂, (opened, h₂))) = after-answers _ _ ws t h₁ in
      let (stripped, (u₃, (collected, h₃))) = after-answers _ _ ws t h₂ in
      let (read, (u₄, (reads, h₄))) = after-answers _ _ ws t h₃ in
      let (stream, (batches, (u₅, (streams, (collects, strips))))) =
        collect-parts p io (l.scanner d) table u₂ stripped u₃ collected in
      let loads =
        subst (λ (w : World l). l.load (uri h (vector_table table column)) none w.disk ≡ ok d)
          (sym same) (open_table-loaded h (vector_table table column) u₁ d u₂ plain opened) in
      let holds =
        law.holds_rows rows chunk_ids values batch made
        ∙ ap some (ap (zip_vectors rows chunk_ids) (chunks-flatten vs wide) ∙ zip_vectors-map vs) in
      let back =
        law.reads_back (uri h (vector_table table column)) batch s₁.disk u.disk d stream batches vs
          kept loads streams collects holds in
      let found : some read ≡ some vs =
        sym (read_vectors-all_rows "read the vectors of" table stripped u₃ read u₄ reads)
        ∙ (strip_batches-all_rows law table batches u₅ stripped u₃ strips ∙ back) in
      let equal : read ≡ vs = cc in ap sort_vectors (sym equal) ∙ answer-eq u₄ t h₄

  -- When refreshing a column of a store without encryption answers, and the column is then read, either the
  -- rows that had vectors were exactly those that are present, and nothing changed; or what is read are, in some order,
  -- vectors which for each row that is present are those that it had, or else those that the embedder makes
  -- of its text. No row is present twice, and the format keeps what was written.
  pub refresh-IsSettled :
      (table column : Text) (embedder : Embedder l) (existing : List (RowVector l.F32))
      (present : List (ℕ × Text)) (s u : World l) (ws : List (RowVector l.F32)) (t : World l)
      → h.session ≡ none
      → Distinct (map (λ x. x.0) present)
      → refresh p io h table column embedder existing present s ≡ (ok tt, u)
      → vectors_of p io h table column u ≡ (ok ws, t)
      → IsSettled embedder existing present s u ws
  unfolding refresh
  refresh-IsSettled table column embedder existing present s u ws t plain distinct e answered =
      elim (Bool-cases
        (eq_bytes (row_set (map (λ x. x.0) present)) (row_set (map (λ v. v.row) existing)))) [
          | inl same ↦
              inl (same_rows _ _ (eq_of_eq_bytes _ _ same), sym (ap (λ z. z.1) (rw same at e)))
          | inr differs ↦
              let (vs, (s₁, (rebuilt, written))) =
                after-answers (λ vs. write_vectors p io h table column vs)
                  (rebuild table embedder existing present s) tt u (rw differs at e) in
              let wide =
                widths vs (rebuild-IsFor table embedder existing present s vs s₁ rebuilt) in
              let sorted =
                vectors_of-write_vectors table column vs s₁ u ws t plain wide written answered in
              inr (
                vs,
                (
                  subst (λ z. Perm z vs) sorted (sort_vectors-Perm vs),
                  rebuild-embeddings table embedder existing present s vs s₁ distinct rebuilt,
                ),
              )
        ]
    where
      widths :
          (vs : List (RowVector l.F32))
          → All (IsFor present) vs
          → All (λ v. length v.embedding ≡ vector_width) vs
      widths [] a = tt
      widths (v ∷ vs) (a, as_for) = (a.1, widths vs as_for)
