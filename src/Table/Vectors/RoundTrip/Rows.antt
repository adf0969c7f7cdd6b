-- ===== src/Table/Vectors/RoundTrip/Rows.antt =====
-- What is read of batches of vectors: crates/euledb-storage/src/store.rs.
use Prim.Native.String.{String}
use eule_db.Common.{
  Bool-cases, inl, inr, ℕ, List, [], ◌∷◌, ◌++◌, Option, some, none, Result, ok, err, ◌≡◌, refl, sym,
  ap, ap₂, ◌∙◌, subst, Option-cases, Result-cases,
}
use eule_db.Common.Chunks.{chunks}
use eule_db.Common.Text.{Text, codes, utf8}
use eule_db.Crypto.Platform.{Platform}
use eule_db.Crypto.Capability.{Scope, permits}
use eule_db.Audit.Log.{Io, File}
use eule_db.Compression.{stripped_from}
use eule_db.Table.Lance.{Lance, overwrite_mode}
use eule_db.Table.Op.{answer-eq, or_said, after-answers, or_backend-answers}
use eule_db.Table.Handle.{World, LanceStore, uri, open_table, disk_answer, require_scope}
use eule_db.Table.Reads.{stream_of, strip_batches, collect}
use eule_db.Table.Vectors.{vector_width, RowVector, zip_vectors, read_vectors}

-- The rows of three columns, if all are there.
abbrev zipped :
    {F : Type 0}
    → Option (List ℕ)
    → Option (List ℕ)
    → Option (List (List F))
    → Option (List (RowVector F))
zipped none cs es = none
zipped (some rs) none es = none
zipped (some rs) (some cs) none = none
zipped (some rs) (some cs) (some es) = some (zip_vectors rs cs es)

zipped-some :
    {F : Type 0} (a b : Option (List ℕ)) (c : Option (List (List F))) (rs cs : List ℕ)
    (es : List (List F))
    → a ≡ some rs
    → b ≡ some cs
    → c ≡ some es
    → zipped a b c ≡ some (zip_vectors rs cs es)
zipped-some a b c rs cs es x y z = rw (x, y, z) refl

abbrev pub joined : {A : Type 0} → Option (List A) → Option (List A) → Option (List A)
joined none ys = none
joined (some xs) none = none
joined (some xs) (some ys) = some (xs ++ ys)

module _ (l : Lance) where
  -- The vectors that a batch holds, by its columns, and those of batches one behind the other.
  abbrev pub rows_of : l.Batch → Option (List (RowVector l.F32))
  rows_of batch =
      zipped (l.u64_column batch (codes "row")) (l.u32_column batch (codes "chunk"))
        (l.vector_column batch (codes "embedding"))

  abbrev pub all_rows : List l.Batch → Option (List (RowVector l.F32))
  all_rows [] = some []
  all_rows (batch ∷ rest) = joined (rows_of batch) (all_rows rest)

-- What the code relies on of the format. A batch of vectors holds what it was made of, the values in groups of
-- the width. A table that was overwritten without a session, and whose scan without one succeeds, gives the
-- rows that were written, in their order, in however many batches. Taking the encodings off a batch's schema
-- keeps its columns.
pub record KeepsVectors (l : Lance) : Type 0 where
  pub holds_rows :
      (rows chunk_ids : List ℕ) (values : List l.F32) (batch : l.Batch)
      → l.vector_batch l.vector_schema rows chunk_ids values ≡ ok batch
      → rows_of l batch ≡ some (zip_vectors rows chunk_ids (chunks vector_width values))
  pub reads_back :
      (path : Text) (batch : l.Batch) (disk later : l.Disk) (d : l.Dataset) (stream : l.Rows)
      (batches : List l.Batch) (vs : List (RowVector l.F32))
      → l.write overwrite_mode none path l.vector_schema (batch ∷ []) disk ≡ (ok tt, later)
      → l.load path none later ≡ ok d
      → l.into_stream (l.scanner d) ≡ ok stream
      → l.try_collect stream ≡ ok batches
      → rows_of l batch ≡ some vs
      → all_rows l batches ≡ some vs
  pub keeps_columns :
      (batch stripped : l.Batch)
      → l.with_schema (stripped_from (l.schema_of batch)) batch ≡ ok stripped
      → rows_of l stripped ≡ rows_of l batch

module _ {l : Lance} where
  pub disk_answer-answers :
      {A : Type 0} (words : String) (table : Text) (log : File) (r : Result ℕ A × l.Disk) (a : A)
      (u : World l)
      → disk_answer {l = l} words table log r ≡ (ok a, u)
      → r ≡ (ok a, u.disk)
  disk_answer-answers words table log (ok b, disk) a u h =
      ap₂ (λ x y. (ok x, y)) (answer-eq (record { disk = disk; log = log }) u h)
        (ap (λ z. z.1.disk) h)
  disk_answer-answers words table log (err c, disk) a u h = cc

  pub open_table-loaded :
      (h : LanceStore l) (table : Text) (s : World l) (d : l.Dataset) (u : World l)
      → h.session ≡ none
      → open_table h table s ≡ (ok d, u)
      → l.load (uri h table) none s.disk ≡ ok d
  unfolding open_table
  open_table-loaded h table s d u plain opened =
      subst (λ z. l.load (uri h table) z s.disk ≡ ok d) plain
        (elim (Result-cases (l.load (uri h table) h.session s.disk)) [
          | inl (c, e) ↦ cc (rw (e, open_table) at opened)
          | inr (x, e) ↦ e ∙ ap ok (answer-eq s u (rw (e, open_table) at opened))
        ])

  or_said-answers :
      {A : Type 0} (operation : String) (table : Text) (reason : String) (o : Option A)
      (s : World l) (a : A) (u : World l)
      → or_said operation table reason o s ≡ (ok a, u)
      → o ≡ some a
  or_said-answers operation table reason (some b) s a u h = ap some (answer-eq s u h)
  or_said-answers operation table reason none s a u h = cc

  -- What is read of batches are the rows that they hold.
  pub read_vectors-all_rows :
      (reading : String) (table : Text) (batches : List l.Batch) (s : World l)
      (vs : List (RowVector l.F32)) (t : World l)
      → read_vectors reading table batches s ≡ (ok vs, t)
      → all_rows l batches ≡ some vs
  unfolding read_vectors
  read_vectors-all_rows reading table [] s vs t h = ap some (answer-eq s t h)
  read_vectors-all_rows reading table (batch ∷ rest) s vs t h =
      let (rows, (s₁, (r, h₁))) = after-answers _ _ vs t h in
      let (ids, (s₂, (c, h₂))) = after-answers _ _ vs t h₁ in
      let (es, (s₃, (e, h₃))) = after-answers _ _ vs t h₂ in
      let (others, (s₄, (o, h₄))) = after-answers _ _ vs t h₃ in
      ap₂ joined
        (zipped-some _ _ _ rows ids es (or_said-answers reading table "no row column" _ s rows s₁ r)
          (or_said-answers reading table "no chunk column" _ s₁ ids s₂ c)
          (or_said-answers reading table "no embedding column" _ s₂ es s₃ e))
        (read_vectors-all_rows reading table rest s₃ others s₄ o)
      ∙ ap some (answer-eq s₄ t h₄)

  -- Stripping batches keeps the rows that they hold.
  pub strip_batches-all_rows :
      KeepsVectors l
      → (table : Text) (batches : List l.Batch) (s : World l) (stripped : List l.Batch)
        (t : World l)
      → strip_batches table batches s ≡ (ok stripped, t)
      → all_rows l stripped ≡ all_rows l batches
  unfolding strip_batches
  strip_batches-all_rows law table [] s stripped t h = ap (all_rows l) (sym (answer-eq s t h))
  strip_batches-all_rows law table (batch ∷ rest) s stripped t h =
      let (first, (s₁, (f, h₁))) = after-answers _ _ stripped t h in
      let (others, (s₂, (o, h₂))) = after-answers _ _ stripped t h₁ in
      ap (all_rows l) (sym (answer-eq s₂ t h₂))
      ∙ ap₂ joined
          (law.keeps_columns batch first
            ((or_backend-answers "read the table" table _ s first s₁ f).0))
          (strip_batches-all_rows law table rest s₁ others s₂ o)

module _ (p : Platform) (io : Io) {l : Lance} where
  pub require_scope-keeps :
      (h : LanceStore l) (scope : Scope) (table : Text) (s u : World l)
      → require_scope p io h scope table s ≡ (ok tt, u)
      → s ≡ u
  unfolding require_scope
  require_scope-keeps h scope table s u e = elim (Option-cases h.gate) [
    | inl x ↦ ap (λ z. z.1) (rw x at e)
    | inr (gate, x) ↦ elim (Bool-cases (permits p gate (utf8 table) scope)) [
      | inl y ↦ ap (λ z. z.1) (rw y at (rw x at e))
      | inr y ↦ cc (rw y at (rw x at e))
    ]
  ]

  pub collect-parts :
      (scanner : l.Scanner) (table : Text) (s : World l) (stripped : List l.Batch) (t : World l)
      → collect scanner table s ≡ (ok stripped, t)
      → (stream : l.Rows) × ((batches : List l.Batch) × ((u : World l) × ((l.into_stream scanner
                ≡ ok stream)
              × ((l.try_collect stream ≡ ok batches)
                  × (strip_batches table batches u ≡ (ok stripped, t))))))
  unfolding collect stream_of
  collect-parts scanner table s stripped t h =
      let (batches, (s₁, (streams, strips))) = after-answers _ _ stripped t h in
      let (stream, (s₂, (starts, reads))) = after-answers _ _ batches s₁ streams in
      (
        stream,
        (
          batches,
          (
            s₁,
            (
              (or_backend-answers "start a scan of the table" table (l.into_stream scanner) s stream
                  s₂ starts).0,
              (
                (or_backend-answers "read the table" table (l.try_collect stream) s₂ batches s₁
                    reads).0,
                strips,
              ),
            ),
          ),
        ),
      )
