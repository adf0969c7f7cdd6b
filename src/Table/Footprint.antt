-- ===== src/Table/Footprint.antt =====
-- What an operation of the store leaves alone: crates/euledb-storage/src/store.rs.
pub mod Calls
use Prim.Native.String.{String}
use eule_db.Common.{
  Option-cases, Result-cases, ℕ, List, [], ◌∷◌, ◌++◌, length, ◌==◌, Bool, true, false, Bool-cases,
  Option, some, none, Result, ok, err, ◌≡◌, refl, ◌∙◌, inl, inr, if◌then◌else◌,
}
use eule_db.Common.Text.{Text, utf8, codes}
use eule_db.Crypto.Platform.{Platform}
use eule_db.Crypto.Capability.{Scope, Gate, permits}
use eule_db.Audit.Line.{AuditError}
use eule_db.Audit.Log.{Io, File, append}
use eule_db.Compression.{stripped_from}
use eule_db.Table.Lance.{Lance}
use eule_db.Table.Error.{Error}
use eule_db.Table.Op.{Op, after, ◌>>=◌, ◌>>◌, or_backend, or_said}
use eule_db.Table.Handle.{
  World, LanceStore, uri, open_table, require_scope, require_write_role, record_call, on_disk,
  disk_answer, logged,
}
use eule_db.Table.Reads.{
  Order, stream_of, strip_batches, collect, ids_of, row_id_column, select_ordered, select_row_ids,
}
use eule_db.Table.Vectors.{vector_width, read_vectors}
use eule_db.Table.Vectors.Search.{hits_of, require_width}

-- What is seen of the store is as before, whatever the operation answers.
abbrev pub Keeps : {S A B : Type 0} → (S → B) → Op S A → Type 0
Keeps {S = S} view m = (s : S) → view (m s).1 ≡ view s

abbrev pub whole : {l : Lance} → World l → World l
whole s = s

abbrev pub disk_of : {l : Lance} → World l → l.Disk
disk_of s = s.disk

abbrev pub log_of : {l : Lance} → World l → File
log_of s = s.log

module _ {S A B C : Type 0} (view : S → C) where
  after-Keeps :
      (next : A → Op S B)
      → ((a : A) → Keeps view (next a))
      → (r : Result Error A × S) → view (after next r).1 ≡ view r.1
  after-Keeps next k (ok a, s) = k a s
  after-Keeps next k (err e, s) = refl

  -- An operation that goes on after another.
  pub bind-Keeps :
      (m : Op S A) (next : A → Op S B)
      → Keeps view m
      → ((a : A) → Keeps view (next a))
      → Keeps view (m >>= next)
  bind-Keeps m next k n s = after-Keeps next n (m s) ∙ k s

module _ {S A C : Type 0} (view : S → C) where
  pub or_backend-Keeps :
      (words : String) (table : Text) (r : Result ℕ A) → Keeps view (or_backend words table r)
  or_backend-Keeps words table (ok a) s = refl
  or_backend-Keeps words table (err e) s = refl

  pub or_said-Keeps :
      (words : String) (table : Text) (reason : String) (o : Option A)
      → Keeps view (or_said words table reason o)
  or_said-Keeps words table reason none s = refl
  or_said-Keeps words table reason (some a) s = refl

module _ {l : Lance} {C : Type 0} (view : World l → C) where
  pub require_write_role-Keeps :
      (h : LanceStore l) (words : String) (table : Text)
      → Keeps view (require_write_role h words table)
  unfolding require_write_role
  require_write_role-Keeps h words table s = elim (Bool-cases h.write_lock) [
    | inl e ↦ rw e refl
    | inr e ↦ rw e refl
  ]

  pub open_table-Keeps : (h : LanceStore l) (table : Text) → Keeps view (open_table h table)
  unfolding open_table
  open_table-Keeps h table s = elim (Result-cases (l.load (uri h table) h.session s.disk)) [
    | inl (d0, e) ↦ rw (e, open_table) refl
    | inr (c, e) ↦ rw (e, open_table) refl
  ]

  pub stream_of-Keeps :
      (start reading : String) (table : Text) (scanner : l.Scanner)
      → Keeps view (stream_of start reading table scanner)
  unfolding stream_of
  stream_of-Keeps start reading table scanner =
      bind-Keeps view (or_backend start table (l.into_stream scanner)) _
        (or_backend-Keeps view start table _)
        (λ stream. or_backend-Keeps view reading table (l.try_collect stream))

  pub strip_batches-Keeps :
      (table : Text) (batches : List l.Batch) → Keeps view (strip_batches table batches)
  unfolding strip_batches
  strip_batches-Keeps table [] s = refl
  strip_batches-Keeps table (batch ∷ rest) s =
      bind-Keeps view (or_backend "read the table" table _) _
        (or_backend-Keeps view "read the table" table _)
        (λ stripped.
          bind-Keeps view (strip_batches table rest) _ (strip_batches-Keeps table rest)
            (λ b t. refl))
        s

  pub collect-Keeps : (scanner : l.Scanner) (table : Text) → Keeps view (collect scanner table)
  unfolding collect
  collect-Keeps scanner table =
      bind-Keeps view (stream_of _ _ table scanner) _ (stream_of-Keeps _ _ table scanner)
        (λ batches. strip_batches-Keeps table batches)

  pub ids_of-Keeps : (table : Text) (batches : List l.Batch) → Keeps view (ids_of table batches)
  unfolding ids_of
  ids_of-Keeps table [] s = refl
  ids_of-Keeps table (batch ∷ rest) s =
      bind-Keeps view (or_said _ table _ _) _ (or_said-Keeps view _ table _ _)
        (λ u.
          bind-Keeps view (or_said _ table _ (l.u64_column batch row_id_column)) _
            (or_said-Keeps view _ table _ _)
            (λ ids. bind-Keeps view (ids_of table rest) _ (ids_of-Keeps table rest) (λ b t. refl)))
        s

  pub read_vectors-Keeps :
      (reading : String) (table : Text) (batches : List l.Batch)
      → Keeps view (read_vectors reading table batches)
  unfolding read_vectors
  read_vectors-Keeps reading table [] s = refl
  read_vectors-Keeps reading table (batch ∷ rest) s =
      bind-Keeps view (or_said reading table _ (l.u64_column batch (codes "row"))) _
        (or_said-Keeps view _ table _ _)
        (λ rows.
          bind-Keeps view (or_said reading table _ (l.u32_column batch (codes "chunk"))) _
            (or_said-Keeps view _ table _ _)
            (λ chunks.
              bind-Keeps view (or_said reading table _ (l.vector_column batch (codes "embedding")))
                _ (or_said-Keeps view _ table _ _)
                (λ embeddings.
                  bind-Keeps view (read_vectors reading table rest) _
                    (read_vectors-Keeps reading table rest) (λ b t. refl))))
        s

  pub hits_of-Keeps : (table : Text) (batches : List l.Batch) → Keeps view (hits_of table batches)
  unfolding hits_of
  hits_of-Keeps table [] s = refl
  hits_of-Keeps table (batch ∷ rest) s =
      bind-Keeps view (or_said _ table _ (l.u64_column batch row_id_column)) _
        (or_said-Keeps view _ table _ _)
        (λ rows. bind-Keeps view (hits_of table rest) _ (hits_of-Keeps table rest) (λ b t. refl)) s

  pub require_width-Keeps : (query : List l.F32) → Keeps view (require_width query)
  require_width-Keeps query s = elim (Bool-cases (length query == vector_width)) [
    | inl e ↦ rw e refl
    | inr e ↦ rw e refl
  ]

  pub select_ordered-Keeps :
      (scanner : l.Scanner) (table matching by : Text) (order : Order)
      → Keeps view (select_ordered scanner table matching by order)
  unfolding select_ordered
  select_ordered-Keeps scanner table matching by order =
      bind-Keeps view (or_backend _ table (l.filter scanner matching)) _
        (or_backend-Keeps view _ table _) (λ filtered. or_backend-Keeps view _ table _)

  pub select_row_ids-Keeps :
      (scanner : l.Scanner) (table matching : Text)
      → Keeps view (select_row_ids scanner table matching)
  unfolding select_row_ids
  select_row_ids-Keeps scanner table matching =
      bind-Keeps view (or_backend _ table (l.filter scanner matching)) _
        (or_backend-Keeps view _ table _) (λ filtered. or_backend-Keeps view _ table _)

module _ (p : Platform) (io : Io) {l : Lance} where
  pub require_scope-Keeps :
      {C : Type 0} (view : World l → C) (h : LanceStore l) (scope : Scope) (table : Text)
      → Keeps view (require_scope p io h scope table)
  unfolding require_scope
  require_scope-Keeps view h scope table s = elim (Option-cases h.gate) [
    | inl e ↦ rw e refl
    | inr (g, e) ↦ elim (Bool-cases (permits p g (utf8 table) scope)) [
      | inl f ↦ rw (e, f) refl
      | inr f ↦ rw (e, f) refl
    ]
  ]

  -- A record changes the log, and not the disk.
  pub record_call-Keeps :
      (h : LanceStore l) (query plan : Text) (rows : ℕ)
      → Keeps disk_of (record_call p io h query plan rows)
  unfolding record_call
  record_call-Keeps h query plan rows s = elim (Bool-cases h.auditing) [
    | inl e ↦ rw e (go (append p io s.log query plan rows))
    | inr e ↦ rw e refl
  ]
    where
      go : (r : Result AuditError (Unit {0}) × File) → (logged {l = l} s.disk r).1.disk ≡ s.disk
      go (ok u, f) = refl
      go (err e, f) = refl
