-- ===== src/Table/Vectors/Rebuild.antt =====
-- crates/euledb-storage/src/store.rs: what `reconcile` writes into a companion table.
pub mod Entries
pub mod Kept
use Prim.Native.String.{String}
use eule_db.Common.{
  ℕ, zero, suc, ◌+◌, ◌-◌, ◌^◌, min, List, [], ◌∷◌, ◌++◌, length, map, Bool, true, false,
}
use eule_db.Common.{ltb, ◌==◌, if◌then◌else◌, eq_bytes, Option, some, none, Result, ok, err}
use eule_db.Common.Text.{Text, codes}
use eule_db.Audit.Line.{decimal}
use eule_db.Table.Lance.{Lance, Embedder}
use eule_db.Table.Error.{Error, storage, backend, Cause, embedder_said}
use eule_db.Table.Op.{Op, ◌>>=◌, ◌>>◌, done, or_said}
use eule_db.Table.Handle.{World}
use eule_db.Table.Reads.{row_id_column}
use eule_db.Table.Vectors.{vector_width, RowVector}

-- A `BTreeSet` of row ids, in ascending order.
unfoldable pub insert_row : ℕ → List ℕ → List ℕ
insert_row r [] = r ∷ []
insert_row r (x ∷ xs) =
    if ltb r x then r ∷ x ∷ xs else if r == x then x ∷ xs else x ∷ insert_row r xs

unfoldable pub row_set : List ℕ → List ℕ
unfolding insert_row
row_set [] = []
row_set (r ∷ rs) = insert_row r (row_set rs)

module _ {F : Type 0} where
  -- The vectors that a row has already.
  unfoldable pub kept_for : ℕ → List (RowVector F) → List (List F)
  kept_for row [] = []
  kept_for row (v ∷ rest) =
      let others = kept_for row rest in if v.row == row then v.embedding ∷ others else others

-- The failure of an embedder.
abbrev pub embedding_failed : Text → Text → Error
embedding_failed table cause = storage (backend "embed the text of" table (embedder_said cause))

abbrev pub wrong_width : ℕ → Text
wrong_width n =
    codes "the embedder produced "
    ++ (decimal n ++ (codes " components, not " ++ decimal vector_width))

abbrev pub or_embedding_failed : {S A : Type 0} → Text → Result Text A → Op S A
or_embedding_failed table (ok a) s = (ok a, s)
or_embedding_failed table (err cause) s = (err (embedding_failed table cause), s)

-- The texts that are in the table, with their row ids.
abbrev pub zip_texts : List ℕ → List Text → List (ℕ × Text)
zip_texts [] texts = []
zip_texts (r ∷ rows) [] = []
zip_texts (r ∷ rows) (t ∷ texts) = (r, t) ∷ zip_texts rows texts

module _ {l : Lance} where
  unfoldable pub texts_of : Text → Text → List l.Batch → Op (World l) (List (ℕ × Text))
  texts_of table column [] = done []
  texts_of table column (batch ∷ rest) = do
    rows ← or_said "read the row ids of" table "no row-id column" (l.u64_column batch row_id_column)
    texts ←
        or_said "read the embedding column of" table "an auto-embedding column must hold text"
          (l.text_column batch column)
    others ← texts_of table column rest
    done (zip_texts rows texts ++ others)

  -- The vectors of a row, numbered; each must have the width.
  unfoldable pub number_chunks :
      Text → ℕ → ℕ → List (List l.F32) → Op (World l) (List (RowVector l.F32))
  number_chunks table row chunk [] = done []
  number_chunks table row chunk (e ∷ rest) = do
    or_embedding_failed table
        (if length e == vector_width then ok tt else err (wrong_width (length e)))
    others ← number_chunks table row (suc chunk) rest
    done (record { row = row; chunk = min chunk (2 ^ 32 - 1); embedding = e } ∷ others)

  -- Those that the row has already, or else those of the embedder.
  abbrev pub embeddings_for :
      Embedder l → Text → List (List l.F32) → Result Text (List (List l.F32))
  embeddings_for embedder text [] = embedder.embed_passage text
  embeddings_for embedder text (e ∷ kept) = ok (e ∷ kept)

  unfoldable pub rebuild :
      Text
      → Embedder l
      → List (RowVector l.F32)
      → List (ℕ × Text)
      → Op (World l) (List (RowVector l.F32))
  unfolding kept_for number_chunks
  rebuild table embedder existing [] = done []
  rebuild table embedder existing ((row, text) ∷ rest) = do
    embeddings ← or_embedding_failed table (embeddings_for embedder text (kept_for row existing))
    vectors ← number_chunks table row 0 embeddings
    others ← rebuild table embedder existing rest
    done (vectors ++ others)
