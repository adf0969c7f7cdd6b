-- ===== src/Table/Reads.antt =====
-- crates/euledb-storage/src/store.rs: the reads of a table by a predicate.
use Prim.Native.String.{String}
use eule_db.Common.{ℕ, ◌+◌, List, [], ◌∷◌, ◌++◌, Bool, true, false, some, none, if◌then◌else◌}
use eule_db.Common.Text.{Text, codes}
use eule_db.Crypto.Platform.{Platform}
use eule_db.Crypto.Capability.{Scope}
use eule_db.Audit.Log.{Io}
use eule_db.Compression.{stripped_from}
use eule_db.Measurement.{Float64, Measured, widest_scan}
use eule_db.Table.Lance.{Lance}
use eule_db.Table.Op.{Op, ◌>>=◌, ◌>>◌, done, or_backend, or_said}
use eule_db.Table.Handle.{World, LanceStore, open_table, require_scope, record_call}

-- "_rowid", the name that lance gives the column of row ids
abbrev pub row_id_column : Text
row_id_column = codes "_rowid"

pub data Order : Type 0 where
  ascending descending : Order

abbrev pub is_ascending : Order → Bool
is_ascending ascending = true
is_ascending descending = false

unfoldable pub sum_rows : (l : Lance) → List l.Batch → ℕ
sum_rows l [] = 0
sum_rows l (batch ∷ rest) = l.num_rows batch + sum_rows l rest

module _ {l : Lance} where
  unfoldable pub select_ordered : l.Scanner → Text → Text → Text → Order → Op (World l) l.Scanner
  select_ordered scanner table matching by order = do
    filtered ← or_backend "apply the predicate to" table (l.filter scanner matching)
    or_backend "order the rows of" table (l.order_by filtered by (is_ascending order))

  unfoldable pub select_row_ids : l.Scanner → Text → Text → Op (World l) l.Scanner
  select_row_ids scanner table matching = do
    filtered ← or_backend "apply the predicate to" table (l.filter scanner matching)
    or_backend "project no columns of" table (l.project (l.with_row_id filtered) [])

  -- `try_into_stream` and `try_collect`, with the words for a failure of each.
  unfoldable pub stream_of : String → String → Text → l.Scanner → Op (World l) (List l.Batch)
  stream_of start reading table scanner = do
    stream ← or_backend start table (l.into_stream scanner)
    or_backend reading table (l.try_collect stream)

  -- Every batch with its caller's schema; the first failure is the answer.
  unfoldable pub strip_batches : Text → List l.Batch → Op (World l) (List l.Batch)
  strip_batches table [] = done []
  strip_batches table (batch ∷ rest) = do
    stripped ←
        or_backend "read the table" table (l.with_schema (stripped_from (l.schema_of batch)) batch)
    others ← strip_batches table rest
    done (stripped ∷ others)

  unfoldable pub collect : l.Scanner → Text → Op (World l) (List l.Batch)
  unfolding stream_of strip_batches
  collect scanner table = do
    batches ← stream_of "start a scan of the table" "read the table" table scanner
    strip_batches table batches

  -- The row ids of the batches of a scan.
  unfoldable pub ids_of : Text → List l.Batch → Op (World l) (List ℕ)
  ids_of table [] = done []
  ids_of table (batch ∷ rest) = do
    or_said "read the row ids of" table "the scan returned no row-id column"
        (if l.has_column batch row_id_column then some tt else none)
    ids ←
        or_said "read the row ids of" table "the row-id column was not the expected type"
          (l.u64_column batch row_id_column)
    others ← ids_of table rest
    done (ids ++ others)

module _ (p : Platform) (io : Io) {l : Lance} where
  unfoldable pub row_ids : LanceStore l → Text → Text → Op (World l) (List ℕ)
  unfolding require_scope open_table select_row_ids stream_of ids_of
  row_ids h table matching = do
    require_scope p io h Scope.read table
    dataset ← open_table h table
    scanner ← select_row_ids (l.scanner dataset) table matching
    batches ← stream_of "start a scan of the table" "read the table" table scanner
    ids_of table batches

  unfoldable pub row_ids_measured :
      Float64 → LanceStore l → Text → Text → Op (World l) (Measured (List ℕ))
  unfolding row_ids open_table select_row_ids
  row_ids_measured f h table matching = do
    value ← row_ids h table matching
    dataset ← open_table h table
    scanner ← select_row_ids (l.scanner dataset) table matching
    plan ← or_backend "analyse the plan for" table (l.analyze_plan scanner)
    done (record { value = value; rows_examined = widest_scan f plan })

  unfoldable pub scan_ordered :
      LanceStore l → Text → Text → Text → Order → Op (World l) (List l.Batch)
  unfolding require_scope open_table select_ordered collect
  scan_ordered h table matching by order = do
    require_scope p io h Scope.read table
    dataset ← open_table h table
    scanner ← select_ordered (l.scanner dataset) table matching by order
    collect scanner table

  unfoldable pub scan_ordered_measured :
      Float64 → LanceStore l → Text → Text → Text → Order → Op (World l) (Measured (List l.Batch))
  unfolding scan_ordered open_table select_ordered
  scan_ordered_measured f h table matching by order = do
    value ← scan_ordered h table matching by order
    dataset ← open_table h table
    scanner ← select_ordered (l.scanner dataset) table matching by order
    plan ← or_backend "analyse the plan for" table (l.analyze_plan scanner)
    done (record { value = value; rows_examined = widest_scan f plan })

  unfoldable pub scan : LanceStore l → Text → Op (World l) (List l.Batch)
  unfolding require_scope open_table collect record_call sum_rows
  scan h table = do
    require_scope p io h Scope.read table
    dataset ← open_table h table
    batches ← collect (l.scanner dataset) table
    record_call p io h (codes "scan `" ++ (table ++ codes "`")) [] (sum_rows l batches)
    done batches
