-- ===== src/Table/Writes.antt =====
-- crates/euledb-storage/src/store.rs and mutation.rs: what changes a table.
use eule_db.Common.{ℕ, List, [], ◌∷◌, ◌++◌, some}
use eule_db.Common.Text.{Text, codes}
use eule_db.Crypto.Platform.{Platform}
use eule_db.Crypto.Capability.{Scope}
use eule_db.Audit.Log.{Io}
use eule_db.Compression.{TableDefinition, applied_to}
use eule_db.Table.Lance.{Lance, create_mode, append_mode}
use eule_db.Table.Error.{nothing_to_set}
use eule_db.Table.Op.{Op, ◌>>=◌, ◌>>◌, done, fail, or_backend}
use eule_db.Table.Handle.{
  World, LanceStore, dataset_path, uri, open_table, on_disk, require_scope, require_write_role,
  record_call,
}
use eule_db.Table.Reconcile.{reconcile_all}

pub record Assignment : Type 0 where
  pub column : Text
  pub value : Text

-- `join(", ")` of the columns
unfoldable pub column_list : List Assignment → Text
column_list [] = []
column_list (a ∷ []) = a.column
column_list (a ∷ b ∷ rest) = a.column ++ (codes ", " ++ column_list (b ∷ rest))

abbrev pub quoted : Text → Text
quoted table = codes "`" ++ (table ++ codes "`")

module _ {l : Lance} where
  unfoldable pub set_all : Text → List Assignment → l.Builder → Op (World l) l.Builder
  set_all table [] builder = done builder
  set_all table (a ∷ rest) builder = do
    next ← or_backend "apply an assignment to" table (l.set builder a.column a.value)
    set_all table rest next

module _ (p : Platform) (io : Io) {l : Lance} where
  unfoldable pub create_table :
      LanceStore l → Text → TableDefinition l.DataType → Op (World l) (Unit {0})
  unfolding require_scope require_write_role uri record_call applied_to
  create_table h table definition = do
    require_scope p io h Scope.schema table
    require_write_role h "create the table" table
    on_disk "create the table" table (
        l.write create_mode h.session (uri h table)
          (applied_to definition.compression definition.declared) [])
    record_call p io h (codes "create table " ++ quoted table) [] 0

  unfoldable pub append_rows : LanceStore l → Text → l.Batch → Op (World l) (Unit {0})
  unfolding require_scope require_write_role uri record_call reconcile_all
  append_rows h table batch = do
    require_scope p io h Scope.write table
    require_write_role h "append to" table
    on_disk "append to the table" table
        (l.write append_mode h.session (uri h table) (l.schema_of batch) (batch ∷ []))
    record_call p io h (codes "insert into " ++ quoted table) [] (l.num_rows batch)
    reconcile_all p io h table

  unfoldable pub update_assigned : LanceStore l → Text → Text → List Assignment → Op (World l) ℕ
  unfolding open_table set_all column_list record_call reconcile_all
  update_assigned h table matching assignments = do
    dataset ← open_table h table
    builder ← or_backend "apply the predicate to" table (l.update_where dataset matching)
    assigned ← set_all table assignments builder
    job ← or_backend "plan the update of" table (l.build assigned)
    rows ← on_disk "update" table (l.execute job)
    record_call p io h (codes "update " ++ (quoted table ++ (codes " where " ++ matching)))
        (column_list assignments) rows
    reconcile_all p io h table
    done rows

  abbrev pub update_unless_empty : LanceStore l → Text → Text → List Assignment → Op (World l) ℕ
  update_unless_empty h table matching [] = fail (nothing_to_set table)
  update_unless_empty h table matching (a ∷ rest) = update_assigned h table matching (a ∷ rest)

  unfoldable pub update : LanceStore l → Text → Text → List Assignment → Op (World l) ℕ
  unfolding require_scope require_write_role update_assigned
  update h table matching assignments = do
    require_scope p io h Scope.write table
    require_write_role h "update" table
    update_unless_empty h table matching assignments

  -- The announced count goes to the trace alone, which is not modelled; that it cannot be taken is a failure.
  unfoldable pub delete_rows : LanceStore l → Text → Text → Op (World l) ℕ
  unfolding require_scope require_write_role open_table record_call reconcile_all
  delete_rows h table matching = do
    require_scope p io h Scope.write table
    require_write_role h "delete from" table
    dataset ← open_table h table
    announced ←
        or_backend "count the rows to delete from" table (l.count_rows dataset (some matching))
    rows ← on_disk "delete from" table (l.delete dataset matching)
    record_call p io h (codes "delete from " ++ (quoted table ++ (codes " where " ++ matching))) []
        rows
    reconcile_all p io h table
    done rows

  unfoldable pub drop_table : LanceStore l → Text → Op (World l) (Unit {0})
  unfolding require_scope require_write_role record_call dataset_path
  drop_table h table = do
    require_scope p io h Scope.schema table
    require_write_role h "drop the table" table
    record_call p io h (codes "drop table " ++ quoted table) [] 0
    on_disk "drop the table" table (l.remove_dir_all (dataset_path h table))
