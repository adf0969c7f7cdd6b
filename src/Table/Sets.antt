-- ===== src/Table/Sets.antt =====
-- crates/euledb-storage/src/store.rs: combinations of predicates, and a search within one.
pub mod Members
use Prim.Native.String.{String}
use eule_db.Common.{ℕ, List, [], ◌∷◌, Option, some, none, Result, ok, err}
use eule_db.Common.Text.{Text, codes}
use eule_db.Crypto.Platform.{Platform}
use eule_db.Crypto.Capability.{Scope}
use eule_db.Audit.Log.{Io}
use eule_db.Measurement.{Bitmap, intersect_all, union_all}
use eule_db.Table.Lance.{Lance, IndexParams}
use eule_db.Table.Error.{nothing_to_combine}
use eule_db.Table.Op.{Op, ◌>>=◌, ◌>>◌, done, fail}
use eule_db.Table.Handle.{World, LanceStore, open_table, on_disk, require_scope, require_write_role}
use eule_db.Table.Reads.{row_ids}

-- What proposes candidates within a set of rows.
pub record CandidateSource (b : Bitmap) (l : Lance) : Type 0 where
  pub candidates : b.Rows → ℕ → Op (World l) (List ℕ)

module _ (p : Platform) (io : Io) (b : Bitmap) {l : Lance} where
  unfoldable pub sets_of : LanceStore l → Text → List Text → Op (World l) (List b.Rows)
  unfolding row_ids
  sets_of h table [] = done []
  sets_of h table (predicate ∷ tail) = do
    rows ← row_ids p io h table predicate
    others ← sets_of h table tail
    done (b.from_rows rows ∷ others)

  unfoldable pub each_set :
      LanceStore l → Text → List Text → String → Op (World l) (b.Rows × List b.Rows)
  unfolding sets_of row_ids
  each_set h table [] operation = fail (nothing_to_combine operation table)
  each_set h table (head ∷ tail) operation = do
    rows ← row_ids p io h table head
    rest ← sets_of h table tail
    done (b.from_rows rows, rest)

  unfoldable pub row_ids_all : LanceStore l → Text → List Text → Op (World l) b.Rows
  unfolding each_set intersect_all
  row_ids_all h table matching = do
    sets ← each_set h table matching "intersect"
    done (intersect_all b sets.0 sets.1)

  unfoldable pub row_ids_any : LanceStore l → Text → List Text → Op (World l) b.Rows
  unfolding each_set union_all
  row_ids_any h table matching = do
    sets ← each_set h table matching "unite"
    done (union_all b sets.0 sets.1)

  unfoldable pub filtered_search :
      LanceStore l → Text → List Text → CandidateSource b l → ℕ → Op (World l) (List ℕ)
  unfolding row_ids_all
  filtered_search h table filter source limit = do
    within ← row_ids_all h table filter
    source.candidates within limit

module _ (p : Platform) (io : Io) {l : Lance} where
  unfoldable pub create_index : LanceStore l → Text → Text → Op (World l) (Unit {0})
  unfolding require_scope require_write_role open_table
  create_index h table column = do
    require_scope p io h Scope.schema table
    require_write_role h "index a column of" table
    dataset ← open_table h table
    on_disk "index a column of" table (l.create_index dataset column IndexParams.btree)
