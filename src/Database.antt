-- ===== src/Database.antt =====
-- crates/euledb/src/database.rs and config.rs: the database as an application sees it.
use eule_db.Common.{ℕ, List, map, Bool, true, false, Result, ok, err}
use eule_db.Common.Text.{Text}
use eule_db.Crypto.Platform.{Platform}
use eule_db.Crypto.Keyring.{Keyring}
use eule_db.Audit.Log.{Io}
use eule_db.Compression.{
  Compression, default_compression, ArrowSchema, new_definition, with_compression,
}
use eule_db.Fusion.{Float32, Fused}
use eule_db.WriterLock.{LockIo}
use eule_db.Table.Lance.{Lance, Embedder}
use eule_db.Table.Error.{Error}
use eule_db.Table.Op.{Op, ◌>>=◌, done}
use eule_db.Table.Handle.{
  World, LanceStore, new_store, open_for_writing, encrypted, embedding, audited,
}
use eule_db.Table.Reads.{scan}
use eule_db.Table.Vectors.{embed_query}
use eule_db.Table.Vectors.Search.{nearest_vectors, search_text, hybrid_search}
use eule_db.Table.Vectors.Index.{
  VectorIndexKind, StemmingLanguage, create_vector_index, create_text_index,
}
use eule_db.Table.Writes.{Assignment, create_table, append_rows, update, delete_rows, drop_table}

pub record Config : Type 0 where
  pub compression : Compression
  pub auditing : Bool

abbrev pub default_config : Config
default_config = record { compression = default_compression; auditing = true }

abbrev pub config_compression : Config → Compression → Config
config_compression config compression = record config { compression = compression }

abbrev pub config_auditing : Config → Bool → Config
config_auditing config auditing = record config { auditing = auditing }

pub record Database (l : Lance) : Type 0 where
  pub store : LanceStore l
  pub config : Config

module _ {l : Lance} where
  abbrev pub audited_if : Bool → LanceStore l → LanceStore l
  audited_if true store = audited store
  audited_if false store = store

  unfoldable pub open_with : Text → Config → Database l
  unfolding new_store
  open_with root config = record {
    store = audited_if config.auditing (new_store root);
    config = config;
  }

  unfoldable pub open_database : Text → Database l
  unfolding open_with
  open_database root = open_with root default_config

  abbrev pub opened : Config → Result Error (LanceStore l) × Bool → Result Error (Database l) × Bool
  opened config (ok store, held) =
      (ok (record { store = audited_if config.auditing store; config = config }), held)
  opened config (err e, held) = (err e, held)

  unfoldable pub open_for_writing_with :
      Text → Config → LockIo → Bool → Result Error (Database l) × Bool
  unfolding open_for_writing
  open_for_writing_with root config io held = opened config (open_for_writing root io held)

  unfoldable pub open_database_for_writing : Text → LockIo → Bool → Result Error (Database l) × Bool
  unfolding open_for_writing_with
  open_database_for_writing root io held = open_for_writing_with root default_config io held

  unfoldable pub encrypted_database : Database l → Keyring → Database l
  unfolding encrypted
  encrypted_database d keyring = record { store = encrypted d.store keyring; config = d.config }

  unfoldable pub embedding_database : Database l → Embedder l → Database l
  unfolding embedding
  embedding_database d embedder = record { store = embedding d.store embedder; config = d.config }

  -- A result before the operations of the store.
  abbrev pub or_fail : {A : Type 0} → Result Error A → Op (World l) A
  or_fail r s = (r, s)

module _ (p : Platform) (io : Io) {l : Lance} where
  unfoldable pub index_vectors :
      Database l → Text → Text → VectorIndexKind → Op (World l) (Unit {0})
  unfolding create_vector_index
  index_vectors d table column kind = create_vector_index p io d.store table column kind

  unfoldable pub index_text : Database l → Text → Text → StemmingLanguage → Op (World l) (Unit {0})
  unfolding create_text_index
  index_text d table column stemming = create_text_index p io d.store table column stemming

  unfoldable pub semantic_search : Database l → Text → Text → Text → ℕ → Op (World l) (List ℕ)
  unfolding embed_query nearest_vectors
  semantic_search d table column query limit = do
    vector ← or_fail (embed_query d.store query)
    found ← nearest_vectors p io d.store table column vector limit
    done (map (λ hit. hit.row) found)

  unfoldable pub text_search : Database l → Text → Text → Text → ℕ → Op (World l) (List ℕ)
  unfolding search_text
  text_search d table column query limit = search_text p io d.store table column query limit

  unfoldable pub search_hybrid :
      (f : Float32) → Database l → Text → Text → Text → ℕ → Op (World l) (Fused f)
  unfolding embed_query hybrid_search
  search_hybrid f d table column query limit = do
    vector ← or_fail (embed_query d.store query)
    hybrid_search p io f d.store table column query vector limit

  unfoldable pub create_in : Database l → Text → ArrowSchema l.DataType → Op (World l) (Unit {0})
  unfolding create_table
  create_in d table declared =
      create_table p io d.store table
        (with_compression (new_definition declared) d.config.compression)

  unfoldable pub insert_rows : Database l → Text → l.Batch → Op (World l) (Unit {0})
  unfolding append_rows
  insert_rows d table rows = append_rows p io d.store table rows

  unfoldable pub scan_in : Database l → Text → Op (World l) (List l.Batch)
  unfolding scan
  scan_in d table = scan p io d.store table

  unfoldable pub update_in : Database l → Text → Text → List Assignment → Op (World l) ℕ
  unfolding update
  update_in d table matching assignments = update p io d.store table matching assignments

  unfoldable pub delete_in : Database l → Text → Text → Op (World l) ℕ
  unfolding delete_rows
  delete_in d table matching = delete_rows p io d.store table matching

  unfoldable pub drop_in : Database l → Text → Op (World l) (Unit {0})
  unfolding drop_table
  drop_in d table = drop_table p io d.store table
