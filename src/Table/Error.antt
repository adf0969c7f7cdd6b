-- ===== src/Table/Error.antt =====
-- crates/euledb-storage/src/store.rs and error.rs: what an operation on a table answers when it fails.
use Prim.Native.String.{String}
use eule_db.Common.{ℕ}
use eule_db.Common.Text.{Text}
use eule_db.Crypto.Capability.{Scope}
use eule_db.Crypto.Keyring.{KeyringError}
use eule_db.Audit.Line.{AuditError}
use eule_db.Compression.{InvalidZstdLevel}

-- The failure of the layer below, or what the code itself says of it.
pub data Cause : Type 0 where
  below : ℕ → Cause
  said : String → Cause
  embedder_said : Text → Cause

pub data StorageError : Type 0 where
  already_open_for_writing : Text → StorageError
  read_only : String → Text → StorageError
  no_embedder : StorageError
  query_not_embeddable : Text → StorageError
  wrong_vector_width : ℕ → ℕ → StorageError
  not_permitted : Scope → Text → StorageError
  nothing_to_combine : String → Text → StorageError
  nothing_to_set : Text → StorageError
  backend : String → Text → Cause → StorageError

-- `crate::Error`; a `SchemaMismatch` comes from no operation of the store.
pub data Error : Type 0 where
  storage : StorageError → Error
  keyring : KeyringError → Error
  audit : AuditError → Error
  compression : InvalidZstdLevel → Error
