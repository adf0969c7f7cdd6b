-- ===== src/Table/Handle.antt =====
-- crates/euledb-storage/src/store.rs: the handle, what guards its operations, and where a table lives.
use Prim.Native.String.{String}
use eule_db.Common.{
  ℕ, List, [], ◌∷◌, ◌++◌, Bool, true, false, Option, some, none, Result, ok, err, ◌==◌,
  if◌then◌else◌,
}
use eule_db.Common.Text.{Text, codes, utf8, starts_with}
use eule_db.Crypto.Platform.{Platform}
use eule_db.Crypto.BlockSize.{default_size}
use eule_db.Crypto.Frame.{BlockFrame}
use eule_db.Crypto.Keyring.{Keyring, frame}
use eule_db.Crypto.Capability.{Scope, Capability, Gate, new_gate, permits}
use eule_db.Audit.Line.{AuditError}
use eule_db.Audit.Log.{Io, File, append}
use eule_db.WriterLock.{LockIo, LockError, busy, unavailable, acquire}
use eule_db.Table.Lance.{Lance, Embedder}
use eule_db.Table.Error.{
  Error, storage, audit, backend, Cause, said, already_open_for_writing, read_only, not_permitted,
}
use eule_db.Table.Op.{Op, done, fail}

-- What is stored: the disk, and the file of the audit log.
pub record World (l : Lance) : Type 0 where
  pub disk : l.Disk
  pub log : File

-- `write_lock`, `audit` and `session` are present or not; a session is the frame that its registry seals
-- with.
pub record LanceStore (l : Lance) : Type 0 where
  pub root : Text
  pub write_lock : Bool
  pub session : Option BlockFrame
  pub embedder : Option (Embedder l)
  pub auditing : Bool
  pub gate : Option Gate

-- `Path::join` on Unix.
unfoldable pub ends_with_slash : Text → Bool
ends_with_slash [] = false
ends_with_slash (c ∷ []) = c == b'/'
ends_with_slash (c ∷ d ∷ cs) = ends_with_slash (d ∷ cs)

unfoldable pub join : Text → Text → Text
unfolding ends_with_slash
join [] name = name
join (c ∷ cs) name =
    if starts_with name (codes "/")
    then name
    else if ends_with_slash (c ∷ cs)
    then (c ∷ cs) ++ name
    else (c ∷ cs) ++ (b'/' ∷ name)

unfoldable pub vector_table : Text → Text → Text
vector_table table column = table ++ (b'.' ∷ (column ++ codes ".vectors"))

module _ {l : Lance} where
  unfoldable pub new_store : Text → LanceStore l
  new_store root = record {
    root = root;
    write_lock = false;
    session = none;
    embedder = none;
    auditing = false;
    gate = none;
  }

  -- What `open_for_writing` makes of the answer to its lock.
  abbrev pub with_lock :
      Text → Result LockError (Unit {0}) × Bool → Result Error (LanceStore l) × Bool
  with_lock root (ok _, held) = (
    ok (record {
      root = root;
      write_lock = true;
      session = none;
      embedder = none;
      auditing = false;
      gate = none;
    }),
    held,
  )
  with_lock root (err (busy r), held) = (err (storage (already_open_for_writing r)), held)
  with_lock root (err (unavailable r), held) =
      (err (storage (backend "take the write lock for" root (said "unavailable"))), held)

  -- Whether the lock is held is its state.
  unfoldable pub open_for_writing : Text → LockIo → Bool → Result Error (LanceStore l) × Bool
  unfolding acquire
  open_for_writing root lock_io held = with_lock root (acquire root lock_io held)

  unfoldable pub encrypted : LanceStore l → Keyring → LanceStore l
  encrypted h keyring = record h { session = some (frame keyring default_size) }

  unfoldable pub embedding : LanceStore l → Embedder l → LanceStore l
  embedding h embedder = record h { embedder = some embedder }

  unfoldable pub audited : LanceStore l → LanceStore l
  audited h = record h { auditing = true }

  unfoldable pub gated : Platform → LanceStore l → Keyring → List Capability → LanceStore l
  gated p h keyring granted = record h { gate = some (new_gate p keyring granted) }

  unfoldable pub dataset_path : LanceStore l → Text → Text
  unfolding join
  dataset_path h table = join h.root (table ++ codes ".lance")

  unfoldable pub uri : LanceStore l → Text → Text
  unfolding dataset_path
  uri h table = elim h.session [
    | some f ↦ l.encrypted_uri (dataset_path h table)
    | none ↦ dataset_path h table
  ]

  unfoldable pub require_write_role : LanceStore l → String → Text → Op (World l) (Unit {0})
  require_write_role h operation table =
      if h.write_lock then done tt else fail (read_only operation table)

  unfoldable pub open_table : LanceStore l → Text → Op (World l) l.Dataset
  unfolding uri
  open_table h table s = elim (l.load (uri h table) h.session s.disk) [
    | ok dataset ↦ (ok dataset, s)
    | err cause ↦ (err (storage (backend "open the table" table (Cause.below cause))), s)
  ]

  -- A call of the format that changes the disk.
  abbrev pub disk_answer :
      {A : Type 0} → String → Text → File → Result ℕ A × l.Disk → Result Error A × World l
  disk_answer operation table log (ok a, disk) = (ok a, record { disk = disk; log = log })
  disk_answer operation table log (err cause, disk) = (
    err (storage (backend operation table (Cause.below cause))),
    record { disk = disk; log = log },
  )

  abbrev pub on_disk :
      {A : Type 0} → String → Text → (l.Disk → Result ℕ A × l.Disk) → Op (World l) A
  on_disk operation table call s = disk_answer operation table s.log (call s.disk)

  -- The answer of the audit log.
  abbrev pub logged :
      l.Disk → Result AuditError (Unit {0}) × File → Result Error (Unit {0}) × World l
  logged disk (ok _, log) = (ok tt, record { disk = disk; log = log })
  logged disk (err e, log) = (err (audit e), record { disk = disk; log = log })

module _ (p : Platform) (io : Io) {l : Lance} where
  -- The table's name goes into a tag as its UTF-8 bytes.
  unfoldable pub require_scope : LanceStore l → Scope → Text → Op (World l) (Unit {0})
  require_scope h scope table = elim h.gate [
    | none ↦ done tt
    | some gate ↦
        if permits p gate (utf8 table) scope then done tt else fail (not_permitted scope table)
  ]

  -- `LanceStore::record`
  unfoldable pub record_call : LanceStore l → Text → Text → ℕ → Op (World l) (Unit {0})
  record_call h query plan rows s = elim h.auditing [
    | false ↦ (ok tt, s)
    | true ↦ logged s.disk (append p io s.log query plan rows)
  ]
