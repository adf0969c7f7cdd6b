-- ===== src/WriterLock.antt =====
-- crates/euledb-storage/src/writer_lock.rs: the write role of a database, an advisory lock on a file.
-- What the operating system answers to a call is the parameter `LockIo`; whether another handle holds the
-- lock is its state.
pub mod Holders
use eule_db.Common.{Bool, true, false, not, Result, ok, err, if◌then◌else◌}
use eule_db.Common.Text.{Text}

-- Whether the directory is created, the file opened, and the lock asked for without an error.
pub record LockIo : Type 0 where
  pub creates : Bool
  pub opens_file : Bool
  pub asks : Bool

pub data LockError : Type 0 where
  busy unavailable : Text → LockError

-- `WriteLock::acquire`, and whether the lock is held after it.
unfoldable pub acquire : Text → LockIo → Bool → Result LockError (Unit {0}) × Bool
acquire root io held =
    if not io.creates
    then (err (unavailable root), held)
    else if not io.opens_file
    then (err (unavailable root), held)
    else if not io.asks
    then (err (unavailable root), held)
    else if held
    then (err (busy root), true)
    else (ok tt, true)
