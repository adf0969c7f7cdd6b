-- ===== src/Crypto/FrameError.antt =====
-- crates/euledb-storage/src/crypto/frame.rs: the errors of framing.
use eule_db.Common.{ℕ}

pub data FrameError : Type 0 where
  authentication : ℕ → FrameError
  truncated not_framed : FrameError
  unsupported_version : ℕ → FrameError
  block_size_mismatch : ℕ → ℕ → FrameError
  unknown_key : ℕ → FrameError
  unsupported_block_size : ℕ → FrameError
  range_outside_object random cipher_refused : FrameError
