-- ===== src/Crypto.antt =====
-- The sealing layer: crates/euledb-storage/src/crypto.
pub mod Platform
pub mod FrameError
pub mod BlockSize
pub mod Frame
pub mod StoreError
pub mod Keyring
pub mod Upload
pub mod Store
pub mod Capability
