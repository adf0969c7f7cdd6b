-- ===== src/Audit.antt =====
-- crates/euledb-storage/src/audit.rs
pub mod Line
pub mod Chain
pub mod Log
