-- ===== src/Table.antt =====
-- crates/euledb-storage/src/store.rs: the `LanceStore`.
pub mod Lance
pub mod Error
pub mod Op
pub mod Handle
pub mod Reads
pub mod Sets
pub mod Vectors
pub mod Reconcile
pub mod Writes
pub mod Calls
pub mod Guards
pub mod Footprint
pub mod Records
