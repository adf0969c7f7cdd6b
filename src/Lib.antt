-- ===== src/Lib.antt =====
-- EuleDB: an embedded database of tables that are searched by predicate, by meaning and by text, with
-- encryption at rest, a keyring, capability tokens and an audit log.
--
-- An application opens a `Database` (crates/euledb), which calls a `LanceStore` (crates/euledb-storage/src/store.rs)
-- for every operation. The store asks its `Gate` for a scope and itself for the write role, calls the format
-- lance, records the call in the audit log, and after a change makes the companion tables of vectors follow.
-- An embedder (crates/euledb-embed) makes the vectors. On an encrypted store the format reads and writes through
-- an `EncryptingObjectStore` (crypto/store.rs): an object is sealed block by block by a `BlockFrame`
-- (crypto/frame.rs), which a `Keyring` (crypto/keyring.rs) makes with its data keys; a large object is sealed
-- part by part by a `SealingUpload`. A keyring also grants the capabilities that a `Gate` checks
-- (crypto/capability.rs), and is written to a keyfile under a key derived from the passphrase. The audit log
-- (audit.rs) is a text file of records, each of which carries the hash of the one before. A `TableSchema`
-- (schema.rs) checks a batch.
--
-- Files and sources (under crates/euledb-storage/src unless a crate is named):
--   Crypto/Frame, Crypto/BlockSize, Crypto/FrameError   crypto/frame.rs
--       `BlockFrame`, `Framing` and `BlockSize` are the types of that name; `open` is `open_object`. The
--       loops of `seal` and `open_span` are `seal_loop` and `open_loop`, by recursion on the list of pieces.
--   Crypto/Keyring                                      crypto/keyring.rs
--       `Keyring` and its methods; `open` is `open_keyfile`. A method that changes the keyring returns the
--       keyring beside its answer, also when it fails half way.
--   Crypto/Upload, Crypto/StoreError                    crypto/store.rs
--       `SealingUpload`: `put_part`, `complete`, `drain_full_blocks`.
--   Crypto/Store                                        crypto/store.rs
--       `EncryptingObjectStore` over the wrapped store, the parameter `InnerStore`.
--   Crypto/Capability                                   crypto/capability.rs
--       `Scope`, `Capability`, `Gate`; `Gate::new` is `new_gate`, its loop `any_permits`.
--   Schema                                              schema.rs
--       `TableSchema` is its list of fields; `validate`, `auto_embedding`.
--   Audit/Line, Audit/Chain, Audit/Log                  audit.rs
--       `AuditRecord` and its line; the links; `AuditLog` over its file.
--   Compression                                         compression.rs, definition.rs
--       `ZstdLevel` is its number; `Compression`, `TableDefinition`.
--   Fusion                                              fusion.rs
--       `fuse`, its closure `contribute` and the comparison `cmp_hits`; the stable sort is by insertion.
--   WriterLock                                          writer_lock.rs
--       `WriteLock::acquire`; the processes that open, leave and die are the relation `Steps`.
--   Measurement                                         measurement.rs
--       `RowId` and `RowsExamined` are their numbers; `RowIdSet` is a bitmap, the parameter `Bitmap`.
--   Table/Lance, Table/Error, Table/Op                  what store.rs calls, its errors (also error.rs), its monad
--   Table/Handle, Reads, Sets, Vectors, Reconcile, Writes   store.rs, embedding.rs, mutation.rs, search.rs
--       `LanceStore` and its methods; `open` is `open_table`, `record` is `record_call`, `append` is
--       `append_rows`, `delete` is `delete_rows`, `nearest` is `nearest_vectors`. A loop over batches is a
--       recursion (`ids_of`, `read_vectors`, `hits_of`, `texts_of`); `reconcile` is in the parts
--       `existing_vectors`, `present_texts`, `refresh`, `rebuild` and `write_vectors`.
--   Table/Calls                                         the operations of a handle as the data type `Call`
--   Database                                            crates/euledb/src/database.rs, config.rs
--       `create_table` is `create_in`, `insert` is `insert_rows`, `hybrid_search` is `search_hybrid`, and so on.
--   Embed                                               crates/euledb-embed/src/lib.rs
--       Embed/Chunks cuts a text, Embed/Pooling pads the ids and pools the output, Embed/Running runs the graph;
--       the cache of plans is passed along.
--   Corpus                                              crates/euledb-corpus/src/lib.rs
--   Common                                              bytes, words, slices, chunks, ordered maps, text
--   Tests                                               runs at concrete inputs
--
-- Parameters. `Crypto.Platform.Platform` holds the operations of other crates and of the operating
-- system: AES-256-GCM, the random source, Argon2id, HMAC-SHA256 and SHA-256. `IsSound` states what their
-- documentation promises and the code relies on: a buffer is filled with as many bytes as asked for, a
-- ciphertext is 16 bytes longer than its message, and what was encrypted decrypts under the same nonce and
-- associated data. Nothing is assumed on secrecy. A keyring is
-- valid for a passphrase (`IsKeyring`) if its ids ascend, its keys have 32 bytes, the current one is among them, and
-- its wrapped form is that key set under the key derived from the passphrase. `Tests.Toy` is a platform that computes and is sound.
-- The wrapped object store and its upload, and the answers of the file system, are parameters too: `Holds` and
-- `Keeps` say that a store which holds an object reports its length and hands out its ranges, and may
-- fail. So are the types and the search by name of the crate arrow (`IsSearch`).
-- `Table.Lance.Lance` holds what the table store takes from the crates lance and arrow: the disk, the datasets, scans
-- and batches, with a number for a failure. One law of them is assumed, and only where it is named: `KeepsVectors`
-- (Table/Vectors/RoundTrip/Rows), that a table of vectors which was overwritten gives, when a scan of it
-- succeeds, the rows that were written in their order, in any number of batches. `Measurement.Bitmap` is the crate roaring, with
-- `IsBitmap` for its membership. `Fusion.Float32`, `Measurement.Float64` and `Embed.Model` hold the floats, the
-- tokenizer and the graph; `IsComparison` says that the two directions of a comparison agree, and that
-- it answers, as it does for floats that are numbers. `Tests.Lances`
-- has a format that computes.
--
-- Numbers. `usize` and `u64` have 64 bits and their arithmetic wraps; each theorem that needs a length
-- below 2 ^ 64 says so (`Fits`: the object, rounded up to whole blocks, seals to fewer than 2 ^ 64 bytes). A
-- `u32` on disk is four bytes, the lowest first. The counts of rows in Table are of rows in memory, far below 2 ^ 64.
--
-- Fuel. `drain_loop` runs on fuel: the caller gives the number of pending bytes, and each round takes a
-- block, which is at least one byte where the block size is positive. `decimal_loop` runs on 20, the digits
-- that a 64-bit number can have. `halves_to_one` runs on 64, the bits of a `usize`.
--
-- Not modelled: the registration of the encrypting provider with lance, the zeroing of secrets in memory, the
-- words of the errors of the embedder, what is written to the trace (as the count of rows that `delete` announces),
-- the program that is killed while it writes, examples and scripts. A
-- poisoned lock has no counterpart, since no thread panics here.
pub mod Common
pub mod Crypto
pub mod Audit
pub mod Schema
pub mod Compression
pub mod Fusion
pub mod WriterLock
pub mod Measurement
pub mod Table
pub mod Embed
pub mod Database
pub mod Corpus
pub mod Tests
