-- ===== src/Crypto/StoreError.antt =====
-- crates/euledb-storage/src/crypto/store.rs: failures as the wrapped object store reports them.
use eule_db.Common.{ℕ, List}
use eule_db.Crypto.FrameError.{FrameError}

-- `object_store::path::Path`, as the code points of its text.
abbrev pub ObjectPath : Type 0
ObjectPath = List ℕ

-- `located` is what `crypto_error` builds, `wrapped` is `complete`'s second wrapping, and `inner` is an
-- error of the wrapped store, by a number that the model does not interpret.
pub data StoreError : Type 0 where
  located : ObjectPath → FrameError → StoreError
  wrapped : StoreError → StoreError
  inner : ℕ → StoreError

unfoldable pub crypto_error : ObjectPath → FrameError → StoreError
crypto_error location e = located location e
