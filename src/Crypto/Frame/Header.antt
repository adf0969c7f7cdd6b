-- ===== src/Crypto/Frame/Header.antt =====
-- The header of a sealed object: crates/euledb-storage/src/crypto/frame.rs.
use eule_db.Common.{◌^◌, ◌<◌, ◌≡◌, sym, arith, true}
use eule_db.Common.{◌++◌, length, Bytes, ok, not_lt→ltb, ==_of_eq}
use eule_db.Common.{u32_from_le-u32_le}
use eule_db.Common.OrdMap.{contains_key}
use native.Mathlib.Nat.{mod-eq_of_lt}
use eule_db.Crypto.BlockSize
use eule_db.Crypto.Frame.{BlockFrame, header, read_header}

-- Any frame of the same block size that holds the key reads the header, also one that seals with
-- another key now. The block size is an accepted one, and it and the key's id are below 2 ^ 32.
pub read_header-header :
    (f g : BlockFrame) (rest : Bytes)
    → f.current < 2 ^ 32
    → g.block_size ≡ f.block_size
    → BlockSize.new f.block_size ≡ ok f.block_size
    → f.block_size < 2 ^ 32
    → contains_key f.current g.keys ≡ true
    → read_header g (header f ++ rest) ≡ ok (record { block_size = f.block_size; key = f.current })
unfolding read_header header
read_header-header f g rest hk same valid small held =
    rw (not_lt→ltb (length (header f ++ rest)) 13 (omega arith)) (
      rw (mod-eq_of_lt small) (
        rw (u32_from_le-u32_le f.block_size small, u32_from_le-u32_le f.current hk)
          (rw (==_of_eq f.block_size g.block_size (sym same)) (rw held (rw valid)))))
