-- ===== src/Crypto/BlockSize.antt =====
-- crates/euledb-storage/src/crypto/frame.rs: `BlockSize`, the plaintext bytes per block.
use eule_db.Common.{ℕ, zero, suc, ◌/◌, ◌%◌, ◌^◌, Bool, true, false, ◌&&◌, Result, ok, err}
use eule_db.Common.{leb, ◌==◌, if◌then◌else◌}
use eule_db.Crypto.FrameError.{FrameError, unsupported_block_size}

abbrev pub min_size : ℕ
min_size = 64

abbrev pub max_size : ℕ
max_size = 2 ^ 20

abbrev pub default_size : ℕ
default_size = 65536

-- `usize::is_power_of_two`: halve while the number is even; a `usize` has 64 bits.
halves_to_one : ℕ → ℕ → Bool
halves_to_one zero n = false
halves_to_one (suc fuel) n =
    let rest = halves_to_one fuel (n / 2) in
    if n == 1 then true else if n % 2 == 0 then rest else false

is_power_of_two : ℕ → Bool
unfolding halves_to_one
is_power_of_two n = halves_to_one 64 n

unfoldable pub new : ℕ → Result FrameError ℕ
unfolding is_power_of_two
new bytes =
    if leb min_size bytes && (leb bytes max_size && is_power_of_two bytes)
    then ok bytes
    else err (unsupported_block_size bytes)
