-- ===== src/Common/Words.antt =====
-- Machine integers as native numbers: arithmetic wraps at 2 ^ 64, as an unchecked build does.
use Prim.Native.Nat.{ℕ, ◌+◌, ◌-◌, ◌*◌, ◌/◌, ◌%◌, ◌^◌, ◌<◌}
use mathlib.Core.Path.{◌≡◌}
use mathlib.Core.List.{List, [], ◌∷◌}
use native.Mathlib.Omega.{arith}

abbrev pub Bytes : Type 0
Bytes = List ℕ

-- The value that a `u64` register holds.
abbrev pub u64 : ℕ → ℕ
u64 x = x % 2 ^ 64

abbrev pub sub_u64 : ℕ → ℕ → ℕ
sub_u64 a b = (a + 2 ^ 64 - b) % 2 ^ 64

-- `to_le_bytes` of a `u32`, a `u16` and a `u64`.
abbrev pub u16_le : ℕ → Bytes
u16_le x = (x % 256) ∷ (x / 256 % 256) ∷ []

abbrev pub u32_le : ℕ → Bytes
u32_le x = (x % 256) ∷ (x / 256 % 256) ∷ (x / 65536 % 256) ∷ (x / 16777216 % 256) ∷ []

abbrev pub u64_le : ℕ → Bytes
u64_le x =
    (x % 256)
    ∷ (x / 256 % 256)
    ∷ (x / 65536 % 256)
    ∷ (x / 16777216 % 256)
    ∷ (x / 2 ^ 32 % 256)
    ∷ (x / 2 ^ 40 % 256)
    ∷ (x / 2 ^ 48 % 256)
    ∷ (x / 2 ^ 56 % 256)
    ∷ []

-- `to_be_bytes` of a `u64`.
abbrev pub u64_be : ℕ → Bytes
u64_be x =
    (x / 2 ^ 56 % 256)
    ∷ (x / 2 ^ 48 % 256)
    ∷ (x / 2 ^ 40 % 256)
    ∷ (x / 2 ^ 32 % 256)
    ∷ (x / 16777216 % 256)
    ∷ (x / 65536 % 256)
    ∷ (x / 256 % 256)
    ∷ (x % 256)
    ∷ []

-- `u32::from_le_bytes` and `u16::from_le_bytes`.
abbrev pub u32_from_le : ℕ → ℕ → ℕ → ℕ → ℕ
u32_from_le a b c d = a + b * 256 + c * 65536 + d * 16777216

abbrev pub u16_from_le : ℕ → ℕ → ℕ
u16_from_le a b = a + b * 256

pub u32_from_le-u32_le :
    (x : ℕ)
    → x < 2 ^ 32
    → u32_from_le (x % 256) (x / 256 % 256) (x / 65536 % 256) (x / 16777216 % 256) ≡ x
u32_from_le-u32_le x h = omega arith

pub u16_from_le-u16_le : (x : ℕ) → x < 2 ^ 16 → u16_from_le (x % 256) (x / 256 % 256) ≡ x
u16_from_le-u16_le x h = omega arith
