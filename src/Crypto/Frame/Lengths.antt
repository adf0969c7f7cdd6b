-- ===== src/Crypto/Frame/Lengths.antt =====
-- The sizes of plain and sealed objects: crates/euledb-storage/src/crypto/frame.rs.
use native.Mathlib.Nat.{
  mul-add-div_right, mul-add-mod_self_right, div-eq_of_lt, mod-eq_of_lt, mod-lt, div-add-mod',
}
use eule_db.Common.{
  ℕ, ◌+◌, ◌-◌, ◌*◌, ◌/◌, ◌%◌, ◌^◌, ◌≤◌, ◌<◌, ◌≡◌, ap, refl, ◌∙◌, arith, ok, not_lt→ltb, u64,
  sub_u64,
}
use eule_db.Crypto.Frame.{BlockFrame, ciphertext_len, plaintext_len}

-- The bytes that a sealed object takes, in plain arithmetic.
abbrev pub sealed_size : ℕ → ℕ → ℕ
sealed_size b n = 13 + (n / b * (b + 28) + (n % b + 28))

pub ciphertext_len-sealed_size :
    (f : BlockFrame) (n : ℕ)
    → 0 < f.block_size
    → sealed_size f.block_size n < 2 ^ 64
    → ciphertext_len f n ≡ sealed_size f.block_size n
unfolding ciphertext_len
ciphertext_len-sealed_size f n hb h = omega arith

pub div_of_parts : (q r s : ℕ) → r < s → (q * s + r) / s ≡ q
div_of_parts q r s h = omega (arith, mul-add-div_right {m = s} (omega arith) q r, div-eq_of_lt h)

pub mod_of_parts : (q r s : ℕ) → r < s → (q * s + r) % s ≡ r
mod_of_parts q r s h = mul-add-mod_self_right q s r ∙ mod-eq_of_lt h

-- `plaintext_len` at a size that is given by its blocks and its rest.
plaintext_len_parts :
    (f : BlockFrame) (q r : ℕ)
    → r < f.block_size
    → q * f.block_size + (r + 28) < 2 ^ 64
    → plaintext_len f (13 + (q * (f.block_size + 28) + (r + 28))) ≡ ok (q * f.block_size + r)
unfolding plaintext_len
plaintext_len_parts f q r hr h =
    let stride = f.block_size + 28 in
    let body : 13 + (q * stride + (r + 28)) - 13 ≡ q * stride + (r + 28) = omega arith in
    rw (not_lt→ltb (13 + (q * stride + (r + 28))) 13 (omega arith)) (
      rw body (
        rw (mod_of_parts q (r + 28) stride (omega arith)) (
          rw (div_of_parts q (r + 28) stride (omega arith))
            (rw (not_lt→ltb (r + 28) 28 (omega arith)) (ap ok (omega arith))))))

-- A size that `ciphertext_len` computes is translated back, for every length whose sealed form has
-- fewer than 2 ^ 64 bytes.
pub plaintext_len-ciphertext_len :
    (f : BlockFrame) (n : ℕ)
    → 0 < f.block_size
    → sealed_size f.block_size n < 2 ^ 64
    → plaintext_len f (ciphertext_len f n) ≡ ok n
plaintext_len-ciphertext_len f n hb h =
    ap (plaintext_len f) (ciphertext_len-sealed_size f n hb h)
    ∙ plaintext_len_parts f (n / f.block_size) (n % f.block_size) (mod-lt n hb) (omega arith)
    ∙ ap ok (div-add-mod' n f.block_size)

-- What an accepted size says: it has a header and a rest that holds a nonce and a tag.
plaintext_len-eq-ok :
    (f : BlockFrame) (c n : ℕ)
    → plaintext_len f c ≡ ok n
    → (13 ≤ c)
      × (28 ≤ (c - 13) % (f.block_size + 28))
      × (n
          ≡ sub_u64
              (u64 (
                u64 ((c - 13) / (f.block_size + 28) * f.block_size)
                + (c - 13) % (f.block_size + 28)))
              28)
unfolding plaintext_len
plaintext_len-eq-ok f c n h = ground arith

sealed_size_parts : (b q r : ℕ) → r < b → sealed_size b (q * b + r) ≡ 13 + (q * (b + 28) + (r + 28))
sealed_size_parts b q r h = rw (div_of_parts q r b h) (rw (mod_of_parts q r b h) refl)

-- A size below 2 ^ 64 that `plaintext_len` translates is exactly the size that sealing an object of the
-- answered length takes, if the block size is positive.
pub ciphertext_len-plaintext_len :
    (f : BlockFrame) (c n : ℕ)
    → 0 < f.block_size
    → c < 2 ^ 64
    → plaintext_len f c ≡ ok n
    → ciphertext_len f n ≡ c
ciphertext_len-plaintext_len f c n hb hc h =
    let (h13, h28, e) = plaintext_len-eq-ok f c n h in
    let stride = f.block_size + 28 in
    let q = (c - 13) / stride in
    let r = (c - 13) % stride - 28 in
    let split : q * stride + (r + 28) ≡ c - 13 = omega (arith, div-add-mod' (c - 13) stride) in
    let small : r < f.block_size = omega (arith, mod-lt (c - 13) {m = stride} (omega arith)) in
    let n_parts : n ≡ q * f.block_size + r = omega arith in
    let size : sealed_size f.block_size n ≡ c =
      ap (sealed_size f.block_size) n_parts
      ∙ sealed_size_parts f.block_size q r small
      ∙ omega arith in
    ciphertext_len-sealed_size f n hb (omega arith) ∙ size
