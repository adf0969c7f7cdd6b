-- ===== src/Crypto/Frame/Spans.antt =====
-- `BlockFrame::ciphertext_span`: which bytes of a sealed object serve a range.
use native.Mathlib.Nat.{le-div_iff_mul-le, div-mul-le_self, mod-lt, div-add-mod', mod-eq_of_lt}
use eule_db.Common.{ℕ, ◌+◌, ◌-◌, ◌*◌, ◌/◌, ◌%◌, ◌^◌, ◌<◌, ◌≤◌, ◌≡◌, ap, ◌∙◌, arith}
use eule_db.Common.{List, [], ◌∷◌, length, flatten, length-append, Bytes, u64, min, max}
use eule_db.Common.{◌==◌, ==_iff, Bool-cases, inl, inr}
use eule_db.Crypto.Frame.{BlockFrame, Range, ciphertext_span, div_ceil, seal_pieces}
use eule_db.Crypto.Frame.Lengths.{sealed_size, ciphertext_len-sealed_size, div_of_parts}
use eule_db.Crypto.Frame.Pieces.{IsSplit, IsSplit-pos, seal_pieces-IsSplit, flatten-seal_pieces}

-- The sealed object, rounded up to whole blocks, has fewer than 2 ^ 64 bytes.
abbrev pub Fits : ℕ → ℕ → Type 0
Fits b n = 13 + (n / b + 1) * (b + 28) < 2 ^ 64

pub sealed_size-lt : (b n : ℕ) → 0 < b → Fits b n → sealed_size b n < 2 ^ 64
sealed_size-lt b n hb h = omega (arith, mod-lt n hb)

div_mono : (b x y : ℕ) → 0 < b → x ≤ y → x / b ≤ y / b
div_mono b x y hb h = (le-div_iff_mul-le hb).1 (omega (arith, div-mul-le_self x b))

mul_mono : (x y s : ℕ) → x ≤ y → x * s ≤ y * s
mul_mono x y s h = grind arith

-- `div_ceil` is the least number of blocks that hold `x` bytes.
div_ceil_bounds : (b x n : ℕ) → 0 < b → x ≤ n → (x ≤ div_ceil x b * b) × (div_ceil x b ≤ n / b + 1)
div_ceil_bounds b x n hb h =
    let mono = div_mono b x n hb h in
    elim (Bool-cases (x % b == 0)) [
      | inl e ↦
          let whole : x % b ≡ 0 = (==_iff (x % b) 0).0 e in
          rw e (omega (arith, div-add-mod' x b), omega arith)
      | inr e ↦ rw e (omega (arith, div-add-mod' x b, mod-lt x hb), omega arith)
    ]

-- The length of an object is that of its full pieces and of a rest below the block size.
IsSplit-length :
    (b : ℕ) (pieces : List Bytes)
    → IsSplit b pieces
    → (r : ℕ) × (r < b) × (length (flatten pieces) + b ≡ length pieces * b + r)
IsSplit-length b [] s = elim s [ ]
IsSplit-length b (x ∷ []) s = (length x, s, omega (arith, length-append x []))
IsSplit-length b (x ∷ y ∷ rest) (full, s) =
    let (r, hr, e) = IsSplit-length b (y ∷ rest) s in
    (r, hr, omega (arith, length-append x (flatten (y ∷ rest))))

pub length-seal_pieces :
    (b : ℕ) (plaintext : Bytes)
    → 0 < b
    → length (seal_pieces b plaintext) ≡ length plaintext / b + 1
length-seal_pieces b plaintext hb =
    let pieces = seal_pieces b plaintext in
    let split = seal_pieces-IsSplit b plaintext hb in
    let (r, hr, e) = IsSplit-length b pieces split in
    let pos = IsSplit-pos b pieces split in
    let k = length pieces - 1 in
    let same : length (flatten pieces) ≡ length plaintext =
      ap length (flatten-seal_pieces b plaintext hb) in
    let whole : length pieces ≡ k + 1 = omega arith in
    let count : length plaintext ≡ k * b + r = omega (arith, ap (λ (t : ℕ). t * b) whole) in
    let quotient : length plaintext / b ≡ k = ap (λ t. t / b) count ∙ div_of_parts k r b hr in
    omega arith

-- The blocks `first`, …, `last - 1` that a span covers.
pub record Covers (f : BlockFrame) (w : Range) (n first last : ℕ) : Type 0 where
  pub start_at : (ciphertext_span f w n).start ≡ 13 + first * (f.block_size + 28)
  pub stop_at :
      (ciphertext_span f w n).stop
      ≡ min (13 + last * (f.block_size + 28)) (sealed_size f.block_size n)
  pub from_start : first * f.block_size ≤ w.start
  pub to_stop : w.stop ≤ last * f.block_size
  pub nonempty : first < last
  pub within : last ≤ n / f.block_size + 1

pub ciphertext_span-Covers :
    (f : BlockFrame) (w : Range) (n : ℕ)
    → 0 < f.block_size
    → w.start < w.stop
    → w.stop ≤ n
    → Fits f.block_size n
    → Covers f w n
        (w.start / f.block_size)
        (max (div_ceil w.stop f.block_size) (w.start / f.block_size + 1))
unfolding ciphertext_span
ciphertext_span-Covers f w n hb hw hn fits =
    let b = f.block_size in
    let first = w.start / b in
    let first_le = div_mono b w.start n hb (omega arith) in
    let (reach, inside) = div_ceil_bounds b w.stop n hb hn in
    let last = max (div_ceil w.stop b) (first + 1) in
    let first_size = mul_mono first (n / b) (b + 28) first_le in
    let last_size = mul_mono last (n / b + 1) (b + 28) (omega arith) in
    let plus : u64 (first + 1) ≡ first + 1 =
      mod-eq_of_lt {n = first + 1} {m = 2 ^ 64} (omega arith) in
    let size = sealed_size-lt b n hb fits in
    let start_at : (ciphertext_span f w n).start ≡ 13 + first * (b + 28) = omega arith in
    record {
      start_at = start_at;
      stop_at = rw plus (
          rw (ciphertext_len-sealed_size f n hb size)
            (omega (arith, mul_mono first last (b + 28) (omega arith))));
      from_start = div-mul-le_self w.start b;
      to_stop = omega (arith, mul_mono (div_ceil w.stop b) last b (omega arith));
      nonempty = omega arith;
      within = omega arith;
    }
