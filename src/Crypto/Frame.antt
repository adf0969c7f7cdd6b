-- ===== src/Crypto/Frame.antt =====
-- crates/euledb-storage/src/crypto/frame.rs: an object is a header and blocks sealed one by one.
-- `usize` and `u64` are 64 bits wide, and their arithmetic wraps.
pub mod Lengths
pub mod Pieces
pub mod Sealed
pub mod Opened
pub mod Parts
pub mod Header
pub mod Ranges
pub mod Spans
pub mod Fetched
pub mod RoundTrip
use eule_db.Common.{ℕ, ◌+◌, ◌-◌, ◌*◌, ◌/◌, ◌%◌, ◌^◌, ◌<◌, ◌≤◌, ◌≡◌, min, max, Bool, true, not, ◌||◌}
use eule_db.Common.{List, [], ◌∷◌, ◌++◌, length, take, drop, flatten, eq_bytes, Option, some}
use eule_db.Common.{Result, ok, err, ok_or, refuse_if, ◌>>=◌, ◌>>◌, ltb, ◌==◌, if◌then◌else◌}
use eule_db.Common.{Bytes, u64, sub_u64, u32_le, u64_le, u32_from_le}
use eule_db.Common.Slices.{slice}
use eule_db.Common.Chunks.{chunks}
use eule_db.Common.OrdMap.{OrdMap, get, contains_key}
use eule_db.Crypto.Platform.{Platform}
use eule_db.Crypto.FrameError.{
  FrameError, authentication, truncated, not_framed, unsupported_version, block_size_mismatch,
  unknown_key, range_outside_object, random, cipher_refused,
}
use eule_db.Crypto.BlockSize

abbrev pub magic : Bytes
magic = b'E' ∷ b'U' ∷ b'L' ∷ b'E' ∷ []

abbrev pub version : ℕ
version = 2

abbrev pub header_len : ℕ
header_len = 13

abbrev pub nonce_len : ℕ
nonce_len = 12

abbrev pub block_overhead : ℕ
block_overhead = 28

pub record Framing : Type 0 where
  pub block_size : ℕ
  pub key : ℕ

pub record BlockFrame : Type 0 where
  pub keys : OrdMap Bytes
  pub current : ℕ
  pub block_size : ℕ

-- `Range<u64>`
pub record Range : Type 0 where
  pub start : ℕ
  pub stop : ℕ

abbrev pub sealed_block_len : BlockFrame → ℕ
sealed_block_len f = f.block_size + block_overhead

unfoldable pub ciphertext_len : BlockFrame → ℕ → ℕ
ciphertext_len f plaintext_len =
    let block = f.block_size in
    let full = plaintext_len / block in
    let remainder = plaintext_len % block in
    let total = u64 (header_len + u64 (full * sealed_block_len f)) in
    u64 (total + u64 (remainder + block_overhead))

unfoldable pub plaintext_len : BlockFrame → ℕ → Result FrameError ℕ
plaintext_len f ciphertext_len =
    if ltb ciphertext_len header_len
    then err truncated
    else (let body = ciphertext_len - header_len in
        let stride = sealed_block_len f in
        let full = body / stride in
        let remainder = body % stride in
        if ltb remainder block_overhead
        then err truncated
        else ok (sub_u64 (u64 (u64 (full * f.block_size) + remainder)) block_overhead))

-- `u64::div_ceil`
abbrev pub div_ceil : ℕ → ℕ → ℕ
div_ceil a b = if a % b == 0 then a / b else a / b + 1

unfoldable pub ciphertext_span : BlockFrame → Range → ℕ → Range
unfolding ciphertext_len
ciphertext_span f plaintext plaintext_total =
    let block = f.block_size in
    let first = plaintext.start / block in
    let last = max (div_ceil plaintext.stop block) (u64 (first + 1)) in
    let stride = sealed_block_len f in
    let start = u64 (header_len + u64 (first * stride)) in
    let stop = min (u64 (header_len + u64 (last * stride))) (ciphertext_len f plaintext_total) in
    record { start = start; stop = max stop start }

unfoldable pub header : BlockFrame → Bytes
header f = magic ++ (version ∷ (u32_le (f.block_size % 2 ^ 32) ++ u32_le f.current))

-- The byte at an index that the caller has checked.
abbrev pub byte_at : ℕ → Bytes → ℕ
byte_at i bytes = elim (drop i bytes) [ [] ↦ 0 | b ∷ rest ↦ b ]

unfoldable pub read_header : BlockFrame → Bytes → Result FrameError Framing
read_header f c = do
  refuse_if (ltb (length c) header_len) truncated
  refuse_if (not (eq_bytes (take 4 c) magic)) not_framed
  refuse_if (not (byte_at 4 c == version)) (unsupported_version (byte_at 4 c))
  let declared = u32_from_le (byte_at 5 c) (byte_at 6 c) (byte_at 7 c) (byte_at 8 c)
  refuse_if (not (declared == f.block_size)) (block_size_mismatch declared f.block_size)
  let key = u32_from_le (byte_at 9 c) (byte_at 10 c) (byte_at 11 c) (byte_at 12 c)
  refuse_if (not (contains_key key f.keys)) (unknown_key key)
  block_size ← BlockSize.new declared
  ok (record { block_size = block_size; key = key })

unfoldable pub associated_data : ℕ → ℕ → Bool → Bytes
associated_data key index final_block =
    version ∷ (u32_le key ++ (u64_le index ++ ((if final_block then 1 else 0) ∷ [])))

-- The pieces that `seal` makes: a piece that is no full block ends every object.
unfoldable pub seal_pieces : ℕ → Bytes → List Bytes
seal_pieces blocks plaintext =
    let pieces = chunks blocks plaintext in
    if length plaintext % blocks == 0 then pieces ++ ([] ∷ []) else pieces

-- The part of a block at `offset` that lies in the wanted range.
unfoldable pub wanted_part : Range → ℕ → Bytes → Bytes
wanted_part wanted offset opened =
    let block_end = u64 (offset + length opened) in
    let from = max wanted.start offset in
    let to = min wanted.stop block_end in
    if ltb from to then slice (from - offset) (to - offset) opened else []

module _ (p : Platform) where
  unfoldable pub cipher : BlockFrame → ℕ → Result FrameError p.Cipher
  cipher f key = do
    secret ← ok_or (get key f.keys) (unknown_key key)
    ok_or (p.new_cipher secret) cipher_refused

  unfoldable pub seal_block :
      BlockFrame → Bytes → ℕ → Bool → p.Entropy → Result FrameError (Bytes × p.Entropy)
  unfolding cipher
  seal_block f plaintext index final_block e = do
    (nonce, e') ← ok_or (p.fill e nonce_len) random
    c ← cipher f f.current
    sealed ←
        ok_or (p.encrypt c nonce (associated_data f.current index final_block) plaintext)
          cipher_refused
    ok (nonce ++ sealed, e')

  -- The loop of `seal`, from the piece at `index` on.
  unfoldable pub seal_loop :
      p.Cipher → ℕ → ℕ → ℕ → List Bytes → Bytes → p.Entropy → Result FrameError (Bytes × p.Entropy)
  seal_loop c key last index [] out e = ok (out, e)
  seal_loop c key last index (piece ∷ rest) out e = do
    (nonce, e') ← ok_or (p.fill e nonce_len) random
    sealed ←
        ok_or (p.encrypt c nonce (associated_data key index (index == last)) piece) cipher_refused
    seal_loop c key last (index + 1) rest (out ++ (nonce ++ sealed)) e'

  unfoldable pub seal : BlockFrame → Bytes → p.Entropy → Result FrameError (Bytes × p.Entropy)
  unfolding cipher seal_loop seal_pieces
  seal f plaintext e = do
    c ← cipher f f.current
    let pieces = seal_pieces f.block_size plaintext
    seal_loop c f.current (length pieces - 1) 0 pieces (header f) e

  -- The loop of `open_span`, from the block at `position` of the span on.
  unfoldable pub open_loop :
      p.Cipher → ℕ → ℕ → ℕ → Range → ℕ → ℕ → List Bytes → Bytes → Result FrameError Bytes
  open_loop c key stride first_block wanted position offset [] plaintext = ok plaintext
  open_loop c key stride first_block wanted position offset (sealed ∷ rest) plaintext = do
    refuse_if (ltb (length sealed) block_overhead) truncated
    let index = u64 (first_block + position)
    opened ←
        ok_or
          (p.decrypt c (take nonce_len sealed)
            (associated_data key index (ltb (length sealed) stride)) (drop nonce_len sealed))
          (authentication index)
    open_loop c key stride first_block wanted (position + 1) (u64 (offset + length opened)) rest
        (plaintext ++ wanted_part wanted offset opened)

  unfoldable pub open_span : BlockFrame → Bytes → Range → Range → Framing → Result FrameError Bytes
  open_span f ciphertext span wanted framing = do
    c ← cipher f framing.key
    let stride = sealed_block_len f
    refuse_if (ltb span.start header_len || not ((span.start - header_len) % stride == 0)) truncated
    let first_block = (span.start - header_len) / stride
    plaintext ←
        open_loop c framing.key stride first_block wanted 0 (u64 (first_block * f.block_size))
          (chunks stride ciphertext) []
    refuse_if (not (length plaintext == sub_u64 wanted.stop wanted.start)) range_outside_object
    ok plaintext

  unfoldable pub open_object : BlockFrame → Bytes → Result FrameError Bytes
  open_object f ciphertext = do
    total ← plaintext_len f (length ciphertext)
    framing ← read_header f ciphertext
    open_span f (drop header_len ciphertext)
        (record { start = header_len; stop = length ciphertext })
        (record { start = 0; stop = total }) framing
