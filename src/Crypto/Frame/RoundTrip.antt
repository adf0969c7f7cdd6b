-- ===== src/Crypto/Frame/RoundTrip.antt =====
-- What `seal` writes, `open_span` and `open` read back: crates/euledb-storage/src/crypto/frame.rs.
use native.Mathlib.Nat.{mod-lt, div-add-mod'}
use eule_db.Common.{ℕ, ◌+◌, ◌-◌, ◌*◌, ◌/◌, ◌^◌, ◌<◌, ◌≤◌, ◌≡◌, ap, ◌∙◌, sym, subst, arith}
use eule_db.Common.{◌++◌, length, take, drop, length-append, Bytes, max, ok, true, inl, inr}
use eule_db.Common.Slices.{slice, slice_whole}
use eule_db.Common.OrdMap.{contains_key}
use eule_db.Crypto.Platform.{Platform, IsSound}
use eule_db.Crypto.BlockSize
use eule_db.Crypto.Frame.{
  BlockFrame, Range, cipher, open_span, seal, ciphertext_span, ciphertext_len, header, seal_pieces,
  div_ceil, plaintext_len, read_header, open_object,
}
use eule_db.Crypto.Frame.Lengths.{
  sealed_size, ciphertext_len-sealed_size, plaintext_len-ciphertext_len,
}
use eule_db.Crypto.Frame.Pieces.{seal_pieces-IsSplit, flatten-seal_pieces}
use eule_db.Crypto.Frame.Sealed.{SealedBody, seal-SealedBody}
use eule_db.Crypto.Frame.Parts.{length-SealedBody}
use eule_db.Crypto.Frame.Header.{read_header-header}
use eule_db.Crypto.Frame.Ranges.{open_span_blocks}
use eule_db.Crypto.Frame.Spans.{Fits, sealed_size-lt, length-seal_pieces, ciphertext_span-Covers}
use eule_db.Crypto.Frame.Fetched.{length-header, behind_header, fetched_blocks}

-- A frame that holds the key it seals with, and whose block size passed `BlockSize::new`.
pub record IsFrame (f : BlockFrame) : Type 0 where
  pub size_accepted : BlockSize.new f.block_size ≡ ok f.block_size
  pub size_pos : 0 < f.block_size
  pub size_small : f.block_size < 2 ^ 32
  pub key_small : f.current < 2 ^ 32
  pub key_held : contains_key f.current f.keys ≡ true

module _ (p : Platform) (sound : IsSound p) where
  length-body :
      (b key : ℕ) (plaintext : Bytes) (c : p.Cipher) (body : Bytes)
      → 0 < b
      → SealedBody p c key 0 (seal_pieces b plaintext) body
      → 13 + length body ≡ sealed_size b (length plaintext)
  length-body b key plaintext c body hb s = omega (
    arith,
    length-SealedBody p sound c key 0 (seal_pieces b plaintext) body s,
    ap length (flatten-seal_pieces b plaintext hb),
    length-seal_pieces b plaintext hb,
    div-add-mod' (length plaintext) b,
  )

  length-object :
      (f : BlockFrame) (plaintext : Bytes) (c : p.Cipher) (body object : Bytes)
      → 0 < f.block_size
      → object ≡ header f ++ body
      → SealedBody p c f.current 0 (seal_pieces f.block_size plaintext) body
      → length object ≡ sealed_size f.block_size (length plaintext)
  length-object f plaintext c body object hb eq s = omega (
    arith,
    ap length eq,
    length-append (header f) body,
    length-header f,
    length-body f.block_size f.current plaintext c body hb s,
  )

  -- Over a sound platform, a sealed object has exactly the length that `ciphertext_len` predicts, for a
  -- positive block size and a predicted length below 2 ^ 64.
  pub length-seal :
      (f : BlockFrame) (plaintext : Bytes) (e : p.Entropy) {object : Bytes} {e' : p.Entropy}
      → 0 < f.block_size
      → sealed_size f.block_size (length plaintext) < 2 ^ 64
      → seal p f plaintext e ≡ ok (object, e')
      → length object ≡ ciphertext_len f (length plaintext)
  length-seal f plaintext e {object} hb small h =
      let (c, body, made, eq, s) = seal-SealedBody p sound f plaintext e hb h in
      length-object f plaintext c body object hb eq s
      ∙ sym (ciphertext_len-sealed_size f (length plaintext) hb small)

  -- Over a sound platform, every nonempty range within a sealed object is read back from the span
  -- that `ciphertext_span` names, also by a frame that seals with another key now, as long as it has
  -- the same block size and the same cipher for the key of the object. The block size is positive,
  -- and the object, rounded up to whole blocks, seals to fewer than 2 ^ 64 bytes.
  pub open_span-seal :
      (f g : BlockFrame) (plaintext : Bytes) (w : Range) (e : p.Entropy) {object : Bytes}
      {e' : p.Entropy}
      → 0 < f.block_size
      → Fits f.block_size (length plaintext)
      → g.block_size ≡ f.block_size
      → cipher p g f.current ≡ cipher p f f.current
      → w.start < w.stop
      → w.stop ≤ length plaintext
      → seal p f plaintext e ≡ ok (object, e')
      → open_span p g
          (slice
            (ciphertext_span g w (length plaintext)).start
            (ciphertext_span g w (length plaintext)).stop
            object)
          (ciphertext_span g w (length plaintext))
          w
          (record { block_size = g.block_size; key = f.current })
        ≡ ok (slice w.start w.stop plaintext)
  open_span-seal f g plaintext w e {object} hb fits same held hw hn h =
      let (c, body, made, eq, s) = seal-SealedBody p sound f plaintext e hb h in
      let b = g.block_size in
      let n = length plaintext in
      let pos : 0 < b = omega arith in
      let fits' : Fits b n = subst (λ t. Fits t n) (sym same) fits in
      let s' =
        subst (λ t. SealedBody p c f.current 0 (seal_pieces t plaintext) body) (sym same) s in
      let first = w.start / b in
      let last = max (div_ceil w.stop b) (first + 1) in
      let cover = ciphertext_span-Covers g w n pos hw hn fits' in
      let count = length-seal_pieces b plaintext pos in
      let whole = flatten-seal_pieces b plaintext pos in
      rw
        (fetched_blocks g w n (header f) body object first last (length-header f) eq
          (length-body b f.current plaintext c body pos s') cover)
        (open_span_blocks p sound g c (record { block_size = b; key = f.current }) first
            (last - first) (ciphertext_span g w n) w (seal_pieces b plaintext) body (held ∙ made) s'
            (seal_pieces-IsSplit b plaintext pos) (omega (arith, cover.within, cover.nonempty))
            (omega (arith, cover.within, cover.nonempty)) cover.start_at cover.from_start
            (omega arith) (omega (arith, ap length whole))
            (inl (
              subst (λ t. w.stop ≤ t * b) {x = last} {y = first + (last - first)} (omega arith)
                cover.to_stop))
            (omega arith) (omega (arith, ap length whole, div-add-mod' n b, mod-lt n pos))
          ∙ ap (λ t. ok (slice w.start w.stop t)) whole)

  -- Over a sound platform, a whole object that a frame of an accepted block size sealed is read back
  -- by every frame of the same block size that holds its key, with the same cipher. The object,
  -- rounded up to whole blocks, seals to fewer than 2 ^ 64 bytes.
  pub open_object-seal :
      (f g : BlockFrame) (plaintext : Bytes) (e : p.Entropy) {object : Bytes} {e' : p.Entropy}
      → IsFrame f
      → Fits f.block_size (length plaintext)
      → g.block_size ≡ f.block_size
      → contains_key f.current g.keys ≡ true
      → cipher p g f.current ≡ cipher p f f.current
      → seal p f plaintext e ≡ ok (object, e')
      → open_object p g object ≡ ok plaintext
  unfolding open_object
  open_object-seal f g plaintext e {object} valid fits same known held h =
      let (c, body, made, eq, s) = seal-SealedBody p sound f plaintext e valid.size_pos h in
      let b = g.block_size in
      let n = length plaintext in
      let pos : 0 < b = omega (arith, valid.size_pos) in
      let fits' : Fits b n = subst (λ t. Fits t n) (sym same) fits in
      let s' =
        subst (λ t. SealedBody p c f.current 0 (seal_pieces t plaintext) body) (sym same) s in
      let small = sealed_size-lt b n pos fits' in
      let count = length-seal_pieces b plaintext pos in
      let whole = flatten-seal_pieces b plaintext pos in
      let pieces = seal_pieces b plaintext in
      let size : length object ≡ ciphertext_len g n = omega (
        arith,
        ap length eq,
        length-append (header f) body,
        length-header f,
        length-body b f.current plaintext c body pos s',
        ciphertext_len-sealed_size g n pos small,
      ) in
      let total : plaintext_len g (length object) ≡ ok n =
        ap (plaintext_len g) size ∙ plaintext_len-ciphertext_len g n pos small in
      let framing : read_header g object
          ≡ ok (record { block_size = f.block_size; key = f.current }) =
        ap (read_header g) eq
        ∙ read_header-header f g body valid.key_small same valid.size_accepted valid.size_small
            known in
      let behind : drop 13 object ≡ take (length pieces * (b + 28)) (drop (0 * (b + 28)) body) =
        behind_header (header f) body object (length pieces * (b + 28)) (0 * (b + 28))
          (length-header f) eq
          (omega (
            arith,
            length-SealedBody p sound c f.current 0 pieces body s',
            ap length whole,
            ap (λ (t : ℕ). t * (b + 28)) count,
            div-add-mod' n b,
            mod-lt n pos,
          ))
          (omega arith) in
      rw (total, framing, behind)
        (open_span_blocks p sound g c (record { block_size = f.block_size; key = f.current }) 0
            (length pieces) (record { start = 13; stop = length object })
            (record { start = 0; stop = n }) pieces body (held ∙ made) s'
            (seal_pieces-IsSplit b plaintext pos) (omega arith) (omega arith) (omega arith)
            (omega arith) (omega arith) (omega (arith, ap length whole)) (inr (omega arith))
            (omega arith) (omega (arith, ap length whole, div-add-mod' n b, mod-lt n pos))
          ∙ ap (λ t. ok (slice 0 n t)) whole
          ∙ ap ok (slice_whole plaintext))
