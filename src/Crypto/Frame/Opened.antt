-- ===== src/Crypto/Frame/Opened.antt =====
-- `BlockFrame::open_span` on blocks that `seal` wrote.
use eule_db.Common.{
  ℕ, zero, suc, ◌+◌, ◌-◌, ◌*◌, ◌^◌, ◌<◌, ◌≤◌, ◌≡◌, refl, ap, ap₂, ◌∙◌, sym, subst, arith,
}
use eule_db.Common.{List, [], ◌∷◌, ◌++◌, length, take, drop, flatten, length-append, Bytes}
use native.Mathlib.Nat.{mod-eq_of_lt, add_assoc}
use eule_db.Common.{
  Bool-cases, ltb_false→le, inl, inr, Bool, true, false, ok, ltb, lt→ltb, not_lt→ltb, max, min,
}
use mathlib.Core.List.{append-nil, append_assoc}
use eule_db.Common.Slices.{
  slice, slice-append, slice_past, slice_none, slice_clip, take_all, take-append, take_zero,
  take-append_left, drop-append_left,
}
use eule_db.Common.Chunks.{chunks, chunks_nil, chunks-append, chunks_short}
use eule_db.Crypto.Platform.{Platform, IsSound}
use eule_db.Crypto.Frame.{Range, associated_data, open_loop, wanted_part, nonce_len}
use eule_db.Crypto.Frame.Pieces.{IsSplit}
use eule_db.Crypto.Frame.Sealed.{SealedBlock, SealedBody}

-- What is kept of a block, as a slice counted from the block's start.
wanted_part-slice :
    (w : Range) (offset : ℕ) (piece : Bytes)
    → offset + length piece < 2 ^ 64
    → wanted_part w offset piece ≡ slice (w.start - offset) (w.stop - offset) piece
unfolding wanted_part
wanted_part-slice w offset piece h =
    rw (mod-eq_of_lt h)
      (elim (Bool-cases (ltb (max w.start offset) (min w.stop (offset + length piece)))) [
        | inl e ↦
            let lo : max w.start offset - offset ≡ w.start - offset = omega arith in
            let hi : min w.stop (offset + length piece) - offset
                ≡ min (w.stop - offset) (length piece) =
              omega arith in
            rw (e, lo, hi) clip
        | inr e ↦ rw e (
            sym (
              slice_none (w.start - offset) (min (w.stop - offset) (length piece)) piece
                (omega (arith, ltb_false→le _ _ e)))
            ∙ clip)
      ])
  where
    clip :
        slice (w.start - offset) (min (w.stop - offset) (length piece)) piece
        ≡ slice (w.start - offset) (w.stop - offset) piece
    clip = slice_clip (w.start - offset) (w.stop - offset) piece

flatten-take_nil : (m : ℕ) → flatten {A = ℕ} (take m []) ≡ []
flatten-take_nil zero = refl
flatten-take_nil (suc m) = refl

sub_sub : (a b c : ℕ) → a - (b + c) ≡ a - b - c
sub_sub a b c = omega arith

take_blocks :
    (stride m : ℕ) (block tail : Bytes) {body : Bytes}
    → length block ≡ stride
    → body ≡ block ++ tail
    → take (suc m * stride) body ≡ block ++ take (m * stride) tail
take_blocks stride m block tail {body} h e =
    ap (take (suc m * stride)) e
    ∙ take-append (suc m * stride) block tail
    ∙ ap₂ (λ x n. x ++ take n tail) (take_all (suc m * stride) block (omega arith)) (omega arith)

module _ (p : Platform) (sound : IsSound p) where
  pub length-SealedBlock :
      (c : p.Cipher) (key i : ℕ) (final : Bool) (piece block : Bytes)
      → SealedBlock p c key i final piece block
      → length block ≡ length piece + 28
  length-SealedBlock c key i final piece block s = omega (
    arith,
    ap length s.parts,
    length-append s.nonce s.sealed,
    s.nonce_length,
    sound.length-encrypt c s.nonce (associated_data key i final) piece s.sealed s.encrypted,
  )

  -- One round of the loop of `open_span` on a block that was sealed for its place.
  open_loop_step :
      (c : p.Cipher) (key stride first position offset : ℕ) (w : Range) (final : Bool)
      (piece block : Bytes) (rest : List Bytes) (out : Bytes)
      → SealedBlock p c key (first + position) final piece block
      → first + position < 2 ^ 64
      → offset + length piece < 2 ^ 64
      → ltb (length block) stride ≡ final
      → open_loop p c key stride first w position offset (block ∷ rest) out
        ≡ open_loop p c key stride first w
            (position + 1)
            (offset + length piece)
            rest
            (out ++ slice (w.start - offset) (w.stop - offset) piece)
  unfolding open_loop
  open_loop_step c key stride first position offset w final piece block rest out s hi ho hf =
      let size = length-SealedBlock c key (first + position) final piece block s in
      let nonce : take nonce_len block ≡ s.nonce =
        ap (take nonce_len) s.parts ∙ take-append_left nonce_len s.nonce s.sealed s.nonce_length in
      let body : drop nonce_len block ≡ s.sealed =
        ap (drop nonce_len) s.parts ∙ drop-append_left nonce_len s.nonce s.sealed s.nonce_length in
      let opens =
        sound.decrypt-encrypt c s.nonce (associated_data key (first + position) final) piece
          s.sealed s.encrypted in
      rw (not_lt→ltb (length block) 28 (omega arith)) (
        rw (mod-eq_of_lt hi) (
          rw hf (
            rw (nonce, body)
              (rw opens (rw (mod-eq_of_lt ho) (rw (wanted_part-slice w offset piece ho)))))))

  -- The loop of `open_span` on the first `m` sealed blocks collects the wanted part of their pieces.
  pub open_loop_body :
      (c : p.Cipher) (key b first position offset : ℕ) (w : Range) (m : ℕ) (pieces : List Bytes)
      (body out : Bytes)
      → SealedBody p c key (first + position) pieces body
      → IsSplit b pieces
      → m ≤ length pieces
      → first + position + length pieces < 2 ^ 64
      → offset + length (flatten pieces) < 2 ^ 64
      → open_loop p c key
          (b + 28)
          first
          w
          position
          offset
          (chunks (b + 28) (take (m * (b + 28)) body))
          out
        ≡ ok (out ++ slice (w.start - offset) (w.stop - offset) (flatten (take m pieces)))
  unfolding open_loop
  open_loop_body c key b first position offset w zero pieces body out s split hm hi ho =
      rw (take_zero (zero * (b + 28)) body (omega arith)) (
        rw (chunks_nil (b + 28)) (
          ap ok (
            sym (
              ap (λ t. out ++ t) (slice_past (w.start - offset) (w.stop - offset) [] (omega arith))
              ∙ append-nil out))))
  open_loop_body c key b first position offset w (suc m) [] body out s split hm hi ho = elim s [ ]
  open_loop_body c key b first position offset w (suc m) (piece ∷ []) body out s split hm hi ho =
      let size = length-SealedBlock c key (first + position) true piece body s in
      ap (λ t. open_loop p c key (b + 28) first w position offset t out)
        (ap (chunks (b + 28)) (take_all (suc m * (b + 28)) body (omega arith))
          ∙ chunks_short (b + 28) body (omega arith) (omega arith))
      ∙ open_loop_step c key (b + 28) first position offset w true piece body [] out s (omega arith)
          (omega (arith, length-append piece [])) (lt→ltb _ _ (omega arith))
      ∙ ap (λ t. ok (out ++ slice (w.start - offset) (w.stop - offset) t))
          (sym (ap (λ t. piece ++ t) (flatten-take_nil m) ∙ append-nil piece))
  open_loop_body c key b first position offset w (suc m) (piece ∷ next ∷ rest) body out
        (block, tail, s, eq, inner) (full, split) hm hi ho =
      let size = length-SealedBlock c key (first + position) false piece block s in
      let lo = w.start - offset in
      let hi' = w.stop - offset in
      let more = flatten (take m (next ∷ rest)) in
      ap (λ t. open_loop p c key (b + 28) first w position offset t out)
        (ap (chunks (b + 28)) (take_blocks (b + 28) m block tail (omega arith) eq)
          ∙ chunks-append (b + 28) block (take (m * (b + 28)) tail) (omega arith) (omega arith))
      ∙ open_loop_step c key (b + 28) first position offset w false piece block
          (chunks (b + 28) (take (m * (b + 28)) tail)) out s (omega arith)
          (omega (arith, length-append piece (flatten (next ∷ rest))))
          (not_lt→ltb _ _ (omega arith))
      ∙ open_loop_body c key b first (position + 1) (offset + length piece) w m (next ∷ rest) tail
          (out ++ slice lo hi' piece)
          (subst (λ t. SealedBody p c key t (next ∷ rest) tail) (add_assoc first position 1) inner)
          split (omega arith) (omega arith)
          (omega (arith, length-append piece (flatten (next ∷ rest))))
      ∙ ap ok (
          append_assoc out (slice lo hi' piece) _
          ∙ ap (λ t. out ++ t)
              (ap (λ t. slice lo hi' piece ++ t)
                  (ap₂ (λ x y. slice x y more) (sub_sub w.start offset (length piece))
                    (sub_sub w.stop offset (length piece)))
                ∙ sym (slice-append lo hi' piece more)))
