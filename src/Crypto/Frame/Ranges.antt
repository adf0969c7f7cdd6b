-- ===== src/Crypto/Frame/Ranges.antt =====
-- Range reads of a sealed object: crates/euledb-storage/src/crypto/frame.rs.
use native.Mathlib.Nat.{mod-eq_of_lt, mul-mod_left, mul-div_left}
use eule_db.Common.{ℕ, ◌+◌, ◌-◌, ◌*◌, ◌^◌, ◌<◌, ◌≤◌, ◌≡◌, refl, subst, arith}
use eule_db.Common.{List, [], length, take, drop, flatten, length-drop, Bytes, sub_u64}
use eule_db.Common.{ok, ◌⊎◌, not_lt→ltb, ==_of_eq}
use eule_db.Common.Slices.{slice, length-slice}
use eule_db.Crypto.Platform.{Platform, IsSound}
use eule_db.Crypto.Frame.{BlockFrame, Framing, Range, cipher, open_span}
use eule_db.Crypto.Frame.Pieces.{IsSplit}
use eule_db.Crypto.Frame.Sealed.{SealedBody}
use eule_db.Crypto.Frame.Opened.{open_loop_body}
use eule_db.Crypto.Frame.Parts.{length-flatten-drop, slice-flatten, SealedBody-drop, IsSplit-drop}

module _ (p : Platform) (sound : IsSound p) where
  -- `open_span` on the `m` blocks from block `k` on.
  pub open_span_blocks :
      (g : BlockFrame) (c : p.Cipher) (framing : Framing) (k m : ℕ) (span w : Range)
      (pieces : List Bytes) (body : Bytes)
      → cipher p g framing.key ≡ ok c
      → SealedBody p c framing.key 0 pieces body
      → IsSplit g.block_size pieces
      → k + m ≤ length pieces
      → k < length pieces
      → span.start ≡ 13 + k * (g.block_size + 28)
      → k * g.block_size ≤ w.start
      → w.start ≤ w.stop
      → w.stop ≤ length (flatten pieces)
      → (w.stop ≤ (k + m) * g.block_size) ⊎ (length pieces ≤ k + m)
      → length pieces < 2 ^ 64
      → length (flatten pieces) < 2 ^ 64
      → open_span p g
          (take (m * (g.block_size + 28)) (drop (k * (g.block_size + 28)) body))
          span
          w
          framing
        ≡ ok (slice w.start w.stop (flatten pieces))
  unfolding open_span
  open_span_blocks g c framing k m span w pieces body made s split hm hk hs hlo hw hhi reach hi ho =
      let stride = g.block_size + 28 in
      let start : 13 + k * stride - 13 ≡ k * stride = omega arith in
      let size : sub_u64 w.stop w.start ≡ w.stop - w.start = omega arith in
      let run =
        open_loop_body p sound c framing.key g.block_size k 0 (k * g.block_size) w m (drop k pieces)
          (drop (k * stride) body) []
          (subst (λ t. SealedBody p c framing.key t (drop k pieces) (drop (k * stride) body))
            {x = 0 + k} {y = k + 0} (omega arith)
            (SealedBody-drop p sound c framing.key g.block_size 0 k pieces body s split hk))
          (IsSplit-drop g.block_size k pieces split hk) (omega (arith, length-drop k pieces))
          (omega (arith, length-drop k pieces))
          (omega (arith, length-flatten-drop g.block_size k pieces split hk)) in
      rw made (
        rw (hs, start)
          (rw (not_lt→ltb (13 + k * stride) 13 (omega arith)) (
            rw (mul-mod_left k stride, mul-div_left k {n = stride} (omega arith))
              (rw (mod-eq_of_lt {n = k * g.block_size} {m = 2 ^ 64} (omega arith)) (
                rw run (
                  rw (← slice-flatten g.block_size k m w.start w.stop pieces split hk hlo reach) (
                    rw (length-slice w.start w.stop (flatten pieces) hhi, size)
                      (rw (==_of_eq (w.stop - w.start) (w.stop - w.start) refl)))))))))
