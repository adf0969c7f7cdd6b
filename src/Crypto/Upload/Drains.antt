-- ===== src/Crypto/Upload/Drains.antt =====
-- The loop that seals full blocks ends with less than a block: crates/euledb-storage/src/crypto/store.rs.
use eule_db.Common.{
  ℕ, zero, suc, ◌<◌, ◌≤◌, Bytes, length, drop, take, length-drop, ltb, ltb→lt, ltb_false→le, true,
  false, Bool-cases, ok, Result-cases, ◌≡◌, ap, subst, arith, inl, inr, if◌then◌else◌, ◌++◌, [],
}
use eule_db.Common.{u64, ◌+◌}
use eule_db.Crypto.Platform.{Platform}
use eule_db.Crypto.Frame.{BlockFrame, seal_block, header}
use eule_db.Crypto.StoreError.{ObjectPath}
use eule_db.Crypto.Upload.{UploadState, drain_loop, drain_full_blocks}

module _ (p : Platform) (f : BlockFrame) (location : ObjectPath) (positive : 0 < f.block_size) where
  drain_loop-drains :
      (fuel : ℕ) (s : UploadState p.Entropy) (out sealed : Bytes) (after : UploadState p.Entropy)
      → length s.pending ≤ fuel
      → drain_loop p f location fuel s out ≡ (ok sealed, after)
      → length after.pending < f.block_size
  unfolding drain_loop
  drain_loop-drains zero s out sealed after h e =
      subst (λ z. length z.pending < f.block_size) (ap (λ z. z.1) e) (omega arith)
  drain_loop-drains (suc fuel) s out sealed after h e =
      elim (Bool-cases (ltb (length s.pending) f.block_size)) [
        | inl small ↦
            subst (λ z. length z.pending < f.block_size)
              (ap (λ z. z.1) (rw (small, drain_loop) at e)) (ltb→lt _ _ small)
        | inr large ↦
            elim (Result-cases
              (seal_block p f (take f.block_size s.pending) s.next_index false s.entropy)) [
                | inl (c, g) ↦ cc (rw (large, g, drain_loop) at e)
                | inr ((block, entropy), g) ↦
                    drain_loop-drains fuel
                      (record s {
                        pending = drop f.block_size s.pending;
                        next_index = u64 (s.next_index + 1);
                        entropy = entropy;
                      })
                      (out ++ block) sealed after
                      (let left = length-drop f.block_size s.pending in
                        let full = ltb_false→le (length s.pending) f.block_size large in
                        omega (arith, left, full, positive, h))
                      (rw (large, g, drain_loop) at e)
              ]
      ]

  -- When a drain answers, fewer bytes than a block are left pending, whatever was pending before: the rounds
  -- that the pending bytes give are enough for the loop to end by its own test, for blocks that are not empty.
  pub drain_full_blocks-drains :
      (s : UploadState p.Entropy) (sealed : Bytes) (after : UploadState p.Entropy)
      → drain_full_blocks p f location s ≡ (ok sealed, after)
      → length after.pending < f.block_size
  unfolding drain_full_blocks
  drain_full_blocks-drains s sealed after e =
      drain_loop-drains (length s.pending) (record s { header_sent = true })
        (if s.header_sent then [] else header f) sealed after (omega arith) e
