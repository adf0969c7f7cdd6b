-- ===== src/Crypto/Upload.antt =====
-- crates/euledb-storage/src/crypto/store.rs: `SealingUpload`, which seals an object part by part.
-- The wrapped upload is another crate's: the model keeps the parts that were handed to it, and takes
-- its answers as the parameter `inner`.
pub mod Seals
pub mod Drains
pub mod Equals
use eule_db.Common.{
  ℕ, zero, suc, ◌+◌, ◌%◌, ◌^◌, List, [], ◌∷◌, ◌++◌, length, take, drop, Bytes, u64,
}
use eule_db.Common.{Bool, true, false, Result, ok, err, ltb, if◌then◌else◌}
use eule_db.Crypto.Platform.{Platform}
use eule_db.Crypto.FrameError.{FrameError}
use eule_db.Crypto.StoreError.{ObjectPath, StoreError, wrapped, crypto_error}
use eule_db.Crypto.Frame.{BlockFrame, header, seal_block}

-- The answers of the wrapped upload, given the parts that it was handed.
pub record InnerUpload : Type 0 where
  pub put_part : List Bytes → Result StoreError (Unit {0})
  pub complete : List Bytes → Result StoreError (Unit {0})

-- `self.header_sent` and the fields beside it; the frame and the location do not change.
pub record UploadState (Entropy : Type 0) : Type 0 where
  pub pending : Bytes
  pub next_index : ℕ
  pub header_sent : Bool
  pub parts : List Bytes
  pub entropy : Entropy

module _ (p : Platform) (f : BlockFrame) (location : ObjectPath) where
  abbrev pub State : Type 0
  State = UploadState p.Entropy

  pub new_upload : p.Entropy → State
  new_upload e = record {
    pending = [];
    next_index = 0;
    header_sent = false;
    parts = [];
    entropy = e;
  }

  -- The `while` loop of `drain_full_blocks`: each round takes a full block from what is pending.
  unfoldable pub drain_loop : ℕ → State → Bytes → Result StoreError Bytes × State
  unfolding crypto_error
  drain_loop zero s out = (ok out, s)
  drain_loop (suc fuel) s out = elim (ltb (length s.pending) f.block_size) [
    | true ↦ (ok out, s)
    | false ↦
        let s' : State = record s { pending = drop f.block_size s.pending } in
        elim (seal_block p f (take f.block_size s.pending) s.next_index false s.entropy) [
          | err e ↦ (err (crypto_error location e), s')
          | ok (sealed, e') ↦
              drain_loop fuel (record s' { next_index = u64 (s.next_index + 1); entropy = e' })
                (out ++ sealed)
        ]
  ]

  -- A round takes a byte at least, so the pending bytes are rounds enough.
  unfoldable pub drain_full_blocks : State → Result StoreError Bytes × State
  drain_full_blocks s =
      drain_loop (length s.pending) (record s { header_sent = true })
        (if s.header_sent then [] else header f)

  -- What `put_part` does with what was drained.
  unfoldable pub hand_over :
      InnerUpload → Result StoreError Bytes × State → Result StoreError (Unit {0}) × State
  hand_over inner (err e, s) = (err e, s)
  hand_over inner (ok [], s) = (ok tt, s)
  hand_over inner (ok (b ∷ bs), s) =
      let parts = s.parts ++ ((b ∷ bs) ∷ []) in (inner.put_part parts, record s { parts = parts })

  unfoldable pub put_part : InnerUpload → Bytes → State → Result StoreError (Unit {0}) × State
  unfolding hand_over drain_full_blocks
  put_part inner data_part s =
      hand_over inner (drain_full_blocks (record s { pending = s.pending ++ data_part }))

  -- The last part, and the end of the wrapped upload if it took that part.
  unfoldable pub finish : InnerUpload → Bytes → State → Result StoreError (Unit {0}) × State
  finish inner tail s =
      let parts = s.parts ++ (tail ∷ []) in
      elim (inner.put_part parts) [
        | err e ↦ (err e, record s { parts = parts })
        | ok _ ↦ (inner.complete parts, record s { parts = parts })
      ]

  -- What `complete` does with what was drained: the rest is sealed as the final block.
  unfoldable pub seal_rest :
      InnerUpload → Result StoreError Bytes × State → Result StoreError (Unit {0}) × State
  unfolding finish crypto_error
  seal_rest inner (err e, s) = (err (wrapped e), s)
  seal_rest inner (ok tail, s) =
      let s' : State = record s { pending = [] } in
      elim (seal_block p f s.pending s.next_index true s.entropy) [
        | err e ↦ (err (crypto_error location e), s')
        | ok (sealed, e') ↦
            finish inner (tail ++ sealed)
              (record s' { next_index = u64 (s.next_index + 1); entropy = e' })
      ]

  unfoldable pub complete : InnerUpload → State → Result StoreError (Unit {0}) × State
  unfolding seal_rest drain_full_blocks
  complete inner s = seal_rest inner (drain_full_blocks s)

  -- A client that hands over every part, whatever each call answers, and then completes.
  unfoldable pub upload : InnerUpload → List Bytes → State → Result StoreError (Unit {0}) × State
  unfolding put_part complete
  upload inner [] s = complete inner s
  upload inner (part ∷ rest) s = upload inner rest (put_part inner part s).1
