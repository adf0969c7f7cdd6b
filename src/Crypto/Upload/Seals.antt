-- ===== src/Crypto/Upload/Seals.antt =====
-- An object that is uploaded part by part is the object that `seal` makes at once:
-- crates/euledb-storage/src/crypto/store.rs beside frame.rs.
use mathlib.Core.List.{append-nil, append_assoc}
use eule_db.Common.{
  ℕ, zero, suc, ◌+◌, ◌-◌, ◌^◌, ◌<◌, ◌≤◌, ◌≡◌, refl, ap, ap₂, ◌∙◌, sym, subst, arith,
}
use eule_db.Common.{List, [], ◌∷◌, ◌++◌, length, take, drop, length-append, length-drop, Bytes, u64}
use eule_db.Common.{Bool, false, Result, ok, ok_or, ok_or-eq-ok, >>=-eq-ok, ltb, ltb_false→le}
use eule_db.Common.{◌==◌, ==_of_ne, inl, inr, ltb→lt, Bool-cases}
use eule_db.Common.Slices.{take-append, drop-append, take_zero, drop_zero}
use eule_db.Crypto.Platform.{Platform}
use eule_db.Crypto.FrameError.{random, cipher_refused}
use eule_db.Crypto.StoreError.{ObjectPath, StoreError}
use eule_db.Crypto.Frame.{
  BlockFrame, seal_block, seal_loop, seal_pieces, cipher, associated_data, nonce_len,
}
use eule_db.Crypto.Frame.Pieces.{seal_pieces_long, seal_pieces-IsSplit, IsSplit-pos}
use eule_db.Crypto.Upload.{UploadState, drain_loop}

module _ (p : Platform) (f : BlockFrame) (location : ObjectPath) (hb : 0 < f.block_size) where
  -- From `s` on, with `x` already sealed and the bytes `future` to come, `seal` would end with `r`.
  pub record Ahead (c : p.Cipher) (last : ℕ) (r : Bytes × p.Entropy) (future : Bytes)
      (s : UploadState p.Entropy) (x : Bytes) : Type 0 where
    pub made : cipher p f f.current ≡ ok c
    pub count : last + 1 ≡ s.next_index + length (seal_pieces f.block_size (s.pending ++ future))
    pub seals :
        seal_loop p c f.current last s.next_index
          (seal_pieces f.block_size (s.pending ++ future))
          x
          s.entropy
        ≡ ok r

  -- One round of `seal` is one call of `seal_block`.
  pub seal_loop-seal_block :
      (c : p.Cipher) (last i : ℕ) (final : Bool) (piece : Bytes) (rest : List Bytes) (x : Bytes)
      (e : p.Entropy) {r : Bytes × p.Entropy}
      → cipher p f f.current ≡ ok c
      → (i == last) ≡ final
      → seal_loop p c f.current last i (piece ∷ rest) x e ≡ ok r
      → (sealed : Bytes) × (e' : p.Entropy) × (seal_block p f piece i final e ≡ ok (sealed, e'))
        × (seal_loop p c f.current last (i + 1) rest (x ++ sealed) e' ≡ ok r)
  unfolding seal_loop seal_block
  seal_loop-seal_block c last i final piece rest x e made place h =
      let ((nonce, e'), filled, h₁) = >>=-eq-ok (ok_or (p.fill e nonce_len) random) _ h in
      let (sealed, enc, h₂) =
        >>=-eq-ok
          (ok_or (p.encrypt c nonce (associated_data f.current i (i == last)) piece) cipher_refused)
          _ h₁ in
      (nonce ++ sealed, e', rw (ok_or-eq-ok _ _ filled, made, ← place, ok_or-eq-ok _ _ enc), h₂)

  pieces_long :
      (pending future : Bytes)
      → f.block_size ≤ length pending
      → seal_pieces f.block_size (pending ++ future)
        ≡ take f.block_size pending ∷ seal_pieces f.block_size (drop f.block_size pending ++ future)
  pieces_long pending future h =
      let b = f.block_size in
      seal_pieces_long b (pending ++ future) hb (omega (arith, length-append pending future))
      ∙ ap₂ (λ x y. x ∷ seal_pieces b y)
          (take-append b pending future
            ∙ ap (λ t. take b pending ++ t) (take_zero (b - length pending) future (omega arith))
            ∙ append-nil (take b pending))
          (drop-append b pending future
            ∙ ap (λ t. drop b pending ++ t) (drop_zero (b - length pending) future (omega arith)))

  -- A round of `drain_full_blocks` seals the next piece.
  drain_round :
      (c : p.Cipher) (last : ℕ) (r : Bytes × p.Entropy) (future : Bytes) (s : UploadState p.Entropy)
      (x : Bytes)
      → last + 1 < 2 ^ 64
      → Ahead c last r future s x
      → f.block_size ≤ length s.pending
      → (sealed : Bytes) × (e' : p.Entropy) × (seal_block p f
            (take f.block_size s.pending)
            s.next_index
            false
            s.entropy
          ≡ ok (sealed, e'))
        × Ahead c last r future
            (record s {
              pending = drop f.block_size s.pending;
              next_index = u64 (s.next_index + 1);
              entropy = e';
            })
            (x ++ sealed)
  drain_round c last r future s x small a h =
      let b = f.block_size in
      let more = seal_pieces b (drop b s.pending ++ future) in
      let cut = pieces_long s.pending future h in
      let left = IsSplit-pos b more (seal_pieces-IsSplit b (drop b s.pending ++ future) hb) in
      let count : last + 1 ≡ s.next_index + suc (length more) =
        a.count ∙ ap (λ t. s.next_index + length t) cut in
      let (sealed, e', blk, rest) =
        seal_loop-seal_block c last s.next_index false (take b s.pending) more x s.entropy a.made
          (==_of_ne s.next_index last (omega arith))
          (subst (λ t. seal_loop p c f.current last s.next_index t x s.entropy ≡ ok r) cut
            a.seals) in
      let next : s.next_index + 1 ≡ u64 (s.next_index + 1) = omega arith in
      (
        sealed,
        e',
        blk,
        record {
          made = a.made;
          count = omega arith;
          seals =
              subst (λ t. seal_loop p c f.current last t more (x ++ sealed) e' ≡ ok r) next rest;
        },
      )

  -- What a run of the drain loop from `s` leaves: the blocks `sealed` behind `out`, and less than a
  -- block pending.
  pub record Drained (c : p.Cipher) (last : ℕ) (r : Bytes × p.Entropy) (future : Bytes)
      (s : UploadState p.Entropy) (x out : Bytes)
      (result : Result StoreError Bytes × UploadState p.Entropy) : Type 0 where
    pub sealed : Bytes
    pub after : UploadState p.Entropy
    pub ran : result ≡ (ok (out ++ sealed), after)
    pub short : length after.pending < f.block_size
    pub same_parts : after.parts ≡ s.parts
    pub same_header : after.header_sent ≡ s.header_sent
    pub ahead : Ahead c last r future after (x ++ sealed)

  pub drain_loop-Drained :
      (fuel : ℕ) (c : p.Cipher) (last : ℕ) (r : Bytes × p.Entropy) (future : Bytes)
      (s : UploadState p.Entropy) (x out : Bytes)
      → last + 1 < 2 ^ 64
      → length s.pending ≤ fuel
      → Ahead c last r future s x
      → Drained c last r future s x out (drain_loop p f location fuel s out)
  unfolding drain_loop
  drain_loop-Drained zero c last r future s x out small hf a = record {
    sealed = [];
    after = s;
    ran = ap (λ t. (ok t, s)) (sym (append-nil out));
    short = omega arith;
    same_parts = refl;
    same_header = refl;
    ahead = subst (Ahead c last r future s) (sym (append-nil x)) a;
  }
  drain_loop-Drained (suc fuel) c last r future s x out small hf a =
      elim (Bool-cases (ltb (length s.pending) f.block_size)) [
        | inl e ↦ record {
          sealed = [];
          after = s;
          ran = rw (e, drain_loop) (ap (λ t. (ok t, s)) (sym (append-nil out)));
          short = ltb→lt _ _ e;
          same_parts = refl;
          same_header = refl;
          ahead = subst (Ahead c last r future s) (sym (append-nil x)) a;
        }
        | inr e ↦
            let (sealed, e', blk, a') =
              drain_round c last r future s x small a (ltb_false→le _ _ e) in
            let d =
              drain_loop-Drained fuel c last r future
                (record s {
                  pending = drop f.block_size s.pending;
                  next_index = u64 (s.next_index + 1);
                  entropy = e';
                })
                (x ++ sealed) (out ++ sealed) small
                (omega (arith, length-drop f.block_size s.pending, ltb_false→le _ _ e)) a' in
            record {
              sealed = sealed ++ d.sealed;
              after = d.after;
              ran =
                  rw (e, blk, drain_loop)
                    (d.ran ∙ ap (λ t. (ok t, d.after)) (append_assoc out sealed d.sealed));
              short = d.short;
              same_parts = d.same_parts;
              same_header = d.same_header;
              ahead =
                  subst (Ahead c last r future d.after) (append_assoc x sealed d.sealed) d.ahead;
            }
      ]
