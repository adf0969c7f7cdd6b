-- ===== src/Crypto/Upload/Equals.antt =====
-- `put_part` and `complete` against `seal`: crates/euledb-storage/src/crypto/store.rs.
use mathlib.Core.List.{append-nil, append_assoc}
use eule_db.Common.{ℕ, ◌+◌, ◌-◌, ◌/◌, ◌^◌, ◌<◌, ◌≡◌, refl, ap, ◌∙◌, sym, subst, arith}
use eule_db.Common.{
  List, [], ◌∷◌, ◌++◌, length, flatten, u64, Bytes, true, Result, ok, >>=-eq-ok, if◌then◌else◌,
  ==_of_eq,
}
use eule_db.Crypto.Platform.{Platform}
use eule_db.Crypto.StoreError.{ObjectPath, StoreError}
use eule_db.Crypto.Frame.{BlockFrame, header, seal_block, seal_loop, seal, seal_pieces, cipher}
use eule_db.Crypto.Frame.Pieces.{seal_pieces_short}
use eule_db.Crypto.Frame.Spans.{length-seal_pieces}
use eule_db.Crypto.Upload.{
  UploadState, InnerUpload, drain_full_blocks, hand_over, put_part, finish, seal_rest, complete,
  upload, new_upload,
}
use eule_db.Crypto.Upload.Seals.{Ahead, Drained, drain_loop-Drained, seal_loop-seal_block}

-- What has been sealed so far: the parts that were handed over, or the header that is still to go.
abbrev emitted : {E : Type 0} → BlockFrame → UploadState E → Bytes
emitted f s = flatten s.parts ++ (if s.header_sent then [] else header f)

flatten-snoc : (xs : List Bytes) (y : Bytes) → flatten (xs ++ y ∷ []) ≡ flatten xs ++ y
flatten-snoc [] y = append-nil y
flatten-snoc (x ∷ xs) y = ap (λ t. x ++ t) (flatten-snoc xs y) ∙ sym (append_assoc x (flatten xs) y)

-- The wrapped upload takes every part and completes.
pub record Accepts (inner : InnerUpload) : Type 0 where
  pub takes : (parts : List Bytes) → inner.put_part parts ≡ ok tt
  pub completes : (parts : List Bytes) → inner.complete parts ≡ ok tt

module _ (p : Platform) (f : BlockFrame) (location : ObjectPath) (hb : 0 < f.block_size)
    (inner : InnerUpload) (accepts : Accepts inner) where
  drain_full_blocks-Drained :
      (c : p.Cipher) (last : ℕ) (r : Bytes × p.Entropy) (future : Bytes) (s : UploadState p.Entropy)
      → last + 1 < 2 ^ 64
      → Ahead p f location hb c last r future s (emitted f s)
      → Drained p f location hb c last r future
          (record s { header_sent = true })
          (emitted f s)
          (if s.header_sent then [] else header f)
          (drain_full_blocks p f location s)
  unfolding drain_full_blocks
  drain_full_blocks-Drained c last r future s small a =
      drain_loop-Drained p f location hb (length s.pending) c last r future
        (record s { header_sent = true }) (emitted f s) (if s.header_sent then [] else header f)
        small (omega arith) (record { made = a.made; count = a.count; seals = a.seals })

  hand_over-Ahead :
      (c : p.Cipher) (last : ℕ) (r : Bytes × p.Entropy) (future tail : Bytes)
      (s : UploadState p.Entropy)
      → s.header_sent ≡ true
      → Ahead p f location hb c last r future s (flatten s.parts ++ tail)
      → ((hand_over p f location inner (ok tail, s)).0 ≡ ok tt)
        × Ahead p f location hb c last r future
            (hand_over p f location inner (ok tail, s)).1
            (emitted f (hand_over p f location inner (ok tail, s)).1)
  unfolding hand_over
  hand_over-Ahead c last r future [] s sent a = (
    refl,
    subst (Ahead p f location hb c last r future s)
        (ap (λ t. flatten s.parts ++ (if t then [] else header f)) (sym sent)) a,
  )
  hand_over-Ahead c last r future (t ∷ ts) s sent a =
      let parts = s.parts ++ ((t ∷ ts) ∷ []) in
      let grown : flatten s.parts ++ (t ∷ ts)
          ≡ flatten parts ++ (if s.header_sent then [] else header f) =
        sym (flatten-snoc s.parts (t ∷ ts))
        ∙ sym (append-nil (flatten parts))
        ∙ ap (λ h. flatten parts ++ (if h then [] else header f)) (sym sent) in
      (
        accepts.takes parts,
        record {
          made = a.made;
          count = a.count;
          seals =
              subst
                (λ x.
                  seal_loop p c f.current last s.next_index
                    (seal_pieces f.block_size (s.pending ++ future)) x s.entropy
                  ≡ ok r)
                grown a.seals;
        },
      )

  -- After a part, what was handed over is what `seal` would have written by then.
  put_part-Ahead :
      (c : p.Cipher) (last : ℕ) (r : Bytes × p.Entropy) (part future : Bytes)
      (s : UploadState p.Entropy)
      → last + 1 < 2 ^ 64
      → Ahead p f location hb c last r (part ++ future) s (emitted f s)
      → ((put_part p f location inner part s).0 ≡ ok tt)
        × Ahead p f location hb c last r future
            (put_part p f location inner part s).1
            (emitted f (put_part p f location inner part s).1)
  unfolding put_part
  put_part-Ahead c last r part future s small a =
      let s₁ : UploadState p.Entropy = record s { pending = s.pending ++ part } in
      let regroup = sym (append_assoc s.pending part future) in
      let d = drain_full_blocks-Drained c last r future s₁ small (record {
        made = a.made;
        count = a.count ∙ ap (λ t. s.next_index + length (seal_pieces f.block_size t)) regroup;
        seals =
            subst
              (λ t.
                seal_loop p c f.current last s.next_index (seal_pieces f.block_size t) (emitted f s)
                  s.entropy
                ≡ ok r)
              regroup a.seals;
      }) in
      subst
        (λ t.
          ((hand_over p f location inner t).0 ≡ ok tt)
          × Ahead p f location hb c last r future (hand_over p f location inner t).1
              (emitted f (hand_over p f location inner t).1))
        (sym d.ran)
        (hand_over-Ahead c last r future ((if s.header_sent then [] else header f) ++ d.sealed)
          d.after d.same_header
          (subst (Ahead p f location hb c last r future d.after)
            (append_assoc (flatten s.parts) (if s.header_sent then [] else header f) d.sealed
              ∙ ap (λ t. flatten t ++ ((if s.header_sent then [] else header f) ++ d.sealed))
                  (sym d.same_parts))
            d.ahead))

  loop_done :
      (c : p.Cipher) (last i : ℕ) (x : Bytes) (e : p.Entropy) (r : Bytes × p.Entropy)
      → seal_loop p c f.current last i [] x e ≡ ok r
      → (x ≡ r.0) × (e ≡ r.1)
  unfolding seal_loop
  loop_done c last i x e (object, e') h = (cc, cc)

  -- What `complete` hands over as the last part ends the object that `seal` makes.
  record Finished (r : Bytes × p.Entropy)
      (result : Result StoreError (Unit {0}) × UploadState p.Entropy) : Type 0 where
    pub answer : result.0 ≡ ok tt
    pub object : flatten result.1.parts ≡ r.0
    pub entropy : result.1.entropy ≡ r.1

  seal_rest-finish :
      (tail : Bytes) (s : UploadState p.Entropy) (sealed : Bytes) (e' : p.Entropy)
      → seal_block p f s.pending s.next_index true s.entropy ≡ ok (sealed, e')
      → seal_rest p f location inner (ok tail, s) ≡ (
        inner.complete (s.parts ++ ((tail ++ sealed) ∷ [])),
        record s {
          pending = [];
          next_index = u64 (s.next_index + 1);
          parts = s.parts ++ ((tail ++ sealed) ∷ []);
          entropy = e';
        },
      )
  unfolding seal_rest
  seal_rest-finish tail s sealed e' h =
      rw (h, seal_rest) (rw (accepts.takes (s.parts ++ ((tail ++ sealed) ∷ [])), finish))

  seal_rest-Finished :
      (c : p.Cipher) (last : ℕ) (r : Bytes × p.Entropy) (tail : Bytes) (s : UploadState p.Entropy)
      → length s.pending < f.block_size
      → Ahead p f location hb c last r [] s (flatten s.parts ++ tail)
      → Finished r (seal_rest p f location inner (ok tail, s))
  seal_rest-Finished c last r tail s short a =
      let cut : seal_pieces f.block_size (s.pending ++ []) ≡ s.pending ∷ [] =
        ap (seal_pieces f.block_size) (append-nil s.pending)
        ∙ seal_pieces_short f.block_size s.pending short in
      let count : last + 1 ≡ s.next_index + 1 = a.count ∙ ap (λ t. s.next_index + length t) cut in
      let (sealed, e', blk, done) =
        seal_loop-seal_block p f location hb c last s.next_index true s.pending []
          (flatten s.parts ++ tail) s.entropy a.made (==_of_eq s.next_index last (omega arith))
          (subst
            (λ t.
              seal_loop p c f.current last s.next_index t (flatten s.parts ++ tail) s.entropy
              ≡ ok r)
            cut a.seals) in
      let (same, rest) =
        loop_done c last (s.next_index + 1) (flatten s.parts ++ tail ++ sealed) e' r done in
      subst (Finished r) (sym (seal_rest-finish tail s sealed e' blk)) (record {
        answer = accepts.completes (s.parts ++ (tail ++ sealed) ∷ []);
        object =
            flatten-snoc s.parts (tail ++ sealed)
            ∙ sym (append_assoc (flatten s.parts) tail sealed)
            ∙ same;
        entropy = rest;
      })

  -- With less than a block pending at the end, `complete` finishes the object.
  complete-Finished :
      (c : p.Cipher) (last : ℕ) (r : Bytes × p.Entropy) (s : UploadState p.Entropy)
      → last + 1 < 2 ^ 64
      → Ahead p f location hb c last r [] s (emitted f s)
      → Finished r (complete p f location inner s)
  unfolding complete
  complete-Finished c last r s small a =
      let d = drain_full_blocks-Drained c last r [] s small a in
      let out = if s.header_sent then [] else header f in
      subst (λ t. Finished r (seal_rest p f location inner t)) (sym d.ran)
        (seal_rest-Finished c last r (out ++ d.sealed) d.after d.short (
          subst (Ahead p f location hb c last r [] d.after)
            (append_assoc (flatten s.parts) out d.sealed
              ∙ ap (λ t. flatten t ++ (out ++ d.sealed)) (sym d.same_parts))
            d.ahead))

  upload-Finished :
      (c : p.Cipher) (last : ℕ) (r : Bytes × p.Entropy) (parts : List Bytes)
      (s : UploadState p.Entropy)
      → last + 1 < 2 ^ 64
      → Ahead p f location hb c last r (flatten parts) s (emitted f s)
      → Finished r (upload p f location inner parts s)
  unfolding upload
  upload-Finished c last r [] s small a = complete-Finished c last r s small a
  upload-Finished c last r (part ∷ rest) s small a =
      upload-Finished c last r rest (put_part p f location inner part s).1 small
        (put_part-Ahead c last r part (flatten rest) s small a).1

  -- However an object is cut into parts, uploading it part by part and completing it succeeds and
  -- hands over exactly the bytes that `seal` makes of the whole object from the same random source,
  -- and leaves that source as `seal` does. `seal` succeeds, the wrapped upload accepts every part,
  -- the block size is positive, and the number of blocks is below 2 ^ 64.
  pub upload-seal :
      (parts : List Bytes) (e : p.Entropy) {object : Bytes} {e' : p.Entropy}
      → length (flatten parts) / f.block_size + 1 < 2 ^ 64
      → seal p f (flatten parts) e ≡ ok (object, e')
      → ((upload p f location inner parts (new_upload p f location e)).0 ≡ ok tt)
        × (flatten (upload p f location inner parts (new_upload p f location e)).1.parts ≡ object)
        × ((upload p f location inner parts (new_upload p f location e)).1.entropy ≡ e')
  unfolding seal new_upload
  upload-seal parts e {object} {e'} small h =
      let b = f.block_size in
      let plaintext = flatten parts in
      let (c, made, h₁) = >>=-eq-ok (cipher p f f.current) _ h in
      let count = length-seal_pieces b plaintext hb in
      let done =
        upload-Finished c (length (seal_pieces b plaintext) - 1) (object, e') parts
          (new_upload p f location e) (omega arith)
          (record { made = made; count = omega arith; seals = h₁ }) in
      (done.answer, done.object, done.entropy)
