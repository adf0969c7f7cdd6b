-- ===== src/Crypto/Frame/Sealed.antt =====
-- What a sealed object is: its header and, for each piece, a nonce and what the cipher made of it.
use eule_db.Common.{ℕ, ◌+◌, ◌-◌, ◌<◌, ◌≡◌, refl, ◌∙◌, sym, arith}
use eule_db.Common.{List, [], ◌∷◌, ◌++◌, length, Bytes}
use eule_db.Common.{
  Bool, true, false, some, ok, ok_or, ok_or-eq-ok, >>=-eq-ok, ◌==◌, ==_of_eq, ==_of_ne, subst,
}
use mathlib.Core.List.{append_assoc}
use eule_db.Crypto.Platform.{Platform, IsSound}
use eule_db.Crypto.FrameError.{random, cipher_refused}
use eule_db.Crypto.Frame.{
  BlockFrame, associated_data, cipher, seal_loop, seal, seal_pieces, header, nonce_len,
}
use eule_db.Crypto.Frame.Pieces.{IsSplit-pos, seal_pieces-IsSplit}

module _ (p : Platform) where
  -- `block` is a nonce of 12 bytes and `piece`, encrypted for its place.
  pub record SealedBlock (c : p.Cipher) (key index : ℕ) (final : Bool) (piece block : Bytes)
      : Type 0 where
    pub nonce : Bytes
    pub sealed : Bytes
    pub parts : block ≡ nonce ++ sealed
    pub nonce_length : length nonce ≡ 12
    pub encrypted : p.encrypt c nonce (associated_data key index final) piece ≡ some sealed

  -- `body` is the pieces from `index` on, sealed in order, the last one as final.
  abbrev pub SealedBody : p.Cipher → ℕ → ℕ → List Bytes → Bytes → Type 0
  SealedBody c key index [] body = ⊥
  SealedBody c key index (piece ∷ []) body = SealedBlock c key index true piece body
  SealedBody c key index (piece ∷ next ∷ rest) body =
      (block : Bytes) × (tail : Bytes) × SealedBlock c key index false piece block
      × (body ≡ block ++ tail)
      × SealedBody c key (index + 1) (next ∷ rest) tail

  module _ (sound : IsSound p) where
    -- One round of the loop of `seal`.
    seal_loop_step :
        (c : p.Cipher) (key last i : ℕ) (piece : Bytes) (rest : List Bytes) (out : Bytes)
        (e : p.Entropy) {r : Bytes × p.Entropy}
        → seal_loop p c key last i (piece ∷ rest) out e ≡ ok r
        → (block : Bytes) × (e' : p.Entropy) × SealedBlock c key i (i == last) piece block
          × (seal_loop p c key last (i + 1) rest (out ++ block) e' ≡ ok r)
    unfolding seal_loop
    seal_loop_step c key last i piece rest out e h =
        let ((nonce, e'), filled, h₁) = >>=-eq-ok (ok_or (p.fill e nonce_len) random) _ h in
        let (sealed, enc, h₂) =
          >>=-eq-ok
            (ok_or (p.encrypt c nonce (associated_data key i (i == last)) piece) cipher_refused) _
            h₁ in
        (
          nonce ++ sealed,
          e',
          record {
            nonce = nonce;
            sealed = sealed;
            parts = refl;
            nonce_length = sound.length-fill e 12 nonce e' (ok_or-eq-ok _ _ filled);
            encrypted = ok_or-eq-ok _ _ enc;
          },
          h₂,
        )

    seal_loop_body :
        (c : p.Cipher) (key last i : ℕ) (pieces : List Bytes) (out : Bytes) (e : p.Entropy)
        {bytes : Bytes} {e' : p.Entropy}
        → 0 < length pieces
        → last + 1 ≡ i + length pieces
        → seal_loop p c key last i pieces out e ≡ ok (bytes, e')
        → (body : Bytes) × (bytes ≡ out ++ body) × SealedBody c key i pieces body
    unfolding seal_loop
    seal_loop_body c key last i [] out e hp hl h = absurd (omega arith)
    seal_loop_body c key last i (piece ∷ []) out e {bytes} {e'} hp hl h =
        let (block, e₁, sealed, rest) = seal_loop_step c key last i piece [] out e h in
        (
          block,
          sym (loop_done out block e₁ rest),
          subst (λ t. SealedBlock c key i t piece block) (==_of_eq i last (omega arith)) sealed,
        )
      where
        loop_done :
            (out block : Bytes) (e₁ : p.Entropy)
            → seal_loop p c key last (i + 1) [] (out ++ block) e₁ ≡ ok (bytes, e')
            → out ++ block ≡ bytes
        loop_done out block e₁ h = cc
    seal_loop_body c key last i (piece ∷ next ∷ rest) out e hp hl h =
        let (block, e₁, sealed, h₁) = seal_loop_step c key last i piece (next ∷ rest) out e h in
        let (tail, eq, inner) =
          seal_loop_body c key last (i + 1) (next ∷ rest) (out ++ block) e₁ (omega arith)
            (omega arith) h₁ in
        (
          block ++ tail,
          eq ∙ append_assoc out block tail,
          (
            block,
            tail,
            subst (λ t. SealedBlock c key i t piece block) (==_of_ne i last (omega arith)) sealed,
            refl,
            inner,
          ),
        )

    -- What a successful `seal` returns: the header, and every piece of the object sealed in order.
    pub seal-SealedBody :
        (f : BlockFrame) (plaintext : Bytes) (e : p.Entropy) {bytes : Bytes} {e' : p.Entropy}
        → 0 < f.block_size
        → seal p f plaintext e ≡ ok (bytes, e')
        → (c : p.Cipher) × (body : Bytes) × (cipher p f f.current ≡ ok c)
          × (bytes ≡ header f ++ body)
          × SealedBody c f.current 0 (seal_pieces f.block_size plaintext) body
    unfolding seal
    seal-SealedBody f plaintext e hb h =
        let pieces = seal_pieces f.block_size plaintext in
        let (c, made, h₁) = >>=-eq-ok (cipher p f f.current) _ h in
        let some_piece =
          IsSplit-pos f.block_size pieces (seal_pieces-IsSplit f.block_size plaintext hb) in
        let (body, eq, sealed) =
          seal_loop_body c f.current (length pieces - 1) 0 pieces (header f) e some_piece
            (omega arith) h₁ in
        (c, body, made, eq, sealed)
