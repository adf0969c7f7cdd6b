-- ===== src/Crypto/Frame/Parts.antt =====
-- Runs of blocks inside a sealed object.
use native.Mathlib.Nat.{add-zero}
use mathlib.Core.List.{append-nil, append_assoc}
use eule_db.Common.{
  ℕ, zero, suc, ◌+◌, ◌-◌, ◌*◌, ◌<◌, ◌≤◌, ◌≡◌, refl, ap, ap₂, ◌∙◌, sym, subst, arith,
}
use eule_db.Common.{List, [], ◌∷◌, ◌++◌, length, take, drop, flatten, length-append, Bytes}
use eule_db.Common.{true, false, length-drop, take-append-drop, ◌⊎◌}
use native.Mathlib.Decide.{dec_lt}
use eule_db.Common.Slices.{
  slice, slice-append, slice_past, slice_none, drop_all, drop-append, drop_zero,
}
use eule_db.Crypto.Platform.{Platform, IsSound}
use eule_db.Crypto.Frame.Pieces.{IsSplit}
use eule_db.Crypto.Frame.Sealed.{SealedBody}
use eule_db.Crypto.Frame.Opened.{length-SealedBlock}

-- All but the last piece are full.
length-flatten-take :
    (b m : ℕ) (pieces : List Bytes)
    → IsSplit b pieces
    → m < length pieces
    → length (flatten (take m pieces)) ≡ m * b
length-flatten-take b zero pieces split h = omega arith
length-flatten-take b (suc m) [] split h = absurd (omega arith)
length-flatten-take b (suc m) (x ∷ []) split h = absurd (omega arith)
length-flatten-take b (suc m) (x ∷ y ∷ rest) (full, split) h = omega (
  arith,
  length-append x (flatten (take m (y ∷ rest))),
  length-flatten-take b m (y ∷ rest) split (omega arith),
)

pub IsSplit-drop :
    (b k : ℕ) (pieces : List Bytes)
    → IsSplit b pieces
    → k < length pieces
    → IsSplit b (drop k pieces)
IsSplit-drop b zero pieces split h = split
IsSplit-drop b (suc k) [] split h = absurd (omega arith)
IsSplit-drop b (suc k) (x ∷ []) split h = absurd (omega arith)
IsSplit-drop b (suc k) (x ∷ y ∷ rest) (full, split) h =
    IsSplit-drop b k (y ∷ rest) split (omega arith)

flatten-append : (xs ys : List Bytes) → flatten (xs ++ ys) ≡ flatten xs ++ flatten ys
flatten-append [] ys = refl
flatten-append (x ∷ xs) ys =
    ap (λ t. x ++ t) (flatten-append xs ys) ∙ sym (append_assoc x (flatten xs) (flatten ys))

flatten-take-drop :
    (k : ℕ) (pieces : List Bytes)
    → flatten pieces ≡ flatten (take k pieces) ++ flatten (drop k pieces)
flatten-take-drop k pieces =
    ap flatten (sym (take-append-drop k pieces)) ∙ flatten-append (take k pieces) (drop k pieces)

-- Nothing wanted lies past the first `m` pieces.
slice_rest :
    (b m lo hi : ℕ) (pieces : List Bytes)
    → IsSplit b pieces
    → (hi ≤ m * b) ⊎ (length pieces ≤ m)
    → slice
        (lo - length (flatten (take m pieces)))
        (hi - length (flatten (take m pieces)))
        (flatten (drop m pieces))
      ≡ []
slice_rest b m lo hi pieces split reach = elim (dec_lt m (length pieces)) [
  | yes h ↦
      let size = length-flatten-take b m pieces split h in
      slice_none _ _ (flatten (drop m pieces)) (omega arith)
  | no h ↦
      ap
        (λ t.
          slice (lo - length (flatten (take m pieces))) (hi - length (flatten (take m pieces)))
            (flatten t))
        (drop_all m pieces (omega arith))
      ∙ slice_past _ _ [] (omega arith)
]

pub length-flatten-drop :
    (b k : ℕ) (pieces : List Bytes)
    → IsSplit b pieces
    → k < length pieces
    → k * b + length (flatten (drop k pieces)) ≡ length (flatten pieces)
length-flatten-drop b k pieces split h = omega (
  arith,
  length-flatten-take b k pieces split h,
  ap length (flatten-take-drop k pieces),
  length-append (flatten (take k pieces)) (flatten (drop k pieces)),
)

-- The part of an object that lies within the `m` blocks from block `k` on.
pub slice-flatten :
    (b k m lo hi : ℕ) (pieces : List Bytes)
    → IsSplit b pieces
    → k < length pieces
    → k * b ≤ lo
    → (hi ≤ (k + m) * b) ⊎ (length pieces ≤ k + m)
    → slice lo hi (flatten pieces)
      ≡ slice (lo - k * b) (hi - k * b) (flatten (take m (drop k pieces)))
slice-flatten b k m lo hi pieces split hk hlo reach =
    let size = length-flatten-take b k pieces split hk in
    let front = flatten (take k pieces) in
    let run = flatten (take m (drop k pieces)) in
    ap (slice lo hi) (flatten-take-drop k pieces)
    ∙ slice-append lo hi front (flatten (drop k pieces))
    ∙ ap₂ (λ x n. x ++ slice (lo - n) (hi - n) (flatten (drop k pieces)))
        (slice_past lo hi front (omega arith)) size
    ∙ ap (slice (lo - k * b) (hi - k * b)) (flatten-take-drop m (drop k pieces))
    ∙ slice-append (lo - k * b) (hi - k * b) run (flatten (drop m (drop k pieces)))
    ∙ ap (λ t. slice (lo - k * b) (hi - k * b) run ++ t)
        (slice_rest b m (lo - k * b) (hi - k * b) (drop k pieces) (IsSplit-drop b k pieces split hk)
          (omega (arith, length-drop k pieces)))
    ∙ append-nil _

drop_blocks :
    (stride k : ℕ) (block tail : Bytes) {body : Bytes}
    → length block ≡ stride
    → body ≡ block ++ tail
    → drop (k * stride) tail ≡ drop (suc k * stride) body
drop_blocks stride k block tail {body} h e =
    let count : k * stride ≡ suc k * stride - length block = omega arith in
    ap₂ (λ x n. x ++ drop n tail) (sym (drop_all (suc k * stride) block (omega arith))) count
    ∙ sym (drop-append (suc k * stride) block tail)
    ∙ sym (ap (drop (suc k * stride)) e)

module _ (p : Platform) (sound : IsSound p) where
  -- What lies behind the first `k` blocks is the rest of the pieces, sealed.
  pub SealedBody-drop :
      (c : p.Cipher) (key b i k : ℕ) (pieces : List Bytes) (body : Bytes)
      → SealedBody p c key i pieces body
      → IsSplit b pieces
      → k < length pieces
      → SealedBody p c key (i + k) (drop k pieces) (drop (k * (b + 28)) body)
  SealedBody-drop c key b i zero pieces body s split h =
      subst (λ t. SealedBody p c key t pieces (drop (0 * (b + 28)) body)) (sym (add-zero i))
        (subst (SealedBody p c key i pieces) (sym (drop_zero (0 * (b + 28)) body (omega arith))) s)
  SealedBody-drop c key b i (suc k) [] body s split h = elim s [ ]
  SealedBody-drop c key b i (suc k) (x ∷ []) body s split h = absurd (omega arith)
  SealedBody-drop c key b i (suc k) (x ∷ y ∷ rest) body (block, tail, s, eq, inner) (full, split)
        h =
      let size = length-SealedBlock p sound c key i false x block s in
      subst (λ t. SealedBody p c key t (drop k (y ∷ rest)) (drop (suc k * (b + 28)) body))
        {x = i + 1 + k} {y = i + suc k} (omega arith)
        (subst (SealedBody p c key (i + 1 + k) (drop k (y ∷ rest)))
          (drop_blocks (b + 28) k block tail (omega arith) eq)
          (SealedBody-drop c key b (i + 1) k (y ∷ rest) tail inner split (omega arith)))

  pub length-SealedBody :
      (c : p.Cipher) (key i : ℕ) (pieces : List Bytes) (body : Bytes)
      → SealedBody p c key i pieces body
      → length body ≡ length (flatten pieces) + length pieces * 28
  length-SealedBody c key i [] body s = elim s [ ]
  length-SealedBody c key i (x ∷ []) body s =
      omega (arith, length-SealedBlock p sound c key i true x body s, length-append x [])
  length-SealedBody c key i (x ∷ y ∷ rest) body (block, tail, s, eq, inner) = omega (
    arith,
    length-SealedBlock p sound c key i false x block s,
    ap length eq,
    length-append block tail,
    length-append x (flatten (y ∷ rest)),
    length-SealedBody c key (i + 1) (y ∷ rest) tail inner,
  )
