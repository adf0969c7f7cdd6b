-- ===== src/Crypto/Frame/Pieces.antt =====
-- How `BlockFrame::seal` cuts an object: full pieces and one shorter piece at the end.
use native.Mathlib.Nat.{mod-eq-sub-mod, mod-eq_of_lt}
use eule_db.Common.{ℕ, zero, suc, ◌%◌, ◌<◌, ◌≤◌, ◌≡◌, refl, ap, ◌∙◌, arith}
use eule_db.Common.{List, [], ◌∷◌, ◌++◌, length, take, drop, flatten, length-drop, length-take}
use eule_db.Common.{take-append-drop, Bytes, ◌==◌, Bool, true, false, if◌then◌else◌}
use mathlib.Core.List.{append-nil}
use native.Mathlib.Decide.{dec_lt}
use eule_db.Common.Chunks.{chunks, chunks_nil, chunks_step, chunks_short}
use eule_db.Crypto.Frame.{seal_pieces}

-- A block size, and the pieces of an object in order.
abbrev pub IsSplit : ℕ → List Bytes → Type 0
IsSplit b [] = ⊥
IsSplit b (piece ∷ []) = length piece < b
IsSplit b (piece ∷ next ∷ rest) = (length piece ≡ b) × IsSplit b (next ∷ rest)

pub seal_pieces_short : (b : ℕ) (p : Bytes) → length p < b → seal_pieces b p ≡ p ∷ []
unfolding seal_pieces
seal_pieces_short b [] h = rw (chunks_nil b) (rw (mod-eq_of_lt h) refl)
seal_pieces_short b (x ∷ p) h =
    rw (chunks_short b (x ∷ p) (omega arith) (omega arith)) (rw (mod-eq_of_lt h) (ground arith))

pub seal_pieces_long :
    (b : ℕ) (p : Bytes)
    → 0 < b
    → b ≤ length p
    → seal_pieces b p ≡ take b p ∷ seal_pieces b (drop b p)
unfolding seal_pieces
seal_pieces_long b p hb h =
    rw (chunks_step b p hb (omega arith), mod-eq-sub-mod h, ← length-drop b p)
      (push (length (drop b p) % b == 0) (take b p) (chunks b (drop b p)))
  where
    push :
        (t : Bool) (x : Bytes) (xs : List Bytes)
        → (if t then x ∷ (xs ++ [] ∷ []) else x ∷ xs) ≡ x ∷ (if t then xs ++ [] ∷ [] else xs)
    push true x xs = refl
    push false x xs = refl

pub IsSplit-pos : (b : ℕ) (xs : List Bytes) → IsSplit b xs → 0 < length xs
IsSplit-pos b [] s = elim s [ ]
IsSplit-pos b (x ∷ xs) s = omega arith

IsSplit-cons :
    (b : ℕ) (x : Bytes) (xs : List Bytes) → length x ≡ b → IsSplit b xs → IsSplit b (x ∷ xs)
IsSplit-cons b x [] h s = elim s [ ]
IsSplit-cons b x (y ∷ ys) h s = (h, s)

-- Both facts by recursion on a bound of the length.
seal_pieces_facts :
    (fuel b : ℕ) (p : Bytes)
    → 0 < b
    → length p ≤ fuel
    → IsSplit b (seal_pieces b p) × (flatten (seal_pieces b p) ≡ p)
seal_pieces_facts zero b p hb h =
    rw (seal_pieces_short b p (omega arith)) (omega arith, append-nil p)
seal_pieces_facts (suc fuel) b p hb h = elim (dec_lt (length p) b) [
  | yes short ↦ rw (seal_pieces_short b p short) (short, append-nil p)
  | no long ↦
      let (split, whole) =
        seal_pieces_facts fuel b (drop b p) hb (omega (arith, length-drop b p)) in
      rw (seal_pieces_long b p hb (omega arith)) (
        IsSplit-cons b (take b p) (seal_pieces b (drop b p)) (omega (arith, length-take b p)) split,
        ap (λ t. take b p ++ t) whole ∙ take-append-drop b p,
      )
]

-- Every piece but the last is full, the last is shorter, and together they are the object.
pub seal_pieces-IsSplit : (b : ℕ) (p : Bytes) → 0 < b → IsSplit b (seal_pieces b p)
seal_pieces-IsSplit b p hb = (seal_pieces_facts (length p) b p hb (omega arith)).0

pub flatten-seal_pieces : (b : ℕ) (p : Bytes) → 0 < b → flatten (seal_pieces b p) ≡ p
flatten-seal_pieces b p hb = (seal_pieces_facts (length p) b p hb (omega arith)).1
