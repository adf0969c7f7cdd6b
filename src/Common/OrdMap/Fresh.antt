-- ===== src/Common/OrdMap/Fresh.antt =====
-- Inserting a key above all others, or one that is not held.
use eule_db.Common.Tests.{Bool-cases, ltb, ◌==◌, ==_of_ne}
use eule_db.Common.Lists.{length, All}
use Prim.Native.Nat.{ℕ, suc, ◌<◌, ◌≤◌}
use mathlib.Core.Logic.{inl, inr}
use mathlib.Core.Path.{◌≡◌, refl}
use mathlib.Core.Option.{none, some}
use mathlib.Core.List.{[], ◌∷◌}
use native.Mathlib.Omega.{arith}
use eule_db.Common.OrdMap.{OrdMap, get, insert, last_key, Above, Sorted, Above-Sorted}

module _ {ℓ} {V : Type ℓ} where
  lo-le-last :
      (lo l : ℕ) (v : V) (m : OrdMap V) → Above lo m → last_key ((lo, v) ∷ m) ≡ some l → lo ≤ l
  unfolding last_key
  lo-le-last lo l v [] a h = ground arith
  lo-le-last lo l v ((j, w) ∷ m) (hj, a) h = omega (arith, lo-le-last j l w m a h)

  -- Nothing is held above the last key.
  pub get-above : (k l : ℕ) (m : OrdMap V) → Sorted m → last_key m ≡ some l → l < k → get k m ≡ none
  unfolding get last_key
  get-above k l [] s h hk = refl
  get-above k l ((j, v) ∷ []) s h hk = rw (==_of_ne j k (ground arith))
  get-above k l ((j, v) ∷ (i, w) ∷ m) s h hk =
      rw (==_of_ne j k (omega (arith, lo-le-last j l v ((i, w) ∷ m) s h)))
        (get-above k l ((i, w) ∷ m) (Above-Sorted j ((i, w) ∷ m) s) h hk)

  pub length-insert :
      (k : ℕ) (v : V) (m : OrdMap V) → get k m ≡ none → length (insert k v m) ≡ suc (length m)
  unfolding get insert
  length-insert k v [] h = refl
  length-insert k v ((j, w) ∷ m) h = ground (arith, length-insert k v m)

  pub All-insert {κ} :
      (P : ℕ × V → Type κ) (k : ℕ) (v : V) (m : OrdMap V)
      → P (k, v)
      → All P m
      → All P (insert k v m)
  unfolding insert
  All-insert P k v [] p a = (p, a)
  All-insert P k v ((j, w) ∷ m) p (q, a) = elim (Bool-cases (k == j)) [
    | inl e ↦ rw e (p, a)
    | inr e ↦ rw e (elim (Bool-cases (ltb k j)) [
      | inl f ↦ rw f (p, (q, a))
      | inr f ↦ rw f (q, All-insert P k v m p a)
    ])
  ]

  pub last_key-ne-none : (m : OrdMap V) → 0 < length m → last_key m ≡ none → ⊥
  unfolding last_key
  last_key-ne-none [] h e = omega arith
  last_key-ne-none ((j, v) ∷ []) h e = cc
  last_key-ne-none ((j, v) ∷ x ∷ m) h e = last_key-ne-none (x ∷ m) (omega arith) e
