-- ===== src/Common/OrdMap.antt =====
-- `BTreeMap` with `u32` keys: an association list, the keys ascending.
pub mod Fresh
use eule_db.Common.Tests.{
  Bool-cases, ltb→lt, not_lt→ltb, ==_iff, ==_of_ne, ltb, ◌==◌, if◌then◌else◌,
}
use Prim.Native.Nat.{ℕ, ◌<◌}
use mathlib.Core.Path.{◌≡◌, refl, ap, sym, subst}
use mathlib.Core.Logic.{inl, inr}
use mathlib.Core.Bool.{Bool, true, false}
use mathlib.Core.Option.{Option, none, some}
use mathlib.Core.List.{List, [], ◌∷◌, ◌++◌}
use native.Mathlib.Omega.{arith}

abbrev pub OrdMap {ℓ} : Type ℓ → Type ℓ
OrdMap V = List (ℕ × V)

module _ {ℓ} {V : Type ℓ} where
  unfoldable pub get : ℕ → OrdMap V → Option V
  get k [] = none
  get k ((j, v) ∷ m) = if j == k then some v else get k m

  unfoldable pub contains_key : ℕ → OrdMap V → Bool
  contains_key k [] = false
  contains_key k ((j, v) ∷ m) = if j == k then true else contains_key k m

  unfoldable pub insert : ℕ → V → OrdMap V → OrdMap V
  insert k v [] = (k, v) ∷ []
  insert k v ((j, w) ∷ m) =
      if k == j then (k, v) ∷ m else if ltb k j then (k, v) ∷ (j, w) ∷ m else (j, w) ∷ insert k v m

  -- `keys().next_back()`
  unfoldable pub last_key : OrdMap V → Option ℕ
  last_key [] = none
  last_key ((j, v) ∷ []) = some j
  last_key ((j, v) ∷ e ∷ m) = last_key (e ∷ m)

  -- Every key is above `lo`, and the keys ascend.
  abbrev pub Above : ℕ → OrdMap V → Type 0
  Above lo [] = Unit
  Above lo ((j, v) ∷ m) = (lo < j) × Above j m

  -- The keys ascend.
  abbrev pub Sorted : OrdMap V → Type 0
  Sorted [] = Unit
  Sorted ((j, v) ∷ m) = Above j m

  pub get-insert :
      (k j : ℕ) (v : V) (m : OrdMap V) → get j (insert k v m) ≡ (if k == j then some v else get j m)
  unfolding get insert
  get-insert k j v [] = ground arith
  get-insert k j v ((i, w) ∷ m) = ground (arith, get-insert k j v m)

  pub contains_key-get :
      (k : ℕ) (m : OrdMap V) → contains_key k m ≡ true → (v : V) × (get k m ≡ some v)
  unfolding contains_key get
  contains_key-get k [] h = cc
  contains_key-get k ((j, v) ∷ m) h = elim (Bool-cases (j == k)) [
    | inl e ↦ (v, rw e)
    | inr e ↦ rw e (contains_key-get k m (rw e at h))
  ]

  pub contains_key-insert_self :
      (k : ℕ) (v : V) (m : OrdMap V) → contains_key k (insert k v m) ≡ true
  unfolding contains_key insert
  contains_key-insert_self k v [] = ground arith
  contains_key-insert_self k v ((j, w) ∷ m) = ground (arith, contains_key-insert_self k v m)

module _ {ℓ} {V : Type ℓ} where
  pub Above-Sorted : (lo : ℕ) (m : OrdMap V) → Above lo m → Sorted m
  Above-Sorted lo [] h = tt
  Above-Sorted lo ((j, v) ∷ m) h = h.1

  Above-append : (lo k : ℕ) (v : V) (m rest : OrdMap V) → Above lo (m ++ (k, v) ∷ rest) → lo < k
  Above-append lo k v [] rest h = h.0
  Above-append lo k v ((j, w) ∷ m) rest h = omega (arith, h.0, Above-append j k v m rest h.1)

  Above-insert : (lo k : ℕ) (v : V) (m : OrdMap V) → lo < k → Above lo m → Above lo (insert k v m)
  unfolding insert
  Above-insert lo k v [] hk h = (hk, tt)
  Above-insert lo k v ((j, w) ∷ m) hk h = elim (Bool-cases (k == j)) [
    | inl e ↦ rw e (hk, subst (λ t. Above t m) (sym ((==_iff k j).0 e)) h.1)
    | inr e ↦ rw e (elim (Bool-cases (ltb k j)) [
      | inl f ↦ rw f (hk, (ltb→lt k j f, h.1))
      | inr f ↦ rw f (h.0, Above-insert j k v m (ground arith) h.1)
    ])
  ]

  -- An insertion keeps the keys ascending.
  pub Sorted-insert : (k : ℕ) (v : V) (m : OrdMap V) → Sorted m → Sorted (insert k v m)
  unfolding insert
  Sorted-insert k v [] h = tt
  Sorted-insert k v ((j, w) ∷ m) h = elim (Bool-cases (k == j)) [
    | inl e ↦ rw e (subst (λ t. Above t m) (sym ((==_iff k j).0 e)) h)
    | inr e ↦ rw e (elim (Bool-cases (ltb k j)) [
      | inl f ↦ rw f (ltb→lt k j f, h)
      | inr f ↦ rw f (Above-insert j k v m (ground arith) h)
    ])
  ]

  -- A key above all that are held goes to the end.
  pub insert_last :
      (k : ℕ) (v : V) (m rest : OrdMap V)
      → Sorted (m ++ (k, v) ∷ rest)
      → insert k v m ≡ m ++ (k, v) ∷ []
  unfolding insert
  insert_last k v [] rest h = refl
  insert_last k v ((j, w) ∷ m) rest h =
      let below = Above-append j k v m rest h in
      rw (==_of_ne k j (omega arith), not_lt→ltb k j (omega arith))
        (ap (λ t. (j, w) ∷ t) (insert_last k v m rest (Above-Sorted j (m ++ (k, v) ∷ rest) h)))
