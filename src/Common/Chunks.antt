-- ===== src/Common/Chunks.antt =====
-- `slice::chunks`: pieces of `n` elements, the last one shorter where the length is no multiple.
use eule_db.Common.Lists.{length, take, drop, length-append, length-drop}
use eule_db.Common.Slices.{take_all, drop_all, take-append_left, drop-append_left}
use Prim.Native.Nat.{ℕ, zero, suc, ◌≤◌, ◌<◌}
use mathlib.Core.Path.{◌≡◌, refl, ap, ap₂, sym, ◌∙◌}
use mathlib.Core.List.{List, [], ◌∷◌, ◌++◌}
use native.Mathlib.Omega.{arith}

module _ {ℓ} {A : Type ℓ} where
  -- Each round takes an element at least, so the length is fuel enough.
  unfoldable pub chunks_loop : ℕ → ℕ → List A → List (List A)
  chunks_loop zero n xs = []
  chunks_loop (suc fuel) n [] = []
  chunks_loop (suc fuel) n (x ∷ xs) = take n (x ∷ xs) ∷ chunks_loop fuel n (drop n (x ∷ xs))

  unfoldable pub chunks : ℕ → List A → List (List A)
  unfolding chunks_loop
  chunks n xs = chunks_loop (length xs) n xs

  chunks_loop_nil : (f n : ℕ) → chunks_loop f n [] ≡ []
  unfolding chunks_loop
  chunks_loop_nil zero n = refl
  chunks_loop_nil (suc f) n = refl

  -- More fuel than the length changes nothing.
  chunks_loop_fuel :
      (f g n : ℕ) (xs : List A)
      → 0 < n
      → length xs ≤ f
      → length xs ≤ g
      → chunks_loop f n xs ≡ chunks_loop g n xs
  unfolding chunks_loop
  chunks_loop_fuel f g n [] hn hf hg = chunks_loop_nil f n ∙ sym (chunks_loop_nil g n)
  chunks_loop_fuel zero g n (x ∷ xs) hn hf hg = absurd (omega arith)
  chunks_loop_fuel (suc f) zero n (x ∷ xs) hn hf hg = absurd (omega arith)
  chunks_loop_fuel (suc f) (suc g) n (x ∷ xs) hn hf hg =
      ap (λ t. take n (x ∷ xs) ∷ t)
        (chunks_loop_fuel f g n (drop n (x ∷ xs)) hn (omega (arith, length-drop n (x ∷ xs)))
          (omega (arith, length-drop n (x ∷ xs))))

  pub chunks_nil : (n : ℕ) → chunks n [] ≡ []
  unfolding chunks
  chunks_nil n = refl

  -- The first piece, and the pieces of what is left.
  pub chunks_step :
      (n : ℕ) (xs : List A) → 0 < n → 0 < length xs → chunks n xs ≡ take n xs ∷ chunks n (drop n xs)
  unfolding chunks
  chunks_step n [] hn h = absurd (omega arith)
  chunks_step n (x ∷ xs) hn h =
      ap (λ t. take n (x ∷ xs) ∷ t)
        (chunks_loop_fuel (length xs) (length (drop n (x ∷ xs))) n (drop n (x ∷ xs)) hn
          (omega (arith, length-drop n (x ∷ xs))) (omega arith))

  pub chunks-append :
      (n : ℕ) (xs ys : List A) → 0 < n → length xs ≡ n → chunks n (xs ++ ys) ≡ xs ∷ chunks n ys
  chunks-append n xs ys hn h =
      chunks_step n (xs ++ ys) hn (omega (arith, length-append xs ys))
      ∙ ap₂ (λ a b. a ∷ chunks n b) (take-append_left n xs ys h) (drop-append_left n xs ys h)

  pub chunks_short : (n : ℕ) (xs : List A) → 0 < length xs → length xs ≤ n → chunks n xs ≡ xs ∷ []
  chunks_short n xs h k =
      chunks_step n xs (omega arith) h
      ∙ ap₂ (λ a b. a ∷ b) (take_all n xs k) (ap (chunks n) (drop_all n xs k) ∙ chunks_nil n)
