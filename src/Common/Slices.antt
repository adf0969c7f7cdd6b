-- ===== src/Common/Slices.antt =====
-- Laws of `take`, `drop` and of the slice that they make.
use eule_db.Common.Lists.{length, take, drop, length-take, length-drop}
use Prim.Native.Nat.{ℕ, zero, suc, ◌+◌, ◌-◌, ◌≤◌, min}
use mathlib.Core.Path.{◌≡◌, refl, ap, sym, ◌∙◌}
use mathlib.Core.List.{List, [], ◌∷◌, ◌++◌, append-nil}
use native.Mathlib.Decide.{dec_lt}
use native.Mathlib.Omega.{arith}

module _ {ℓ} {A : Type ℓ} where
  -- `xs[lo..hi]`
  abbrev pub slice : ℕ → ℕ → List A → List A
  slice lo hi xs = take (hi - lo) (drop lo xs)

  pub take_all : (n : ℕ) (xs : List A) → length xs ≤ n → take n xs ≡ xs
  take_all zero [] h = refl
  take_all zero (x ∷ xs) h = absurd (omega arith)
  take_all (suc n) [] h = refl
  take_all (suc n) (x ∷ xs) h = ap (λ t. x ∷ t) (take_all n xs (omega arith))

  pub drop_all : (n : ℕ) (xs : List A) → length xs ≤ n → drop n xs ≡ []
  drop_all zero [] h = refl
  drop_all zero (x ∷ xs) h = absurd (omega arith)
  drop_all (suc n) [] h = refl
  drop_all (suc n) (x ∷ xs) h = drop_all n xs (omega arith)

  pub take_zero : (n : ℕ) (xs : List A) → n ≡ 0 → take n xs ≡ []
  take_zero zero xs h = refl
  take_zero (suc n) xs h = absurd (omega arith)

  pub drop_zero : (n : ℕ) (xs : List A) → n ≡ 0 → drop n xs ≡ xs
  drop_zero zero xs h = refl
  drop_zero (suc n) xs h = absurd (omega arith)

  pub take-append :
      (n : ℕ) (xs ys : List A) → take n (xs ++ ys) ≡ take n xs ++ take (n - length xs) ys
  take-append zero [] ys = refl
  take-append (suc n) [] ys = ap (λ t. take t ys) {x = suc n} {y = suc n - 0} (omega arith)
  take-append zero (x ∷ xs) ys = sym (take_zero _ ys (omega arith))
  take-append (suc n) (x ∷ xs) ys =
      ap (λ t. x ∷ t) (take-append n xs ys)
      ∙ ap (λ t. (x ∷ take n xs) ++ take t ys) {x = n - length xs} {y = suc n - suc (length xs)}
          (omega arith)

  pub drop-append :
      (n : ℕ) (xs ys : List A) → drop n (xs ++ ys) ≡ drop n xs ++ drop (n - length xs) ys
  drop-append zero [] ys = refl
  drop-append (suc n) [] ys = ap (λ t. drop t ys) {x = suc n} {y = suc n - 0} (omega arith)
  drop-append zero (x ∷ xs) ys =
      ap (λ t. (x ∷ xs) ++ t) (sym (drop_zero (0 - suc (length xs)) ys (omega arith)))
  drop-append (suc n) (x ∷ xs) ys =
      drop-append n xs ys
      ∙ ap (λ t. drop n xs ++ drop t ys) {x = n - length xs} {y = suc n - suc (length xs)}
          (omega arith)

  pub drop-drop : (m n : ℕ) (xs : List A) → drop m (drop n xs) ≡ drop (n + m) xs
  drop-drop m zero xs = ap (λ t. drop t xs) {x = m} {y = 0 + m} (omega arith)
  drop-drop m (suc n) [] = drop_all m [] (omega arith) ∙ sym (drop_all (suc n + m) [] (omega arith))
  drop-drop m (suc n) (x ∷ xs) =
      drop-drop m n xs ∙ ap (λ t. drop t (x ∷ xs)) {x = suc (n + m)} {y = suc n + m} (omega arith)

  pub take-append_left : (n : ℕ) (xs ys : List A) → length xs ≡ n → take n (xs ++ ys) ≡ xs
  take-append_left n xs ys h =
      take-append n xs ys
      ∙ ap (λ t. take n xs ++ t) (take_zero (n - length xs) ys (omega arith))
      ∙ ap (λ t. t ++ []) (take_all n xs (omega arith))
      ∙ append-nil xs

  pub drop-append_left : (n : ℕ) (xs ys : List A) → length xs ≡ n → drop n (xs ++ ys) ≡ ys
  drop-append_left n xs ys h =
      drop-append n xs ys
      ∙ ap (λ t. t ++ drop (n - length xs) ys) (drop_all n xs (omega arith))
      ∙ drop_zero (n - length xs) ys (omega arith)

module _ {ℓ} {A : Type ℓ} where
  -- A slice of two joined lists is the slice of each, joined.
  pub slice-append :
      (lo hi : ℕ) (xs ys : List A)
      → slice lo hi (xs ++ ys) ≡ slice lo hi xs ++ slice (lo - length xs) (hi - length xs) ys
  slice-append lo hi xs ys =
      ap (take (hi - lo)) (drop-append lo xs ys)
      ∙ take-append (hi - lo) (drop lo xs) (drop (lo - length xs) ys)
      ∙ ap (λ t. take (hi - lo) (drop lo xs) ++ take t (drop (lo - length xs) ys))
          {x = hi - lo - length (drop lo xs)} {y = hi - length xs - (lo - length xs)}
          (omega (arith, length-drop lo xs))

  -- The slice past the end of a list.
  pub slice_past : (lo hi : ℕ) (xs : List A) → length xs ≤ lo → slice lo hi xs ≡ []
  slice_past lo hi xs h =
      ap (take (hi - lo)) (drop_all lo xs h) ∙ take_all (hi - lo) [] (omega arith)

  pub slice_none : (lo hi : ℕ) (xs : List A) → hi ≤ lo → slice lo hi xs ≡ []
  slice_none lo hi xs h = take_zero (hi - lo) (drop lo xs) (omega arith)

  pub slice_whole : (xs : List A) → slice 0 (length xs) xs ≡ xs
  slice_whole xs = take_all (length xs - 0) xs (omega arith)

  pub length-slice : (lo hi : ℕ) (xs : List A) → hi ≤ length xs → length (slice lo hi xs) ≡ hi - lo
  length-slice lo hi xs h = omega (arith, length-take (hi - lo) (drop lo xs), length-drop lo xs)

  -- A bound past the end of the list is as good as its length.
  pub slice_clip : (lo hi : ℕ) (xs : List A) → slice lo (min hi (length xs)) xs ≡ slice lo hi xs
  slice_clip lo hi xs = elim (dec_lt (length xs) hi) [
    | yes h ↦
        take_all (min hi (length xs) - lo) (drop lo xs) (omega (arith, length-drop lo xs))
        ∙ sym (take_all (hi - lo) (drop lo xs) (omega (arith, length-drop lo xs)))
    | no h ↦ ap (λ t. slice lo t xs) {x = min hi (length xs)} {y = hi} (omega arith)
  ]
