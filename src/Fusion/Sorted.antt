-- ===== src/Fusion/Sorted.antt =====
-- The order of a fused ranking: crates/euledb-storage/src/fusion.rs.
use eule_db.Common.{
  ℕ, zero, suc, ◌≤◌, ◌≡◌, ◌⊎◌, refl, ap, ◌∙◌, arith, List, [], ◌∷◌, take, length, length-take, some,
  none, if◌then◌else◌, ltb, Option-cases, inl, inr,
}
use Prim.Native.Nat.{compare, Ordering}
use eule_db.Fusion.{Float32, FusedHit, contributed, cmp_hits, insert_hit, sort_hits, fuse, choose_k}
use eule_db.Fusion.Order.{Ordering-cases}

-- A comparison of floats whose two directions agree, and which answers: floats that are numbers have it, and
-- a score is a sum of reciprocals of positive numbers.
pub record IsComparison (f : Float32) : Type 0 where
  pub dual :
      (a b : f.F32) → f.partial_cmp a b ≡ some Ordering.gt → f.partial_cmp b a ≡ some Ordering.lt
  pub dual_eq :
      (a b : f.F32) → f.partial_cmp a b ≡ some Ordering.eq → f.partial_cmp b a ≡ some Ordering.eq
  pub dual_lt :
      (a b : f.F32) → f.partial_cmp a b ≡ some Ordering.lt → f.partial_cmp b a ≡ some Ordering.gt
  pub answers : (a b : f.F32) → ¬ (f.partial_cmp a b ≡ none)

module _ (f : Float32) (ordered : IsComparison f) where
  -- Of two neighbours the first is not behind the second, as the sort compares them.
  abbrev IsSorted : List (FusedHit f) → Type 0
  IsSorted [] = Unit
  IsSorted (a ∷ []) = Unit
  IsSorted (a ∷ b ∷ hits) = (¬ (cmp_hits f a b ≡ Ordering.gt)) × IsSorted (b ∷ hits)

  cmp_hits-dual :
      (a b : FusedHit f) → cmp_hits f a b ≡ Ordering.gt → ¬ (cmp_hits f b a ≡ Ordering.gt)
  unfolding cmp_hits
  cmp_hits-dual a b h k = elim (Option-cases (f.partial_cmp b.score a.score)) [
    | inl e ↦ ordered.answers b.score a.score e
    | inr (o, e) ↦ elim (Ordering-cases o) [
      | inl l ↦ cc (rw (e, l, cmp_hits) at h)
      | inr (inl q) ↦
          let back = ordered.dual_eq b.score a.score (e ∙ ap some q) in
          rows a.row b.row (rw (e, q, cmp_hits) at h) (rw (back, cmp_hits) at k)
      | inr (inr g) ↦
          let back = ordered.dual b.score a.score (e ∙ ap some g) in cc (rw (back, cmp_hits) at k)
    ]
  ]
    where
      rows : (x y : ℕ) → compare x y ≡ Ordering.gt → ¬ (compare y x ≡ Ordering.gt)
      rows x y h k = ground arith

  -- The head of an insertion is the hit that is inserted, or the old head.
  IsSorted-insert_hit :
      (a : FusedHit f) (hits : List (FusedHit f)) → IsSorted hits → IsSorted (insert_hit f a hits)
  unfolding insert_hit
  IsSorted-insert_hit a [] h = tt
  IsSorted-insert_hit a (b ∷ []) h = elim (Ordering-cases (cmp_hits f a b)) [
    | inl e ↦ rw (e, insert_hit) ((λ g. cc (e, g)), tt)
    | inr (inl e) ↦ rw (e, insert_hit) ((λ g. cc (e, g)), tt)
    | inr (inr e) ↦ rw (e, insert_hit) (cmp_hits-dual a b e, tt)
  ]
  IsSorted-insert_hit a (b ∷ c ∷ hits) (hbc, h) = elim (Ordering-cases (cmp_hits f a b)) [
    | inl e ↦ rw (e, insert_hit) ((λ g. cc (e, g)), (hbc, h))
    | inr (inl e) ↦ rw (e, insert_hit) ((λ g. cc (e, g)), (hbc, h))
    | inr (inr e) ↦ elim (Ordering-cases (cmp_hits f a c)) [
      | inl g ↦ rw (e, g, insert_hit) (cmp_hits-dual a b e, ((λ t. cc (g, t)), h))
      | inr (inl g) ↦ rw (e, g, insert_hit) (cmp_hits-dual a b e, ((λ t. cc (g, t)), h))
      | inr (inr g) ↦
          let ih = IsSorted-insert_hit a (c ∷ hits) h in
          rw (e, g, insert_hit) (hbc, rw (g, insert_hit) at ih)
    ]
  ]

  IsSorted-sort_hits : (hits : List (FusedHit f)) → IsSorted (sort_hits f hits)
  unfolding sort_hits
  IsSorted-sort_hits [] = tt
  IsSorted-sort_hits (a ∷ hits) = IsSorted-insert_hit a (sort_hits f hits) (IsSorted-sort_hits hits)

  IsSorted-take : (n : ℕ) (hits : List (FusedHit f)) → IsSorted hits → IsSorted (take n hits)
  IsSorted-take zero hits h = tt
  IsSorted-take (suc n) [] h = tt
  IsSorted-take (suc zero) (a ∷ hits) h = tt
  IsSorted-take (suc (suc n)) (a ∷ []) h = tt
  IsSorted-take (suc (suc n)) (a ∷ b ∷ hits) (hab, h) = (hab, IsSorted-take (suc n) (b ∷ hits) h)

  -- Of two neighbours the first has the greater score, or else the same score and not the greater row.
  abbrev pub InOrder : List (FusedHit f) → Type 0
  InOrder [] = Unit
  InOrder (a ∷ []) = Unit
  InOrder (a ∷ b ∷ hits) =
      ((f.partial_cmp a.score b.score ≡ some Ordering.gt)
        ⊎ ((f.partial_cmp a.score b.score ≡ some Ordering.eq) × (a.row ≤ b.row)))
      × InOrder (b ∷ hits)

  cmp_hits-order :
      (a b : FusedHit f)
      → ¬ (cmp_hits f a b ≡ Ordering.gt)
      → (f.partial_cmp a.score b.score ≡ some Ordering.gt)
        ⊎ ((f.partial_cmp a.score b.score ≡ some Ordering.eq) × (a.row ≤ b.row))
  unfolding cmp_hits
  cmp_hits-order a b h = elim (Option-cases (f.partial_cmp b.score a.score)) [
    | inl e ↦ absurd (ordered.answers b.score a.score e)
    | inr (o, e) ↦ elim (Ordering-cases o) [
      | inl l ↦ inl (ordered.dual_lt b.score a.score (e ∙ ap some l))
      | inr (inl q) ↦ inr (
        ordered.dual_eq b.score a.score (e ∙ ap some q),
        rows a.row b.row (rw (e, q, cmp_hits) at h),
      )
      | inr (inr g) ↦ absurd (h (rw (e, g, cmp_hits) refl))
    ]
  ]
    where
      rows : (x y : ℕ) → ¬ (compare x y ≡ Ordering.gt) → x ≤ y
      rows x y h = ground arith

  IsSorted-InOrder : (hits : List (FusedHit f)) → IsSorted hits → InOrder hits
  IsSorted-InOrder [] h = tt
  IsSorted-InOrder (a ∷ []) h = tt
  IsSorted-InOrder (a ∷ b ∷ hits) (hab, h) = (cmp_hits-order a b hab, IsSorted-InOrder (b ∷ hits) h)

  -- A fused ranking falls by score, and by row where scores are equal, and has at most `limit` hits, for a
  -- comparison of floats whose two directions agree and which answers. The `k` that it reports is 15 below
  -- 100 documents and 60 from there on.
  pub fuse-InOrder :
      (vector lexical : List ℕ) (documents limit : ℕ)
      → InOrder (fuse f vector lexical documents limit).hits
        × (length (fuse f vector lexical documents limit).hits ≤ limit)
        × ((fuse f vector lexical documents limit).effective_k
            ≡ (if ltb documents 100 then 15 else 60))
  unfolding fuse choose_k
  fuse-InOrder vector lexical documents limit = (
    IsSorted-InOrder (take limit (sort_hits f (contributed f (choose_k documents) vector lexical)))
        (IsSorted-take limit (sort_hits f (contributed f (choose_k documents) vector lexical))
          (IsSorted-sort_hits (contributed f (choose_k documents) vector lexical))),
    omega (
      arith,
      length-take limit (sort_hits f (contributed f (choose_k documents) vector lexical)),
    ),
    refl,
  )
