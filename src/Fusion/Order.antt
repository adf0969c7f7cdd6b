-- ===== src/Fusion/Order.antt =====
-- The ranks that the hits of a fused ranking carry: crates/euledb-storage/src/fusion.rs.
use eule_db.Common.{
  ℕ, zero, suc, ◌≡◌, ◌⊎◌, refl, ap, sym, ◌∙◌, List, [], ◌∷◌, take, All, Bool, true, false, Option,
  some, none, ◌==◌, ==_refl, ==_iff, ==_of_ne, Bool-cases, inl, inr,
}
use Prim.Native.Nat.{Ordering}
use eule_db.Fusion.{
  Float32, FusedHit, another_hit, add_hit, contribute, contributed, cmp_hits, insert_hit, sort_hits,
  fuse, choose_k,
}
use eule_db.Fusion.Ranks.{
  last_rank, or_else, get_hit, vector_of, lexical_of, add_hit_here, add_hit_there, get_hit-add_hit,
  vector_of-contribute, lexical_of-contribute, vector_of-contribute_lexical,
  lexical_of-contribute_vector,
}

All-imp :
    {A : Type 0} (P Q : A → Type 0) (xs : List A) → ((x : A) → P x → Q x) → All P xs → All Q xs
All-imp P Q [] f h = tt
All-imp P Q (x ∷ xs) f (hx, h) = (f x hx, All-imp P Q xs f h)

All-take : {A : Type 0} (P : A → Type 0) (n : ℕ) (xs : List A) → All P xs → All P (take n xs)
All-take P zero xs h = tt
All-take P (suc n) [] h = tt
All-take P (suc n) (x ∷ xs) (hx, h) = (hx, All-take P n xs h)

pub Ordering-cases : (o : Ordering) → (o ≡ Ordering.lt) ⊎ ((o ≡ Ordering.eq) ⊎ (o ≡ Ordering.gt))
Ordering-cases Ordering.lt = inl refl
Ordering-cases Ordering.eq = inr (inl refl)
Ordering-cases Ordering.gt = inr (inr refl)

or_else-none : (o : Option ℕ) → or_else o none ≡ o
or_else-none none = refl
or_else-none (some n) = refl

module _ (f : Float32) where
  -- No two hits are of one row.
  abbrev pub Distinct : List (FusedHit f) → Type 0
  Distinct [] = Unit
  Distinct (h ∷ hs) = (get_hit f h.row hs ≡ none) × Distinct hs

  -- The hit is the one that the list holds of its row.
  abbrev HeldIn : List (FusedHit f) → FusedHit f → Type 0
  HeldIn hits h = get_hit f h.row hits ≡ some h

  Distinct-HeldIn : (hits : List (FusedHit f)) → Distinct hits → All (HeldIn hits) hits
  Distinct-HeldIn [] d = tt
  Distinct-HeldIn (h ∷ hs) (fresh, d) = (
    rw (==_refl h.row) refl,
    All-imp (HeldIn hs) (HeldIn (h ∷ hs)) hs
        (λ x held. elim (Bool-cases (h.row == x.row)) [
          | inl e ↦ cc (fresh, held, (==_iff h.row x.row).0 e)
          | inr e ↦ rw e held
        ])
        (Distinct-HeldIn hs d),
  )

  Distinct-add_hit :
      (side : Bool) (row rank : ℕ) (c : f.F32) (hits : List (FusedHit f))
      → Distinct hits
      → Distinct (add_hit f side row rank c hits)
  Distinct-add_hit side row rank c [] d = unfold add_hit in (refl, tt)
  Distinct-add_hit side row rank c (h ∷ hs) (fresh, d) = elim (Bool-cases (h.row == row)) [
    | inl e ↦ rw (add_hit_here f side row rank c h hs e) (unfold another_hit in (fresh, d))
    | inr e ↦
        let other : (row == h.row) ≡ false =
          ==_of_ne row h.row (λ same. cc (e, ==_refl h.row, same)) in
        rw (add_hit_there f side row rank c h hs e) (
          get_hit-add_hit f side h.row row rank c hs ∙ rw other fresh,
          Distinct-add_hit side row rank c hs d,
        )
  ]

  Distinct-contribute :
      (k : ℕ) (side : Bool) (rank : ℕ) (rows : List ℕ) (hits : List (FusedHit f))
      → Distinct hits
      → Distinct (contribute f k side rank rows hits)
  unfolding contribute
  Distinct-contribute k side rank [] hits d = d
  Distinct-contribute k side rank (row ∷ rows) hits d =
      Distinct-contribute k side (suc rank) rows
        (add_hit f side row rank (f.reciprocal k rank) hits)
        (Distinct-add_hit side row rank (f.reciprocal k rank) hits d)

  All-insert_hit :
      (P : FusedHit f → Type 0) (a : FusedHit f) (hits : List (FusedHit f))
      → P a
      → All P hits
      → All P (insert_hit f a hits)
  unfolding insert_hit
  All-insert_hit P a [] ha h = (ha, tt)
  All-insert_hit P a (b ∷ hs) ha (hb, h) = elim (Ordering-cases (cmp_hits f a b)) [
    | inl e ↦ rw (e, insert_hit) (ha, (hb, h))
    | inr (inl e) ↦ rw (e, insert_hit) (ha, (hb, h))
    | inr (inr e) ↦ rw (e, insert_hit) (hb, All-insert_hit P a hs ha h)
  ]

  All-sort_hits :
      (P : FusedHit f → Type 0) (hits : List (FusedHit f)) → All P hits → All P (sort_hits f hits)
  unfolding sort_hits
  All-sort_hits P [] h = tt
  All-sort_hits P (a ∷ hs) (ha, h) = All-insert_hit P a (sort_hits f hs) ha (All-sort_hits P hs h)

  -- Both ranks of a hit are the ones of its row in the two rankings.
  abbrev pub HasRanks : List ℕ → List ℕ → FusedHit f → Type 0
  HasRanks vector lexical h =
      (h.vector_rank ≡ last_rank h.row 1 vector) × (h.lexical_rank ≡ last_rank h.row 1 lexical)

  contributed-HasRanks :
      (k : ℕ) (vector lexical : List ℕ)
      → All (HasRanks vector lexical) (contributed f k vector lexical)
  unfolding contributed
  contributed-HasRanks k vector lexical =
      let first = contribute f k false 1 vector [] in
      let hits = contribute f k true 1 lexical first in
      All-imp (HeldIn hits) (HasRanks vector lexical) hits
        (λ h held. (
          ap (vector_of f) (sym held)
              ∙ vector_of-contribute_lexical f k h.row 1 lexical first
              ∙ vector_of-contribute f k h.row 1 vector []
              ∙ or_else-none (last_rank h.row 1 vector),
          ap (lexical_of f) (sym held)
              ∙ lexical_of-contribute f k h.row 1 lexical first
              ∙ ap (or_else (last_rank h.row 1 lexical))
                  (lexical_of-contribute_vector f k h.row 1 vector [])
              ∙ or_else-none (last_rank h.row 1 lexical),
        ))
        (Distinct-HeldIn hits
          (Distinct-contribute k true 1 lexical first (Distinct-contribute k false 1 vector [] tt)))

  -- Every hit of a fused ranking carries the ranks that its row has in the two rankings that were fused,
  -- counted from one; none on a side that does not hold the row, and the last where a side holds it twice.
  pub fuse-HasRanks :
      (vector lexical : List ℕ) (documents limit : ℕ)
      → All (HasRanks vector lexical) (fuse f vector lexical documents limit).hits
  unfolding fuse
  fuse-HasRanks vector lexical documents limit =
      All-take (HasRanks vector lexical) limit
        (sort_hits f (contributed f (choose_k documents) vector lexical))
        (All-sort_hits (HasRanks vector lexical) (contributed f (choose_k documents) vector lexical)
          (contributed-HasRanks (choose_k documents) vector lexical))
