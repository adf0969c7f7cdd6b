-- ===== src/Table/Vectors/Rebuild/Entries.antt =====
-- The vectors that a list holds of a row: crates/euledb-storage/src/store.rs.
use mathlib.Core.List.{append-nil}
use eule_db.Common.{
  ℕ, List, [], ◌∷◌, ◌++◌, All, length, map, true, false, ◌==◌, Bool-cases, if◌then◌else◌,
}
use eule_db.Common.{Result, ok, err, ◌≡◌, refl, sym, ap, ◌∙◌, arith, inl, inr}
use eule_db.Common.Text.{Text}
use eule_db.Measurement.{is_member}
use eule_db.Table.Op.{answer-eq}
use eule_db.Table.Vectors.{vector_width, RowVector}
use eule_db.Table.Vectors.Rebuild.{kept_for, or_embedding_failed}

-- No row is there twice.
abbrev pub Distinct : List ℕ → Type 0
Distinct [] = Unit {0}
Distinct (r ∷ rs) = (is_member r rs ≡ false) × Distinct rs

pub member_later : (x r : ℕ) (xs : List ℕ) → is_member r xs ≡ true → is_member r (x ∷ xs) ≡ true
member_later x r xs h = elim (Bool-cases (x == r)) [ inl e ↦ rw e refl | inr e ↦ rw e h ]

-- What holds of the rows that are not a given one.
pub differ-All :
    (P Q : ℕ × Text → Type 0) (row : ℕ) (rest : List (ℕ × Text))
    → is_member row (map (λ x. x.0) rest) ≡ false
    → ((x : ℕ × Text) → (x.0 == row) ≡ false → P x → Q x)
    → All P rest
    → All Q rest
differ-All P Q row [] absent f h = tt
differ-All P Q row (x ∷ rest) absent f (h, hs) = elim (Bool-cases (x.0 == row)) [
  | inl e ↦ cc (rw e at absent)
  | inr e ↦ (f x e h, differ-All P Q row rest (rw e at absent) f hs)
]

module _ {F : Type 0} where
  pub kept_for_nil : (r : ℕ) → kept_for {F = F} r [] ≡ []
  unfolding kept_for
  kept_for_nil r = refl

  pub kept_for_here :
      (v : RowVector F) (rest : List (RowVector F)) (r : ℕ)
      → (v.row == r) ≡ true
      → kept_for r (v ∷ rest) ≡ v.embedding ∷ kept_for r rest
  unfolding kept_for
  kept_for_here v rest r e = rw e refl

  pub kept_for_there :
      (v : RowVector F) (rest : List (RowVector F)) (r : ℕ)
      → (v.row == r) ≡ false
      → kept_for r (v ∷ rest) ≡ kept_for r rest
  unfolding kept_for
  kept_for_there v rest r e = rw e refl

  pub kept_for-append :
      (r : ℕ) (vs ws : List (RowVector F)) → kept_for r (vs ++ ws) ≡ kept_for r vs ++ kept_for r ws
  unfolding kept_for
  kept_for-append r [] ws = refl
  kept_for-append r (v ∷ vs) ws = elim (Bool-cases (v.row == r)) [
    | inl e ↦ rw e (ap (λ z. v.embedding ∷ z) (kept_for-append r vs ws))
    | inr e ↦ rw e (kept_for-append r vs ws)
  ]

  -- A row that no vector is of keeps nothing.
  pub kept_for_none :
      (r : ℕ) (rows : List ℕ) (vs : List (RowVector F))
      → is_member r rows ≡ false
      → All (λ v. is_member v.row rows ≡ true) vs
      → kept_for r vs ≡ []
  unfolding kept_for
  kept_for_none r rows [] absent h = refl
  kept_for_none r rows (v ∷ vs) absent (here, there) = elim (Bool-cases (v.row == r)) [
    | inl e ↦ let same : v.row ≡ r = ground arith in cc (rw same at here)
    | inr e ↦ rw e (kept_for_none r rows vs absent there)
  ]

  pub kept_for_only :
      (r : ℕ) (vs ws : List (RowVector F))
      → kept_for r ws ≡ []
      → kept_for r vs ≡ kept_for r (vs ++ ws)
  kept_for_only r vs ws e =
      sym (kept_for-append r vs ws ∙ (ap (λ z. kept_for r vs ++ z) e ∙ append-nil _))

  pub kept_for_others :
      (r : ℕ) (vs ws : List (RowVector F))
      → kept_for r vs ≡ []
      → kept_for r (vs ++ ws) ≡ kept_for r ws
  kept_for_others r vs ws e = kept_for-append r vs ws ∙ ap (λ z. z ++ kept_for r ws) e

  -- The embeddings of the vectors that are of a row, in their order.
  abbrev pub embeddings_in : ℕ → List (RowVector F) → List (List F)
  embeddings_in row [] = []
  embeddings_in row (v ∷ vs) =
      if v.row == row then v.embedding ∷ embeddings_in row vs else embeddings_in row vs

  pub kept_for-embeddings_in :
      (r : ℕ) (vs : List (RowVector F)) → kept_for r vs ≡ embeddings_in r vs
  unfolding kept_for
  kept_for-embeddings_in r [] = refl
  kept_for-embeddings_in r (v ∷ vs) = elim (Bool-cases (v.row == r)) [
    | inl e ↦ rw e (ap (λ z. v.embedding ∷ z) (kept_for-embeddings_in r vs))
    | inr e ↦ rw e (kept_for-embeddings_in r vs)
  ]

  pub append-All :
      (P : RowVector F → Type 0) (vs ws : List (RowVector F))
      → All P vs
      → All P ws
      → All P (vs ++ ws)
  append-All P [] ws h k = k
  append-All P (v ∷ vs) ws (x, h) k = (x, append-All P vs ws h k)

  pub map-All :
      (P Q : RowVector F → Type 0) (vs : List (RowVector F))
      → ((v : RowVector F) → P v → Q v)
      → All P vs
      → All Q vs
  map-All P Q [] f h = tt
  map-All P Q (v ∷ vs) f (x, h) = (f v x, map-All P Q vs f h)

  -- What a vector of the answer is: of a row that is present, and of the width.
  abbrev pub IsFor : List (ℕ × Text) → RowVector F → Type 0
  IsFor present v =
      (is_member v.row (map (λ x. x.0) present) ≡ true) × (length v.embedding ≡ vector_width)

module _ {S A : Type 0} where
  pub or_embedding_failed-answers :
      (table : Text) (r : Result Text A) (s : S) (a : A) (u : S)
      → or_embedding_failed table r s ≡ (ok a, u)
      → r ≡ ok a
  or_embedding_failed-answers table (ok b) s a u h = ap ok (answer-eq s u h)
  or_embedding_failed-answers table (err c) s a u h = cc
