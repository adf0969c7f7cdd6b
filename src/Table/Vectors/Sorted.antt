-- ===== src/Table/Vectors/Sorted.antt =====
-- The order in which the vectors of a column are answered: crates/euledb-storage/src/store.rs.
use mathlib.Core.List.{Perm}
use mathlib.Core.List.Perm
use eule_db.Common.{◌≤◌, List, [], ◌∷◌, All, true, false, Bool-cases, ok, ◌≡◌, arith, inl, inr}
use eule_db.Common.Text.{Text}
use eule_db.Crypto.Platform.{Platform}
use eule_db.Audit.Log.{Io}
use eule_db.Table.Lance.{Lance}
use eule_db.Table.Op.{bind-Answers, done-Answers}
use eule_db.Table.Handle.{World, LanceStore, vector_table, open_table, require_scope}
use eule_db.Table.Reads.{collect}
use eule_db.Crypto.Capability.{Scope}
use eule_db.Table.Vectors.{
  RowVector, key_below, insert_vector, sort_vectors, read_vectors, vectors_of,
}

module _ {F : Type 0} where
  -- No vector comes before one with a lesser key.
  abbrev IsSorted : List (RowVector F) → Type 0
  IsSorted [] = Unit {0}
  IsSorted (v ∷ rest) = All (λ w. key_below w v ≡ false) rest × IsSorted rest

  key_below_asym : (v w : RowVector F) → key_below w v ≡ true → key_below v w ≡ false
  key_below_asym v w h = ground arith

  key_below_trans :
      (v w x : RowVector F) → key_below w v ≡ false → key_below x w ≡ false → key_below x v ≡ false
  key_below_trans v w x h k = ground arith

  below-All :
      (v w : RowVector F) (rest : List (RowVector F))
      → key_below w v ≡ false
      → All (λ x. key_below x w ≡ false) rest
      → All (λ x. key_below x v ≡ false) rest
  below-All v w [] h k = tt
  below-All v w (x ∷ rest) h (k, ks) = (key_below_trans v w x h k, below-All v w rest h ks)

  insert_vector-All :
      (P : RowVector F → Type 0) (v : RowVector F) (vs : List (RowVector F))
      → P v
      → All P vs
      → All P (insert_vector v vs)
  unfolding insert_vector
  insert_vector-All P v [] h k = (h, tt)
  insert_vector-All P v (w ∷ rest) h (k, ks) = elim (Bool-cases (key_below w v)) [
    | inl e ↦ rw e (k, insert_vector-All P v rest h ks)
    | inr e ↦ rw e (h, (k, ks))
  ]

  insert_vector-IsSorted :
      (v : RowVector F) (vs : List (RowVector F)) → IsSorted vs → IsSorted (insert_vector v vs)
  unfolding insert_vector
  insert_vector-IsSorted v [] h = (tt, tt)
  insert_vector-IsSorted v (w ∷ rest) (h, hs) = elim (Bool-cases (key_below w v)) [
    | inl e ↦ rw e (
      insert_vector-All (λ x. key_below x w ≡ false) v rest (key_below_asym v w e) h,
      insert_vector-IsSorted v rest hs,
    )
    | inr e ↦ rw e ((e, below-All v w rest e h), (h, hs))
  ]

  sort_vectors-IsSorted : (vs : List (RowVector F)) → IsSorted (sort_vectors vs)
  unfolding sort_vectors
  sort_vectors-IsSorted [] = tt
  sort_vectors-IsSorted (v ∷ vs) =
      insert_vector-IsSorted v (sort_vectors vs) (sort_vectors-IsSorted vs)

  -- Nothing is lost or added.
  insert_vector-Perm :
      (v : RowVector F) (vs : List (RowVector F)) → Perm (insert_vector v vs) (v ∷ vs)
  unfolding insert_vector
  insert_vector-Perm v [] = Perm.refl (v ∷ [])
  insert_vector-Perm v (w ∷ rest) = elim (Bool-cases (key_below w v)) [
    | inl e ↦ rw e (Perm.trans (Perm.cons w (insert_vector-Perm v rest)) (Perm.swap v w rest))
    | inr e ↦ rw e (Perm.refl (v ∷ w ∷ rest))
  ]

  pub sort_vectors-Perm : (vs : List (RowVector F)) → Perm (sort_vectors vs) vs
  unfolding sort_vectors
  sort_vectors-Perm [] = Perm.refl []
  sort_vectors-Perm (v ∷ vs) =
      Perm.trans (insert_vector-Perm v (sort_vectors vs)) (Perm.cons v (sort_vectors-Perm vs))

  -- Of two vectors the row of the former is at most that of the latter, and of one row its chunk.
  abbrev pub IsOrdered : List (RowVector F) → Type 0
  IsOrdered [] = Unit {0}
  IsOrdered (v ∷ rest) =
      All (λ w. (v.row ≤ w.row) × (v.row ≡ w.row → v.chunk ≤ w.chunk)) rest × IsOrdered rest

  key_below-bounds :
      (v w : RowVector F)
      → key_below w v ≡ false
      → (v.row ≤ w.row) × (v.row ≡ w.row → v.chunk ≤ w.chunk)
  key_below-bounds v w h = (ground arith, λ same. ground arith)

  bounds-All :
      (v : RowVector F) (ws : List (RowVector F))
      → All (λ w. key_below w v ≡ false) ws
      → All (λ w. (v.row ≤ w.row) × (v.row ≡ w.row → v.chunk ≤ w.chunk)) ws
  bounds-All v [] h = tt
  bounds-All v (w ∷ ws) (h, hs) = (key_below-bounds v w h, bounds-All v ws hs)

  IsSorted-IsOrdered : (vs : List (RowVector F)) → IsSorted vs → IsOrdered vs
  IsSorted-IsOrdered [] h = tt
  IsSorted-IsOrdered (v ∷ vs) (h, hs) = (bounds-All v vs h, IsSorted-IsOrdered vs hs)

module _ (p : Platform) (io : Io) {l : Lance} (h : LanceStore l) where
  -- The vectors that a column answers with are in the order of their rows, and those of one row in the order
  -- of their chunks.
  pub vectors_of-IsOrdered :
      (table column : Text) (s : World l) (vs : List (RowVector l.F32)) (t : World l)
      → vectors_of p io h table column s ≡ (ok vs, t)
      → IsOrdered vs
  unfolding vectors_of
  vectors_of-IsOrdered table column =
      bind-Answers IsOrdered (require_scope p io h Scope.read table) _ (λ u.
        bind-Answers IsOrdered (open_table h (vector_table table column)) _ (λ dataset.
          bind-Answers IsOrdered (collect (l.scanner dataset) table) _ (λ batches.
            bind-Answers IsOrdered (read_vectors "read the vectors of" table batches) _ (λ read.
              done-Answers IsOrdered (sort_vectors read)
                (IsSorted-IsOrdered (sort_vectors read) (sort_vectors-IsSorted read))))))
