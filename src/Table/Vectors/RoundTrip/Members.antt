-- ===== src/Table/Vectors/RoundTrip/Members.antt =====
-- The rows of a `BTreeSet` of row ids: crates/euledb-storage/src/store.rs.
use eule_db.Common.{
  Bool, false, ltb, ◌==◌, ==_iff, ◌||◌, Bool-cases, inl, inr, ℕ, List, [], ◌∷◌, true, ◌≡◌, refl,
  sym, ap, ◌∙◌,
}
use eule_db.Table.Vectors.Rebuild.{row_set, insert_row}
use eule_db.Measurement.{is_member}

is_member-insert_row :
    (r x : ℕ) (xs : List ℕ) → is_member r (insert_row x xs) ≡ is_member r (x ∷ xs)
unfolding insert_row
is_member-insert_row r x [] = refl
is_member-insert_row r x (y ∷ ys) = elim (Bool-cases (ltb x y)) [
  | inl e ↦ rw e refl
  | inr e ↦ elim (Bool-cases (x == y)) [
    | inl f ↦ rw (e, f) (twice (x == r) (y == r) _ (ap (λ z. z == r) ((==_iff x y).0 f)))
    | inr f ↦
        rw (e, f)
          (ap (λ z. y == r || z) (is_member-insert_row r x ys)
            ∙ exchange (y == r) (x == r) (is_member r ys))
  ]
]
  where
    twice : (a b c : Bool) → a ≡ b → (b || c) ≡ (a || (b || c))
    twice true b c h = rw (← h) refl
    twice false b c h = refl

    exchange : (a b c : Bool) → (a || (b || c)) ≡ (b || (a || c))
    exchange true true c = refl
    exchange true false c = refl
    exchange false b c = refl

is_member-row_set : (r : ℕ) (xs : List ℕ) → is_member r (row_set xs) ≡ is_member r xs
unfolding row_set
is_member-row_set r [] = refl
is_member-row_set r (x ∷ xs) =
    is_member-insert_row r x (row_set xs) ∙ ap (λ z. x == r || z) (is_member-row_set r xs)

pub same_rows :
    (xs ys : List ℕ) → row_set xs ≡ row_set ys → (r : ℕ) → is_member r xs ≡ is_member r ys
same_rows xs ys h r = sym (is_member-row_set r xs) ∙ (ap (is_member r) h ∙ is_member-row_set r ys)
