-- ===== src/Schema/Validate.antt =====
-- Which batches a schema lets through, and which columns embed: crates/euledb-storage/src/schema.rs.
use eule_db.Common.{List, [], ◌∷◌, Bool, true, false, not, ◌&&◌, Option, some, none}
use eule_db.Common.{◌≡◌, refl, sym, ap, ◌∙◌, subst, ◌⊎◌, inl, inr, Option-cases}
use eule_db.Common.{ok, refuse_if, >>=-eq-ok}
use eule_db.Common.Text.{Text}
use eule_db.Schema.{Field, check_column, check_declared, check_present, validate}

module _ {DataType : Type 0} where
  -- A field is one of a list.
  abbrev pub Among : Field DataType → List (Field DataType) → Type 0
  Among f [] = ⊥
  Among f (g ∷ gs) = (f ≡ g) ⊎ Among f gs

  -- A column of the batch fits a declared one: its name and type, and nulls only where they are declared.
  pub record Fits (declared found : Field DataType) : Type 0 where
    pub same_name : found.name ≡ declared.name
    pub same_type : found.data_type ≡ declared.data_type
    pub not_looser : (found.nullable ≡ false) ⊎ (declared.nullable ≡ true)

  -- Every declared column has one in the batch that fits, and the batch has no other names.
  pub record Admits (schema present : List (Field DataType)) : Type 0 where
    pub complete :
        (d : Field DataType) → Among d schema → (c : Field DataType) × Among c present × Fits d c
    pub declared_only :
        (c : Field DataType)
        → Among c present
        → (d : Field DataType) × Among d schema × (d.name ≡ c.name)

-- What is relied on of the search of a column by name, and of the equality of types.
pub record IsSearch (DataType : Type 0) (eq_type : DataType → DataType → Bool)
    (column_with_name : List (Field DataType) → Text → Option (Field DataType)) : Type 0 where
  pub found_among :
      (fields : List (Field DataType)) (name : Text) (c : Field DataType)
      → column_with_name fields name ≡ some c
      → Among c fields × (c.name ≡ name)
  pub eq_of_eq_type : (a b : DataType) → eq_type a b ≡ true → a ≡ b

nullable_cases : (a b : Bool) → (a && not b) ≡ false → (a ≡ false) ⊎ (b ≡ true)
nullable_cases false b h = inl refl
nullable_cases true true h = inr refl
nullable_cases true false h = cc

refuse-eq-ok : {E : Type 0} (t : Bool) (e : E) → refuse_if t e ≡ ok tt → t ≡ false
refuse-eq-ok true e h = cc
refuse-eq-ok false e h = refl

true_of_not : (b : Bool) → not b ≡ false → b ≡ true
true_of_not true h = refl
true_of_not false h = cc

module _ (DataType : Type 0) (eq_type : DataType → DataType → Bool)
    (column_with_name : List (Field DataType) → Text → Option (Field DataType))
    (search : IsSearch DataType eq_type column_with_name) where
  check_column-Fits :
      (d c : Field DataType)
      → c.name ≡ d.name
      → check_column DataType eq_type column_with_name d (some c) ≡ ok tt
      → Fits d c
  unfolding check_column
  check_column-Fits d c same h =
      let (_, typed, h₁) = >>=-eq-ok (refuse_if (not (eq_type c.data_type d.data_type)) _) _ h in
      record {
        same_name = same;
        same_type =
            search.eq_of_eq_type c.data_type d.data_type (true_of_not _ (refuse-eq-ok _ _ typed));
        not_looser = nullable_cases c.nullable d.nullable (refuse-eq-ok _ _ h₁);
      }

  missing : (d : Field DataType) → ¬ (check_column DataType eq_type column_with_name d none ≡ ok tt)
  unfolding check_column
  missing d h = cc

  check_column-found :
      (d : Field DataType) (present : List (Field DataType))
      → check_column DataType eq_type column_with_name d (column_with_name present d.name) ≡ ok tt
      → (c : Field DataType) × Among c present × Fits d c
  check_column-found d present h = elim (Option-cases (column_with_name present d.name)) [
    | inl none_eq ↦ absurd (missing d (rw none_eq at h))
    | inr (c, found) ↦
        let (there, named) = search.found_among present d.name c found in
        (c, there, check_column-Fits d c named (rw found at h))
  ]

  check_declared-complete :
      (schema present : List (Field DataType))
      → check_declared DataType eq_type column_with_name schema present ≡ ok tt
      → (d : Field DataType) → Among d schema
      → (c : Field DataType) × Among c present × Fits d c
  unfolding check_declared
  check_declared-complete [] present h d among = elim among [ ]
  check_declared-complete (s ∷ rest) present h d among =
      let (_, first, h₁) =
        >>=-eq-ok
          (check_column DataType eq_type column_with_name s (column_with_name present s.name)) _
          h in
      elim among [
        | inl e ↦
            subst (λ t. (c : Field DataType) × Among c present × Fits t c) (sym e)
              (check_column-found s present first)
        | inr later ↦ check_declared-complete rest present h₁ d later
      ]

  check_present-declared :
      (schema present : List (Field DataType))
      → check_present DataType eq_type column_with_name schema present ≡ ok tt
      → (c : Field DataType) → Among c present
      → (d : Field DataType) × Among d schema × (d.name ≡ c.name)
  unfolding check_present
  check_present-declared schema [] h c among = elim among [ ]
  check_present-declared schema (f ∷ rest) h c among =
      elim (Option-cases (column_with_name schema f.name)) [
        | inl none_eq ↦ cc (rw (none_eq, check_present) at h)
        | inr (d, found) ↦ elim among [
          | inl e ↦
              let (there, named) = search.found_among schema f.name d found in
              (d, there, named ∙ ap (λ (t : Field DataType). t.name) (sym e))
          | inr later ↦ check_present-declared schema rest (rw (found, check_present) at h) c later
        ]
      ]

  -- A batch that `validate` lets through has, for every declared column, one of its name and type that
  -- allows nulls only where they are declared, and no column that is not declared.
  pub validate-Admits :
      (schema present : List (Field DataType))
      → validate DataType eq_type column_with_name schema present ≡ ok tt
      → Admits schema present
  unfolding validate
  validate-Admits schema present h =
      let (_, declared, h₁) =
        >>=-eq-ok (check_declared DataType eq_type column_with_name schema present) _ h in
      record {
        complete = check_declared-complete schema present declared;
        declared_only = check_present-declared schema present h₁;
      }
