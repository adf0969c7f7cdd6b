-- ===== src/Fusion/Ranks.antt =====
-- Which rows a fused ranking holds, and with which ranks: crates/euledb-storage/src/fusion.rs.
use eule_db.Common.{
  ℕ, suc, ◌≡◌, refl, ap, sym, ◌∙◌, List, [], ◌∷◌, Bool, true, false, Option, some, none, ◌==◌,
  ==_iff, if◌then◌else◌, Bool-cases, inl, inr,
}
use eule_db.Fusion.{Float32, FusedHit, first_hit, another_hit, add_hit, contribute}

-- The rank of a row in a ranking, counted from `rank`; the last one where the row stands twice.
abbrev pub last_rank : ℕ → ℕ → List ℕ → Option ℕ
last_rank row rank [] = none
last_rank row rank (r ∷ rows) = elim (last_rank row (suc rank) rows) [
  | some n ↦ some n
  | none ↦ if r == row then some rank else none
]

-- The first of two optional values.
abbrev pub or_else : Option ℕ → Option ℕ → Option ℕ
or_else (some n) o = some n
or_else none o = o

or_else_assoc : (a b c : Option ℕ) → or_else (or_else a b) c ≡ or_else a (or_else b c)
or_else_assoc (some n) b c = refl
or_else_assoc none b c = refl

module _ (f : Float32) where
  abbrev pub get_hit : ℕ → List (FusedHit f) → Option (FusedHit f)
  get_hit row [] = none
  get_hit row (h ∷ hs) = if h.row == row then some h else get_hit row hs

  abbrev pub vector_of : Option (FusedHit f) → Option ℕ
  vector_of none = none
  vector_of (some h) = h.vector_rank

  abbrev pub lexical_of : Option (FusedHit f) → Option ℕ
  lexical_of none = none
  lexical_of (some h) = h.lexical_rank

  -- What `add_hit` makes of the hit of its own row.
  abbrev pub touched : Bool → ℕ → ℕ → f.F32 → Option (FusedHit f) → FusedHit f
  touched side row rank c none = first_hit f side row rank c
  touched side row rank c (some h) = another_hit f side rank c h

  pub add_hit_here :
      (side : Bool) (row rank : ℕ) (c : f.F32) (h : FusedHit f) (hs : List (FusedHit f))
      → (h.row == row) ≡ true
      → add_hit f side row rank c (h ∷ hs) ≡ another_hit f side rank c h ∷ hs
  unfolding add_hit
  add_hit_here side row rank c h hs e = rw (e, add_hit) refl

  pub add_hit_there :
      (side : Bool) (row rank : ℕ) (c : f.F32) (h : FusedHit f) (hs : List (FusedHit f))
      → (h.row == row) ≡ false
      → add_hit f side row rank c (h ∷ hs) ≡ h ∷ add_hit f side row rank c hs
  unfolding add_hit
  add_hit_there side row rank c h hs e = rw (e, add_hit) refl

  pub get_hit-add_hit :
      (side : Bool) (r row rank : ℕ) (c : f.F32) (hits : List (FusedHit f))
      → get_hit r (add_hit f side row rank c hits)
        ≡ (if row == r then some (touched side row rank c (get_hit row hits)) else get_hit r hits)
  unfolding another_hit
  get_hit-add_hit side r row rank c [] = unfold add_hit first_hit in refl
  get_hit-add_hit side r row rank c (h ∷ hs) = elim (Bool-cases (h.row == row)) [
    | inl e ↦
        let same : (h.row == r) ≡ (row == r) = ap (λ t. t == r) ((==_iff h.row row).0 e) in
        rw (add_hit_here side row rank c h hs e, e, same)
          (elim (Bool-cases (row == r)) [ inl g ↦ rw g refl | inr g ↦ rw g refl ])
    | inr e ↦ elim (Bool-cases (row == r)) [
      | inl g ↦
          let other : (h.row == r) ≡ false = ap (λ t. h.row == t) (sym ((==_iff row r).0 g)) ∙ e in
          rw (add_hit_there side row rank c h hs e, e, g, other)
            (get_hit-add_hit side r row rank c hs ∙ rw g refl)
      | inr g ↦
          rw (add_hit_there side row rank c h hs e, g)
            (ap (λ t. if h.row == r then some h else t)
              (get_hit-add_hit side r row rank c hs ∙ rw g refl))
    ]
  ]

  -- What one contribution of a side says of that side's rank, and of the other's.
  own_step :
      (o : Option ℕ) (b : Bool) (row rank : ℕ) (c : f.F32) (g t : Option (FusedHit f))
      → or_else o (vector_of (if b then some (touched false row rank c t) else g))
        ≡ or_else (elim o [ some n ↦ some n | none ↦ if b then some rank else none ]) (vector_of g)
  unfolding first_hit another_hit
  own_step (some n) b row rank c g t = refl
  own_step none false row rank c g t = refl
  own_step none true row rank c g none = refl
  own_step none true row rank c g (some h) = refl

  lexical_step :
      (o : Option ℕ) (b : Bool) (row rank : ℕ) (c : f.F32) (g t : Option (FusedHit f))
      → or_else o (lexical_of (if b then some (touched true row rank c t) else g))
        ≡ or_else (elim o [ some n ↦ some n | none ↦ if b then some rank else none ]) (lexical_of g)
  unfolding first_hit another_hit
  lexical_step (some n) b row rank c g t = refl
  lexical_step none false row rank c g t = refl
  lexical_step none true row rank c g none = refl
  lexical_step none true row rank c g (some h) = refl

  touched-vector :
      (row rank : ℕ) (c : f.F32) (t : Option (FusedHit f))
      → (touched true row rank c t).vector_rank ≡ vector_of t
  unfolding first_hit another_hit
  touched-vector row rank c none = refl
  touched-vector row rank c (some h) = refl

  touched-lexical :
      (row rank : ℕ) (c : f.F32) (t : Option (FusedHit f))
      → (touched false row rank c t).lexical_rank ≡ lexical_of t
  unfolding first_hit another_hit
  touched-lexical row rank c none = refl
  touched-lexical row rank c (some h) = refl

  -- The ranks on the side that contributes: the last rank counts.
  pub vector_of-contribute :
      (k r rank : ℕ) (rows : List ℕ) (hits : List (FusedHit f))
      → vector_of (get_hit r (contribute f k false rank rows hits))
        ≡ or_else (last_rank r rank rows) (vector_of (get_hit r hits))
  unfolding contribute
  vector_of-contribute k r rank [] hits = refl
  vector_of-contribute k r rank (row ∷ rows) hits =
      vector_of-contribute k r (suc rank) rows (add_hit f false row rank (f.reciprocal k rank) hits)
      ∙ ap (λ t. or_else (last_rank r (suc rank) rows) (vector_of t))
          (get_hit-add_hit false r row rank (f.reciprocal k rank) hits)
      ∙ own_step (last_rank r (suc rank) rows) (row == r) row rank (f.reciprocal k rank)
          (get_hit r hits) (get_hit row hits)

  pub lexical_of-contribute :
      (k r rank : ℕ) (rows : List ℕ) (hits : List (FusedHit f))
      → lexical_of (get_hit r (contribute f k true rank rows hits))
        ≡ or_else (last_rank r rank rows) (lexical_of (get_hit r hits))
  unfolding contribute
  lexical_of-contribute k r rank [] hits = refl
  lexical_of-contribute k r rank (row ∷ rows) hits =
      lexical_of-contribute k r (suc rank) rows (add_hit f true row rank (f.reciprocal k rank) hits)
      ∙ ap (λ t. or_else (last_rank r (suc rank) rows) (lexical_of t))
          (get_hit-add_hit true r row rank (f.reciprocal k rank) hits)
      ∙ lexical_step (last_rank r (suc rank) rows) (row == r) row rank (f.reciprocal k rank)
          (get_hit r hits) (get_hit row hits)

  -- The ranks on the other side stay.
  other_step :
      (b : Bool) (t g : Option (FusedHit f)) (n : Option ℕ)
      → (b ≡ true → n ≡ vector_of g)
      → (h : FusedHit f) → h.vector_rank ≡ n
      → vector_of (if b then some h else g) ≡ vector_of g
  other_step true t g n k h e = e ∙ k refl
  other_step false t g n k h e = refl

  pub vector_of-contribute_lexical :
      (k r rank : ℕ) (rows : List ℕ) (hits : List (FusedHit f))
      → vector_of (get_hit r (contribute f k true rank rows hits)) ≡ vector_of (get_hit r hits)
  unfolding contribute
  vector_of-contribute_lexical k r rank [] hits = refl
  vector_of-contribute_lexical k r rank (row ∷ rows) hits =
      let c = f.reciprocal k rank in
      vector_of-contribute_lexical k r (suc rank) rows (add_hit f true row rank c hits)
      ∙ ap vector_of (get_hit-add_hit true r row rank c hits)
      ∙ other_step (row == r) (get_hit row hits) (get_hit r hits) (vector_of (get_hit row hits))
          (λ e. ap (λ t. vector_of (get_hit t hits)) ((==_iff row r).0 e))
          (touched true row rank c (get_hit row hits))
          (touched-vector row rank c (get_hit row hits))

  other_step_lexical :
      (b : Bool) (t g : Option (FusedHit f)) (n : Option ℕ)
      → (b ≡ true → n ≡ lexical_of g)
      → (h : FusedHit f) → h.lexical_rank ≡ n
      → lexical_of (if b then some h else g) ≡ lexical_of g
  other_step_lexical true t g n k h e = e ∙ k refl
  other_step_lexical false t g n k h e = refl

  pub lexical_of-contribute_vector :
      (k r rank : ℕ) (rows : List ℕ) (hits : List (FusedHit f))
      → lexical_of (get_hit r (contribute f k false rank rows hits)) ≡ lexical_of (get_hit r hits)
  unfolding contribute
  lexical_of-contribute_vector k r rank [] hits = refl
  lexical_of-contribute_vector k r rank (row ∷ rows) hits =
      let c = f.reciprocal k rank in
      lexical_of-contribute_vector k r (suc rank) rows (add_hit f false row rank c hits)
      ∙ ap lexical_of (get_hit-add_hit false r row rank c hits)
      ∙ other_step_lexical (row == r) (get_hit row hits) (get_hit r hits)
          (lexical_of (get_hit row hits))
          (λ e. ap (λ t. lexical_of (get_hit t hits)) ((==_iff row r).0 e))
          (touched false row rank c (get_hit row hits))
          (touched-lexical row rank c (get_hit row hits))
