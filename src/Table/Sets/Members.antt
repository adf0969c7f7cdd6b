-- ===== src/Table/Sets/Members.antt =====
-- Which rows a combination of predicates selects: crates/euledb-storage/src/store.rs and measurement.rs.
use Prim.Native.String.{String}
use eule_db.Common.{
  All, ℕ, List, [], ◌∷◌, Bool, true, false, ◌&&◌, ◌||◌, Result, ok, err, ◌≡◌, refl, sym, ap, ◌∙◌,
  subst,
}
use eule_db.Common.Text.{Text}
use eule_db.Crypto.Platform.{Platform}
use eule_db.Audit.Log.{Io}
use eule_db.Measurement.{Bitmap, IsBitmap, is_member, intersect_all, union_all}
use eule_db.Table.Lance.{Lance}
use eule_db.Table.Error.{Error}
use eule_db.Table.Op.{done, ◌>>=◌, after-answers, answer-eq}
use eule_db.Table.Handle.{World, LanceStore}
use eule_db.Table.Reads.{row_ids}
use eule_db.Table.Sets.{
  CandidateSource, filtered_search, sets_of, each_set, row_ids_all, row_ids_any,
}
use eule_db.Table.Footprint.{whole}
use eule_db.Table.Footprint.Calls.{row_ids-Keeps}

-- Whether an answer has a row.
abbrev pub has_row : {S : Type 0} → ℕ → Result Error (List ℕ) × S → Bool
has_row r (ok rows, s) = is_member r rows
has_row r (err e, s) = false

and_assoc : (x y z : Bool) → ((x && y) && z) ≡ (x && (y && z))
and_assoc true y z = refl
and_assoc false y z = refl

or_assoc : (x y z : Bool) → ((x || y) || z) ≡ (x || (y || z))
or_assoc true y z = refl
or_assoc false y z = refl

module _ (b : Bitmap) where
  -- Membership in every one of the sets, and in any.
  abbrev pub in_all : List b.Rows → ℕ → Bool
  in_all [] r = true
  in_all (t ∷ ts) r = b.contains t r && in_all ts r

  abbrev pub in_any : List b.Rows → ℕ → Bool
  in_any [] r = false
  in_any (t ∷ ts) r = b.contains t r || in_any ts r

module _ (b : Bitmap) (law : IsBitmap b) where
  intersect_all-contains :
      (first : b.Rows) (rest : List b.Rows) (r : ℕ)
      → b.contains (intersect_all b first rest) r ≡ (b.contains first r && in_all b rest r)
  unfolding intersect_all
  intersect_all-contains first [] r = and_true (b.contains first r)
    where
      and_true : (x : Bool) → x ≡ (x && true)
      and_true true = refl
      and_true false = refl
  intersect_all-contains first (t ∷ ts) r =
      intersect_all-contains (b.both first t) ts r
      ∙ (ap (λ z. z && in_all b ts r) (law.contains_both first t r)
          ∙ and_assoc (b.contains first r) (b.contains t r) (in_all b ts r))

  union_all-contains :
      (first : b.Rows) (rest : List b.Rows) (r : ℕ)
      → b.contains (union_all b first rest) r ≡ (b.contains first r || in_any b rest r)
  unfolding union_all
  union_all-contains first [] r = or_false (b.contains first r)
    where
      or_false : (x : Bool) → x ≡ (x || false)
      or_false true = refl
      or_false false = refl
  union_all-contains first (t ∷ ts) r =
      union_all-contains (b.either first t) ts r
      ∙ (ap (λ z. z || in_any b ts r) (law.contains_either first t r)
          ∙ or_assoc (b.contains first r) (b.contains t r) (in_any b ts r))

module _ (p : Platform) (io : Io) {l : Lance} (h : LanceStore l) (table : Text) where
  -- The row is in the answer for every predicate, each asked on its own, and for any.
  abbrev pub matches_all : List Text → World l → ℕ → Bool
  matches_all [] s r = true
  matches_all (m ∷ ms) s r = has_row r (row_ids p io h table m s) && matches_all ms s r

  abbrev pub matches_any : List Text → World l → ℕ → Bool
  matches_any [] s r = false
  matches_any (m ∷ ms) s r = has_row r (row_ids p io h table m s) || matches_any ms s r

module _ (p : Platform) (io : Io) (b : Bitmap) (law : IsBitmap b) {l : Lance} (h : LanceStore l)
    (table : Text) where
  from_row_ids :
      (m : Text) (s : World l) (rows : List ℕ) (u : World l) (r : ℕ)
      → row_ids p io h table m s ≡ (ok rows, u)
      → (u ≡ s) × (b.contains (b.from_rows rows) r ≡ has_row r (row_ids p io h table m s))
  from_row_ids m s rows u r e = (
    sym (ap (λ z. z.1) e) ∙ row_ids-Keeps p io whole h table m s,
    law.contains_from_rows rows r ∙ ap (has_row r) (sym e),
  )

  sets_of-contains :
      (ms : List Text) (s : World l) (sets : List b.Rows) (u : World l) (r : ℕ)
      → sets_of p io b h table ms s ≡ (ok sets, u)
      → (in_all b sets r ≡ matches_all p io h table ms s r)
        × (in_any b sets r ≡ matches_any p io h table ms s r)
  unfolding sets_of
  sets_of-contains [] s sets u r e =
      subst (λ z. (in_all b z r ≡ true) × (in_any b z r ≡ false)) (answer-eq s u e) (refl, refl)
  sets_of-contains (m ∷ ms) s sets u r e =
      let (rows, (s₁, (asked, e₁))) =
        after-answers
          (λ rows. sets_of p io b h table ms >>= (λ others. done (b.from_rows rows ∷ others)))
          (row_ids p io h table m s) sets u e in
      let (others, (s₂, (rest, e₂))) =
        after-answers (λ others. done (b.from_rows rows ∷ others)) (sets_of p io b h table ms s₁)
          sets u e₁ in
      let (same, found) = from_row_ids m s rows s₁ r asked in
      let (all, any) =
        sets_of-contains ms s others s₂ r
          (subst (λ z. sets_of p io b h table ms z ≡ (ok others, s₂)) same rest) in
      subst
        (λ z.
          (in_all b z r ≡ matches_all p io h table (m ∷ ms) s r)
          × (in_any b z r ≡ matches_any p io h table (m ∷ ms) s r))
        (answer-eq s₂ u e₂) (rw (found, all) refl, rw (found, any) refl)

  -- What the sets of a combination are.
  each_set-contains :
      (matching : List Text) (operation : String) (s : World l) (sets : b.Rows × List b.Rows)
      (u : World l) (r : ℕ)
      → each_set p io b h table matching operation s ≡ (ok sets, u)
      → (in_all b (sets.0 ∷ sets.1) r ≡ matches_all p io h table matching s r)
        × (in_any b (sets.0 ∷ sets.1) r ≡ matches_any p io h table matching s r)
  unfolding each_set
  each_set-contains [] operation s sets u r e = cc
  each_set-contains (m ∷ ms) operation s sets u r e =
      let (rows, (s₁, (asked, e₁))) =
        after-answers
          (λ rows. sets_of p io b h table ms >>= (λ rest. done (b.from_rows rows, rest)))
          (row_ids p io h table m s) sets u e in
      let (others, (s₂, (rest, e₂))) =
        after-answers (λ rest. done (b.from_rows rows, rest)) (sets_of p io b h table ms s₁) sets u
          e₁ in
      let (same, found) = from_row_ids m s rows s₁ r asked in
      let (all, any) =
        sets_of-contains ms s others s₂ r
          (subst (λ z. sets_of p io b h table ms z ≡ (ok others, s₂)) same rest) in
      subst
        (λ z.
          (in_all b (z.0 ∷ z.1) r ≡ matches_all p io h table (m ∷ ms) s r)
          × (in_any b (z.0 ∷ z.1) r ≡ matches_any p io h table (m ∷ ms) s r))
        (answer-eq s₂ u e₂) (rw (found, all) refl, rw (found, any) refl)

  -- A row is in the answer for every one of the predicates together exactly when it is in the answer that
  -- the store gives for each of them alone, if the bitmaps are as documented.
  pub row_ids_all-contains :
      (matching : List Text) (s : World l) (set : b.Rows) (t : World l) (r : ℕ)
      → row_ids_all p io b h table matching s ≡ (ok set, t)
      → b.contains set r ≡ matches_all p io h table matching s r
  unfolding row_ids_all
  row_ids_all-contains matching s set t r e =
      let (sets, (s₁, (found, e₁))) =
        after-answers (λ sets. done (intersect_all b sets.0 sets.1))
          (each_set p io b h table matching "intersect" s) set t e in
      subst (λ z. b.contains z r ≡ matches_all p io h table matching s r) (answer-eq s₁ t e₁)
        (intersect_all-contains b law sets.0 sets.1 r
          ∙ (each_set-contains matching "intersect" s sets s₁ r found).0)

  -- A row is in the answer for any of the predicates exactly when it is in the answer that the store gives
  -- for one of them alone, if the bitmaps are as documented.
  pub row_ids_any-contains :
      (matching : List Text) (s : World l) (set : b.Rows) (t : World l) (r : ℕ)
      → row_ids_any p io b h table matching s ≡ (ok set, t)
      → b.contains set r ≡ matches_any p io h table matching s r
  unfolding row_ids_any
  row_ids_any-contains matching s set t r e =
      let (sets, (s₁, (found, e₁))) =
        after-answers (λ sets. done (union_all b sets.0 sets.1))
          (each_set p io b h table matching "unite" s) set t e in
      subst (λ z. b.contains z r ≡ matches_any p io h table matching s r) (answer-eq s₁ t e₁)
        (union_all-contains b law sets.0 sets.1 r
          ∙ (each_set-contains matching "unite" s sets s₁ r found).1)

  -- A source that proposes only rows that it was given.
  abbrev pub IsWithin : CandidateSource b l → Type 0
  IsWithin source =
      (within : b.Rows) (limit : ℕ) (s : World l) (rows : List ℕ) (t : World l)
      → source.candidates within limit s ≡ (ok rows, t)
      → All (λ r. b.contains within r ≡ true) rows

  -- With a source that proposes only rows that it was given, a filtered search answers only with rows that
  -- are in the answer for every predicate of the filter, if the bitmaps are as documented.
  pub filtered_search-matches :
      (filter : List Text) (source : CandidateSource b l) (limit : ℕ) (s : World l) (rows : List ℕ)
      (t : World l)
      → IsWithin source
      → filtered_search p io b h table filter source limit s ≡ (ok rows, t)
      → All (λ r. matches_all p io h table filter s r ≡ true) rows
  unfolding filtered_search
  filtered_search-matches filter source limit s rows t sound e =
      let (within, (s₁, (found, e₁))) =
        after-answers (λ within. source.candidates within limit)
          (row_ids_all p io b h table filter s) rows t e in
      each rows (sound within limit s₁ rows t e₁)
        (λ r. row_ids_all-contains filter s within s₁ r found)
    where
      each :
          (rs : List ℕ) {within : b.Rows}
          → All (λ r. b.contains within r ≡ true) rs
          → ((r : ℕ) → b.contains within r ≡ matches_all p io h table filter s r)
          → All (λ r. matches_all p io h table filter s r ≡ true) rs
      each [] hs same = tt
      each (r ∷ rs) (h, hs) same = (sym (same r) ∙ h, each rs hs same)
