-- ===== src/Table/Vectors/Rebuild/Kept.antt =====
-- What the vectors written for a column are: crates/euledb-storage/src/store.rs.
use eule_db.Common.{ℕ, suc, List, [], ◌∷◌, ◌++◌, All, length, map, Bool, true, false, ◌==◌, ==_refl}
use eule_db.Common.{Result, ok, err, ◌≡◌, refl, sym, ap, ◌∙◌, subst, arith, if◌then◌else◌}
use eule_db.Common.Text.{Text}
use eule_db.Measurement.{is_member}
use eule_db.Table.Lance.{Lance, Embedder}
use eule_db.Table.Op.{after-answers, answer-eq}
use eule_db.Table.Handle.{World}
use eule_db.Table.Vectors.{vector_width, RowVector}
use eule_db.Table.Vectors.Rebuild.{kept_for, number_chunks, rebuild, embeddings_for, wrong_width}
use eule_db.Table.Vectors.Rebuild.Entries.{
  member_later, differ-All, kept_for_nil, kept_for_here, kept_for_none, kept_for_only,
  kept_for_others, embeddings_in, kept_for-embeddings_in, append-All, map-All,
  or_embedding_failed-answers, IsFor, Distinct,
}

module _ {l : Lance} where
  -- What was numbered: the same embeddings, of the row, each of the width.
  number_chunks-answers :
      (table : Text) (row chunk : ℕ) (es : List (List l.F32)) (s : World l)
      (vs : List (RowVector l.F32)) (t : World l)
      → number_chunks table row chunk es s ≡ (ok vs, t)
      → (kept_for row vs ≡ es) × All (λ v. (v.row ≡ row) × (length v.embedding ≡ vector_width)) vs
  unfolding number_chunks
  number_chunks-answers table row chunk [] s vs t h =
      subst
        (λ z.
          (kept_for row z ≡ []) × All (λ v. (v.row ≡ row) × (length v.embedding ≡ vector_width)) z)
        (answer-eq s t h) (kept_for_nil row, tt)
  number_chunks-answers table row chunk (e ∷ es) s vs t h =
      let (u, (s₁, (first, rest))) = after-answers _ _ vs t h in
      let (ws, (s₂, (numbered, last))) = after-answers _ _ vs t rest in
      let (kept, all) = number_chunks-answers table row (suc chunk) es s₁ ws s₂ numbered in
      let wide =
        wide_of (length e == vector_width) refl
          (or_embedding_failed-answers table _ s u s₁ first) in
      subst
        (λ z.
          (kept_for row z ≡ e ∷ es)
          × All (λ v. (v.row ≡ row) × (length v.embedding ≡ vector_width)) z)
        (answer-eq s₂ t last)
        (kept_for_here _ ws row (==_refl row) ∙ ap (λ z. e ∷ z) kept, ((refl, wide), all))
    where
      wide_of :
          (b : Bool) {u : Unit {0}}
          → (length e == vector_width) ≡ b
          → ◌≡◌ {A = Result Text (Unit {0})}
              (if b then ok tt else err (wrong_width (length e)))
              (ok u)
          → length e ≡ vector_width
      wide_of true same g = ground arith
      wide_of false same g = cc

  -- Rebuilding says of a first row, and of the others.
  rebuild-cons :
      (table : Text) (embedder : Embedder l) (existing : List (RowVector l.F32)) (row : ℕ)
      (text : Text) (rest : List (ℕ × Text)) (s : World l) (vs : List (RowVector l.F32))
      (t : World l)
      → rebuild table embedder existing ((row, text) ∷ rest) s ≡ (ok vs, t)
      → (ws : List (RowVector l.F32)) × ((others : List (RowVector l.F32)) × ((u : World l)
            × ((v : World l) × ((embeddings_for embedder text (kept_for row existing)
                    ≡ ok (kept_for row ws))
                  × (All (λ w. (w.row ≡ row) × (length w.embedding ≡ vector_width)) ws
                      × ((rebuild table embedder existing rest u ≡ (ok others, v))
                          × (ws ++ others ≡ vs)))))))
  unfolding rebuild
  rebuild-cons table embedder existing row text rest s vs t h =
      let (es, (s₁, (given, h₁))) = after-answers _ _ vs t h in
      let (ws, (s₂, (numbered, h₂))) = after-answers _ _ vs t h₁ in
      let (others, (s₃, (rebuilt, h₃))) = after-answers _ _ vs t h₂ in
      let (kept, all) = number_chunks-answers table row 0 es s₁ ws s₂ numbered in
      (
        ws,
        (
          others,
          (
            s₂,
            (
              s₃,
              (
                or_embedding_failed-answers table _ s es s₁ given ∙ ap ok (sym kept),
                (all, (rebuilt, answer-eq s₃ t h₃)),
              ),
            ),
          ),
        ),
      )

  -- Every vector of the answer is of a row that is present, and of the width.
  pub rebuild-IsFor :
      (table : Text) (embedder : Embedder l) (existing : List (RowVector l.F32))
      (present : List (ℕ × Text)) (s : World l) (vs : List (RowVector l.F32)) (t : World l)
      → rebuild table embedder existing present s ≡ (ok vs, t)
      → All (IsFor present) vs
  unfolding rebuild
  rebuild-IsFor table embedder existing [] s vs t h = subst (All (IsFor [])) (answer-eq s t h) tt
  rebuild-IsFor table embedder existing ((row, text) ∷ rest) s vs t h =
      let (ws, (others, (u, (v, (given, (all, (rebuilt, same))))))) =
        rebuild-cons table embedder existing row text rest s vs t h in
      subst (All (IsFor ((row, text) ∷ rest))) same (
        append-All (IsFor ((row, text) ∷ rest)) ws others
          (map-All _ (IsFor ((row, text) ∷ rest)) ws (λ w z. (rw (z.0, ==_refl row) refl, z.1)) all)
          (map-All (IsFor rest) (IsFor ((row, text) ∷ rest)) others
            (λ w z. (member_later row w.row _ z.0, z.1))
            (rebuild-IsFor table embedder existing rest u others v rebuilt)))

  rebuild-embeddings_for :
      (table : Text) (embedder : Embedder l) (existing : List (RowVector l.F32))
      (present : List (ℕ × Text)) (s : World l) (vs : List (RowVector l.F32)) (t : World l)
      → Distinct (map (λ x. x.0) present)
      → rebuild table embedder existing present s ≡ (ok vs, t)
      → All
          (λ x. embeddings_for embedder x.1 (kept_for x.0 existing) ≡ ok (kept_for x.0 vs))
          present
  rebuild-embeddings_for table embedder existing [] s vs t distinct h = tt
  rebuild-embeddings_for table embedder existing ((row, text) ∷ rest) s vs t (absent, distinct) h =
      let (ws, (others, (u, (v, (given, (all, (rebuilt, same))))))) =
        rebuild-cons table embedder existing row text rest s vs t h in
      let alone = kept_for_none row _ others absent (
        map-All (IsFor rest) _ others (λ w z. z.0)
          (rebuild-IsFor table embedder existing rest u others v rebuilt)) in
      (
        given ∙ ap ok (kept_for_only row ws others alone ∙ ap (kept_for row) same),
        differ-All _ _ row rest absent
            (λ x other z.
              z
              ∙ ap ok (
                  sym (
                    kept_for_others x.0 ws others (
                      kept_for_none x.0 (row ∷ []) ws (not_alone x.0 other)
                        (map-All _ _ ws (λ w y. rw (y.0, ==_refl row) refl) all)))
                  ∙ ap (kept_for x.0) same))
            (rebuild-embeddings_for table embedder existing rest u others v distinct rebuilt),
      )
    where
      not_alone : (r : ℕ) → (r == row) ≡ false → is_member r (row ∷ []) ≡ false
      not_alone r h = ground arith

  -- What a row is to have: the vectors that it had, or else those that the embedder makes of its text.
  abbrev pub IsDue : Embedder l → Text → (had now : List (List l.F32)) → Type 0
  IsDue embedder text [] now = embedder.embed_passage text ≡ ok now
  IsDue embedder text (e ∷ had) now = now ≡ e ∷ had

  embeddings_for-IsDue :
      (embedder : Embedder l) (text : Text) (had now : List (List l.F32))
      → embeddings_for embedder text had ≡ ok now
      → IsDue embedder text had now
  embeddings_for-IsDue embedder text [] now h = h
  embeddings_for-IsDue embedder text (e ∷ had) now h = cc

  embeddings-IsDue :
      (embedder : Embedder l) (existing vs : List (RowVector l.F32)) (present : List (ℕ × Text))
      → All
          (λ x. embeddings_for embedder x.1 (kept_for x.0 existing) ≡ ok (kept_for x.0 vs))
          present
      → All (λ x. IsDue embedder x.1 (embeddings_in x.0 existing) (embeddings_in x.0 vs)) present
  embeddings-IsDue embedder existing vs [] h = tt
  embeddings-IsDue embedder existing vs ((row, text) ∷ rest) (h, hs) = (
    rw (← kept_for-embeddings_in row existing, ← kept_for-embeddings_in row vs)
        (embeddings_for-IsDue embedder text (kept_for row existing) (kept_for row vs) h),
    embeddings-IsDue embedder existing vs rest hs,
  )

  -- When rebuilding answers, and no row is present twice, the vectors that it answers with for each row that is
  -- present are those that the row had, if it had any, and otherwise those that the embedder makes of its text.
  pub rebuild-embeddings :
      (table : Text) (embedder : Embedder l) (existing : List (RowVector l.F32))
      (present : List (ℕ × Text)) (s : World l) (vs : List (RowVector l.F32)) (t : World l)
      → Distinct (map (λ x. x.0) present)
      → rebuild table embedder existing present s ≡ (ok vs, t)
      → All (λ x. IsDue embedder x.1 (embeddings_in x.0 existing) (embeddings_in x.0 vs)) present
  rebuild-embeddings table embedder existing present s vs t distinct h =
      embeddings-IsDue embedder existing vs present
        (rebuild-embeddings_for table embedder existing present s vs t distinct h)
