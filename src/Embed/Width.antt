-- ===== src/Embed/Width.antt =====
-- What the local embedding model answers with: crates/euledb-embed/src/lib.rs.
use eule_db.Common.{
  ℕ, zero, suc, ◌≤◌, List, [], ◌∷◌, All, length, take, drop, true, leb, ◌==◌, ==_refl, ◌++◌,
  Option-cases, Bool-cases, if◌then◌else◌,
}
use eule_db.Common.{some, Result, ok, err, ◌≡◌, refl, sym, ap, subst, ◌∙◌, arith, inl, inr}
use eule_db.Common.Text.{Text}
use eule_db.Table.Vectors.{vector_width}
use eule_db.Embed.{
  dimensions, token_limit, buckets, Encoding, Model, EmbedError, LocalEmbedder, passage_prefix,
}
use eule_db.Embed.Pooling.{
  bucket_in, padded_ids, repeated, add_rows, divide_all, pool_rows, mean_of, mean_pool, sum_squares,
  normalise,
}
use eule_db.Embed.Running.{
  plan_at, planned, plan_for, first_output, evaluated, run_encoded, run_model, built, and_others,
  then_others, run_chunks, run_chunked, embed_passage,
}
use eule_db.Embed.Chunks.{chunks_of}

bucket_step :
    (candidate real : ℕ) (rest : List ℕ)
    → bucket_in (candidate ∷ rest) real
      ≡ (if leb real candidate then candidate else bucket_in rest real)
unfolding bucket_in
bucket_step candidate real rest = refl

-- A text of no more tokens than the limit fits its bucket.
bucket-fits : (real : ℕ) → real ≤ token_limit → real ≤ bucket_in buckets real
unfolding bucket_in
bucket-fits real h = ground arith

length-repeated : {A : Type 0} (n : ℕ) (a : A) → length (repeated n a) ≡ n
unfolding repeated
length-repeated zero a = refl
length-repeated (suc n) a = ap suc (length-repeated n a)

take-padded_ids :
    (n : ℕ) (ids : List ℕ) → length ids ≤ n → take (length ids) (padded_ids n ids) ≡ ids
unfolding padded_ids
take-padded_ids n [] h = refl
take-padded_ids zero (x ∷ ids) h = absurd (omega arith)
take-padded_ids (suc n) (x ∷ ids) h = ap (λ z. x ∷ z) (take-padded_ids n ids (omega arith))

-- The ids of a text of at most as many tokens as the limit stand whole at the front of what the graph is
-- given: padding to a bucket cuts nothing off.
pub padded_ids-take :
    (ids : List ℕ)
    → length ids ≤ token_limit
    → take (length ids) (padded_ids (bucket_in buckets (length ids)) ids) ≡ ids
padded_ids-take ids h = take-padded_ids _ ids (bucket-fits (length ids) h)

module _ (m : Model) where
  length-add_rows : (xs ys : List m.F32) → length (add_rows m xs ys) ≡ length xs
  unfolding add_rows
  length-add_rows [] ys = refl
  length-add_rows (x ∷ xs) [] = refl
  length-add_rows (x ∷ xs) (y ∷ ys) = ap suc (length-add_rows xs ys)

  length-divide_all : (xs : List m.F32) (d : m.F32) → length (divide_all m xs d) ≡ length xs
  unfolding divide_all
  length-divide_all [] d = refl
  length-divide_all (x ∷ xs) d = ap suc (length-divide_all xs d)

  length-pool_rows :
      (summed : List m.F32) (counted : m.F32) (values : List m.F32) (mask : List ℕ)
      → length (pool_rows m summed counted values mask).0 ≡ length summed
  unfolding pool_rows
  length-pool_rows summed counted values [] = refl
  length-pool_rows summed counted values (keep ∷ mask) =
      elim (Bool-cases (leb dimensions (length values))) [
        | inl e ↦ elim (Bool-cases (keep == 0)) [
          | inl f ↦ rw (e, f) (length-pool_rows summed counted (drop dimensions values) mask)
          | inr f ↦
              rw (e, f)
                (length-pool_rows (add_rows m summed (take dimensions values))
                    (m.plus counted m.one_f32) (drop dimensions values) mask
                  ∙ length-add_rows summed (take dimensions values))
        ]
        | inr e ↦ rw e refl
      ]

  length-mean_of : (r : List m.F32 × m.F32) → length (mean_of m r) ≡ length r.0
  length-mean_of (summed, counted) = elim (Bool-cases (m.is_positive counted)) [
    | inl e ↦ rw e (length-divide_all summed counted)
    | inr e ↦ rw e refl
  ]

  length-mean_pool :
      (values : List m.F32) (mask : List ℕ) → length (mean_pool m values mask) ≡ dimensions
  unfolding mean_pool
  length-mean_pool values mask =
      length-mean_of (pool_rows m (repeated dimensions m.zero_f32) m.zero_f32 values mask)
      ∙ (length-pool_rows (repeated dimensions m.zero_f32) m.zero_f32 values mask
          ∙ length-repeated dimensions m.zero_f32)

  length-normalise : (v : List m.F32) → length (normalise m v) ≡ length v
  unfolding normalise
  length-normalise v =
      let norm = m.sqrt (sum_squares m m.zero_f32 v) in
      elim (Bool-cases (m.is_positive norm)) [
        | inl e ↦ rw e (length-divide_all v norm)
        | inr e ↦ rw e refl
      ]

  first_output-width :
      (mask : List ℕ) (r : Result Text (List (Result Text (List m.F32)))) (v : List m.F32)
      → first_output m mask r ≡ ok v
      → length v ≡ dimensions
  first_output-width mask (err c) v h = cc
  first_output-width mask (ok []) v h = cc
  first_output-width mask (ok (err c ∷ rest)) v h = cc
  first_output-width mask (ok (ok values ∷ rest)) v h =
      let same : normalise m (mean_pool m values mask) ≡ v = cc in
      ap length (sym same) ∙ (length-normalise _ ∙ length-mean_pool values mask)

  evaluated-width :
      (bucket : ℕ) (ids : List ℕ) (r : Result EmbedError m.Plan × List (ℕ × m.Plan))
      (v : List m.F32) (after : List (ℕ × m.Plan))
      → evaluated m bucket ids r ≡ (ok v, after)
      → length v ≡ dimensions
  evaluated-width bucket ids (err e, plans) v after h = cc
  evaluated-width bucket ids (ok plan, plans) v after h = first_output-width _ _ v (ap (λ z. z.0) h)

  run_encoded-width :
      (graph : Text) (plans : List (ℕ × m.Plan)) (r : Result Text Encoding) (v : List m.F32)
      (after : List (ℕ × m.Plan))
      → run_encoded m graph plans r ≡ (ok v, after)
      → length v ≡ dimensions
  run_encoded-width graph plans (err c) v after h = cc
  run_encoded-width graph plans (ok encoded) v after h = evaluated-width _ encoded.ids _ v after h

  run_model-width :
      (graph : Text) (plans : List (ℕ × m.Plan)) (text : Text) (v : List m.F32)
      (after : List (ℕ × m.Plan))
      → run_model m graph plans text ≡ (ok v, after)
      → length v ≡ dimensions
  unfolding run_model
  run_model-width graph plans text v after h =
      run_encoded-width graph plans (m.encode text true) v after h

  then_others-width :
      (next : List (ℕ × m.Plan) → Result EmbedError (List (List m.F32)) × List (ℕ × m.Plan))
      (r : Result EmbedError (List m.F32) × List (ℕ × m.Plan)) (vs : List (List m.F32))
      (after : List (ℕ × m.Plan))
      → ((v : List m.F32) (u : List (ℕ × m.Plan)) → r ≡ (ok v, u) → length v ≡ dimensions)
      → ((plans : List (ℕ × m.Plan)) (ws : List (List m.F32)) (u : List (ℕ × m.Plan))
          → next plans ≡ (ok ws, u)
          → All (λ v. length v ≡ dimensions) ws)
      → then_others m next r ≡ (ok vs, after)
      → All (λ v. length v ≡ dimensions) vs
  then_others-width next (err e, plans) vs after first others h = cc
  then_others-width next (ok v, plans) vs after first others h =
      joined (next plans) (λ ws u k. others plans ws u k) h
    where
      joined :
          (r : Result EmbedError (List (List m.F32)) × List (ℕ × m.Plan))
          → ((ws : List (List m.F32)) (u : List (ℕ × m.Plan))
              → r ≡ (ok ws, u)
              → All (λ v. length v ≡ dimensions) ws)
          → and_others m v r ≡ (ok vs, after)
          → All (λ v. length v ≡ dimensions) vs
      joined (err e, u) k h = cc
      joined (ok ws, u) k h =
          let same : v ∷ ws ≡ vs = cc in
          subst (All (λ v. length v ≡ dimensions)) same (first v plans refl, k ws u refl)

  run_chunks-width :
      (graph : Text) (plans : List (ℕ × m.Plan)) (chunks : List Text) (vs : List (List m.F32))
      (after : List (ℕ × m.Plan))
      → run_chunks m graph plans chunks ≡ (ok vs, after)
      → All (λ v. length v ≡ dimensions) vs
  unfolding run_chunks
  run_chunks-width graph plans [] vs after h =
      let same : [] ≡ vs = cc in subst (All (λ v. length v ≡ dimensions)) same tt
  run_chunks-width graph plans (chunk ∷ rest) vs after h =
      then_others-width (λ u. run_chunks m graph u rest)
        (run_model m graph plans (passage_prefix ++ chunk)) vs after
        (λ v u e. run_model-width graph plans _ v u e)
        (λ p ws u e. run_chunks-width graph p rest ws u e) h

  run_chunked-width :
      (graph : Text) (plans : List (ℕ × m.Plan)) (r : Result EmbedError (List Text))
      (vs : List (List m.F32)) (after : List (ℕ × m.Plan))
      → run_chunked m graph plans r ≡ (ok vs, after)
      → All (λ v. length v ≡ dimensions) vs
  run_chunked-width graph plans (err e) vs after h = cc
  run_chunked-width graph plans (ok chunks) vs after h =
      run_chunks-width graph plans chunks vs after h

  -- Every vector that the local model makes of a passage has as many components as a companion table has
  -- room for, however the tokenizer and the graph answer and however long what the graph puts out is.
  pub embed_passage-width :
      (e : LocalEmbedder m) (text : Text) (vs : List (List m.F32)) (after : List (ℕ × m.Plan))
      → embed_passage m e text ≡ (ok vs, after)
      → All (λ v. length v ≡ vector_width) vs
  unfolding embed_passage
  embed_passage-width e text vs after h =
      run_chunked-width e.graph e.plans (chunks_of m text) vs after h

  plan_at_here :
      (n : ℕ) (plan : m.Plan) (plans : List (ℕ × m.Plan))
      → plan_at m n ((n, plan) ∷ plans) ≡ some plan
  unfolding plan_at
  plan_at_here n plan plans = rw (==_refl n) refl

  -- A plan that was asked for once is there: asking again answers with the same plan, builds none, and
  -- leaves the plans as they are.
  pub plan_for-cached :
      (graph : Text) (n : ℕ) (plans : List (ℕ × m.Plan)) (plan : m.Plan) (after : List (ℕ × m.Plan))
      → plan_for m graph n plans ≡ (ok plan, after)
      → plan_for m graph n after ≡ (ok plan, after)
  unfolding plan_for
  plan_for-cached graph n plans plan after h = elim (Option-cases (plan_at m n plans)) [
    | inr (found, e) ↦
        let now = rw e at h in
        subst (λ u. planned m graph n u (plan_at m n u) ≡ (ok plan, u)) (ap (λ z. z.1) now)
          (rw e (ap (λ z. (z.0, plans)) now))
    | inl e ↦ fresh (m.build_plan graph n) (rw e at h)
  ]
    where
      fresh :
          (r : Result Text m.Plan)
          → built m n plans r ≡ (ok plan, after)
          → planned m graph n after (plan_at m n after) ≡ (ok plan, after)
      fresh (err c) k = cc
      fresh (ok made) k =
          let same : made ≡ plan = cc in
          subst (λ u. planned m graph n u (plan_at m n u) ≡ (ok plan, u)) (ap (λ z. z.1) k)
            (rw (plan_at_here n made plans, same) refl)
