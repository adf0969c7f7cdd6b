-- ===== src/Embed/Running.antt =====
-- The plans of the graph, and its runs: crates/euledb-embed/src/lib.rs.
use eule_db.Common.{ℕ, min, List, [], ◌∷◌, ◌++◌, length, true}
use eule_db.Common.{◌==◌, if◌then◌else◌, Option, some, none, Result, ok, err}
use eule_db.Common.Text.{Text, codes}
use eule_db.Embed.{
  buckets, passage_prefix, query_prefix, Encoding, Model, EmbedError, tokenizer_failed,
  inference_failed, LocalEmbedder,
}
use eule_db.Embed.Chunks.{chunks_of}
use eule_db.Embed.Pooling.{repeated, bucket_in, padded_ids, mask_of, mean_pool, normalise}

module _ (m : Model) where
  -- `BTreeMap::get` of the plans
  unfoldable pub plan_at : ℕ → List (ℕ × m.Plan) → Option m.Plan
  plan_at n [] = none
  plan_at n ((k, plan) ∷ rest) = if k == n then some plan else plan_at n rest

  abbrev pub built :
      ℕ → List (ℕ × m.Plan) → Result Text m.Plan → Result EmbedError m.Plan × List (ℕ × m.Plan)
  built n plans (ok plan) = (ok plan, (n, plan) ∷ plans)
  built n plans (err cause) = (err (inference_failed cause), plans)

  abbrev pub planned :
      Text → ℕ → List (ℕ × m.Plan) → Option m.Plan → Result EmbedError m.Plan × List (ℕ × m.Plan)
  planned graph n plans (some plan) = (ok plan, plans)
  planned graph n plans none = built n plans (m.build_plan graph n)

  -- `Embedder::plan`, with the plans that there are after it
  unfoldable pub plan_for :
      Text → ℕ → List (ℕ × m.Plan) → Result EmbedError m.Plan × List (ℕ × m.Plan)
  unfolding plan_at
  plan_for graph n plans = planned graph n plans (plan_at n plans)

  abbrev pub first_output :
      List ℕ → Result Text (List (Result Text (List m.F32))) → Result EmbedError (List m.F32)
  first_output mask (err cause) = err (inference_failed cause)
  first_output mask (ok []) = err (inference_failed (codes "the graph produced no output"))
  first_output mask (ok (err cause ∷ rest)) = err (inference_failed cause)
  first_output mask (ok (ok values ∷ rest)) = ok (normalise m (mean_pool m values mask))

  abbrev pub evaluated :
      ℕ
      → List ℕ
      → Result EmbedError m.Plan × List (ℕ × m.Plan)
      → Result EmbedError (List m.F32) × List (ℕ × m.Plan)
  evaluated bucket ids (err e, plans) = (err e, plans)
  evaluated bucket ids (ok plan, plans) =
      let mask = mask_of bucket (min (length ids) bucket) in
      (first_output mask (m.evaluate plan (padded_ids bucket ids) mask (repeated bucket 0)), plans)

  abbrev pub run_encoded :
      Text
      → List (ℕ × m.Plan)
      → Result Text Encoding
      → Result EmbedError (List m.F32) × List (ℕ × m.Plan)
  run_encoded graph plans (err cause) = (err (tokenizer_failed cause), plans)
  run_encoded graph plans (ok encoded) =
      let bucket = bucket_in buckets (length encoded.ids) in
      evaluated bucket encoded.ids (plan_for graph bucket plans)

  -- `Embedder::run`
  unfoldable pub run_model :
      Text → List (ℕ × m.Plan) → Text → Result EmbedError (List m.F32) × List (ℕ × m.Plan)
  unfolding mean_pool normalise bucket_in padded_ids mask_of plan_for repeated
  run_model graph plans text = run_encoded graph plans (m.encode text true)

  abbrev pub and_others :
      List m.F32
      → Result EmbedError (List (List m.F32)) × List (ℕ × m.Plan)
      → Result EmbedError (List (List m.F32)) × List (ℕ × m.Plan)
  and_others first (ok others, plans) = (ok (first ∷ others), plans)
  and_others first (err e, plans) = (err e, plans)

  abbrev pub then_others :
      (List (ℕ × m.Plan) → Result EmbedError (List (List m.F32)) × List (ℕ × m.Plan))
      → Result EmbedError (List m.F32) × List (ℕ × m.Plan)
      → Result EmbedError (List (List m.F32)) × List (ℕ × m.Plan)
  then_others next (ok first, plans) = and_others first (next plans)
  then_others next (err e, plans) = (err e, plans)

  -- Every chunk, up to the first failure.
  unfoldable pub run_chunks :
      Text
      → List (ℕ × m.Plan)
      → List Text
      → Result EmbedError (List (List m.F32)) × List (ℕ × m.Plan)
  unfolding run_model
  run_chunks graph plans [] = (ok [], plans)
  run_chunks graph plans (chunk ∷ rest) =
      then_others (λ after. run_chunks graph after rest)
        (run_model graph plans (passage_prefix ++ chunk))

  abbrev pub run_chunked :
      Text
      → List (ℕ × m.Plan)
      → Result EmbedError (List Text)
      → Result EmbedError (List (List m.F32)) × List (ℕ × m.Plan)
  run_chunked graph plans (err e) = (err e, plans)
  run_chunked graph plans (ok chunks) = run_chunks graph plans chunks

  unfoldable pub embed_passage :
      LocalEmbedder m → Text → Result EmbedError (List (List m.F32)) × List (ℕ × m.Plan)
  unfolding chunks_of run_chunks
  embed_passage e text = run_chunked e.graph e.plans (chunks_of m text)

  unfoldable pub embed_query_text :
      LocalEmbedder m → Text → Result EmbedError (List m.F32) × List (ℕ × m.Plan)
  unfolding run_model
  embed_query_text e text = run_model e.graph e.plans (query_prefix ++ text)
