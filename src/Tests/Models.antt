-- ===== src/Tests/Models.antt =====
-- The local model, the corpus, rankings, encodings and the writers at concrete inputs.
use eule_db.Common.{
  ℕ, ◌≤◌, List, [], ◌∷◌, All, length, true, false, some, ok, err, ◌≡◌, refl, arith,
}
use eule_db.Common.Text.{codes, utf8_char}
use eule_db.Compression.{applied_to, stripped_from, default_compression}
use eule_db.Compression.Strip.{Unencoded, stripped_from-applied_to_declared}
use eule_db.Fusion.{fuse}
use eule_db.Fusion.Order.{HasRanks, fuse-HasRanks}
use eule_db.Fusion.Sorted.{InOrder, IsComparison, fuse-InOrder}
use eule_db.Common.Chunks.{chunks}
use eule_db.WriterLock.{acquire, busy}
use eule_db.WriterLock.Holders.{
  Processes, opens, Reaches, starts, goes, IsExclusive, faultless, reached-IsExclusive,
  acquire-reached,
}
use eule_db.Corpus.{Document, read_document}
use eule_db.Corpus.RoundTrip.{line_of, read_document-line_of}
use eule_db.Embed.{Model, LocalEmbedder}
use eule_db.Embed.Chunks.{
  chunk_loop, chunks_of, token_count, get_range, split_at_byte, is_whitespace,
}
use eule_db.Embed.Running.{embed_passage, run_chunks, run_model, plan_for, plan_at}
use eule_db.Embed.Pooling.{
  mean_pool, normalise, pool_rows, sum_squares, bucket_in, padded_ids, mask_of,
}
use eule_db.Embed.Chunking.{chunk_loop-slices}
use eule_db.Embed.Width.{embed_passage-width}
use eule_db.Schema.{has_entry}
use eule_db.Tests.Lances.{title_schema}
use eule_db.Tests.Calls.{millionths}

titles_unencoded : All Unencoded title_schema.fields
unfolding has_entry
titles_unencoded = (record { no_compression = refl; no_level = refl }, tt)

stripped_from-applied_to_declared_example :
    stripped_from (applied_to default_compression title_schema) ≡ title_schema
stripped_from-applied_to_declared_example =
    stripped_from-applied_to_declared default_compression title_schema titles_unencoded

fuse-HasRanks_example :
    All
      (HasRanks millionths (3 ∷ 5 ∷ []) (5 ∷ 8 ∷ []))
      (fuse millionths (3 ∷ 5 ∷ []) (5 ∷ 8 ∷ []) 200 2).hits
fuse-HasRanks_example = fuse-HasRanks millionths (3 ∷ 5 ∷ []) (5 ∷ 8 ∷ []) 200 2

millionths-IsComparison : IsComparison millionths
millionths-IsComparison = record {
  dual = λ a b h. ground arith;
  dual_eq = λ a b h. ground arith;
  dual_lt = λ a b h. ground arith;
  answers = λ a b h. cc;
}

fuse-InOrder_example :
    InOrder millionths millionths-IsComparison
      (fuse millionths (3 ∷ 5 ∷ []) (5 ∷ 8 ∷ []) 200 2).hits
    × (length (fuse millionths (3 ∷ 5 ∷ []) (5 ∷ 8 ∷ []) 200 2).hits ≤ 2)
    × ((fuse millionths (3 ∷ 5 ∷ []) (5 ∷ 8 ∷ []) 200 2).effective_k ≡ 60)
fuse-InOrder_example =
    fuse-InOrder millionths millionths-IsComparison (3 ∷ 5 ∷ []) (5 ∷ 8 ∷ []) 200 2

abbrev owl : Document
owl = record {
  id = codes "1";
  written_in = codes "de";
  title = codes "Eule\\";
  body = codes "a\tb\nc";
}

read_document-line_of_example : read_document (line_of owl) ≡ some owl
read_document-line_of_example = read_document-line_of owl (refl, tt) (refl, (refl, tt))

abbrev written : Processes
written = record { writers = 4 ∷ []; locked = true }

four_writes : Reaches (codes "/db") written
unfolding acquire
four_writes =
    goes (record { writers = []; locked = false }) written starts
      (opens 4 faultless [] false true refl)

reached-IsExclusive_example : IsExclusive written
reached-IsExclusive_example = reached-IsExclusive (codes "/db") written four_writes

acquire-reached_example : acquire (codes "/db") faultless true ≡ (err (busy (codes "/db")), true)
acquire-reached_example = acquire-reached (codes "/db") written four_writes

-- Five tokens of two bytes each, two to a chunk: the second chunk is blank.
abbrev five_tokens : List (ℕ × ℕ)
five_tokens = (0, 2) ∷ (2, 4) ∷ (4, 6) ∷ (6, 8) ∷ (8, 10) ∷ []

chunk_loop-slices_example :
    chunk_loop (codes "abcd    ij") 2 five_tokens 0 0 ≡ codes "abcd" ∷ codes "ij" ∷ []
unfolding get_range split_at_byte utf8_char is_whitespace chunks
chunk_loop-slices_example = chunk_loop-slices (codes "abcd    ij") 2 five_tokens

-- A model of whole numbers whose graph puts out one row of ones.
abbrev ones : Model
ones = record {
  F32 = ℕ;
  zero_f32 = 0;
  one_f32 = 1;
  plus = λ a b. a;
  times = λ a b. b;
  over = λ a b. a;
  sqrt = λ a. a;
  is_positive = λ a. false;
  file_exists = λ path. true;
  read_tokenizer = λ path. ok tt;
  encode = λ text special. ok (record { ids = 7 ∷ []; offsets = (0, 1) ∷ [] });
  Plan = ℕ;
  build_plan = λ graph n. ok n;
  evaluate = λ plan ids mask types. ok (ok [] ∷ []);
}

abbrev ones_embedder : LocalEmbedder ones
ones_embedder = record { graph = codes "model.onnx"; plans = [] }

abbrev zeros_384 : List ℕ
zeros_384 = mean_pool ones [] []

embedded_owl : embed_passage ones ones_embedder (codes "owl") ≡ (ok (zeros_384 ∷ []), (16, 16) ∷ [])
unfolding embed_passage chunks_of token_count run_chunks run_model plan_for plan_at mean_pool
    normalise pool_rows sum_squares bucket_in padded_ids mask_of
embedded_owl = refl

embed_passage-width_example : All (λ v. length v ≡ 384) (zeros_384 ∷ [])
embed_passage-width_example =
    embed_passage-width ones ones_embedder (codes "owl") (zeros_384 ∷ []) ((16, 16) ∷ [])
      embedded_owl
