-- ===== src/Embed.antt =====
-- crates/euledb-embed/src/lib.rs: the local embedding model. The tokenizer, the graph of the crate tract, its
-- floats and the files are the parameter `Model`; a failure of theirs is its message. A lock is not poisoned
-- unless a thread panics, which is not modelled.
pub mod Chunks
pub mod Pooling
pub mod Running
pub mod Chunking
pub mod Width
use eule_db.Common.{
  ℕ, zero, suc, ◌+◌, ◌-◌, min, List, [], ◌∷◌, ◌++◌, length, take, drop, Bool, true, false, not,
  ◌||◌, ◌&&◌,
}
use eule_db.Common.{ltb, leb, ◌==◌, if◌then◌else◌, Option, some, none, Result, ok, err, ◌>>=◌}
use eule_db.Common.Text.{Text, codes, utf8_char}
use eule_db.Table.Handle.{join}

abbrev pub dimensions : ℕ
dimensions = 384

abbrev pub token_limit : ℕ
token_limit = 512

abbrev pub buckets : List ℕ
buckets = 16 ∷ 32 ∷ 64 ∷ 128 ∷ 256 ∷ token_limit ∷ []

abbrev pub passage_prefix : Text
passage_prefix = codes "passage: "

abbrev pub query_prefix : Text
query_prefix = codes "query: "

abbrev pub pad_token : ℕ
pad_token = 1

-- Offsets are of bytes.
pub record Encoding : Type 0 where
  pub ids : List ℕ
  pub offsets : List (ℕ × ℕ)

pub record Model : Type 1 where
  pub F32 : Type 0
  pub zero_f32 : F32
  pub one_f32 : F32
  pub plus : F32 → F32 → F32
  pub times : F32 → F32 → F32
  pub over : F32 → F32 → F32
  pub sqrt : F32 → F32
  pub is_positive : F32 → Bool
  pub file_exists : Text → Bool
  pub read_tokenizer : Text → Result Text (Unit {0})
  -- With the special tokens or without
  pub encode : Text → Bool → Result Text Encoding
  pub Plan : Type 0
  pub build_plan : Text → ℕ → Result Text Plan
  -- From the ids, the mask and the types to the outputs, each read as floats
  pub evaluate : Plan → List ℕ → List ℕ → List ℕ → Result Text (List (Result Text (List F32)))

pub data EmbedError : Type 0 where
  model_missing : Text → EmbedError
  model_unreadable : Text → Text → EmbedError
  tokenizer_failed : Text → EmbedError
  inference_failed : Text → EmbedError

abbrev pub or_tokenizer_failed : {A : Type 0} → Result Text A → Result EmbedError A
or_tokenizer_failed (ok a) = ok a
or_tokenizer_failed (err cause) = err (tokenizer_failed cause)

module _ (m : Model) where
  pub record LocalEmbedder : Type 0 where
    pub graph : Text
    pub plans : List (ℕ × m.Plan)

  abbrev pub loaded : Text → Text → Result Text (Unit {0}) → Result EmbedError LocalEmbedder
  loaded graph vocabulary (err cause) = err (model_unreadable vocabulary cause)
  loaded graph vocabulary (ok _) = ok (record { graph = graph; plans = [] })

  unfoldable pub load_embedder : Text → Result EmbedError LocalEmbedder
  unfolding join
  load_embedder directory =
      let graph = join directory (codes "model.onnx") in
      let vocabulary = join directory (codes "tokenizer.json") in
      if not (m.file_exists graph)
      then err (model_missing graph)
      else if not (m.file_exists vocabulary)
      then err (model_missing vocabulary)
      else loaded graph vocabulary (m.read_tokenizer vocabulary)
