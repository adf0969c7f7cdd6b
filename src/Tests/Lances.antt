-- ===== src/Tests/Lances.antt =====
-- A format that computes: a disk holds the batches of each path, and a failure is a number.
use eule_db.Common.{
  ℕ, zero, suc, List, [], ◌∷◌, ◌++◌, length, take, true, false, eq_bytes, if◌then◌else◌, some,
  Result, ok, err,
}
use eule_db.Common.Text.{Text, codes}
use eule_db.Common.Chunks.{chunks}
use eule_db.Common.{◌≡◌, refl, sym, ap, ◌∙◌, Bool-cases, inl, inr, eq_bytes_refl}
use eule_db.Table.Vectors.RoundTrip.Rows.{KeepsVectors, rows_of, all_rows, joined}
use mathlib.Core.List.{append-nil}
use eule_db.Compression.{ArrowSchema}
use eule_db.Schema.{Field, auto_embedding_key}
use eule_db.Table.Lance.{Lance, Embedder, WriteMode, create_mode, append_mode, overwrite_mode}

-- Rows with an id, a chunk, a text and a vector each.
pub record Rows : Type 0 where
  pub ids : List ℕ
  pub chunk_ids : List ℕ
  pub texts : List Text
  pub vectors : List (List ℕ)

abbrev pub Shelf : Type 0
Shelf = List (Text × List Rows)

abbrev pub look_up : Text → Shelf → Result ℕ (List Rows)
look_up path [] = err 1
look_up path ((p, batches) ∷ rest) = if eq_bytes p path then ok batches else look_up path rest

abbrev pub put : Text → List Rows → Shelf → Shelf
put path batches [] = (path, batches) ∷ []
put path batches ((p, old) ∷ rest) =
    if eq_bytes p path then (path, batches) ∷ rest else (p, old) ∷ put path batches rest

abbrev pub append_found :
    Text → List Rows → Shelf → Result ℕ (List Rows) → Result ℕ (Unit {0}) × Shelf
append_found path batches disk (ok old) = (ok tt, put path (old ++ batches) disk)
append_found path batches disk (err e) = (err e, disk)

abbrev pub put_by : WriteMode → Text → List Rows → Shelf → Result ℕ (Unit {0}) × Shelf
put_by create_mode path batches disk = (ok tt, put path batches disk)
put_by append_mode path batches disk = append_found path batches disk (look_up path disk)
put_by overwrite_mode path batches disk = (ok tt, put path batches disk)

abbrev pub title_field : Field (Unit {0})
title_field = record {
  name = codes "title";
  data_type = tt;
  nullable = false;
  metadata = (auto_embedding_key, codes "true") ∷ [];
}

abbrev pub title_schema : ArrowSchema (Unit {0})
title_schema = record { fields = title_field ∷ []; schema_metadata = [] }

-- The filter "first" keeps the first batch, and any other all of them.
abbrev pub shelves : Lance
shelves = record {
  Disk = Shelf;
  Dataset = List Rows;
  Scanner = List Rows;
  Rows = List Rows;
  DataType = Unit {0};
  F32 = ℕ;
  Builder = List Rows;
  Job = List Rows;
  Batch = Rows;
  schema_of = λ batch. title_schema;
  num_rows = λ batch. length batch.ids;
  has_column = λ batch name. true;
  u64_column = λ batch name. some batch.ids;
  u32_column = λ batch name. some batch.chunk_ids;
  text_column = λ batch name. some batch.texts;
  vector_column = λ batch name. some batch.vectors;
  with_schema = λ schema batch. ok batch;
  load = λ path session disk. look_up path disk;
  write = λ mode session path schema batches disk. put_by mode path batches disk;
  dataset_schema = λ batches. title_schema;
  count_rows = λ batches matching. ok (length batches);
  delete = λ batches matching disk. (ok 0, disk);
  create_index = λ batches column params disk. (ok tt, disk);
  index_statistics = λ batches name. err 2;
  knows_language = λ name. ok tt;
  update_where = λ batches matching. ok batches;
  set = λ builder column value. ok builder;
  build = λ builder. ok builder;
  execute = λ job disk. (ok 0, disk);
  scanner = λ batches. batches;
  filter = λ batches matching.
      ok (if eq_bytes matching (codes "first") then take 1 batches else batches);
  order_by = λ batches column up. ok batches;
  with_row_id = λ batches. batches;
  project = λ batches columns. ok batches;
  nearest = λ batches column query limit. ok (take limit batches);
  full_text_search = λ batches query. ok batches;
  limit = λ batches n. ok batches;
  into_stream = λ batches. ok batches;
  try_collect = λ batches. ok batches;
  analyze_plan = λ batches. ok [];
  explain_plan = λ batches. ok [];
  vector_batch = λ schema rows numbers values.
      ok (record { ids = rows; chunk_ids = numbers; texts = []; vectors = chunks 384 values });
  vector_schema = title_schema;
  remove_dir_all = λ path disk. (ok tt, put path [] disk);
  encrypted_uri = λ path. path;
  debug = λ text. text;
}

-- A vector of the width, and an embedder that makes one of any text.
abbrev pub wide : ℕ → ℕ → List ℕ
wide zero x = []
wide (suc n) x = x ∷ wide n x

abbrev pub one_vector : Embedder shelves
one_vector = record {
  embed_passage = λ text. ok (wide 384 (length text) ∷ []);
  embed_query = λ text. ok (wide 384 (length text));
}

abbrev pub two_titles : Rows
two_titles = record {
  ids = 5 ∷ 7 ∷ [];
  chunk_ids = [];
  texts = codes "owl" ∷ codes "eagle" ∷ [];
  vectors = [];
}

abbrev pub one_title : Rows
one_title = record { ids = 9 ∷ []; chunk_ids = []; texts = codes "kite" ∷ []; vectors = [] }

-- A table "birds" of two batches, and nothing else.
abbrev pub birds_path : Text
birds_path = codes "/db/birds.lance"

abbrev pub birds_disk : Shelf
birds_disk = (birds_path, two_titles ∷ one_title ∷ []) ∷ []

look_up-put :
    (path : Text) (batches : List Rows) (disk : Shelf)
    → look_up path (put path batches disk) ≡ ok batches
look_up-put path batches [] = rw (eq_bytes_refl path) refl
look_up-put path batches ((p, old) ∷ rest) = elim (Bool-cases (eq_bytes p path)) [
  | inl e ↦ rw e (rw (eq_bytes_refl path) refl)
  | inr e ↦ rw e (rw e (look_up-put path batches rest))
]

pub shelves-KeepsVectors : KeepsVectors shelves
shelves-KeepsVectors = record {
  holds_rows = λ rows chunk_ids values batch e.
      let same : record {
        ids = rows;
        chunk_ids = chunk_ids;
        texts = [];
        vectors = chunks 384 values;
      }
          ≡ batch =
        cc in
      ap (rows_of shelves) (sym same);
  reads_back = λ path batch disk later d stream batches vs e loads streams collects holds.
      let found : ok (batch ∷ []) ≡ ok d =
        sym (look_up-put path (batch ∷ []) disk) ∙ (ap (λ z. look_up path z.1) e ∙ loads) in
      let same : batch ∷ [] ≡ batches = cc in
      ap (all_rows shelves) (sym same)
      ∙ (ap (λ z. joined z (some [])) holds ∙ ap some (append-nil vs));
  keeps_columns =
      λ batch stripped e. let same : batch ≡ stripped = cc in ap (rows_of shelves) (sym same);
}
