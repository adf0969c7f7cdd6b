-- ===== src/Tests/Columns.antt =====
-- Sets of rows and companion tables at concrete inputs.
use eule_db.Common.{
  subst, Bool-cases, inl, inr, ℕ, List, [], ◌∷◌, All, Bool, true, false, ◌&&◌, ◌||◌, none, ok, ◌≡◌,
  refl,
}
use eule_db.Common.Text.{Text, codes, starts_with}
use eule_db.Measurement.{Bitmap, IsBitmap, is_member, intersect_all}
use eule_db.Table.Op.{done, answer-eq}
use eule_db.Table.Handle.{
  World, open_table, uri, dataset_path, join, ends_with_slash, require_scope, vector_table,
}
use eule_db.Table.Reads.{row_ids, select_row_ids, stream_of, ids_of, collect, strip_batches}
use eule_db.Table.Sets.{CandidateSource, sets_of, each_set, row_ids_all, filtered_search}
use eule_db.Table.Sets.Members.{matches_all, row_ids_all-contains, filtered_search-matches}
use eule_db.Table.Vectors.{RowVector, sort_vectors, insert_vector, read_vectors, vectors_of}
use eule_db.Table.Vectors.Sorted.{IsOrdered, vectors_of-IsOrdered}
use eule_db.Table.Vectors.Rebuild.{rebuild, number_chunks, kept_for}
use eule_db.Table.Vectors.Rebuild.Entries.{embeddings_in}
use eule_db.Table.Vectors.Rebuild.Kept.{rebuild-embeddings, IsDue}
use eule_db.Tests.Toy.{toy}
use eule_db.Common.Chunks.{chunks}
use eule_db.Common.{◌++◌}
use eule_db.Table.Reconcile.{refresh, write_vectors}
use eule_db.Table.Vectors.Rebuild.{row_set, insert_row}
use eule_db.Table.Vectors.RoundTrip.{IsSettled, refresh-IsSettled}
use eule_db.Tests.Lances.{birds_disk, shelves-KeepsVectors, put, shelves, one_vector, wide}
use eule_db.Tests.Calls.{steady, plain_reader, birds_world}

-- Sets that say of every row whether they have it.
abbrev predicates : Bitmap
predicates = record {
  Rows = ℕ → Bool;
  from_rows = λ rows r. is_member r rows;
  both = λ s t r. s r && t r;
  either = λ s t r. s r || t r;
  contains = λ s r. s r;
  len = λ s. 0;
  elements = λ s. [];
}

predicates-IsBitmap : IsBitmap predicates
predicates-IsBitmap = record {
  contains_from_rows = λ rows r. refl;
  contains_both = λ s t r. refl;
  contains_either = λ s t r. refl;
}

abbrev birds_table : Text
birds_table = codes "birds"

abbrev filters : List Text
filters = codes "all" ∷ codes "first" ∷ []

-- The rows 5, 7 and 9, and the rows 5 and 7.
abbrev chosen : ℕ → Bool
chosen r = is_member r (5 ∷ 7 ∷ 9 ∷ []) && is_member r (5 ∷ 7 ∷ [])

found_all :
    row_ids_all toy steady predicates plain_reader birds_table filters birds_world
    ≡ (ok chosen, birds_world)
unfolding row_ids_all each_set sets_of row_ids require_scope open_table uri dataset_path join
    ends_with_slash starts_with select_row_ids stream_of ids_of intersect_all
found_all = refl

row_ids_all-contains_example :
    chosen 9 ≡ matches_all toy steady plain_reader birds_table filters birds_world 9
row_ids_all-contains_example =
    row_ids_all-contains toy steady predicates predicates-IsBitmap plain_reader birds_table filters
      birds_world chosen birds_world 9 found_all

-- It proposes the row 5 if it may.
abbrev proposes_five : CandidateSource predicates shelves
proposes_five = record { candidates = λ within limit. done (keep_if (within 5)) }
  where
    keep_if : Bool → List ℕ
    keep_if true = 5 ∷ []
    keep_if false = []

proposes_within :
    (within : ℕ → Bool) (limit : ℕ) (s : World shelves) (rows : List ℕ) (t : World shelves)
    → proposes_five.candidates within limit s ≡ (ok rows, t)
    → All (λ r. within r ≡ true) rows
proposes_within within limit s rows t e = elim (Bool-cases (within 5)) [
  | inl h ↦ subst (All (λ r. within r ≡ true)) (answer-eq s t (rw h at e)) (h, tt)
  | inr h ↦ subst (All (λ r. within r ≡ true)) (answer-eq s t (rw h at e)) tt
]

found_five :
    filtered_search toy steady predicates plain_reader birds_table filters proposes_five 1
      birds_world
    ≡ (ok (5 ∷ []), birds_world)
unfolding filtered_search row_ids_all each_set sets_of row_ids require_scope open_table uri
    dataset_path join ends_with_slash starts_with select_row_ids stream_of ids_of intersect_all
found_five = refl

filtered_search-matches_example :
    All (λ r. matches_all toy steady plain_reader birds_table filters birds_world r ≡ true) (5 ∷ [])
filtered_search-matches_example =
    filtered_search-matches toy steady predicates predicates-IsBitmap plain_reader birds_table
      filters proposes_five 1 birds_world (5 ∷ []) birds_world proposes_within found_five

-- The row 5 has a vector, and the row 7 has none.
abbrev of_five : List (RowVector ℕ)
of_five = record { row = 5; chunk = 0; embedding = wide 384 1 } ∷ []

abbrev texts_present : List (ℕ × Text)
texts_present = (5, codes "owl") ∷ (7, codes "eagle") ∷ []

abbrev rebuilt_vectors : List (RowVector ℕ)
rebuilt_vectors =
    record { row = 5; chunk = 0; embedding = wide 384 1 }
    ∷ record { row = 7; chunk = 0; embedding = wide 384 5 }
    ∷ []

rebuilt :
    rebuild birds_table one_vector of_five texts_present birds_world
    ≡ (ok rebuilt_vectors, birds_world)
unfolding rebuild number_chunks kept_for
rebuilt = refl

rebuild-embeddings_example :
    All
      (λ x. IsDue one_vector x.1 (embeddings_in x.0 of_five) (embeddings_in x.0 rebuilt_vectors))
      texts_present
rebuild-embeddings_example =
    rebuild-embeddings birds_table one_vector of_five texts_present birds_world rebuilt_vectors
      birds_world (refl, (refl, tt)) rebuilt

-- A companion table that is not in order.
abbrev companion : World shelves
companion = record {
  disk =
      (
        codes "/db/birds.title.vectors.lance",
        record {
          ids = 7 ∷ 5 ∷ 5 ∷ [];
          chunk_ids = 0 ∷ 1 ∷ 0 ∷ [];
          texts = [];
          vectors = (1 ∷ []) ∷ (2 ∷ []) ∷ (3 ∷ []) ∷ [];
        }
            ∷ [],
      )
      ∷ [];
  log = none;
}

abbrev in_order : List (RowVector ℕ)
in_order =
    record { row = 5; chunk = 0; embedding = 3 ∷ [] }
    ∷ record { row = 5; chunk = 1; embedding = 2 ∷ [] }
    ∷ record { row = 7; chunk = 0; embedding = 1 ∷ [] }
    ∷ []

read_in_order :
    vectors_of toy steady plain_reader birds_table (codes "title") companion
    ≡ (ok in_order, companion)
unfolding vectors_of require_scope open_table vector_table uri dataset_path join ends_with_slash
    starts_with collect stream_of strip_batches read_vectors sort_vectors insert_vector
read_in_order = refl

vectors_of-IsOrdered_example : IsOrdered in_order
vectors_of-IsOrdered_example =
    vectors_of-IsOrdered toy steady plain_reader birds_table (codes "title") companion in_order
      companion read_in_order

abbrev refreshed : World shelves
refreshed = record {
  disk =
      put (codes "/db/birds.title.vectors.lance")
        (record {
          ids = 5 ∷ 7 ∷ [];
          chunk_ids = 0 ∷ 0 ∷ [];
          texts = [];
          vectors = chunks 384 (wide 384 1 ++ (wide 384 5 ++ []));
        }
          ∷ [])
        birds_disk;
  log = none;
}

refreshes :
    refresh toy steady plain_reader birds_table
      (codes "title")
      one_vector
      of_five
      texts_present
      birds_world
    ≡ (ok tt, refreshed)
unfolding refresh rebuild number_chunks kept_for row_set insert_row write_vectors vector_table uri
    dataset_path join ends_with_slash starts_with
refreshes = refl

-- What is read after it.
reads_refreshed :
    vectors_of toy steady plain_reader birds_table (codes "title") refreshed
    ≡ (ok rebuilt_vectors, refreshed)
unfolding vectors_of require_scope open_table vector_table uri dataset_path join ends_with_slash
    starts_with collect stream_of strip_batches read_vectors sort_vectors insert_vector chunks
reads_refreshed = refl

refresh-IsSettled_example :
    IsSettled one_vector of_five texts_present birds_world refreshed rebuilt_vectors
refresh-IsSettled_example =
    refresh-IsSettled toy steady shelves-KeepsVectors plain_reader birds_table (codes "title")
      one_vector of_five texts_present birds_world refreshed rebuilt_vectors refreshed refl
      (refl, (refl, tt)) refreshes reads_refreshed
