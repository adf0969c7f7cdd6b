-- ===== src/Fusion.antt =====
-- crates/euledb-storage/src/fusion.rs: Reciprocal Rank Fusion of two rankings.
-- A row id is a number. The 32-bit floats are a parameter: a reciprocal of a sum, an addition and a
-- comparison are all that the code does with them.
pub mod Ranks
pub mod Order
pub mod Sorted
use eule_db.Common.{
  ℕ, suc, ◌+◌, List, [], ◌∷◌, ◌++◌, take, Bool, true, false, not, Option, some, none, ltb, ◌==◌,
  if◌then◌else◌,
}
use Prim.Native.Nat.{compare, Ordering}

-- What the code does with an `f32`.
pub record Float32 : Type 1 where
  pub F32 : Type 0
  -- `1.0 / (k as f32 + rank as f32)`
  pub reciprocal : ℕ → ℕ → F32
  pub plus : F32 → F32 → F32
  -- `partial_cmp`, `none` where one of the two is no number
  pub partial_cmp : F32 → F32 → Option Ordering

abbrev pub default_k : ℕ
default_k = 60

abbrev pub small_corpus_k : ℕ
small_corpus_k = 15

abbrev pub small_corpus_threshold : ℕ
small_corpus_threshold = 100

unfoldable pub choose_k : ℕ → ℕ
choose_k documents = if ltb documents small_corpus_threshold then small_corpus_k else default_k

module _ (f : Float32) where
  pub record FusedHit : Type 0 where
    pub row : ℕ
    pub score : f.F32
    pub vector_rank : Option ℕ
    pub lexical_rank : Option ℕ

  pub record Fused : Type 0 where
    pub hits : List FusedHit
    pub effective_k : ℕ

  unfoldable pub first_hit : Bool → ℕ → ℕ → f.F32 → FusedHit
  first_hit lexical_side row rank contribution = record {
    row = row;
    score = contribution;
    vector_rank = if lexical_side then none else some rank;
    lexical_rank = if lexical_side then some rank else none;
  }

  unfoldable pub another_hit : Bool → ℕ → f.F32 → FusedHit → FusedHit
  another_hit lexical_side rank contribution hit = record {
    row = hit.row;
    score = f.plus hit.score contribution;
    vector_rank = if lexical_side then hit.vector_rank else some rank;
    lexical_rank = if lexical_side then some rank else hit.lexical_rank;
  }

  -- `hits.iter_mut().find(..)`, and the two arms of its match.
  unfoldable pub add_hit : Bool → ℕ → ℕ → f.F32 → List FusedHit → List FusedHit
  add_hit lexical_side row rank contribution [] = first_hit lexical_side row rank contribution ∷ []
  add_hit lexical_side row rank contribution (hit ∷ hits) = elim (hit.row == row) [
    | true ↦ another_hit lexical_side rank contribution hit ∷ hits
    | false ↦ hit ∷ add_hit lexical_side row rank contribution hits
  ]

  -- `contribute`, from the row at `rank` on.
  unfoldable pub contribute : ℕ → Bool → ℕ → List ℕ → List FusedHit → List FusedHit
  contribute k lexical_side rank [] hits = hits
  contribute k lexical_side rank (row ∷ rows) hits =
      contribute k lexical_side (suc rank) rows
        (add_hit lexical_side row rank (f.reciprocal k rank) hits)

  unfoldable pub cmp_hits : FusedHit → FusedHit → Ordering
  cmp_hits a b = elim (f.partial_cmp b.score a.score) [
    | some Ordering.lt ↦ Ordering.lt
    | some Ordering.gt ↦ Ordering.gt
    | _ ↦ compare a.row b.row
  ]

  -- `sort_by`, which is stable.
  unfoldable pub insert_hit : FusedHit → List FusedHit → List FusedHit
  insert_hit a [] = a ∷ []
  insert_hit a (b ∷ hits) = elim (cmp_hits a b) [
    | Ordering.gt ↦ b ∷ insert_hit a hits
    | _ ↦ a ∷ b ∷ hits
  ]

  unfoldable pub sort_hits : List FusedHit → List FusedHit
  unfolding insert_hit
  sort_hits [] = []
  sort_hits (a ∷ hits) = insert_hit a (sort_hits hits)

  unfoldable pub contributed : ℕ → List ℕ → List ℕ → List FusedHit
  unfolding contribute
  contributed k vector lexical = contribute k true 1 lexical (contribute k false 1 vector [])

  unfoldable pub fuse : List ℕ → List ℕ → ℕ → ℕ → Fused
  unfolding contributed sort_hits choose_k
  fuse vector lexical documents limit = record {
    hits = take limit (sort_hits (contributed (choose_k documents) vector lexical));
    effective_k = choose_k documents;
  }
