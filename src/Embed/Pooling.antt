-- ===== src/Embed/Pooling.antt =====
-- What goes into the graph, and what its output is made into: crates/euledb-embed/src/lib.rs.
use eule_db.Common.{ℕ, zero, suc, List, [], ◌∷◌, length, take, drop}
use eule_db.Common.{leb, ◌==◌, if◌then◌else◌}
use eule_db.Embed.{dimensions, token_limit, pad_token, Model}

unfoldable pub repeated : {A : Type 0} → ℕ → A → List A
repeated zero a = []
repeated (suc n) a = a ∷ repeated n a

unfoldable pub bucket_in : List ℕ → ℕ → ℕ
bucket_in [] real = token_limit
bucket_in (candidate ∷ rest) real = if leb real candidate then candidate else bucket_in rest real

-- The ids over the padding, and ones over the zeros of the mask.
unfoldable pub padded_ids : ℕ → List ℕ → List ℕ
padded_ids zero ids = []
padded_ids (suc n) [] = pad_token ∷ padded_ids n []
padded_ids (suc n) (x ∷ xs) = x ∷ padded_ids n xs

unfoldable pub mask_of : ℕ → ℕ → List ℕ
mask_of zero real = []
mask_of (suc n) zero = 0 ∷ mask_of n zero
mask_of (suc n) (suc real) = 1 ∷ mask_of n real

module _ (m : Model) where
  unfoldable pub add_rows : List m.F32 → List m.F32 → List m.F32
  add_rows [] row = []
  add_rows (x ∷ xs) [] = x ∷ xs
  add_rows (x ∷ xs) (y ∷ ys) = m.plus x y ∷ add_rows xs ys

  unfoldable pub divide_all : List m.F32 → m.F32 → List m.F32
  divide_all [] d = []
  divide_all (x ∷ xs) d = m.over x d ∷ divide_all xs d

  -- The sum of the rows that the mask keeps, and their number.
  unfoldable pub pool_rows : List m.F32 → m.F32 → List m.F32 → List ℕ → List m.F32 × m.F32
  unfolding add_rows
  pool_rows summed counted values [] = (summed, counted)
  pool_rows summed counted values (keep ∷ mask) =
      let rest = drop dimensions values in
      let skipped = pool_rows summed counted rest mask in
      let added =
        pool_rows (add_rows summed (take dimensions values)) (m.plus counted m.one_f32) rest mask in
      if leb dimensions (length values)
      then if keep == 0 then skipped else added
      else (summed, counted)

  abbrev pub mean_of : List m.F32 × m.F32 → List m.F32
  mean_of (summed, counted) = if m.is_positive counted then divide_all summed counted else summed

  unfoldable pub mean_pool : List m.F32 → List ℕ → List m.F32
  unfolding pool_rows divide_all repeated
  mean_pool values mask =
      mean_of (pool_rows (repeated dimensions m.zero_f32) m.zero_f32 values mask)

  unfoldable pub sum_squares : m.F32 → List m.F32 → m.F32
  sum_squares total [] = total
  sum_squares total (x ∷ xs) = sum_squares (m.plus total (m.times x x)) xs

  unfoldable pub normalise : List m.F32 → List m.F32
  unfolding sum_squares divide_all
  normalise vector =
      let norm = m.sqrt (sum_squares m.zero_f32 vector) in
      if m.is_positive norm then divide_all vector norm else vector
