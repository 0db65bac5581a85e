-- ===== src/Loading/Shards.antt =====
-- `load_weights`: the part of a loaded weight that belongs to a rank.
use lmserve.Prelude.{
  ℕ, zero, suc, ◌+◌, ◌-◌, ◌*◌, ◌≤◌, ◌<◌, ◌≡◌, refl, sym, ap, ◌∙◌, Bool, true, false, ◌&&◌, List, [],
  ◌∷◌, ◌++◌, map, ◌==◌, if◌then◌else◌, All, length, take, drop, concat, take_all, length-map,
  length-take, length-drop, min, range_from, Result, ok, raise, index_error, assertion_error, arith,
}

-- A tensor of one dimension, or of two with its number of columns.
pub data Weight (A : Type 0) : Type 0 where
  vector : List A → Weight A
  matrix : ℕ → List (List A) → Weight A

-- The class of the layer and the name of the parameter.
pub data LayerType : Type 0 where
  vocab_parallel_embedding column_parallel_linear row_parallel_linear other_layer : LayerType

pub data ParamType : Type 0 where
  weight bias : ParamType

-- `l[start:end]`
unfoldable pub slice {ℓ} : {A : Type ℓ} → ℕ → ℕ → List A → List A
slice start end l = drop start (take end l)

module _ {A : Type 0} where
  -- `param.shape[0]`
  abbrev pub num_rows : Weight A → ℕ
  num_rows (vector l) = length l
  num_rows (matrix c rows) = length rows

  -- `w[start:end]`
  unfoldable pub slice_rows : ℕ → ℕ → Weight A → Weight A
  unfolding slice
  slice_rows start end (vector l) = vector (slice start end l)
  slice_rows start end (matrix c rows) = matrix c (slice start end rows)

  -- `w[:, start:end]`; a tensor of one dimension has no second one.
  unfoldable pub slice_cols : ℕ → ℕ → Weight A → Result (Weight A)
  unfolding slice
  slice_cols start end (vector l) = raise index_error
  slice_cols start end (matrix c rows) =
      ok (matrix (min end c - min start c) (map (slice start end) rows))

  unfoldable pub same_shape : Weight A → Weight A → Bool
  same_shape (vector l) (vector k) = length l == length k
  same_shape (matrix c rows) (matrix d rows') = (length rows == length rows') && (c == d)
  same_shape _ _ = false

  -- The two branches of the `if` on the class of the layer, and neither.
  unfoldable pub shard_of : Weight A → Weight A → LayerType → ParamType → ℕ → Result (Weight A)
  unfolding slice_rows slice_cols
  shard_of param loaded vocab_parallel_embedding p rank =
      ok (slice_rows (rank * num_rows param) ((rank + 1) * num_rows param) loaded)
  shard_of param loaded column_parallel_linear p rank =
      ok (slice_rows (rank * num_rows param) ((rank + 1) * num_rows param) loaded)
  shard_of param loaded row_parallel_linear bias rank =
      slice_cols (rank * num_rows param) ((rank + 1) * num_rows param) loaded
  shard_of (vector l) loaded row_parallel_linear weight rank = raise index_error
  shard_of (matrix c rows) loaded row_parallel_linear weight rank =
      slice_cols (rank * c) ((rank + 1) * c) loaded
  shard_of param loaded other_layer p rank = ok loaded

  -- What `param.data.copy_` leaves in the parameter.
  unfoldable pub load_weights : Weight A → Weight A → LayerType → ParamType → ℕ → Result (Weight A)
  unfolding shard_of same_shape
  load_weights param loaded layer p rank = elim (shard_of param loaded layer p rank) [
    | raise e ↦ raise e
    | ok shard ↦ if same_shape param shard then ok shard else raise assertion_error
  ]

-- Slices that follow each other.
slice-nil {ℓ} : {A : Type ℓ} (a b : ℕ) → slice {A = A} a b [] ≡ []
unfolding slice
slice-nil zero zero = refl
slice-nil zero (suc b) = refl
slice-nil (suc a) zero = refl
slice-nil (suc a) (suc b) = refl

slice-slice {ℓ} :
    {A : Type ℓ} (a b c : ℕ) (l : List A) → a ≤ b → b ≤ c → slice a b l ++ slice b c l ≡ slice a c l
unfolding slice
slice-slice a b c [] h h' = rw (slice-nil a b, slice-nil b c, slice-nil a c) refl
slice-slice zero zero c (x ∷ l) h h' = refl
slice-slice zero (suc b) zero (x ∷ l) h h' = absurd (omega arith)
slice-slice zero (suc b) (suc c) (x ∷ l) h h' =
    ap (◌∷◌ x) (slice-slice zero b c l (omega arith) (omega arith))
slice-slice (suc a) zero c (x ∷ l) h h' = absurd (omega arith)
slice-slice (suc a) (suc b) zero (x ∷ l) h h' = absurd (omega arith)
slice-slice (suc a) (suc b) (suc c) (x ∷ l) h h' = slice-slice a b c l (omega arith) (omega arith)

slice_empty {ℓ} : {A : Type ℓ} (a : ℕ) (l : List A) → slice a a l ≡ []
unfolding slice
slice_empty zero l = refl
slice_empty (suc a) [] = refl
slice_empty (suc a) (x ∷ l) = slice_empty a l

length-slice {ℓ} :
    {A : Type ℓ} (a n : ℕ) (l : List A) → a + n ≤ length l → length (slice a (a + n) l) ≡ n
unfolding slice
length-slice a n l h = omega (arith, length-drop a (take (a + n) l), length-take (a + n) l)

-- The slices of all ranks, joined.
abbrev pub slices {ℓ} : {A : Type ℓ} → ℕ → List ℕ → List A → List A
slices n ranks l = concat (map (λ rank. slice (rank * n) ((rank + 1) * n) l) ranks)

slices-range {ℓ} :
    {A : Type ℓ} (n world start : ℕ) (l : List A)
    → slices n (range_from start world) l ≡ slice (start * n) ((start + world) * n) l
slices-range n zero start l =
    sym (slice_empty (start * n) l) ∙ ap (λ (t : ℕ). slice (start * n) (t * n) l) (omega arith)
slices-range n (suc world) start l =
    let rest = slices-range n world (start + 1) l in
    ap (◌++◌ (slice (start * n) ((start + 1) * n) l)) rest
    ∙ slice-slice (start * n) ((start + 1) * n) (((start + 1) + world) * n) l (omega arith)
        (omega arith)
    ∙ ap (λ (t : ℕ). slice (start * n) (t * n) l) (omega arith)

slices-all {ℓ} :
    {A : Type ℓ} (n world : ℕ) (l : List A)
    → length l ≡ world * n
    → slices n (range_from 0 world) l ≡ l
unfolding slice
slices-all n world l h =
    let none_before : 0 * n ≡ 0 = omega arith in
    slices-range n world 0 l
    ∙ ap (λ (t : ℕ). drop t (take ((0 + world) * n) l)) none_before
    ∙ take_all ((0 + world) * n) l (omega (arith, h))

scaled : (rank world n : ℕ) → rank < world → rank * n + n ≤ world * n
scaled rank zero n h = absurd (omega arith)
scaled zero (suc world) n h = omega arith
scaled (suc rank) (suc world) n h = omega (arith, scaled rank world n (omega arith))

module _ {A : Type 0} where
  -- If the rows of a loaded weight are those of a parameter for each rank, then a column-parallel layer
  -- and a vocabulary embedding load on each rank a shard of the parameter's shape, and the shards of
  -- all ranks in order are the whole weight.
  pub load_weights-columns :
      (c world rank : ℕ) (param rows : List (List A)) (p : ParamType)
      → length rows ≡ world * length param
      → rank < world
      → (load_weights (matrix c param) (matrix c rows) column_parallel_linear p rank
          ≡ ok (matrix c (slice (rank * length param) ((rank + 1) * length param) rows)))
        × (load_weights (matrix c param) (matrix c rows) vocab_parallel_embedding p rank
            ≡ ok (matrix c (slice (rank * length param) ((rank + 1) * length param) rows)))
        × (slices (length param) (range_from 0 world) rows ≡ rows)
  unfolding load_weights
  load_weights-columns c world rank param rows p h hr =
      let n = length param in
      let next : (rank + 1) * n ≡ rank * n + n = omega arith in
      let room : rank * n + n ≤ length rows = omega (arith, h, scaled rank world n hr) in
      let len : length (slice (rank * n) ((rank + 1) * n) rows) ≡ n =
        rw next (length-slice (rank * n) n rows room) in
      let same : ((n == length (slice (rank * n) ((rank + 1) * n) rows)) && (c == c)) ≡ true =
        rw len (ground arith) in
      (rw (load_weights, same) refl, rw (load_weights, same) refl, slices-all n world rows h)

  -- If the columns of a loaded weight are those of a parameter for each rank, then a row-parallel layer
  -- loads on each rank a shard of the parameter's shape, and in every row the shards of all ranks in
  -- order are the whole row. Its bias is never loaded: an index error is raised for every rank.
  pub load_weights-rows :
      (c world rank : ℕ) (param rows : List (List A)) (bias_param bias_loaded : List A)
      → length rows ≡ length param
      → All (λ row. length row ≡ world * c) rows
      → rank < world
      → (load_weights (matrix c param) (matrix (world * c) rows) row_parallel_linear weight rank
          ≡ ok (matrix c (map (slice (rank * c) ((rank + 1) * c)) rows)))
        × All (λ row. slices c (range_from 0 world) row ≡ row) rows
        × (load_weights (vector bias_param) (vector bias_loaded) row_parallel_linear bias rank
            ≡ raise index_error)
  unfolding load_weights
  load_weights-rows c world rank param rows bias_param bias_loaded h wide hr =
      let width : min ((rank + 1) * c) (world * c) - min (rank * c) (world * c) ≡ c =
        omega (arith, scaled rank world c hr) in
      let same : ((length param == length (map (slice (rank * c) ((rank + 1) * c)) rows))
            && (c == c))
          ≡ true =
        rw (length-map (slice (rank * c) ((rank + 1) * c)) rows, h) (ground arith) in
      (rw (load_weights, width, same) refl, each rows wide, refl)
    where
      each :
          (rs : List (List A))
          → All (λ row. length row ≡ world * c) rs
          → All (λ row. slices c (range_from 0 world) row ≡ row) rs
      each [] w = tt
      each (r ∷ rs) w = (slices-all c world r w.0, each rs w.1)
