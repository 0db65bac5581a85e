-- ===== src/Loading/Tests.antt =====
-- Witnesses: a model on two ranks, the sizes of its caches, its weight files and its shards.
use lmserve.Prelude.{
  ℕ, ◌*◌, ◌≤◌, ◌<◌, ◌≡◌, refl, List, [], ◌∷◌, some, All, range_from, ok, raise, index_error, arith,
}
use lmserve.Loading.Config.{
  TfConfig, ModelConfig, model_config, model_config-heads, block_bytes, CacheSizes, CacheBlocks,
  init_cache, init_cache-Fits, Fits,
}
use lmserve.Loading.Files.{get_hf_weight_files}
use lmserve.Loading.Shards.{
  matrix, vector, column_parallel_linear, vocab_parallel_embedding, row_parallel_linear, weight,
  bias, slices, load_weights, load_weights-columns, load_weights-rows,
}

program : Unit {0}
unfolding model_config block_bytes get_hf_weight_files load_weights
program = tt

abbrev tf : TfConfig
tf = record {
  num_hidden_layers = 2;
  hidden_size = 64;
  num_attention_heads = 8;
  num_key_value_heads = some 4;
  dtype_bits = 16;
}

abbrev config : ModelConfig
config = record {
  num_layers = 2;
  hidden_size = 64;
  head_dim = 8;
  num_heads = 4;
  num_kv_heads = 2;
  dtype_bits = 16;
}

model_config-heads_example : (0 < 2) × (0 < 8) × (4 * 2 ≡ 8) × (2 * 2 ≡ 4) × (8 * 8 ≤ 64)
unfolding program
model_config-heads_example = model_config-heads tf 2 config refl

abbrev sizes : CacheSizes
sizes = record { gpu_cache_size = 10000; host_cache_size = 20000; disk_cache_size = 0 }

init_cache-Fits_example :
    (n : CacheBlocks) × (init_cache config 16 sizes ≡ ok n)
    × (n.num_layers ≡ 2)
    × Fits n.num_gpu_blocks 2048 10000
    × Fits n.num_host_blocks 2048 20000
    × Fits n.num_disk_blocks 2048 0
init_cache-Fits_example = init_cache-Fits config 16 sizes (omega arith)

abbrev rows : List (List ℕ)
rows = (1 ∷ 2 ∷ []) ∷ (3 ∷ 4 ∷ []) ∷ (5 ∷ 6 ∷ []) ∷ (7 ∷ 8 ∷ []) ∷ []

abbrev param : List (List ℕ)
param = (0 ∷ 0 ∷ []) ∷ (0 ∷ 0 ∷ []) ∷ []

load_weights-columns_example :
    (load_weights (matrix 2 param) (matrix 2 rows) column_parallel_linear weight 1
      ≡ ok (matrix 2 ((5 ∷ 6 ∷ []) ∷ (7 ∷ 8 ∷ []) ∷ [])))
    × (load_weights (matrix 2 param) (matrix 2 rows) vocab_parallel_embedding weight 1
        ≡ ok (matrix 2 ((5 ∷ 6 ∷ []) ∷ (7 ∷ 8 ∷ []) ∷ [])))
    × (slices 2 (range_from 0 2) rows ≡ rows)
unfolding program
load_weights-columns_example = load_weights-columns 2 2 1 param rows weight refl (omega arith)

load_weights-rows_example :
    (load_weights
        (matrix 1 ((0 ∷ []) ∷ (0 ∷ []) ∷ (0 ∷ []) ∷ (0 ∷ []) ∷ []))
        (matrix 2 rows)
        row_parallel_linear
        weight
        1
      ≡ ok (matrix 1 ((2 ∷ []) ∷ (4 ∷ []) ∷ (6 ∷ []) ∷ (8 ∷ []) ∷ [])))
    × All (λ row. slices 1 (range_from 0 2) row ≡ row) rows
    × (load_weights {A = ℕ} (vector (0 ∷ [])) (vector (9 ∷ [])) row_parallel_linear bias 1
        ≡ raise index_error)
unfolding program
load_weights-rows_example =
    load_weights-rows 1 2 1 ((0 ∷ []) ∷ (0 ∷ []) ∷ (0 ∷ []) ∷ (0 ∷ []) ∷ []) rows (0 ∷ []) (9 ∷ [])
      refl (refl, (refl, (refl, (refl, tt)))) (omega arith)
