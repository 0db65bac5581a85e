-- ===== src/Warmup.antt =====
-- `ModelWorker.warmup` of runtime/worker/llm_worker/model_worker.py: the synthetic inputs on which
-- the peak memory of a forward pass is measured.
mod Spread
pub mod Run
pub mod Fit
mod Tests
use lmserve.Prelude.{
  ℕ, zero, suc, ◌+◌, ◌-◌, ◌*◌, ◌/◌, ◌%◌, true, List, [], ◌∷◌, ◌++◌, ◌==◌, leb, if◌then◌else◌,
  length, replicate, range_from, Result, ok, raise, ◌>>=◌, zero_division_error,
}
use lmserve.Batch.Inputs.{InferInput}
use lmserve.Batch.Make.{FlashInfer, BatchConfig, MadeInputs, make_inputs}

-- `if max_num_batched_tokens <= max_batch_size * max_seq_len: ... else: ...`
unfoldable pub num_total_tokens : ℕ → ℕ → ℕ → ℕ
num_total_tokens max_batch_size max_seq_len max_num_batched_tokens =
    if leb max_num_batched_tokens (max_batch_size * max_seq_len)
    then max_num_batched_tokens
    else max_batch_size * max_seq_len

-- `token_ids_list[j].append(t)`
unfoldable pub append_at : ℕ → ℕ → List (List ℕ) → List (List ℕ)
append_at j t [] = []
append_at zero t (l ∷ ls) = (l ++ t ∷ []) ∷ ls
append_at (suc j) t (l ∷ ls) = l ∷ append_at j t ls

-- `for i, token_id in enumerate(total_token_ids): token_ids_list[i % max_batch_size].append(...)`
unfoldable pub spread : ℕ → ℕ → List ℕ → List (List ℕ) → List (List ℕ)
unfolding append_at
spread n i [] lists = lists
spread n i (t ∷ ts) lists = spread n (suc i) ts (append_at (i % n) t lists)

-- `(input_len + block_size - 1) // block_size`
unfoldable pub num_kv_blocks : ℕ → ℕ → Result ℕ
num_kv_blocks input_len block_size =
    if block_size == 0
    then raise zero_division_error
    else ok ((input_len + block_size - 1) / block_size)

-- The loop that makes one `InferInput` of each list of ids.
unfoldable pub make_infer_inputs : ℕ → ℕ → List (List ℕ) → Result (List InferInput)
unfolding num_kv_blocks
make_infer_inputs block_size i [] = ok []
make_infer_inputs block_size i (token_ids ∷ rest) = do
  blocks ← num_kv_blocks (length token_ids) block_size
  inputs ← make_infer_inputs block_size (suc i) rest
  ok (
      record {
        seq_id = i;
        input_ids = token_ids;
        input_len = length token_ids;
        filled_token_len = 0;
        context_len = length token_ids;
        block_ids = range_from 0 blocks;
      }
      ∷ inputs)

unfoldable pub warmup_inputs : ℕ → ℕ → ℕ → ℕ → Result (List InferInput)
unfolding num_total_tokens spread make_infer_inputs
warmup_inputs block_size max_batch_size max_seq_len max_num_batched_tokens =
    make_infer_inputs block_size 0 (
      spread max_batch_size 0
        (replicate (num_total_tokens max_batch_size max_seq_len max_num_batched_tokens) 0)
        (replicate max_batch_size []))

-- What `warmup` hands to the model. Its outputs are sampled and dropped.
unfoldable pub warmup : FlashInfer → BatchConfig → ℕ → ℕ → ℕ → Result MadeInputs
unfolding warmup_inputs make_inputs
warmup fi w max_batch_size max_seq_len max_num_batched_tokens = do
  inputs ← warmup_inputs w.block_size max_batch_size max_seq_len max_num_batched_tokens
  make_inputs fi w inputs true
