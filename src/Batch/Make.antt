-- ===== src/Batch/Make.antt =====
-- `_make_inputs` as a whole, over the two functions of flashinfer that it calls.
use lmserve.Prelude.{
  ℕ, Bool, ◌&&◌, List, [], ◌∷◌, Option, none, some, if◌then◌else◌, sum, Result, ok, ◌>>=◌,
}
use lmserve.Batch.Inputs.{InferInput, sort_inputs, Batch, empty_batch, collect}
use lmserve.Batch.Pages.{
  cumsum, empty_pages, page_loop, Heads, PrefillWrapper, DecodeWrapper, build_prefill_wrapper,
  build_decode_wrapper,
}

-- `flashinfer.get_seq_lens` and `flashinfer.get_batch_indices_positions`, in the source's argument
-- order.
pub record FlashInfer : Type 0 where
  pub get_seq_lens : List ℕ → List ℕ → ℕ → List ℕ
  pub get_batch_indices_positions : List ℕ → List ℕ → ℕ → List ℕ × List ℕ

-- What `_make_inputs` reads from the `ModelWorker`; `has_kv_caches` is
-- `self.kv_caches is not None`.
pub record BatchConfig : Type 0 where
  pub has_kv_caches : Bool
  pub heads : Heads
  pub block_size : ℕ

-- The fields that only the branch with a cache fills.
pub record PagedParams : Type 0 where
  pub prefill_wrapper : Option PrefillWrapper
  pub decode_wrapper : Option DecodeWrapper
  pub batch_indices : List ℕ
  pub positions : List ℕ
  pub kv_block_indices : List ℕ
  pub kv_block_indptrs : List ℕ
  pub kv_last_block_lens : List ℕ

pub record InputParams : Type 0 where
  pub position_ids : List ℕ
  pub cu_seqlens_q : List ℕ
  pub prefill_input_len : ℕ
  pub paged : Option PagedParams

-- What `_make_inputs` returns, and `inputs` as its sort in place leaves it.
pub record MadeInputs : Type 0 where
  pub inputs : List InferInput
  pub input_ids : List ℕ
  pub params : InputParams

-- `if len(prefill_data_list) > 0: ... else: prefill_wrapper = None`
unfoldable pub prefill_wrapper_of : List InferInput → Heads → ℕ → Result (Option PrefillWrapper)
unfolding build_prefill_wrapper
prefill_wrapper_of [] heads page_size = ok none
prefill_wrapper_of (d ∷ ds) heads page_size = do
  wrapper ← build_prefill_wrapper (d ∷ ds) heads page_size
  ok (some wrapper)

unfoldable pub decode_wrapper_of : List InferInput → Heads → ℕ → Result (Option DecodeWrapper)
unfolding build_decode_wrapper
decode_wrapper_of [] heads page_size = ok none
decode_wrapper_of (d ∷ ds) heads page_size = do
  wrapper ← build_decode_wrapper (d ∷ ds) heads page_size
  ok (some wrapper)

abbrev pub made : List InferInput → Batch → Option PagedParams → MadeInputs
made inputs b paged = record {
  inputs = inputs;
  input_ids = b.flatten_input_ids;
  params = record {
    position_ids = b.position_ids;
    cu_seqlens_q = cumsum b.seqlens_q;
    prefill_input_len = b.prefill_input_len;
    paged = paged;
  };
}

module _ (fi : FlashInfer) where
  -- The branch with a cache.
  unfoldable pub paged_params : BatchConfig → List InferInput → Batch → Result PagedParams
  unfolding page_loop cumsum prefill_wrapper_of decode_wrapper_of
  paged_params w inputs b = do
    prefill_wrapper ← prefill_wrapper_of b.prefill_data_list w.heads w.block_size
    decode_wrapper ← decode_wrapper_of b.decode_data_list w.heads w.block_size
    pages ← page_loop w.block_size inputs empty_pages
    let indptrs = cumsum pages.num_blocks_per_seqs
    let (batch_indices, positions) =
        fi.get_batch_indices_positions (cumsum b.seqlens_q)
          (fi.get_seq_lens indptrs pages.kv_last_block_lens w.block_size) (sum b.seqlens_q)
    ok (record {
      prefill_wrapper = prefill_wrapper;
      decode_wrapper = decode_wrapper;
      batch_indices = batch_indices;
      positions = positions;
      kv_block_indices = pages.kv_block_indices;
      kv_block_indptrs = indptrs;
      kv_last_block_lens = pages.kv_last_block_lens;
    })

  unfoldable pub make_inputs : BatchConfig → List InferInput → Bool → Result MadeInputs
  unfolding sort_inputs collect paged_params
  make_inputs w inputs use_cache =
      let sorted = sort_inputs inputs in
      let b = collect sorted empty_batch in
      if w.has_kv_caches && use_cache
      then (do paged ← paged_params w sorted b; ok (made sorted b (some paged)))
      else ok (made sorted b none)
