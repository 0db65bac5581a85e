-- ===== src/Batch/Inputs.antt =====
-- `_make_inputs` up to the tensors: the sort by phase and the loop over the sorted inputs.
use lmserve.Prelude.{ℕ, ◌+◌, ◌-◌, List, [], ◌∷◌, ◌++◌, ltb, leb, ◌==◌, if◌then◌else◌, range_from}

-- The message `InferInput` of proto/worker.proto.
pub record InferInput : Type 0 where
  pub seq_id : ℕ
  pub input_ids : List ℕ
  pub input_len : ℕ
  pub filled_token_len : ℕ
  pub context_len : ℕ
  pub block_ids : List ℕ

-- `inputs.sort(key=lambda x: -x.input_len)`: Python's sort is stable, so the first of two inputs
-- with one key stays first.
unfoldable pub insert_input : InferInput → List InferInput → List InferInput
insert_input x [] = x ∷ []
insert_input x (y ∷ ys) = if leb y.input_len x.input_len then x ∷ y ∷ ys else y ∷ insert_input x ys

unfoldable pub sort_inputs : List InferInput → List InferInput
unfolding insert_input
sort_inputs [] = []
sort_inputs (x ∷ xs) = insert_input x (sort_inputs xs)

-- The variables of the loop over the inputs.
pub record Batch : Type 0 where
  pub flatten_input_ids : List ℕ
  pub position_ids : List ℕ
  pub prefill_input_len : ℕ
  pub seqlens_q : List ℕ
  pub seqlens_k : List ℕ
  pub prefill_data_list : List InferInput
  pub decode_data_list : List InferInput

abbrev pub empty_batch : Batch
empty_batch = record {
  flatten_input_ids = [];
  position_ids = [];
  prefill_input_len = 0;
  seqlens_q = [];
  seqlens_k = [];
  prefill_data_list = [];
  decode_data_list = [];
}

-- The `if`/`elif` on the phase of one input.
unfoldable pub route : Batch → InferInput → Batch
route b d =
    if ltb 1 d.input_len
    then record b {
      prefill_input_len = b.prefill_input_len + d.input_len;
      prefill_data_list = b.prefill_data_list ++ d ∷ [];
    }
    else if d.input_len == 1
    then record b { decode_data_list = b.decode_data_list ++ d ∷ [] }
    else b

-- One round of the loop.
unfoldable pub add_input : Batch → InferInput → Batch
unfolding route
add_input b d =
    let b' = route b d in
    record b' {
      flatten_input_ids = b'.flatten_input_ids ++ d.input_ids;
      position_ids =
          b'.position_ids ++ range_from d.filled_token_len (d.context_len - d.filled_token_len);
      seqlens_q = b'.seqlens_q ++ d.input_len ∷ [];
      seqlens_k = b'.seqlens_k ++ d.context_len ∷ [];
    }

unfoldable pub collect : List InferInput → Batch → Batch
unfolding add_input
collect [] b = b
collect (d ∷ ds) b = collect ds (add_input b d)
