-- ===== src/Batch/Collect.antt =====
-- The loop of `_make_inputs` in closed form.
use lmserve.Prelude.{
  ℕ, ◌+◌, ◌-◌, ◌≡◌, ◌∙◌, List, [], ◌∷◌, ◌++◌, append-nil, append_assoc, arith, length, sum,
  range_from,
}
use lmserve.Batch.Inputs.{InferInput, Batch, empty_batch, route, add_input, collect}
use lmserve.Batch.Order.{prefills, decodes}
use lmserve.Batch.Pages.{input_lens}

-- What the scheduler sends: as many ids as `input_len`, from the filled length up to the context
-- length.
pub record IsWellFormed (d : InferInput) : Type 0 where
  pub ids : length d.input_ids ≡ d.input_len
  pub context : d.context_len ≡ d.filled_token_len + d.input_len

-- The ids of all inputs, in order.
unfoldable pub token_ids : List InferInput → List ℕ
token_ids [] = []
token_ids (d ∷ ds) = d.input_ids ++ token_ids ds

-- The positions of all inputs, in order.
unfoldable pub spans : List InferInput → List ℕ
spans [] = []
spans (d ∷ ds) = range_from d.filled_token_len (d.context_len - d.filled_token_len) ++ spans ds

module _ (b : Batch) (d : InferInput) where
  flatten-route : (route b d).flatten_input_ids ≡ b.flatten_input_ids
  unfolding route
  flatten-route = ground arith

flatten-collect :
    (ds : List InferInput) (b : Batch)
    → (collect ds b).flatten_input_ids ≡ b.flatten_input_ids ++ token_ids ds
unfolding collect token_ids
flatten-collect [] b = rw append-nil
flatten-collect (d ∷ ds) b = ground (
  arith,
  flatten-collect ds (add_input b d),
  append_assoc b.flatten_input_ids d.input_ids (token_ids ds),
)

position_ids-collect :
    (ds : List InferInput) (b : Batch) → (collect ds b).position_ids ≡ b.position_ids ++ spans ds
unfolding collect spans
position_ids-collect [] b = rw append-nil
position_ids-collect (d ∷ ds) b =
    let span = range_from d.filled_token_len (d.context_len - d.filled_token_len) in
    ground
      (arith, position_ids-collect ds (add_input b d), append_assoc b.position_ids span (spans ds))

seqlens_q-collect :
    (ds : List InferInput) (b : Batch) → (collect ds b).seqlens_q ≡ b.seqlens_q ++ input_lens ds
unfolding collect input_lens
seqlens_q-collect [] b = rw append-nil
seqlens_q-collect (d ∷ ds) b = ground (
  arith,
  seqlens_q-collect ds (add_input b d),
  append_assoc b.seqlens_q (d.input_len ∷ []) (input_lens ds),
)

prefill_len-collect :
    (ds : List InferInput) (b : Batch)
    → (collect ds b).prefill_input_len ≡ b.prefill_input_len + sum (input_lens (prefills ds))
unfolding collect input_lens prefills
prefill_len-collect [] b = omega arith
prefill_len-collect (d ∷ ds) b = ground (arith, prefill_len-collect ds (add_input b d))

prefill_list-collect :
    (ds : List InferInput) (b : Batch)
    → (collect ds b).prefill_data_list ≡ b.prefill_data_list ++ prefills ds
unfolding collect prefills
prefill_list-collect [] b = rw append-nil
prefill_list-collect (d ∷ ds) b = ground (
  arith,
  prefill_list-collect ds (add_input b d),
  append_assoc b.prefill_data_list (d ∷ []) (prefills ds),
)

decode_list-collect :
    (ds : List InferInput) (b : Batch)
    → (collect ds b).decode_data_list ≡ b.decode_data_list ++ decodes ds
unfolding collect decodes
decode_list-collect [] b = rw append-nil
decode_list-collect (d ∷ ds) b = ground (
  arith,
  decode_list-collect ds (add_input b d),
  append_assoc b.decode_data_list (d ∷ []) (decodes ds),
)

-- The loop from the start, in closed form.
pub collect_closed :
    (ds : List InferInput)
    → ((collect ds empty_batch).flatten_input_ids ≡ token_ids ds)
      × ((collect ds empty_batch).position_ids ≡ spans ds)
      × ((collect ds empty_batch).seqlens_q ≡ input_lens ds)
      × ((collect ds empty_batch).prefill_input_len ≡ sum (input_lens (prefills ds)))
      × ((collect ds empty_batch).prefill_data_list ≡ prefills ds)
      × ((collect ds empty_batch).decode_data_list ≡ decodes ds)
collect_closed ds = (
  flatten-collect ds empty_batch,
  position_ids-collect ds empty_batch,
  seqlens_q-collect ds empty_batch,
  prefill_len-collect ds empty_batch ∙ omega arith,
  prefill_list-collect ds empty_batch,
  decode_list-collect ds empty_batch,
)
