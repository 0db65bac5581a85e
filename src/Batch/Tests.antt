-- ===== src/Batch/Tests.antt =====
-- Runs of `_make_inputs`, and its theorems at a batch of one prefill, two decodes and an input of
-- length 0.
use mathlib.Core.List.{Perm}
use lmserve.Prelude.{
  ◌≡◌, refl, true, List, [], ◌∷◌, take, drop, some, none, ◌&&◌, if◌then◌else◌, ok, raise,
  zero_division_error, arith, All,
}
use lmserve.Batch.Inputs.{InferInput}
use lmserve.Batch.Order.{prefills, decodes}
use lmserve.Batch.Pages.{input_lens}
use lmserve.Batch.Make.{FlashInfer, BatchConfig, MadeInputs, PagedParams, make_inputs}
use lmserve.Batch.Collect.{IsWellFormed, token_ids}
use lmserve.Batch.Layout.{make_inputs-layout}
use lmserve.Batch.Paging.{prefill_plan, decode_plan, paged_spec, make_inputs-total}
use lmserve.Batch.Positions.{
  differences, paged_lens, append_positions, batch_indices_from, IsDocumented, IsPaged,
  positions-make_inputs,
}

abbrev pub documented : FlashInfer
documented = record {
  get_seq_lens = λ indptr lasts p. paged_lens (differences indptr) lasts p;
  get_batch_indices_positions = λ indptr lens nnz.
      (batch_indices_from 0 (differences indptr), append_positions (differences indptr) lens);
}

pub documented-IsDocumented : IsDocumented documented
documented-IsDocumented = record {
  seq_lens = λ indptr lasts p. refl;
  indices = λ indptr lens nnz h. refl;
  positions = λ indptr lens nnz h. refl;
}

abbrev pub config : BatchConfig
config = record {
  has_kv_caches = true;
  heads = record { num_qo_heads = 8; num_kv_heads = 2; head_dim = 64 };
  block_size = 4;
}

abbrev pub decode_one : InferInput
decode_one = record {
  seq_id = 1;
  input_ids = 11 ∷ [];
  input_len = 1;
  filled_token_len = 4;
  context_len = 5;
  block_ids = 7 ∷ 2 ∷ [];
}

abbrev idle : InferInput
idle = record {
  seq_id = 2;
  input_ids = [];
  input_len = 0;
  filled_token_len = 0;
  context_len = 0;
  block_ids = [];
}

abbrev pub prefill_three : InferInput
prefill_three = record {
  seq_id = 3;
  input_ids = 31 ∷ 32 ∷ 33 ∷ [];
  input_len = 3;
  filled_token_len = 2;
  context_len = 5;
  block_ids = 0 ∷ 3 ∷ [];
}

abbrev pub inputs : List InferInput
inputs =
    decode_one ∷ idle ∷ prefill_three ∷ record decode_one { seq_id = 4; input_ids = 41 ∷ [] } ∷ []

abbrev pub sorted : List InferInput
sorted =
    prefill_three ∷ decode_one ∷ record decode_one { seq_id = 4; input_ids = 41 ∷ [] } ∷ idle ∷ []

abbrev pub tables : PagedParams
tables = paged_spec documented config sorted

abbrev pub batch : MadeInputs
batch = record {
  inputs = sorted;
  input_ids = 31 ∷ 32 ∷ 33 ∷ 11 ∷ 41 ∷ [];
  params = record {
    position_ids = 2 ∷ 3 ∷ 4 ∷ 4 ∷ 4 ∷ [];
    cu_seqlens_q = 0 ∷ 3 ∷ 4 ∷ 5 ∷ 5 ∷ [];
    prefill_input_len = 3;
    paged = some tables;
  };
}

program : Unit {0}
unfolding make_inputs differences paged_lens append_positions batch_indices_from prefills decodes
    prefill_plan decode_plan token_ids
program = tt

pub run : make_inputs documented config inputs true ≡ ok batch
unfolding program
run = refl

no_pages :
    make_inputs documented (record config { block_size = 0 }) inputs true
    ≡ raise zero_division_error
unfolding program
no_pages = refl

positions_run : tables.positions ≡ 2 ∷ 3 ∷ 4 ∷ 4 ∷ 4 ∷ []
unfolding program
positions_run = refl

pub well_formed : All IsWellFormed inputs
well_formed = omega arith

paged : All (IsPaged 4) inputs
paged = omega arith

make_inputs-layout_example :
    Perm sorted inputs
    × (take 3 batch.input_ids ≡ token_ids (prefills sorted))
    × (drop 3 batch.input_ids ≡ token_ids (decodes sorted))
make_inputs-layout_example = make_inputs-layout documented config inputs true run well_formed

make_inputs-total_example :
    (m : MadeInputs) × (make_inputs documented config inputs true ≡ ok m)
    × (m.params.paged ≡ (
        if config.has_kv_caches && true
        then some (paged_spec documented config m.inputs)
        else none))
make_inputs-total_example = make_inputs-total documented config (omega arith) inputs true

positions-make_inputs_example :
    (tables.positions ≡ batch.params.position_ids)
    × (tables.batch_indices ≡ batch_indices_from 0 (input_lens sorted))
positions-make_inputs_example =
    positions-make_inputs documented documented-IsDocumented config (omega arith) inputs well_formed
      paged run {p = tables} refl
