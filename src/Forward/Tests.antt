-- ===== src/Forward/Tests.antt =====
-- The forward pass over the batch of Batch/Tests.antt without its idle input, with rows of numbers.
use lmserve.Prelude.{
  ℕ, ◌+◌, ◌*◌, ◌≡◌, refl, true, List, [], ◌∷◌, ◌++◌, map, length-map, Option, some, take, drop, ok,
  arith, length, All,
}
use lmserve.Batch.Inputs.{InferInput}
use lmserve.Batch.Pages.{input_lens}
use lmserve.Batch.Make.{MadeInputs, PagedParams, make_inputs}
use lmserve.Batch.Collect.{IsWellFormed}
use lmserve.Batch.Paging.{paged_spec, prefill_plan, decode_plan}
use lmserve.Batch.Positions.{differences, paged_lens, append_positions, batch_indices_from}
use lmserve.Batch.Order.{prefills, decodes}
use lmserve.Batch.Tests.{documented, config, decode_one, prefill_three}
use lmserve.Forward.Attend.{Kernels, KeepsRows, attend, appended}
use lmserve.Forward.Attention.{prefill_rows, decode_rows, attend-made}
use lmserve.Forward.Rows.{join, segment_lens, finals}
use lmserve.Forward.Decoder.{Layer, Model, model_forward, causal_lm_forward}
use lmserve.Forward.Logits.{LayerKeepsRows, causal_lm_forward-lasts}

abbrev pub kernels : Kernels ℕ ℕ
kernels = record {
  blank = 999;
  append_paged_kv_cache =
      λ key value batch positions cache indices indptrs lasts. cache + length key;
  prefill_run = λ w q c. map (λ x. x + 100) q;
  decode_run = λ w q c. map (λ x. x + 200) q;
  single_prefill = λ q key value. q;
}

pub kernels-KeepsRows : KeepsRows kernels
kernels-KeepsRows = record {
  prefill = λ w q c. length-map (λ x. x + 100) q;
  decode = λ w q c. length-map (λ x. x + 200) q;
  single = λ q key value. refl;
}

abbrev pub inputs : List InferInput
inputs = decode_one ∷ prefill_three ∷ []

abbrev pub sorted : List InferInput
sorted = prefill_three ∷ decode_one ∷ []

abbrev pub tables : PagedParams
tables = paged_spec documented config sorted

abbrev pub batch : MadeInputs
batch = record {
  inputs = sorted;
  input_ids = 31 ∷ 32 ∷ 33 ∷ 11 ∷ [];
  params = record {
    position_ids = 2 ∷ 3 ∷ 4 ∷ 4 ∷ [];
    cu_seqlens_q = 0 ∷ 3 ∷ 4 ∷ [];
    prefill_input_len = 3;
    paged = some tables;
  };
}

program : Unit {0}
unfolding make_inputs differences paged_lens append_positions batch_indices_from prefills decodes
    prefill_plan decode_plan causal_lm_forward
program = tt

pub run : make_inputs documented config inputs true ≡ ok batch
unfolding program
run = refl

pub well_formed : All IsWellFormed inputs
well_formed = omega arith

abbrev ids : List ℕ
ids = batch.input_ids

-- Three prefill rows and one decode row, none of them blank.
attend_run :
    attend kernels ids ids ids batch.params (some 0) ≡ ok (131 ∷ 132 ∷ 133 ∷ 211 ∷ [], some 4)
unfolding program
attend_run = refl

attend-made_example :
    attend kernels ids ids ids batch.params (some 0)
    ≡ ok (
      prefill_rows kernels tables.prefill_wrapper (take 3 ids) (appended kernels tables ids ids 0)
          ++ decode_rows kernels tables.decode_wrapper
              (drop 3 ids)
              (appended kernels tables ids ids 0),
      some (appended kernels tables ids ids 0),
    )
attend-made_example =
    attend-made kernels kernels-KeepsRows documented config (omega arith) inputs well_formed run
      {p = tables} refl ids ids ids 0 refl

abbrev pub layer : Layer ℕ
layer = record {
  q_proj = λ h. h;
  k_proj = λ h. h;
  v_proj = λ h. h;
  rotary_emb = λ q key positions. (q, key);
  o_proj = λ h. h;
  gate_proj = λ h. h;
  up_proj = λ h. h;
  down_proj = λ h. h;
  activation_fn = λ h. h;
  input_layernorm = λ h. h;
  post_attention_layernorm = λ h. h;
}

abbrev pub model : Model ℕ
model = record { embed_tokens = λ ids. ids; layers = layer ∷ []; norm = λ h. h; lm_head = λ h. h }

pub layer-LayerKeepsRows : LayerKeepsRows layer
layer-LayerKeepsRows = record {
  q = λ h. refl;
  rotary = λ q key positions. refl;
  o = λ h. refl;
  gate = λ h. refl;
  up = λ h. refl;
  down = λ h. refl;
  activation = λ h. refl;
  before = λ h. refl;
  after = λ h. refl;
}

causal_lm_forward-lasts_example :
    (segs : List (List ℕ × ℕ)) × (caches : List (Option ℕ)) × (model_forward ◌+◌ ◌*◌ kernels model
        batch.input_ids batch.params
        (some (0 ∷ []))
      ≡ ok (join segs, caches))
    × (segment_lens segs ≡ input_lens sorted)
    × (causal_lm_forward ◌+◌ ◌*◌ kernels model batch.input_ids batch.params (some (0 ∷ []))
        ≡ ok (finals segs, caches))
causal_lm_forward-lasts_example =
    causal_lm_forward-lasts ◌+◌ ◌*◌ kernels kernels-KeepsRows documented config (omega arith) inputs
      well_formed run {p = tables} refl model (0 ∷ [])
      (record { embed = λ ids. refl; layers = (layer-LayerKeepsRows, tt); norm = λ h. refl }) refl
      (omega arith)
