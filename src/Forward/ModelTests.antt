-- ===== src/Forward/ModelTests.antt =====
-- The three language models over the batch of Forward/Tests.antt, and the sizes of their attention.
use lmserve.Prelude.{
  ℕ, ◌+◌, ◌*◌, ◌≡◌, refl, false, List, [], ◌∷◌, map, length-map, Option, none, some, replicate, ok,
  arith,
}
use lmserve.Batch.Pages.{input_lens}
use lmserve.Batch.Order.{prefills, decodes}
use lmserve.Batch.Paging.{prefill_plan, decode_plan}
use lmserve.Batch.Tests.{documented, config}
use lmserve.Loading.Config.{TfConfig, ModelConfig, model_config}
use lmserve.Forward.Rows.{join, segment_lens, finals}
use lmserve.Forward.Opt.{OptLayer, OptModel, opt_decoder_forward, opt_causal_lm_forward}
use lmserve.Forward.OptLogits.{OptLayerKeepsRows, opt_causal_lm_forward-lasts}
use lmserve.Forward.Decoder.{causal_lm_forward}
use lmserve.Forward.Qwen2.{Qwen2ForCausalLm, qwen2_causal_lm_forward}
use lmserve.Forward.Qwen2Equal.{llama_model, qwen2_causal_lm_forward-llama}
use lmserve.Forward.Sizes.{
  attention_sizes, llama_attention_init, qwen2_attention_init, opt_attention_init,
}
use lmserve.Forward.Shares.{Shares, llama_attention_init-Shares}
use lmserve.Forward.Tests.{
  kernels, kernels-KeepsRows, inputs, sorted, tables, batch, run, well_formed,
}

-- A layer with its norms after the parts, below a decoder with a projection into it.
abbrev opt_layer : OptLayer ℕ
opt_layer = record {
  q_proj = λ h. h;
  k_proj = λ h. h;
  v_proj = λ h. h;
  out_proj = λ h. h;
  do_layer_norm_before = false;
  self_attn_layer_norm = λ h. map (λ x. x + 1) h;
  fc1 = λ h. h;
  activation_fn = λ h. h;
  fc2 = λ h. h;
  final_layer_norm = λ h. h;
}

abbrev opt_model : OptModel ℕ
opt_model = record {
  decoder = record {
    embed_tokens = λ ids. ids;
    embed_positions = replicate 64 7;
    project_in = some (λ h. h);
    layers = opt_layer ∷ [];
    final_layer_norm = none;
    project_out = none;
  };
  lm_head = λ h. h;
}

opt_layer-OptLayerKeepsRows : OptLayerKeepsRows opt_layer
opt_layer-OptLayerKeepsRows = record {
  q = λ h. refl;
  out = λ h. refl;
  attn_norm = λ h. length-map (λ x. x + 1) h;
  fc1 = λ h. refl;
  activation = λ h. refl;
  fc2 = λ h. refl;
  final_norm = λ h. refl;
}

program : Unit {0}
unfolding opt_causal_lm_forward qwen2_causal_lm_forward llama_attention_init opt_attention_init
    model_config prefills decodes prefill_plan decode_plan
program = tt

opt_causal_lm_forward_run :
    opt_causal_lm_forward ◌+◌ kernels opt_model batch.input_ids batch.params (some (0 ∷ []))
    ≡ ok (362 ∷ 474 ∷ [], some 4 ∷ [])
unfolding program
opt_causal_lm_forward_run = refl

opt_causal_lm_forward-lasts_example :
    (segs : List (List ℕ × ℕ)) × (caches : List (Option ℕ)) × (opt_decoder_forward ◌+◌ kernels
        opt_model.decoder batch.input_ids batch.params
        (some (0 ∷ []))
      ≡ ok (join segs, caches))
    × (segment_lens segs ≡ input_lens sorted)
    × (opt_causal_lm_forward ◌+◌ kernels opt_model batch.input_ids batch.params (some (0 ∷ []))
        ≡ ok (finals segs, caches))
unfolding program
opt_causal_lm_forward-lasts_example =
    opt_causal_lm_forward-lasts ◌+◌ kernels kernels-KeepsRows documented config (omega arith) inputs
      well_formed run {p = tables} refl opt_model (0 ∷ [])
      (record {
        embed = λ ids. refl;
        project_in = λ h. refl;
        layers = (opt_layer-OptLayerKeepsRows, tt);
        final_norm = λ h. refl;
        project_out = λ h. refl;
      })
      refl (omega arith) (omega arith)

abbrev qwen2 : Qwen2ForCausalLm ℕ
qwen2 = record {
  model = record {
    embed_tokens = λ ids. ids;
    layers =
        record {
          self_attn = record {
            q_proj = λ h. h;
            k_proj = λ h. h;
            v_proj = λ h. h;
            o_proj = λ h. h;
            rotary_emb = λ q key positions. (q, key);
          };
          mlp = record {
            gate_proj = λ h. h;
            up_proj = λ h. h;
            down_proj = λ h. h;
            activation_fn = λ h. h;
          };
          input_layernorm = λ h. h;
          post_attention_layernorm = λ h. h;
        }
        ∷ [];
    norm = λ h. h;
  };
  lm_head = λ h. h;
}

qwen2_causal_lm_forward-llama_example :
    qwen2_causal_lm_forward ◌+◌ ◌*◌ kernels qwen2 batch.input_ids batch.params (some (0 ∷ []))
    ≡ causal_lm_forward ◌+◌ ◌*◌ kernels
        (llama_model qwen2)
        batch.input_ids
        batch.params
        (some (0 ∷ []))
qwen2_causal_lm_forward-llama_example =
    qwen2_causal_lm_forward-llama ◌+◌ ◌*◌ kernels qwen2 batch.input_ids batch.params (some (0 ∷ []))

-- 32 heads of width 128 with 8 key and value heads, for two ranks.
abbrev grouped : TfConfig
grouped = record {
  num_hidden_layers = 2;
  hidden_size = 4096;
  num_attention_heads = 32;
  num_key_value_heads = some 8;
  dtype_bits = 16;
}

llama_attention_init-Shares_example :
    (c : ModelConfig) × (model_config grouped 2 ≡ ok c)
    × Shares grouped 2 (attention_sizes 4096 32 8 2) c
    × ((group : ℕ) × (16 ≡ group * 4))
    × (qwen2_attention_init 4096 32 8 2 ≡ ok (attention_sizes 4096 32 8 2))
unfolding program
llama_attention_init-Shares_example =
    llama_attention_init-Shares grouped 2 (attention_sizes 4096 32 8 2) refl

abbrev plain : TfConfig
plain = record {
  num_hidden_layers = 2;
  hidden_size = 768;
  num_attention_heads = 12;
  num_key_value_heads = none;
  dtype_bits = 16;
}
