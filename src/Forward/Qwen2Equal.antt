-- ===== src/Forward/Qwen2Equal.antt =====
-- The modules of models/qwen2.py against those of models/llama.py with the same weights.
use lmserve.Prelude.{
  ℕ, ◌≡◌, refl, List, [], ◌∷◌, map, inl, inr, Option, none, some, Result-cases, ok, ◌>>=◌,
}
use lmserve.Batch.Make.{InputParams}
use lmserve.Forward.Attend.{Kernels}
use lmserve.Forward.Decoder.{
  Layer, Model, mlp_forward, attention_forward, layer_forward, run_layers, run_cached_layers,
  model_forward, causal_lm_forward,
}
use lmserve.Forward.Qwen2.{
  Qwen2DecoderLayer, Qwen2ForCausalLm, qwen2_mlp_forward, qwen2_attention_forward,
  qwen2_layer_forward, qwen2_run_layers, qwen2_model_forward, qwen2_causal_lm_forward,
}

module _ {Row : Type 0} where
  -- The layers of models/llama.py with the same weights.
  abbrev llama_layer : Qwen2DecoderLayer Row → Layer Row
  llama_layer l = record {
    q_proj = l.self_attn.q_proj;
    k_proj = l.self_attn.k_proj;
    v_proj = l.self_attn.v_proj;
    rotary_emb = l.self_attn.rotary_emb;
    o_proj = l.self_attn.o_proj;
    gate_proj = l.mlp.gate_proj;
    up_proj = l.mlp.up_proj;
    down_proj = l.mlp.down_proj;
    activation_fn = l.mlp.activation_fn;
    input_layernorm = l.input_layernorm;
    post_attention_layernorm = l.post_attention_layernorm;
  }

  abbrev pub llama_model : Qwen2ForCausalLm Row → Model Row
  llama_model lm = record {
    embed_tokens = lm.model.embed_tokens;
    layers = map llama_layer lm.model.layers;
    norm = lm.model.norm;
    lm_head = lm.lm_head;
  }

module _ {Row Cache : Type 0} (add mul : Row → Row → Row) (k : Kernels Row Cache) where
  layer_eq :
      (l : Qwen2DecoderLayer Row) (hidden : List Row) (params : InputParams) (c : Option Cache)
      → qwen2_layer_forward add mul k l hidden params c
        ≡ layer_forward add mul k (llama_layer l) hidden params c
  unfolding qwen2_layer_forward layer_forward qwen2_attention_forward attention_forward
      qwen2_mlp_forward mlp_forward
  layer_eq l hidden params c = refl

  cached_layers_eq :
      (ls : List (Qwen2DecoderLayer Row)) (hidden : List Row) (params : InputParams)
      (cs : List Cache)
      → qwen2_run_layers add mul k ls hidden params (some cs)
        ≡ run_cached_layers add mul k (map llama_layer ls) hidden params cs
  unfolding qwen2_run_layers run_cached_layers
  cached_layers_eq [] hidden params cs = refl
  cached_layers_eq (l ∷ ls) hidden params [] = refl
  cached_layers_eq (l ∷ ls) hidden params (c ∷ cs) =
      elim (Result-cases (layer_forward add mul k (llama_layer l) hidden params (some c))) [
        | inl (e, failed) ↦ rw (layer_eq l hidden params (some c), failed)
        | inr ((hidden', c'), done) ↦
            rw (layer_eq l hidden params (some c), done, cached_layers_eq ls hidden' params cs)
      ]

  uncached_layers_eq :
      (ls : List (Qwen2DecoderLayer Row)) (hidden : List Row) (params : InputParams)
      → qwen2_run_layers add mul k ls hidden params none
        ≡ (run_layers add mul k (map llama_layer ls) hidden params >>= (λ final. ok (final, [])))
  unfolding qwen2_run_layers run_layers
  uncached_layers_eq [] hidden params = refl
  uncached_layers_eq (l ∷ ls) hidden params =
      elim (Result-cases (layer_forward add mul k (llama_layer l) hidden params none)) [
        | inl (e, failed) ↦ rw (layer_eq l hidden params none, failed)
        | inr ((hidden', c'), done) ↦
            rw (layer_eq l hidden params none, done, uncached_layers_eq ls hidden' params)
      ]

  model_eq :
      (lm : Qwen2ForCausalLm Row) (input_ids : List ℕ) (params : InputParams)
      (caches : Option (List Cache))
      → qwen2_model_forward add mul k lm.model input_ids params caches
        ≡ model_forward add mul k (llama_model lm) input_ids params caches
  unfolding qwen2_model_forward model_forward
  model_eq lm input_ids params none =
      let hidden = lm.model.embed_tokens input_ids in
      let same = uncached_layers_eq lm.model.layers hidden params in
      elim (Result-cases (run_layers add mul k (map llama_layer lm.model.layers) hidden params)) [
        | inl (e, failed) ↦ rw (same, failed)
        | inr (final, done) ↦ rw (same, done)
      ]
  model_eq lm input_ids params (some caches) =
      rw (cached_layers_eq lm.model.layers (lm.model.embed_tokens input_ids) params caches)

  -- The language model of qwen2 returns or raises what that of llama does with the same weights,
  -- with caches and without.
  pub qwen2_causal_lm_forward-llama :
      (lm : Qwen2ForCausalLm Row) (input_ids : List ℕ) (params : InputParams)
      (caches : Option (List Cache))
      → qwen2_causal_lm_forward add mul k lm input_ids params caches
        ≡ causal_lm_forward add mul k (llama_model lm) input_ids params caches
  unfolding qwen2_causal_lm_forward causal_lm_forward
  qwen2_causal_lm_forward-llama lm input_ids params caches =
      rw (model_eq lm input_ids params caches)
