-- ===== src/Forward/Qwen2.antt =====
-- The modules of models/qwen2.py.
use lmserve.Prelude.{
  ℕ, List, [], ◌∷◌, Option, none, some, drop, Result, ok, raise, ◌>>=◌, index_error,
}
use lmserve.Batch.Make.{InputParams}
use lmserve.Forward.Attend.{Kernels, attend}
use lmserve.Forward.Rows.{select_rows}
use lmserve.Forward.Decoder.{pointwise}

pub record Qwen2Mlp (Row : Type 0) : Type 0 where
  pub gate_proj : List Row → List Row
  pub up_proj : List Row → List Row
  pub down_proj : List Row → List Row
  pub activation_fn : List Row → List Row

pub record Qwen2Attention (Row : Type 0) : Type 0 where
  pub q_proj : List Row → List Row
  pub k_proj : List Row → List Row
  pub v_proj : List Row → List Row
  pub o_proj : List Row → List Row
  pub rotary_emb : List Row → List Row → List ℕ → List Row × List Row

pub record Qwen2DecoderLayer (Row : Type 0) : Type 0 where
  pub self_attn : Qwen2Attention Row
  pub mlp : Qwen2Mlp Row
  pub input_layernorm : List Row → List Row
  pub post_attention_layernorm : List Row → List Row

pub record Qwen2Model (Row : Type 0) : Type 0 where
  pub embed_tokens : List ℕ → List Row
  pub layers : List (Qwen2DecoderLayer Row)
  pub norm : List Row → List Row

pub record Qwen2ForCausalLm (Row : Type 0) : Type 0 where
  pub model : Qwen2Model Row
  pub lm_head : List Row → List Row

module _ {Row : Type 0} (mul : Row → Row → Row) where
  -- `Qwen2MLP.forward`
  unfoldable pub qwen2_mlp_forward : Qwen2Mlp Row → List Row → Result (List Row)
  unfolding pointwise
  qwen2_mlp_forward mlp hidden = do
    gated ← pointwise mul (mlp.activation_fn (mlp.gate_proj hidden)) (mlp.up_proj hidden)
    ok (mlp.down_proj gated)

module _ {Row Cache : Type 0} (k : Kernels Row Cache) where
  -- `Qwen2Attention.forward`
  unfoldable pub qwen2_attention_forward :
      Qwen2Attention Row → List Row → InputParams → Option Cache → Result (List Row × Option Cache)
  unfolding attend
  qwen2_attention_forward a hidden params cache = do
    let (q, key) = a.rotary_emb (a.q_proj hidden) (a.k_proj hidden) params.position_ids
    (attn_output, cache') ← attend k q key (a.v_proj hidden) params cache
    ok (a.o_proj attn_output, cache')

module _ {Row Cache : Type 0} (add mul : Row → Row → Row) (k : Kernels Row Cache) where
  -- `Qwen2DecoderLayer.forward`
  unfoldable pub qwen2_layer_forward :
      Qwen2DecoderLayer Row
      → List Row
      → InputParams
      → Option Cache
      → Result (List Row × Option Cache)
  unfolding qwen2_attention_forward qwen2_mlp_forward pointwise
  qwen2_layer_forward l hidden params cache = do
    (attended, cache') ←
        qwen2_attention_forward k l.self_attn (l.input_layernorm hidden) params cache
    hidden' ← pointwise add hidden attended
    out ← qwen2_mlp_forward mul l.mlp (l.post_attention_layernorm hidden')
    hidden'' ← pointwise add hidden' out
    ok (hidden'', cache')

  -- The loop of `Qwen2Model.forward`, with and without caches.
  unfoldable pub qwen2_run_layers :
      List (Qwen2DecoderLayer Row)
      → List Row
      → InputParams
      → Option (List Cache)
      → Result (List Row × List (Option Cache))
  unfolding qwen2_layer_forward
  qwen2_run_layers [] hidden params caches = ok (hidden, [])
  qwen2_run_layers (l ∷ ls) hidden params none = do
    (hidden', _) ← qwen2_layer_forward l hidden params none
    qwen2_run_layers ls hidden' params none
  qwen2_run_layers (l ∷ ls) hidden params (some []) = raise index_error
  qwen2_run_layers (l ∷ ls) hidden params (some (c ∷ cs)) = do
    (hidden', c') ← qwen2_layer_forward l hidden params (some c)
    (final, cs') ← qwen2_run_layers ls hidden' params (some cs)
    ok (final, c' ∷ cs')

  -- `Qwen2Model.forward`
  unfoldable pub qwen2_model_forward :
      Qwen2Model Row
      → List ℕ
      → InputParams
      → Option (List Cache)
      → Result (List Row × List (Option Cache))
  unfolding qwen2_run_layers
  qwen2_model_forward model input_ids params kv_caches = do
    (hidden, caches') ←
        qwen2_run_layers model.layers (model.embed_tokens input_ids) params kv_caches
    ok (model.norm hidden, caches')

  -- `Qwen2ForCausalLM.forward`
  unfoldable pub qwen2_causal_lm_forward :
      Qwen2ForCausalLm Row
      → List ℕ
      → InputParams
      → Option (List Cache)
      → Result (List Row × List (Option Cache))
  unfolding qwen2_model_forward select_rows
  qwen2_causal_lm_forward lm input_ids params kv_caches = do
    (hidden, caches') ← qwen2_model_forward lm.model input_ids params kv_caches
    rows ← select_rows hidden (drop 1 params.cu_seqlens_q)
    ok (lm.lm_head rows, caches')
