-- ===== src/Forward/Decoder.antt =====
-- The modules of models/llama.py: the attention block, the MLP, the decoder layer, the stack of
-- layers, and the language model that reads one row for each input.
use lmserve.Prelude.{
  ℕ, List, [], ◌∷◌, Option, none, some, drop, Result, ok, raise, ◌>>=◌, index_error, runtime_error,
}
use lmserve.Batch.Make.{InputParams}
use lmserve.Forward.Attend.{Kernels, attend}
use lmserve.Forward.Rows.{select_rows}

-- What one decoder layer holds besides the attention kernels.
pub record Layer (Row : Type 0) : Type 0 where
  pub q_proj : List Row → List Row
  pub k_proj : List Row → List Row
  pub v_proj : List Row → List Row
  pub rotary_emb : List Row → List Row → List ℕ → List Row × List Row
  pub o_proj : List Row → List Row
  pub gate_proj : List Row → List Row
  pub up_proj : List Row → List Row
  pub down_proj : List Row → List Row
  pub activation_fn : List Row → List Row
  pub input_layernorm : List Row → List Row
  pub post_attention_layernorm : List Row → List Row

pub record Model (Row : Type 0) : Type 0 where
  pub embed_tokens : List ℕ → List Row
  pub layers : List (Layer Row)
  pub norm : List Row → List Row
  pub lm_head : List Row → List Row

-- `xs + ys` and `xs * ys` of matrices with rows of one width.
unfoldable pub pointwise :
    {Row : Type 0} → (Row → Row → Row) → List Row → List Row → Result (List Row)
pointwise op [] [] = ok []
pointwise op (x ∷ xs) (y ∷ ys) = do rest ← pointwise op xs ys; ok (op x y ∷ rest)
pointwise op _ _ = raise runtime_error

module _ {Row : Type 0} (add mul : Row → Row → Row) where
  -- `LlamaMLP.forward`
  unfoldable pub mlp_forward : Layer Row → List Row → Result (List Row)
  unfolding pointwise
  mlp_forward l hidden = do
    gated ← pointwise mul (l.activation_fn (l.gate_proj hidden)) (l.up_proj hidden)
    ok (l.down_proj gated)

  module _ {Cache : Type 0} (k : Kernels Row Cache) where
    -- `LlamaAttention.forward`
    unfoldable pub attention_forward :
        Layer Row → List Row → InputParams → Option Cache → Result (List Row × Option Cache)
    unfolding attend
    attention_forward l hidden params cache = do
      let q = l.q_proj hidden
      let key = l.k_proj hidden
      let v = l.v_proj hidden
      let (q', key') = l.rotary_emb q key params.position_ids
      (out, cache') ← attend k q' key' v params cache
      ok (l.o_proj out, cache')

    -- `LlamaDecoderLayer.forward`
    unfoldable pub layer_forward :
        Layer Row → List Row → InputParams → Option Cache → Result (List Row × Option Cache)
    unfolding attention_forward mlp_forward pointwise
    layer_forward l hidden params cache = do
      (attended, cache') ← attention_forward l (l.input_layernorm hidden) params cache
      hidden' ← pointwise add hidden attended
      out ← mlp_forward l (l.post_attention_layernorm hidden')
      hidden'' ← pointwise add hidden' out
      ok (hidden'', cache')

    -- The loop over the layers without caches, and with `kv_caches[i]`.
    unfoldable pub run_layers : List (Layer Row) → List Row → InputParams → Result (List Row)
    unfolding layer_forward
    run_layers [] hidden params = ok hidden
    run_layers (l ∷ ls) hidden params = do
      (hidden', _) ← layer_forward l hidden params none
      run_layers ls hidden' params

    unfoldable pub run_cached_layers :
        List (Layer Row)
        → List Row
        → InputParams
        → List Cache
        → Result (List Row × List (Option Cache))
    unfolding layer_forward
    run_cached_layers [] hidden params caches = ok (hidden, [])
    run_cached_layers (l ∷ ls) hidden params [] = raise index_error
    run_cached_layers (l ∷ ls) hidden params (c ∷ cs) = do
      (hidden', c') ← layer_forward l hidden params (some c)
      (final, cs') ← run_cached_layers ls hidden' params cs
      ok (final, c' ∷ cs')

    -- `LlamaModel.forward`
    unfoldable pub model_forward :
        Model Row
        → List ℕ
        → InputParams
        → Option (List Cache)
        → Result (List Row × List (Option Cache))
    unfolding run_layers run_cached_layers
    model_forward model input_ids params none = do
      hidden ← run_layers model.layers (model.embed_tokens input_ids) params
      ok (model.norm hidden, [])
    model_forward model input_ids params (some caches) = do
      (hidden, caches') ←
          run_cached_layers model.layers (model.embed_tokens input_ids) params caches
      ok (model.norm hidden, caches')

    -- `LlamaForCausalLM.forward`
    unfoldable pub causal_lm_forward :
        Model Row
        → List ℕ
        → InputParams
        → Option (List Cache)
        → Result (List Row × List (Option Cache))
    unfolding model_forward select_rows
    causal_lm_forward model input_ids params kv_caches = do
      (hidden, caches') ← model_forward model input_ids params kv_caches
      rows ← select_rows hidden (drop 1 params.cu_seqlens_q)
      ok (model.lm_head rows, caches')
