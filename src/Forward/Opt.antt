-- ===== src/Forward/Opt.antt =====
-- The modules of models/opt.py: positions as a learned table, an MLP of two layers, and norms that
-- stand before or after each part of a layer.
use lmserve.Prelude.{
  ℕ, ◌+◌, Bool, List, [], ◌∷◌, Option, none, some, if◌then◌else◌, drop, get_elem?, Result, ok,
  raise, ◌>>=◌, index_error,
}
use lmserve.Batch.Make.{InputParams}
use lmserve.Forward.Attend.{Kernels, attend}
use lmserve.Forward.Rows.{select_rows}
use lmserve.Forward.Decoder.{pointwise}

pub record OptLayer (Row : Type 0) : Type 0 where
  pub q_proj : List Row → List Row
  pub k_proj : List Row → List Row
  pub v_proj : List Row → List Row
  pub out_proj : List Row → List Row
  pub do_layer_norm_before : Bool
  pub self_attn_layer_norm : List Row → List Row
  pub fc1 : List Row → List Row
  pub activation_fn : List Row → List Row
  pub fc2 : List Row → List Row
  pub final_layer_norm : List Row → List Row

pub record OptDecoder (Row : Type 0) : Type 0 where
  pub embed_tokens : List ℕ → List Row
  -- The rows of `embed_positions.weight`.
  pub embed_positions : List Row
  pub project_in : Option (List Row → List Row)
  pub layers : List (OptLayer Row)
  pub final_layer_norm : Option (List Row → List Row)
  pub project_out : Option (List Row → List Row)

pub record OptModel (Row : Type 0) : Type 0 where
  pub decoder : OptDecoder Row
  pub lm_head : List Row → List Row

-- `OPTPositionalEmbedding.offset`
abbrev pub offset : ℕ
offset = 2

module _ {Row : Type 0} where
  -- `OPTPositionalEmbedding.forward`: the row `p + offset` for each position `p`.
  unfoldable pub embed_positions_forward : List Row → List ℕ → Result (List Row)
  embed_positions_forward table [] = ok []
  embed_positions_forward table (p ∷ ps) = elim (get_elem? table (p + offset)) [
    | none ↦ raise index_error
    | some r ↦ do rest ← embed_positions_forward table ps; ok (r ∷ rest)
  ]

  -- `if part is not None: hidden_states = part(hidden_states)`
  unfoldable pub apply_part : Option (List Row → List Row) → List Row → List Row
  apply_part none hidden = hidden
  apply_part (some part) hidden = part hidden

module _ {Cache : Type 0} where
  -- `kv_caches[i] if kv_caches is not None else None`, and the caches of the later layers.
  unfoldable pub next_cache : Option (List Cache) → Result (Option Cache × Option (List Cache))
  next_cache none = ok (none, none)
  next_cache (some []) = raise index_error
  next_cache (some (c ∷ cs)) = ok (some c, some cs)

module _ {Row Cache : Type 0} (k : Kernels Row Cache) where
  -- `OPTAttention.forward`
  unfoldable pub opt_attention_forward :
      OptLayer Row → List Row → InputParams → Option Cache → Result (List Row × Option Cache)
  unfolding attend
  opt_attention_forward l hidden params cache = do
    (out, cache') ← attend k (l.q_proj hidden) (l.k_proj hidden) (l.v_proj hidden) params cache
    ok (l.out_proj out, cache')

module _ {Row Cache : Type 0} (add : Row → Row → Row) (k : Kernels Row Cache) where
  -- `OPTDecoderLayer.forward`
  unfoldable pub opt_layer_forward :
      OptLayer Row → List Row → InputParams → Option Cache → Result (List Row × Option Cache)
  unfolding opt_attention_forward pointwise
  opt_layer_forward l hidden params cache = do
    let normed = if l.do_layer_norm_before then l.self_attn_layer_norm hidden else hidden
    (attended, cache') ← opt_attention_forward k l normed params cache
    summed ← pointwise add hidden attended
    let hidden' = if l.do_layer_norm_before then summed else l.self_attn_layer_norm summed
    let normed' = if l.do_layer_norm_before then l.final_layer_norm hidden' else hidden'
    summed' ← pointwise add hidden' (l.fc2 (l.activation_fn (l.fc1 normed')))
    ok (if l.do_layer_norm_before then summed' else l.final_layer_norm summed', cache')

  -- The loop over the layers.
  unfoldable pub opt_run_layers :
      List (OptLayer Row)
      → List Row
      → InputParams
      → Option (List Cache)
      → Result (List Row × List (Option Cache))
  unfolding opt_layer_forward next_cache
  opt_run_layers [] hidden params caches = ok (hidden, [])
  opt_run_layers (l ∷ ls) hidden params caches = do
    (cache, caches') ← next_cache caches
    (hidden', cache') ← opt_layer_forward l hidden params cache
    (final, rest) ← opt_run_layers ls hidden' params caches'
    ok (final, cache' ∷ rest)

  -- `OPTDecoder.forward`, which `OPTModel.forward` calls
  unfoldable pub opt_decoder_forward :
      OptDecoder Row
      → List ℕ
      → InputParams
      → Option (List Cache)
      → Result (List Row × List (Option Cache))
  unfolding embed_positions_forward apply_part pointwise opt_run_layers
  opt_decoder_forward d input_ids params caches = do
    pos_embeds ← embed_positions_forward d.embed_positions params.position_ids
    let input_embeds = apply_part d.project_in (d.embed_tokens input_ids)
    hidden ← pointwise add input_embeds pos_embeds
    (hidden', caches') ← opt_run_layers d.layers hidden params caches
    ok (apply_part d.project_out (apply_part d.final_layer_norm hidden'), caches')

  -- `OPTForCausalLM.forward`
  unfoldable pub opt_causal_lm_forward :
      OptModel Row
      → List ℕ
      → InputParams
      → Option (List Cache)
      → Result (List Row × List (Option Cache))
  unfolding opt_decoder_forward select_rows
  opt_causal_lm_forward model input_ids params kv_caches = do
    (hidden, caches') ← opt_decoder_forward model.decoder input_ids params kv_caches
    rows ← select_rows hidden (drop 1 params.cu_seqlens_q)
    ok (model.lm_head rows, caches')
