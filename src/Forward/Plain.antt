-- ===== src/Forward/Plain.antt =====
-- The forward pass of llama.py without caches, as `warmup` runs it before `init_cache`.
use lmserve.Prelude.{ℕ, ◌<◌, ◌≡◌, refl, ◌∙◌, true, List, [], ◌∷◌, none, arith, length, All, ok}
use lmserve.Batch.Inputs.{InferInput}
use lmserve.Batch.Pages.{input_lens}
use lmserve.Batch.Make.{FlashInfer, BatchConfig, MadeInputs, InputParams, make_inputs}
use lmserve.Batch.Collect.{IsWellFormed}
use lmserve.Forward.Attend.{Kernels, KeepsRows, rows_for, attend}
use lmserve.Forward.Rows.{join, segment_lens, finals}
use lmserve.Forward.Segments.{pointwise_total, made_segments}
use lmserve.Forward.Decoder.{
  Layer, Model, attention_forward, layer_forward, run_layers, model_forward, causal_lm_forward,
}
use lmserve.Forward.Logits.{LayerKeepsRows, ModelKeepsRows, mlp_forward_total}

-- As many rows as are assigned to, and each is written.
rows_for-same : {Row : Type 0} (n : ℕ) (xs : List Row) → length xs ≡ n → rows_for n xs ≡ ok xs
unfolding rows_for
rows_for-same n [] h = ground arith
rows_for-same n (x ∷ []) h = rw (← h) refl
rows_for-same n (x ∷ y ∷ ys) h = ground arith

module _ {Row Cache : Type 0} (add mul : Row → Row → Row) (k : Kernels Row Cache)
    (keeps : KeepsRows k) (params : InputParams) where
  plain_layer_total :
      (l : Layer Row) (hidden : List Row)
      → LayerKeepsRows l
      → (out : List Row) × (layer_forward add mul k l hidden params none ≡ ok (out, none))
        × (length out ≡ length hidden)
  unfolding layer_forward attention_forward attend
  plain_layer_total l hidden rows =
      let normed = l.input_layernorm hidden in
      let q = l.q_proj normed in
      let rotated = l.rotary_emb q (l.k_proj normed) params.position_ids in
      let out = k.single_prefill rotated.0 rotated.1 (l.v_proj normed) in
      let len = keeps.single rotated.0 rotated.1 (l.v_proj normed) in
      let written = rows_for-same (length rotated.0) out len in
      let (hidden', first, first_len) = pointwise_total add hidden (l.o_proj out) (
        omega (
          arith,
          rows.o out,
          len,
          rows.rotary q (l.k_proj normed) params.position_ids,
          rows.q normed,
          rows.before hidden,
        )) in
      let normed' = l.post_attention_layernorm hidden' in
      let (mixed, third, mixed_len) = mlp_forward_total add mul l normed' rows in
      let (hidden'', second, second_len) =
        pointwise_total add hidden' mixed (omega (arith, mixed_len, rows.after hidden')) in
      (hidden'', rw written (rw first (rw third (rw second))), omega (arith, second_len, first_len))

  plain_layers_total :
      (ls : List (Layer Row)) (hidden : List Row)
      → All LayerKeepsRows ls
      → (out : List Row) × (run_layers add mul k ls hidden params ≡ ok out)
        × (length out ≡ length hidden)
  unfolding run_layers
  plain_layers_total [] hidden rows = (hidden, refl, refl)
  plain_layers_total (l ∷ ls) hidden rows =
      let (hidden', one, len) = plain_layer_total l hidden rows.0 in
      let (out, rest, out_len) = plain_layers_total ls hidden' rows.1 in
      (out, rw one (rw rest), omega (arith, len, out_len))

module _ {Row Cache : Type 0} (add mul : Row → Row → Row) (k : Kernels Row Cache)
    (keeps : KeepsRows k) (fi : FlashInfer) (w : BatchConfig) (inputs : List InferInput)
    (wf : All IsWellFormed inputs) {m : MadeInputs}
    (run : make_inputs fi w inputs true ≡ ok m) where
  -- The hidden states and the logits are those of one segment for each input, as with caches.
  pub plain_forward-lasts :
      (model : Model Row)
      → ModelKeepsRows model
      → All (λ d. 0 < d.input_len) inputs
      → (segs : List (List Row × Row)) × (model_forward add mul k model m.input_ids m.params none
          ≡ ok (join segs, []))
        × (segment_lens segs ≡ input_lens m.inputs)
        × (causal_lm_forward add mul k model m.input_ids m.params none
            ≡ ok (model.lm_head (finals segs), []))
  unfolding causal_lm_forward model_forward
  plain_forward-lasts model rows nonempty =
      let (out, layers, len) =
        plain_layers_total add mul k keeps m.params model.layers (model.embed_tokens m.input_ids)
          rows.layers in
      let (segs, joined, lens, chosen) =
        made_segments fi w inputs wf run nonempty (model.norm out)
          (rows.norm out ∙ len ∙ rows.embed m.input_ids) in
      (segs, rw layers (rw joined), lens, rw layers (rw joined (rw chosen)))
