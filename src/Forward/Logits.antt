-- ===== src/Forward/Logits.antt =====
-- The language model returns one row of logits for each input of the batch, computed from the last
-- row of that input.
use lmserve.Prelude.{
  ℕ, ◌<◌, ◌≡◌, refl, ◌∙◌, true, List, [], ◌∷◌, Option, some, arith, length, All, ok,
}
use lmserve.Batch.Inputs.{InferInput}
use lmserve.Batch.Pages.{input_lens}
use lmserve.Batch.Make.{FlashInfer, BatchConfig, MadeInputs, PagedParams, make_inputs}
use lmserve.Batch.Collect.{IsWellFormed}
use lmserve.Forward.Attend.{Kernels, KeepsRows}
use lmserve.Forward.Attention.{attend_total}
use lmserve.Forward.Rows.{join, segment_lens, finals}
use lmserve.Forward.Segments.{pointwise_total, made_segments}
use lmserve.Forward.Decoder.{
  Layer, Model, mlp_forward, attention_forward, layer_forward, run_cached_layers, model_forward,
  causal_lm_forward,
}

-- Linear layers, norms and embeddings map rows one by one.
pub record LayerKeepsRows {Row : Type 0} (l : Layer Row) : Type 0 where
  pub q : (h : List Row) → length (l.q_proj h) ≡ length h
  pub rotary : (q k : List Row) (ids : List ℕ) → length (l.rotary_emb q k ids).0 ≡ length q
  pub o : (h : List Row) → length (l.o_proj h) ≡ length h
  pub gate : (h : List Row) → length (l.gate_proj h) ≡ length h
  pub up : (h : List Row) → length (l.up_proj h) ≡ length h
  pub down : (h : List Row) → length (l.down_proj h) ≡ length h
  pub activation : (h : List Row) → length (l.activation_fn h) ≡ length h
  pub before : (h : List Row) → length (l.input_layernorm h) ≡ length h
  pub after : (h : List Row) → length (l.post_attention_layernorm h) ≡ length h

pub record ModelKeepsRows {Row : Type 0} (model : Model Row) : Type 0 where
  pub embed : (ids : List ℕ) → length (model.embed_tokens ids) ≡ length ids
  pub layers : All LayerKeepsRows model.layers
  pub norm : (h : List Row) → length (model.norm h) ≡ length h

pub mlp_forward_total :
    {Row : Type 0} (add mul : Row → Row → Row) (l : Layer Row) (hidden : List Row)
    → LayerKeepsRows l
    → (out : List Row) × (mlp_forward add mul l hidden ≡ ok out) × (length out ≡ length hidden)
unfolding mlp_forward
mlp_forward_total add mul l hidden rows =
    let gate = l.gate_proj hidden in
    let (gated, e, len) =
      pointwise_total mul (l.activation_fn gate) (l.up_proj hidden)
        (omega (arith, rows.activation gate, rows.gate hidden, rows.up hidden)) in
    (
      l.down_proj gated,
      rw e,
      omega (arith, rows.down gated, len, rows.activation gate, rows.gate hidden),
    )

module _ {Row Cache : Type 0} (add mul : Row → Row → Row) (k : Kernels Row Cache)
    (keeps : KeepsRows k) (fi : FlashInfer) (w : BatchConfig) (positive : 0 < w.block_size)
    (inputs : List InferInput) (wf : All IsWellFormed inputs) {m : MadeInputs}
    (run : make_inputs fi w inputs true ≡ ok m) {p : PagedParams}
    (cached : m.params.paged ≡ some p) where
  layer_forward_total :
      (l : Layer Row) (hidden : List Row) (c : Cache)
      → LayerKeepsRows l
      → length hidden ≡ length m.input_ids
      → (out : List Row) × (c' : Cache) × (layer_forward add mul k l hidden m.params (some c)
          ≡ ok (out, some c'))
        × (length out ≡ length m.input_ids)
  unfolding layer_forward attention_forward
  layer_forward_total l hidden c rows len =
      let normed = l.input_layernorm hidden in
      let q = l.q_proj normed in
      let rotated = l.rotary_emb q (l.k_proj normed) m.params.position_ids in
      let (out, c', attended, out_len) =
        attend_total k keeps fi w positive inputs wf run cached rotated.0 rotated.1
          (l.v_proj normed) c
          (omega (
            arith,
            rows.rotary q (l.k_proj normed) m.params.position_ids,
            rows.q normed,
            rows.before hidden,
          )) in
      let out_rows : length out ≡ length hidden = omega (
        arith,
        out_len,
        rows.rotary q (l.k_proj normed) m.params.position_ids,
        rows.q normed,
        rows.before hidden,
      ) in
      let (hidden', first, first_len) =
        pointwise_total add hidden (l.o_proj out) (omega (arith, rows.o out)) in
      let normed' = l.post_attention_layernorm hidden' in
      let (mixed, third, mixed_len) = mlp_forward_total add mul l normed' rows in
      let (hidden'', second, second_len) =
        pointwise_total add hidden' mixed (omega (arith, mixed_len, rows.after hidden')) in
      (
        hidden'',
        c',
        rw attended (rw first (rw third (rw second))),
        omega (arith, second_len, first_len),
      )

  run_cached_layers_total :
      (ls : List (Layer Row)) (hidden : List Row) (caches : List Cache)
      → All LayerKeepsRows ls
      → length hidden ≡ length m.input_ids
      → length caches ≡ length ls
      → (out : List Row) × (caches' : List (Option Cache)) × (run_cached_layers add mul k ls hidden
            m.params caches
          ≡ ok (out, caches'))
        × (length out ≡ length m.input_ids)
  unfolding run_cached_layers
  run_cached_layers_total [] hidden caches rows len count = (hidden, [], refl, len)
  run_cached_layers_total (l ∷ ls) hidden [] rows len count = absurd (omega arith)
  run_cached_layers_total (l ∷ ls) hidden (c ∷ cs) rows len count =
      let (hidden', c', one, len') = layer_forward_total l hidden c rows.0 len in
      let (out, cs', rest, out_len) =
        run_cached_layers_total ls hidden' cs rows.1 len' (omega arith) in
      (out, some c' ∷ cs', rw one (rw rest), out_len)

  -- For a batch made of well-formed inputs that are not empty, with a cache for each layer and
  -- parts that keep the number of rows, the forward pass succeeds. Its hidden states are one
  -- segment of rows for each input in the batch's order, as long as the input, and the logits are
  -- those of the last rows of the segments.
  pub causal_lm_forward-lasts :
      (model : Model Row) (caches : List Cache)
      → ModelKeepsRows model
      → length caches ≡ length model.layers
      → All (λ d. 0 < d.input_len) inputs
      → (segs : List (List Row × Row)) × (caches' : List (Option Cache)) × (model_forward add mul k
            model m.input_ids m.params
            (some caches)
          ≡ ok (join segs, caches'))
        × (segment_lens segs ≡ input_lens m.inputs)
        × (causal_lm_forward add mul k model m.input_ids m.params (some caches)
            ≡ ok (model.lm_head (finals segs), caches'))
  unfolding causal_lm_forward model_forward
  causal_lm_forward-lasts model caches rows count nonempty =
      let (out, caches', layers, len) =
        run_cached_layers_total model.layers (model.embed_tokens m.input_ids) caches rows.layers
          (rows.embed m.input_ids) count in
      let (segs, joined, lens, chosen) =
        made_segments fi w inputs wf run nonempty (model.norm out) (rows.norm out ∙ len) in
      (segs, caches', rw layers (rw joined), lens, rw layers (rw joined (rw chosen)))
