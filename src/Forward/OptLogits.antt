-- ===== src/Forward/OptLogits.antt =====
-- The forward pass of models/opt.py over a made batch.
use lmserve.Prelude.{
  ℕ, zero, suc, ◌+◌, ◌-◌, ◌≤◌, ◌<◌, ◌≡◌, refl, sym, ap, ◌∙◌, Bool, true, false, List, [], ◌∷◌, ◌++◌,
  Option, some, arith, length, length-append, All, get_elem?-total, range_from, if◌then◌else◌, ok,
}
use lmserve.Batch.Inputs.{InferInput}
use lmserve.Batch.Pages.{input_lens}
use lmserve.Batch.Make.{FlashInfer, BatchConfig, MadeInputs, PagedParams, make_inputs}
use lmserve.Batch.Collect.{IsWellFormed, token_ids, spans}
use lmserve.Batch.Layout.{flat-make_inputs, inputs-All, position_ids-make_inputs}
use lmserve.Forward.Attend.{Kernels, KeepsRows}
use lmserve.Forward.Attention.{attend_total}
use lmserve.Forward.Rows.{join, segment_lens, finals}
use lmserve.Forward.Segments.{pointwise_total, made_segments}
use lmserve.Forward.Opt.{
  OptLayer, OptDecoder, OptModel, offset, embed_positions_forward, apply_part, next_cache,
  opt_attention_forward, opt_layer_forward, opt_run_layers, opt_decoder_forward,
  opt_causal_lm_forward,
}

abbrev SameLength : {Row : Type 0} → (List Row → List Row) → Type 0
SameLength {Row} f = (h : List Row) → length (f h) ≡ length h

-- Linear layers and norms map rows one by one.
pub record OptLayerKeepsRows {Row : Type 0} (l : OptLayer Row) : Type 0 where
  pub q : SameLength l.q_proj
  pub out : SameLength l.out_proj
  pub attn_norm : SameLength l.self_attn_layer_norm
  pub fc1 : SameLength l.fc1
  pub activation : SameLength l.activation_fn
  pub fc2 : SameLength l.fc2
  pub final_norm : SameLength l.final_layer_norm

pub record OptKeepsRows {Row : Type 0} (d : OptDecoder Row) : Type 0 where
  pub embed : (ids : List ℕ) → length (d.embed_tokens ids) ≡ length ids
  pub project_in : SameLength (apply_part d.project_in)
  pub layers : All OptLayerKeepsRows d.layers
  pub final_norm : SameLength (apply_part d.final_layer_norm)
  pub project_out : SameLength (apply_part d.project_out)

module _ {Row : Type 0} where
  positions_append :
      (table : List Row) (start n : ℕ) (ps : List ℕ) (rest : List Row)
      → start + n + offset ≤ length table
      → embed_positions_forward table ps ≡ ok rest
      → (rows : List Row) × (embed_positions_forward table (range_from start n ++ ps) ≡ ok rows)
        × (length rows ≡ n + length rest)
  unfolding embed_positions_forward
  positions_append table start zero ps rest fits e = (rest, e, omega arith)
  positions_append table start (suc n) ps rest fits e =
      let (rows, e', len) = positions_append table (start + 1) n ps rest (omega arith) e in
      let (r, at) = get_elem?-total table (start + offset) (omega arith) in
      (r ∷ rows, rw (embed_positions_forward, at, e') refl, omega (arith, len))

  -- Every position of the inputs has a row if their contexts fit the table.
  positions_total :
      (table : List Row) (ds : List InferInput)
      → All IsWellFormed ds
      → All (λ d. d.context_len + offset ≤ length table) ds
      → (rows : List Row) × (embed_positions_forward table (spans ds) ≡ ok rows)
        × (length rows ≡ length (token_ids ds))
  unfolding embed_positions_forward spans token_ids
  positions_total table [] wf fits = ([], refl, refl)
  positions_total table (d ∷ ds) wf fits =
      let (rest, e, len) = positions_total table ds wf.1 fits.1 in
      let (rows, e', len') =
        positions_append table d.filled_token_len (d.context_len - d.filled_token_len) (spans ds)
          rest (omega (arith, fits.0, wf.0.context)) e in
      (
        rows,
        e',
        omega (arith, len, len', wf.0.ids, wf.0.context, length-append d.input_ids (token_ids ds)),
      )

  branch_rows :
      (b : Bool) (f : List Row → List Row) (h : List Row)
      → SameLength f
      → (length (if b then f h else h) ≡ length h) × (length (if b then h else f h) ≡ length h)
  branch_rows true f h keeps = (keeps h, refl)
  branch_rows false f h keeps = (refl, keeps h)

module _ {Row Cache : Type 0} (add : Row → Row → Row) (k : Kernels Row Cache) (keeps : KeepsRows k)
    (fi : FlashInfer) (w : BatchConfig) (positive : 0 < w.block_size) (inputs : List InferInput)
    (wf : All IsWellFormed inputs) {m : MadeInputs} (run : make_inputs fi w inputs true ≡ ok m)
    {p : PagedParams} (cached : m.params.paged ≡ some p) where
  opt_attention_total :
      (l : OptLayer Row) (hidden : List Row) (c : Cache)
      → OptLayerKeepsRows l
      → length hidden ≡ length m.input_ids
      → (out : List Row) × (c' : Cache) × (opt_attention_forward k l hidden m.params (some c)
          ≡ ok (out, some c'))
        × (length out ≡ length hidden)
  unfolding opt_attention_forward
  opt_attention_total l hidden c rows len =
      let (out, c', attended, out_len) =
        attend_total k keeps fi w positive inputs wf run cached (l.q_proj hidden) (l.k_proj hidden)
          (l.v_proj hidden) c (rows.q hidden ∙ len) in
      (l.out_proj out, c', rw attended, rows.out out ∙ out_len ∙ rows.q hidden)

  opt_layer_total :
      (l : OptLayer Row) (hidden : List Row) (c : Cache)
      → OptLayerKeepsRows l
      → length hidden ≡ length m.input_ids
      → (out : List Row) × (c' : Cache) × (opt_layer_forward add k l hidden m.params (some c)
          ≡ ok (out, some c'))
        × (length out ≡ length m.input_ids)
  unfolding opt_layer_forward
  opt_layer_total l hidden c rows len =
      let before = l.do_layer_norm_before in
      let normed = if before then l.self_attn_layer_norm hidden else hidden in
      let normed_len = (branch_rows before l.self_attn_layer_norm hidden rows.attn_norm).0 in
      let (attended, c', first, attended_len) =
        opt_attention_total l normed c rows (normed_len ∙ len) in
      let (summed, second, summed_len) =
        pointwise_total add hidden attended (omega (arith, attended_len, normed_len)) in
      let hidden' = if before then summed else l.self_attn_layer_norm summed in
      let hidden_len = (branch_rows before l.self_attn_layer_norm summed rows.attn_norm).1 in
      let normed' = if before then l.final_layer_norm hidden' else hidden' in
      let normed_len' = (branch_rows before l.final_layer_norm hidden' rows.final_norm).0 in
      let mixed = l.fc2 (l.activation_fn (l.fc1 normed')) in
      let mixed_len : length mixed ≡ length hidden' =
        rows.fc2 (l.activation_fn (l.fc1 normed'))
        ∙ rows.activation (l.fc1 normed')
        ∙ rows.fc1 normed'
        ∙ normed_len' in
      let (summed', third, summed_len') = pointwise_total add hidden' mixed (sym mixed_len) in
      (
        if before then summed' else l.final_layer_norm summed',
        c',
        rw first (rw second (rw third)),
        (branch_rows before l.final_layer_norm summed' rows.final_norm).1
            ∙ summed_len'
            ∙ hidden_len
            ∙ summed_len
            ∙ len,
      )

  opt_run_layers_total :
      (ls : List (OptLayer Row)) (hidden : List Row) (caches : List Cache)
      → All OptLayerKeepsRows ls
      → length hidden ≡ length m.input_ids
      → length caches ≡ length ls
      → (out : List Row) × (caches' : List (Option Cache)) × (opt_run_layers add k ls hidden
            m.params
            (some caches)
          ≡ ok (out, caches'))
        × (length out ≡ length m.input_ids)
  unfolding opt_run_layers next_cache
  opt_run_layers_total [] hidden caches rows len count = (hidden, [], refl, len)
  opt_run_layers_total (l ∷ ls) hidden [] rows len count = absurd (omega arith)
  opt_run_layers_total (l ∷ ls) hidden (c ∷ cs) rows len count =
      let (hidden', c', one, len') = opt_layer_total l hidden c rows.0 len in
      let (out, cs', rest, out_len) =
        opt_run_layers_total ls hidden' cs rows.1 len' (omega arith) in
      (out, some c' ∷ cs', rw one (rw rest), out_len)

  -- For a batch made of well-formed inputs that are not empty, with a cache for each layer, parts
  -- that keep the number of rows and a table that has a row for each position of each context
  -- behind its first two, the forward pass succeeds. Its hidden states are one segment of rows for
  -- each input in the batch's order, as long as the input, and the logits are those of the last
  -- rows of the segments.
  pub opt_causal_lm_forward-lasts :
      (model : OptModel Row) (caches : List Cache)
      → OptKeepsRows model.decoder
      → length caches ≡ length model.decoder.layers
      → All (λ d. 0 < d.input_len) inputs
      → All (λ d. d.context_len + offset ≤ length model.decoder.embed_positions) inputs
      → (segs : List (List Row × Row)) × (caches' : List (Option Cache)) × (opt_decoder_forward add
            k model.decoder m.input_ids m.params
            (some caches)
          ≡ ok (join segs, caches'))
        × (segment_lens segs ≡ input_lens m.inputs)
        × (opt_causal_lm_forward add k model m.input_ids m.params (some caches)
            ≡ ok (model.lm_head (finals segs), caches'))
  unfolding opt_causal_lm_forward opt_decoder_forward
  opt_causal_lm_forward-lasts model caches rows count nonempty fits =
      let d = model.decoder in
      let table = d.embed_positions in
      let (pos_embeds, found, pos_len) =
        positions_total table m.inputs (inputs-All fi w inputs true run IsWellFormed wf)
          (inputs-All fi w inputs true run (λ d. d.context_len + offset ≤ length table) fits) in
      let embedded : embed_positions_forward table m.params.position_ids ≡ ok pos_embeds =
        ap (embed_positions_forward table) (position_ids-make_inputs fi w inputs true run)
        ∙ found in
      let input_embeds = apply_part d.project_in (d.embed_tokens m.input_ids) in
      let embeds_len : length input_embeds ≡ length m.input_ids =
        rows.project_in (d.embed_tokens m.input_ids) ∙ rows.embed m.input_ids in
      let same : length input_embeds ≡ length pos_embeds =
        embeds_len ∙ ap length (flat-make_inputs fi w inputs true run) ∙ sym pos_len in
      let (hidden, summed, hidden_len) = pointwise_total add input_embeds pos_embeds same in
      let (out, caches', layers, len) =
        opt_run_layers_total d.layers hidden caches rows.layers (hidden_len ∙ embeds_len) count in
      let final = apply_part d.project_out (apply_part d.final_layer_norm out) in
      let final_len : length final ≡ length m.input_ids =
        rows.project_out (apply_part d.final_layer_norm out) ∙ rows.final_norm out ∙ len in
      let (segs, joined, lens, chosen) =
        made_segments fi w inputs wf run nonempty final final_len in
      (
        segs,
        caches',
        rw embedded (rw summed (rw layers (rw joined))),
        lens,
        rw embedded (rw summed (rw layers (rw joined (rw chosen)))),
      )
