-- ===== src/Warmup/Run.antt =====
-- The whole of `warmup`: the made batch is run through the model and sampled.
use lmserve.Prelude.{
  ℕ, ◌≤◌, ◌<◌, ◌≡◌, ap, sym, ◌∙◌, Bool, true, false, List, [], map, length, length-map, All, Result,
  ok, ◌>>=◌,
}
use lmserve.Batch.Inputs.{InferInput}
use lmserve.Batch.Make.{FlashInfer, BatchConfig, InputParams, MadeInputs, make_inputs}
use lmserve.Batch.Collect.{IsWellFormed}
use lmserve.Batch.Layout.{length-make_inputs}
use lmserve.Batch.Paging.{make_inputs-total}
use lmserve.Forward.Attend.{Kernels, KeepsRows}
use lmserve.Forward.Rows.{finals}
use lmserve.Forward.Decoder.{Model}
use lmserve.Forward.Hooked.{Queues, llama_logits, llama_logits-plain}
use lmserve.ModelWorker.Execute.{WorkerState}
use lmserve.Forward.Logits.{ModelKeepsRows}
use lmserve.Forward.Segments.{length-finals, length-input_lens}
use lmserve.Forward.Plain.{plain_forward-lasts}
use lmserve.ModelWorker.Sampler.{SamplingParams, SamplerOps, sample, Samples, sample-total}
use lmserve.Warmup.{warmup}
use lmserve.Warmup.Fit.{warmup_inputs_fit, warmup_inputs-nonempty}

-- The hooks read the two flags that the last `execute` has left; `logits.unsqueeze(1)` makes of each row a matrix with one row, which the sampler's functions take.
module _ {Row Matrix Prob Word : Type 0} (fi : FlashInfer) (ops : SamplerOps Matrix Prob)
    (unsqueeze : Row → Matrix)
    (model : Bool → Bool → List ℕ → InputParams → Bool → Result (List Row)) where
  unfoldable pub run_warmup :
      BatchConfig → SamplingParams → WorkerState Word → ℕ → ℕ → ℕ → Result (List ℕ × List Prob)
  unfolding warmup sample
  run_warmup w params state max_batch_size max_seq_len max_num_batched_tokens = do
    m ← warmup fi w max_batch_size max_seq_len max_num_batched_tokens
    logits ←
        model state.enable_wait_before_execute state.enable_record_after_execute m.input_ids
          m.params w.has_kv_caches
    sample ops params (map unsqueeze logits)

no_hooks : true ≡ false → ⊥
no_hooks h = cc

module _ {Row Matrix Cache Prob Word : Type 0} (add mul : Row → Row → Row) (k : Kernels Row Cache)
    (keeps : KeepsRows k) (fi : FlashInfer) (ops : SamplerOps Matrix Prob)
    (samples : (logits : List Matrix) → Samples ops logits) (unsqueeze : Row → Matrix)
    (model : Model Row) (rows : ModelKeepsRows model)
    (head_rows : (h : List Row) → length (model.lm_head h) ≡ length h) (queues : Queues)
    (w : BatchConfig) (positive : 0 < w.block_size) (no_caches : w.has_kv_caches ≡ false)
    (state : WorkerState Word) where
  abbrev llama : Bool → Bool → List ℕ → InputParams → Bool → Result (List Row)
  llama = llama_logits add mul k model [] w.has_kv_caches queues

  -- The logits have a row for each input.
  llama_logits_total :
      (inputs : List InferInput)
      → All IsWellFormed inputs
      → All (λ d. 0 < d.input_len) inputs
      → (m : MadeInputs) × (logits : List Row) × (make_inputs fi w inputs true ≡ ok m)
        × (llama state.enable_wait_before_execute state.enable_record_after_execute m.input_ids
              m.params w.has_kv_caches
            ≡ ok logits)
        × (length logits ≡ length inputs)
  llama_logits_total inputs wf nonempty =
      let (m, made, tables) = make_inputs-total fi w positive inputs true in
      let (segs, hidden, lens, logits) =
        plain_forward-lasts add mul k keeps fi w inputs wf made model rows nonempty in
      let out = model.lm_head (finals segs) in
      let ran : llama state.enable_wait_before_execute state.enable_record_after_execute m.input_ids
            m.params false
          ≡ ok out =
        llama_logits-plain add mul k model [] w.has_kv_caches queues
          state.enable_wait_before_execute state.enable_record_after_execute
          (λ registered. absurd (no_hooks (sym registered ∙ no_caches))) m.input_ids m.params out []
          logits in
      let as_many : length out ≡ length inputs =
        head_rows (finals segs)
        ∙ length-finals segs
        ∙ ap length lens
        ∙ length-input_lens m.inputs
        ∙ length-make_inputs fi w inputs true made in
      let same : llama state.enable_wait_before_execute state.enable_record_after_execute
            m.input_ids m.params w.has_kv_caches
          ≡ ok out =
        ap
          (llama state.enable_wait_before_execute state.enable_record_after_execute m.input_ids
            m.params)
          no_caches
        ∙ ran in
      (m, out, made, same, as_many)

  -- With a positive page size, a batch size and a sequence limit above 0 and a token for each place of the
  -- batch, the warmup of a worker with a llama model before its caches are made raises nothing and
  -- waits for nothing, whatever the flags of the hooks, when the parts of the model keep the number
  -- of rows and the sampler keeps to its contract: one token and one probability is sampled for each
  -- place of the batch.
  pub run_warmup-returns :
      (params : SamplingParams) (max_batch_size max_seq_len max_num_batched_tokens : ℕ)
      → 0 < max_batch_size
      → 0 < max_seq_len
      → max_batch_size ≤ max_num_batched_tokens
      → (ids : List ℕ) × (probs : List Prob) × (run_warmup fi ops unsqueeze llama w params state
            max_batch_size max_seq_len max_num_batched_tokens
          ≡ ok (ids, probs))
        × (length ids ≡ max_batch_size)
        × (length probs ≡ max_batch_size)
  unfolding run_warmup warmup
  run_warmup-returns params n seq tok hn hs ht =
      let (inputs, spread, places, _, _, wf, _) =
        warmup_inputs_fit w.block_size n seq tok positive hn in
      let nonempty =
        warmup_inputs-nonempty w.block_size n seq tok inputs positive hn hs ht spread in
      let (m, logits, made, ran, as_many) = llama_logits_total inputs wf nonempty in
      let (ids, probs, sampled, len_ids, len_probs) =
        sample-total ops params (map unsqueeze logits) (samples (map unsqueeze logits)) in
      let rows_of = length-map unsqueeze logits ∙ as_many ∙ places in
      (ids, probs, rw spread (rw made (rw ran sampled)), len_ids ∙ rows_of, len_probs ∙ rows_of)
