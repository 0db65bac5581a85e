-- ===== src/Services/Inference.antt =====
-- A request to the service `Infer` of a worker with a llama model: from the inputs of the message to
-- the outputs, through the batch, the forward pass and the sampler.
use mathlib.Core.List.{Perm}
use lmserve.Prelude.{
  ◌≤◌, ℕ, ◌<◌, ◌≡◌, ap, ◌∙◌, Bool, true, ◌&&◌, List, Option, none, some, if◌then◌else◌, length,
  get_elem?, All, ok,
}
use lmserve.Batch.Inputs.{InferInput}
use lmserve.Batch.Pages.{input_lens}
use lmserve.Batch.Make.{FlashInfer, BatchConfig, MadeInputs, make_inputs}
use lmserve.Batch.Collect.{IsWellFormed}
use lmserve.Batch.Layout.{make_inputs-layout}
use lmserve.Batch.Paging.{paged_spec, make_inputs-total}
use lmserve.Forward.Attend.{Kernels, KeepsRows}
use lmserve.Forward.Rows.{join, segment_lens, finals}
use lmserve.Forward.Segments.{length-finals, length-input_lens}
use lmserve.Forward.Decoder.{Model, model_forward}
use lmserve.Forward.Hooked.{Queues, llama_logits, llama_logits-cached}
use lmserve.Forward.Logits.{ModelKeepsRows, causal_lm_forward-lasts}
use lmserve.ModelWorker.Sampler.{SamplingParams, SamplerOps, sample, Samples}
use lmserve.ModelWorker.Execute.{InferOutput, find, WorkerState}
use lmserve.ModelWorker.Outputs.{Absent, DistinctSeqs, IsDecoded, output_of}
use lmserve.ModelWorker.Execution.{execute-outputs}
use lmserve.Services.{InferRequest, infer_service}

module _ {Row Cache Prob Word : Type 0} (add mul : Row → Row → Row) (k : Kernels Row Cache)
    (model : Model Row) (caches : List Cache) (queues : Queues) (fi : FlashInfer)
    (ops : SamplerOps Row Prob) (decode : ℕ → Word) (eos : List ℕ) (w : BatchConfig)
    (params : SamplingParams) where
  -- What a reply to a request holds: the logits of each input's last row decide its output.
  pub record Answers (state : WorkerState Word) (r : InferRequest) (m : MadeInputs)
      (segs : List (List Row × Row)) (ids : List ℕ) (probs : List Prob)
      (outputs : List (ℕ × InferOutput Prob Word)) (after : WorkerState Word) : Type 0 where
    pub batched : make_inputs fi w r.inputs true ≡ ok m
    pub reordered : Perm m.inputs r.inputs
    pub hidden :
        (caches' : List (Option Cache)) × (model_forward add mul k model m.input_ids m.params
            (some caches)
          ≡ ok (join segs, caches'))
    pub each_input : segment_lens segs ≡ input_lens m.inputs
    pub sampled : sample ops params (model.lm_head (finals segs)) ≡ ok (ids, probs)
    pub replied :
        infer_service fi ops decode
          (llama_logits add mul k model caches w.has_kv_caches queues)
          eos
          w
          params
          state
          r
        ≡ ok (outputs, after)
    pub found :
        (j : ℕ) (d : InferInput)
        → get_elem? m.inputs j ≡ some d
        → (id : ℕ) × (p : Prob) × (get_elem? ids j ≡ some id)
          × (get_elem? probs j ≡ some p)
          × (find d.seq_id outputs ≡ some (output_of decode eos id p))
    pub no_other : (key : ℕ) → Absent key m.inputs → find key outputs ≡ none
    pub vocabulary : IsDecoded decode after.vocab_cache

  module _ (keeps : KeepsRows k) (rows : ModelKeepsRows model)
      (head_rows : (h : List Row) → length (model.lm_head h) ≡ length h)
      (samples : (logits : List Row) → Samples ops logits) (positive : 0 < w.block_size)
      (with_caches : w.has_kv_caches ≡ true) (count : length caches ≡ length model.layers) where
    -- A worker with a llama model and a cache for each layer answers every request that uses the cache,
    -- for inputs of different sequences that are well formed and not empty, when the parts of the
    -- model keep the number of rows and the sampler keeps to its contract, and when, if the request
    -- waits before it executes, the KV worker has put or still puts a value into the queue for each
    -- layer. The batch lists the
    -- inputs in another order, the hidden states are one segment of rows for each as long as the
    -- input, and the output of each sequence is sampled from the logits of its segment's last row;
    -- no other sequence has one, and the vocabulary cache still holds what the tokenizer says.
    pub infer_service-Answers :
        (state : WorkerState Word) (r : InferRequest)
        → r.use_cache ≡ true
        → All IsWellFormed r.inputs
        → All (λ d. 0 < d.input_len) r.inputs
        → DistinctSeqs r.inputs
        → IsDecoded decode state.vocab_cache
        → (r.wait_before_execute ≡ true → length model.layers ≤ queues.model_queue)
        → (m : MadeInputs) × (segs : List (List Row × Row)) × (ids : List ℕ) × (probs : List Prob)
          × (outputs : List (ℕ × InferOutput Prob Word)) × (after : WorkerState Word) × Answers
              state r m segs ids probs outputs after
    unfolding infer_service
    infer_service-Answers state r cached wf nonempty distinct decoded filled =
        let (m, made, tables) = make_inputs-total fi w positive r.inputs true in
        let spec = paged_spec fi w m.inputs in
        let paged : m.params.paged ≡ some spec =
          tables ∙ ap (λ (b : Bool). if b && true then some spec else none) with_caches in
        let (segs, caches', hidden, lens, logits) =
          causal_lm_forward-lasts add mul k keeps fi w positive r.inputs wf made paged model caches
            rows count nonempty in
        let llama = llama_logits add mul k model caches w.has_kv_caches queues in
        let ran : llama r.wait_before_execute r.record_after_execute m.input_ids m.params true
            ≡ ok (model.lm_head (finals segs)) =
          llama_logits-cached add mul k model caches w.has_kv_caches queues r.wait_before_execute
            r.record_after_execute (λ registered. filled) m.input_ids m.params
            (model.lm_head (finals segs)) caches' logits in
        let as_many : length (model.lm_head (finals segs)) ≡ length m.inputs =
          head_rows (finals segs)
          ∙ length-finals segs
          ∙ ap length lens
          ∙ length-input_lens m.inputs in
        let (ids, probs, outputs, after, executed, sampled, found, others, _, _, vocabulary) =
          execute-outputs fi ops decode llama eos w params state r.inputs true r.wait_before_execute
            r.record_after_execute m (model.lm_head (finals segs)) made ran as_many
            (samples (model.lm_head (finals segs))) distinct decoded in
        (
          m,
          segs,
          ids,
          probs,
          outputs,
          after,
          record {
            batched = made;
            reordered = (make_inputs-layout fi w r.inputs true made wf).0;
            hidden = (caches', hidden);
            each_input = lens;
            sampled = sampled;
            replied = rw cached executed;
            found = found;
            no_other = others;
            vocabulary = vocabulary;
          },
        )
