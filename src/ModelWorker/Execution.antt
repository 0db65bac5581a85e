-- ===== src/ModelWorker/Execution.antt =====
-- One call of `execute` as a whole.
use lmserve.Prelude.{
  ℕ, ◌<◌, ◌≡◌, refl, sym, ap, ◌∙◌, Bool, List, [], map, none, some, length, get_elem?, get_elem?-lt,
  Result, ok, arith,
}
use lmserve.Batch.Inputs.{InferInput}
use lmserve.Batch.Make.{FlashInfer, BatchConfig, MadeInputs, InputParams, make_inputs}
use lmserve.Batch.Layout.{sorted-make_inputs}
use lmserve.ModelWorker.Sampler.{SamplingParams, SamplerOps, sample, Samples, sample-total}
use lmserve.ModelWorker.Execute.{InferOutput, find, is_in, WorkerState, output_at, execute}
use lmserve.ModelWorker.Outputs.{
  Absent, DistinctSeqs, sort_inputs-DistinctSeqs, assign_outputs_lem, IsDecoded, next_words_lem,
  output_of, output_at_lem,
}

module _ {Row Prob Word : Type 0} (fi : FlashInfer) (ops : SamplerOps Row Prob) (decode : ℕ → Word)
    (model : Bool → Bool → List ℕ → InputParams → Bool → Result (List Row)) (eos : List ℕ) where
  -- For inputs of different sequences whose batch is made, a model that returns a row of logits for each
  -- input and a sampler that keeps to its contract, `execute` returns: each input of the batch finds
  -- under its sequence the token and probability sampled from the row at its place, the token's
  -- text and whether it ends the sequence. No other sequence has an output, the flags of the hooks
  -- are set, and the vocabulary cache still holds only what the tokenizer says.
  pub execute-outputs :
      (w : BatchConfig) (params : SamplingParams) (state : WorkerState Word)
      (inputs : List InferInput) (use_cache wait record_after : Bool) (m : MadeInputs)
      (logits : List Row)
      → make_inputs fi w inputs use_cache ≡ ok m
      → model wait record_after m.input_ids m.params use_cache ≡ ok logits
      → length logits ≡ length m.inputs
      → Samples ops logits
      → DistinctSeqs inputs
      → IsDecoded decode state.vocab_cache
      → (ids : List ℕ) × (probs : List Prob) × (outputs : List (ℕ × InferOutput Prob Word))
        × (after : WorkerState Word) × (execute fi ops decode model eos w params state inputs
              use_cache wait record_after
            ≡ ok (outputs, after))
        × (sample ops params logits ≡ ok (ids, probs))
        × ((j : ℕ) (d : InferInput)
            → get_elem? m.inputs j ≡ some d
            → (id : ℕ) × (p : Prob) × (get_elem? ids j ≡ some id)
              × (get_elem? probs j ≡ some p)
              × (find d.seq_id outputs ≡ some (output_of decode eos id p)))
        × ((key : ℕ) → Absent key m.inputs → find key outputs ≡ none)
        × (after.enable_wait_before_execute ≡ wait)
        × (after.enable_record_after_execute ≡ record_after)
        × IsDecoded decode after.vocab_cache
  unfolding execute find
  execute-outputs w params state inputs use_cache wait record_after m logits made ran rows samples
        distinct decoded =
      let (ids, probs, sampled, len_ids, len_probs) = sample-total ops params logits samples in
      let words = next_words_lem decode ids state.vocab_cache decoded in
      let mask = map (λ t. is_in t eos) ids in
      let at = output_at ids probs (map decode ids) mask in
      let seqs : DistinctSeqs m.inputs =
        rw (sorted-make_inputs fi w inputs use_cache made)
          (sort_inputs-DistinctSeqs inputs distinct) in
      let count : length m.inputs ≡ length ids = sym rows ∙ sym len_ids in
      let each = λ (j : ℕ) (h : j < length m.inputs).
        output_at_lem decode eos ids probs j (len_probs ∙ sym len_ids) (ground (arith, count)) in
      let assigned = assign_outputs_lem at m.inputs 0 [] seqs (λ j h.
        (output_of decode eos (each j h).0 (each j h).1, ap at (omega arith) ∙ (each j h).4)) in
      let found : (j : ℕ) (d : InferInput)
          → get_elem? m.inputs j ≡ some d
          → (id : ℕ) × (p : Prob) × (get_elem? ids j ≡ some id)
            × (get_elem? probs j ≡ some p)
            × (find d.seq_id assigned.0 ≡ some (output_of decode eos id p)) =
        λ j d e.
          let one = each j (get_elem?-lt m.inputs j d e) in
          let there : find d.seq_id assigned.0 ≡ at j = assigned.3 j d e ∙ ap at (omega arith) in
          (one.0, one.1, one.2, one.3, there ∙ one.4) in
      (
        ids,
        probs,
        assigned.0,
        _,
        rw (execute, made, ran, sampled, words.0, assigned.1) refl,
        sampled,
        found,
        assigned.2,
        refl,
        refl,
        words.1,
      )
