-- ===== src/ModelWorker/Execute.antt =====
-- `ModelWorker.execute`: the batch, the forward pass, the next tokens and the outputs by sequence.
use lmserve.Prelude.{
  ℕ, zero, suc, Bool, false, ◌||◌, List, [], ◌∷◌, map, Option, none, some, ◌==◌, if◌then◌else◌,
  Result, ok, raise, index_error, ◌>>=◌,
}
use lmserve.Batch.Inputs.{InferInput}
use lmserve.Batch.Make.{FlashInfer, BatchConfig, InputParams, make_inputs}
use lmserve.ModelWorker.Sampler.{SamplingParams, SamplerOps, sample}

-- The message `InferOutput` of proto/worker.proto.
pub record InferOutput (Prob Word : Type 0) : Type 0 where
  pub output_id : ℕ
  pub prob : Prob
  pub output_word : Word
  pub is_eos : Bool

-- A `dict` by its items: `d.get(key)`, and `d[key] = value`.
module _ {V : Type 0} where
  unfoldable pub find : ℕ → List (ℕ × V) → Option V
  find key [] = none
  find key ((k, v) ∷ items) = let rest = find key items in if k == key then some v else rest

  unfoldable pub put : ℕ → V → List (ℕ × V) → List (ℕ × V)
  put key v [] = (key, v) ∷ []
  put key v ((k, u) ∷ items) =
      let rest = put key v items in if k == key then (k, v) ∷ items else (k, u) ∷ rest

-- `torch.isin` of one id.
unfoldable pub is_in : ℕ → List ℕ → Bool
is_in id [] = false
is_in id (e ∷ es) = (id == e) || is_in id es

-- What `execute` changes in the `ModelWorker`.
pub record WorkerState (Word : Type 0) : Type 0 where
  pub vocab_cache : List (ℕ × Word)
  pub enable_wait_before_execute : Bool
  pub enable_record_after_execute : Bool

module _ {Word : Type 0} (decode : ℕ → Word) where
  -- The loop over `next_token_ids`: the words, and the vocabulary cache after it.
  unfoldable pub next_words : List ℕ → List (ℕ × Word) → List Word × List (ℕ × Word)
  unfolding find put
  next_words [] cache = ([], cache)
  next_words (id ∷ ids) cache = elim (find id cache) [
    | some word ↦ let (words, cache') = next_words ids cache in (word ∷ words, cache')
    | none ↦
        let (words, cache') = next_words ids (put id (decode id) cache) in
        (decode id ∷ words, cache')
  ]

module _ {Prob Word : Type 0} where
  -- The `InferOutput` of the input at place `i`.
  unfoldable pub output_at :
      List ℕ → List Prob → List Word → List Bool → ℕ → Option (InferOutput Prob Word)
  output_at (id ∷ ids) (p ∷ probs) (w ∷ words) (m ∷ mask) i = elim i [
    | zero ↦ some (record { output_id = id; prob = p; output_word = w; is_eos = m })
    | suc j ↦ output_at ids probs words mask j
  ]
  output_at _ _ _ _ i = none

  -- `for i, data in enumerate(inputs)`
  unfoldable pub assign_outputs :
      (ℕ → Option (InferOutput Prob Word))
      → List InferInput
      → ℕ
      → List (ℕ × InferOutput Prob Word)
      → Result (List (ℕ × InferOutput Prob Word))
  unfolding put
  assign_outputs at [] i outputs = ok outputs
  assign_outputs at (d ∷ ds) i outputs = elim (at i) [
    | none ↦ raise index_error
    | some o ↦ assign_outputs at ds (suc i) (put d.seq_id o outputs)
  ]

-- `self.model`, which reads the two flags of the hooks, the tokenizer's `decode` and its end tokens; no blocks are copied first, since no
-- caller asks for it.
module _ {Row Prob Word : Type 0} (fi : FlashInfer) (ops : SamplerOps Row Prob) (decode : ℕ → Word)
    (model : Bool → Bool → List ℕ → InputParams → Bool → Result (List Row))
    (eos_token_ids : List ℕ) where
  unfoldable pub execute :
      BatchConfig
      → SamplingParams
      → WorkerState Word
      → List InferInput
      → Bool
      → Bool
      → Bool
      → Result (List (ℕ × InferOutput Prob Word) × WorkerState Word)
  unfolding make_inputs sample next_words is_in output_at assign_outputs
  execute w params state inputs use_cache wait_before_execute record_after_execute = do
    m ← make_inputs fi w inputs use_cache
    logits ← model wait_before_execute record_after_execute m.input_ids m.params use_cache
    (next_token_ids, probs) ← sample ops params logits
    let eos_mask = map (λ id. is_in id eos_token_ids) next_token_ids
    let (words, cache) = next_words decode next_token_ids state.vocab_cache
    outputs ← assign_outputs (output_at next_token_ids probs words eos_mask) m.inputs 0 []
    ok (
      outputs,
      record {
        vocab_cache = cache;
        enable_wait_before_execute = wait_before_execute;
        enable_record_after_execute = record_after_execute;
      },
    )
