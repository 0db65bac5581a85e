-- ===== src/Services/InferenceTests.antt =====
-- One request of two sequences to a worker whose model has one layer, with rows of numbers.
use lmserve.Prelude.{
  ℕ, ◌+◌, ◌*◌, ◌≡◌, refl, true, false, List, [], ◌∷◌, map, length, length-map, ok, arith,
}
use lmserve.Batch.Make.{MadeInputs}
use lmserve.Batch.Tests.{documented, config}
use lmserve.Forward.Logits.{ModelKeepsRows}
use lmserve.Forward.Tests.{
  kernels, kernels-KeepsRows, inputs, model, layer-LayerKeepsRows, well_formed,
}
use lmserve.ModelWorker.Sampler.{SamplingParams, SamplerOps, gather_probs, Samples}
use lmserve.ModelWorker.Execute.{InferOutput, WorkerState, find}
use lmserve.ModelWorker.Outputs.{DistinctSeqs, IsDecoded}
use lmserve.Forward.Hooked.{Queues, llama_logits}
use lmserve.Warmup.Run.{run_warmup, run_warmup-returns}
use lmserve.Services.{InferRequest}
use lmserve.Services.Inference.{Answers, infer_service-Answers}

abbrev first_token : ℕ → ℕ
first_token row = 0

-- A distribution with one token, whose probability is the row.
abbrev ops : SamplerOps ℕ ℕ
ops = record {
  softmax = λ row. row ∷ [];
  max = λ probs. elim probs [ [] ↦ (0, 0) | p ∷ ps ↦ (p, 0) ];
  top_k_top_p = λ rows. map first_token rows;
}

gather_first :
    (logits : List ℕ)
    → gather_probs ops (map ops.softmax logits) (ops.top_k_top_p logits) ≡ ok logits
unfolding gather_probs
gather_first [] = refl
gather_first (row ∷ rows) = rw (gather_first rows)

ops-Samples : (logits : List ℕ) → Samples ops logits
ops-Samples logits = record {
  count = length-map first_token logits;
  chosen = (logits, gather_first logits);
}

abbrev params : SamplingParams
params = record { top_k = 5; top_p_is_zero = false; temperature_is_zero = false }

abbrev fresh : WorkerState ℕ
fresh = record {
  vocab_cache = [];
  enable_wait_before_execute = false;
  enable_record_after_execute = false;
}

-- The KV worker puts one value for the one layer.
abbrev queues : Queues
queues = record { model_queue = 1; kv_queue = 0 }

abbrev request : InferRequest
request = record {
  inputs = inputs;
  use_cache = true;
  wait_before_execute = true;
  record_after_execute = false;
}

distinct : DistinctSeqs inputs
distinct = omega arith

fresh-IsDecoded : IsDecoded (λ id. 100 + id) fresh.vocab_cache
unfolding find
fresh-IsDecoded id word e = cc

model-ModelKeepsRows : ModelKeepsRows model
model-ModelKeepsRows = record {
  embed = λ ids. refl;
  layers = (layer-LayerKeepsRows, tt);
  norm = λ h. refl;
}

infer_service-Answers_example :
    (m : MadeInputs) × (segs : List (List ℕ × ℕ)) × (ids : List ℕ) × (probs : List ℕ)
    × (outputs : List (ℕ × InferOutput ℕ ℕ)) × (after : WorkerState ℕ) × Answers ◌+◌ ◌*◌ kernels
        model
        (0 ∷ [])
        queues
        documented
        ops
        (λ id. 100 + id)
        (0 ∷ [])
        config
        params
        fresh
        request
        m
        segs
        ids
        probs
        outputs
        after
infer_service-Answers_example =
    infer_service-Answers ◌+◌ ◌*◌ kernels model (0 ∷ []) queues documented ops (λ id. 100 + id)
      (0 ∷ []) config params kernels-KeepsRows model-ModelKeepsRows (λ h. refl) ops-Samples
      (omega arith) refl refl fresh request refl well_formed (omega arith) distinct fresh-IsDecoded
      (λ waits. omega arith)

-- The warmup of the same worker before `init_cache`, for three places and seven tokens.
run_warmup-returns_example :
    (ids : List ℕ) × (probs : List ℕ) × (run_warmup documented ops
        (λ row. row)
        (llama_logits ◌+◌ ◌*◌ kernels model [] false queues)
        (record config { has_kv_caches = false })
        params
        fresh
        3
        2048
        7
      ≡ ok (ids, probs))
    × (length ids ≡ 3)
    × (length probs ≡ 3)
run_warmup-returns_example =
    run_warmup-returns ◌+◌ ◌*◌ kernels kernels-KeepsRows documented ops ops-Samples (λ row. row)
      model model-ModelKeepsRows (λ h. refl) queues (record config { has_kv_caches = false })
      (omega arith) refl fresh params 3 2048 7 (omega arith) (omega arith) (omega arith)
