-- ===== src/ModelWorker/Tests.antt =====
-- Witnesses: two inputs, of one token each, whose next tokens are chosen by two scores, and a tree of modules.
use lmserve.Prelude.{
  ◌↔◌, Any, ℕ, suc, ◌≡◌, refl, Bool, true, false, List, [], ◌∷◌, map, none, some, length, get_elem?,
  Result, ok, arith, if◌then◌else◌, leb,
}
use lmserve.Loading.Names.{codes}
use lmserve.ModelWorker.Trees.{llama, attention, causal_lm_tree, opt_causal_lm_tree}
use lmserve.ModelWorker.Hooks.{
  words, hooked_modules, get_model_queue, wait_pre_event, run_module, forward_actions,
  forward_actions-layers,
}
use lmserve.ModelWorker.Words.{Occurs, picked, travel_layers-Occurs}
use lmserve.ModelWorker.Modules.{
  class_name, any_included, Tensor, Module, module_, no_children, child, travel_layers,
  get_total_size,
}
use lmserve.Batch.Inputs.{InferInput}
use lmserve.Batch.Make.{FlashInfer, BatchConfig, InputParams}
use lmserve.ModelWorker.Sampler.{SamplingParams, SamplerOps, sample, Samples}
use lmserve.ModelWorker.Execute.{InferOutput, find, WorkerState, execute}
use lmserve.ModelWorker.Outputs.{Absent, DistinctSeqs, IsDecoded, output_of}
use lmserve.ModelWorker.Execution.{execute-outputs}

program : Unit {0}
unfolding execute find
program = tt

abbrev fi : FlashInfer
fi = record { get_seq_lens = λ a b n. a; get_batch_indices_positions = λ a b n. (a, b) }

abbrev config : BatchConfig
config = record {
  has_kv_caches = false;
  heads = record { num_qo_heads = 1; num_kv_heads = 1; head_dim = 1 };
  block_size = 16;
}

abbrev ops : SamplerOps (ℕ × ℕ) ℕ
ops = record {
  softmax = λ row. row.0 ∷ row.1 ∷ [];
  max = λ probs. elim probs [ [] ↦ (0, 0) | p ∷ ps ↦ (p, 0) ];
  top_k_top_p = λ rows. map (λ row. if leb row.1 row.0 then 0 else 1) rows;
}

abbrev inputs : List InferInput
inputs =
    record {
      seq_id = 4;
      input_ids = 7 ∷ [];
      input_len = 1;
      filled_token_len = 0;
      context_len = 1;
      block_ids = [];
    }
    ∷ record {
      seq_id = 9;
      input_ids = 8 ∷ [];
      input_len = 1;
      filled_token_len = 0;
      context_len = 1;
      block_ids = [];
    }
    ∷ []

abbrev params : SamplingParams
params = record { top_k = 5; top_p_is_zero = false; temperature_is_zero = false }

abbrev scores : List (ℕ × ℕ)
scores = (3, 5) ∷ (6, 2) ∷ []

abbrev model : Bool → Bool → List ℕ → InputParams → Bool → Result (List (ℕ × ℕ))
model wait record_after ids p use_cache = ok scores

abbrev state : WorkerState ℕ
state = record {
  vocab_cache = [];
  enable_wait_before_execute = false;
  enable_record_after_execute = false;
}

abbrev Outputs : Type 0
Outputs =
    (ids : List ℕ) × (probs : List ℕ) × (outputs : List (ℕ × InferOutput ℕ ℕ))
    × (after : WorkerState ℕ) × (execute fi ops suc model (1 ∷ []) config params state inputs true
          true false
        ≡ ok (outputs, after))
    × (sample ops params scores ≡ ok (ids, probs))
    × ((j : ℕ) (d : InferInput)
        → get_elem? inputs j ≡ some d
        → (id : ℕ) × (p : ℕ) × (get_elem? ids j ≡ some id)
          × (get_elem? probs j ≡ some p)
          × (find d.seq_id outputs ≡ some (output_of suc (1 ∷ []) id p)))
    × ((key : ℕ) → Absent key inputs → find key outputs ≡ none)
    × (after.enable_wait_before_execute ≡ true)
    × (after.enable_record_after_execute ≡ false)
    × IsDecoded suc after.vocab_cache

samples : Samples ops scores
unfolding program
samples = record { count = refl; chosen = (5 ∷ 6 ∷ [], refl) }

distinct : DistinctSeqs inputs
distinct = ((omega arith, tt), (tt, tt))

decoded : IsDecoded suc []
unfolding program
decoded id w e = cc

execute-outputs_example : Outputs
unfolding program
execute-outputs_example =
    execute-outputs fi ops suc model (1 ∷ []) config params state inputs true true false _ scores
      refl refl refl samples distinct decoded

-- A tree of three modules, of which one has the word in its name.
abbrev att : List ℕ
att = 65 ∷ 116 ∷ 116 ∷ []

abbrev layers : Module
layers = module_ (76 ∷ []) [] [] (
    child
      (module_ (65 ∷ 84 ∷ 116 ∷ 50 ∷ []) (record { numel = 6; element_size = 2 } ∷ []) []
        no_children)
      (child (module_ (77 ∷ []) (record { numel = 5; element_size = 4 } ∷ []) [] no_children)
        no_children))

layers_run : (length (travel_layers (some (att ∷ [])) layers) ≡ 1) × (get_total_size layers ≡ 32)
unfolding travel_layers get_total_size
layers_run = (refl, refl)

travel_layers-Occurs_example :
    (test : Module → Bool) × ((layer : Module)
      → (test layer ≡ true) ↔ Any (λ word. Occurs word (class_name layer)) (att ∷ []))
    × (travel_layers (some (att ∷ [])) layers ≡ picked test (travel_layers none layers))
travel_layers-Occurs_example = travel_layers-Occurs (att ∷ []) layers

-- Two layers with `nn.SiLU`, whose tensors show the layer and the place.
abbrev silu : List ℕ
silu = codes "SiLU"

abbrev own : ℕ → ℕ → List Tensor
own i place = record { numel = i; element_size = place } ∷ []

silu_other : any_included words silu ≡ false
unfolding any_included
silu_other = refl

hooks_run : length (hooked_modules (causal_lm_tree silu own llama 2)) ≡ 2
unfolding hooked_modules causal_lm_tree
hooks_run = refl

forward_actions-layers_example :
    (forward_actions true false 2 (hooked_modules (causal_lm_tree silu own llama 2))
      ≡ ok (
          get_model_queue
          ∷ wait_pre_event 0
          ∷ run_module (attention (own 0 5))
          ∷ get_model_queue
          ∷ wait_pre_event 1
          ∷ run_module (attention (own 1 5))
          ∷ []))
    × (forward_actions true false 2 (hooked_modules (opt_causal_lm_tree silu own true true 2))
        ≡ ok (
            get_model_queue
            ∷ wait_pre_event 0
            ∷ run_module (attention (own 0 5))
            ∷ get_model_queue
            ∷ wait_pre_event 1
            ∷ run_module (attention (own 1 5))
            ∷ []))
forward_actions-layers_example =
    forward_actions-layers silu own silu_other true false 2 llama true true
