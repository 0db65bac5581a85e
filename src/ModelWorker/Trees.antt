-- ===== src/ModelWorker/Trees.antt =====
-- The modules that the three models are made of, in the order in which their `__init__` methods register
-- them. The tensors of a module are given by its layer and its place in the layer.
use lmserve.Prelude.{ℕ, suc, zero, ◌++◌, Bool, List, [], if◌then◌else◌}
use lmserve.Loading.Names.{codes}
use lmserve.ModelWorker.Modules.{Tensor, Module, module_, Modules, no_children, child}

-- llama.py and qwen2.py have the same structure, with class names of their own.
pub data Family : Type 0 where
  llama qwen2 : Family

abbrev pub rms_norm : Family → List ℕ
rms_norm llama = codes "LlamaRMSNorm"
rms_norm qwen2 = codes "Qwen2RMSNorm"

abbrev pub prefixed : Family → List ℕ → List ℕ
prefixed llama name = codes "Llama" ++ name
prefixed qwen2 name = codes "Qwen2" ++ name

-- A module without children, with its parameters.
abbrev pub leaf : List ℕ → List Tensor → Module
leaf name params = module_ name params [] no_children

abbrev pub attention : List Tensor → Module
attention params = leaf (codes "Attention") params

-- `act` is the class of the activation.
module _ (act : List ℕ) (own : ℕ → ℕ → List Tensor) where
  -- `LlamaAttention`, `LlamaMLP` and `LlamaDecoderLayer`
  unfoldable pub decoder_layer : Family → ℕ → Module
  decoder_layer f i =
      let column = λ (place : ℕ). leaf (codes "ColumnParallelLinear") (own i place) in
      let row = λ (place : ℕ). leaf (codes "RowParallelLinear") (own i place) in
      let self_attn = module_ (prefixed f (codes "Attention")) [] [] (
        child (column 0) (
          child (column 1) (
            child (column 2) (
              child (row 3) (
                child (module_ (codes "RotaryEmbedding") [] (own i 4) no_children)
                  (child (attention (own i 5)) no_children)))))) in
      let mlp = module_ (prefixed f (codes "MLP")) [] [] (
        child (column 6)
          (child (column 7) (child (row 8) (child (leaf act (own i 9)) no_children)))) in
      module_ (prefixed f (codes "DecoderLayer")) [] [] (
        child self_attn (
          child mlp (
            child (leaf (rms_norm f) (own i 10))
              (child (leaf (rms_norm f) (own i 11)) no_children))))

  -- `OPTAttention` and `OPTDecoderLayer`
  unfoldable pub opt_decoder_layer : ℕ → Module
  opt_decoder_layer i =
      let column = λ (place : ℕ). leaf (codes "ColumnParallelLinear") (own i place) in
      let row = λ (place : ℕ). leaf (codes "RowParallelLinear") (own i place) in
      let self_attn = module_ (codes "OPTAttention") [] [] (
        child (column 0) (
          child (column 1)
            (child (column 2) (child (row 3) (child (attention (own i 5)) no_children))))) in
      module_ (codes "OPTDecoderLayer") [] [] (
        child self_attn (
          child (leaf act (own i 9)) (
            child (leaf (codes "LayerNorm") (own i 10)) (
              child (column 6)
                (child (row 8) (child (leaf (codes "LayerNorm") (own i 11)) no_children))))))

  -- `nn.ModuleList([...(config) for _ in range(num_hidden_layers)])`, from layer `i` on.
  unfoldable pub layer_list : (ℕ → Module) → ℕ → ℕ → Modules
  layer_list layer zero i = no_children
  layer_list layer (suc n) i = child (layer i) (layer_list layer n (suc i))

  -- `LlamaForCausalLM` with `LlamaModel`; the numbers behind the layers are those of other modules.
  unfoldable pub causal_lm_tree : Family → ℕ → Module
  unfolding decoder_layer layer_list
  causal_lm_tree f n =
      let model = module_ (prefixed f (codes "Model")) [] [] (
        child (leaf (codes "VocabParallelEmbedding") (own n 0)) (
          child (module_ (codes "ModuleList") [] [] (layer_list (decoder_layer f) n 0))
            (child (leaf (rms_norm f) (own n 1)) no_children))) in
      module_ (prefixed f (codes "ForCausalLM")) [] []
        (child model (child (leaf (codes "ColumnParallelLinear") (own n 2)) no_children))

  -- A child that is made only under a condition, and else `None`.
  abbrev optional : Bool → Module → Modules → Modules
  optional made m ms = if made then child m ms else ms

  -- `OPTForCausalLM` with `OPTModel` and `OPTDecoder`, whose two projections and last norm depend on the
  -- configuration.
  unfoldable pub opt_causal_lm_tree : Bool → Bool → ℕ → Module
  unfolding opt_decoder_layer layer_list
  opt_causal_lm_tree projects norms n =
      let decoder = module_ (codes "OPTDecoder") [] [] (
        child (leaf (codes "VocabParallelEmbedding") (own n 0)) (
          child (leaf (codes "OPTPositionalEmbedding") (own n 1)) (
            optional projects (leaf (codes "Linear") (own n 2)) (
              optional projects (leaf (codes "Linear") (own n 3)) (
                optional norms (leaf (codes "LayerNorm") (own n 4)) (
                  child (module_ (codes "ModuleList") [] [] (layer_list opt_decoder_layer n 0))
                    no_children)))))) in
      module_ (codes "OPTForCausalLM") [] [] (
        child (module_ (codes "OPTModel") [] [] (child decoder no_children))
          (child (leaf (codes "ColumnParallelLinear") (own n 5)) no_children))
