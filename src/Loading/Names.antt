-- ===== src/Loading/Names.antt =====
-- `get_layer_type` of models/utils.py and the `load_weights` methods of the three language models: which
-- parameter each tensor of a checkpoint goes to. A name is its code points; the classes of the modules
-- and `Tensor.copy_` are parameters.
use Prim.Native.Char.{code}
use Prim.Native.String.{String}
use lmserve.Prelude.{
  ℕ, Bool, ◌&&◌, List, [], ◌∷◌, ◌++◌, Option, none, some, if◌then◌else◌, Result, ok, raise, ◌>>=◌,
  attribute_error, key_error, value_error,
}
use lmserve.ModelWorker.Modules.{starts_with, contains}
use lmserve.Loading.Files.{same_text}
use lmserve.Loading.Shards.{Weight, LayerType, ParamType, weight, bias, load_weights}

abbrev pub codes : String → List ℕ
codes String.[] = []
codes (String.◌∷◌ c s) = code c ∷ codes s

-- What stands before an ending.
unfoldable pub before_suffix : List ℕ → List ℕ → Option (List ℕ)
unfolding same_text
before_suffix suffix [] = if same_text [] suffix then some [] else none
before_suffix suffix (c ∷ cs) =
    let rest = before_suffix suffix cs in
    if same_text (c ∷ cs) suffix
    then some []
    else elim rest [ none ↦ none | some layer ↦ some (c ∷ layer) ]

-- The pattern `^(.*)\.(weight|bias)$`, on names without line breaks.
unfoldable pub split_name : List ℕ → Result (List ℕ × ParamType)
unfolding before_suffix
split_name name = elim (before_suffix (codes ".weight") name) [
  | some layer ↦ ok (layer, weight)
  | none ↦ elim (before_suffix (codes ".bias") name) [
    | some layer ↦ ok (layer, bias)
    | none ↦ raise value_error
  ]
]

-- `type(rgetattr(model, layer_name)).__name__` for each name of a layer.
abbrev pub Classes : Type 0
Classes = List ℕ → Result LayerType

unfoldable pub get_layer_type : Classes → List ℕ → Result (LayerType × ParamType)
unfolding split_name
get_layer_type classes name = do
  (layer_name, param_type) ← split_name name
  layer_type ← classes layer_name
  ok (layer_type, param_type)

-- `params_dict`, whose tensors are written in place.
abbrev pub Params : Type 0 → Type 0
Params A = List ℕ → Option (Weight A)

module _ {A : Type 0} where
  abbrev pub set_param : List ℕ → Weight A → Params A → Params A
  set_param name w params n = if same_text name n then some w else params n

  -- What `load_weights(params_dict[name], loaded_weight, get_layer_type(self, name), rank)` writes.
  unfoldable pub load_param : Classes → ℕ → Params A → List ℕ → Weight A → Result (Weight A)
  unfolding get_layer_type load_weights
  load_param classes rank params name loaded_weight = elim (params name) [
    | none ↦ raise key_error
    | some param ↦ do
      (layer_type, param_type) ← get_layer_type classes name
      load_weights param loaded_weight layer_type param_type rank
  ]

  -- The loop over the weights; `target` is what the loop does with a name: `none` for `continue`.
  unfoldable pub load_each :
      (List ℕ → Option (List ℕ))
      → Classes
      → ℕ
      → List (List ℕ × Weight A)
      → Params A
      → Result (Params A)
  unfolding same_text
  load_each target classes rank [] params = ok params
  load_each target classes rank ((name, w) ∷ weights) params = elim (target name) [
    | none ↦ load_each target classes rank weights params
    | some name' ↦ do
      loaded ← load_param classes rank params name' w
      load_each target classes rank weights (set_param name' loaded params)
  ]

  -- `to.data.copy_(source)`
  unfoldable pub copy_param :
      (Weight A → Weight A → Result (Weight A)) → List ℕ → List ℕ → Params A → Result (Params A)
  unfolding same_text
  copy_param copy to source params = elim (params to) [
    | none ↦ raise attribute_error
    | some old ↦ elim (params source) [
      | none ↦ raise attribute_error
      | some new ↦ do copied ← copy old new; ok (set_param to copied params)
    ]
  ]

-- The names that the loop of `LlamaForCausalLM.load_weights` and that of qwen2 loads.
unfoldable pub llama_target : List ℕ → Option (List ℕ)
unfolding contains
llama_target name = if contains (codes "rotary_emb.inv_freq") name then none else some name

-- Those of `OPTForCausalLM.load_weights`, and the names that they get.
unfoldable pub opt_target : Bool → List ℕ → Option (List ℕ)
unfolding contains starts_with
opt_target tie_word_embeddings name =
    if contains (codes "lm_head.weight") name && tie_word_embeddings
    then none
    else some (if starts_with (codes "decoder.") name then codes "model." ++ name else name)

module _ {A : Type 0} (copy : Weight A → Weight A → Result (Weight A)) (classes : Classes)
    (rank : ℕ) (tie_word_embeddings : Bool) (weights : List (List ℕ × Weight A)) where
  -- `LlamaForCausalLM.load_weights`
  unfoldable pub llama_load_weights : Params A → Result (Params A)
  unfolding llama_target load_each copy_param
  llama_load_weights params_dict = do
    params ← load_each llama_target classes rank weights params_dict
    if tie_word_embeddings
        then copy_param copy (codes "lm_head.weight") (codes "model.embed_tokens.weight") params
        else ok params

  -- `Qwen2ForCausalLM.load_weights`
  unfoldable pub qwen2_load_weights : Params A → Result (Params A)
  unfolding llama_target load_each copy_param
  qwen2_load_weights params_dict = do
    params ← load_each llama_target classes rank weights params_dict
    if tie_word_embeddings
        then copy_param copy (codes "lm_head.weight") (codes "model.embed_tokens.weight") params
        else ok params

  -- `OPTForCausalLM.load_weights`
  unfoldable pub opt_load_weights : Params A → Result (Params A)
  unfolding opt_target load_each copy_param
  opt_load_weights params_dict = do
    params ← load_each (opt_target tie_word_embeddings) classes rank weights params_dict
    copy_param copy (codes "lm_head.weight") (codes "model.decoder.embed_tokens.weight") params
