-- ===== src/ModelWorker/Hooks.antt =====
-- The hooks that `init_cache` registers, on the modules that `travel_layers` finds.
use lmserve.Prelude.{
  ℕ, zero, suc, ◌+◌, ◌≤◌, ◌≡◌, refl, ap, ap₂, ◌∙◌, Bool, true, false, List, [], ◌∷◌, ◌++◌,
  append-nil, map, some, ltb, if◌then◌else◌, arith, concat, range_from, Result, ok, raise, ◌>>=◌,
  index_error,
}
use lmserve.Loading.Names.{codes}
use lmserve.ModelWorker.Modules.{Tensor, Module, any_included, travel_layers, travel_children}
use lmserve.ModelWorker.Trees.{
  Family, llama, qwen2, attention, decoder_layer, opt_decoder_layer, layer_list, causal_lm_tree,
  opt_causal_lm_tree,
}

-- `["Attention"]`
abbrev pub words : List (List ℕ)
words = codes "Attention" ∷ []

-- `enumerate`
unfoldable pub enumerate_from : ℕ → List Module → List (ℕ × Module)
enumerate_from i [] = []
enumerate_from i (m ∷ ms) = (i, m) ∷ enumerate_from (suc i) ms

-- The modules with hooks, each with the index that its hooks have captured.
unfoldable pub hooked_modules : Module → List (ℕ × Module)
unfolding enumerate_from travel_layers
hooked_modules model = enumerate_from 0 (travel_layers (some words) model)

-- What a hook does with the queues and the events.
pub data Action : Type 0 where
  get_model_queue : Action
  wait_pre_event : ℕ → Action
  run_module : Module → Action
  record_post_event : ℕ → Action
  put_kv_queue : Action

-- `pre_hook_fn` and `post_hook_fn` of a module with index `i`, with so many events in each list.
unfoldable pub pre_hook_fn : Bool → ℕ → ℕ → Result (List Action)
pre_hook_fn false events i = ok []
pre_hook_fn true events i =
    if ltb i events then ok (get_model_queue ∷ wait_pre_event i ∷ []) else raise index_error

unfoldable pub post_hook_fn : Bool → ℕ → ℕ → Result (List Action)
post_hook_fn false events i = ok []
post_hook_fn true events i =
    if ltb i events then ok (record_post_event i ∷ put_kv_queue ∷ []) else raise index_error

-- The actions of a forward pass that runs the modules with hooks in their order.
unfoldable pub forward_actions : Bool → Bool → ℕ → List (ℕ × Module) → Result (List Action)
unfolding pre_hook_fn post_hook_fn
forward_actions wait record_after events [] = ok []
forward_actions wait record_after events ((i, m) ∷ hooked) = do
  before ← pre_hook_fn wait events i
  behind ← post_hook_fn record_after events i
  rest ← forward_actions wait record_after events hooked
  ok (before ++ run_module m ∷ behind ++ rest)

module _ (act : List ℕ) (own : ℕ → ℕ → List Tensor) (other : any_included words act ≡ false) where
  -- Of a layer only its `Attention` is found.
  layer_attention :
      (f : Family) (i : ℕ)
      → travel_layers (some words) (decoder_layer act own f i) ≡ attention (own i 5) ∷ []
  unfolding travel_layers decoder_layer any_included
  layer_attention llama i = ground (arith, other)
  layer_attention qwen2 i = ground (arith, other)

  opt_layer_attention :
      (i : ℕ) → travel_layers (some words) (opt_decoder_layer act own i) ≡ attention (own i 5) ∷ []
  unfolding travel_layers opt_decoder_layer any_included
  opt_layer_attention i = ground (arith, other)

  abbrev attentions : ℕ → ℕ → List Module
  attentions i n = map (λ k. attention (own k 5)) (range_from i n)

  layers_attention :
      (layer : ℕ → Module) (n i : ℕ)
      → ((k : ℕ) → travel_layers (some words) (layer k) ≡ attention (own k 5) ∷ [])
      → travel_children (some words) (layer_list act own layer n i) ≡ attentions i n
  unfolding travel_layers layer_list
  layers_attention layer zero i h = refl
  layers_attention layer (suc n) i h =
      ap₂ ◌++◌ (h i) (layers_attention layer n (suc i) h)
      ∙ ap (λ (k : ℕ). attention (own i 5) ∷ attentions k n) (omega arith)

  tree_attention :
      (f : Family) (n : ℕ)
      → travel_layers (some words) (causal_lm_tree act own f n) ≡ attentions 0 n
  unfolding travel_layers causal_lm_tree layer_list any_included
  tree_attention llama zero = refl
  tree_attention qwen2 zero = refl
  tree_attention llama (suc n) = ground (
    arith,
    other,
    layers_attention (decoder_layer act own llama) n 1 (layer_attention llama),
    append-nil (attentions 1 n),
  )
  tree_attention qwen2 (suc n) = ground (
    arith,
    other,
    layers_attention (decoder_layer act own qwen2) n 1 (layer_attention qwen2),
    append-nil (attentions 1 n),
  )

  opt_tree_attention :
      (projects norms : Bool) (n : ℕ)
      → travel_layers (some words) (opt_causal_lm_tree act own projects norms n) ≡ attentions 0 n
  unfolding travel_layers opt_causal_lm_tree layer_list any_included
  opt_tree_attention true true zero = refl
  opt_tree_attention true false zero = refl
  opt_tree_attention false true zero = refl
  opt_tree_attention false false zero = refl
  opt_tree_attention projects norms (suc n) = ground (
    arith,
    other,
    layers_attention (opt_decoder_layer act own) n 1 opt_layer_attention,
    append-nil (attentions 1 n),
  )

  abbrev indexed : ℕ → ℕ → List (ℕ × Module)
  indexed i n = map (λ k. (k, attention (own k 5))) (range_from i n)

  enumerate_lem : (n i : ℕ) → enumerate_from i (attentions i n) ≡ indexed i n
  unfolding enumerate_from
  enumerate_lem zero i = refl
  enumerate_lem (suc n) i =
      let next : i + 1 ≡ suc i = omega arith in
      rw next (ap (◌∷◌ (i, attention (own i 5))) (enumerate_lem n (suc i)))

  -- What the flags ask of layer `k`: wait for its load, run its attention, signal that it has run.
  abbrev pub layer_actions : Bool → Bool → ℕ → List Action
  layer_actions wait record_after k =
      (if wait then get_model_queue ∷ wait_pre_event k ∷ [] else [])
      ++ run_module (attention (own k 5))
        ∷ (if record_after then record_post_event k ∷ put_kv_queue ∷ [] else [])

  room : (events i n : ℕ) → i + suc n ≤ events → ltb i events ≡ true
  room events i n h = ground arith

  actions_lem :
      (wait record_after : Bool) (events n i : ℕ)
      → i + n ≤ events
      → forward_actions wait record_after events (indexed i n)
        ≡ ok (concat (map (layer_actions wait record_after) (range_from i n)))
  unfolding forward_actions pre_hook_fn post_hook_fn
  actions_lem wait record_after events zero i h = refl
  actions_lem true true events (suc n) i h =
      rw (room events i n h, actions_lem true true events n (i + 1) (omega arith))
  actions_lem true false events (suc n) i h =
      rw (room events i n h, actions_lem true false events n (i + 1) (omega arith))
  actions_lem false true events (suc n) i h =
      rw (room events i n h, actions_lem false true events n (i + 1) (omega arith))
  actions_lem false false events (suc n) i h =
      rw (actions_lem false false events n (i + 1) (omega arith))

  -- In each of the three models, if the class of the activation is not named after attention, the hooks of
  -- `init_cache` stand on the attention of every layer and on nothing else, each with the index of
  -- its layer, for which there are events. So a forward pass does what the flags ask for each layer in
  -- order, and no hook raises.
  pub forward_actions-layers :
      (wait record_after : Bool) (n : ℕ) (f : Family) (projects norms : Bool)
      → (forward_actions wait record_after n (hooked_modules (causal_lm_tree act own f n))
          ≡ ok (concat (map (layer_actions wait record_after) (range_from 0 n))))
        × (forward_actions wait record_after n
              (hooked_modules (opt_causal_lm_tree act own projects norms n))
            ≡ ok (concat (map (layer_actions wait record_after) (range_from 0 n))))
  unfolding hooked_modules
  forward_actions-layers wait record_after n f projects norms =
      let done = enumerate_lem n 0 in
      let actions = actions_lem wait record_after n n 0 (omega arith) in
      (
        rw (tree_attention f n, done) actions,
        rw (opt_tree_attention projects norms n, done) actions,
      )
