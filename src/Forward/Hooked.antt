-- ===== src/Forward/Hooked.antt =====
-- The forward pass in the model worker: models/llama.py with the hooks that `init_cache` of
-- model_worker.py registers on the attention of each layer.
use lmserve.Prelude.{
  ℕ, suc, ◌+◌, ◌-◌, ◌≤◌, ◌≡◌, refl, ap, ◌∙◌, inl, inr, Bool, true, false, ◌&&◌, ◌==◌, List, [], ◌∷◌,
  Option, none, some, drop, length, if◌then◌else◌, Bool-cases, Result-cases, Result, ok, raise,
  ◌>>=◌, index_error, waits_forever, arith,
}
use lmserve.Batch.Make.{InputParams}
use lmserve.Forward.Attend.{Kernels}
use lmserve.Forward.Rows.{select_rows}
use lmserve.Forward.Decoder.{
  Layer, Model, layer_forward, run_layers, run_cached_layers, causal_lm_forward, model_forward,
}

-- Whether the hooks are there, and the two fields of the model worker that they read.
pub record Hooks : Type 0 where
  pub registered : Bool
  pub enable_wait_before_execute : Bool
  pub enable_record_after_execute : Bool

abbrev hooks_of : Bool → Bool → Bool → Hooks
hooks_of registered wait record_after = record {
  registered = registered;
  enable_wait_before_execute = wait;
  enable_record_after_execute = record_after;
}

-- The values that are in the model's queue or that the KV worker still puts there during the pass, and
-- those that wait for the KV worker.
pub record Queues : Type 0 where
  pub model_queue : ℕ
  pub kv_queue : ℕ

-- `pre_hook_fn`: `model_queue.get()` waits for a value.
unfoldable pub pre_hook_fn : Hooks → Queues → Result Queues
pre_hook_fn h q =
    if h.registered && h.enable_wait_before_execute
    then if q.model_queue == 0
      then raise waits_forever
      else ok (record q { model_queue = q.model_queue - 1 })
    else ok q

-- `post_hook_fn`
unfoldable pub post_hook_fn : Hooks → Queues → Queues
post_hook_fn h q =
    if h.registered && h.enable_record_after_execute
    then record q { kv_queue = q.kv_queue + 1 }
    else q

module _ {Row Cache : Type 0} (add mul : Row → Row → Row) (k : Kernels Row Cache) where
  -- The loop over the layers with the hooks. No statement of a layer before its attention raises, and a
  -- pass that raises after it leaves no queues here, so the hooks stand around the layer.
  unfoldable pub run_hooked_layers :
      Hooks
      → List (Layer Row)
      → List Row
      → InputParams
      → Option (List Cache)
      → Queues
      → Result (List Row × Queues)
  unfolding layer_forward pre_hook_fn post_hook_fn
  run_hooked_layers h [] hidden params caches q = ok (hidden, q)
  run_hooked_layers h (l ∷ ls) hidden params none q = do
    q' ← pre_hook_fn h q
    (hidden', _) ← layer_forward add mul k l hidden params none
    run_hooked_layers h ls hidden' params none (post_hook_fn h q')
  run_hooked_layers h (l ∷ ls) hidden params (some []) q = raise index_error
  run_hooked_layers h (l ∷ ls) hidden params (some (c ∷ cs)) q = do
    q' ← pre_hook_fn h q
    (hidden', _) ← layer_forward add mul k l hidden params (some c)
    run_hooked_layers h ls hidden' params (some cs) (post_hook_fn h q')

  -- `self.model(...)` in the model worker, whose caches are written in place.
  unfoldable pub llama_logits :
      Model Row
      → List Cache
      → Bool
      → Queues
      → Bool
      → Bool
      → List ℕ
      → InputParams
      → Bool
      → Result (List Row)
  unfolding run_hooked_layers select_rows
  llama_logits model caches registered queues wait record_after input_ids params use_cache = do
    let hooks = hooks_of registered wait record_after
    let kv_caches = if use_cache then some caches else none
    (hidden, _) ←
        run_hooked_layers hooks model.layers (model.embed_tokens input_ids) params kv_caches queues
    rows ← select_rows (model.norm hidden) (drop 1 params.cu_seqlens_q)
    ok (model.lm_head rows)

-- No hook waits longer than for a value that is there or comes.
module _ {Row Cache : Type 0} (add mul : Row → Row → Row) (k : Kernels Row Cache) (h : Hooks)
    (params : InputParams) where
  abbrev Enough : List (Layer Row) → Queues → Type 0
  Enough ls q =
      h.registered ≡ true → h.enable_wait_before_execute ≡ true → length ls ≤ q.model_queue

  post_hook_fn-model_queue : (q : Queues) → (post_hook_fn h q).model_queue ≡ q.model_queue
  unfolding post_hook_fn
  post_hook_fn-model_queue q = ground arith

  pre_hook_passes :
      (l : Layer Row) (ls : List (Layer Row)) (q : Queues)
      → Enough (l ∷ ls) q
      → (q' : Queues) × (pre_hook_fn h q ≡ ok q') × Enough ls (post_hook_fn h q')
  unfolding pre_hook_fn
  pre_hook_passes l ls q enough = elim (Bool-cases (h.registered && h.enable_wait_before_execute)) [
    | inl waits ↦
        let there : suc (length ls) ≤ q.model_queue =
          enough (ground (arith, waits)) (ground (arith, waits)) in
        let filled : (q.model_queue == 0) ≡ false = ground (arith, there) in
        let q' : Queues = record q { model_queue = q.model_queue - 1 } in
        (q', rw (waits, filled) refl, λ r w. omega (arith, there, post_hook_fn-model_queue q'))
    | inr goes_on ↦ (q, rw goes_on refl, λ r w. absurd (ground (arith, goes_on, r, w)))
  ]

  run_hooked_layers-cached :
      (ls : List (Layer Row)) (hidden out : List Row) (cs : List Cache) (cs' : List (Option Cache))
      (q : Queues)
      → Enough ls q
      → run_cached_layers add mul k ls hidden params cs ≡ ok (out, cs')
      → (q' : Queues) × (run_hooked_layers add mul k h ls hidden params (some cs) q ≡ ok (out, q'))
  unfolding run_hooked_layers run_cached_layers
  run_hooked_layers-cached [] hidden out cs cs' q enough ran = (q, cc ran)
  run_hooked_layers-cached (l ∷ ls) hidden out [] cs' q enough ran = cc
  run_hooked_layers-cached (l ∷ ls) hidden out (c ∷ cs) cs' q enough ran =
      let (q1, passed, more) = pre_hook_passes l ls q enough in
      elim (Result-cases (layer_forward add mul k l hidden params (some c))) [
        | inl (e, failed) ↦ ground (arith, failed, ran)
        | inr ((hidden', c'), one) ↦
            elim (Result-cases (run_cached_layers add mul k ls hidden' params cs)) [
              | inl (e, failed) ↦ ground (arith, one, failed, ran)
              | inr ((out', rest'), rest) ↦
                  let same : out' ≡ out = ground (arith, one, rest, ran) in
                  let (q2, hooked) =
                    run_hooked_layers-cached ls hidden' out cs rest' (post_hook_fn h q1) more
                      (rest ∙ ap (λ (t : List Row). ok (t, rest')) same) in
                  (q2, rw (passed, one) hooked)
            ]
      ]

  run_hooked_layers-plain :
      (ls : List (Layer Row)) (hidden out : List Row) (q : Queues)
      → Enough ls q
      → run_layers add mul k ls hidden params ≡ ok out
      → (q' : Queues) × (run_hooked_layers add mul k h ls hidden params none q ≡ ok (out, q'))
  unfolding run_hooked_layers run_layers
  run_hooked_layers-plain [] hidden out q enough ran = (q, cc ran)
  run_hooked_layers-plain (l ∷ ls) hidden out q enough ran =
      let (q1, passed, more) = pre_hook_passes l ls q enough in
      elim (Result-cases (layer_forward add mul k l hidden params none)) [
        | inl (e, failed) ↦ ground (arith, failed, ran)
        | inr ((hidden', c'), one) ↦
            let later : run_layers add mul k ls hidden' params ≡ ok out =
              ground (arith, one, ran) in
            let (q2, hooked) =
              run_hooked_layers-plain ls hidden' out (post_hook_fn h q1) more later in
            (q2, rw (passed, one) hooked)
      ]

module _ {Row Cache : Type 0} (add mul : Row → Row → Row) (k : Kernels Row Cache)
    (model : Model Row) (caches : List Cache) (registered : Bool) (queues : Queues)
    (wait record_after : Bool)
    (enough : registered ≡ true → wait ≡ true → length model.layers ≤ queues.model_queue)
    (ids : List ℕ) (params : InputParams) (logits : List Row) (caches' : List (Option Cache)) where
  -- With a value for each layer the pass returns what it returns without hooks.
  pub llama_logits-cached :
      causal_lm_forward add mul k model ids params (some caches) ≡ ok (logits, caches')
      → llama_logits add mul k model caches registered queues wait record_after ids params true
        ≡ ok logits
  unfolding llama_logits causal_lm_forward model_forward
  llama_logits-cached ran =
      elim (Result-cases
        (run_cached_layers add mul k model.layers (model.embed_tokens ids) params caches)) [
          | inl (e, failed) ↦ ground (arith, failed, ran)
          | inr ((out, cs'), done) ↦
              let (q', hooked) =
                run_hooked_layers-cached add mul k (hooks_of registered wait record_after) params
                  model.layers (model.embed_tokens ids) out caches cs' queues enough done in
              elim (Result-cases (select_rows (model.norm out) (drop 1 params.cu_seqlens_q))) [
                | inl (e, failed) ↦ ground (arith, done, failed, ran)
                | inr (rows, chosen) ↦ rw (hooked, chosen) (ground (arith, done, chosen, ran))
              ]
        ]

  pub llama_logits-plain :
      causal_lm_forward add mul k model ids params none ≡ ok (logits, caches')
      → llama_logits add mul k model caches registered queues wait record_after ids params false
        ≡ ok logits
  unfolding llama_logits causal_lm_forward model_forward
  llama_logits-plain ran =
      elim (Result-cases (run_layers add mul k model.layers (model.embed_tokens ids) params)) [
        | inl (e, failed) ↦ ground (arith, failed, ran)
        | inr (out, done) ↦
            let (q', hooked) =
              run_hooked_layers-plain add mul k (hooks_of registered wait record_after) params
                model.layers (model.embed_tokens ids) out queues enough done in
            elim (Result-cases (select_rows (model.norm out) (drop 1 params.cu_seqlens_q))) [
              | inl (e, failed) ↦ ground (arith, done, failed, ran)
              | inr (rows, chosen) ↦ rw (hooked, chosen) (ground (arith, done, chosen, ran))
            ]
      ]
