-- ===== src/KvWorker/Handshake/Effects.antt =====
-- What the steps of a request do to the memory: the copies of one layer to the GPU, the model's work
-- on one layer of `kv_caches`, and the copies of one layer to the host.
use lmserve.Prelude.{
  ◌+◌, ℕ, zero, suc, ◌-◌, Bool, true, false, ◌&&◌, List, [], ◌∷◌, Option, none, some, leb, ltb,
  if◌then◌else◌,
}
use lmserve.KvWorker.Store.{BlockMapping, Dims, Store, gpu_slot, for_mappings}
use lmserve.KvWorker.Host.{load_layer_from_host, save_layer_to_host}
use lmserve.KvWorker.Copy.{host, gpu, copy_kv}
use lmserve.KvWorker.Handshake.{
  Request, Handshake, Step, copy_in, record_pre, put_model, get_model, wait_pre, compute,
  record_post, put_kv, get_kv, wait_post, copy_out, Reach, here, next,
}

-- `len(block_mappings) > 0`
abbrev pub nonempty : List BlockMapping → Bool
nonempty [] = false
nonempty (m ∷ ms) = true

-- A request whose flags say which mappings there are.
abbrev pub asked : Dims → List BlockMapping → List BlockMapping → Request
asked d loads saves = record {
  num_layers = d.num_layers;
  wait_before_execute = nonempty loads;
  record_after_execute = nonempty saves;
  loads = nonempty loads;
  saves = nonempty saves;
}

-- The hidden states of the forward pass, and the memory of the KV worker.
pub record Running (X A : Type 0) : Type 0 where
  pub hidden : X
  pub store : Store A

module _ {A : Type 0} (d : Dims) where
  -- `kv_caches[layer]`: the blocks of one layer.
  unfoldable pub layer_cache : ℕ → (ℕ → A) → ℕ → Option A
  unfolding gpu_slot
  layer_cache layer memory b =
      if ltb b d.num_gpu_blocks then some (memory (gpu_slot d layer b)) else none

  -- The model writes in `kv_caches[layer]` only.
  unfoldable pub write_layer : ℕ → (ℕ → A) → (ℕ → A) → ℕ → A
  unfolding gpu_slot
  write_layer layer new memory a =
      if leb (gpu_slot d layer 0) a && ltb a (gpu_slot d layer d.num_gpu_blocks)
      then new (a - gpu_slot d layer 0)
      else memory a

-- `run_layer`: a layer of the model between its hooks, which reads the hidden states and its cache
-- and returns the next hidden states and what the cache holds then.
module _ {X A : Type 0} (d : Dims) (run_layer : ℕ → X → (ℕ → Option A) → X × (ℕ → A)) where
  unfoldable pub compute_layer : ℕ → Running X A → Running X A
  unfolding layer_cache write_layer
  compute_layer layer m =
      let (hidden', new) = run_layer layer m.hidden (layer_cache d layer m.store.gpu) in
      record {
        hidden = hidden';
        store = record m.store { gpu = write_layer d layer new m.store.gpu };
      }

  -- `for i, layer in enumerate(self.layers)`
  unfoldable pub compute_layers : ℕ → ℕ → Running X A → Running X A
  unfolding compute_layer
  compute_layers zero layer m = m
  compute_layers (suc n) layer m = compute_layers n (suc layer) (compute_layer layer m)

  module _ (loads saves : List BlockMapping) where
    -- One after the other: all copies to the GPU, the whole model, whose hooks put a value into the
    -- queue for each layer, all copies to the host.
    unfoldable pub one_by_one : Running X A → Running X A
    unfolding copy_kv compute_layers
    one_by_one m =
        let loaded = record m { store = (copy_kv d loads host gpu m.store).1 } in
        let ran = compute_layers d.num_layers 0 loaded in
        let put = record ran.store { kv_queue = ran.store.kv_queue + d.num_layers } in
        record ran { store = (copy_kv d saves gpu host put).1 }

    -- The other steps only count, and change no block.
    unfoldable pub effect :
        {s t : Handshake} → Step (asked d loads saves) s t → Running X A → Running X A
    unfolding compute_layer for_mappings load_layer_from_host save_layer_to_host
    effect (copy_in s a b c) m = record m {
      store = (for_mappings (load_layer_from_host d s.copied_in) loads m.store).1;
    }
    effect (record_pre s a) m = m
    effect (put_model s a) m = m
    effect (get_model s a b c e f) m = m
    effect (wait_pre s a) m = m
    effect (compute s a b c) m = compute_layer s.computed m
    effect (record_post s a b) m = m
    effect (put_kv s a) m = m
    effect (get_kv s a b c e) m = m
    effect (wait_post s a) m = m
    effect (copy_out s a) m = record m {
      store = (for_mappings (save_layer_to_host d s.copied_out) saves m.store).1;
    }

    -- The memory after the steps of an interleaving, in their order.
    unfoldable pub overlapped :
        {k : ℕ} {s : Handshake} → Reach (asked d loads saves) k s → Running X A → Running X A
    unfolding effect
    overlapped here m = m
    overlapped (next h step) m = effect step (overlapped h m)
