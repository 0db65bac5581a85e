-- ===== src/KvWorker/Store.antt =====
-- The memory that a `KVWorker` copies between, and what its methods return. The content of one block
-- in one layer is a value of an arbitrary type: every copy moves whole such rows.
use lmserve.Prelude.{
  ℕ, ◌+◌, ◌*◌, ◌&&◌, List, [], ◌∷◌, ◌++◌, ◌==◌, ◌-◌, waits_forever, if◌then◌else◌, zero, suc, ltb,
  index_error, type_error, Result, ok, raise,
}

-- The message `BlockMappingEntry`; a `BlockMapping` is the list of its entries.
pub record Entry : Type 0 where
  pub src_block_id : ℕ
  pub dst_block_id : ℕ

abbrev pub BlockMapping : Type 0
BlockMapping = List Entry

-- The sizes that `__init__` takes from `KVWorkerParams`.
pub record Dims : Type 0 where
  pub num_layers : ℕ
  pub num_gpu_blocks : ℕ
  pub num_host_blocks : ℕ
  pub num_disk_blocks : ℕ

-- What the worker does with the events and queues that it shares with the model worker.
pub data Signal : Type 0 where
  record_pre_event : ℕ → Signal
  put_model_queue : Signal
  get_kv_queue : Signal
  wait_post_event : ℕ → Signal

-- `gpu` is the memory behind the base pointer, in units of one block of one layer. `host` and `disk`
-- are indexed by block, then by layer. `kv_queue` is the number of values that the model worker has
-- put into the queue and that nothing took yet; no forward pass runs during a call of the methods
-- here, and Handshake is about those that do.
pub record Store (A : Type 0) : Type 0 where
  pub gpu : ℕ → A
  pub host : ℕ → ℕ → A
  pub disk : ℕ → ℕ → A
  pub signals : List Signal
  pub kv_queue : ℕ

-- A method that changes the store and may raise; what was written before stays written.
abbrev pub Exec : Type 0 → Type 0
Exec A = Store A → Result (Unit {0}) × Store A

-- `gpu_kv_cache_ptrs[layer_idx] + block_id * block_stride`: the layers stand one behind the other,
-- and the address is not checked.
unfoldable pub gpu_slot : Dims → ℕ → ℕ → ℕ
gpu_slot d layer block = layer * d.num_gpu_blocks + block

module _ {A : Type 0} where
  unfoldable pub update : (ℕ → A) → ℕ → A → ℕ → A
  update f i v j = if i == j then v else f j

  -- `caches[block][layer] = v`
  unfoldable pub update_row : (ℕ → ℕ → A) → ℕ → ℕ → A → ℕ → ℕ → A
  update_row f block layer v b l = if block == b && layer == l then v else f b l

  abbrev pub done : Exec A
  done s = (ok tt, s)

  abbrev pub after : Exec A → Result (Unit {0}) → Exec A
  after g (ok _) s = g s
  after g (raise e) s = (raise e, s)

  -- One statement after another: an exception ends the method.
  unfoldable pub seq : Exec A → Exec A → Exec A
  seq f g s = let (r, s') = f s in after g r s'

  unfoldable pub emit : List Signal → Exec A
  emit signals s = (ok tt, record s { signals = s.signals ++ signals })

  -- `while kv_queue.empty(): await asyncio.sleep(1e-5)` and `kv_queue.get()`.
  unfoldable pub take_kv_queue : Exec A
  take_kv_queue s =
      if s.kv_queue == 0
      then (raise waits_forever, s)
      else (ok tt, record s { kv_queue = s.kv_queue - 1 })

  -- `for entry in block_map.entries`: what indexing raises, and what one copy writes.
  unfoldable pub for_entries :
      (Entry → Result (Unit {0})) → (Entry → Store A → Store A) → BlockMapping → Exec A
  for_entries check write [] s = done s
  for_entries check write (e ∷ es) s =
      after (λ s'. for_entries check write es (write e s')) (check e) s

  -- `for block_map in block_mappings`
  unfoldable pub for_mappings : (BlockMapping → Exec A) → List BlockMapping → Exec A
  unfolding seq
  for_mappings body [] s = done s
  for_mappings body (m ∷ ms) s = seq (body m) (for_mappings body ms) s

  -- `for layer_idx in range(layer, layer + n)`
  unfoldable pub for_layers : (ℕ → Exec A) → ℕ → ℕ → Exec A
  unfolding seq
  for_layers round zero layer s = done s
  for_layers round (suc n) layer s = seq (round layer) (for_layers round n (suc layer)) s

-- `self.host_kv_caches[block]`
unfoldable pub host_check : Dims → ℕ → Result (Unit {0})
host_check d block = if ltb block d.num_host_blocks then ok tt else raise index_error

-- `self.disk_kv_caches[block]`: without disk blocks the attribute is `None`.
unfoldable pub disk_check : Dims → ℕ → Result (Unit {0})
disk_check d block =
    if d.num_disk_blocks == 0
    then raise type_error
    else if ltb block d.num_disk_blocks
    then ok tt
    else raise index_error

-- Of two checks, the first that raises.
unfoldable pub both : Result (Unit {0}) → Result (Unit {0}) → Result (Unit {0})
both (ok _) r = r
both (raise e) r = raise e
