-- ===== src/KvWorker/Host.antt =====
-- Copies between GPU and host: `_load_layer_kv_blocks_from_host`, `_save_layer_kv_blocks_to_host`,
-- `load_kv_blocks_from_host` and `save_kv_blocks_to_host`. The copies of one call go to one stream,
-- which keeps their order.
use lmserve.Prelude.{ℕ, List, [], ◌∷◌}
use lmserve.KvWorker.Store.{
  Entry, BlockMapping, Dims, record_pre_event, put_model_queue, get_kv_queue, wait_post_event,
  Store, Exec, gpu_slot, update, update_row, done, seq, emit, take_kv_queue, for_entries,
  for_mappings, for_layers, host_check,
}

module _ {A : Type 0} (d : Dims) where
  -- `cuda.memcpy_htod_async` of one row
  unfoldable pub load_entry_from_host : ℕ → Entry → Store A → Store A
  unfolding gpu_slot update
  load_entry_from_host layer e s = record s {
    gpu = update s.gpu (gpu_slot d layer e.dst_block_id) (s.host e.src_block_id layer);
  }

  unfoldable pub load_layer_from_host : ℕ → BlockMapping → Exec A
  unfolding for_entries host_check load_entry_from_host
  load_layer_from_host layer =
      for_entries (λ e. host_check d e.src_block_id) (load_entry_from_host layer)

  -- `cuda.memcpy_dtoh_async` of one row
  unfoldable pub save_entry_to_host : ℕ → Entry → Store A → Store A
  unfolding gpu_slot update_row
  save_entry_to_host layer e s = record s {
    host = update_row s.host e.dst_block_id layer (s.gpu (gpu_slot d layer e.src_block_id));
  }

  unfoldable pub save_layer_to_host : ℕ → BlockMapping → Exec A
  unfolding for_entries host_check save_entry_to_host
  save_layer_to_host layer =
      for_entries (λ e. host_check d e.dst_block_id) (save_entry_to_host layer)

  -- One round of the loop over the layers, under `if len(block_mappings) > 0`.
  unfoldable pub load_round : List BlockMapping → ℕ → Exec A
  unfolding for_mappings load_layer_from_host seq emit
  load_round [] layer s = done s
  load_round (m ∷ ms) layer s =
      seq (for_mappings (load_layer_from_host layer) (m ∷ ms))
        (emit (record_pre_event layer ∷ put_model_queue ∷ [])) s

  unfoldable pub save_round : List BlockMapping → ℕ → Exec A
  unfolding for_mappings save_layer_to_host seq emit take_kv_queue
  save_round [] layer s = done s
  save_round (m ∷ ms) layer s =
      seq take_kv_queue
        (seq (emit (get_kv_queue ∷ wait_post_event layer ∷ []))
          (for_mappings (save_layer_to_host layer) (m ∷ ms)))
        s

  unfoldable pub load_kv_blocks_from_host : List BlockMapping → Exec A
  unfolding for_layers load_round
  load_kv_blocks_from_host ms = for_layers (load_round ms) d.num_layers 0

  unfoldable pub save_kv_blocks_to_host : List BlockMapping → Exec A
  unfolding for_layers save_round
  save_kv_blocks_to_host ms = for_layers (save_round ms) d.num_layers 0
