-- ===== src/KvWorker/Disk.antt =====
-- Copies between host and disk, one task for each layer in a thread pool.
use lmserve.Prelude.{ℕ, zero, suc, List}
use lmserve.KvWorker.Store.{
  Entry, BlockMapping, Dims, Store, Exec, update_row, done, for_entries, for_mappings, host_check,
  disk_check, both,
}

module _ {A : Type 0} where
  -- `asyncio.gather` over one task for each layer: a task that fails does not stop the others, and
  -- its exception is raised. The tasks are run here one after another.
  unfoldable pub gather : (ℕ → Exec A) → ℕ → ℕ → Exec A
  unfolding both
  gather task zero layer s = done s
  gather task (suc n) layer s =
      let (r, s') = task layer s in let (r', s'') = gather task n (suc layer) s' in (both r r', s'')

module _ {A : Type 0} (d : Dims) where
  unfoldable pub read_disk_entry : ℕ → Entry → Store A → Store A
  unfolding update_row
  read_disk_entry layer e s = record s {
    host = update_row s.host e.dst_block_id layer (s.disk e.src_block_id layer);
  }

  unfoldable pub write_disk_entry : ℕ → Entry → Store A → Store A
  unfolding update_row
  write_disk_entry layer e s = record s {
    disk = update_row s.disk e.dst_block_id layer (s.host e.src_block_id layer);
  }

  -- `_load_layer_kv_blocks_from_disk`; the right side of an assignment is evaluated first.
  unfoldable pub load_layer_from_disk : List BlockMapping → ℕ → Exec A
  unfolding for_mappings for_entries disk_check host_check both read_disk_entry
  load_layer_from_disk ms layer =
      for_mappings
        (for_entries (λ e. both (disk_check d e.src_block_id) (host_check d e.dst_block_id))
          (read_disk_entry layer))
        ms

  -- `_save_layer_kv_blocks_to_disk`
  unfoldable pub save_layer_to_disk : List BlockMapping → ℕ → Exec A
  unfolding for_mappings for_entries disk_check host_check both write_disk_entry
  save_layer_to_disk ms layer =
      for_mappings
        (for_entries (λ e. both (host_check d e.src_block_id) (disk_check d e.dst_block_id))
          (write_disk_entry layer))
        ms

  unfoldable pub load_kv_blocks_from_disk : List BlockMapping → Exec A
  unfolding gather load_layer_from_disk
  load_kv_blocks_from_disk ms = gather (load_layer_from_disk ms) d.num_layers 0

  unfoldable pub save_kv_blocks_to_disk : List BlockMapping → Exec A
  unfolding gather save_layer_to_disk
  save_kv_blocks_to_disk ms = gather (save_layer_to_disk ms) d.num_layers 0
