-- ===== src/KvWorker/SharedMemory.antt =====
-- The model worker and the KV worker find each number of the shared cache at the same address.
use native.Mathlib.Nat.{mul-pos}
use lmserve.Prelude.{
  ok_inj, subst, ℕ, ◌+◌, ◌*◌, ◌≤◌, ◌<◌, ◌≡◌, refl, sym, ap, ◌∙◌, true, some, arith, Result, ok,
}
use lmserve.Loading.Config.{
  ModelConfig, CacheSizes, CacheBlocks, block_bytes, init_cache, init_cache-blocks,
}
use lmserve.KvWorker.Store.{gpu_slot}
use lmserve.KvWorker.DiskFile.{CacheFormat, CacheFile}
use lmserve.KvWorker.Start.{
  Dtype, element_size, np_dtype, KvSetup, disk_kv_caches, kv_worker_init, row_address,
}
use lmserve.KvWorker.Addresses.{
  element_index, params_of, row_numel, element_split, view_last-ok, bytes_lem, layers_pos, bytes_of,
  row_address_lem,
}

-- What the KV worker takes for the row of a block in a layer, in bytes from the start of the memory.
pub record SameRows {Content : Type 0} (c : ModelConfig) (block_size gpu_cache_size size : ℕ)
    (n : CacheBlocks) (k : KvSetup Content) : Type 0 where
  pub within : n.num_layers * n.num_gpu_blocks * k.block_stride ≤ gpu_cache_size
  pub in_line :
      (layer block : ℕ) → row_address k layer block ≡ gpu_slot k.dims layer block * k.block_stride
  pub numbers :
      (layer block kv slot head x : ℕ)
      → kv < 2
      → slot < block_size
      → head < c.num_kv_heads
      → x < c.head_dim
      → (row_address k layer block ≤ element_index c block_size n layer block kv slot head x * size)
        × (element_index c block_size n layer block kv slot head x * size + size
            ≤ row_address k layer block + k.block_stride)

module _ {Content : Type 0} (zeros : CacheFormat → Content) (c : ModelConfig) (block_size : ℕ)
    (sizes : CacheSizes) {n : CacheBlocks} (made : init_cache c block_size sizes ≡ ok n)
    (positive : 0 < block_bytes c block_size) where
  made_blocks :
      (n.num_layers ≡ c.num_layers)
      × (n.num_gpu_blocks * block_bytes c block_size ≤ sizes.gpu_cache_size)
  made_blocks =
      let (n', made', layers, gpu, _, _) = init_cache-blocks c block_size sizes positive in
      let same : n' ≡ n = ok_inj (sym made' ∙ made) in
      (
        ap (λ (m : CacheBlocks). m.num_layers) (sym same) ∙ layers,
        subst
            (λ (m : CacheBlocks).
              m.num_gpu_blocks * block_bytes c block_size ≤ sizes.gpu_cache_size)
            same gpu.0,
      )

  -- The KV worker starts with the memory that `init_cache` has made for a type of numbers that numpy
  -- knows, if there is at least one block on the GPU, the host's memory is allocated and the agent
  -- registers it. The rows fill no more than the memory that was given, they stand in line as the
  -- copies count them, and the bytes of each number that the model worker indexes by layer, block,
  -- key or value, slot, head and place lie in the row of its layer and block.
  pub kv_worker_init-SameRows :
      (pagelocked_empty : ℕ → ℕ → ℕ → Result (Unit {0})) (dtype : Dtype) (np : ℕ)
      (file : CacheFile Content)
      → 0 < n.num_gpu_blocks
      → np_dtype dtype ≡ some np
      → c.dtype_bits ≡ 8 * element_size dtype
      → pagelocked_empty n.num_host_blocks n.num_layers (row_numel c block_size) ≡ ok tt
      → (k : KvSetup Content) × (kv_worker_init zeros pagelocked_empty true
            (params_of c block_size n dtype)
            file
          ≡ ok k)
        × SameRows c block_size sizes.gpu_cache_size (element_size dtype) n k
  unfolding kv_worker_init
  kv_worker_init-SameRows pagelocked_empty dtype np file some_block known bits allocated =
      let size = element_size dtype in
      let row = row_numel c block_size in
      let some_layer : 0 < n.num_layers =
        omega (arith, made_blocks.0, layers_pos c block_size positive) in
      let viewed = view_last-ok c block_size n (mul-pos some_layer some_block) in
      let d = (params_of c block_size n dtype).dims in
      let k : KvSetup Content = record {
        dims = d;
        block_size = row;
        block_stride = row * size;
        np = np;
        disk = disk_kv_caches zeros pagelocked_empty true d row np file;
      } in
      (
        k,
        rw (viewed, known, allocated) refl,
        record {
          within = rw (bytes_lem c block_size n size bits made_blocks.0) made_blocks.1;
          in_line = row_address_lem k;
          numbers = λ layer block kv slot head x hkv hslot hhead hx.
              let (r, small, e) =
                element_split c block_size n layer block kv slot head x hkv hslot hhead hx in
              bytes_of layer n.num_gpu_blocks block row r size small
                (element_index c block_size n layer block kv slot head x) e;
        },
      )
