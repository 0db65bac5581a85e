-- ===== src/KvWorker/Addresses.antt =====
-- The indices of the tensor of `init_cache` and the rows of blocks in it.
use native.Mathlib.Nat.{mul-le-mul_right}
use lmserve.Prelude.{ℕ, suc, ◌+◌, ◌*◌, ◌/◌, ◌≤◌, ◌<◌, ◌≡◌, ap, ◌∙◌, arith, ok, div_mod_unique}
use lmserve.Loading.Config.{ModelConfig, CacheBlocks, block_bytes}
use lmserve.KvWorker.Store.{gpu_slot}
use lmserve.KvWorker.Start.{Dtype, view_last, KvWorkerParams, KvSetup, row_address}

-- The numbers of `torch.empty(num_layers, num_gpu_blocks, 2, block_size, num_kv_heads, head_dim)`.
unfoldable pub kv_caches_numel : ModelConfig → ℕ → CacheBlocks → ℕ
kv_caches_numel c block_size n =
    n.num_layers * n.num_gpu_blocks * 2 * block_size * c.num_kv_heads * c.head_dim

-- `kv_caches[layer, block, kv, slot, head, x]` in this order of dimensions.
unfoldable pub element_index : ModelConfig → ℕ → CacheBlocks → ℕ → ℕ → ℕ → ℕ → ℕ → ℕ → ℕ
element_index c block_size n layer block kv slot head x =
    ((((layer * n.num_gpu_blocks + block) * 2 + kv) * block_size + slot) * c.num_kv_heads + head)
      * c.head_dim
    + x

-- What `init_cache` hands to the process of the KV worker.
abbrev pub params_of : ModelConfig → ℕ → CacheBlocks → Dtype → KvWorkerParams
params_of c block_size n dtype = record {
  numel = kv_caches_numel c block_size n;
  dims = record {
    num_layers = n.num_layers;
    num_gpu_blocks = n.num_gpu_blocks;
    num_host_blocks = n.num_host_blocks;
    num_disk_blocks = n.num_disk_blocks;
  };
  dtype = dtype;
}

-- The numbers of one block in one layer.
abbrev pub row_numel : ModelConfig → ℕ → ℕ
row_numel c block_size = 2 * (block_size * (c.num_kv_heads * c.head_dim))

nest : (a m b n c : ℕ) → (a * m + b) * n + c ≡ a * (m * n) + (b * n + c)
nest a m b n c = grind arith

nest_lt : (m b n c : ℕ) → b < m → c < n → b * n + c < m * n
nest_lt m b n c hb hc = grind arith

module _ (c : ModelConfig) (block_size : ℕ) (n : CacheBlocks) where
  -- A number stands in the row of its block.
  pub element_split :
      (layer block kv slot head x : ℕ)
      → kv < 2
      → slot < block_size
      → head < c.num_kv_heads
      → x < c.head_dim
      → (r : ℕ) × (r < row_numel c block_size)
        × (element_index c block_size n layer block kv slot head x
            ≡ (layer * n.num_gpu_blocks + block) * row_numel c block_size + r)
  unfolding element_index
  element_split layer block kv slot head x hkv hslot hhead hx =
      let a = layer * n.num_gpu_blocks + block in
      let heads = c.num_kv_heads in
      let dim = c.head_dim in
      (
        kv * (block_size * (heads * dim)) + (slot * (heads * dim) + (head * dim + x)),
        nest_lt 2 kv (block_size * (heads * dim)) (slot * (heads * dim) + (head * dim + x)) hkv (
            nest_lt block_size slot (heads * dim) (head * dim + x) hslot
              (nest_lt heads head dim x hhead hx)),
        nest ((a * 2 + kv) * block_size + slot) heads head dim x
            ∙ nest (a * 2 + kv) block_size slot (heads * dim) (head * dim + x)
            ∙ nest a 2 kv (block_size * (heads * dim)) (slot * (heads * dim) + (head * dim + x)),
      )

  numel_lem :
      row_numel c block_size * (n.num_layers * n.num_gpu_blocks) ≡ kv_caches_numel c block_size n
  unfolding kv_caches_numel
  numel_lem = grind arith

  pub view_last-ok :
      0 < n.num_layers * n.num_gpu_blocks
      → view_last (kv_caches_numel c block_size n) n.num_layers n.num_gpu_blocks
        ≡ ok (row_numel c block_size)
  unfolding view_last
  view_last-ok pos =
      let parts =
        div_mod_unique (row_numel c block_size) 0 (n.num_layers * n.num_gpu_blocks)
          (kv_caches_numel c block_size n) pos (omega (arith, numel_lem)) in
      ground (arith, parts.0, parts.1)

  -- All rows of all layers together.
  pub bytes_lem :
      (size : ℕ)
      → c.dtype_bits ≡ 8 * size
      → n.num_layers ≡ c.num_layers
      → n.num_layers * n.num_gpu_blocks * (row_numel c block_size * size)
        ≡ n.num_gpu_blocks * block_bytes c block_size
  unfolding block_bytes
  bytes_lem size bits layers =
      let e : c.dtype_bits / 8 ≡ size = omega (arith, bits) in rw (e, layers) (grind arith)

pub layers_pos :
    (c : ModelConfig) (block_size : ℕ) → 0 < block_bytes c block_size → 0 < c.num_layers
unfolding block_bytes
layers_pos c block_size h = grind arith

-- Places of rows in bytes.
pub bytes_of :
    (layer m block row r size : ℕ)
    → r < row
    → (index : ℕ) → index ≡ (layer * m + block) * row + r
    → (layer * (m * (row * size)) + block * (row * size) ≤ index * size)
      × (index * size + size ≤ layer * (m * (row * size)) + block * (row * size) + row * size)
bytes_of layer m block row r size small index e =
    let start : layer * (m * (row * size)) + block * (row * size)
        ≡ (layer * m + block) * row * size =
      grind arith in
    let room : suc r * size ≤ row * size = mul-le-mul_right size small in
    let there : index * size ≡ ((layer * m + block) * row + r) * size =
      ap (λ (k : ℕ). k * size) e in
    grind arith

pub row_address_lem :
    {Content : Type 0} (k : KvSetup Content) (layer block : ℕ)
    → row_address k layer block ≡ gpu_slot k.dims layer block * k.block_stride
unfolding gpu_slot
row_address_lem k layer block = grind arith
