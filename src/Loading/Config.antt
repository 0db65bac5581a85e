-- ===== src/Loading/Config.antt =====
-- `ModelConfig.__init__` and the numbers of blocks of `ModelWorker.init_cache`.
use lmserve.Prelude.{
  ℕ, ◌+◌, ◌*◌, ◌/◌, ◌%◌, ◌≤◌, ◌<◌, ◌≡◌, refl, ap, inl, inr, Option, none, some, ◌==◌, if◌then◌else◌,
  Result, ok, raise, ◌>>=◌, assertion_error, zero_division_error, arith, Bool-cases, Result-cases,
}
use native.Mathlib.Nat.{div-add-mod', mod-lt}

-- `a // b`
unfoldable pub floor_div : ℕ → ℕ → Result ℕ
floor_div a b = if b == 0 then raise zero_division_error else ok (a / b)

-- What `ModelConfig` reads from the configuration of transformers; `num_key_value_heads` may be missing.
pub record TfConfig : Type 0 where
  pub num_hidden_layers : ℕ
  pub hidden_size : ℕ
  pub num_attention_heads : ℕ
  pub num_key_value_heads : Option ℕ
  pub dtype_bits : ℕ

pub record ModelConfig : Type 0 where
  pub num_layers : ℕ
  pub hidden_size : ℕ
  pub head_dim : ℕ
  pub num_heads : ℕ
  pub num_kv_heads : ℕ
  pub dtype_bits : ℕ

-- `getattr(tf_config, "num_key_value_heads", orig_num_heads)`
abbrev pub orig_num_kv_heads : TfConfig → ℕ
orig_num_kv_heads tf = elim tf.num_key_value_heads [ none ↦ tf.num_attention_heads | some n ↦ n ]

-- `assert heads % tp_size == 0` and `heads // tp_size`
unfoldable pub share_heads : ℕ → ℕ → Result ℕ
unfolding floor_div
share_heads heads tp_size =
    if tp_size == 0
    then raise zero_division_error
    else if heads % tp_size == 0
    then floor_div heads tp_size
    else raise assertion_error

unfoldable pub model_config : TfConfig → ℕ → Result ModelConfig
unfolding floor_div share_heads
model_config tf tp_size = do
  head_dim ← floor_div tf.hidden_size tf.num_attention_heads
  num_heads ← share_heads tf.num_attention_heads tp_size
  num_kv_heads ← share_heads (orig_num_kv_heads tf) tp_size
  ok (record {
    num_layers = tf.num_hidden_layers;
    hidden_size = tf.hidden_size;
    head_dim = head_dim;
    num_heads = num_heads;
    num_kv_heads = num_kv_heads;
    dtype_bits = tf.dtype_bits;
  })

-- The sizes in bytes that `init_cache` gets, and the blocks that it makes of them.
pub record CacheSizes : Type 0 where
  pub gpu_cache_size : ℕ
  pub host_cache_size : ℕ
  pub disk_cache_size : ℕ

pub record CacheBlocks : Type 0 where
  pub num_layers : ℕ
  pub num_gpu_blocks : ℕ
  pub num_host_blocks : ℕ
  pub num_disk_blocks : ℕ

-- The bytes of one block, keys and values of all layers.
unfoldable pub block_bytes : ModelConfig → ℕ → ℕ
block_bytes c block_size =
    let kv_block_size = block_size * c.num_kv_heads * c.head_dim * (c.dtype_bits / 8) in
    c.num_layers * 2 * kv_block_size

unfoldable pub init_cache : ModelConfig → ℕ → CacheSizes → Result CacheBlocks
unfolding floor_div block_bytes
init_cache c block_size sizes = do
  num_gpu_blocks ← floor_div sizes.gpu_cache_size (block_bytes c block_size)
  num_host_blocks ← floor_div sizes.host_cache_size (block_bytes c block_size)
  num_disk_blocks ← floor_div sizes.disk_cache_size (block_bytes c block_size)
  ok (record {
    num_layers = c.num_layers;
    num_gpu_blocks = num_gpu_blocks;
    num_host_blocks = num_host_blocks;
    num_disk_blocks = num_disk_blocks;
  })

-- A division that rounds down, and one that is even.
abbrev pub Fits : ℕ → ℕ → ℕ → Type 0
Fits blocks bytes size = (blocks * bytes ≤ size) × (size < (blocks + 1) * bytes)

floor_div-Fits : (a b : ℕ) → 0 < b → (floor_div a b ≡ ok (a / b)) × Fits (a / b) b a
unfolding floor_div
floor_div-Fits a b h = (ground arith, omega (arith, div-add-mod' a b, mod-lt a h))

pub init_cache-blocks :
    (c : ModelConfig) (block_size : ℕ) (sizes : CacheSizes)
    → 0 < block_bytes c block_size
    → (n : CacheBlocks) × (init_cache c block_size sizes ≡ ok n)
      × (n.num_layers ≡ c.num_layers)
      × Fits n.num_gpu_blocks (block_bytes c block_size) sizes.gpu_cache_size
      × Fits n.num_host_blocks (block_bytes c block_size) sizes.host_cache_size
      × Fits n.num_disk_blocks (block_bytes c block_size) sizes.disk_cache_size
unfolding init_cache
init_cache-blocks c block_size sizes h =
    let b = block_bytes c block_size in
    let g = floor_div-Fits sizes.gpu_cache_size b h in
    let m = floor_div-Fits sizes.host_cache_size b h in
    let d = floor_div-Fits sizes.disk_cache_size b h in
    let n : CacheBlocks = record {
      num_layers = c.num_layers;
      num_gpu_blocks = sizes.gpu_cache_size / b;
      num_host_blocks = sizes.host_cache_size / b;
      num_disk_blocks = sizes.disk_cache_size / b;
    } in
    (n, rw (init_cache, g.0, m.0, d.0) refl, refl, g.1, m.1, d.1)

-- The bytes of the keys of one block in all layers; the values have as many.
abbrev pub keys_bytes : ModelConfig → ℕ → ℕ
keys_bytes c block_size =
    c.num_layers * (block_size * (c.num_kv_heads * (c.head_dim * (c.dtype_bits / 8))))

keys_and_values :
    (c : ModelConfig) (block_size : ℕ)
    → block_bytes c block_size ≡ keys_bytes c block_size + keys_bytes c block_size
unfolding block_bytes
keys_and_values c block_size = grind arith

-- With a block of positive size `init_cache` returns the largest numbers of blocks whose keys and values,
-- of all layers, fit in the memory given for each of the three caches.
pub init_cache-Fits :
    (c : ModelConfig) (block_size : ℕ) (sizes : CacheSizes)
    → 0 < keys_bytes c block_size
    → (n : CacheBlocks) × (init_cache c block_size sizes ≡ ok n)
      × (n.num_layers ≡ c.num_layers)
      × Fits n.num_gpu_blocks
          (keys_bytes c block_size + keys_bytes c block_size)
          sizes.gpu_cache_size
      × Fits n.num_host_blocks
          (keys_bytes c block_size + keys_bytes c block_size)
          sizes.host_cache_size
      × Fits n.num_disk_blocks
          (keys_bytes c block_size + keys_bytes c block_size)
          sizes.disk_cache_size
init_cache-Fits c block_size sizes h =
    let bytes = keys_and_values c block_size in
    rw (← bytes) (init_cache-blocks c block_size sizes (omega (arith, bytes)))

-- The heads of all ranks together are the heads of the configuration.
share_heads-sum : (heads tp n : ℕ) → share_heads heads tp ≡ ok n → (0 < tp) × (n * tp ≡ heads)
unfolding share_heads floor_div
share_heads-sum heads tp n h = elim (Bool-cases (tp == 0)) [
  | inl x ↦ ground (arith, x)
  | inr x ↦ elim (Bool-cases (heads % tp == 0)) [
    | inl y ↦
        let q : heads / tp ≡ n = ground (arith, x, y) in
        let p : heads / tp * tp ≡ n * tp = ap (λ (t : ℕ). t * tp) q in
        let z : heads % tp ≡ 0 = ground arith in
        (ground arith, omega (arith, p, z, div-add-mod' heads tp))
    | inr y ↦ ground (arith, x, y)
  ]
]

floor_div-le : (a b q : ℕ) → floor_div a b ≡ ok q → (0 < b) × (q * b ≤ a)
unfolding floor_div
floor_div-le a b q h = elim (Bool-cases (b == 0)) [
  | inl x ↦ ground (arith, x)
  | inr x ↦
      let e : a / b ≡ q = ground (arith, x) in
      let p : a / b * b ≡ q * b = ap (λ (t : ℕ). t * b) e in
      (ground arith, omega (arith, p, div-add-mod' a b))
]

-- A configuration that is accepted has an attention head and a rank, and the query heads and the key
-- and value heads of all ranks together are those of the model.
pub model_config-heads :
    (tf : TfConfig) (tp_size : ℕ) (c : ModelConfig)
    → model_config tf tp_size ≡ ok c
    → (0 < tp_size)
      × (0 < tf.num_attention_heads)
      × (c.num_heads * tp_size ≡ tf.num_attention_heads)
      × (c.num_kv_heads * tp_size ≡ orig_num_kv_heads tf)
      × (c.head_dim * tf.num_attention_heads ≤ tf.hidden_size)
unfolding model_config
model_config-heads tf tp_size c h =
    let hd = floor_div tf.hidden_size tf.num_attention_heads in
    elim (Result-cases hd) [
      | inl (e, x) ↦ ground (arith, x)
      | inr (dim, x) ↦ elim (Result-cases (share_heads tf.num_attention_heads tp_size)) [
        | inl (e, y) ↦ ground (arith, x, y)
        | inr (n, y) ↦ elim (Result-cases (share_heads (orig_num_kv_heads tf) tp_size)) [
          | inl (e, z) ↦ ground (arith, x, y, z)
          | inr (m, z) ↦
              let heads : n ≡ c.num_heads = ground (arith, x, y, z) in
              let kv_heads : m ≡ c.num_kv_heads = ground (arith, x, y, z) in
              let width : dim ≡ c.head_dim = ground (arith, x, y, z) in
              let q = share_heads-sum tf.num_attention_heads tp_size n y in
              let k = share_heads-sum (orig_num_kv_heads tf) tp_size m z in
              let w = floor_div-le tf.hidden_size tf.num_attention_heads dim x in
              rw (← heads, ← kv_heads, ← width) (q.0, w.0, q.1, k.1, w.1)
        ]
      ]
    ]
