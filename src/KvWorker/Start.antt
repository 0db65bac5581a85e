-- ===== src/KvWorker/Start.antt =====
-- The start of a KV worker: `KVWorker.__init__`, which maps the memory of the model worker's cache and makes
-- the other two levels, and the wait of `WorkerService.InitCache` for the process.
use lmserve.Prelude.{
  ℕ, zero, suc, ◌+◌, ◌*◌, ◌/◌, ◌%◌, Bool, Option, none, some, ltb, ◌==◌, if◌then◌else◌, Result, ok,
  raise, ◌>>=◌, ◌>>◌, guard, runtime_error, type_error,
}
use lmserve.KvWorker.Store.{Dims}
use lmserve.KvWorker.DiskFile.{CacheFormat, CacheFile, memmap_disk_kv_cache}

-- The types of torch that occur as `torch_dtype`, with the bytes of one number.
pub data Dtype : Type 0 where
  float64 float32 float16 bfloat16 int32 : Dtype

unfoldable pub element_size : Dtype → ℕ
element_size float64 = 8
element_size float32 = 4
element_size float16 = 2
element_size bfloat16 = 2
element_size int32 = 4

-- The types of numpy in `dtype_map`, by numbers; float64 is not in it.
unfoldable pub np_dtype : Dtype → Option ℕ
np_dtype float64 = none
np_dtype float32 = some 0
np_dtype float16 = some 1
np_dtype bfloat16 = some 2
np_dtype int32 = some 3

-- `tensor.view(a, b, -1)` of a tensor with so many numbers: the last dimension.
unfoldable pub view_last : ℕ → ℕ → ℕ → Result ℕ
view_last numel a b =
    if a * b == 0
    then raise runtime_error
    else if numel % (a * b) == 0
    then ok (numel / (a * b))
    else raise runtime_error

-- The fields of `KVWorkerParams` that decide the memory; `numel` is what the storage holds.
pub record KvWorkerParams : Type 0 where
  pub numel : ℕ
  pub dims : Dims
  pub dtype : Dtype

-- What `__init__` leaves: the numbers of a block in one layer, their bytes, and the file on disk.
pub record KvSetup (Content : Type 0) : Type 0 where
  pub dims : Dims
  pub block_size : ℕ
  pub block_stride : ℕ
  pub np : ℕ
  pub disk : Option (CacheFormat × Content)

-- `zeros` is the content of a new file, `pagelocked_empty` the allocation of the host cache, and `registered`
-- what the agent answers to `register_memory`.
module _ {Content : Type 0} (zeros : CacheFormat → Content)
    (pagelocked_empty : ℕ → ℕ → ℕ → Result (Unit {0})) (registered : Bool) where
  -- `if num_disk_blocks > 0: ... else: None`
  unfoldable pub disk_kv_caches : Dims → ℕ → ℕ → CacheFile Content → Option (CacheFormat × Content)
  unfolding memmap_disk_kv_cache
  disk_kv_caches d block_size np file =
      if ltb 0 d.num_disk_blocks
      then some (
          memmap_disk_kv_cache zeros file (record {
            num_blocks = d.num_disk_blocks;
            num_layers = d.num_layers;
            block_size = block_size;
            dtype = np;
          }))
      else none

  unfoldable pub kv_worker_init : KvWorkerParams → CacheFile Content → Result (KvSetup Content)
  unfolding view_last np_dtype element_size disk_kv_caches
  kv_worker_init params file = do
    let d = params.dims
    block_size ← view_last params.numel d.num_layers d.num_gpu_blocks
    np ← elim (np_dtype params.dtype) [ none ↦ raise type_error | some np ↦ ok np ]
    pagelocked_empty d.num_host_blocks d.num_layers block_size
    guard registered runtime_error
    ok (record {
      dims = d;
      block_size = block_size;
      block_stride = block_size * element_size params.dtype;
      np = np;
      disk = disk_kv_caches d block_size np file;
    })

-- `gpu_kv_cache_ptrs[layer]`, from the start of the storage: `gpu_kv_caches[layer].data_ptr()`.
abbrev pub gpu_kv_cache_ptr : {Content : Type 0} → KvSetup Content → ℕ → ℕ
gpu_kv_cache_ptr k layer = layer * (k.dims.num_gpu_blocks * k.block_stride)

-- `gpu_kv_cache_base_ptr + block_id * block_stride`
abbrev pub row_address : {Content : Type 0} → KvSetup Content → ℕ → ℕ → ℕ
row_address k layer block = gpu_kv_cache_ptr k layer + block * k.block_stride

-- `while not os.path.exists(kv_uds_path): await asyncio.sleep(0.02)`, for so many rounds: the socket is
-- there from some round on if the process has started, and never if its start has raised.
unfoldable pub socket_exists : {K : Type 0} → Result K → ℕ → ℕ → Bool
socket_exists (ok k) delay round = if ltb round delay then Bool.false else Bool.true
socket_exists (raise e) delay round = Bool.false

unfoldable pub wait_until_ready : {K : Type 0} → ℕ → Result K → ℕ → ℕ → Option (Unit {0})
unfolding socket_exists
wait_until_ready zero started delay round = none
wait_until_ready (suc fuel) started delay round =
    let later = wait_until_ready fuel started delay (suc round) in
    if socket_exists started delay round then some tt else later
