-- ===== src/Services.antt =====
-- The gRPC services of runtime/worker/llm_worker/cli.py: the handlers of both processes, each a
-- function of its request. What CUDA counts as used memory, the start of the process of the KV worker
-- and the agent of the transfers are parameters.
use lmserve.Prelude.{
  ℕ, Bool, true, List, [], ◌∷◌, Option, Result, ok, raise, ◌>>=◌, ◌>>◌, attribute_error,
}
use lmserve.Batch.Inputs.{InferInput}
use lmserve.Batch.Make.{FlashInfer, BatchConfig, MadeInputs, InputParams}
use lmserve.Warmup.{warmup}
use lmserve.ModelWorker.Sampler.{SamplingParams, SamplerOps}
use lmserve.ModelWorker.Execute.{InferOutput, WorkerState, execute}
use lmserve.Loading.Config.{ModelConfig, CacheSizes, CacheBlocks, init_cache}
use lmserve.KvWorker.Store.{Dims, Store}
use lmserve.KvWorker.Copy.{copy_kv}
use lmserve.KvWorker.Table.{CopyKvRequest}
use lmserve.KvWorker.Transfer.{Agent, get_descriptors, push_kv}
pub mod Session
pub mod Ready
pub mod Inference
mod InferenceTests
mod Tests

pub record WarmupRequest : Type 0 where
  pub max_batch_size : ℕ
  pub max_seq_len : ℕ
  pub max_num_batched_tokens : ℕ

pub record WarmupResponse : Type 0 where
  pub gpu_total_mem_size : ℕ
  pub gpu_peak_mem_size : ℕ

-- `WorkerService.Warmup`; `run` is the model on the batch, with the most memory that was allocated.
unfoldable pub warmup_service :
    FlashInfer → BatchConfig → (MadeInputs → Result ℕ) → ℕ → WarmupRequest → Result WarmupResponse
unfolding warmup
warmup_service fi w run total request = do
  m ← warmup fi w request.max_batch_size request.max_seq_len request.max_num_batched_tokens
  peak ← run m
  ok (record { gpu_total_mem_size = total; gpu_peak_mem_size = peak })

pub record InferRequest : Type 0 where
  pub inputs : List InferInput
  pub use_cache : Bool
  pub wait_before_execute : Bool
  pub record_after_execute : Bool

-- `WorkerService.Infer`
unfoldable pub infer_service :
    {Row Prob Word : Type 0}
    → FlashInfer
    → SamplerOps Row Prob
    → (ℕ → Word)
    → (Bool → Bool → List ℕ → InputParams → Bool → Result (List Row))
    → List ℕ
    → BatchConfig
    → SamplingParams
    → WorkerState Word
    → InferRequest
    → Result (List (ℕ × InferOutput Prob Word) × WorkerState Word)
unfolding execute
infer_service fi ops decode model eos w params state request =
    execute fi ops decode model eos w params state request.inputs request.use_cache
      request.wait_before_execute request.record_after_execute

pub record InitCacheResponse : Type 0 where
  pub num_gpu_blocks : ℕ
  pub num_host_blocks : ℕ
  pub num_disk_blocks : ℕ

-- What the process of the KV worker is started with.
abbrev pub kv_worker_params : CacheBlocks → Dims
kv_worker_params n = record {
  num_layers = n.num_layers;
  num_gpu_blocks = n.num_gpu_blocks;
  num_host_blocks = n.num_host_blocks;
  num_disk_blocks = n.num_disk_blocks;
}

-- `WorkerService.InitCache`: the sizes of the KV worker, and the reply.
unfoldable pub init_cache_service : ModelConfig → ℕ → CacheSizes → Result (Dims × InitCacheResponse)
unfolding init_cache
init_cache_service c block_size request = do
  n ← init_cache c block_size request
  ok (
    kv_worker_params n,
    record {
      num_gpu_blocks = n.num_gpu_blocks;
      num_host_blocks = n.num_host_blocks;
      num_disk_blocks = n.num_disk_blocks;
    },
  )

-- `KVWorkerService.CopyKV`: the field `success` of the reply.
unfoldable pub copy_kv_service :
    {A : Type 0} → Dims → CopyKvRequest → Store A → Result Bool × Store A
unfolding copy_kv
copy_kv_service d request s =
    let (r, s') = copy_kv d request.block_mappings request.src_device request.dst_device s in
    ((do r; ok true), s')

-- The server: a handler that raises fails its own call only.
unfoldable pub serve_kv :
    {A : Type 0} → Dims → List CopyKvRequest → Store A → List (Result Bool) × Store A
unfolding copy_kv_service
serve_kv d [] s = ([], s)
serve_kv d (r ∷ rs) s =
    let (reply, s') = copy_kv_service d r s in
    let (replies, s'') = serve_kv d rs s' in (reply ∷ replies, s'')

module _ (agent : Agent) (num_host_blocks : ℕ) (fuel : ℕ) where
  -- `KVWorkerService.GetDescriptors`
  unfoldable pub get_descriptors_service : List ℕ → Result agent.Bytes
  unfolding get_descriptors
  get_descriptors_service block_ids = get_descriptors agent num_host_blocks fuel block_ids

  -- `KVWorkerService.PushKV`: the field `success`, if the transfer ends within the fuel.
  unfoldable pub push_kv_service : agent.Bytes → List ℕ → Result (Option Bool)
  unfolding push_kv
  push_kv_service kv_descs block_ids = push_kv agent num_host_blocks fuel kv_descs block_ids

  -- `KVWorkerService.PullKV`: the message has no field `kv_descs`, which the handler reads first.
  unfoldable pub pull_kv_service : agent.Bytes → List ℕ → Result (Option Bool)
  pull_kv_service descs block_ids = raise attribute_error
