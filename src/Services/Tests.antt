-- ===== src/Services/Tests.antt =====
-- A session with a worker whose caches hold 4 blocks on the GPU, 9 on the host and none on disk.
use lmserve.Prelude.{
  ℕ, ◌+◌, ◌*◌, ◌<◌, ◌≡◌, refl, true, ◌&&◌, List, [], ◌∷◌, some, none, ltb, if◌then◌else◌, arith,
  All, ok,
}
use lmserve.Loading.Config.{ModelConfig, CacheSizes, CacheBlocks, block_bytes, init_cache}
use lmserve.KvWorker.DiskFile.{missing}
use lmserve.KvWorker.Start.{float16, np_dtype, element_size, KvSetup, kv_worker_init}
use lmserve.KvWorker.Addresses.{params_of}
use lmserve.KvWorker.SharedMemory.{SameRows, kv_worker_init-SameRows}
use lmserve.Services.Ready.{init_cache_handler, init_cache_handler-answers}
use lmserve.KvWorker.Store.{Dims, Store}
use lmserve.KvWorker.Copy.{gpu, host}
use lmserve.KvWorker.Directions.{view}
use lmserve.KvWorker.Table.{CopyKvRequest, replay}
use lmserve.KvWorker.Refinement.{Refines}
use lmserve.Services.{InitCacheResponse, init_cache_service, serve_kv}
use lmserve.Services.Session.{reply_of, IsWithin, serve_kv-Refines}

abbrev config : ModelConfig
config = record {
  num_layers = 2;
  hidden_size = 64;
  head_dim = 8;
  num_heads = 4;
  num_kv_heads = 2;
  dtype_bits = 16;
}

-- A block of 16 tokens has 2048 bytes.
abbrev sizes : CacheSizes
sizes = record { gpu_cache_size = 10000; host_cache_size = 20000; disk_cache_size = 0 }

abbrev dims : Dims
dims = record { num_layers = 2; num_gpu_blocks = 4; num_host_blocks = 9; num_disk_blocks = 0 }

abbrev reply : InitCacheResponse
reply = record { num_gpu_blocks = 4; num_host_blocks = 9; num_disk_blocks = 0 }

started : init_cache_service config 16 sizes ≡ ok (dims, reply)
unfolding init_cache_service
started = refl

abbrev blocks : CacheBlocks
blocks = record { num_layers = 2; num_gpu_blocks = 4; num_host_blocks = 9; num_disk_blocks = 0 }

blocks_made : init_cache config 16 sizes ≡ ok blocks
unfolding init_cache
blocks_made = refl

bytes_positive : 0 < block_bytes config 16
unfolding block_bytes
bytes_positive = omega arith

float16_known : np_dtype float16 ≡ some 1
unfolding np_dtype
float16_known = refl

float16_bits : config.dtype_bits ≡ 8 * element_size float16
unfolding element_size
float16_bits = refl

abbrev content : Store ℕ
content = record {
  gpu = λ a. 100 + a;
  host = λ b l. 200 + 10 * b + l;
  disk = λ b l. 0;
  signals = [];
  kv_queue = 100;
}

-- Out to the host, and back into another block.
abbrev requests : List CopyKvRequest
requests =
    record {
      block_mappings = (record { src_block_id = 3; dst_block_id = 8 } ∷ []) ∷ [];
      src_device = gpu;
      dst_device = host;
    }
    ∷ record {
      block_mappings = (record { src_block_id = 8; dst_block_id = 0 } ∷ []) ∷ [];
      src_device = host;
      dst_device = gpu;
    }
    ∷ []

within : All (IsWithin reply) requests
within = (
  record { direction = refl; blocks = (((omega arith, omega arith), tt), tt) },
  (record { direction = refl; blocks = (((omega arith, omega arith), tt), tt) }, tt),
)

serve_kv-Refines_example :
    ((serve_kv dims requests content).0 ≡ ok true ∷ ok true ∷ [])
    × Refines dims
        (serve_kv dims requests content).1
        (replay requests (λ dev b l. view dims dev content b l))
serve_kv-Refines_example =
    serve_kv-Refines config 16 sizes started requests content (λ dev b l. view dims dev content b l)
      within (λ dev b l hb hl. refl) (omega arith)

-- The same worker with numbers of two bytes, whose socket is there in the third round.
init_cache_handler-answers_example :
    (n : CacheBlocks) × (init_cache config 16 sizes ≡ ok n)
    × (init_cache_handler {Content = ℕ}
          (λ f. 0)
          (λ a b s. ok tt)
          true
          config
          float16
          16
          sizes
          missing
          2
          5
        ≡ ok (if ltb 0 n.num_gpu_blocks && ltb 2 5 then some (reply_of n) else none))
init_cache_handler-answers_example =
    init_cache_handler-answers (λ f. 0) (λ a b s. ok tt) config float16 1 16 sizes missing 2 5
      bytes_positive float16_known float16_bits (λ a b s. refl)

-- A memory of 100 bytes holds no block, and the wait goes on.
too_small_run :
    init_cache_handler {Content = ℕ}
      (λ f. 0)
      (λ a b s. ok tt)
      true
      config
      float16
      16
      (record sizes { gpu_cache_size = 100 })
      missing
      2
      500
    ≡ ok none
unfolding init_cache_handler
too_small_run = refl

kv_worker_init-SameRows_example :
    (k : KvSetup ℕ) × (kv_worker_init
        (λ f. 0)
        (λ a b s. ok tt)
        true
        (params_of config 16 blocks float16)
        missing
      ≡ ok k)
    × SameRows config 16 10000 (element_size float16) blocks k
kv_worker_init-SameRows_example =
    kv_worker_init-SameRows (λ f. 0) config 16 sizes blocks_made bytes_positive (λ a b s. ok tt)
      float16 1 missing (omega arith) float16_known float16_bits refl
