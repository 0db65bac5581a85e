-- ===== src/Services/Ready.antt =====
-- The whole handler of `InitCache` in cli.py: the sizes, the process of the KV worker, the wait for its
-- socket and the reply.
use lmserve.Prelude.{
  ℕ, zero, suc, ◌+◌, ◌*◌, ◌<◌, ◌≡◌, refl, ap, ◌∙◌, inl, inr, Bool, true, ◌&&◌, Option, none, some,
  arith, ltb, ◌==◌, if◌then◌else◌, Result, ok, raise, ◌>>=◌, Bool-cases, runtime_error, Error,
}
use lmserve.Loading.Config.{
  ModelConfig, CacheSizes, CacheBlocks, block_bytes, init_cache, init_cache-blocks,
}
use lmserve.KvWorker.DiskFile.{CacheFormat, CacheFile}
use lmserve.KvWorker.Start.{
  Dtype, element_size, np_dtype, view_last, KvSetup, kv_worker_init, socket_exists,
  wait_until_ready,
}
use lmserve.KvWorker.Addresses.{row_numel, params_of}
use lmserve.KvWorker.SharedMemory.{kv_worker_init-SameRows}
use lmserve.Services.{InitCacheResponse}
use lmserve.Services.Session.{reply_of}

-- With so many rounds of the wait, each of 20 milliseconds; `none` if it has not ended by then.
unfoldable pub init_cache_handler :
    {Content : Type 0}
    → (CacheFormat → Content)
    → (ℕ → ℕ → ℕ → Result (Unit {0}))
    → Bool
    → ModelConfig
    → Dtype
    → ℕ
    → CacheSizes
    → CacheFile Content
    → ℕ
    → ℕ
    → Result (Option InitCacheResponse)
unfolding init_cache kv_worker_init wait_until_ready
init_cache_handler zeros pagelocked_empty registered c dtype block_size request file delay rounds =
    do
      n ← init_cache c block_size request
      let started =
          kv_worker_init zeros pagelocked_empty registered (params_of c block_size n dtype) file
      ok (elim (wait_until_ready rounds started delay 0) [
        | none ↦ none
        | some _ ↦ some (reply_of n)
      ])

wait_started :
    {K : Type 0} (k : K) (delay rounds round : ℕ)
    → wait_until_ready rounds (ok k) delay round
      ≡ (if ltb delay (round + rounds) && ltb 0 rounds then some tt else none)
unfolding wait_until_ready socket_exists
wait_started k delay zero round = ground arith
wait_started k delay (suc rounds) round = ground (arith, wait_started k delay rounds (suc round))

wait_failed :
    (K : Type 0) (e : Error) (delay rounds round : ℕ)
    → wait_until_ready {K = K} rounds (raise e) delay round ≡ none
unfolding wait_until_ready socket_exists
wait_failed K e delay zero round = refl
wait_failed K e delay (suc rounds) round = wait_failed K e delay rounds (suc round)

-- Without a block on the GPU the memory has no shape.
no_view : (numel a b : ℕ) → b ≡ 0 → view_last numel a b ≡ raise runtime_error
unfolding view_last
no_view numel a b h = let e : a * b ≡ 0 = ap (λ (k : ℕ). a * k) h ∙ omega arith in ground (arith, e)

-- For a block of positive size in a type of numbers that numpy knows, if the host's memory is allocated
-- and registered: `InitCache` answers with the numbers of blocks exactly if there is a block on
-- the GPU and the wait has more rounds than the KV worker takes to open its socket. When the
-- memory given for the GPU is too small for one block, the KV worker raises at its start and no
-- number of rounds is enough.
pub init_cache_handler-answers :
    {Content : Type 0} (zeros : CacheFormat → Content)
    (pagelocked_empty : ℕ → ℕ → ℕ → Result (Unit {0})) (c : ModelConfig) (dtype : Dtype)
    (np block_size : ℕ) (request : CacheSizes) (file : CacheFile Content) (delay rounds : ℕ)
    → 0 < block_bytes c block_size
    → np_dtype dtype ≡ some np
    → c.dtype_bits ≡ 8 * element_size dtype
    → ((blocks layers size : ℕ) → pagelocked_empty blocks layers size ≡ ok tt)
    → (n : CacheBlocks) × (init_cache c block_size request ≡ ok n)
      × (init_cache_handler zeros pagelocked_empty true c dtype block_size request file delay rounds
          ≡ ok (if ltb 0 n.num_gpu_blocks && ltb delay rounds then some (reply_of n) else none))
unfolding init_cache_handler
init_cache_handler-answers {Content} zeros pagelocked_empty c dtype np block_size request file delay
      rounds positive known bits allocated =
    let (n, made, _, _, _, _) = init_cache-blocks c block_size request positive in
    let params = params_of c block_size n dtype in
    let started = kv_worker_init zeros pagelocked_empty true params file in
    (
      n,
      made,
      elim (Bool-cases (n.num_gpu_blocks == 0)) [
        | inl no_block ↦
            let failed : started ≡ raise runtime_error =
              rw (kv_worker_init, no_view params.numel n.num_layers n.num_gpu_blocks (ground arith))
                refl in
            rw (made, failed, wait_failed (KvSetup Content) runtime_error delay rounds 0)
              (ground arith)
        | inr some_block ↦
            let (k, set_up, _) =
              kv_worker_init-SameRows zeros c block_size request made positive pagelocked_empty
                dtype np file (ground arith) known bits
                (allocated n.num_host_blocks n.num_layers (row_numel c block_size)) in
            elim (Bool-cases (ltb delay rounds)) [
              | inl enough ↦
                  let ends : wait_until_ready rounds (ok k) delay 0 ≡ some tt =
                    wait_started k delay rounds 0 ∙ ground (arith, enough) in
                  rw (made, set_up, ends) (ground (arith, some_block, enough))
              | inr few ↦
                  let goes_on : wait_until_ready rounds (ok k) delay 0 ≡ none =
                    wait_started k delay rounds 0 ∙ ground (arith, few) in
                  rw (made, set_up, goes_on) (ground (arith, some_block, few))
            ]
      ],
    )
