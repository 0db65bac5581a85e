-- ===== src/Services/Session.antt =====
-- The engine's use of a worker: it is told how many blocks there are, and then asks for copies.
use lmserve.Prelude.{
  ℕ, ◌+◌, ◌≤◌, arith, ◌<◌, ◌≡◌, refl, ◌∙◌, subst, true, List, [], ◌∷◌, map, concat, ap, sym,
  fun_ext, inl, inr, Error, raise, ok_inj, Result-cases, ok, All,
}
use lmserve.Loading.Config.{ModelConfig, CacheSizes, CacheBlocks, init_cache}
use lmserve.KvWorker.Store.{Dims, Store}
use lmserve.KvWorker.Copy.{Device, gpu, host, disk, copy_kv}
use lmserve.KvWorker.Directions.{size}
use lmserve.KvWorker.CopyKv.{supported, queued}
use lmserve.KvWorker.Table.{CopyKvRequest, Blocks, replay, move_all}
use lmserve.KvWorker.Refinement.{Refines, IsServable, copy_kv-Refines}
use lmserve.Services.{
  InitCacheResponse, kv_worker_params, init_cache_service, copy_kv_service, serve_kv,
}

-- The number of blocks of a device in the reply.
abbrev pub replied : InitCacheResponse → Device → ℕ
replied reply gpu = reply.num_gpu_blocks
replied reply host = reply.num_host_blocks
replied reply disk = reply.num_disk_blocks

-- The values that the saves of a sequence of requests take from the queue of the model worker.
abbrev pub all_queued : Dims → List CopyKvRequest → ℕ
all_queued d [] = 0
all_queued d (r ∷ rs) = queued d r.block_mappings r.src_device r.dst_device + all_queued d rs

-- A request in a supported direction that names blocks below the replied numbers only.
pub record IsWithin (reply : InitCacheResponse) (r : CopyKvRequest) : Type 0 where
  pub direction : supported r.src_device r.dst_device ≡ true
  pub blocks :
      All
        (All (λ e.
          (e.src_block_id < replied reply r.src_device)
          × (e.dst_block_id < replied reply r.dst_device)))
        r.block_mappings

abbrev pub reply_of : CacheBlocks → InitCacheResponse
reply_of n = record {
  num_gpu_blocks = n.num_gpu_blocks;
  num_host_blocks = n.num_host_blocks;
  num_disk_blocks = n.num_disk_blocks;
}

reply_sizes :
    (n : CacheBlocks) (dev : Device) → replied (reply_of n) dev ≡ size (kv_worker_params n) dev
reply_sizes n gpu = refl
reply_sizes n host = refl
reply_sizes n disk = refl

raise_ok : {A : Type 0} {e : Error} {a : A} → raise e ≡ ok a → ⊥
raise_ok h = cc

module _ (c : ModelConfig) (block_size : ℕ) (sizes : CacheSizes) {d : Dims}
    {reply : InitCacheResponse}
    (started : init_cache_service c block_size sizes ≡ ok (d, reply)) where
  replied_sizes : (dev : Device) → replied reply dev ≡ size d dev
  unfolding init_cache_service
  replied_sizes dev = elim (Result-cases (init_cache c block_size sizes)) [
    | inl (e, failed) ↦
        let bad : init_cache_service c block_size sizes ≡ raise e =
          rw (init_cache_service, failed) refl in
        absurd (raise_ok (sym bad ∙ started))
    | inr (n, done) ↦
        let made : init_cache_service c block_size sizes ≡ ok (kv_worker_params n, reply_of n) =
          rw (init_cache_service, done) refl in
        let same : ok (kv_worker_params n, reply_of n) ≡ ok (d, reply) = sym made ∙ started in
        subst (λ (p : Dims × InitCacheResponse). replied p.1 dev ≡ size p.0 dev) (ok_inj same)
          (reply_sizes n dev)
  ]

  request-IsServable : (r : CopyKvRequest) → IsWithin reply r → IsServable d r
  request-IsServable r h = record {
    direction = h.direction;
    range =
        subst
          (λ (f : Device → ℕ).
            All (All (λ e. (e.src_block_id < f r.src_device) × (e.dst_block_id < f r.dst_device)))
              r.block_mappings)
          (fun_ext replied_sizes) h.blocks;
  }

  module _ {A : Type 0} where
    -- After a reply to `InitCache`, while no forward pass runs and the queue holds the values from the
    -- model worker that the saves from the GPU wait for, one for each layer, every sequence of `CopyKV` requests in supported
    -- directions that name blocks below the replied numbers is answered with success, each of them,
    -- and the memory of the KV worker refines the plain table of blocks on which the requests are
    -- replayed.
    pub serve_kv-Refines :
        (rs : List CopyKvRequest) (s : Store A) (b : Blocks A)
        → All (IsWithin reply) rs
        → Refines d s b
        → all_queued d rs ≤ s.kv_queue
        → ((serve_kv d rs s).0 ≡ map (λ r. ok true) rs)
          × Refines d (serve_kv d rs s).1 (replay rs b)
    unfolding serve_kv copy_kv_service replay
    serve_kv-Refines [] s b h before enough = (refl, before)
    serve_kv-Refines (r ∷ rs) s b h before enough =
        let one = copy_kv-Refines d r s b (request-IsServable r h.0) before (omega arith) in
        let rest =
          serve_kv-Refines rs (copy_kv d r.block_mappings r.src_device r.dst_device s).1
            (move_all r.src_device r.dst_device (concat r.block_mappings) b) h.1 one.1
            (omega (arith, one.2)) in
        (rw one.0 (ap (◌∷◌ (ok true)) rest.0), rest.1)
