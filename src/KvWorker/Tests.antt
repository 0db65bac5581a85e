-- ===== src/KvWorker/Tests.antt =====
-- Witnesses: a worker with two layers, and transfers by an agent that answers at its second poll.
use lmserve.Prelude.{
  All, ℕ, zero, suc, ◌≤◌, ◌<◌, ◌≡◌, ◌≢◌, ◌+◌, ◌*◌, refl, true, false, ◌⊎◌, List, [], ◌∷◌, some,
  arith, ok,
}
use lmserve.KvWorker.DiskFile.{CacheFormat}
use lmserve.KvWorker.Store.{BlockMapping, Dims, Store}
use lmserve.KvWorker.Copy.{gpu, host, copy_kv}
use lmserve.KvWorker.Contents.{source_of}
use lmserve.KvWorker.Directions.{view, InRange}
use lmserve.KvWorker.CopyKv.{Copied, copy_kv-contents}
use lmserve.KvWorker.RoundTrip.{back, copy_kv-back}
use lmserve.KvWorker.Handshake.{
  Request, Handshake, start, Step, copy_in, record_pre, put_model, get_model, wait_pre, compute,
  Reach, here, next, Finished,
}
use lmserve.KvWorker.Handshake.Order.{handshake-order}
use lmserve.KvWorker.Handshake.Progress.{handshake-finishes}
use lmserve.KvWorker.Transfer.{XferState, finished, busy, Agent, push_kv, pull_kv}
use lmserve.KvWorker.Transfer.Outcome.{transfers-return}

abbrev pub dims : Dims
dims = record { num_layers = 2; num_gpu_blocks = 4; num_host_blocks = 6; num_disk_blocks = 8 }

abbrev pub content : Store ℕ
content = record {
  gpu = λ a. 100 + a;
  host = λ b l. 200 + 10 * b + l;
  disk = λ b l. 300 + 10 * b + l;
  signals = [];
  kv_queue = 3;
}

-- Blocks 1 and 3 go to 5 and 0.
abbrev pub mapping : BlockMapping
mapping =
    record { src_block_id = 1; dst_block_id = 5 }
    ∷ record { src_block_id = 3; dst_block_id = 0 }
    ∷ []

pub range : All (InRange dims gpu host) mapping
range = ((omega arith, omega arith), ((omega arith, omega arith), tt))

copy_kv-contents_example :
    Copied dims (mapping ∷ []) gpu host content (copy_kv dims (mapping ∷ []) gpu host content)
copy_kv-contents_example =
    copy_kv-contents dims (mapping ∷ []) gpu host content refl (range, tt) (omega arith)

copy_kv-back_example :
    ((copy_kv dims (mapping ∷ []) gpu host content).0 ≡ ok tt)
    × ((copy_kv dims
          (back mapping ∷ [])
          host
          gpu
          (copy_kv dims (mapping ∷ []) gpu host content).1).0
        ≡ ok tt)
    × (view dims gpu
          (copy_kv dims
            (back mapping ∷ [])
            host
            gpu
            (copy_kv dims (mapping ∷ []) gpu host content).1).1
          1
          0
        ≡ 101)
unfolding source_of copy_kv
copy_kv-back_example =
    copy_kv-back dims mapping gpu host content (copy_kv dims (mapping ∷ []) gpu host content).1 refl
      range (refl, (refl, tt)) (omega arith) (omega arith) refl 1 5 0 refl (omega arith)

-- One layer: loaded, and the model at its hook.
abbrev one_layer : Request
one_layer = record {
  num_layers = 1;
  wait_before_execute = true;
  record_after_execute = true;
  loads = true;
  saves = true;
}

abbrev loaded : Handshake
loaded = record start { copied_in = 1; recorded_pre = 1; put_model = 1 }

abbrev at_layer : Handshake
at_layer = record loaded { got_model = 1; waited_pre = 1 }

abbrev run_to_loaded : Reach one_layer 3 loaded
run_to_loaded =
    next
      (next (next here (copy_in start refl refl (omega arith)))
        (record_pre (record start { copied_in = 1 }) (omega arith)))
      (put_model (record start { copied_in = 1; recorded_pre = 1 }) (omega arith))

abbrev run_to_layer : Reach one_layer 6 (record at_layer { computed = 1 })
run_to_layer =
    next
      (next (next run_to_loaded (get_model loaded refl refl (omega arith) refl (omega arith)))
        (wait_pre (record loaded { got_model = 1 }) (omega arith)))
      (compute at_layer (omega arith) (omega arith) refl)

handshake-order_example : (1 ≤ 1) × (1 ≤ 1) × (1 ≤ 1) × (0 ≤ 0) × (0 ≤ 0) × (0 ≤ 1)
handshake-order_example =
    handshake-order one_layer 6 (record at_layer { computed = 1 }) run_to_layer refl

handshake-finishes_example :
    (6 ≤ 11)
    × (Finished one_layer (record at_layer { computed = 1 })
        ⊎ ((t : Handshake) × Step one_layer (record at_layer { computed = 1 }) t))
handshake-finishes_example =
    handshake-finishes one_layer 6 (record at_layer { computed = 1 }) refl refl run_to_layer

abbrev nothing_to_load : Request
nothing_to_load = record one_layer { loads = false }

abbrev answers : ℕ → XferState
answers zero = busy
answers (suc n) = finished

abbrev agent : Agent
agent = record {
  Desc = ℕ;
  Bytes = List ℕ;
  Handle = List ℕ;
  get_xfer_descs = λ l. l;
  get_serialized_descs = λ l. l;
  deserialize_descs = λ l. l;
  initialize_xfer = λ op local remote. some remote;
  transfer = λ h. busy;
  check_xfer_state = λ h. answers;
}

settled : (j : ℕ) → j < 1 → answers j ≡ busy
settled zero h = refl
settled (suc j) h = absurd (omega arith)

busy_once : finished ≢ busy
busy_once e = cc

transfers-return_example :
    (push_kv agent 6 10 (7 ∷ 8 ∷ 9 ∷ []) (1 ∷ 2 ∷ []) ≡ ok (some true))
    × (pull_kv agent 6 10 (7 ∷ 8 ∷ 9 ∷ []) (1 ∷ 2 ∷ []) ≡ ok (some true))
transfers-return_example =
    transfers-return agent 6 10 (7 ∷ 8 ∷ 9 ∷ []) (1 ∷ 2 ∷ []) 1 (omega arith, (omega arith, tt))
      (omega arith) (λ h. (λ j lo hi. settled j hi, busy_once))

abbrev asked : CacheFormat
asked = record { num_blocks = 4; num_layers = 2; block_size = 8; dtype = 1 }
